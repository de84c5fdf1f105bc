-- ===== src/Scheduler.antt =====
-- The store that the scheduler works on, and its transactions: server/internal/store/store.go, runs.go
-- and leases.go with the queries of store/db.
-- The rows of a table stand in the order of their ids. A run's row has the columns that the
-- scheduler reads or writes.
pub mod Progress
pub mod Leasing
pub mod Reaping
pub mod Calls
mod Operations
pub mod Kept
mod Answers
mod Tests
use kilnci.Base.{
  ℕ, ◌+◌, Bool, true, false, not, ◌&&◌, ◌||◌, List, [], ◌∷◌, Option, none, some, ◌==◌, string_eq,
  if◌then◌else◌, String, leb, ltb, take,
}
use kilnci.Base.Int.{pos}
use kilnci.Base.Results.{Result, ok, err}
use kilnci.Domain.{
  RunStatus, JobStatus, run_status_eq, job_status_eq, Error, err_not_found, err_conflict,
  err_validation,
}
use kilnci.Leases.{
  Job, Runner, LeaseGrant, LeaseRef, is_due, contained, is_running, acquire_lease, release_lease,
  get_leased_job, renew_lease, fits_int32, complete_leased_job, requeue_expired_job,
  fail_expired_job, update_job_status,
}

pub record Run : Type 0 where
  pub id : String
  pub org_id : String
  pub status : RunStatus
  pub trusted : Bool
  pub started_at : Option ℕ
  pub finished_at : Option ℕ

pub record Tables : Type 0 where
  pub runs : List Run
  pub jobs : List Job
  pub runners : List Runner

-- A call on the store: an error does not undo what was written before it.
abbrev pub M : Type 0 → Type 0
M A = Tables → Result Error A × Tables

abbrev pub chain : {A B : Type 0} → Result Error A × Tables → (A → M B) → Result Error B × Tables
chain (ok a, t) f = f a t
chain (err e, t) f = (err e, t)

infixl 5 ◌>>=◌ ◌>>◌
abbrev pub ◌>>=◌ : {A B : Type 0} → M A → (A → M B) → M B
◌>>=◌ m f t = chain (m t) f

abbrev pub ◌>>◌ : {A B : Type 0} → M A → M B → M B
m >> k = m >>= λ _. k

abbrev pub return : {A : Type 0} → A → M A
return a t = (ok a, t)

abbrev pub fail_with : {A : Type 0} → Error → M A
fail_with e t = (err e, t)

-- A check whose error, if any, ends the function.
abbrev pub check_error : Option Error → M (Unit {0})
check_error none t = (ok tt, t)
check_error (some e) t = (err e, t)

-- `pgx.BeginTxFunc` commits when its function returns nil, and else rolls back to the tables before.
abbrev pub settle : {A : Type 0} → Tables → Result Error A × Tables → Result Error A × Tables
settle t (ok a, t') = (ok a, t')
settle t (err e, t') = (err e, t)

-- `InTx`: an error rolls everything back. A call that joins a transaction runs its body bare.
unfoldable pub in_tx : {A : Type 0} → M A → M A
in_tx m t = settle t (m t)

-- A method over the job table with an error or a result.
abbrev pub on_jobs : (List Job → Option Error × List Job) → M (Unit {0})
on_jobs f t =
    let (e, js) = f t.jobs in (elim e [ none ↦ ok tt | some x ↦ err x ], record t { jobs = js })

abbrev pub ask_jobs : (List Job → Bool × List Job) → M Bool
ask_jobs f t = let (b, js) = f t.jobs in (ok b, record t { jobs = js })

abbrev pub is_run : String → String → Run → Bool
is_run org_id run_id r = r.org_id == org_id && r.id == run_id

unfoldable pub find_run : String → String → List Run → Option Run
find_run org_id run_id [] = none
find_run org_id run_id (r ∷ rs) =
    if is_run org_id run_id r then some r else find_run org_id run_id rs

unfoldable pub lock_run : String → String → M Run
lock_run org_id run_id t =
    (elim (find_run org_id run_id t.runs) [ none ↦ err err_not_found | some r ↦ ok r ], t)

unfoldable pub jobs_of : String → String → List Job → List Job
jobs_of org_id run_id [] = []
jobs_of org_id run_id (j ∷ js) =
    let rest = jobs_of org_id run_id js in
    if j.org_id == org_id && j.run_id == run_id then j ∷ rest else rest

unfoldable pub list_jobs : String → String → M (List Job)
list_jobs org_id run_id t = (ok (jobs_of org_id run_id t.jobs), t)

-- `COALESCE`
abbrev pub or_else : Option ℕ → Option ℕ → Option ℕ
or_else none o = o
or_else (some x) o = some x

pub record RunStatusChange : Type 0 where
  pub org_id : String
  pub run_id : String
  pub from : RunStatus
  pub to : RunStatus
  pub started_at : Option ℕ
  pub finished_at : Option ℕ

unfoldable pub change_run : RunStatusChange → Run → Run
change_run c r =
    if is_run c.org_id c.run_id r && r.status == c.from
    then record r {
      status = c.to;
      started_at = or_else r.started_at c.started_at;
      finished_at = or_else r.finished_at c.finished_at;
    }
    else r

unfoldable pub changes_run : RunStatusChange → List Run → Bool
changes_run c [] = false
changes_run c (r ∷ rs) =
    if is_run c.org_id c.run_id r && r.status == c.from then true else changes_run c rs

unfoldable pub change_runs : RunStatusChange → List Run → List Run
change_runs c [] = []
change_runs c (r ∷ rs) = change_run c r ∷ change_runs c rs

unfoldable pub update_run_status : RunStatusChange → M (Unit {0})
update_run_status c t = (
  if changes_run c t.runs then ok tt else err err_conflict,
  record t { runs = change_runs c t.runs },
)

unfoldable pub has_runner : String → String → List Runner → Bool
has_runner org_id runner_id [] = false
has_runner org_id runner_id (r ∷ rs) =
    if r.org_id == org_id && r.id == runner_id then true else has_runner org_id runner_id rs

unfoldable pub lock_runner : String → String → M (Unit {0})
lock_runner org_id runner_id t =
    (if has_runner org_id runner_id t.runners then ok tt else err err_not_found, t)

-- `ORDER BY` an instant, nulls last; rows with the same instant stay in the order of their ids.
abbrev before_null : Option ℕ → Option ℕ → Bool
before_null none b = false
before_null (some a) none = true
before_null (some a) (some b) = ltb a b

unfoldable pub insert_by : (Job → Option ℕ) → Job → List Job → List Job
insert_by key j [] = j ∷ []
insert_by key j (k ∷ ks) =
    if before_null (key k) (key j) then k ∷ insert_by key j ks else j ∷ (k ∷ ks)

unfoldable pub order_by : (Job → Option ℕ) → List Job → List Job
order_by key [] = []
order_by key (j ∷ js) = insert_by key j (order_by key js)

abbrev pub keep : (Job → Bool) → List Job → List Job
keep p [] = []
keep p (j ∷ js) = let rest = keep p js in if p j then j ∷ rest else rest

unfoldable pub list_lease_candidates : String → List String → Bool → ℕ → M (List Job)
list_lease_candidates org_id labels trusted limit t = (
  ok (
      take limit (
        order_by (λ j. j.queued_at)
          (keep
            (λ j.
              j.org_id == org_id
              && j.status == JobStatus.queued
              && contained j.labels labels
              && (j.trusted || not trusted))
            t.jobs))),
  t,
)

unfoldable pub list_expired_leases : ℕ → ℕ → ℕ → M (List Job)
list_expired_leases now grace limit t = (
  if not (fits_int32 (some (pos grace)))
      then err err_validation
      else ok (
          take limit (
            order_by (λ j. j.lease_expires_at)
              (keep
                (λ j.
                  is_running j
                  && (is_due j.lease_expires_at 0 now
                      || is_due j.started_at (j.timeout_seconds + grace) now))
                t.jobs))),
  t,
)
