-- ===== src/Scheduler/Leasing.antt =====
-- Granting, renewing and ending leases: server/internal/scheduler/lease.go.
-- Each read of the clock and of the random source is an argument, and so is `sanitizeReason`.
use kilnci.Base.{
  ℕ, zero, suc, ◌+◌, ◌*◌, Bool, true, false, not, ◌&&◌, ◌||◌, List, [], ◌∷◌, Option, none, some,
  ◌==◌, string_eq, if◌then◌else◌, String, ltb,
}
use kilnci.Base.Int.{ℤ, pos}
use kilnci.Base.Results.{Result, ok, err}
use kilnci.Domain.{
  RunStatus, JobStatus, run_status_eq, job_status_eq, Error, err_not_found, err_conflict,
  err_validation, err_unauthenticated,
}
use kilnci.Engine.States.{job_transition}
use kilnci.Leases.{
  Job, LeaseRef, LeaseState, acquire_lease, get_leased_job, release_lease, renew_lease,
  complete_leased_job,
}
use kilnci.Scheduler.{
  Run, Tables, M, ◌>>=◌, ◌>>◌, return, fail_with, check_error, in_tx, on_jobs, ask_jobs, lock_run,
  lock_runner, list_lease_candidates,
}
use kilnci.Scheduler.Progress.{progress_run}

-- The `Runner` that asks, as its authentication loaded it.
pub record Caller : Type 0 where
  pub id : String
  pub org_id : String
  pub labels : List String
  pub trusted : Bool

pub record Lease : Type 0 where
  pub id : String
  pub expires_at : ℕ
  pub job : Job
  pub run : Run

pub record Options : Type 0 where
  pub lease_ttl : ℕ
  pub timeout_grace : ℕ

abbrev pub max_candidates : ℕ
max_candidates = 10

unfoldable pub ref : Caller → String → String → LeaseRef
ref r job_id lease_id = record {
  org_id = r.org_id;
  job_id = job_id;
  runner_id = r.id;
  lease_id = lease_id;
}

unfoldable pub get_leased : LeaseRef → ℕ → M Job
get_leased held now t =
    (elim (get_leased_job held now t.jobs) [ none ↦ err err_not_found | some j ↦ ok j ], t)

abbrev pub is_conflict : Error → Bool
is_conflict err_conflict = true
is_conflict _ = false

abbrev is_not_found : Error → Bool
is_not_found err_not_found = true
is_not_found _ = false

-- A runner that is gone is not authenticated.
unfoldable pub lock_caller : Caller → M (Unit {0})
lock_caller r t =
    let (found, t') = lock_runner r.org_id r.id t in
    elim found [
      | ok u ↦ (ok u, t')
      | err e ↦ (err (if is_not_found e then err_unauthenticated else e), t')
    ]

unfoldable pub grant : Caller → String → String → ℕ → ℕ → M (Unit {0})
grant r job_id lease_id now expires_at t =
    on_jobs
      (acquire_lease
        (record {
          org_id = r.org_id;
          job_id = job_id;
          runner_id = r.id;
          lease_id = lease_id;
          now = now;
          expires_at = expires_at;
        })
        t.runners)
      t

unfoldable pub may_lease : RunStatus → Option Error
may_lease s =
    if not (s == RunStatus.queued) && not (s == RunStatus.running) then some err_conflict else none

-- After a conflict the loop goes on: another runner won the job, or its run moved on.
abbrev pub next_candidate :
    Result Error Lease × Tables → M (Option Lease) → Result Error (Option Lease) × Tables
next_candidate (ok lease, t) rest = (ok (some lease), t)
next_candidate (err e, t) rest = elim (is_conflict e) [ true ↦ rest t | false ↦ (err e, t) ]

unfoldable pub give_back : LeaseRef → ℕ → Job → M (Unit {0})
give_back held now job = do
  lock_run held.org_id job.run_id
  check_error (job_transition JobStatus.running JobStatus.queued)
  ask_jobs (release_lease held now)
  return tt

unfoldable pub release : Caller → String → String → ℕ → M (Unit {0})
release r job_id lease_id now t = elim (get_leased_job (ref r job_id lease_id) now t.jobs) [
  | none ↦ (ok tt, t)
  | some job ↦ in_tx (give_back (ref r job_id lease_id) now job) t
]

-- `RenewLease`; a lost lease is the error not found.
unfoldable pub renew : LeaseRef → ℕ → ℕ → M LeaseState
renew held now expires_at t =
    let (state, js) = renew_lease held now expires_at t.jobs in (state, record t { jobs = js })

pub record HeartbeatResult : Type 0 where
  pub expires_at : ℕ
  pub cancel : Bool
  pub reason : String

-- `now.After(started + timeout)`
abbrev ran_out : LeaseState → ℕ → Bool
ran_out j now = elim j.started_at [
  | none ↦ false
  | some s ↦ ltb (s + j.timeout_seconds * 1000000) now
]

pub record Report : Type 0 where
  pub status : JobStatus
  pub exit_code : Option ℤ
  pub reason : String

abbrev is_zero : Option ℤ → Bool
is_zero (some (pos zero)) = true
is_zero _ = false

-- The checks of a report: the status, and the exit code of a success.
unfoldable pub check_report : Report → Option Error
check_report res =
    if not (
      res.status == JobStatus.succeeded
      || res.status == JobStatus.failed
      || res.status == JobStatus.canceled)
    then some err_validation
    else if res.status == JobStatus.succeeded && not (is_zero res.exit_code)
    then some err_validation
    else none

module _ (observe : Run → Option Error) (opts : Options) where
  -- The body of the transaction of `tryLease`.
  unfoldable pub lease_job : Caller → Job → String → ℕ → ℕ → M Lease
  lease_job r c lease_id now later = do
    run ← lock_run r.org_id c.run_id
    check_error (may_lease run.status)
    check_error (job_transition JobStatus.queued JobStatus.running)
    lock_caller r
    grant r c.id lease_id now (now + opts.lease_ttl)
    moved ← progress_run observe r.org_id c.run_id later
    job ← get_leased (ref r c.id lease_id) now
    return (record { id = lease_id; expires_at = now + opts.lease_ttl; job = job; run = moved })

  unfoldable pub try_lease : Caller → Job → Result Error String → ℕ → ℕ → M Lease
  try_lease r c (err e) now later = fail_with e
  try_lease r c (ok lease_id) now later = in_tx (lease_job r c lease_id now later)

  -- The loop over the candidates; the i-th one draws an id, and reads the clock twice.
  unfoldable pub try_candidates :
      Caller → (ℕ → Result Error String) → (ℕ → ℕ) → (ℕ → ℕ) → ℕ → List Job → M (Option Lease)
  try_candidates r draw now later i [] t = (ok none, t)
  try_candidates r draw now later i (c ∷ cs) t =
      next_candidate (try_lease r c (draw i) (now i) (later i) t)
        (try_candidates r draw now later (suc i) cs)

  unfoldable pub lease : Caller → (ℕ → Result Error String) → (ℕ → ℕ) → (ℕ → ℕ) → M (Option Lease)
  lease r draw now later =
      if r.id == "" || r.org_id == ""
      then fail_with err_unauthenticated
      else list_lease_candidates r.org_id r.labels r.trusted max_candidates
        >>= try_candidates r draw now later 0

  unfoldable pub heartbeat : Caller → String → String → ℕ → M HeartbeatResult
  heartbeat r job_id lease_id now = do
    state ← renew (ref r job_id lease_id) now (now + opts.lease_ttl)
    return (
        if state.cancel_requested
        then record { expires_at = now + opts.lease_ttl; cancel = true; reason = "canceled" }
        else if ran_out state now
        then record { expires_at = now + opts.lease_ttl; cancel = true; reason = "timed out" }
        else record { expires_at = now + opts.lease_ttl; cancel = false; reason = "" })

  unfoldable pub record_result : (String → String) → LeaseRef → Report → Job → ℕ → ℕ → M (Unit {0})
  record_result sanitize held res job now later = do
    lock_run held.org_id job.run_id
    check_error (job_transition JobStatus.running res.status)
    on_jobs (complete_leased_job held res.status res.exit_code (sanitize res.reason) now)
    progress_run observe held.org_id job.run_id later
    return tt

  -- A lost lease is the error not found.
  unfoldable pub complete :
      (String → String) → Caller → String → String → Report → ℕ → ℕ → M (Unit {0})
  complete sanitize r job_id lease_id res now later = do
    check_error (check_report res)
    job ← get_leased (ref r job_id lease_id) now
    in_tx (record_result sanitize (ref r job_id lease_id) res job now later)
