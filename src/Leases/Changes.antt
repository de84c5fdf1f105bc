-- ===== src/Leases/Changes.antt =====
-- Histories of calls on the job table of store/leases.go and store/runs.go.
use kilnci.Base.{
  ℕ, List, [], ◌∷◌, Option, none, some, ◌≡◌, ◌≢◌, String, refl, ap, arith, false, if◌then◌else◌,
}
use kilnci.Base.Int.{ℤ, pos}
use kilnci.Domain.{JobStatus}
use kilnci.Engine.States.{job_transition}
use kilnci.Leases.{
  Job, Runner, Update, update_row, LeaseGrant, LeaseRef, execute, acquire_lease_query,
  complete_query, release_query, renew_query, requeue_query, fail_query, cancel_query, status_query,
  acquire_lease, complete_leased_job, release_lease, renew_lease, requeue_expired_job,
  fail_expired_job, request_job_cancel, update_job_status, or_error, reported, fits_int32,
}

-- A call of the store by the scheduler, or by the services for `cancel` and `update`.
pub data Call : Type 0 where
  acquire : LeaseGrant → Call
  complete : LeaseRef → JobStatus → Option ℤ → String → ℕ → Call
  release : LeaseRef → ℕ → Call
  renew : LeaseRef → ℕ → ℕ → Call
  requeue : String → String → ℕ → Call
  fail : String → String → JobStatus → String → ℕ → ℕ → Call
  cancel : String → String → Call
  update : String → String → JobStatus → JobStatus → ℕ → String → Call

unfoldable pub perform : Call → List Runner → List Job → List Job
perform (acquire g) rs js = (acquire_lease g rs js).1
perform (complete ref to code reason now) rs js = (complete_leased_job ref to code reason now js).1
perform (release ref now) rs js = (release_lease ref now js).1
perform (renew ref now expires_at) rs js = (renew_lease ref now expires_at js).1
perform (requeue org_id job_id now) rs js = (requeue_expired_job org_id job_id now js).1
perform (fail org_id job_id to reason now grace) rs js =
    (fail_expired_job org_id job_id to reason now grace js).1.1
perform (cancel org_id job_id) rs js = (request_job_cancel org_id job_id js).1
perform (update org_id job_id from to at reason) rs js =
    (update_job_status org_id job_id from to at reason js).1

-- What the callers check before a call: `Complete` and `reapOne` take these statuses only, and an
-- update without a lease is a transition that `JobTransition` accepts and never a start.
abbrev pub Checked : Call → Type 0
Checked (complete ref to code reason now) =
    job_transition JobStatus.running to ≡ none × (to ≢ JobStatus.queued)
Checked (fail org_id job_id to reason now grace) =
    job_transition JobStatus.running to ≡ none × (to ≢ JobStatus.queued)
Checked (update org_id job_id from to at reason) =
    (job_transition from to ≡ none) × (to ≢ JobStatus.running)
Checked _ = Unit

-- Changes no row.
abbrev pub idle : Update
idle = record { selects = λ j. false; sets = λ j. j }

abbrev pub query : Call → List Runner → List Job → Update
query (acquire g) rs js = acquire_lease_query g rs js
query (complete ref to code reason now) rs js =
    if fits_int32 code then complete_query ref to code reason now else idle
query (release ref now) rs js = release_query ref now
query (renew ref now expires_at) rs js = renew_query ref now expires_at
query (requeue org_id job_id now) rs js = requeue_query org_id job_id now
query (fail org_id job_id to reason now grace) rs js =
    if fits_int32 (some (pos grace)) then fail_query org_id job_id to reason now grace else idle
query (cancel org_id job_id) rs js = cancel_query org_id job_id
query (update org_id job_id from to at reason) rs js = status_query org_id job_id from to at reason

execute-idle : (js : List Job) → execute idle js ≡ js
unfolding execute update_row
execute-idle [] = refl
execute-idle (j ∷ js) = ap (λ xs. j ∷ xs) (execute-idle js)

pub perform-execute :
    (c : Call) (rs : List Runner) (js : List Job) → perform c rs js ≡ execute (query c rs js) js
unfolding perform acquire_lease complete_leased_job release_lease renew_lease requeue_expired_job
    fail_expired_job request_job_cancel update_job_status or_error reported
perform-execute (complete ref to code reason now) rs js = ground (arith, execute-idle js)
perform-execute (fail org_id job_id to reason now grace) rs js = ground (arith, execute-idle js)
perform-execute c rs js = ground arith
