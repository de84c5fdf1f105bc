-- ===== src/Runs.antt =====
-- Canceling and approving a run: server/internal/service/runs/runs.go.
-- The transactions alone: the caller has been authorized, and the run has been read once, before.
-- The observer and the audit log are arguments that answer with their error, if any.
mod Kept
mod Tests
use kilnci.Base.{ℕ, Bool, List, [], ◌∷◌, Option, none, some, ◌==◌, String, if◌then◌else◌}
use kilnci.Base.Results.{ok, err}
use kilnci.Domain.{RunStatus, JobStatus, run_status_eq, Error, err_conflict, run_is_terminal}
use kilnci.Engine.States.{run_transition, job_transition}
use kilnci.Leases.{Job, update_job_status, request_job_cancel}
use kilnci.Scheduler.{
  Run, Tables, M, ◌>>=◌, ◌>>◌, return, fail_with, check_error, in_tx, on_jobs, lock_run, list_jobs,
  update_run_status,
}
use kilnci.Scheduler.Progress.{progress_run}

unfoldable pub cancel_unstarted : Job → ℕ → M (Unit {0})
cancel_unstarted j now = do
  check_error (job_transition j.status JobStatus.canceled)
  on_jobs (update_job_status j.org_id j.id j.status JobStatus.canceled now "canceled by a user")

-- The body of the loop over the jobs.
unfoldable pub cancel_job : Job → ℕ → M (Unit {0})
cancel_job j now = elim j.status [
  | JobStatus.pending ↦ cancel_unstarted j now
  | JobStatus.queued ↦ cancel_unstarted j now
  | JobStatus.running ↦ on_jobs (request_job_cancel j.org_id j.id)
  | _ ↦ return tt
]

unfoldable pub cancel_jobs : List Job → ℕ → M (Unit {0})
cancel_jobs [] now = return tt
cancel_jobs (j ∷ js) now = cancel_job j now >> cancel_jobs js now

-- Any refused transition is the conflict that the run does not await approval.
unfoldable pub may_approve : RunStatus → Option Error
may_approve s = elim (run_transition s RunStatus.queued) [
  | none ↦ none
  | some e ↦ some err_conflict
]

module _ (observe : Run → Option Error) (audit : String → Run → Option Error) where
  -- A run whose jobs never started is canceled at once.
  unfoldable pub cancel_waiting : Run → ℕ → M (Unit {0})
  cancel_waiting run now = do
    check_error (run_transition run.status RunStatus.canceled)
    update_run_status (record {
      org_id = run.org_id;
      run_id = run.id;
      from = run.status;
      to = RunStatus.canceled;
      started_at = none;
      finished_at = some now;
    })
    check_error (observe (record run { status = RunStatus.canceled; finished_at = some now }))

  unfoldable pub cancel_run_tx : String → String → ℕ → ℕ → M (Unit {0})
  cancel_run_tx org_id run_id now later = do
    run ← lock_run org_id run_id
    check_error (if run_is_terminal run.status then some err_conflict else none)
    jobs ← list_jobs org_id run_id
    cancel_jobs jobs now
    if run.status == RunStatus.awaiting_approval
        then cancel_waiting run now
        else progress_run observe org_id run_id later >> return tt
    check_error (audit "runs:cancel" run)

  unfoldable pub cancel_run : String → String → ℕ → ℕ → M (Unit {0})
  cancel_run org_id run_id now later = in_tx (cancel_run_tx org_id run_id now later)

  unfoldable pub approve_run_tx : String → String → ℕ → M (Unit {0})
  approve_run_tx org_id run_id later = do
    run ← lock_run org_id run_id
    check_error (may_approve run.status)
    update_run_status (record {
      org_id = run.org_id;
      run_id = run.id;
      from = run.status;
      to = RunStatus.queued;
      started_at = none;
      finished_at = none;
    })
    check_error (observe (record run { status = RunStatus.queued }))
    progress_run observe org_id run_id later
    check_error (audit "runs:approve" run)

  unfoldable pub approve_run : String → String → ℕ → M (Unit {0})
  approve_run org_id run_id later = in_tx (approve_run_tx org_id run_id later)
