-- ===== src/Scheduler/Progress.antt =====
-- Moving a run forward: server/internal/scheduler/progress.go.
-- The observer is an argument that answers with its error, if any.
use kilnci.Base.{
  ℕ, Bool, not, ◌&&◌, ◌||◌, List, [], ◌∷◌, Option, none, some, ◌==◌, string_eq, if◌then◌else◌,
  String, map, any,
}
use kilnci.Domain.{
  RunStatus, JobStatus, run_status_eq, job_status_eq, Error, internal, run_is_terminal,
}
use kilnci.Engine.States.{run_transition, job_transition, run_outcome}
use kilnci.Engine.Dag.{Node}
use kilnci.Engine.Dag.Progress.{Outcome, waiting, active, succeeded, blocked, advance}
use kilnci.Leases.{Job, update_job_status}
use kilnci.Scheduler.{
  Run, M, ◌>>=◌, ◌>>◌, return, fail_with, check_error, in_tx, on_jobs, lock_run, list_jobs,
  update_run_status, or_else,
}

abbrev pub skip_reason : String
skip_reason = "a job it needs did not succeed"

unfoldable pub outcome_of : JobStatus → Outcome
outcome_of JobStatus.pending = waiting
outcome_of JobStatus.queued = active
outcome_of JobStatus.running = active
outcome_of JobStatus.succeeded = succeeded
outcome_of _ = blocked

-- `byName[name]`
unfoldable pub by_name : String → List Job → Option Job
by_name name [] = none
by_name name (j ∷ js) = if j.name == name then some j else by_name name js

unfoldable pub outcomes_of : List Job → String → Outcome
outcomes_of jobs name = elim (by_name name jobs) [ none ↦ waiting | some j ↦ outcome_of j.status ]

unfoldable pub nodes_of : List Job → List Node
nodes_of jobs = map (λ j. record { id = j.name; needs = j.needs }) jobs

-- `j.Status = to` on the loaded jobs.
abbrev pub set_status : String → JobStatus → Job → Job
set_status name to j = if j.name == name then record j { status = to } else j

unfoldable pub set_job : Job → JobStatus → ℕ → String → M (Unit {0})
set_job j to now reason = do
  check_error (job_transition j.status to)
  on_jobs (update_job_status j.org_id j.id j.status to now reason)

-- The loop over the names; a name without a job would be a nil pointer, and `Advance` returns none.
unfoldable pub set_jobs : List String → JobStatus → ℕ → String → List Job → M (List Job)
set_jobs [] to now reason jobs = return jobs
set_jobs (name ∷ names) to now reason jobs = elim (by_name name jobs) [
  | none ↦ fail_with internal
  | some j ↦
      set_job j to now reason >>= λ _. set_jobs names to now reason (map (set_status name to) jobs)
]

abbrev pub after_start : JobStatus → Bool
after_start s =
    not (s == JobStatus.pending)
    && not (s == JobStatus.queued)
    && not (s == JobStatus.skipped)
    && not (s == JobStatus.canceled)

unfoldable pub started : List Job → Bool
started jobs = any (λ j. after_start j.status) jobs

module _ (observe : Run → Option Error) where
  unfoldable pub set_run : Run → RunStatus → ℕ → M Run
  set_run r to now = do
    check_error (run_transition r.status to)
    let started_at : Option ℕ = if to == RunStatus.running then some now else none
    let finished_at : Option ℕ = if run_is_terminal to then some now else none
    update_run_status (record {
      org_id = r.org_id;
      run_id = r.id;
      from = r.status;
      to = to;
      started_at = started_at;
      finished_at = finished_at;
    })
    let changed = record r {
      status = to;
      started_at = or_else r.started_at started_at;
      finished_at = or_else r.finished_at finished_at;
    }
    check_error (observe changed)
    return changed

  unfoldable pub finish_run : Run → List Job → ℕ → M Run
  finish_run run jobs now = elim (run_outcome (map (λ j. j.status) jobs)) [
    | some final ↦ set_run run final now
    | none ↦
        if started jobs && run.status == RunStatus.queued
        then set_run run RunStatus.running now
        else return run
  ]

  -- The body of the transaction of `Progress`.
  unfoldable pub progress_run : String → String → ℕ → M Run
  progress_run org_id run_id now = do
    run ← lock_run org_id run_id
    if run_is_terminal run.status || run.status == RunStatus.awaiting_approval
        then return run
        else (do
          jobs ← list_jobs org_id run_id
          let decided = advance (nodes_of jobs) (outcomes_of jobs)
          skipped ← set_jobs decided.1 JobStatus.skipped now skip_reason jobs
          queued ← set_jobs decided.0 JobStatus.queued now "" skipped
          finish_run run queued now)

  unfoldable pub progress : String → String → ℕ → M Run
  progress org_id run_id now = in_tx (progress_run org_id run_id now)
