-- ===== src/Scheduler/Reaping.antt =====
-- Expired leases and timeouts: `Reap` of server/internal/scheduler/lease.go.
use kilnci.Base.{
  ℕ, ◌+◌, Bool, true, false, not, List, [], ◌∷◌, Option, none, some, ◌==◌, string_eq, if◌then◌else◌,
  String,
}
use kilnci.Base.Results.{ok, err}
use kilnci.Domain.{JobStatus, job_status_eq, Error}
use kilnci.Engine.States.{job_transition}
use kilnci.Leases.{Job, requeue_expired_job, fail_expired_job, is_due}
use kilnci.Scheduler.{
  Run, Tables, M, ◌>>=◌, ◌>>◌, return, check_error, in_tx, ask_jobs, lock_run, list_jobs,
  list_expired_leases,
}
use kilnci.Scheduler.Progress.{progress_run}
use kilnci.Scheduler.Leasing.{Options}

abbrev pub reap_batch : ℕ
reap_batch = 100

unfoldable pub job_by_id : String → List Job → Option Job
job_by_id id [] = none
job_by_id id (j ∷ js) = if j.id == id then some j else job_by_id id js

-- What becomes of a job that cannot be queued again, and why; the duration is printed by an argument.
unfoldable pub verdict : (ℕ → String) → Job → ℕ → JobStatus × String
verdict timed_out job now =
    if job.cancel_requested
    then (JobStatus.canceled, "canceled")
    else if is_due job.started_at job.timeout_seconds now
    then (JobStatus.failed, timed_out job.timeout_seconds)
    else (JobStatus.failed, "the runner stopped responding")

unfoldable pub fail_job : Job → JobStatus → String → ℕ → ℕ → M Bool
fail_job e to reason now grace t =
    let (bad, (changed, js)) = fail_expired_job e.org_id e.id to reason now grace t.jobs in
    (elim bad [ none ↦ ok changed | some x ↦ err x ], record t { jobs = js })

-- `Transition(running, queued) == nil`, which lets the job be queued again.
unfoldable pub requeue_job : Job → ℕ → M Bool
requeue_job e now = elim (job_transition JobStatus.running JobStatus.queued) [
  | none ↦ ask_jobs (requeue_expired_job e.org_id e.id now)
  | some x ↦ return false
]

module _ (observe : Run → Option Error) (opts : Options) (timed_out : ℕ → String) where
  unfoldable pub end_job : Job → Job → ℕ → ℕ → M Bool
  end_job e job now later = do
    check_error (job_transition JobStatus.running (verdict timed_out job now).0)
    failed ←
        fail_job e (verdict timed_out job now).0 (verdict timed_out job now).1 now
          opts.timeout_grace
    if not failed
        then return false
        else progress_run observe e.org_id e.run_id later >>= λ _. return true

  unfoldable pub reap_running : Job → Job → ℕ → ℕ → M Bool
  reap_running e job now later = do
    requeued ← requeue_job e now
    if requeued then return true else end_job e job now later

  -- The body of the transaction of `reapOne`.
  unfoldable pub reap_job : Job → ℕ → ℕ → M Bool
  reap_job e now later = do
    lock_run e.org_id e.run_id
    jobs ← list_jobs e.org_id e.run_id
    elim (job_by_id e.id jobs) [
      | none ↦ return false
      | some job ↦
          if not (job.status == JobStatus.running)
          then return false
          else reap_running e job now later
    ]

  unfoldable pub reap_one : Job → ℕ → ℕ → M Bool
  reap_one e now later = in_tx (reap_job e now later)

  -- How many jobs changed, and the errors; an error does not stop the loop.
  unfoldable pub reap_all : ℕ → (ℕ → ℕ) → ℕ → List Job → Tables → (ℕ × List Error) × Tables
  reap_all now later i [] t = ((0, []), t)
  reap_all now later i (e ∷ es) t =
      let (answer, t') = reap_one e now (later i) t in
      let ((changed, errors), t'') = reap_all now later (i + 1) es t' in
      (
        elim answer [
          | ok hit ↦ ((if hit then changed + 1 else changed), errors)
          | err x ↦ (changed, x ∷ errors)
        ],
        t'',
      )

  unfoldable pub reap : ℕ → (ℕ → ℕ) → M (ℕ × List Error)
  reap now later = do
    expired ← list_expired_leases now opts.timeout_grace reap_batch
    λ t. (let (counts, t') = reap_all now later 0 expired t in (ok counts, t'))
