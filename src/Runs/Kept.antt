-- ===== src/Runs/Kept.antt =====
-- What canceling and approving a run, in service/runs/runs.go, keep of the tables.
use kilnci.Base.{ℕ, List, [], ◌∷◌, Option, none, some, ◌≡◌, refl, ◌==◌, String, if◌then◌else◌}
use kilnci.Domain.{RunStatus, JobStatus, Error, err_conflict, run_status_eq, run_is_terminal}
use kilnci.Engine.States.{run_transition, job_transition}
use kilnci.Leases.{Job, update_job_status, request_job_cancel}
use kilnci.Leases.Changes.{Call, perform}
use kilnci.Scheduler.{
  Run, Tables, ◌>>◌, return, check_error, lock_run, list_jobs, update_run_status,
}
use kilnci.Scheduler.Progress.{progress_run}
use kilnci.Scheduler.Calls.{
  Follows, Ran-refl, Follows-bind, Follows-check, Follows-in_tx, Follows-on_jobs, Follows-lock_run,
  Follows-list_jobs, Follows-if, Follows-progress_run, Follows-update_run_status,
  Follows-check_last,
}
use kilnci.Scheduler.Kept.{Healthy, Healthy-Ran}
use kilnci.Runs.{
  cancel_unstarted, cancel_job, cancel_jobs, cancel_waiting, cancel_run_tx, cancel_run, may_approve,
  approve_run_tx, approve_run,
}

Follows-cancel_unstarted : (j : Job) (now : ℕ) → Follows (cancel_unstarted j now)
unfolding cancel_unstarted perform
Follows-cancel_unstarted j now =
    Follows-check (job_transition j.status JobStatus.canceled) _ (λ allowed.
      Follows-on_jobs
        (update_job_status j.org_id j.id j.status JobStatus.canceled now "canceled by a user")
        (Call.update j.org_id j.id j.status JobStatus.canceled now "canceled by a user")
        (allowed, λ e. cc) (λ rs js. refl))

Follows-cancel_by : (s : JobStatus) (j : Job) (now : ℕ) → j.status ≡ s → Follows (cancel_job j now)
unfolding cancel_job perform
Follows-cancel_by JobStatus.pending j now e =
    λ t. rw (e, cancel_job) (Follows-cancel_unstarted j now t)
Follows-cancel_by JobStatus.queued j now e =
    λ t. rw (e, cancel_job) (Follows-cancel_unstarted j now t)
Follows-cancel_by JobStatus.running j now e = λ t.
    rw (e, cancel_job)
      (Follows-on_jobs (request_job_cancel j.org_id j.id) (Call.cancel j.org_id j.id) tt
        (λ rs js. refl) t)
Follows-cancel_by s j now e = λ t. rw (e, cancel_job) (Ran-refl t)

Follows-cancel_jobs : (js : List Job) (now : ℕ) → Follows (cancel_jobs js now)
unfolding cancel_jobs
Follows-cancel_jobs [] now = λ t. Ran-refl t
Follows-cancel_jobs (j ∷ js) now =
    Follows-bind (cancel_job j now) (λ _. cancel_jobs js now)
      (Follows-cancel_by j.status j now refl) (λ _. Follows-cancel_jobs js now)

module _ (observe : Run → Option Error) (audit : String → Run → Option Error) where
  Follows-cancel_waiting : (run : Run) (now : ℕ) → Follows (cancel_waiting observe audit run now)
  unfolding cancel_waiting
  Follows-cancel_waiting run now =
      Follows-check (run_transition run.status RunStatus.canceled) _ (λ _.
        Follows-bind (update_run_status _) _ (Follows-update_run_status _)
          (λ _. Follows-check_last (observe _)))

  Follows-cancel_run :
      (o i : String) (now later : ℕ) → Follows (cancel_run observe audit o i now later)
  unfolding cancel_run cancel_run_tx
  Follows-cancel_run o i now later = Follows-in_tx (cancel_run_tx observe audit o i now later) (
      Follows-bind (lock_run o i) _ (Follows-lock_run o i) (λ run.
        Follows-check (if run_is_terminal run.status then some err_conflict else none) _ (λ _.
          Follows-bind (list_jobs o i) _ (Follows-list_jobs o i) (λ jobs.
            Follows-bind (cancel_jobs jobs now) _ (Follows-cancel_jobs jobs now) (λ _.
              Follows-bind _ (λ _. check_error (audit "runs:cancel" run))
                (Follows-if (run.status == RunStatus.awaiting_approval)
                  (cancel_waiting observe audit run now)
                  (progress_run observe o i later >> return tt) (Follows-cancel_waiting run now)
                  (Follows-bind (progress_run observe o i later) (λ _. return tt)
                    (Follows-progress_run observe o i later) (λ _ t. Ran-refl t)))
                (λ _. Follows-check_last (audit "runs:cancel" run)))))))

  Follows-approve_run : (o i : String) (later : ℕ) → Follows (approve_run observe audit o i later)
  unfolding approve_run approve_run_tx
  Follows-approve_run o i later = Follows-in_tx (approve_run_tx observe audit o i later) (
      Follows-bind (lock_run o i) _ (Follows-lock_run o i) (λ run.
        Follows-check (may_approve run.status) _ (λ _.
          Follows-bind (update_run_status _) _ (Follows-update_run_status _) (λ _.
            Follows-check (observe _) _ (λ _.
              Follows-bind (progress_run observe o i later)
                (λ _. check_error (audit "runs:approve" run))
                (Follows-progress_run observe o i later)
                (λ _. Follows-check_last (audit "runs:approve" run)))))))

  -- Canceling and approving a run, whatever they answer, keep the tables healthy in the same sense as
  -- the calls of the scheduler.
  pub cancel_run-Healthy :
      (org_id run_id approved_id : String) (now later : ℕ) (t : Tables)
      → Healthy t.runners t.jobs
      → let canceled = (cancel_run observe audit org_id run_id now later t).1 in
        let approved = (approve_run observe audit org_id approved_id later t).1 in
        Healthy canceled.runners canceled.jobs × Healthy approved.runners approved.jobs
  cancel_run-Healthy org_id run_id approved_id now later t h = (
    Healthy-Ran t (cancel_run observe audit org_id run_id now later t).1 h
        (Follows-cancel_run org_id run_id now later t),
    Healthy-Ran t (approve_run observe audit org_id approved_id later t).1 h
        (Follows-approve_run org_id approved_id later t),
  )
