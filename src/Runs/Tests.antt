-- ===== src/Runs/Tests.antt =====
-- Runs of service/runs/runs.go on tables that hold a run with a leased and a queued job, a run that
-- awaits approval with a pending one, and a runner.
use kilnci.Base.{
  ==_cases, inl, inr, string_eq, true, false, [], ◌∷◌, Option, none, some, String, arith, refl, map,
  List,
}
use kilnci.Domain.{RunStatus, JobStatus, Error}
use kilnci.Leases.{Job, Runner}
use kilnci.Scheduler.{Run, Tables}
use kilnci.Scheduler.Kept.{Healthy}
use kilnci.Runs.{cancel_run, approve_run}
use kilnci.Runs.Kept.{cancel_run-Healthy}

abbrev run_of : String → RunStatus → Run
run_of id status = record {
  id = id;
  org_id = "org";
  status = status;
  trusted = true;
  started_at = none;
  finished_at = none;
}

abbrev job_of : String → String → JobStatus → Job
job_of id run_id status = record {
  id = id;
  org_id = "org";
  run_id = run_id;
  name = id;
  status = status;
  needs = [];
  labels = [];
  timeout_seconds = 60;
  attempt = 0;
  max_attempts = 1;
  trusted = true;
  runner_id = none;
  lease_id = none;
  lease_expires_at = none;
  cancel_requested = false;
  exit_code = none;
  failure_reason = "";
  queued_at = some 1;
  started_at = none;
  finished_at = none;
}

abbrev leased_job : Job
leased_job = record (job_of "a" "r1" JobStatus.running) {
  attempt = 1;
  runner_id = some "w1";
  lease_id = some "L";
  lease_expires_at = some 60;
  started_at = some 2;
}

abbrev worker : Runner
worker = record {
  id = "w1";
  org_id = "org";
  labels = [];
  trusted = true;
  capacity = 1;
  revoked_at = none;
}

abbrev two_runs : Tables
two_runs = record {
  runs = run_of "r1" RunStatus.running ∷ run_of "r2" RunStatus.awaiting_approval ∷ [];
  jobs = leased_job ∷ job_of "b" "r1" JobStatus.queued ∷ job_of "c" "r2" JobStatus.pending ∷ [];
  runners = worker ∷ [];
}

abbrev agree : Run → Option Error
agree r = none

abbrev log_entry : String → Run → Option Error
log_entry action r = none

abbrev statuses : List Job → List JobStatus
statuses js = map (λ j. j.status) js

two_runs-Healthy : Healthy (worker ∷ []) two_runs.jobs
two_runs-Healthy = record {
  keys = λ o i. elim (==_cases "a" i) [
    | inl (t, e) ↦ rw (← e) (ground arith)
    | inr (t, ne) ↦ elim (==_cases "b" i) [
      | inl (u, e) ↦ rw (← e) (ground arith)
      | inr (u, f) ↦ ground (arith, t, u)
    ]
  ];
  runner_keys = ((λ h. refl, tt), tt);
  sound = (
    (refl, (omega arith, λ h. elim h [ inl e ↦ cc | inr e ↦ cc ])),
    ((refl, (omega arith, λ h. omega arith)), ((refl, (omega arith, λ h. omega arith)), tt)),
  );
  within = (omega arith, tt);
  trusted = ((λ h k. refl, (λ h k. refl, (λ h k. refl, tt))), tt);
}

cancel_run-Healthy_example :
    let canceled = (cancel_run agree log_entry "org" "r1" 5 6 two_runs).1 in
    let approved = (approve_run agree log_entry "org" "r2" 6 two_runs).1 in
    Healthy canceled.runners canceled.jobs × Healthy approved.runners approved.jobs
cancel_run-Healthy_example =
    cancel_run-Healthy agree log_entry "org" "r1" "r2" 5 6 two_runs two_runs-Healthy
