-- ===== src/Scheduler/Tests.antt =====
-- A run of the scheduler of server/internal/scheduler: one run, one job and one runner.
use kilnci.Base.{
  ℕ, true, false, [], ◌∷◌, Option, none, some, ◌≡◌, refl, string_eq, String, arith, lookup,
}
use kilnci.Base.Results.{Result, ok, err}
use kilnci.Domain.{RunStatus, JobStatus, Error, err_not_found, run_is_terminal}
use kilnci.Engine.States.{job_transition, run_transition, run_outcome}
use kilnci.Engine.Dag.{
  plan, finish, kahn, start, no_links, take_ready, release_one, sort, insert_sorted, roots,
  link_nodes, link_needs, add_link, index_nodes,
}
use kilnci.Engine.Dag
use kilnci.Engine.Dag.Progress.{advance, decide_jobs, decide_job, weigh_needs, select, undecided}
use kilnci.Leases.{
  Job, Runner, get_leased_job, acquire_lease, or_error, rows_affected, execute, update_row,
  acquire_lease_query, eligible, contained,
}
use kilnci.Scheduler.{
  Run, Tables, in_tx, find_run, lock_run, jobs_of, list_jobs, update_run_status, changes_run,
  change_runs, change_run, has_runner, lock_runner,
}
use kilnci.Scheduler.Progress.{
  progress_run, set_run, finish_run, set_jobs, nodes_of, outcomes_of, outcome_of, by_name, started,
}
use kilnci.Scheduler.Leasing.{
  Caller, Lease, Options, Report, ref, complete, heartbeat, release, try_lease, lease_job,
  lock_caller, grant, may_lease, get_leased, check_report,
}
use kilnci.Scheduler.Calls.{Ran}
use kilnci.Scheduler.Operations.{beat, ask_lease, operate, operate-Ran}
use kilnci.Scheduler.Kept.{Healthy, operate-Healthy}
use kilnci.Scheduler.Answers.{expired_lease_refused, try_lease_held}

abbrev compile_job : Job
compile_job = record {
  id = "j1";
  org_id = "org";
  run_id = "r1";
  name = "compile";
  status = JobStatus.queued;
  needs = [];
  labels = [];
  timeout_seconds = 60;
  attempt = 0;
  max_attempts = 1;
  trusted = true;
  runner_id = none;
  lease_id = none;
  lease_expires_at = none;
  cancel_requested = false;
  exit_code = none;
  failure_reason = "";
  queued_at = some 1;
  started_at = none;
  finished_at = none;
}

abbrev queued_run : Run
queued_run = record {
  id = "r1";
  org_id = "org";
  status = RunStatus.queued;
  trusted = true;
  started_at = none;
  finished_at = none;
}

abbrev worker : Runner
worker = record {
  id = "w1";
  org_id = "org";
  labels = [];
  trusted = true;
  capacity = 1;
  revoked_at = none;
}

abbrev before_lease : Tables
before_lease = record { runs = queued_run ∷ []; jobs = compile_job ∷ []; runners = worker ∷ [] }

abbrev asking : Caller
asking = record { id = "w1"; org_id = "org"; labels = []; trusted = true }

abbrev options : Options
options = record { lease_ttl = 60000000; timeout_grace = 120 }

abbrev silent : Run → Option Error
silent r = none

abbrev print_timeout : ℕ → String
print_timeout n = "timed out"

abbrev unchanged : String → String
unchanged s = s

abbrev leased_job : Job
leased_job = record compile_job {
  status = JobStatus.running;
  attempt = 1;
  runner_id = some "w1";
  lease_id = some "L";
  lease_expires_at = some 60000010;
  started_at = some 10;
}

abbrev running_run : Run
running_run = record queued_run { status = RunStatus.running; started_at = some 11 }

abbrev after_lease : Tables
after_lease = record { runs = running_run ∷ []; jobs = leased_job ∷ []; runners = worker ∷ [] }

abbrev made_lease : Lease
made_lease = record { id = "L"; expires_at = 60000010; job = leased_job; run = running_run }

lease_made :
    try_lease silent options asking compile_job (ok "L") 10 11 before_lease
    ≡ (ok made_lease, after_lease)
unfolding try_lease in_tx lease_job lock_run find_run may_lease job_transition lock_caller
    lock_runner has_runner grant acquire_lease or_error rows_affected execute update_row
    acquire_lease_query eligible contained progress_run run_is_terminal list_jobs jobs_of nodes_of
    outcomes_of by_name outcome_of advance plan finish kahn start no_links take_ready Dag.release
    release_one sort insert_sorted roots link_nodes link_needs add_link index_nodes decide_jobs
    decide_job weigh_needs select undecided set_jobs finish_run run_outcome started set_run
    run_transition update_run_status changes_run change_runs change_run get_leased get_leased_job
    ref lookup
lease_made = refl

try_lease_held_example :
    (◌≡◌ {A = Result Error String} (ok "L") (ok "L"))
    × (get_leased_job (ref asking "j1" "L") 10 after_lease.jobs ≡ some leased_job)
try_lease_held_example =
    try_lease_held silent options asking compile_job (ok "L") 10 11 before_lease after_lease
      made_lease lease_made

operate-Ran_example :
    Ran before_lease
      (operate silent options print_timeout unchanged (beat asking "j1" "L" 20) before_lease)
operate-Ran_example =
    operate-Ran silent options print_timeout unchanged (beat asking "j1" "L" 20) before_lease

before_lease-Healthy : Healthy (worker ∷ []) (compile_job ∷ [])
before_lease-Healthy = record {
  keys = λ o i. ground arith;
  runner_keys = ((λ h. refl, tt), tt);
  sound = ((refl, (omega arith, λ h. omega arith)), tt);
  within = (omega arith, tt);
  trusted = ((λ h k. refl, tt), tt);
}

operate-Healthy_example :
    let t =
      operate silent options print_timeout unchanged
        (ask_lease asking (λ i. ok "L") (λ i. 10) (λ i. 11))
        before_lease in
    Healthy t.runners t.jobs
operate-Healthy_example =
    operate-Healthy silent options print_timeout unchanged
      (ask_lease asking (λ i. ok "L") (λ i. 10) (λ i. 11)) before_lease before_lease-Healthy

abbrev failed_report : Report
failed_report = record { status = JobStatus.failed; exit_code = none; reason = "" }

-- The lease of `after_lease` ends at 60000010.
expired_lease_refused_example :
    (complete silent options unchanged asking "j1" "L" failed_report 70000000 70000001 after_lease
      ≡ (err err_not_found, after_lease))
    × (heartbeat silent options asking "j1" "L" 70000000 after_lease
        ≡ (err err_not_found, after_lease))
    × (release asking "j1" "L" 70000000 after_lease ≡ (ok tt, after_lease))
unfolding check_report
expired_lease_refused_example =
    expired_lease_refused silent options unchanged asking "j1" "L" failed_report 70000000 70000001
      after_lease (λ h. refl, tt) refl
