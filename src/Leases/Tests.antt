-- ===== src/Leases/Tests.antt =====
-- Runs of the job table of store/leases.go at concrete rows.
use kilnci.Engine.States.{job_transition}
use kilnci.Base.Int.{pos}
use kilnci.Base.{List, ◌≤◌, true, false, [], ◌∷◌, none, some, ◌≡◌, refl, All, arith, string_eq}
use kilnci.Base.Results.{err}
use kilnci.Domain.{JobStatus, err_not_found, err_conflict}
use kilnci.Leases.{
  request_job_cancel, renew_query, cancel_query, Job, Runner, LeaseGrant, LeaseRef,
  complete_leased_job, renew_lease, release_lease, get_leased_job, requeue_expired_job,
  fail_expired_job, acquire_lease, acquire_lease_query, complete_query, leased, holds, count,
  fits_int32, or_error, rows_affected, execute, update_row, eligible, contained,
}
use kilnci.Leases.Changes.{Call, perform}
use kilnci.Leases.Rows.{SoundRow, perform-SoundRow}
use kilnci.Leases.Steps.{Rows, Moved, perform-Moved}
use kilnci.Leases.Fencing.{perform_all, lost_lease_refused}
use kilnci.Leases.Ends.{ended_lease_lost}
use kilnci.Leases.Once.{Event, result, other, results, recorded, complete_once}
use kilnci.Leases.Capacity.{perform-capacity}
use kilnci.Leases.Trust.{Trustworthy, perform-Trustworthy}

abbrev waiting_job : Job
waiting_job = record {
  id = "job";
  org_id = "org";
  run_id = "run";
  name = "build";
  needs = [];
  status = JobStatus.queued;
  labels = "linux" ∷ [];
  timeout_seconds = 60;
  attempt = 0;
  max_attempts = 2;
  trusted = true;
  runner_id = none;
  lease_id = none;
  lease_expires_at = none;
  cancel_requested = false;
  exit_code = none;
  failure_reason = "";
  queued_at = some 5;
  started_at = none;
  finished_at = none;
}

abbrev builder : Runner
builder = record {
  id = "builder";
  org_id = "org";
  labels = "linux" ∷ "amd64" ∷ [];
  trusted = true;
  capacity = 1;
  revoked_at = none;
}

abbrev first_grant : LeaseGrant
first_grant = record {
  org_id = "org";
  job_id = "job";
  runner_id = "builder";
  lease_id = "first";
  now = 10;
  expires_at = 70;
}

abbrev first_lease : LeaseRef
first_lease = record { org_id = "org"; job_id = "job"; runner_id = "builder"; lease_id = "first" }

-- The row that the grant makes.
abbrev running_job : Job
running_job = record waiting_job {
  status = JobStatus.running;
  runner_id = some "builder";
  lease_id = some "first";
  lease_expires_at = some 70;
  attempt = 1;
  started_at = some 10;
}

grant_runs : acquire_lease first_grant (builder ∷ []) (waiting_job ∷ []) ≡ (none, running_job ∷ [])
unfolding acquire_lease or_error rows_affected execute update_row acquire_lease_query eligible
    contained
grant_runs = refl

-- A second grant of the same job conflicts.
second_grant_conflicts :
    acquire_lease first_grant (builder ∷ []) (running_job ∷ [])
    ≡ (some err_conflict, running_job ∷ [])
unfolding acquire_lease or_error rows_affected execute update_row acquire_lease_query eligible
    contained
second_grant_conflicts = refl

perform-SoundRow_example :
    All SoundRow (perform (Call.acquire first_grant) (builder ∷ []) (waiting_job ∷ []))
perform-SoundRow_example =
    perform-SoundRow (Call.acquire first_grant) (builder ∷ []) (waiting_job ∷ []) tt
      ((refl, (omega arith, λ h. omega arith)), tt)

perform-Moved_example :
    Rows Moved
      (waiting_job ∷ [])
      (perform (Call.acquire first_grant) (builder ∷ []) (waiting_job ∷ []))
perform-Moved_example =
    perform-Moved (Call.acquire first_grant) (builder ∷ []) (waiting_job ∷ []) tt

lost_lease_refused_example :
    let after =
      perform_all ((Call.renew first_lease 80 90, builder ∷ []) ∷ []) (waiting_job ∷ []) in
    (complete_leased_job first_lease JobStatus.succeeded none "" 80 after
      ≡ (some err_not_found, after))
    × (renew_lease first_lease 80 90 after ≡ (err err_not_found, after))
    × (release_lease first_lease 80 after ≡ (false, after))
    × (get_leased_job first_lease 80 after ≡ none)
unfolding fits_int32
lost_lease_refused_example =
    lost_lease_refused first_lease ((Call.renew first_lease 80 90, builder ∷ []) ∷ [])
      (waiting_job ∷ []) JobStatus.succeeded none "" 80 90 (refl, tt) ((tt, tt), tt) refl

ended_lease_lost_example :
    ((complete_leased_job first_lease JobStatus.failed none "" 20 (running_job ∷ [])).0 ≡ none
      → All
          (λ j. leased first_lease j ≡ false)
          (complete_leased_job first_lease JobStatus.failed none "" 20 (running_job ∷ [])).1)
    × ((release_lease first_lease 20 (running_job ∷ [])).0 ≡ true
        → All
            (λ j. leased first_lease j ≡ false)
            (release_lease first_lease 20 (running_job ∷ [])).1)
    × ((requeue_expired_job "org" "job" 20 (running_job ∷ [])).0 ≡ true
        → All
            (λ j. leased first_lease j ≡ false)
            (requeue_expired_job "org" "job" 20 (running_job ∷ [])).1)
    × ((fail_expired_job "org" "job" JobStatus.failed "" 20 120 (running_job ∷ [])).1.0 ≡ true
        → All
            (λ j. leased first_lease j ≡ false)
            (fail_expired_job "org" "job" JobStatus.failed "" 20 120 (running_job ∷ [])).1.1)
ended_lease_lost_example =
    ended_lease_lost first_lease (running_job ∷ []) JobStatus.failed none "" 20 120 (omega arith)

-- A renewal, a result, a cancellation and a second result, of which the last is refused.
abbrev two_results : List (Event × List Runner)
two_results =
    (other (Call.renew first_lease 20 90), [])
    ∷ (result JobStatus.failed (some (pos 2)) "exit" 30, [])
    ∷ (other (Call.cancel "org" "job"), [])
    ∷ (result JobStatus.succeeded (some (pos 0)) "" 40, [])
    ∷ []

one_recorded : results first_lease two_results (running_job ∷ []) ≡ 1
unfolding results recorded perform complete_leased_job renew_lease request_job_cancel or_error
    rows_affected execute update_row complete_query renew_query cancel_query fits_int32
one_recorded = refl

complete_once_example : results first_lease two_results (running_job ∷ []) ≤ 1
unfolding job_transition
complete_once_example =
    complete_once first_lease two_results (running_job ∷ []) (omega arith)
      ((tt, tt), (((refl, λ e. cc), tt), ((tt, tt), (((refl, λ e. cc), tt), tt))))

perform-capacity_example :
    count (holds builder) (perform (Call.acquire first_grant) (builder ∷ []) (waiting_job ∷ [])) ≤ 1
perform-capacity_example =
    perform-capacity builder (Call.acquire first_grant) (builder ∷ []) (waiting_job ∷ []) tt
      (λ h. refl, tt) (λ o i. ground arith) (omega arith)

perform-Trustworthy_example :
    All (Trustworthy builder) (perform (Call.acquire first_grant) (builder ∷ []) (waiting_job ∷ []))
perform-Trustworthy_example =
    perform-Trustworthy builder (Call.acquire first_grant) (builder ∷ []) (waiting_job ∷ []) tt
      (λ h. refl, tt) (λ held trusted. refl, tt)
