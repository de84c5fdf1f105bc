-- ===== src/Engine/States/Outcome.antt =====
-- What `RunOutcome` of engine/states.go computes.
use kilnci.Base.{Bool, List, [], ◌∷◌, none, some, ◌≡◌, ◌==◌, ◌||◌, if◌then◌else◌, any, all, arith}
use kilnci.Domain.{RunStatus, JobStatus, run_status_eq, job_status_eq, job_is_terminal}
use kilnci.Engine.States.{run_transition, run_outcome_from, run_outcome}

abbrev is_canceled : JobStatus → Bool
is_canceled s = s == JobStatus.canceled

abbrev is_bad : JobStatus → Bool
is_bad s = s == JobStatus.failed || s == JobStatus.skipped

-- The status of a run, by what its jobs hold and not by their order.
outcome_of_all : RunStatus → List JobStatus → RunStatus
outcome_of_all status js =
    if any is_canceled js
    then RunStatus.canceled
    else if status == RunStatus.canceled
    then status
    else if any is_bad js
    then RunStatus.failed
    else status

run_outcome_from_lem :
    (status : RunStatus) (js : List JobStatus)
    → run_outcome_from status js
      ≡ (if all job_is_terminal js then some (outcome_of_all status js) else none)
unfolding run_outcome_from outcome_of_all job_is_terminal
run_outcome_from_lem status [] = ground arith
run_outcome_from_lem status (JobStatus.failed ∷ js) =
    ground (arith, run_outcome_from_lem RunStatus.failed js, run_outcome_from_lem status js)
run_outcome_from_lem status (JobStatus.skipped ∷ js) =
    ground (arith, run_outcome_from_lem RunStatus.failed js, run_outcome_from_lem status js)
run_outcome_from_lem status (JobStatus.canceled ∷ js) =
    ground (arith, run_outcome_from_lem RunStatus.canceled js)
run_outcome_from_lem status (s ∷ js) = ground (arith, run_outcome_from_lem status js)

-- A run has an outcome exactly when all of its jobs are terminal. It is canceled if a job was
-- canceled, else failed if a job failed or was skipped, else succeeded.
pub run_outcome_lem :
    (js : List JobStatus)
    → run_outcome js ≡ (
        if all job_is_terminal js
        then some (
            if any (λ s. s == JobStatus.canceled) js
            then RunStatus.canceled
            else if any (λ s. s == JobStatus.failed || s == JobStatus.skipped) js
            then RunStatus.failed
            else RunStatus.succeeded)
        else none)
unfolding run_outcome outcome_of_all
run_outcome_lem js = run_outcome_from_lem RunStatus.succeeded js

-- An outcome is a status that both a queued and a running run may take.
pub run_outcome_allowed :
    (js : List JobStatus) {status : RunStatus}
    → run_outcome js ≡ some status
    → (run_transition RunStatus.running status ≡ none)
      × (run_transition RunStatus.queued status ≡ none)
unfolding run_transition
run_outcome_allowed js h = ground (arith, run_outcome_lem js)
