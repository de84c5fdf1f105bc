-- ===== src/Engine/States/Tests.antt =====
-- The state machines at small inputs.
use kilnci.Base.{
  ◌≤◌, List, [], ◌∷◌, none, some, ◌≡◌, refl, length, any, all, ◌==◌, ◌||◌, if◌then◌else◌,
}
use kilnci.Domain.{RunStatus, JobStatus, job_status_eq, job_is_terminal}
use kilnci.Engine.States.{run_transition, job_transition, run_outcome}
use kilnci.Engine.States.History.{
  RunHistory, JobHistory, RunHistory-bounded, starts, queueings, starts-le-queueings,
}
use kilnci.Engine.States.Outcome.{run_outcome_lem}

abbrev approved : List RunStatus
approved = RunStatus.queued ∷ RunStatus.running ∷ RunStatus.failed ∷ []

approved-RunHistory : RunHistory RunStatus.awaiting_approval approved
unfolding run_transition
approved-RunHistory = (refl, (refl, (refl, tt)))

RunHistory-bounded_example : length approved ≤ 3
RunHistory-bounded_example =
    RunHistory-bounded RunStatus.awaiting_approval approved approved-RunHistory

abbrev retried : List JobStatus
retried =
    JobStatus.queued ∷ JobStatus.running ∷ JobStatus.queued ∷ JobStatus.running
    ∷ JobStatus.succeeded ∷ []

retried-JobHistory : JobHistory JobStatus.pending retried
unfolding job_transition
retried-JobHistory = (refl, (refl, (refl, (refl, (refl, tt)))))

starts-le-queueings_example : starts retried ≤ queueings retried
starts-le-queueings_example = starts-le-queueings retried retried-JobHistory

abbrev mixed : List JobStatus
mixed = JobStatus.succeeded ∷ JobStatus.failed ∷ JobStatus.skipped ∷ []

mixed_fails : run_outcome mixed ≡ some RunStatus.failed
unfolding run_outcome
mixed_fails = refl

run_outcome_lem_example : run_outcome mixed ≡ (
    if all job_is_terminal mixed
    then some (
        if any (λ s. s == JobStatus.canceled) mixed
        then RunStatus.canceled
        else if any (λ s. s == JobStatus.failed || s == JobStatus.skipped) mixed
        then RunStatus.failed
        else RunStatus.succeeded)
    else none)
run_outcome_lem_example = run_outcome_lem mixed
