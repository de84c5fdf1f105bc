-- ===== src/Engine/States.antt =====
-- The run and job state machines: server/internal/engine/states.go.
mod History
mod Outcome
mod Tests
use kilnci.Base.{Bool, true, false, not, List, [], ◌∷◌, Option, none, some, ◌==◌, if◌then◌else◌}
use kilnci.Domain.{RunStatus, JobStatus, run_status_eq, job_status_eq, Error, err_conflict}

-- `runEdges`; a status that is no key of the map has no edge.
run_edges : RunStatus → List RunStatus
run_edges RunStatus.awaiting_approval = RunStatus.queued ∷ RunStatus.canceled ∷ []
run_edges RunStatus.queued =
    RunStatus.running ∷ RunStatus.succeeded ∷ RunStatus.failed ∷ RunStatus.canceled ∷ []
run_edges RunStatus.running = RunStatus.succeeded ∷ RunStatus.failed ∷ RunStatus.canceled ∷ []
run_edges _ = []

job_edges : JobStatus → List JobStatus
job_edges JobStatus.pending = JobStatus.queued ∷ JobStatus.skipped ∷ JobStatus.canceled ∷ []
job_edges JobStatus.queued = JobStatus.running ∷ JobStatus.canceled ∷ JobStatus.failed ∷ []
job_edges JobStatus.running =
    JobStatus.succeeded ∷ JobStatus.failed ∷ JobStatus.canceled ∷ JobStatus.queued ∷ []
job_edges _ = []

abbrev initial_run : List RunStatus
initial_run = RunStatus.awaiting_approval ∷ RunStatus.queued ∷ RunStatus.failed ∷ []

unfoldable pub initial_run_status : Bool → Bool → RunStatus
initial_run_status needs_approval pipeline_valid =
    if not pipeline_valid
    then RunStatus.failed
    else if needs_approval
    then RunStatus.awaiting_approval
    else RunStatus.queued

run_listed : List RunStatus → RunStatus → Bool
run_listed [] s = false
run_listed (x ∷ xs) s = if x == s then true else run_listed xs s

job_listed : List JobStatus → JobStatus → Bool
job_listed [] s = false
job_listed (x ∷ xs) s = if x == s then true else job_listed xs s

unfoldable pub valid_initial_run_status : RunStatus → Bool
unfolding run_listed
valid_initial_run_status s = run_listed initial_run s

-- `none` is Go's nil error.
unfoldable pub run_transition : RunStatus → RunStatus → Option Error
unfolding run_edges run_listed
run_transition from to = if run_listed (run_edges from) to then none else some err_conflict

unfoldable pub job_transition : JobStatus → JobStatus → Option Error
unfolding job_edges job_listed
job_transition from to = if job_listed (job_edges from) to then none else some err_conflict

-- The loop of `RunOutcome`; `none` is the result with `ok` false.
run_outcome_from : RunStatus → List JobStatus → Option RunStatus
run_outcome_from status [] = some status
run_outcome_from status (JobStatus.succeeded ∷ js) = run_outcome_from status js
run_outcome_from status (JobStatus.canceled ∷ js) = run_outcome_from RunStatus.canceled js
run_outcome_from status (JobStatus.failed ∷ js) =
    run_outcome_from (if not (status == RunStatus.canceled) then RunStatus.failed else status) js
run_outcome_from status (JobStatus.skipped ∷ js) =
    run_outcome_from (if not (status == RunStatus.canceled) then RunStatus.failed else status) js
run_outcome_from status (_ ∷ js) = none

unfoldable pub run_outcome : List JobStatus → Option RunStatus
unfolding run_outcome_from
run_outcome jobs = run_outcome_from RunStatus.succeeded jobs
