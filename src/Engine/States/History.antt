-- ===== src/Engine/States/History.antt =====
-- Histories of status changes that engine/states.go accepts.
use kilnci.Base.{
  ℕ, ◌+◌, ◌≤◌, ◌<◌, Bool, true, false, List, [], ◌∷◌, none, some, ◌≡◌, ◌↔◌, ◌⊎◌, length, arith,
  ◌==◌, if◌then◌else◌,
}
use kilnci.Domain.{
  RunStatus, JobStatus, err_conflict, run_is_terminal, job_is_terminal, run_status_eq,
  job_status_eq,
}
use kilnci.Engine.States.{
  run_transition, job_transition, valid_initial_run_status, initial_run_status,
}

-- Every change of the list is accepted, one after the other.
abbrev pub RunHistory : RunStatus → List RunStatus → Type 0
RunHistory s [] = Unit
RunHistory s (t ∷ ts) = (run_transition s t ≡ none) × RunHistory t ts

abbrev pub JobHistory : JobStatus → List JobStatus → Type 0
JobHistory s [] = Unit
JobHistory s (t ∷ ts) = (job_transition s t ≡ none) × JobHistory t ts

-- A run may not leave a status exactly when the status is terminal.
pub run_stuck_iff :
    (s : RunStatus)
    → (run_is_terminal s ≡ true) ↔ ((t : RunStatus) → run_transition s t ≡ some err_conflict)
unfolding run_is_terminal run_transition
run_stuck_iff s = (λ h t. ground arith, λ h. ground (arith, h RunStatus.canceled))

-- A job may not leave a status exactly when the status is terminal.
pub job_stuck_iff :
    (s : JobStatus)
    → (job_is_terminal s ≡ true) ↔ ((t : JobStatus) → job_transition s t ≡ some err_conflict)
unfolding job_is_terminal job_transition
job_stuck_iff s = (λ h t. ground arith, λ h. ground (arith, h JobStatus.canceled))

-- How many changes are left at most.
abbrev changes_left : RunStatus → ℕ
changes_left RunStatus.awaiting_approval = 3
changes_left RunStatus.queued = 2
changes_left RunStatus.running = 1
changes_left _ = 0

changes_left_falls : (s t : RunStatus) → run_transition s t ≡ none → changes_left t < changes_left s
unfolding run_transition
changes_left_falls s t h = ground arith

RunHistory-le : (s : RunStatus) (ts : List RunStatus) → RunHistory s ts → length ts ≤ changes_left s
RunHistory-le s [] h = omega arith
RunHistory-le s (t ∷ ts) h = omega (arith, changes_left_falls s t h.0, RunHistory-le t ts h.1)

-- A run changes its status at most three times, whatever asks for the changes.
pub RunHistory-bounded : (s : RunStatus) (ts : List RunStatus) → RunHistory s ts → length ts ≤ 3
RunHistory-bounded s ts h = ground (arith, RunHistory-le s ts h)

-- A new run's status is one that a run may be created in, and a run that needs approval, or whose
-- pipeline is invalid, cannot be started from it.
pub initial_run_status_valid :
    (needs_approval pipeline_valid : Bool)
    → let s = initial_run_status needs_approval pipeline_valid in
      (valid_initial_run_status s ≡ true)
      × ((needs_approval ≡ true) ⊎ (pipeline_valid ≡ false)
          → run_transition s RunStatus.running ≡ some err_conflict)
unfolding valid_initial_run_status initial_run_status run_transition
initial_run_status_valid a v = (ground arith, λ h. ground arith)

unfoldable pub starts : List JobStatus → ℕ
starts [] = 0
starts (t ∷ ts) = (if t == JobStatus.running then 1 else 0) + starts ts

unfoldable pub queueings : List JobStatus → ℕ
queueings [] = 0
queueings (t ∷ ts) = (if t == JobStatus.queued then 1 else 0) + queueings ts

abbrev tickets : JobStatus → ℕ
tickets JobStatus.queued = 1
tickets _ = 0

tickets_step :
    (s t : JobStatus)
    → job_transition s t ≡ none
    → (if t == JobStatus.running then 1 else 0) + tickets t
      ≤ tickets s + (if t == JobStatus.queued then 1 else 0)
unfolding job_transition
tickets_step s t h = ground arith

starts-le :
    (s : JobStatus) (ts : List JobStatus) → JobHistory s ts → starts ts ≤ tickets s + queueings ts
unfolding starts queueings
starts-le s [] h = omega arith
starts-le s (t ∷ ts) h = omega (arith, tickets_step s t h.0, starts-le t ts h.1)

-- A job that is created pending starts at most as often as it is put into the queue: each start
-- uses up one queueing, and a retry needs another.
pub starts-le-queueings :
    (ts : List JobStatus) → JobHistory JobStatus.pending ts → starts ts ≤ queueings ts
starts-le-queueings ts h = omega (arith, starts-le JobStatus.pending ts h)
