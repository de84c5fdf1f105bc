-- ===== src/Domain.antt =====
-- The status types of server/internal/domain/run.go and the sentinel errors of domain/errors.go.
-- A status is a Go string that only ever holds one of the declared constants.
pub mod Role
use kilnci.Base.{Bool, true, false, ◌≡◌, ◌↔◌, ◌==◌, ◌||◌, Eq, arith}

pub data RunStatus : Type 0 where
  awaiting_approval queued running succeeded failed canceled : RunStatus

pub data JobStatus : Type 0 where
  pending queued running succeeded failed canceled skipped : JobStatus

abbrev pub run_status_beq : RunStatus → RunStatus → Bool
run_status_beq RunStatus.awaiting_approval RunStatus.awaiting_approval = true
run_status_beq RunStatus.queued RunStatus.queued = true
run_status_beq RunStatus.running RunStatus.running = true
run_status_beq RunStatus.succeeded RunStatus.succeeded = true
run_status_beq RunStatus.failed RunStatus.failed = true
run_status_beq RunStatus.canceled RunStatus.canceled = true
run_status_beq _ _ = false

pub run_status_beq_iff : (a b : RunStatus) → (run_status_beq a b ≡ true) ↔ (a ≡ b)
run_status_beq_iff a b = (λ h. ground arith, λ h. ground arith)

instance abbrev pub run_status_eq : Eq RunStatus
run_status_eq = record { equals = run_status_beq; equals_iff = run_status_beq_iff }

abbrev pub job_status_beq : JobStatus → JobStatus → Bool
job_status_beq JobStatus.pending JobStatus.pending = true
job_status_beq JobStatus.queued JobStatus.queued = true
job_status_beq JobStatus.running JobStatus.running = true
job_status_beq JobStatus.succeeded JobStatus.succeeded = true
job_status_beq JobStatus.failed JobStatus.failed = true
job_status_beq JobStatus.canceled JobStatus.canceled = true
job_status_beq JobStatus.skipped JobStatus.skipped = true
job_status_beq _ _ = false

pub job_status_beq_iff : (a b : JobStatus) → (job_status_beq a b ≡ true) ↔ (a ≡ b)
job_status_beq_iff a b = (λ h. ground arith, λ h. ground arith)

instance abbrev pub job_status_eq : Eq JobStatus
job_status_eq = record { equals = job_status_beq; equals_iff = job_status_beq_iff }

-- `RunStatus.IsTerminal`
unfoldable pub run_is_terminal : RunStatus → Bool
run_is_terminal s = s == RunStatus.succeeded || s == RunStatus.failed || s == RunStatus.canceled

-- `JobStatus.IsTerminal`
unfoldable pub job_is_terminal : JobStatus → Bool
job_is_terminal JobStatus.succeeded = true
job_is_terminal JobStatus.failed = true
job_is_terminal JobStatus.canceled = true
job_is_terminal JobStatus.skipped = true
job_is_terminal _ = false

-- The sentinels of errors.go that the modelled code returns, told apart by `errors.Is`.
-- `internal` is an error that wraps none of them, such as a failure of the database.
pub data Error : Type 0 where
  err_not_found err_conflict err_validation err_forbidden err_unauthenticated internal : Error
