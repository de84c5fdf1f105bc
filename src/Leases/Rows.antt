-- ===== src/Leases/Rows.antt =====
-- What each row of the job table keeps, whatever calls of store/leases.go are made.
use kilnci.Base.{
  ◌≤◌, ◌<◌, Bool, true, false, List, [], ◌∷◌, none, some, ◌≡◌, ◌⊎◌, All, arith, string_eq, subst,
  sym,
}
use kilnci.Domain.{JobStatus, job_status_eq}
use kilnci.Engine.States.{job_transition}
use kilnci.Leases.{
  Job, Runner, Update, execute, update_row, acquire_lease_query, complete_query, release_query,
  renew_query, requeue_query, fail_query, cancel_query, status_query, is_running,
}
use kilnci.Leases.Changes.{Call, perform, Checked, query, perform-execute}

abbrev pub has_lease : Job → Bool
has_lease j = elim j.lease_id [
  | none ↦ false
  | some l ↦ elim j.lease_expires_at [
    | none ↦ false
    | some t ↦ elim j.runner_id [ none ↦ false | some r ↦ true ]
  ]
]

-- The table's constraint jobs_lease_consistent, and a bound on the attempts.
abbrev pub SoundRow : Job → Type 0
SoundRow j =
    (is_running j ≡ has_lease j)
    × ((j.attempt ≤ j.max_attempts)
        × ((j.status ≡ JobStatus.pending) ⊎ (j.status ≡ JobStatus.queued)
            → j.attempt < j.max_attempts))

SoundRow-query :
    (c : Call) (rs : List Runner) (js : List Job) (j : Job)
    → Checked c
    → SoundRow j
    → SoundRow (update_row (query c rs js) j)
unfolding update_row acquire_lease_query complete_query release_query renew_query requeue_query
    fail_query cancel_query status_query job_transition
SoundRow-query c rs js j ok h = ground arith

pub All-execute {ℓ} :
    (P : Job → Type ℓ) (u : Update) (js : List Job)
    → ((j : Job) → P j → P (update_row u j))
    → All P js
    → All P (execute u js)
unfolding execute
All-execute P u [] f h = tt
All-execute P u (j ∷ js) f h = (f j h.0, All-execute P u js f h.1)

-- Whatever call is made with the checks of its callers, each row of the job table keeps the
-- constraint that a job is running exactly when it has a lease, an expiry and a runner, has used at
-- most its attempts, and has one left while it is pending or queued.
pub perform-SoundRow :
    (c : Call) (rs : List Runner) (js : List Job)
    → Checked c
    → All SoundRow js
    → All SoundRow (perform c rs js)
perform-SoundRow c rs js ok h =
    subst (All SoundRow) (sym (perform-execute c rs js))
      (All-execute SoundRow (query c rs js) js (λ j. SoundRow-query c rs js j ok) h)
