-- ===== src/Leases/Ends.antt =====
-- How a lease ends, by store/leases.go.
use kilnci.Base.{
  ℕ, ◌≤◌, ◌<◌, true, false, List, [], ◌∷◌, Option, none, some, ◌≡◌, refl, String, All, arith,
  string_eq, Bool-cases, inl, inr,
}
use kilnci.Base.Int.{ℤ, pos}
use kilnci.Domain.{JobStatus, job_status_eq}
use kilnci.Leases.{
  Job, Update, LeaseRef, execute, update_row, rows_affected, complete_query, release_query,
  requeue_query, fail_query, is_job, leased, count, fits_int32, complete_leased_job, release_lease,
  requeue_expired_job, fail_expired_job, or_error, reported,
}
use kilnci.Leases.Fencing.{Lost}

-- The update selects only the job of the lease, and leaves no lease on what it writes.
abbrev EndsLease : LeaseRef → Update → Type 0
EndsLease ref u =
    (j : Job) → u.selects j ≡ true → (is_job ref.org_id ref.job_id j ≡ true) × Lost ref (u.sets j)

none_counted :
    (ref : LeaseRef) (u : Update) (js : List Job)
    → EndsLease ref u
    → count (is_job ref.org_id ref.job_id) js ≡ 0
    → (rows_affected u js ≡ 0) × All (Lost ref) (execute u js)
unfolding rows_affected execute update_row
none_counted ref u [] e h = (refl, tt)
none_counted ref u (j ∷ js) e h =
    let rest = none_counted ref u js e (ground arith) in
    (ground (arith, rest.0, e j), (ground (arith, e j), rest.1))

EndsLease-execute :
    (ref : LeaseRef) (u : Update) (js : List Job)
    → EndsLease ref u
    → count (is_job ref.org_id ref.job_id) js ≤ 1
    → 0 < rows_affected u js
    → All (Lost ref) (execute u js)
unfolding rows_affected execute update_row
EndsLease-execute ref u [] e h k = tt
EndsLease-execute ref u (j ∷ js) e h k = elim (Bool-cases (is_job ref.org_id ref.job_id j)) [
  | inl own ↦
      let (rest, lost) = none_counted ref u js e (ground (arith, own)) in
      (ground (arith, rest, e j), lost)
  | inr own ↦ (
    ground (arith, own, e j),
    EndsLease-execute ref u js e (ground (arith, own)) (ground (arith, own, e j)),
  )
]

complete-EndsLease :
    (ref : LeaseRef) (to : JobStatus) (code : Option ℤ) (reason : String) (now : ℕ)
    → EndsLease ref (complete_query ref to code reason now)
unfolding complete_query
complete-EndsLease ref to code reason now j h = (ground arith, ground arith)

release-EndsLease : (ref : LeaseRef) (now : ℕ) → EndsLease ref (release_query ref now)
unfolding release_query
release-EndsLease ref now j h = (ground arith, ground arith)

requeue-EndsLease :
    (ref : LeaseRef) (now : ℕ) → EndsLease ref (requeue_query ref.org_id ref.job_id now)
unfolding requeue_query
requeue-EndsLease ref now j h = (ground arith, ground arith)

fail-EndsLease :
    (ref : LeaseRef) (to : JobStatus) (reason : String) (now grace : ℕ)
    → EndsLease ref (fail_query ref.org_id ref.job_id to reason now grace)
unfolding fail_query
fail-EndsLease ref to reason now grace j h = (ground arith, ground arith)

-- A lease ends for good: once the job's result is recorded, or the lease is released, or the job is
-- requeued or failed after the lease expired, no row is held under the lease. The job has one row.
pub ended_lease_lost :
    (ref : LeaseRef) (js : List Job) (to : JobStatus) (code : Option ℤ) (reason : String)
    (now grace : ℕ)
    → count (is_job ref.org_id ref.job_id) js ≤ 1
    → ((complete_leased_job ref to code reason now js).0 ≡ none
        → All (λ j. leased ref j ≡ false) (complete_leased_job ref to code reason now js).1)
      × ((release_lease ref now js).0 ≡ true
          → All (λ j. leased ref j ≡ false) (release_lease ref now js).1)
      × ((requeue_expired_job ref.org_id ref.job_id now js).0 ≡ true
          → All (λ j. leased ref j ≡ false) (requeue_expired_job ref.org_id ref.job_id now js).1)
      × ((fail_expired_job ref.org_id ref.job_id to reason now grace js).1.0 ≡ true
          → All
              (λ j. leased ref j ≡ false)
              (fail_expired_job ref.org_id ref.job_id to reason now grace js).1.1)
unfolding complete_leased_job release_lease requeue_expired_job fail_expired_job or_error reported
ended_lease_lost ref js to code reason now grace one = (
  λ h. elim (Bool-cases (fits_int32 code)) [
    | inl fits ↦ rw fits (
        EndsLease-execute ref (complete_query ref to code reason now) js
          (complete-EndsLease ref to code reason now) one (ground arith))
    | inr out ↦ absurd (ground arith)
  ],
  λ h.
      EndsLease-execute ref (release_query ref now) js (release-EndsLease ref now) one
        (ground arith),
  λ h.
      EndsLease-execute ref (requeue_query ref.org_id ref.job_id now) js (requeue-EndsLease ref now)
        one (ground arith),
  λ h. elim (Bool-cases (fits_int32 (some (pos grace)))) [
    | inl fits ↦ rw fits (
        EndsLease-execute ref (fail_query ref.org_id ref.job_id to reason now grace) js
          (fail-EndsLease ref to reason now grace) one (ground arith))
    | inr out ↦ absurd (ground arith)
  ],
)
