-- ===== src/Leases/Once.antt =====
-- How many results a lease records, by `CompleteLeasedJob` of store/leases.go.
use kilnci.Base.{
  ℕ, ◌+◌, ◌≤◌, List, [], ◌∷◌, Option, none, some, ◌≡◌, ◌⊎◌, refl, String, All, arith, Bool-cases,
  Option-cases, inl, inr,
}
use kilnci.Base.Int.{ℤ}
use kilnci.Domain.{JobStatus, Error, err_not_found}
use kilnci.Leases.{
  Job, Runner, LeaseRef, complete_query, is_job, count, fits_int32, complete_leased_job,
}
use kilnci.Leases.Changes.{Call, perform, Checked}
use kilnci.Leases.Fencing.{Lost, GrantsOther, perform_all, Lost-perform_all, refused}
use kilnci.Leases.Ends.{ended_lease_lost}
use kilnci.Leases.Steps.{Moved-count, perform-Moved}

-- A result sent under the lease in question, or any other call.
pub data Event : Type 0 where
  result : JobStatus → Option ℤ → String → ℕ → Event
  other : Call → Event

abbrev pub call_of : LeaseRef → Event → Call
call_of ref (result to code reason now) = Call.complete ref to code reason now
call_of ref (other c) = c

abbrev answers : Option Error → ℕ
answers none = 1
answers (some e) = 0

-- Whether the event is a result that is answered without an error.
unfoldable pub recorded : LeaseRef → Event → List Job → ℕ
recorded ref (result to code reason now) js =
    answers (complete_leased_job ref to code reason now js).0
recorded ref (other c) js = 0

-- The results that are answered without an error.
unfoldable pub results : LeaseRef → List (Event × List Runner) → List Job → ℕ
unfolding recorded
results ref [] js = 0
results ref ((e, rs) ∷ es) js = recorded ref e js + results ref es (perform (call_of ref e) rs js)

-- The checks of the callers, and no second grant of the lease id.
abbrev pub IsOrderly : LeaseRef → Event → Type 0
IsOrderly ref e = Checked (call_of ref e) × GrantsOther ref.lease_id (call_of ref e)

recorded-Lost :
    (ref : LeaseRef) (e : Event) (js : List Job) → All (Lost ref) js → recorded ref e js ≡ 0
unfolding recorded complete_leased_job complete_query
recorded-Lost ref (result to code reason now) js lost = elim (Bool-cases (fits_int32 code)) [
  | inl fits ↦
      rw
        (
          fits,
          refused ref js err_not_found (complete_query ref to code reason now) (λ j h. rw h refl)
              lost,
        )
        refl
  | inr out ↦ rw out
]
recorded-Lost ref (other c) js lost = refl

results-Lost :
    (ref : LeaseRef) (es : List (Event × List Runner)) (js : List Job)
    → All (λ e. IsOrderly ref e.0) es
    → All (Lost ref) js
    → results ref es js ≡ 0
unfolding results perform_all
results-Lost ref [] js orderly lost = refl
results-Lost ref ((e, rs) ∷ es) js orderly lost =
    let later = Lost-perform_all ref ((call_of ref e, rs) ∷ []) js (orderly.0, tt) lost in
    omega (
      arith,
      recorded-Lost ref e js lost,
      results-Lost ref es (perform (call_of ref e) rs js) orderly.1 later,
    )

-- An event records nothing, or ends the lease and records one result.
recorded-ends :
    (ref : LeaseRef) (e : Event) (rs : List Runner) (js : List Job)
    → count (is_job ref.org_id ref.job_id) js ≤ 1
    → (recorded ref e js ≡ 0)
      ⊎ ((recorded ref e js ≡ 1) × All (Lost ref) (perform (call_of ref e) rs js))
unfolding recorded perform
recorded-ends ref (result to code reason now) rs js one =
    elim (Option-cases (complete_leased_job ref to code reason now js).0) [
      | inl done ↦ inr (rw done refl, (ended_lease_lost ref js to code reason now 0 one).0 done)
      | inr (x, failed) ↦ inl (rw failed refl)
    ]
recorded-ends ref (other c) rs js one = inl refl

-- A lease records at most one result: whatever calls are made, in whatever order, at most one of the
-- `CompleteLeasedJob` calls under the lease is answered without an error. The job has one row, each
-- call passes the checks of its callers, and the lease id is not granted again.
pub complete_once :
    (ref : LeaseRef) (es : List (Event × List Runner)) (js : List Job)
    → count (is_job ref.org_id ref.job_id) js ≤ 1
    → All (λ e. IsOrderly ref e.0) es
    → results ref es js ≤ 1
unfolding results
complete_once ref [] js one orderly = omega arith
complete_once ref ((e, rs) ∷ es) js one orderly =
    let c = call_of ref e in
    let kept =
      Moved-count ref.org_id ref.job_id js (perform c rs js) (perform-Moved c rs js orderly.0.0) in
    elim (recorded-ends ref e rs js one) [
      | inl quiet ↦ omega (
        arith,
        quiet,
        complete_once ref es (perform c rs js) (omega (arith, kept, one)) orderly.1,
      )
      | inr (recording, lost) ↦
          omega (arith, recording, results-Lost ref es (perform c rs js) orderly.1 lost)
    ]
