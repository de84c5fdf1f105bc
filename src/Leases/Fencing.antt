-- ===== src/Leases/Fencing.antt =====
-- What a runner can do with a lease that it has lost, by store/leases.go.
use kilnci.Base.{
  ℕ, true, false, List, [], ◌∷◌, Option, none, some, ◌≡◌, ◌≢◌, refl, String, All, All-map, arith,
  string_eq, subst, sym, ap₂,
}
use kilnci.Base.Int.{ℤ}
use kilnci.Base.Results.{err}
use kilnci.Domain.{JobStatus, Error, err_not_found, job_status_eq}
use kilnci.Engine.States.{job_transition}
use kilnci.Leases.{
  Job, Runner, Update, LeaseRef, execute, update_row, acquire_lease_query, rows_affected,
  complete_query, release_query, renew_query, requeue_query, fail_query, cancel_query, status_query,
  leased, fits_int32, complete_leased_job, renew_lease, release_lease, get_leased_job, or_error,
  reported, returned, lease_state,
}
use kilnci.Leases.Changes.{Call, perform, Checked, query, perform-execute}
use kilnci.Leases.Rows.{All-execute}

-- No row is held under the lease.
abbrev pub Lost : LeaseRef → Job → Type 0
Lost ref j = leased ref j ≡ false

-- The call does not grant the lease id again; `Lease` draws a new one each time.
abbrev pub GrantsOther : String → Call → Type 0
GrantsOther lease_id (Call.acquire g) = g.lease_id ≢ lease_id
GrantsOther lease_id _ = Unit

-- Calls, each with the runner table that it finds.
unfoldable pub perform_all : List (Call × List Runner) → List Job → List Job
perform_all [] js = js
perform_all (c ∷ cs) js = perform_all cs (perform c.0 c.1 js)

Lost-query :
    (ref : LeaseRef) (c : Call) (rs : List Runner) (js : List Job) (j : Job)
    → Checked c × GrantsOther ref.lease_id c
    → Lost ref j
    → Lost ref (update_row (query c rs js) j)
unfolding update_row acquire_lease_query complete_query release_query renew_query requeue_query
    fail_query cancel_query status_query job_transition
Lost-query ref (Call.acquire g) rs js j other h =
    ground (arith, string_eq.equals_iff g.lease_id ref.lease_id)
Lost-query ref c rs js j other h = ground arith

pub Lost-perform_all :
    (ref : LeaseRef) (cs : List (Call × List Runner)) (js : List Job)
    → All (λ c. Checked c.0 × GrantsOther ref.lease_id c.0) cs
    → All (Lost ref) js
    → All (Lost ref) (perform_all cs js)
unfolding perform_all
Lost-perform_all ref [] js other h = h
Lost-perform_all ref (c ∷ cs) js other h = Lost-perform_all ref cs (perform c.0 c.1 js) other.1 (
    subst (All (Lost ref)) (sym (perform-execute c.0 c.1 js))
      (All-execute (Lost ref) (query c.0 c.1 js) js (λ j. Lost-query ref c.0 c.1 js j other.0) h))

-- An update that selects no row.
execute-none :
    (u : Update) (js : List Job)
    → All (λ j. u.selects j ≡ false) js
    → (rows_affected u js ≡ 0) × (execute u js ≡ js)
unfolding rows_affected execute update_row
execute-none u [] h = (refl, refl)
execute-none u (j ∷ js) h =
    let r = execute-none u js h.1 in (ground (arith, r.0), ap₂ (λ x xs. x ∷ xs) (ground arith) r.1)

pub refused :
    (ref : LeaseRef) (js : List Job) (e : Error) (u : Update)
    → ((j : Job) → Lost ref j → u.selects j ≡ false)
    → All (Lost ref) js
    → or_error e u js ≡ (some e, js)
unfolding or_error
refused ref js e u f h =
    let (none_selected, same) =
      execute-none u js (All-map (Lost ref) (λ j. u.selects j ≡ false) js f h) in
    rw (none_selected, same) refl

returned-none :
    (u : Update) (js : List Job) → All (λ j. u.selects j ≡ false) js → returned u js ≡ none
unfolding returned
returned-none u [] h = refl
returned-none u (j ∷ js) h = rw (h.0) (returned-none u js h.1)

pub renew_lease-refused :
    (ref : LeaseRef) (now expires_at : ℕ) (js : List Job)
    → All (λ j. (renew_query ref now expires_at).selects j ≡ false) js
    → renew_lease ref now expires_at js ≡ (err err_not_found, js)
unfolding renew_lease lease_state
renew_lease-refused ref now expires_at js h =
    let (_, same) = execute-none (renew_query ref now expires_at) js h in
    rw (returned-none (renew_query ref now expires_at) js h, same) refl

refused_report :
    (ref : LeaseRef) (js : List Job) (u : Update)
    → ((j : Job) → Lost ref j → u.selects j ≡ false)
    → All (Lost ref) js
    → reported u js ≡ (false, js)
unfolding reported
refused_report ref js u f h =
    let (none_selected, same) =
      execute-none u js (All-map (Lost ref) (λ j. u.selects j ≡ false) js f h) in
    rw (none_selected, same) refl

get_leased_job-none :
    (ref : LeaseRef) (now : ℕ) (js : List Job)
    → All (Lost ref) js
    → get_leased_job ref now js ≡ none
unfolding get_leased_job
get_leased_job-none ref now [] h = refl
get_leased_job-none ref now (j ∷ js) h = rw (h.0) (get_leased_job-none ref now js h.1)

-- A runner that has lost a lease cannot act under it, whatever calls follow, as long as the id is
-- not granted again: it is told that the lease is not found, reads no job, and changes no row. Each
-- call passes the checks of its callers, and the exit code fits 32 bits.
pub lost_lease_refused :
    (ref : LeaseRef) (cs : List (Call × List Runner)) (js : List Job) (to : JobStatus)
    (code : Option ℤ) (reason : String) (now expires_at : ℕ)
    → All (λ j. leased ref j ≡ false) js
    → All (λ c. Checked c.0 × GrantsOther ref.lease_id c.0) cs
    → fits_int32 code ≡ true
    → let after = perform_all cs js in
      (complete_leased_job ref to code reason now after ≡ (some err_not_found, after))
      × (renew_lease ref now expires_at after ≡ (err err_not_found, after))
      × (release_lease ref now after ≡ (false, after))
      × (get_leased_job ref now after ≡ none)
unfolding complete_leased_job release_lease complete_query renew_query release_query
lost_lease_refused ref cs js to code reason now expires_at lost other fits =
    let held = Lost-perform_all ref cs js other lost in
    let after = perform_all cs js in
    (
      rw fits (
          refused ref after err_not_found (complete_query ref to code reason now) (λ j h. rw h refl)
            held),
      renew_lease-refused ref now expires_at after (
          All-map (Lost ref) (λ j. (renew_query ref now expires_at).selects j ≡ false) after
            (λ j h. rw h refl) held),
      refused_report ref after (release_query ref now) (λ j h. rw h refl) held,
      get_leased_job-none ref now after held,
    )
