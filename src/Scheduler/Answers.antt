-- ===== src/Scheduler/Answers.antt =====
-- What the calls of server/internal/scheduler/lease.go answer.
use kilnci.Base.{
  true, false, ◌&&◌, List, [], ◌∷◌, ◌⊎◌, All, All-map, Bool-cases, ℕ, ◌+◌, Option, none, some, ◌≡◌,
  refl, sym, ◌∙◌, ap, string_eq, String, arith, Option-cases, inl, inr,
}
use kilnci.Base.Results.{Result, ok, err}
use kilnci.Domain.{JobStatus, Error, err_not_found, job_status_eq, RunStatus}
use kilnci.Engine.States.{job_transition}
use kilnci.Leases.{Job, LeaseRef, get_leased_job, leased, is_after, renew_query}
use kilnci.Leases.Fencing.{renew_lease-refused}
use kilnci.Scheduler.{
  Run, Tables, M, chain, settle, check_error, in_tx, lock_run, find_run, list_lease_candidates,
}
use kilnci.Scheduler.Progress.{progress_run}
use kilnci.Scheduler.Leasing.{
  Caller, Lease, Options, Report, ref, get_leased, grant, lock_caller, may_lease, lease_job,
  try_lease, release, renew, heartbeat, max_candidates, check_report, complete,
}

chain_ok :
    {A B : Type 0} (p : Result Error A × Tables) (f : A → M B) (b : B) (t : Tables)
    → chain p f ≡ (ok b, t)
    → (a : A) × (t' : Tables) × (p ≡ (ok a, t')) × (f a t' ≡ (ok b, t))
chain_ok (ok a, t') f b t h = (a, t', refl, h)
chain_ok (err e, t') f b t h = cc

settle_ok :
    {A : Type 0} (s : Tables) (p : Result Error A × Tables) (a : A) (t : Tables)
    → settle s p ≡ (ok a, t)
    → p ≡ (ok a, t)
settle_ok s (ok a, t') b t h = h
settle_ok s (err e, t') b t h = cc

get_leased_found :
    (held : LeaseRef) (now : ℕ) (t t' : Tables) (job : Job)
    → get_leased held now t ≡ (ok job, t')
    → get_leased_job held now t'.jobs ≡ some job
unfolding get_leased
get_leased_found held now t t' job h = elim (Option-cases (get_leased_job held now t.jobs)) [
  | inl e ↦ absurd (ground (arith, e))
  | inr (j, e) ↦ ground (arith, e)
]

handed_out :
    (r : Caller) (c : Job) (lease_id : String) (now : ℕ) (made : Lease) (s : Tables) (l : Lease)
    (t : Tables)
    → ◌≡◌ {A = Result Error Lease × Tables} (ok made, s) (ok l, t)
    → made.id ≡ lease_id
    → get_leased_job (ref r c.id lease_id) now s.jobs ≡ some made.job
    → (◌≡◌ {A = Result Error String} (ok lease_id) (ok l.id))
      × (get_leased_job (ref r c.id l.id) now t.jobs ≡ some l.job)
handed_out r c lease_id now made s l t h same found =
    let lease_eq : made ≡ l = cc in
    let tables : s ≡ t = cc in
    let drawn_id : lease_id ≡ l.id = sym same ∙ ap (λ (x : Lease). x.id) lease_eq in
    (
      ap ok drawn_id,
      ap (λ (x : Tables). get_leased_job (ref r c.id l.id) now x.jobs) (sym tables)
          ∙ ap (λ i. get_leased_job (ref r c.id i) now s.jobs) (sym drawn_id)
          ∙ found
          ∙ ap (λ (x : Lease). some x.job) lease_eq,
    )

abbrev RollsBack : {A : Type 0} → M A → Type 0
RollsBack m = (t : Tables) (e : Error) → (m t).0 ≡ err e → (m t).1 ≡ t

-- The row is not held under the lease any more, or its time is over.
abbrev pub IsOver : LeaseRef → ℕ → Job → Type 0
IsOver held now j = leased held j ≡ true → is_after j.lease_expires_at now ≡ false

over_unselected :
    (held : LeaseRef) (now : ℕ) (j : Job)
    → IsOver held now j
    → (leased held j && is_after j.lease_expires_at now) ≡ false
over_unselected held now j h = elim (Bool-cases (leased held j)) [
  | inl t ↦ rw (t, h t)
  | inr f ↦ rw f
]

get_leased_job-over :
    (held : LeaseRef) (now : ℕ) (js : List Job)
    → All (IsOver held now) js
    → get_leased_job held now js ≡ none
unfolding get_leased_job
get_leased_job-over held now [] h = refl
get_leased_job-over held now (j ∷ js) h =
    rw (over_unselected held now j h.0) (get_leased_job-over held now js h.1)

renew-over :
    (held : LeaseRef) (now expires_at : ℕ) (t : Tables)
    → All (IsOver held now) t.jobs
    → renew held now expires_at t ≡ (err err_not_found, t)
unfolding renew renew_query
renew-over held now expires_at t h =
    rw
      (renew_lease-refused held now expires_at t.jobs (
        All-map (IsOver held now) (λ j. (renew_query held now expires_at).selects j ≡ false) t.jobs
          (over_unselected held now) h))
      refl

-- A run that may start jobs.
abbrev pub IsStartable : RunStatus → Type 0
IsStartable s = (s ≡ RunStatus.queued) ⊎ (s ≡ RunStatus.running)

-- What `ListLeaseCandidates` lists for a runner.
abbrev pub candidates : Caller → Tables → List Job
candidates r t = elim (list_lease_candidates r.org_id r.labels r.trusted max_candidates t).0 [
  | ok cs ↦ cs
  | err e ↦ []
]

module _ (observe : Run → Option Error) (opts : Options) where
  -- A lease whose time is over is of no use: when no row is held under it by an expiry after now,
  -- `Complete` with a valid report and `Heartbeat` answer that the lease is lost, `Release` answers
  -- that nothing is left to do, and the tables stay as they are.
  pub expired_lease_refused :
      (sanitize : String → String) (r : Caller) (job_id lease_id : String) (res : Report)
      (now later : ℕ) (t : Tables)
      → All (IsOver (ref r job_id lease_id) now) t.jobs
      → check_report res ≡ none
      → (complete observe opts sanitize r job_id lease_id res now later t ≡ (err err_not_found, t))
        × (heartbeat observe opts r job_id lease_id now t ≡ (err err_not_found, t))
        × (release r job_id lease_id now t ≡ (ok tt, t))
  unfolding complete heartbeat release get_leased
  expired_lease_refused sanitize r job_id lease_id res now later t over valid =
      let held = ref r job_id lease_id in
      let gone = get_leased_job-over held now t.jobs over in
      (rw (valid, gone), rw (renew-over held now (now + opts.lease_ttl) t over), rw (gone, release))

  -- A lease that `tryLease` hands out is held: its id is the one drawn, and the job that comes with
  -- it stands in the table under the runner's lease, which has not expired.
  pub try_lease_held :
      (r : Caller) (c : Job) (drawn : Result Error String) (now later : ℕ) (t t' : Tables)
      (l : Lease)
      → try_lease observe opts r c drawn now later t ≡ (ok l, t')
      → (drawn ≡ ok l.id) × (get_leased_job (ref r c.id l.id) now t'.jobs ≡ some l.job)
  unfolding try_lease in_tx lease_job
  try_lease_held r c (err x) now later t t' l h = cc
  try_lease_held r c (ok lease_id) now later t t' l h =
      let inside = settle_ok t (lease_job observe opts r c lease_id now later t) l t' h in
      let (run, t₁, _, h₁) = chain_ok (lock_run r.org_id c.run_id t) _ l t' inside in
      let (_, t₂, _, h₂) = chain_ok (check_error (may_lease run.status) t₁) _ l t' h₁ in
      let (_, t₃, _, h₃) =
        chain_ok (check_error (job_transition JobStatus.queued JobStatus.running) t₂) _ l t' h₂ in
      let (_, t₄, _, h₄) = chain_ok (lock_caller r t₃) _ l t' h₃ in
      let (_, t₅, _, h₅) =
        chain_ok (grant r c.id lease_id now (now + opts.lease_ttl) t₄) _ l t' h₄ in
      let (moved, t₆, _, h₆) =
        chain_ok (progress_run observe r.org_id c.run_id later t₅) _ l t' h₅ in
      let (job, t₇, e, h₇) = chain_ok (get_leased (ref r c.id lease_id) now t₆) _ l t' h₆ in
      let found = get_leased_found (ref r c.id lease_id) now t₆ t₇ job e in
      handed_out r c lease_id now
        (record { id = lease_id; expires_at = now + opts.lease_ttl; job = job; run = moved }) t₇ l
        t' h₇ refl found

  -- The candidate that a lease was made for, the instant of its grant, and its run before.
  abbrev pub Granted : Caller → (ℕ → ℕ) → Tables → Tables → Lease → Job → Type 0
  Granted r now t t' l c =
      ((run : Run) × (find_run r.org_id c.run_id t.runs ≡ some run) × IsStartable run.status)
      × ((i : ℕ) × (get_leased_job (ref r c.id l.id) (now i) t'.jobs ≡ some l.job))
