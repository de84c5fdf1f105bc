-- ===== src/Leases/Capacity.antt =====
-- How many jobs a runner holds at once, by store/leases.go.
use kilnci.Base.{
  ℕ, ◌+◌, ◌≤◌, ◌<◌, Bool, true, List, [], ◌∷◌, ◌≡◌, String, All, arith, string_eq, ltb, Bool-cases,
  ◌≢◌, ==_cases, inl, inr, any, subst, sym,
}
use kilnci.Domain.{JobStatus, job_status_eq}
use kilnci.Engine.States.{job_transition}
use kilnci.Leases.{
  Job, Runner, Update, LeaseGrant, execute, update_row, rows_affected, acquire_lease_query,
  complete_query, release_query, renew_query, requeue_query, fail_query, cancel_query, status_query,
  is_running, is_job, holds, eligible, count,
}
use kilnci.Leases.Changes.{Call, perform, Checked, query, perform-execute}

count-execute :
    (p : Job → Bool) (u : Update) (js : List Job)
    → ((j : Job) → p (update_row u j) ≡ true → p j ≡ true)
    → count p (execute u js) ≤ count p js
unfolding execute
count-execute p u [] f = omega arith
count-execute p u (j ∷ js) f = ground (arith, f j, count-execute p u js f)

count-execute_affected :
    (p : Job → Bool) (u : Update) (js : List Job)
    → count p (execute u js) ≤ count p js + rows_affected u js
unfolding execute rows_affected update_row
count-execute_affected p u [] = omega arith
count-execute_affected p u (j ∷ js) = ground (arith, count-execute_affected p u js)

-- A call that grants no lease.
abbrev pub NoGrant : Call → Type 0
NoGrant (Call.acquire g) = ⊥
NoGrant _ = Unit

holds-status_query :
    (r : Runner) (o i : String) (from to : JobStatus) (at : ℕ) (reason : String) (j : Job)
    → to ≢ JobStatus.running
    → holds r (update_row (status_query o i from to at reason) j) ≡ true
    → holds r j ≡ true
unfolding update_row status_query
holds-status_query r o i from to at reason j ne h =
    elim (Bool-cases ((status_query o i from to at reason).selects j)) [
      | inl e ↦
          let written : (is_running (record j { status = to })) ≡ true = ground (arith, e, h) in
          absurd (ne (ground (arith, written)))
      | inr e ↦ ground (arith, e, h)
    ]

-- Only a grant makes a runner hold a job.
pub holds-query :
    (r : Runner) (c : Call) (rs : List Runner) (js : List Job) (j : Job)
    → Checked c
    → NoGrant c
    → holds r (update_row (query c rs js) j) ≡ true
    → holds r j ≡ true
unfolding update_row complete_query release_query renew_query requeue_query fail_query cancel_query
    status_query job_transition
holds-query r (Call.acquire g) rs js j ok free h = absurd free
holds-query r (Call.update o i from to at reason) rs js j ok free h =
    holds-status_query r o i from to at reason j ok.1 h
holds-query r c rs js j ok free h = ground arith

count_le :
    (p q : Job → Bool) (js : List Job)
    → ((j : Job) → p j ≡ true → q j ≡ true)
    → count p js ≤ count q js
count_le p q [] f = omega arith
count_le p q (j ∷ js) f = ground (arith, f j, count_le p q js f)

counted : (p : Job → Bool) (js : List Job) → 0 < count p js → (j : Job) × (p j ≡ true)
counted p [] h = absurd (omega arith)
counted p (j ∷ js) h = elim (Bool-cases (p j)) [
  | inl e ↦ (j, e)
  | inr e ↦ counted p js (ground (arith, e))
]

-- The id of a runner is a primary key.
abbrev pub OnlyRow : Runner → List Runner → Type 0
OnlyRow r rs = All (λ x. x.id ≡ r.id → x ≡ r) rs

-- The runner that a grant finds eligible is the one that asks.
pub eligible-any :
    (r : Runner) (rs : List Runner) (js : List Job) (j : Job)
    → OnlyRow r rs
    → any (eligible js r.id j) rs ≡ true
    → eligible js r.id j r ≡ true
unfolding eligible
eligible-any r [] js j only h = absurd (ground arith)
eligible-any r (x ∷ rs) js j only h = elim (Bool-cases (eligible js r.id j x)) [
  | inl e ↦
      subst (λ y. eligible js r.id j y ≡ true)
        (only.0 (ground (arith, e, string_eq.equals_iff x.id r.id))) e
  | inr e ↦ eligible-any r rs js j only.1 (ground (arith, e, h))
]

acquire-room :
    (r : Runner) (g : LeaseGrant) (rs : List Runner) (js : List Job)
    → OnlyRow r rs
    → count (is_job g.org_id g.job_id) js ≤ 1
    → g.runner_id ≡ r.id
    → count (holds r) js ≤ r.capacity
    → count (holds r) (execute (acquire_lease_query g rs js) js) ≤ r.capacity
unfolding acquire_lease_query rows_affected eligible
acquire-room r g rs js only one same h =
    let u = acquire_lease_query g rs js in
    let grown = count-execute_affected (holds r) u js in
    let single = count_le u.selects (is_job g.org_id g.job_id) js (λ j e. ground (arith, e)) in
    elim (Bool-cases (ltb 0 (rows_affected u js))) [
      | inl some_row ↦
          let (j, e) = counted u.selects js (ground (arith, some_row)) in
          let free =
            eligible-any r rs js j only
              (subst (λ i. any (eligible js i j) rs ≡ true) same (ground (arith, e))) in
          ground (arith, grown, single, free, one)
      | inr no_row ↦ ground (arith, grown, no_row, h)
    ]

pub holds-acquire :
    (r : Runner) (g : LeaseGrant) (rs : List Runner) (js : List Job) (j : Job)
    → g.runner_id ≢ r.id
    → holds r (update_row (acquire_lease_query g rs js) j) ≡ true
    → holds r j ≡ true
unfolding update_row acquire_lease_query
holds-acquire r g rs js j other h = ground (arith, string_eq.equals_iff g.runner_id r.id)

-- The id of a job is a primary key.
abbrev pub OneRow : List Job → Type 0
OneRow js = (org_id job_id : String) → count (is_job org_id job_id) js ≤ 1

capacity-query :
    (r : Runner) (c : Call) (rs : List Runner) (js : List Job)
    → Checked c
    → OnlyRow r rs
    → OneRow js
    → count (holds r) js ≤ r.capacity
    → count (holds r) (execute (query c rs js) js) ≤ r.capacity
capacity-query r (Call.acquire g) rs js ok only one h = elim (==_cases g.runner_id r.id) [
  | inl (_, same) ↦ acquire-room r g rs js only (one g.org_id g.job_id) same h
  | inr (_, other) ↦
      let kept =
        count-execute (holds r) (acquire_lease_query g rs js) js
          (λ j. holds-acquire r g rs js j other) in
      omega (arith, kept)
]
capacity-query r c rs js ok only one h =
    let kept = count-execute (holds r) (query c rs js) js (λ j. holds-query r c rs js j ok tt) in
    omega (arith, kept)

-- Whatever call is made with the checks of its callers, a runner that holds at most as many jobs as
-- its capacity still does so after it. Ids are primary keys of both tables.
pub perform-capacity :
    (r : Runner) (c : Call) (rs : List Runner) (js : List Job)
    → Checked c
    → OnlyRow r rs
    → OneRow js
    → count (holds r) js ≤ r.capacity
    → count (holds r) (perform c rs js) ≤ r.capacity
perform-capacity r c rs js ok only one h =
    subst (λ xs. count (holds r) xs ≤ r.capacity) (sym (perform-execute c rs js))
      (capacity-query r c rs js ok only one h)
