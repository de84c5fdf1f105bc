-- ===== src/Leases/Trust.antt =====
-- Which jobs a trusted runner holds, by store/leases.go.
use kilnci.Base.{
  true, List, ◌≡◌, All, arith, string_eq, Bool-cases, ==_cases, inl, inr, any, subst, sym,
}
use kilnci.Domain.{job_status_eq}
use kilnci.Leases.{Job, Runner, update_row, acquire_lease_query, eligible, holds, LeaseGrant}
use kilnci.Leases.Changes.{Call, perform, Checked, query, perform-execute}
use kilnci.Leases.Rows.{All-execute}
use kilnci.Leases.Steps.{Moved-query}
use kilnci.Leases.Capacity.{OnlyRow, eligible-any, holds-query, holds-acquire}

-- A trusted runner that holds the job is allowed to.
abbrev pub Trustworthy : Runner → Job → Type 0
Trustworthy r j = holds r j ≡ true → r.trusted ≡ true → j.trusted ≡ true

Trustworthy-granted :
    (r : Runner) (g : LeaseGrant) (rs : List Runner) (js : List Job) (j : Job)
    → OnlyRow r rs
    → g.runner_id ≡ r.id
    → Trustworthy r j
    → Trustworthy r (update_row (acquire_lease_query g rs js) j)
unfolding update_row acquire_lease_query eligible
Trustworthy-granted r g rs js j only same h held trusted =
    elim (Bool-cases (any (eligible js g.runner_id j) rs)) [
      | inl e ↦
          let own =
            eligible-any r rs js j only (subst (λ i. any (eligible js i j) rs ≡ true) same e) in
          ground (arith, own, h, held, trusted, e)
      | inr e ↦ ground (arith, h, held, trusted, e)
    ]

Trustworthy-query :
    (r : Runner) (c : Call) (rs : List Runner) (js : List Job) (j : Job)
    → Checked c
    → OnlyRow r rs
    → Trustworthy r j
    → Trustworthy r (update_row (query c rs js) j)
Trustworthy-query r (Call.acquire g) rs js j ok only h = elim (==_cases g.runner_id r.id) [
  | inl (_, same) ↦ Trustworthy-granted r g rs js j only same h
  | inr (_, other) ↦ λ held trusted.
      let kept = (Moved-query (Call.acquire g) rs js j ok) in
      cc (kept.2.0, h (holds-acquire r g rs js j other held) trusted)
]
Trustworthy-query r c rs js j ok only h = λ held trusted.
    let kept = (Moved-query c rs js j ok) in
    cc (kept.2.0, h (holds-query r c rs js j ok tt held) trusted)

-- Whatever call is made with the checks of its callers, a trusted runner that held only trusted jobs
-- holds only trusted jobs after it. The runner's id is a primary key of the runner table.
pub perform-Trustworthy :
    (r : Runner) (c : Call) (rs : List Runner) (js : List Job)
    → Checked c
    → OnlyRow r rs
    → All (Trustworthy r) js
    → All (Trustworthy r) (perform c rs js)
perform-Trustworthy r c rs js ok only h =
    subst (All (Trustworthy r)) (sym (perform-execute c rs js)) (
      All-execute (Trustworthy r) (query c rs js) js (λ j. Trustworthy-query r c rs js j ok only) h)
