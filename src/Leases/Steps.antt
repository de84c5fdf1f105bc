-- ===== src/Leases/Steps.antt =====
-- How the calls of store/leases.go and store/runs.go change the rows of the job table.
use kilnci.Base.{
  refl, String, ap₂, ◌==◌, ◌&&◌, List, [], ◌∷◌, none, ◌≡◌, ◌⊎◌, arith, string_eq, subst, sym,
}
use kilnci.Domain.{job_status_eq}
use kilnci.Engine.States.{job_transition}
use kilnci.Leases.{
  is_job, count, Job, Runner, Update, execute, update_row, acquire_lease_query, complete_query,
  release_query, renew_query, requeue_query, fail_query, cancel_query, status_query,
}
use kilnci.Leases.Changes.{Call, perform, Checked, query, perform-execute}

-- A relation of the rows of two tables, place by place.
abbrev pub Rows : (Job → Job → Type 0) → List Job → List Job → Type 0
Rows R [] [] = Unit
Rows R (j ∷ js) (k ∷ ks) = R j k × Rows R js ks
Rows R _ _ = ⊥

-- A row keeps what it was created with, and its status, or changes the status along an edge.
abbrev pub Moved : Job → Job → Type 0
Moved j k =
    (k.id ≡ j.id)
    × (k.org_id ≡ j.org_id)
    × ((k.trusted ≡ j.trusted)
        × ((k.max_attempts ≡ j.max_attempts)
            × ((k.status ≡ j.status) ⊎ (job_transition j.status k.status ≡ none))))

pub Moved-query :
    (c : Call) (rs : List Runner) (js : List Job) (j : Job)
    → Checked c
    → Moved j (update_row (query c rs js) j)
unfolding update_row acquire_lease_query complete_query release_query renew_query requeue_query
    fail_query cancel_query status_query job_transition
Moved-query c rs js j ok = ground arith

Rows-execute :
    (R : Job → Job → Type 0) (u : Update) (js : List Job)
    → ((j : Job) → R j (update_row u j))
    → Rows R js (execute u js)
unfolding execute
Rows-execute R u [] f = tt
Rows-execute R u (j ∷ js) f = (f j, Rows-execute R u js f)

-- Whatever call is made with the checks of its callers, no row is added, removed or renamed, none
-- changes its trust or its maximum of attempts, and each change of a job's status is a transition
-- that `JobTransition` accepts.
pub perform-Moved :
    (c : Call) (rs : List Runner) (js : List Job) → Checked c → Rows Moved js (perform c rs js)
perform-Moved c rs js ok =
    subst (Rows Moved js) (sym (perform-execute c rs js))
      (Rows-execute Moved (query c rs js) js (λ j. Moved-query c rs js j ok))

pub Moved-count :
    (o i : String) (js ks : List Job)
    → Rows Moved js ks
    → count (is_job o i) ks ≡ count (is_job o i) js
Moved-count o i [] [] h = refl
Moved-count o i [] (k ∷ ks) h = absurd h
Moved-count o i (j ∷ js) [] h = absurd h
Moved-count o i (j ∷ js) (k ∷ ks) h =
    let same : is_job o i k ≡ is_job o i j = ap₂ (λ a b. a == o && b == i) h.0.1 h.0.0 in
    ground (arith, same, Moved-count o i js ks h.1)
