-- ===== src/Engine/Dag/Progress.antt =====
-- Which jobs become ready or must be skipped: `Advance` of server/internal/engine/dag/dag.go.
-- A Go map that is only read is a function; the zero `Outcome` is `waiting`.
use kilnci.Base.{
  Bool, true, false, List, [], ◌∷◌, ◌==◌, string_eq, if◌then◌else◌, String, holds_key,
}
use kilnci.Base.Results.{ok, err}
use kilnci.Engine.Dag.{Node, plan}
use kilnci.Engine.Dag.Names.{ids, needs_of}

pub data Outcome : Type 0 where
  waiting active succeeded blocked : Outcome

abbrev pub is_waiting : Outcome → Bool
is_waiting waiting = true
is_waiting _ = false

-- `state`, `skipped` and `readySet`; a set is the list of what was added to it.
pub record Decisions : Type 0 where
  pub state : String → Outcome
  pub skipped : List String
  pub ready : List String

-- The loop over the needs of a job, with `allDone` and `blocked`.
unfoldable pub weigh_needs : (String → Outcome) → List String → Bool × Bool → Bool × Bool
weigh_needs state [] v = v
weigh_needs state (d ∷ ds) (all_done, is_blocked) = weigh_needs state ds (elim (state d) [
  | blocked ↦ (all_done, true)
  | succeeded ↦ (all_done, is_blocked)
  | _ ↦ (false, is_blocked)
])

-- The body of the loop over the order.
unfoldable pub decide_job : List Node → String → Decisions → Decisions
decide_job nodes id s =
    if is_waiting (s.state id)
    then (let (all_done, is_blocked) = weigh_needs s.state (needs_of nodes id) (true, false) in
        if is_blocked
        then record s {
          state = λ x. if x == id then blocked else s.state x;
          skipped = id ∷ s.skipped;
        }
        else if all_done
        then record s { ready = id ∷ s.ready }
        else s)
    else s

unfoldable pub decide_jobs : List Node → List String → Decisions → Decisions
decide_jobs nodes [] s = s
decide_jobs nodes (id ∷ order) s = decide_jobs nodes order (decide_job nodes id s)

-- The names of the nodes that are in the set, in the order of the input.
unfoldable pub select : List Node → List String → List String
select [] chosen = []
select (n ∷ ns) chosen =
    let rest = select ns chosen in if holds_key n.id chosen then n.id ∷ rest else rest

unfoldable pub undecided : List Node → (String → Outcome) → Decisions
undecided nodes outcomes = record {
  state = λ x. if holds_key x (ids nodes) then outcomes x else waiting;
  skipped = [];
  ready = [];
}

-- The ready jobs and the jobs to skip; a graph that cannot be planned has neither.
unfoldable pub advance : List Node → (String → Outcome) → List String × List String
advance nodes outcomes = elim (plan nodes) [
  | err e ↦ ([], [])
  | ok order ↦
      (let s = decide_jobs nodes order (undecided nodes outcomes) in
        (select nodes s.ready, select nodes s.skipped))
]
