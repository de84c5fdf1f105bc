-- ===== src/Engine/Dag/Tests.antt =====
-- A run of dag.go: "deploy" needs "test", which needs "build".
use kilnci.Base.{
  ℕ, ◌<◌, List, [], ◌∷◌, ◌≡◌, ◌↔◌, String, refl, tally, length, lookup, if◌then◌else◌, ◌==◌,
  string_eq,
}
use kilnci.Base.Results.{ok, err}
use kilnci.Engine.Dag.{
  Node, Links, plan, finish, kahn, start, no_links, take_ready, release, release_one, sort,
  insert_sorted, roots, link_nodes, link_needs, add_link, index_nodes, cyclic, cycle,
}
use kilnci.Engine.Dag.Names.{ids}
use kilnci.Engine.Dag.Graphs.{WellFormed, Acyclic, InOrder}
use kilnci.Engine.Dag.Planned.{plan-InOrder, plan_ok_iff, kahn_enough}
use kilnci.Engine.Dag.Progress.{Outcome, waiting, blocked, advance}
use kilnci.Engine.Dag.Skips.{Startable, Doomed, advance_iff}

abbrev release_graph : List Node
release_graph =
    record { id = "deploy"; needs = "test" ∷ [] }
    ∷ (record { id = "build"; needs = [] } ∷ (record { id = "test"; needs = "build" ∷ [] } ∷ []))

abbrev release_order : List String
release_order = "build" ∷ "test" ∷ "deploy" ∷ []

release_plan : plan release_graph ≡ ok release_order
unfolding plan finish kahn start no_links take_ready release release_one sort insert_sorted roots
    link_nodes link_needs add_link index_nodes lookup
release_plan = refl

-- Two jobs that need each other.
cycle_found :
    plan (record { id = "a"; needs = "b" ∷ [] } ∷ (record { id = "b"; needs = "a" ∷ [] } ∷ []))
    ≡ err (record { node = "a"; message = cycle ("a" ∷ "b" ∷ []) })
unfolding plan finish kahn start no_links take_ready release release_one sort insert_sorted roots
    link_nodes link_needs add_link index_nodes lookup cyclic
cycle_found = refl

plan-InOrder_example :
    ((x : String) → tally x release_order ≡ tally x (ids release_graph))
    × InOrder release_graph [] release_order
plan-InOrder_example = plan-InOrder release_graph release_order release_plan

plan_ok_iff_example :
    ((order : List String) × (plan release_graph ≡ ok order))
    ↔ (WellFormed release_graph × Acyclic release_graph)
plan_ok_iff_example = plan_ok_iff release_graph

abbrev release_index : List (String × ℕ)
release_index = ("test", 2) ∷ ("build", 1) ∷ ("deploy", 0) ∷ []

abbrev release_links : Links
release_links = record { indegree = 1 ∷ 0 ∷ 1 ∷ []; dependents = [] ∷ (2 ∷ []) ∷ (0 ∷ []) ∷ [] }

kahn_enough_example :
    (kahn release_graph release_links.dependents (length release_graph) (start release_links)).ready
    ≡ []
unfolding index_nodes link_nodes link_needs add_link no_links lookup
kahn_enough_example = kahn_enough release_graph release_index release_links refl refl

-- The build has failed.
abbrev after_failure : String → Outcome
after_failure x = if x == "build" then blocked else waiting

advance_iff_example :
    ((0 < tally "deploy" (advance release_graph after_failure).0)
      ↔ ((0 < tally "deploy" (ids release_graph)) × Startable release_graph after_failure "deploy"))
    × ((0 < tally "deploy" (advance release_graph after_failure).1)
        ↔ ((0 < tally "deploy" (ids release_graph)) × Doomed release_graph after_failure "deploy"))
advance_iff_example = advance_iff release_graph after_failure release_order release_plan "deploy"
