-- ===== src/Engine/Dag.antt =====
-- The job graph: server/internal/engine/dag/dag.go.
-- An out-of-range index, which would panic in Go, reads a default here.
mod Tallies
mod Rounds
pub mod Names
mod Edges
pub mod Graphs
pub mod Planned
pub mod Progress
mod Weights
pub mod Skips
mod Tests
use kilnci.Base.{
  ℕ, zero, suc, ◌-◌, Bool, true, false, List, [], ◌∷◌, ◌++◌, Option, none, some, ◌==◌, string_eq,
  nat_eq, if◌then◌else◌, String, leb, ltb, length, get_or, set, lookup, holds_key, map, replicate,
}
use kilnci.Base.Results.{Result, ok, err, ◌>>=◌}

pub record Node : Type 0 where
  pub id : String
  pub needs : List String

-- The texts of the messages; the last one lists the jobs that are left.
pub data Message : Type 0 where
  defined_twice needs_itself needs_twice needs_unknown : Message
  cycle : List String → Message

pub record GraphError : Type 0 where
  pub node : String
  pub message : Message

-- `index`, filled from the first node on.
unfoldable pub index_nodes :
    ℕ → List (String × ℕ) → List Node → Result GraphError (List (String × ℕ))
index_nodes i index [] = ok index
index_nodes i index (n ∷ ns) = elim (lookup n.id index) [
  | some j ↦ err (record { node = n.id; message = defined_twice })
  | none ↦ index_nodes (suc i) ((n.id, i) ∷ index) ns
]

pub record Links : Type 0 where
  pub indegree : List ℕ
  pub dependents : List (List ℕ)

unfoldable pub add_link : ℕ → ℕ → Links → Links
add_link i j links = record {
  indegree = set links.indegree i (suc (get_or links.indegree i 0));
  dependents = set links.dependents j (get_or links.dependents j [] ++ i ∷ []);
}

-- The loop over `n.Needs`, with `seen` as a list.
unfoldable pub link_needs :
    List (String × ℕ) → String → ℕ → List String → List String → Links → Result GraphError Links
link_needs index id i seen [] links = ok links
link_needs index id i seen (dep ∷ deps) links = elim (dep == id) [
  | true ↦ err (record { node = id; message = needs_itself })
  | false ↦ elim (holds_key dep seen) [
    | true ↦ err (record { node = id; message = needs_twice })
    | false ↦ elim (lookup dep index) [
      | none ↦ err (record { node = id; message = needs_unknown })
      | some j ↦ link_needs index id i (dep ∷ seen) deps (add_link i j links)
    ]
  ]
]

unfoldable pub link_nodes : List (String × ℕ) → ℕ → List Node → Links → Result GraphError Links
link_nodes index i [] links = ok links
link_nodes index i (n ∷ ns) links = elim (link_needs index n.id i [] n.needs links) [
  | err e ↦ err e
  | ok linked ↦ link_nodes index (suc i) ns linked
]

-- `slices.Sort`
unfoldable pub insert_sorted : ℕ → List ℕ → List ℕ
insert_sorted x [] = x ∷ []
insert_sorted x (y ∷ ys) = if leb x y then x ∷ (y ∷ ys) else y ∷ insert_sorted x ys

unfoldable pub sort : List ℕ → List ℕ
sort [] = []
sort (x ∷ xs) = insert_sorted x (sort xs)

-- The variables of Kahn's algorithm.
pub record Kahn : Type 0 where
  pub ready : List ℕ
  pub indegree : List ℕ
  pub order : List String

-- The loop that fills `ready` at the start.
unfoldable pub roots : ℕ → List ℕ → List ℕ
roots i [] = []
roots i (d ∷ ds) = let rest = roots (suc i) ds in if d == 0 then i ∷ rest else rest

abbrev pub name_at : List Node → ℕ → String
name_at [] i = ""
name_at (n ∷ ns) zero = n.id
name_at (n ∷ ns) (suc i) = name_at ns i

unfoldable pub release_one : ℕ → Kahn → Kahn
release_one d s =
    let left = get_or s.indegree d 0 - 1 in
    record s {
      indegree = set s.indegree d left;
      ready = if left == 0 then s.ready ++ d ∷ [] else s.ready;
    }

unfoldable pub release : List ℕ → Kahn → Kahn
release [] s = s
release (d ∷ ds) s = release ds (release_one d s)

-- One round, which takes the lowest ready index `i`.
unfoldable pub take_ready : List Node → List (List ℕ) → ℕ → List ℕ → Kahn → Kahn
take_ready nodes dependents i rest s =
    release (get_or dependents i [])
      (record s { ready = rest; order = s.order ++ name_at nodes i ∷ [] })

-- The loop `for len(ready) > 0`; the fuel is the number of nodes.
unfoldable pub kahn : List Node → List (List ℕ) → ℕ → Kahn → Kahn
kahn nodes dependents zero s = s
kahn nodes dependents (suc fuel) s = elim (sort s.ready) [
  | [] ↦ s
  | i ∷ rest ↦ kahn nodes dependents fuel (take_ready nodes dependents i rest s)
]

unfoldable pub cyclic : List Node → List ℕ → List String
cyclic [] ds = []
cyclic (n ∷ ns) [] = []
cyclic (n ∷ ns) (d ∷ ds) = let rest = cyclic ns ds in if ltb 0 d then n.id ∷ rest else rest

unfoldable pub finish : List Node → Kahn → Result GraphError (List String)
finish nodes s =
    if length s.order == length nodes
    then ok s.order
    else (let left = cyclic nodes s.indegree in
        err (record { node = get_or left 0 ""; message = cycle left }))

unfoldable pub start : Links → Kahn
start links = record { ready = roots 0 links.indegree; indegree = links.indegree; order = [] }

unfoldable pub no_links : List Node → Links
no_links nodes = record {
  indegree = replicate (length nodes) 0;
  dependents = replicate (length nodes) [];
}

unfoldable pub plan : List Node → Result GraphError (List String)
plan nodes = do
  index ← index_nodes 0 [] nodes
  links ← link_nodes index 0 nodes (no_links nodes)
  finish nodes (kahn nodes links.dependents (length nodes) (start links))
