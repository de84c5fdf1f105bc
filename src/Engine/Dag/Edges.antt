-- ===== src/Engine/Dag/Edges.antt =====
-- What the loop over the needs in dag.go computes.
use kilnci.Base.{
  ℕ, suc, ◌+◌, ◌≤◌, ◌<◌, false, List, [], ◌∷◌, ◌++◌, none, some, ◌≡◌, ◌≢◌, refl, sym, ◌==◌,
  string_eq, nat_eq, if◌then◌else◌, String, length, lookup, tally, arith, inl, inr, Bool-cases,
  Option-cases, subst, ==_cases, tally-append, get_or, length-set, length-append, append-nil,
  holds_key,
}
use kilnci.Base.Results.{ok, Result-cases}
use kilnci.Engine.Dag.{Node, Links, add_link, link_needs, link_nodes}
use kilnci.Engine.Dag.Tallies.{get_or-set, get_or_default}
use kilnci.Engine.Dag.Names.{needs_from, needs_from_before}

abbrev pub position : List (String × ℕ) → String → ℕ
position index d = elim (lookup d index) [ none ↦ 0 | some j ↦ j ]

abbrev pub positions : List (String × ℕ) → List String → List ℕ
positions index [] = []
positions index (d ∷ ds) = position index d ∷ positions index ds

-- What the checks of one node let through.
abbrev pub Checked : List (String × ℕ) → String → List String → List String → Type 0
Checked index id seen [] = Unit
Checked index id seen (d ∷ ds) =
    (d ≢ id)
    × (holds_key d seen ≡ false)
    × ((j : ℕ) × (lookup d index ≡ some j))
    × Checked index id (d ∷ seen) ds

link_needs_inv :
    (index : List (String × ℕ)) (id : String) (i : ℕ) (seen : List String) (d : String)
    (ds : List String) (links result : Links)
    → link_needs index id i seen (d ∷ ds) links ≡ ok result
    → (d ≢ id)
      × (holds_key d seen ≡ false)
      × ((j : ℕ) × (lookup d index ≡ some j)
          × (link_needs index id i (d ∷ seen) ds (add_link i j links) ≡ ok result))
unfolding link_needs
link_needs_inv index id i seen d ds links result h = elim (==_cases d id) [
  | inl (same, e) ↦ absurd (ground (arith, same))
  | inr (other, ne) ↦ elim (Bool-cases (holds_key d seen)) [
    | inl old ↦ absurd (ground (arith, other, old))
    | inr new ↦ elim (Option-cases (lookup d index)) [
      | inl e ↦ absurd (ground (arith, other, new, e))
      | inr (j, e) ↦ (ne, new, (j, e, rw (other, new, e, link_needs) at h))
    ]
  ]
]

pub link_needs-Checked :
    (index : List (String × ℕ)) (id : String) (i : ℕ) (seen ds : List String) (links result : Links)
    → link_needs index id i seen ds links ≡ ok result
    → Checked index id seen ds
link_needs-Checked index id i seen [] links result h = tt
link_needs-Checked index id i seen (d ∷ ds) links result h =
    let (ne, new, (j, e, rest)) = link_needs_inv index id i seen d ds links result h in
    (ne, new, (j, e), link_needs-Checked index id i (d ∷ seen) ds (add_link i j links) result rest)

pub Checked-link_needs :
    (index : List (String × ℕ)) (id : String) (i : ℕ) (seen ds : List String) (links : Links)
    → Checked index id seen ds
    → (result : Links) × (link_needs index id i seen ds links ≡ ok result)
unfolding link_needs
Checked-link_needs index id i seen [] links h = (links, refl)
Checked-link_needs index id i seen (d ∷ ds) links (ne, new, (j, e), rest) =
    let (result, same) = Checked-link_needs index id i (d ∷ seen) ds (add_link i j links) rest in
    elim (==_cases d id) [
      | inl (_, eq) ↦ absurd (ne eq)
      | inr (other, _) ↦ (result, rw (other, new, e, link_needs) same)
    ]

-- Every index of the map is one of the nodes.
abbrev pub Within : List (String × ℕ) → ℕ → Type 0
Within index n = (d : String) (j : ℕ) → lookup d index ≡ some j → j < n

pub record Linked (links result : Links) (gained : ℕ → List ℕ) : Type 0 where
  pub width : length result.indegree ≡ length links.indegree
  pub height : length result.dependents ≡ length links.dependents
  pub degree : (k : ℕ) → get_or result.indegree k 1 ≡ get_or links.indegree k 1 + length (gained k)
  pub edges :
      (j k : ℕ)
      → tally k (get_or result.dependents j [])
        ≡ tally k (get_or links.dependents j []) + tally j (gained k)

abbrev only : ℕ → List ℕ → ℕ → List ℕ
only i ds k = if k == i then ds else []

Linked-add_link :
    (i j : ℕ) (links : Links)
    → i < length links.indegree
    → j < length links.dependents
    → Linked links (add_link i j links) (only i (j ∷ []))
unfolding add_link
Linked-add_link i j links hi hj = record {
  width = length-set links.indegree i _;
  height = length-set links.dependents j _;
  degree = λ k. ground (
    arith,
    get_or-set links.indegree i k (suc (get_or links.indegree i 0)) 1,
    get_or_default links.indegree i 0 1,
  );
  edges = λ m k. ground (
    arith,
    get_or-set links.dependents j m (get_or links.dependents j [] ++ i ∷ []) [],
    tally-append k (get_or links.dependents j []) (i ∷ []),
  );
}

Linked-cons :
    (i : ℕ) (j : ℕ) (js : List ℕ) {links middle result : Links}
    → Linked links middle (only i (j ∷ []))
    → Linked middle result (only i js)
    → Linked links result (only i (j ∷ js))
Linked-cons i j js a b = record {
  width = omega (arith, a.width, b.width);
  height = omega (arith, a.height, b.height);
  degree = λ k. ground (arith, a.degree k, b.degree k);
  edges = λ m k. ground (arith, a.edges m k, b.edges m k);
}

link_needs-Linked :
    (index : List (String × ℕ)) (id : String) (i : ℕ) (seen ds : List String) (links result : Links)
    → i < length links.indegree
    → Within index (length links.dependents)
    → link_needs index id i seen ds links ≡ ok result
    → Linked links result (only i (positions index ds))
unfolding link_needs
link_needs-Linked index id i seen [] links result hi within h =
    let same : links ≡ result = cc in
    subst (λ r. Linked links r (only i [])) same
      (record {
        width = refl;
        height = refl;
        degree = λ k. ground arith;
        edges = λ m k. ground arith;
      })
link_needs-Linked index id i seen (d ∷ ds) links result hi within h =
    let (ne, new, (j, e, rest)) = link_needs_inv index id i seen d ds links result h in
    let one = Linked-add_link i j links hi (within d j e) in
    let here : position index d ≡ j = rw (e, position) in
    subst (λ x. Linked links result (only i (x ∷ positions index ds))) (sym here)
      (Linked-cons i j (positions index ds) one (
        link_needs-Linked index id i (d ∷ seen) ds (add_link i j links) result
          (omega (arith, one.width)) (λ x k f. omega (arith, one.height, within x k f)) rest))

-- The needs of the nodes from the i-th on, as indices.
abbrev pub needed : List (String × ℕ) → ℕ → List Node → ℕ → List ℕ
needed index i ns k = positions index (needs_from i ns k)

abbrev pub AllChecked : List (String × ℕ) → List Node → Type 0
AllChecked index [] = Unit
AllChecked index (n ∷ ns) = Checked index n.id [] n.needs × AllChecked index ns

needed-cons :
    (index : List (String × ℕ)) (i : ℕ) (n : Node) (ns : List Node) (k : ℕ)
    → needed index i (n ∷ ns) k ≡ only i (positions index n.needs) k ++ needed index (suc i) ns k
needed-cons index i n ns k = elim (Bool-cases (k == i)) [
  | inl own ↦
      rw (own, needs_from_before (suc i) k ns (ground (arith, own)))
        (sym (append-nil (positions index n.needs)))
  | inr other ↦ rw other
]

Linked-node :
    (index : List (String × ℕ)) (i : ℕ) (n : Node) (ns : List Node) {links middle result : Links}
    → Linked links middle (only i (positions index n.needs))
    → Linked middle result (needed index (suc i) ns)
    → Linked links result (needed index i (n ∷ ns))
Linked-node index i n ns a b = record {
  width = omega (arith, a.width, b.width);
  height = omega (arith, a.height, b.height);
  degree = λ k. rw (needed-cons index i n ns k) (
      omega (
        arith,
        a.degree k,
        b.degree k,
        length-append {0} (only i (positions index n.needs) k) (needed index (suc i) ns k),
      ));
  edges = λ m k. rw (needed-cons index i n ns k) (
      omega (
        arith,
        a.edges m k,
        b.edges m k,
        tally-append m (only i (positions index n.needs) k) (needed index (suc i) ns k),
      ));
}

link_nodes_inv :
    (index : List (String × ℕ)) (i : ℕ) (n : Node) (ns : List Node) (links result : Links)
    → link_nodes index i (n ∷ ns) links ≡ ok result
    → (middle : Links) × (link_needs index n.id i [] n.needs links ≡ ok middle)
      × (link_nodes index (suc i) ns middle ≡ ok result)
unfolding link_nodes
link_nodes_inv index i n ns links result h =
    elim (Result-cases (link_needs index n.id i [] n.needs links)) [
      | inl (middle, e) ↦ (middle, e, rw (e, link_nodes) at h)
      | inr (x, e) ↦ absurd (ground (arith, e))
    ]

pub link_nodes-Linked :
    (index : List (String × ℕ)) (i : ℕ) (ns : List Node) (links result : Links)
    → i + length ns ≤ length links.indegree
    → Within index (length links.dependents)
    → link_nodes index i ns links ≡ ok result
    → Linked links result (needed index i ns) × AllChecked index ns
unfolding link_nodes
link_nodes-Linked index i [] links result hi within h =
    let same : links ≡ result = cc in
    (
      subst (λ r. Linked links r (λ k. [])) same
          (record {
            width = refl;
            height = refl;
            degree = λ k. ground arith;
            edges = λ m k. ground arith;
          }),
      tt,
    )
link_nodes-Linked index i (n ∷ ns) links result hi within h =
    let (middle, first, rest) = link_nodes_inv index i n ns links result h in
    let one = link_needs-Linked index n.id i [] n.needs links middle (omega arith) within first in
    let (more, good) =
      link_nodes-Linked index (suc i) ns middle result (omega (arith, one.width))
        (λ x k f. omega (arith, one.height, within x k f)) rest in
    (
      Linked-node index i n ns one more,
      (link_needs-Checked index n.id i [] n.needs links middle first, good),
    )

pub link_nodes_total :
    (index : List (String × ℕ)) (i : ℕ) (ns : List Node) (links : Links)
    → AllChecked index ns
    → (result : Links) × (link_nodes index i ns links ≡ ok result)
unfolding link_nodes
link_nodes_total index i [] links h = (links, refl)
link_nodes_total index i (n ∷ ns) links h =
    let (middle, e) = Checked-link_needs index n.id i [] n.needs links h.0 in
    let (result, f) = link_nodes_total index (suc i) ns middle h.1 in (result, rw (e, link_nodes) f)
