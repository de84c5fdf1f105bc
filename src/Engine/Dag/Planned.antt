-- ===== src/Engine/Dag/Planned.antt =====
-- What `Plan` of dag.go answers.
use kilnci.Base.{
  ℕ, zero, suc, ◌+◌, ◌≤◌, ◌<◌, true, List, [], ◌∷◌, ◌++◌, some, ◌≡◌, refl, sym, ◌==◌, string_eq,
  nat_eq, if◌then◌else◌, String, length, lookup, tally, arith, inl, inr, ◌↔◌, Bool-cases,
  Option-cases, subst, map, ap, ==_refl, ==_cases, tally-append, get_or, ltb, replicate,
  length-replicate, length-append, ◌∙◌,
}
use kilnci.Base.Results.{ok, Result-cases}
use kilnci.Engine.Dag.{
  Node, Links, Kahn, index_nodes, link_nodes, kahn, start, no_links, finish, plan, name_at, roots,
}
use kilnci.Engine.Dag.Tallies.{
  get_or-replicate, tally-roots, met-nil, met, Single, Below, Single-full, full-met, get_or_default,
}
use kilnci.Engine.Dag.Names.{
  ids, find_from, needs_of, needs_from, Distinct, lookup-index_nodes, index_nodes-Distinct,
  index_nodes_total, name_at-find_from, find_from_absent, find_from-name_at, needs_of-name_at,
  needs_from_past, tally-name_at,
}
use kilnci.Engine.Dag.Edges.{
  needed, position, AllChecked, link_nodes-Linked, link_nodes_total, Linked,
}
use kilnci.Engine.Dag.Graphs.{
  WellFormed, Acyclic, InOrder, AllChecked-GoodNeeds, AllChecked-needs_from, tally-positions,
  positions-tally, InOrder-Acyclic,
}
use kilnci.Engine.Dag.Rounds.{Inv, Ordered, kahn_ends, Inv-Single, Inv-Below}
use mathlib.Core.List.{reverse, reverse-cons}

tally-reverse : (x : String) (xs : List String) → tally x (reverse xs) ≡ tally x xs
tally-reverse x [] = refl
tally-reverse x (y ∷ ys) =
    rw (reverse-cons y ys, tally-append x (reverse ys) (y ∷ [])) (omega (arith, tally-reverse x ys))

length-reverse-map : (f : ℕ → String) (xs : List ℕ) → length (reverse (map f xs)) ≡ length xs
length-reverse-map f [] = refl
length-reverse-map f (x ∷ xs) =
    rw (reverse-cons (f x) (map f xs), length-append (reverse (map f xs)) (f x ∷ []))
      (omega (arith, length-reverse-map f xs))

InOrder-snoc :
    (nodes : List Node) (seen xs : List String) (x : String)
    → InOrder nodes seen xs
    → ((d : String) → 0 < tally d (needs_of nodes x) → 0 < tally d seen + tally d xs)
    → InOrder nodes seen (xs ++ x ∷ [])
InOrder-snoc nodes seen [] x h last = (λ d m. omega (arith, last d m), tt)
InOrder-snoc nodes seen (y ∷ ys) x h last =
    (h.0, InOrder-snoc nodes (y ∷ seen) ys x h.1 (λ d m. omega (arith, last d m)))

-- The state in which the checks have passed.
record Linking (nodes : List Node) (index : List (String × ℕ)) (links : Links) : Type 0 where
  indexed : index_nodes 0 [] nodes ≡ ok index
  linked : link_nodes index 0 nodes (no_links nodes) ≡ ok links

indexed_found :
    (nodes : List Node) (index : List (String × ℕ))
    → index_nodes 0 [] nodes ≡ ok index
    → (d : String) → lookup d index ≡ find_from 0 nodes d
unfolding lookup
indexed_found nodes index h d = lookup-index_nodes 0 [] nodes index h d

indexed_names :
    (nodes : List Node) (index : List (String × ℕ))
    → index_nodes 0 [] nodes ≡ ok index
    → (d : String) → ((j : ℕ) × (lookup d index ≡ some j)) ↔ (0 < tally d (ids nodes))
indexed_names nodes index h d = (
  λ (j, e).
      let at : find_from 0 nodes d ≡ some (0 + j) =
        sym (indexed_found nodes index h d) ∙ e ∙ ap some (omega arith) in
      let (name, lt) = name_at-find_from 0 j nodes d at in
      subst (λ y. 0 < tally y (ids nodes)) name (tally-name_at j nodes lt),
  λ m. elim (Option-cases (lookup d index)) [
    | inl e ↦
        absurd (omega (arith, find_from_absent 0 nodes d (sym (indexed_found nodes index h d) ∙ e)))
    | inr there ↦ there
  ],
)

module _ (nodes : List Node) (index : List (String × ℕ)) (links : Links)
    (v : Linking nodes index links) where
  distinct : Distinct nodes
  distinct x = (index_nodes-Distinct 0 [] nodes index v.indexed x).0

  found : (d : String) → lookup d index ≡ find_from 0 nodes d
  found = indexed_found nodes index v.indexed

  named :
      (d : String) (j : ℕ) → lookup d index ≡ some j → (name_at nodes j ≡ d) × (j < length nodes)
  named d j e = name_at-find_from 0 j nodes d (rw (found d) at e ∙ ap some (omega arith))

  effect : Linked (no_links nodes) links (needed index 0 nodes) × AllChecked index nodes
  unfolding no_links
  effect =
      link_nodes-Linked index 0 nodes (no_links nodes) links
        (omega (arith, length-replicate {0} {A = ℕ} (length nodes) 0))
        (λ d j e.
          omega (arith, (named d j e).1, length-replicate {0} {A = List ℕ} (length nodes) []))
        v.linked

  abbrev deps : ℕ → List ℕ
  deps = needed index 0 nodes

  edge : (i k : ℕ) → tally k (get_or links.dependents i []) ≡ tally i (deps k)
  unfolding no_links
  edge i k =
      omega (
        arith,
        effect.0.edges i k,
        ap (tally k) (get_or-replicate {A = List ℕ} (length nodes) i []),
      )

  outside : (k : ℕ) → length nodes ≤ k → deps k ≡ []
  outside k h = rw (needs_from_past 0 k nodes (omega arith))

  Inv-start : Inv nodes deps links.dependents edge outside [] (start links) []
  unfolding start no_links
  Inv-start = record {
    sized = omega (arith, effect.0.width, length-replicate {0} {A = ℕ} (length nodes) 0);
    remaining = λ k h. omega (
      arith,
      effect.0.degree k,
      get_or-replicate {A = ℕ} (length nodes) k 0,
      met-nil (deps k),
      get_or_default {A = ℕ} (replicate (length nodes) 0) k 0 1
          (omega (arith, length-replicate {0} {A = ℕ} (length nodes) 0)),
    );
    placed = λ k.
        let at_k : 0 + k ≡ k = omega arith in
        ground (
          arith,
          subst
              (λ m.
                tally m (roots 0 links.indegree)
                ≡ (if get_or links.indegree k 1 == 0 then 1 else 0))
              at_k (tally-roots 0 k links.indegree),
        );
    ordered = tt;
    listed = refl;
  }

  -- A need of a job is the name at an index that the job's list holds, and the other way round.
  need_index :
      (k : ℕ) (d : String)
      → 0 < tally d (needs_from 0 nodes k)
      → (0 < tally (position index d) (deps k))
        × (name_at nodes (position index d) ≡ d)
        × (position index d < length nodes)
  need_index k d m =
      let (j, e) = AllChecked-needs_from index 0 k nodes d effect.1 m in
      let here : position index d ≡ j = rw (e, position) in
      (
        positions-tally index d (needs_from 0 nodes k) m,
        rw here (named d j e).0,
        rw here (named d j e).1,
      )

  index_need :
      (k j : ℕ)
      → 0 < tally j (deps k)
      → (0 < tally (name_at nodes j) (needs_from 0 nodes k)) × (j < length nodes)
  index_need k j m =
      let (d, held, e) = tally-positions index j (needs_from 0 nodes k) m in
      let (_, name, lt) = need_index k d held in
      (
        subst (λ y. 0 < tally y (needs_from 0 nodes k)) (sym name ∙ ap (name_at nodes) e) held,
        subst (λ y. y < length nodes) e lt,
      )

  known : (d : String) → ((j : ℕ) × (lookup d index ≡ some j)) ↔ (0 < tally d (ids nodes))
  known = indexed_names nodes index v.indexed

  needs_at : (k : ℕ) → k < length nodes → needs_of nodes (name_at nodes k) ≡ needs_from 0 nodes k
  needs_at k h = needs_of-name_at 0 k nodes distinct h ∙ ap (needs_from 0 nodes) (omega arith)

  name_inj :
      (i j : ℕ) → i < length nodes → j < length nodes → name_at nodes i ≡ name_at nodes j → i ≡ j
  name_inj i j hi hj e =
      let p = find_from-name_at 0 i nodes distinct hi in
      let q = find_from-name_at 0 j nodes distinct hj in
      let r : some (0 + i) ≡ some (0 + j) = sym p ∙ ap (find_from 0 nodes) e ∙ q in
      ground (arith, r)

  well_formed : WellFormed nodes
  well_formed = (distinct, (AllChecked-GoodNeeds index (ids nodes) nodes known).0 effect.1)

  abbrev end : Kahn
  end = kahn nodes links.dependents (length nodes) (start links)

  module _ (done : List ℕ) (w : Inv nodes deps links.dependents edge outside [] end done)
      (empty : end.ready ≡ []) where
    abbrev single : Single done
    single = Inv-Single nodes deps links.dependents edge outside done w

    abbrev below : Below (length nodes) done
    below = Inv-Below nodes deps links.dependents edge outside done w

    ordered_count : length end.order ≡ length done
    ordered_count = rw w.listed (length-reverse-map (name_at nodes) done)

    -- With ranks that fall along the needs, no job is left.
    ranked_done :
        (acyclic : Acyclic nodes) (bound k : ℕ)
        → k < length nodes
        → acyclic.0 (name_at nodes k) < bound
        → tally k done ≡ 1
    ranked_done acyclic zero k lt h = absurd (omega arith)
    ranked_done acyclic (suc bound) k lt h =
        let all_met : met done (deps k) ≡ length (deps k) = full-met done (deps k) (λ j m.
          let (held, in_range) = index_need k j m in
          ranked_done acyclic bound j in_range (
            omega
              (arith, acyclic.1 (name_at nodes k) (name_at nodes j) (rw (needs_at k lt) held)))) in
        ground (arith, w.remaining k lt, all_met, w.placed k, ap (tally k) empty)

    acyclic_full : Acyclic nodes → length end.order ≡ length nodes
    acyclic_full acyclic =
        ordered_count
        ∙ (Single-full (length nodes) done single below).1
            (λ k lt. ranked_done acyclic (suc (acyclic.0 (name_at nodes k))) k lt (omega arith))

    held_within : (k : ℕ) → 0 < tally k done → k < length nodes
    held_within k m = elim (Bool-cases (ltb k (length nodes))) [
      | inl lt ↦ ground (arith, lt)
      | inr ge ↦ absurd (omega (arith, below k (ground (arith, ge))))
    ]

    -- A job of the list of names is one of the indices.
    named_in :
        (some_done : List ℕ) (x : String)
        → 0 < tally x (map (name_at nodes) some_done)
        → (j : ℕ) × (0 < tally j some_done) × (name_at nodes j ≡ x)
    named_in [] x m = absurd (omega arith)
    named_in (i ∷ rest) x m = elim (==_cases (name_at nodes i) x) [
      | inl (same, e) ↦ (i, ground (arith, ==_refl i), e)
      | inr (other, ne) ↦
          let (j, held, e) = named_in rest x (ground (arith, other)) in (j, omega arith, e)
    ]

    in_named :
        (some_done : List ℕ) (j : ℕ)
        → 0 < tally j some_done
        → 0 < tally (name_at nodes j) (map (name_at nodes) some_done)
    in_named [] j m = absurd (omega arith)
    in_named (i ∷ rest) j m = elim (==_cases i j) [
      | inl (same, e) ↦
          let own : (name_at nodes i == name_at nodes j) ≡ true =
            subst (λ y. (name_at nodes i == name_at nodes y) ≡ true) e
              (==_refl (name_at nodes i)) in
          ground (arith, own)
      | inr (other, ne) ↦ omega (arith, in_named rest j (ground (arith, other)))
    ]

    named_once :
        (some_done : List ℕ)
        → Single some_done
        → ((j : ℕ) → 0 < tally j some_done → j < length nodes)
        → (x : String) → tally x (map (name_at nodes) some_done) ≤ 1
    named_once [] one within x = omega arith
    named_once (i ∷ rest) one within x =
        elim (Bool-cases (ltb 0 (tally x (map (name_at nodes) rest)))) [
          | inl twice ↦ elim (==_cases (name_at nodes i) x) [
            | inl (same, e) ↦
                let (j, held, f) = named_in rest x (ground (arith, twice)) in
                let again =
                  name_inj i j (within i (ground (arith, ==_refl i))) (within j (omega arith))
                    (e ∙ sym f) in
                absurd (ground (arith, one j, again, held))
            | inr (other, ne) ↦ ground (
              arith,
              other,
              named_once rest (λ k. omega (arith, one k)) (λ k m. within k (omega arith)) x,
            )
          ]
          | inr fresh ↦ ground (arith, fresh)
        ]

    -- When no job is left, each job of the graph stands in the order once.
    order_counts :
        length end.order ≡ length nodes → (x : String) → tally x end.order ≡ tally x (ids nodes)
    order_counts e x =
        let all = (Single-full (length nodes) done single below).0 (sym ordered_count ∙ e) in
        let same : tally x end.order ≡ tally x (map (name_at nodes) done) =
          rw w.listed (tally-reverse x (map (name_at nodes) done)) in
        let once = named_once done single held_within x in
        elim (Option-cases (lookup x index)) [
          | inl absent ↦
              let none_there = find_from_absent 0 nodes x (sym (found x) ∙ absent) in
              elim (Bool-cases (ltb 0 (tally x (map (name_at nodes) done)))) [
                | inl held ↦
                    let (j, at_j, name) = named_in done x (ground (arith, held)) in
                    absurd (
                      omega (
                        arith,
                        none_there,
                        subst (λ y. 0 < tally y (ids nodes)) name
                            (tally-name_at j nodes (held_within j at_j)),
                      ))
                | inr absent_too ↦ ground (arith, same, none_there, absent_too)
              ]
          | inr (j, there) ↦
              let (name, lt) = named x j there in
              let present = (known x).0 (j, there) in
              let here : 0 < tally x (map (name_at nodes) done) =
                subst (λ y. 0 < tally y (map (name_at nodes) done)) name
                  (in_named done j (omega (arith, all j lt))) in
              omega (arith, same, once, present, here, distinct x)
        ]

    Ordered-InOrder :
        (some_done : List ℕ)
        → Ordered deps some_done
        → ((j : ℕ) → 0 < tally j some_done → j < length nodes)
        → InOrder nodes [] (reverse (map (name_at nodes) some_done))
    Ordered-InOrder [] h within = tt
    Ordered-InOrder (i ∷ rest) h within =
        rw (reverse-cons (name_at nodes i) (map (name_at nodes) rest)) (
          InOrder-snoc nodes [] (reverse (map (name_at nodes) rest)) (name_at nodes i)
            (Ordered-InOrder rest h.1 (λ j m. within j (omega arith)))
            (λ d m.
              let lt = within i (ground (arith, ==_refl i)) in
              let (held, name, in_range) = need_index i d (rw (needs_at i lt) at m) in
              let before = in_named rest (position index d) (h.0 (position index d) held) in
              omega (
                arith,
                tally-reverse d (map (name_at nodes) rest),
                subst (λ y. 0 < tally y (map (name_at nodes) rest)) name before,
              )))

    order-InOrder : InOrder nodes [] end.order
    order-InOrder = rw w.listed (Ordered-InOrder done w.ordered held_within)

  -- All that the loop leaves behind.
  answer :
      (end.ready ≡ [])
      × (length end.order ≡ length nodes
          → ((x : String) → tally x end.order ≡ tally x (ids nodes)) × InOrder nodes [] end.order)
      × (Acyclic nodes → length end.order ≡ length nodes)
  answer =
      let (done, w, empty) =
        kahn_ends nodes deps links.dependents edge outside (length nodes) (start links) []
          (omega arith) Inv-start in
      (
        empty,
        λ e. (order_counts done w empty e, order-InOrder done w empty),
        acyclic_full done w empty,
      )

plan_inv :
    (nodes : List Node) (order : List String)
    → plan nodes ≡ ok order
    → (index : List (String × ℕ)) × (links : Links) × Linking nodes index links
      × (length order ≡ length nodes)
      × ((kahn nodes links.dependents (length nodes) (start links)).order ≡ order)
unfolding plan finish
plan_inv nodes order h = elim (Result-cases (index_nodes 0 [] nodes)) [
  | inr (x, e) ↦ absurd (ground (arith, e))
  | inl (index, e) ↦ elim (Result-cases (link_nodes index 0 nodes (no_links nodes))) [
    | inr (x, f) ↦ absurd (ground (arith, e, f))
    | inl (links, f) ↦ (
      index,
      links,
      record { indexed = e; linked = f },
      ground (arith, e, f),
      ground (arith, e, f),
    )
  ]
]

-- When `Plan` succeeds, its order holds each job of the graph exactly once, each after all the jobs
-- that it needs.
pub plan-InOrder :
    (nodes : List Node) (order : List String)
    → plan nodes ≡ ok order
    → ((x : String) → tally x order ≡ tally x (ids nodes)) × InOrder nodes [] order
plan-InOrder nodes order h =
    let (index, links, v, full, same) = plan_inv nodes order h in
    let (_, sound, _) = answer nodes index links v in
    subst (λ o. ((x : String) → tally x o ≡ tally x (ids nodes)) × InOrder nodes [] o) same
      (sound (ap length same ∙ full))

plan_total :
    (nodes : List Node)
    → WellFormed nodes
    → Acyclic nodes
    → (order : List String) × (plan nodes ≡ ok order)
unfolding plan finish lookup
plan_total nodes good acyclic =
    let (index, e) = index_nodes_total 0 [] nodes good.0 (λ x m. refl) in
    let (links, f) =
      link_nodes_total index 0 nodes (no_links nodes)
        ((AllChecked-GoodNeeds index (ids nodes) nodes (indexed_names nodes index e)).1 good.1) in
    let full = (answer nodes index links (record { indexed = e; linked = f })).2 acyclic in
    let s = kahn nodes links.dependents (length nodes) (start links) in
    let fits : (length s.order == length nodes) ≡ true = ground (arith, full) in
    (s.order, rw (e, f, fits))

-- `Plan` succeeds exactly when the jobs have different names, each need is another job of the graph
-- and is listed once, and no job needs itself through others.
pub plan_ok_iff :
    (nodes : List Node)
    → ((order : List String) × (plan nodes ≡ ok order)) ↔ (WellFormed nodes × Acyclic nodes)
plan_ok_iff nodes = (
  λ (order, h).
      let (counts, sorted) = plan-InOrder nodes order h in
      let (index, links, v, _, _) = plan_inv nodes order h in
      (well_formed nodes index links v, InOrder-Acyclic nodes order counts sorted),
  λ (good, acyclic). plan_total nodes good acyclic,
)

-- After as many rounds as there are nodes nothing is ready, so the loop of Kahn's algorithm has
-- ended by itself: for every graph that passes the checks of the needs.
pub kahn_enough :
    (nodes : List Node) (index : List (String × ℕ)) (links : Links)
    → index_nodes 0 [] nodes ≡ ok index
    → link_nodes index 0 nodes (no_links nodes) ≡ ok links
    → (kahn nodes links.dependents (length nodes) (start links)).ready ≡ []
kahn_enough nodes index links e f =
    (answer nodes index links (record { indexed = e; linked = f })).0
