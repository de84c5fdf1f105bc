-- ===== src/Engine/Dag/Names.antt =====
-- The names of the jobs of dag.go and their indices.
use kilnci.Base.{
  ℕ, zero, suc, ◌+◌, ◌≤◌, ◌<◌, true, false, List, [], ◌∷◌, Option, none, some, ◌≡◌, refl, sym, ◌==◌,
  string_eq, nat_eq, if◌then◌else◌, String, length, lookup, tally, arith, inl, inr, subst, ◌∙◌,
  lookup-cons, ap, ==_refl, ==_cases,
}
use kilnci.Base.Results.{ok}
use kilnci.Engine.Dag.{Node, index_nodes, name_at}

abbrev pub ids : List Node → List String
ids [] = []
ids (n ∷ ns) = n.id ∷ ids ns

-- The index of the first node of that name, counted from `i`.
abbrev pub find_from : ℕ → List Node → String → Option ℕ
find_from i [] d = none
find_from i (n ∷ ns) d = if n.id == d then some i else find_from (suc i) ns d

-- `byID[id].Needs`
abbrev pub needs_of : List Node → String → List String
needs_of [] x = []
needs_of (n ∷ ns) x = if n.id == x then n.needs else needs_of ns x

abbrev pub needs_from : ℕ → List Node → ℕ → List String
needs_from i [] k = []
needs_from i (n ∷ ns) k = if k == i then n.needs else needs_from (suc i) ns k

abbrev pub Distinct : List Node → Type 0
Distinct nodes = (x : String) → tally x (ids nodes) ≤ 1

abbrev either : Option ℕ → Option ℕ → Option ℕ
either none o = o
either (some j) o = some j

either-none : (o : Option ℕ) → o ≡ either o none
either-none none = refl
either-none (some j) = refl

index_nodes_inv :
    (i : ℕ) (index : List (String × ℕ)) (n : Node) (ns : List Node) (result : List (String × ℕ))
    → index_nodes i index (n ∷ ns) ≡ ok result
    → (lookup n.id index ≡ none) × (index_nodes (suc i) ((n.id, i) ∷ index) ns ≡ ok result)
unfolding index_nodes
index_nodes_inv i index n ns result h = ground arith

pub lookup-index_nodes :
    (i : ℕ) (index : List (String × ℕ)) (ns : List Node) (result : List (String × ℕ))
    → index_nodes i index ns ≡ ok result
    → (d : String) → lookup d result ≡ either (lookup d index) (find_from i ns d)
unfolding index_nodes
lookup-index_nodes i index [] result h d =
    let same : index ≡ result = cc in ap (lookup d) (sym same) ∙ either-none (lookup d index)
lookup-index_nodes i index (n ∷ ns) result h d =
    let (fresh, rest) = index_nodes_inv i index n ns result h in
    let ih = lookup-index_nodes (suc i) ((n.id, i) ∷ index) ns result rest d in
    elim (==_cases n.id d) [
      | inl (same, e) ↦
          let fresh' : lookup d index ≡ none = subst (λ y. lookup y index ≡ none) e fresh in
          ground (arith, ih, lookup-cons d n.id i index, same, fresh')
      | inr (other, ne) ↦ ground (arith, ih, lookup-cons d n.id i index, other)
    ]

pub index_nodes-Distinct :
    (i : ℕ) (index : List (String × ℕ)) (ns : List Node) (result : List (String × ℕ))
    → index_nodes i index ns ≡ ok result
    → (x : String)
    → (tally x (ids ns) ≤ 1) × ((j : ℕ) → lookup x index ≡ some j → tally x (ids ns) ≡ 0)
index_nodes-Distinct i index [] result h x = (omega arith, λ j e. refl)
index_nodes-Distinct i index (n ∷ ns) result h x =
    let (fresh, rest) = index_nodes_inv i index n ns result h in
    let (once, never) = index_nodes-Distinct (suc i) ((n.id, i) ∷ index) ns result rest x in
    elim (==_cases n.id x) [
      | inl (same, e) ↦
          let gone = never i (rw (lookup-cons x n.id i index, same)) in
          (rw same (omega arith), λ j f. absurd (cc (fresh, e, f)))
      | inr (other, ne) ↦ (
        rw other (omega arith),
        λ j f. rw other (omega (arith, never j (rw (lookup-cons x n.id i index, other) f))),
      )
    ]

pub index_nodes_total :
    (i : ℕ) (index : List (String × ℕ)) (ns : List Node)
    → ((x : String) → tally x (ids ns) ≤ 1)
    → ((x : String) → 0 < tally x (ids ns) → lookup x index ≡ none)
    → (result : List (String × ℕ)) × (index_nodes i index ns ≡ ok result)
unfolding index_nodes
index_nodes_total i index [] one fresh = (index, refl)
index_nodes_total i index (n ∷ ns) one fresh =
    let (result, e) =
      index_nodes_total (suc i) ((n.id, i) ∷ index) ns (λ x. omega (arith, one x))
        (λ x m. elim (==_cases n.id x) [
          | inl (same, e) ↦ absurd (ground (arith, same, one x))
          | inr (other, ne) ↦
              rw (lookup-cons x n.id i index, other) (fresh x (ground (arith, other)))
        ]) in
    (result, rw (fresh n.id (ground (arith, ==_refl n.id)), index_nodes) e)

pub find_from_ge : (i : ℕ) (ns : List Node) (d : String) (j : ℕ) → find_from i ns d ≡ some j → i ≤ j
find_from_ge i [] d j h = cc
find_from_ge i (n ∷ ns) d j h = ground (arith, find_from_ge (suc i) ns d j)

pub name_at-find_from :
    (i m : ℕ) (ns : List Node) (d : String)
    → find_from i ns d ≡ some (i + m)
    → (name_at ns m ≡ d) × (m < length ns)
name_at-find_from i m [] d h = cc
name_at-find_from i zero (n ∷ ns) d h = elim (==_cases n.id d) [
  | inl (same, e) ↦ (e, omega arith)
  | inr (other, ne) ↦ absurd (ground (arith, other, find_from_ge (suc i) ns d i))
]
name_at-find_from i (suc m) (n ∷ ns) d h =
    let shift : i + suc m ≡ suc i + m = omega arith in
    elim (==_cases n.id d) [
      | inl (same, e) ↦ absurd (ground (arith, same))
      | inr (other, ne) ↦
          let (name, lt) = name_at-find_from (suc i) m ns d (ground (arith, other)) in
          (name, omega arith)
    ]

pub find_from_absent :
    (i : ℕ) (ns : List Node) (d : String) → find_from i ns d ≡ none → tally d (ids ns) ≡ 0
find_from_absent i [] d h = refl
find_from_absent i (n ∷ ns) d h = ground (arith, find_from_absent (suc i) ns d)

pub find_from_present :
    (i : ℕ) (ns : List Node) (d : String) → tally d (ids ns) ≡ 0 → find_from i ns d ≡ none
find_from_present i [] d h = refl
find_from_present i (n ∷ ns) d h = ground (arith, find_from_present (suc i) ns d)

pub tally-name_at : (m : ℕ) (ns : List Node) → m < length ns → 0 < tally (name_at ns m) (ids ns)
tally-name_at m [] h = absurd (omega arith)
tally-name_at zero (n ∷ ns) h = ground (arith, ==_refl n.id)
tally-name_at (suc m) (n ∷ ns) h = omega (arith, tally-name_at m ns (omega arith))

pub find_from-name_at :
    (i m : ℕ) (ns : List Node)
    → Distinct ns
    → m < length ns
    → find_from i ns (name_at ns m) ≡ some (i + m)
find_from-name_at i m [] one h = absurd (omega arith)
find_from-name_at i zero (n ∷ ns) one h = rw (==_refl n.id) (ap some (omega arith))
find_from-name_at i (suc m) (n ∷ ns) one h =
    let shift : i + suc m ≡ suc i + m = omega arith in
    let there = tally-name_at m ns (omega arith) in
    elim (==_cases n.id (name_at ns m)) [
      | inl (same, e) ↦ absurd (ground (arith, one (name_at ns m), same, there))
      | inr (other, ne) ↦
          rw (other, shift)
            (find_from-name_at (suc i) m ns (λ x. omega (arith, one x)) (omega arith))
    ]

-- A list of names that all belong to indices holds a name as often as its index list the index.
pub needs_of-name_at :
    (i m : ℕ) (ns : List Node)
    → Distinct ns
    → m < length ns
    → needs_of ns (name_at ns m) ≡ needs_from i ns (i + m)
needs_of-name_at i m [] one h = absurd (omega arith)
needs_of-name_at i zero (n ∷ ns) one h =
    let own : ((i + 0) == i) ≡ true = ground arith in rw (==_refl n.id, own)
needs_of-name_at i (suc m) (n ∷ ns) one h =
    let shift : i + suc m ≡ suc i + m = omega arith in
    let later : ((suc i + m) == i) ≡ false = ground arith in
    let there = tally-name_at m ns (omega arith) in
    elim (==_cases n.id (name_at ns m)) [
      | inl (same, e) ↦ absurd (ground (arith, one (name_at ns m), same, there))
      | inr (other, ne) ↦
          rw (other, shift, later)
            (needs_of-name_at (suc i) m ns (λ x. omega (arith, one x)) (omega arith))
    ]

pub needs_from_past : (i k : ℕ) (ns : List Node) → i + length ns ≤ k → needs_from i ns k ≡ []
needs_from_past i k [] h = refl
needs_from_past i k (n ∷ ns) h = ground (arith, needs_from_past (suc i) k ns (omega arith))

pub needs_from_before : (i k : ℕ) (ns : List Node) → k < i → needs_from i ns k ≡ []
needs_from_before i k [] h = refl
needs_from_before i k (n ∷ ns) h = ground (arith, needs_from_before (suc i) k ns (omega arith))
