-- ===== src/Engine/Dag/Graphs.antt =====
-- What a job graph of dag.go is, by the names of its jobs, against the checks that the planner makes.
use kilnci.Base.{
  ℕ, suc, ◌≤◌, ◌<◌, true, false, List, [], ◌∷◌, some, ◌≡◌, refl, sym, ◌==◌, string_eq, nat_eq,
  if◌then◌else◌, String, lookup, tally, arith, ◌⊎◌, inl, inr, ◌↔◌, Bool-cases, subst, ==_refl,
  ==_cases, holds_key, All,
}
use kilnci.Engine.Dag.{Node}
use kilnci.Engine.Dag.Names.{ids, needs_of, needs_from, Distinct}
use kilnci.Engine.Dag.Edges.{Checked, AllChecked, position, positions}

-- The needs of a node are other nodes, each listed once.
abbrev pub GoodNeeds : List String → Node → Type 0
GoodNeeds names n =
    (tally n.id n.needs ≡ 0)
    × ((d : String) → tally d n.needs ≤ 1)
    × ((d : String) → 0 < tally d n.needs → 0 < tally d names)

abbrev pub WellFormed : List Node → Type 0
WellFormed nodes = Distinct nodes × All (GoodNeeds (ids nodes)) nodes

-- A rank that falls from each job to those that it needs.
abbrev pub Acyclic : List Node → Type 0
Acyclic nodes =
    (rank : String → ℕ) × ((x d : String) → 0 < tally d (needs_of nodes x) → rank d < rank x)

-- Each job comes after all that it needs; `seen` came before.
abbrev pub InOrder : List Node → List String → List String → Type 0
InOrder nodes seen [] = Unit
InOrder nodes seen (x ∷ xs) =
    ((d : String) → 0 < tally d (needs_of nodes x) → 0 < tally d seen) × InOrder nodes (x ∷ seen) xs

pub holds_key-tally : (d : String) (xs : List String) → (holds_key d xs ≡ true) ↔ (0 < tally d xs)
holds_key-tally d [] = ground arith
holds_key-tally d (x ∷ xs) = ground (arith, holds_key-tally d xs)

Checked-sound :
    (index : List (String × ℕ)) (id : String) (seen ds : List String)
    → Checked index id seen ds
    → (tally id ds ≡ 0)
      × ((d : String) → (tally d ds ≤ 1) × (0 < tally d ds → holds_key d seen ≡ false))
      × ((d : String) → 0 < tally d ds → (j : ℕ) × (lookup d index ≡ some j))
Checked-sound index id seen [] h =
    (refl, λ d. (omega arith, λ m. absurd (omega arith)), λ d m. absurd (omega arith))
Checked-sound index id seen (x ∷ ds) (ne, new, known, rest) =
    let (self, once, all_known) = Checked-sound index id (x ∷ seen) ds rest in
    (
      ground (arith, string_eq.equals_iff x id),
      λ d. elim (==_cases x d) [
        | inl (same, e) ↦
            let fresh : holds_key d seen ≡ false = subst (λ y. holds_key y seen ≡ false) e new in
            ground (arith, same, once d, fresh)
        | inr (other, e) ↦ ground (arith, other, once d)
      ],
      λ d m. elim (==_cases x d) [
        | inl (same, e) ↦ subst (λ y. (j : ℕ) × (lookup y index ≡ some j)) e known
        | inr (other, e) ↦ all_known d (ground (arith, other))
      ],
    )

Checked-built :
    (index : List (String × ℕ)) (id : String) (seen ds : List String)
    → tally id ds ≡ 0
    → ((d : String) → (tally d ds ≤ 1) × (0 < tally d ds → holds_key d seen ≡ false))
    → ((d : String) → 0 < tally d ds → (j : ℕ) × (lookup d index ≡ some j))
    → Checked index id seen ds
Checked-built index id seen [] self once known = tt
Checked-built index id seen (x ∷ ds) self once known =
    let here : 0 < tally x (x ∷ ds) = ground (arith, ==_refl x) in
    (
      ground (arith, string_eq.equals_iff x id),
      (once x).1 here,
      known x here,
      Checked-built index id (x ∷ seen) ds (omega arith)
          (λ d. (omega (arith, (once d).0), λ m. ground (arith, once d, m)))
          (λ d m. known d (omega arith)),
    )

pub AllChecked-GoodNeeds :
    (index : List (String × ℕ)) (names : List String) (ns : List Node)
    → ((d : String) → ((j : ℕ) × (lookup d index ≡ some j)) ↔ (0 < tally d names))
    → AllChecked index ns ↔ All (GoodNeeds names) ns
AllChecked-GoodNeeds index names [] known = (λ h. tt, λ h. tt)
AllChecked-GoodNeeds index names (n ∷ ns) known =
    let (to, from) = AllChecked-GoodNeeds index names ns known in
    (
      λ h.
          let (self, once, found) = Checked-sound index n.id [] n.needs h.0 in
          ((self, λ d. (once d).0, λ d m. (known d).0 (found d m)), to h.1),
      λ h. (
        Checked-built index n.id [] n.needs h.0.0 (λ d. (h.0.1 d, λ m. refl))
            (λ d m. (known d).1 (h.0.2 d m)),
        from h.1,
      ),
    )

pub AllChecked-needs_from :
    (index : List (String × ℕ)) (i k : ℕ) (ns : List Node) (d : String)
    → AllChecked index ns
    → 0 < tally d (needs_from i ns k)
    → (j : ℕ) × (lookup d index ≡ some j)
AllChecked-needs_from index i k [] d h m = absurd (omega arith)
AllChecked-needs_from index i k (n ∷ ns) d h m = elim (Bool-cases (k == i)) [
  | inl own ↦ (Checked-sound index n.id [] n.needs h.0).2 d (rw own at m)
  | inr other ↦ AllChecked-needs_from index (suc i) k ns d h.1 (rw other at m)
]

-- What a list of positions holds.
pub tally-positions :
    (index : List (String × ℕ)) (j : ℕ) (ds : List String)
    → 0 < tally j (positions index ds)
    → (d : String) × (0 < tally d ds) × (position index d ≡ j)
tally-positions index j [] m = absurd (omega arith)
tally-positions index j (d ∷ ds) m = elim (==_cases (position index d) j) [
  | inl (same, e) ↦ (d, ground (arith, ==_refl d), e)
  | inr (other, ne) ↦
      let (x, held, e) = tally-positions index j ds (ground (arith, other)) in (x, omega arith, e)
]

pub positions-tally :
    (index : List (String × ℕ)) (d : String) (ds : List String)
    → 0 < tally d ds
    → 0 < tally (position index d) (positions index ds)
positions-tally index d [] m = absurd (omega arith)
positions-tally index d (x ∷ ds) m = elim (==_cases x d) [
  | inl (same, e) ↦
      let here : (position index x == position index d) ≡ true =
        subst (λ y. (position index x == position index y) ≡ true) e (==_refl (position index x)) in
      ground (arith, here)
  | inr (other, ne) ↦ omega (arith, positions-tally index d ds (ground (arith, other)))
]

-- An order gives a rank: how many jobs come before.
abbrev place : List String → String → ℕ
place [] x = 0
place (y ∷ ys) x = if y == x then 0 else suc (place ys x)

place-lt :
    (nodes : List Node) (seen order : List String) (x d : String)
    → InOrder nodes seen order
    → 0 < tally x order
    → 0 < tally d (needs_of nodes x)
    → (0 < tally d seen) ⊎ (place order d < place order x)
place-lt nodes seen [] x d h m n = absurd (omega arith)
place-lt nodes seen (y ∷ ys) x d h m n = elim (==_cases y x) [
  | inl (same, e) ↦ inl (h.0 d (subst (λ z. 0 < tally d (needs_of nodes z)) (sym e) n))
  | inr (other, ne) ↦ elim (place-lt nodes (y ∷ seen) ys x d h.1 (ground (arith, other)) n) [
    | inl before ↦ ground (arith, other, before)
    | inr less ↦ ground (arith, other, less)
  ]
]

pub needs_of_known :
    (nodes : List Node) (x d : String) → 0 < tally d (needs_of nodes x) → 0 < tally x (ids nodes)
needs_of_known [] x d m = absurd (omega arith)
needs_of_known (n ∷ ns) x d m = ground (arith, needs_of_known ns x d)

-- A graph whose jobs can all be ordered has no cycle.
pub InOrder-Acyclic :
    (nodes : List Node) (order : List String)
    → ((x : String) → tally x order ≡ tally x (ids nodes))
    → InOrder nodes [] order
    → Acyclic nodes
InOrder-Acyclic nodes order all h = (
  place order,
  λ x d n.
      elim (place-lt nodes [] order x d h (omega (arith, all x, needs_of_known nodes x d n)) n) [
        | inl before ↦ absurd (omega arith)
        | inr less ↦ less
      ],
)
