-- ===== src/Mask/Compile/Sorted.antt =====
-- The patterns of `New` in mask.go, sorted and put by their first byte: the first that fits is the longest.
use kilnci.Base.{
  ℕ, suc, ◌≤◌, Bool, true, false, List, [], ◌∷◌, ◌++◌, ◌≡◌, refl, sym, ◌∙◌, ◌⊎◌, inl, inr, ◌==◌,
  nat_eq, length, All, All-map, arith, if◌then◌else◌, Bool-cases, append_assoc, append-nil, subst,
}
use kilnci.Mask.{Bytes, first_prefix, has_prefix}
use kilnci.Mask.Compile.{before, insert_sorted, sort_patterns, add_first, by_first_of}
use kilnci.Mask.Compile.Bounds.{All-insert_sorted, All-sort_patterns, All-by_first_of}

-- Sorted by length, longest first.
abbrev Falling : List Bytes → Type 0
Falling [] = Unit
Falling (p ∷ ps) = All (λ q. length q ≤ length p) ps × Falling ps

before_le : (a b : Bytes) → before a b ≡ true → length b ≤ length a
unfolding before
before_le a b h = ground arith

before_ge : (a b : Bytes) → before a b ≡ false → length a ≤ length b
unfolding before
before_ge a b h = ground arith

Falling-insert_sorted : (p : Bytes) (ps : List Bytes) → Falling ps → Falling (insert_sorted p ps)
unfolding insert_sorted
Falling-insert_sorted p [] h = (tt, tt)
Falling-insert_sorted p (q ∷ qs) h = elim (Bool-cases (before q p)) [
  | inl e ↦ rw e (
    All-insert_sorted (λ r. length r ≤ length q) p qs (before_le q p e) h.0,
    Falling-insert_sorted p qs h.1,
  )
  | inr e ↦
      let le = before_ge q p e in
      rw e (
        (
          le,
          All-map (λ r. length r ≤ length q) (λ r. length r ≤ length p) qs (λ r k. omega arith) h.0,
        ),
        h,
      )
]

Falling-sort_patterns : (ps : List Bytes) → Falling (sort_patterns ps)
unfolding sort_patterns
Falling-sort_patterns [] = tt
Falling-sort_patterns (p ∷ ps) =
    Falling-insert_sorted p (sort_patterns ps) (Falling-sort_patterns ps)

module _ (P : Bytes → Type 0) where
  All-if : (b : Bool) (xs ys : List Bytes) → All P (if b then xs else ys) → All P xs ⊎ All P ys
  All-if true xs ys h = inl h
  All-if false xs ys h = inr h

  insert_sorted-All : (p : Bytes) (ps : List Bytes) → All P (insert_sorted p ps) → P p × All P ps
  unfolding insert_sorted
  insert_sorted-All p [] h = h
  insert_sorted-All p (q ∷ qs) h =
      elim (All-if (before q p) (q ∷ insert_sorted p qs) (p ∷ q ∷ qs) h) [
        | inl k ↦ let (first, rest) = insert_sorted-All p qs k.1 in (first, (k.0, rest))
        | inr k ↦ k
      ]

  sort_patterns-All : (ps : List Bytes) → All P (sort_patterns ps) → All P ps
  unfolding sort_patterns
  sort_patterns-All [] h = tt
  sort_patterns-All (p ∷ ps) h =
      let (first, rest) = insert_sorted-All p (sort_patterns ps) h in
      (first, sort_patterns-All ps rest)

-- The patterns that begin with `x`.
bucket : ℕ → List Bytes → List Bytes
bucket x [] = []
bucket x ([] ∷ ps) = bucket x ps
bucket x ((y ∷ p) ∷ ps) = if y == x then (y ∷ p) ∷ bucket x ps else bucket x ps

by_first_of_lem :
    (f : ℕ → List Bytes) (ps : List Bytes) (x : ℕ) → by_first_of f ps x ≡ f x ++ bucket x ps
unfolding by_first_of bucket add_first
by_first_of_lem f [] x = sym (append-nil (f x))
by_first_of_lem f ([] ∷ ps) x = by_first_of_lem (add_first f []) ps x
by_first_of_lem f ((y ∷ p) ∷ ps) x = elim (Bool-cases (y == x)) [
  | inl e ↦
      by_first_of_lem (add_first f (y ∷ p)) ps x
      ∙ rw e (append_assoc (f x) ((y ∷ p) ∷ []) (bucket x ps))
  | inr e ↦ by_first_of_lem (add_first f (y ∷ p)) ps x ∙ rw e refl
]

All-bucket : (P : Bytes → Type 0) (x : ℕ) (ps : List Bytes) → All P ps → All P (bucket x ps)
unfolding bucket
All-bucket P x [] h = tt
All-bucket P x ([] ∷ ps) h = All-bucket P x ps h.1
All-bucket P x ((y ∷ p) ∷ ps) h = elim (Bool-cases (y == x)) [
  | inl e ↦ rw e (h.0, All-bucket P x ps h.1)
  | inr e ↦ rw e (All-bucket P x ps h.1)
]

Falling-bucket : (x : ℕ) (ps : List Bytes) → Falling ps → Falling (bucket x ps)
unfolding bucket
Falling-bucket x [] h = tt
Falling-bucket x ([] ∷ ps) h = Falling-bucket x ps h.1
Falling-bucket x ((y ∷ p) ∷ ps) h = elim (Bool-cases (y == x)) [
  | inl e ↦ rw e (All-bucket (λ q. length q ≤ suc (length p)) x ps h.0, Falling-bucket x ps h.1)
  | inr e ↦ rw e (Falling-bucket x ps h.1)
]

-- No pattern of the list that fits is longer than `n`.
abbrev pub AtMost : ℕ → Bytes → List Bytes → Type 0
AtMost n b ps = All (λ p. has_prefix b p ≡ true → length p ≤ n) ps

bucket-AtMost :
    (n x : ℕ) (b : Bytes) (ps : List Bytes) → AtMost n (x ∷ b) (bucket x ps) → AtMost n (x ∷ b) ps
unfolding bucket has_prefix
bucket-AtMost n x b [] h = tt
bucket-AtMost n x b ([] ∷ ps) h = (λ _. omega arith, bucket-AtMost n x b ps h)
bucket-AtMost n x b ((y ∷ p) ∷ ps) h = elim (Bool-cases (y == x)) [
  | inl e ↦
      let hit : bucket x ((y ∷ p) ∷ ps) ≡ (y ∷ p) ∷ bucket x ps = rw e refl in
      let k = subst (AtMost n (x ∷ b)) hit h in (k.0, bucket-AtMost n x b ps k.1)
  | inr e ↦ (λ k. absurd (ground arith), bucket-AtMost n x b ps (rw e at h))
]

first_prefix-AtMost : (ps : List Bytes) (b : Bytes) → Falling ps → AtMost (first_prefix ps b) b ps
unfolding first_prefix
first_prefix-AtMost [] b h = tt
first_prefix-AtMost (p ∷ ps) b h = elim (Bool-cases (has_prefix b p)) [
  | inl e ↦
      let hit : first_prefix (p ∷ ps) b ≡ length p = rw e refl in
      subst (λ n. AtMost n b (p ∷ ps)) (sym hit)
        (
          (λ _. omega arith),
          All-map (λ q. length q ≤ length p) (λ q. has_prefix b q ≡ true → length q ≤ length p) ps
              (λ q k _. k) h.0,
        )
  | inr e ↦
      let miss : first_prefix (p ∷ ps) b ≡ first_prefix ps b = rw e refl in
      subst (λ n. AtMost n b (p ∷ ps)) (sym miss) ((λ k. cc), first_prefix-AtMost ps b h.1)
]

first_prefix-Has :
    (P : Bytes → Type 0) (ps : List Bytes) (b : Bytes)
    → All P ps
    → (first_prefix ps b ≡ 0)
      ⊎ ((p : Bytes) × P p × (has_prefix b p ≡ true) × (length p ≡ first_prefix ps b))
unfolding first_prefix
first_prefix-Has P [] b h = inl refl
first_prefix-Has P (p ∷ ps) b h = elim (Bool-cases (has_prefix b p)) [
  | inl e ↦ inr (p, h.0, e, rw e refl)
  | inr e ↦ rw e (first_prefix-Has P ps b h.1)
]

-- The first pattern of a bucket that fits is at least as long as any of `exact` that fits.
pub bucket_longest :
    (exact : List Bytes) (x : ℕ) (b : Bytes)
    → AtMost (first_prefix (by_first_of (λ _. []) (sort_patterns exact) x) (x ∷ b)) (x ∷ b) exact
bucket_longest exact x b =
    let ps = sort_patterns exact in
    let found = by_first_of_lem (λ _. []) ps x in
    let n = first_prefix (by_first_of (λ _. []) ps x) (x ∷ b) in
    sort_patterns-All (λ p. has_prefix (x ∷ b) p ≡ true → length p ≤ n) exact
      (bucket-AtMost n x b ps (
        subst (λ l. AtMost (first_prefix l (x ∷ b)) (x ∷ b) (bucket x ps)) (sym found)
          (first_prefix-AtMost (bucket x ps) (x ∷ b)
            (Falling-bucket x ps (Falling-sort_patterns exact)))))

-- And it is one of `exact`.
pub bucket_has :
    (P : Bytes → Type 0) (exact : List Bytes) (x : ℕ) (b : Bytes)
    → All P exact
    → let n = first_prefix (by_first_of (λ _. []) (sort_patterns exact) x) b in
      (n ≡ 0) ⊎ ((p : Bytes) × P p × (has_prefix b p ≡ true) × (length p ≡ n))
bucket_has P exact x b h =
    first_prefix-Has P (by_first_of (λ _. []) (sort_patterns exact) x) b
      (All-by_first_of P (λ _. []) (sort_patterns exact) x (All-sort_patterns P exact h) tt)
