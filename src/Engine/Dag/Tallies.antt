-- ===== src/Engine/Dag/Tallies.antt =====
-- How often lists of indices hold an index.
use kilnci.Base.{
  ℕ, zero, suc, ◌+◌, ◌≤◌, ◌<◌, List, [], ◌∷◌, ◌≡◌, refl, ◌==◌, nat_eq, if◌then◌else◌, ltb, length,
  get_or, set, tally, arith, replicate, ◌↔◌, ◌≢◌, inl, inr, Bool-cases,
}
use kilnci.Engine.Dag.{insert_sorted, sort, roots}

pub get_or-set {ℓ} :
    {A : Type ℓ} (xs : List A) (i k : ℕ) (v d : A)
    → get_or (set xs i v) k d
      ≡ (if i == k then (if ltb i (length xs) then v else d) else get_or xs k d)
get_or-set [] i k v d = ground arith
get_or-set (x ∷ xs) zero zero v d = ground arith
get_or-set (x ∷ xs) zero (suc k) v d = ground arith
get_or-set (x ∷ xs) (suc i) zero v d = ground arith
get_or-set (x ∷ xs) (suc i) (suc k) v d = ground (arith, get_or-set xs i k v d)

pub get_or_default {ℓ} :
    {A : Type ℓ} (xs : List A) (i : ℕ) (a b : A) → i < length xs → get_or xs i a ≡ get_or xs i b
get_or_default [] i a b h = absurd (omega arith)
get_or_default (x ∷ xs) zero a b h = refl
get_or_default (x ∷ xs) (suc i) a b h = get_or_default xs i a b (omega arith)

pub get_or-past {ℓ} : {A : Type ℓ} (xs : List A) (i : ℕ) (a : A) → length xs ≤ i → get_or xs i a ≡ a
get_or-past [] i a h = refl
get_or-past (x ∷ xs) zero a h = absurd (omega arith)
get_or-past (x ∷ xs) (suc i) a h = get_or-past xs i a (omega arith)

pub get_or-replicate {ℓ} : {A : Type ℓ} (n i : ℕ) (a : A) → get_or (replicate n a) i a ≡ a
get_or-replicate zero i a = refl
get_or-replicate (suc n) zero a = refl
get_or-replicate (suc n) (suc i) a = get_or-replicate n i a

tally-insert_sorted : (k x : ℕ) (xs : List ℕ) → tally k (insert_sorted x xs) ≡ tally k (x ∷ xs)
unfolding insert_sorted
tally-insert_sorted k x [] = refl
tally-insert_sorted k x (y ∷ ys) = ground (arith, tally-insert_sorted k x ys)

pub tally-sort : (k : ℕ) (xs : List ℕ) → tally k (sort xs) ≡ tally k xs
unfolding sort
tally-sort k [] = refl
tally-sort k (x ∷ xs) = omega (arith, tally-insert_sorted k x (sort xs), tally-sort k xs)

insert_sorted-ne-nil : (x : ℕ) (xs : List ℕ) → insert_sorted x xs ≢ []
unfolding insert_sorted
insert_sorted-ne-nil x [] h = cc
insert_sorted-ne-nil x (y ∷ ys) h = ground arith

pub sort-nil : (xs : List ℕ) → sort xs ≡ [] → xs ≡ []
unfolding sort
sort-nil [] h = refl
sort-nil (x ∷ xs) h = absurd (insert_sorted-ne-nil x (sort xs) h)

pub tally-roots_lt : (k i : ℕ) (ds : List ℕ) → k < i → tally k (roots i ds) ≡ 0
unfolding roots
tally-roots_lt k i [] h = refl
tally-roots_lt k i (d ∷ ds) h = ground (arith, tally-roots_lt k (suc i) ds)

pub tally-roots :
    (i m : ℕ) (ds : List ℕ) → tally (i + m) (roots i ds) ≡ (if get_or ds m 1 == 0 then 1 else 0)
unfolding roots
tally-roots i m [] = refl
tally-roots i zero (d ∷ ds) = ground (arith, tally-roots_lt (i + 0) (suc i) ds)
tally-roots i (suc m) (d ∷ ds) =
    let same : i + suc m ≡ suc i + m = omega arith in
    rw same (ground (arith, tally-roots (suc i) m ds))

-- How many members of the first list are in the second.
abbrev pub met : List ℕ → List ℕ → ℕ
met done [] = 0
met done (d ∷ ds) = tally d done + met done ds

pub met-cons : (i : ℕ) (done ds : List ℕ) → met (i ∷ done) ds ≡ met done ds + tally i ds
met-cons i done [] = omega arith
met-cons i done (d ∷ ds) = ground (arith, met-cons i done ds)

pub met-nil : (ds : List ℕ) → met [] ds ≡ 0
met-nil [] = refl
met-nil (d ∷ ds) = omega (arith, met-nil ds)

-- Each index is held at most once.
abbrev pub Single : List ℕ → Type 0
Single done = (k : ℕ) → tally k done ≤ 1

pub met-le :
    (i : ℕ) (done ds : List ℕ)
    → Single done
    → tally i done ≡ 0
    → met done ds + tally i ds ≤ length ds
met-le i done [] single h = omega arith
met-le i done (d ∷ ds) single h = ground (arith, met-le i done ds single h, single d)

pub met_le_length : (done ds : List ℕ) → Single done → met done ds ≤ length ds
met_le_length done [] single = omega arith
met_le_length done (d ∷ ds) single = omega (arith, single d, met_le_length done ds single)

-- If all are met, each is.
pub met-full :
    (done ds : List ℕ)
    → Single done
    → met done ds ≡ length ds
    → (j : ℕ) → 0 < tally j ds
    → tally j done ≡ 1
met-full done [] single h j m = absurd (omega arith)
met-full done (d ∷ ds) single h j m = elim (Bool-cases (d == j)) [
  | inl own ↦ ground (arith, own, single d, met_le_length done ds single)
  | inr other ↦
      met-full done ds single (ground (arith, single d, met_le_length done ds single)) j
        (ground (arith, other))
]

pub full-met :
    (done ds : List ℕ) → ((j : ℕ) → 0 < tally j ds → tally j done ≡ 1) → met done ds ≡ length ds
full-met done [] h = refl
full-met done (d ∷ ds) h =
    omega (arith, full-met done ds (λ j m. h j (omega arith)), h d (ground arith))

abbrev total : ℕ → List ℕ → ℕ
total zero xs = 0
total (suc n) xs = tally n xs + total n xs

total_nil : (n : ℕ) → total n [] ≡ 0
total_nil zero = refl
total_nil (suc n) = omega (arith, total_nil n)

total_ge : (n x : ℕ) (xs : List ℕ) → n ≤ x → total n (x ∷ xs) ≡ total n xs
total_ge zero x xs h = refl
total_ge (suc n) x xs h = ground (arith, total_ge n x xs)

total_cons : (n x : ℕ) (xs : List ℕ) → x < n → total n (x ∷ xs) ≡ suc (total n xs)
total_cons zero x xs h = absurd (omega arith)
total_cons (suc n) x xs h = elim (Bool-cases (x == n)) [
  | inl own ↦ ground (arith, own, total_ge n x xs)
  | inr other ↦ ground (arith, other, total_cons n x xs)
]

abbrev pub Below : ℕ → List ℕ → Type 0
Below n xs = (k : ℕ) → n ≤ k → tally k xs ≡ 0

total_length : (n : ℕ) (xs : List ℕ) → Below n xs → total n xs ≡ length xs
total_length n [] h = total_nil n
total_length n (x ∷ xs) h =
    let in_range : x < n = ground (arith, h x) in
    omega (arith, total_cons n x xs in_range, total_length n xs (λ k le. ground (arith, h k le)))

total_le : (n : ℕ) (xs : List ℕ) → Single xs → total n xs ≤ n
total_le zero xs h = omega arith
total_le (suc n) xs h = omega (arith, h n, total_le n xs h)

total_full : (n : ℕ) (xs : List ℕ) → Single xs → total n xs ≡ n → (k : ℕ) → k < n → tally k xs ≡ 1
total_full zero xs h e k lt = absurd (omega arith)
total_full (suc n) xs h e k lt = elim (Bool-cases (k == n)) [
  | inl last ↦ ground (arith, last, h n, total_le n xs h)
  | inr other ↦ total_full n xs h (omega (arith, h n, total_le n xs h)) k (ground (arith, other))
]

full_total : (n : ℕ) (xs : List ℕ) → ((k : ℕ) → k < n → tally k xs ≡ 1) → total n xs ≡ n
full_total zero xs h = refl
full_total (suc n) xs h =
    omega (arith, h n (omega arith), full_total n xs (λ k lt. h k (omega arith)))

-- Different indices below n are at most n, and are n only if they are all.
pub Single-length : (n : ℕ) (xs : List ℕ) → Single xs → Below n xs → length xs ≤ n
Single-length n xs single below = omega (arith, total_length n xs below, total_le n xs single)

pub Single-full :
    (n : ℕ) (xs : List ℕ)
    → Single xs
    → Below n xs
    → (length xs ≡ n) ↔ ((k : ℕ) → k < n → tally k xs ≡ 1)
Single-full n xs single below = (
  λ e. total_full n xs single (omega (arith, total_length n xs below)),
  λ all. omega (arith, total_length n xs below, full_total n xs all),
)
