-- ===== src/Mask/Compile/Longest.antt =====
-- `matchAt` of a writer that `New` of mask.go built: the longest pattern at a position.
use kilnci.Base.{
  ℕ, zero, suc, ◌≤◌, ◌<◌, true, false, List, [], ◌∷◌, ◌≡◌, refl, ap, sym, ◌∙◌, ◌⊎◌, inl, inr,
  nat_eq, length, All, All-map, All-zip, arith, take, length-take, get_or, any, subst, Bool-cases,
}
use kilnci.Mask.{
  Bytes, Patterns, match_at, first_prefix, has_prefix, bytes_eq, head_hash, wrap_window, is_nil,
}
use kilnci.Mask.Compile.{compile_patterns, win_head_of, by_first_of, sort_patterns}
use kilnci.Mask.Compile.Sorted.{AtMost, bucket_longest, bucket_has}
use kilnci.Mask.Compile.Heads.{bit_set, win_head_of-sets, win_head_of-cons}

bytes_eq_refl : (b : Bytes) → bytes_eq b b ≡ true
unfolding bytes_eq
bytes_eq_refl [] = refl
bytes_eq_refl (x ∷ b) = ground (arith, bytes_eq_refl b)

bytes_eq-eq : (a b : Bytes) → bytes_eq a b ≡ true → a ≡ b
unfolding bytes_eq
bytes_eq-eq [] [] h = refl
bytes_eq-eq [] (y ∷ b) h = cc
bytes_eq-eq (x ∷ a) [] h = cc
bytes_eq-eq (x ∷ a) (y ∷ b) h = ground (arith, bytes_eq-eq a b)

take_of_prefix : (b p : Bytes) → has_prefix b p ≡ true → take (length p) b ≡ p
unfolding has_prefix
take_of_prefix b [] h = refl
take_of_prefix [] (y ∷ p) h = cc
take_of_prefix (x ∷ b) (y ∷ p) h = ground (arith, take_of_prefix b p)

length_of_prefix : (b p : Bytes) → has_prefix b p ≡ true → length p ≤ length b
unfolding has_prefix
length_of_prefix b [] h = omega arith
length_of_prefix [] (y ∷ p) h = cc
length_of_prefix (x ∷ b) (y ∷ p) h = ground (arith, length_of_prefix b p)

prefix-take : (n : ℕ) (b : Bytes) → has_prefix b (take n b) ≡ true
unfolding has_prefix
prefix-take zero b = refl
prefix-take (suc n) [] = refl
prefix-take (suc n) (x ∷ b) = ground (arith, prefix-take n b)

get_or-take : (n i : ℕ) (b : Bytes) → i < n → get_or (take n b) i 0 ≡ get_or b i 0
get_or-take zero i b h = absurd (omega arith)
get_or-take (suc n) i [] h = refl
get_or-take (suc n) zero (x ∷ b) h = refl
get_or-take (suc n) (suc i) (x ∷ b) h = get_or-take n i b (omega arith)

head_hash-take : (n : ℕ) (b : Bytes) → 4 ≤ n → head_hash (take n b) ≡ head_hash b
unfolding head_hash
head_hash-take n b h = cc (
  get_or-take n 0 b (omega arith),
  get_or-take n 1 b (omega arith),
  get_or-take n 2 b (omega arith),
  get_or-take n 3 b (omega arith),
)

-- Every window has the length of a window, as `addWrapPieces` makes them.
abbrev pub AreWindows : List Bytes → Type 0
AreWindows windows = All (λ w. length w ≡ wrap_window) windows

any_self : (ws : List Bytes) → All (λ w. any (bytes_eq w) ws ≡ true) ws
any_self [] = tt
any_self (w ∷ ws) = (
  ground (arith, bytes_eq_refl w),
  All-map (λ v. any (bytes_eq v) ws ≡ true) (λ v. any (bytes_eq v) (w ∷ ws) ≡ true) ws
      (λ v h. ground arith) (any_self ws),
)

any-Has :
    (P : Bytes → Type 0) (b : Bytes) (ws : List Bytes) → All P ws → any (bytes_eq b) ws ≡ true → P b
any-Has P b [] h e = cc
any-Has P b (w ∷ ws) h e = elim (Bool-cases (bytes_eq b w)) [
  | inl k ↦ subst P (sym (bytes_eq-eq b w k)) h.0
  | inr k ↦ any-Has P b ws h.1 (ground arith)
]

module _ (exact windows : List Bytes) (sized : AreWindows windows) (x : ℕ) (xs : Bytes) where
  abbrev here : Bytes
  here = x ∷ xs

  abbrev ps : Patterns
  ps = compile_patterns exact windows

  abbrev exact_match : ℕ
  exact_match = first_prefix (by_first_of (λ _. []) (sort_patterns exact) x) here

  exact_le : exact_match ≤ match_at ps here
  unfolding match_at compile_patterns
  exact_le = ground arith

  -- A window that fits is seen by the prefilter and found in the map.
  window_le :
      (w : Bytes)
      → length w ≡ wrap_window
      → bit_set (win_head_of windows) (head_hash (take 4 w)) ≡ true
      → any (bytes_eq w) windows ≡ true
      → is_nil (win_head_of windows) ≡ false
      → has_prefix here w ≡ true
      → length w ≤ match_at ps here
  unfolding match_at compile_patterns bit_set
  window_le w size set found there fits =
      let same : take wrap_window here ≡ w =
        ap (λ n. take n here) (sym size) ∙ take_of_prefix here w fits in
      let hash : head_hash (take 4 w) ≡ head_hash here =
        head_hash-take 4 w (omega arith)
        ∙ ap head_hash (sym same)
        ∙ head_hash-take wrap_window here (omega arith) in
      let seen : bit_set (win_head_of windows) (head_hash here) ≡ true =
        ap (bit_set (win_head_of windows)) (sym hash) ∙ set in
      let known : any (bytes_eq (take wrap_window here)) windows ≡ true =
        ap (λ v. any (bytes_eq v) windows) same ∙ found in
      ground (arith, seen, known, length_of_prefix here w fits)

  -- If the longest exact match is no window, the match is it or a window.
  match_cases :
      (match_at ps here ≡ exact_match)
      ⊎ ((match_at ps here ≡ wrap_window)
          × (any (bytes_eq (take wrap_window here)) windows ≡ true)
          × (wrap_window ≤ length here))
  unfolding match_at compile_patterns
  match_cases = ground arith

length-take_of_le : (n : ℕ) (b : Bytes) → n ≤ length b → length (take n b) ≡ n
length-take_of_le n b h = omega (arith, length-take {0} n b)

AtMost-nil : (n : ℕ) (ps : List Bytes) → AtMost n [] ps
AtMost-nil n [] = tt
AtMost-nil n (p ∷ ps) = (λ h. omega (arith, length_of_prefix [] p h), AtMost-nil n ps)

windows-AtMost :
    (exact windows : List Bytes) (x : ℕ) (xs : Bytes)
    → AreWindows windows
    → AtMost (match_at (compile_patterns exact windows) (x ∷ xs)) (x ∷ xs) windows
windows-AtMost exact [] x xs sized = tt
windows-AtMost exact (v ∷ vs) x xs sized =
    let ws = v ∷ vs in
    let facts =
      All-zip (λ w. length w ≡ wrap_window)
        (λ w.
          (bit_set (win_head_of ws) (head_hash (take 4 w)) ≡ true) × (any (bytes_eq w) ws ≡ true))
        ws sized
        (All-zip (λ w. bit_set (win_head_of ws) (head_hash (take 4 w)) ≡ true)
          (λ w. any (bytes_eq w) ws ≡ true) ws (win_head_of-sets ws) (any_self ws)) in
    All-map
      (λ w.
        (length w ≡ wrap_window)
        × ((bit_set (win_head_of ws) (head_hash (take 4 w)) ≡ true) × (any (bytes_eq w) ws ≡ true)))
      (λ w. has_prefix (x ∷ xs) w ≡ true → length w ≤ match_at (compile_patterns exact ws) (x ∷ xs))
      ws (λ w h. window_le exact ws sized x xs w h.0 h.1.0 h.1.1 (win_head_of-cons v vs)) facts

exact-AtMost :
    (exact windows : List Bytes) (x : ℕ) (xs : Bytes)
    → AreWindows windows
    → AtMost (match_at (compile_patterns exact windows) (x ∷ xs)) (x ∷ xs) exact
exact-AtMost exact windows x xs sized =
    let m = exact_match exact windows sized x xs in
    All-map (λ p. has_prefix (x ∷ xs) p ≡ true → length p ≤ m)
      (λ p.
        has_prefix (x ∷ xs) p ≡ true
        → length p ≤ match_at (compile_patterns exact windows) (x ∷ xs))
      exact (λ p h fits. omega (arith, h fits, exact_le exact windows sized x xs))
      (bucket_longest exact x xs)

-- A writer's patterns at a position: no pattern that stands there is longer than `matchAt` says.
pub match_at-AtMost :
    (exact windows : List Bytes) (b : Bytes)
    → AreWindows windows
    → let n = match_at (compile_patterns exact windows) b in AtMost n b exact × AtMost n b windows
match_at-AtMost exact windows [] sized = (AtMost-nil _ exact, AtMost-nil _ windows)
match_at-AtMost exact windows (x ∷ xs) sized =
    (exact-AtMost exact windows x xs sized, windows-AtMost exact windows x xs sized)

pub match_at-Has :
    (P : Bytes → Type 0) (exact windows : List Bytes) (b : Bytes)
    → All P exact
    → All P windows
    → AreWindows windows
    → let n = match_at (compile_patterns exact windows) b in
      (n ≡ 0) ⊎ ((p : Bytes) × P p × (has_prefix b p ≡ true) × (length p ≡ n))
unfolding match_at
match_at-Has P exact windows [] he hw sized = inl refl
match_at-Has P exact windows (x ∷ xs) he hw sized = elim (match_cases exact windows sized x xs) [
  | inl e ↦ elim (bucket_has P exact x (x ∷ xs) he) [
    | inl z ↦ inl (e ∙ z)
    | inr (p, h, fits, size) ↦ inr (p, h, fits, size ∙ sym e)
  ]
  | inr (e, found, room) ↦ inr (
    take wrap_window (x ∷ xs),
    any-Has P (take wrap_window (x ∷ xs)) windows hw found,
    prefix-take wrap_window (x ∷ xs),
    length-take_of_le wrap_window (x ∷ xs) room ∙ sym e,
  )
]
