-- ===== src/Mask/Match.antt =====
-- `matchAt` of mask.go looks no further than `hold` bytes past its position.
use kilnci.Base.{
  ℕ, zero, suc, ◌+◌, ◌≤◌, ◌<◌, false, List, [], ◌∷◌, ◌++◌, ◌≡◌, refl, ap, length, length-append,
  take, get_or, All, arith, Bool-cases, inl, inr,
}
use kilnci.Mask.{
  Bytes, Patterns, has_prefix, first_prefix, head_hash, window_at, match_at, is_nil, wrap_window,
}

-- No pattern is longer than the held-back bytes and one more.
pub record IsBounded (hold : ℕ) (ps : Patterns) : Type 0 where
  pub exact_fits : (x : ℕ) → All (λ p. length p ≤ hold + 1) (ps.by_first x)
  pub window_fits : is_nil ps.win_head ≡ false → wrap_window ≤ hold + 1

has_prefix-append : (b r p : Bytes) → length p ≤ length b → has_prefix (b ++ r) p ≡ has_prefix b p
unfolding has_prefix
has_prefix-append b r [] h = refl
has_prefix-append [] r (y ∷ p) h = absurd (omega arith)
has_prefix-append (x ∷ b) r (y ∷ p) h = ground (arith, has_prefix-append b r p)

first_prefix-append :
    (ps : List Bytes) (b r : Bytes)
    → All (λ p. length p ≤ length b) ps
    → first_prefix ps (b ++ r) ≡ first_prefix ps b
unfolding first_prefix
first_prefix-append [] b r h = refl
first_prefix-append (p ∷ ps) b r h =
    ground (arith, has_prefix-append b r p h.0, first_prefix-append ps b r h.1)

get_or-append : (b r : Bytes) (i : ℕ) → i < length b → get_or (b ++ r) i 0 ≡ get_or b i 0
get_or-append [] r i h = absurd (omega arith)
get_or-append (x ∷ b) r zero h = refl
get_or-append (x ∷ b) r (suc i) h = get_or-append b r i (omega arith)

take-append : (n : ℕ) (b r : Bytes) → n ≤ length b → take n (b ++ r) ≡ take n b
take-append zero b r h = refl
take-append (suc n) [] r h = absurd (omega arith)
take-append (suc n) (x ∷ b) r h = ap (λ l. x ∷ l) (take-append n b r (omega arith))

head_hash-append : (b r : Bytes) → 4 ≤ length b → head_hash (b ++ r) ≡ head_hash b
unfolding head_hash
head_hash-append b r h = cc (
  get_or-append b r 0 (omega arith),
  get_or-append b r 1 (omega arith),
  get_or-append b r 2 (omega arith),
  get_or-append b r 3 (omega arith),
)

window_at-append :
    (ps : Patterns) (b r : Bytes) → wrap_window ≤ length b → window_at ps (b ++ r) ≡ window_at ps b
unfolding window_at
window_at-append ps b r h = cc (head_hash-append b r (omega arith), take-append wrap_window b r h)

All-mono :
    {m n : ℕ} (ps : List Bytes) → m ≤ n → All (λ p. length p ≤ m) ps → All (λ p. length p ≤ n) ps
All-mono [] h a = tt
All-mono (p ∷ ps) h a = (omega arith, All-mono ps h a.1)

pub match_at-append :
    {hold : ℕ} (ps : Patterns) (b r : Bytes)
    → IsBounded hold ps
    → hold < length b
    → match_at ps (b ++ r) ≡ match_at ps b
unfolding match_at
match_at-append ps [] r bounded h = absurd (omega arith)
match_at-append {hold} ps (x ∷ b) r bounded h =
    let exact =
      first_prefix-append (ps.by_first x) (x ∷ b) r
        (All-mono (ps.by_first x) (omega arith) (bounded.exact_fits x)) in
    elim (Bool-cases (is_nil ps.win_head)) [
      | inl e ↦ ground (arith, exact)
      | inr e ↦ ground (
        arith,
        exact,
        bounded.window_fits e,
        length-append {0} (x ∷ b) r,
        window_at-append ps (x ∷ b) r (omega (arith, bounded.window_fits e)),
      )
    ]
