-- ===== src/Mask/Sizes.antt =====
-- The size limits that `Check` of mask.go sets.
use kilnci.Base.{
  ℕ, ◌+◌, ◌≤◌, true, List, [], ◌∷◌, ◌≡◌, ◌↔◌, some, length, All, arith, Option-cases, inl, inr,
}
use kilnci.Mask.{Bytes, check, check_values, max_value_bytes, max_total_bytes}

unfoldable pub total_length : List Bytes → ℕ
total_length [] = 0
total_length (v ∷ vs) = length v + total_length vs

abbrev Small : Bytes → Type 0
Small v = length v ≤ max_value_bytes

check_values-some :
    (n : ℕ) (vs : List Bytes) → All Small vs → check_values n vs ≡ some (n + total_length vs)
unfolding check_values total_length
check_values-some n [] h = ground arith
check_values-some n (v ∷ vs) h = ground (arith, check_values-some (n + length v) vs h.1)

Small-check_values : (n : ℕ) (vs : List Bytes) {m : ℕ} → check_values n vs ≡ some m → All Small vs
unfolding check_values
Small-check_values n [] h = tt
Small-check_values n (v ∷ vs) {m} h =
    (ground arith, Small-check_values (n + length v) vs {m = m} (ground arith))

-- `Check` accepts exactly the values that are each at most 64 KiB long and 256 KiB together.
pub check_sizes_iff :
    (vs : List Bytes)
    → (check vs ≡ true)
      ↔ (All (λ v. length v ≤ max_value_bytes) vs × (total_length vs ≤ max_total_bytes))
unfolding check
check_sizes_iff vs = (
  λ h. elim (Option-cases (check_values 0 vs)) [
    | inl e ↦ absurd (ground arith)
    | inr (n, e) ↦
        let small = Small-check_values 0 vs {m = n} e in
        (small, ground (arith, check_values-some 0 vs small))
  ],
  λ (small, total). rw (check_values-some 0 vs small) (ground arith),
)
