-- ===== src/Base/Int.antt =====
-- Go's signed `int`, where a value may be negative.
use Prim.Native.Nat.{ℕ, compare, Ordering}
use mathlib.Core.Bool.{Bool, true, false}

-- `negsuc n` is -(n + 1).
pub data ℤ : Type 0 where
  pos : ℕ → ℤ
  negsuc : ℕ → ℤ

abbrev pub leb_ℤ : ℤ → ℤ → Bool
leb_ℤ (pos a) (pos b) = elim (compare a b) [ Ordering.gt ↦ false | _ ↦ true ]
leb_ℤ (pos a) (negsuc b) = false
leb_ℤ (negsuc a) (pos b) = true
leb_ℤ (negsuc a) (negsuc b) = elim (compare b a) [ Ordering.gt ↦ false | _ ↦ true ]
