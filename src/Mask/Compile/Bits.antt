-- ===== src/Mask/Compile/Bits.antt =====
-- The words of the prefilter of mask.go: setting a bit sets it, and clears none.
use kilnci.Base.{ℕ, zero, suc, ◌/◌, true, ◌≡◌, ap, ◌∙◌, nat_eq, arith}
use kilnci.Mask.{has_bit, with_bit}

pub has_bit-with_bit_self : (w k : ℕ) → has_bit (with_bit w k) k ≡ true
unfolding has_bit with_bit
has_bit-with_bit_self w zero = ground arith
has_bit-with_bit_self w (suc k) =
    ap (λ v. has_bit v k) (omega arith) ∙ has_bit-with_bit_self (w / 2) k

pub has_bit-with_bit : (w k j : ℕ) → has_bit w j ≡ true → has_bit (with_bit w k) j ≡ true
unfolding has_bit with_bit
has_bit-with_bit w zero zero h = ground arith
has_bit-with_bit w zero (suc j) h = ap (λ v. has_bit v j) (omega arith) ∙ h
has_bit-with_bit w (suc k) zero h = ground arith
has_bit-with_bit w (suc k) (suc j) h =
    ap (λ v. has_bit v j) (omega arith) ∙ has_bit-with_bit (w / 2) k j h
