-- ===== src/Base/Texts.antt =====
-- Go strings and byte slices as lists of bytes, for code that walks them.
use Prim.Native.Nat.{ℕ}
use Prim.Native.Char.{code}
use Prim.Native.String.{String}
use mathlib.Core.Path.{◌≡◌, refl}
use mathlib.Core.Logic.{◌↔◌}
use mathlib.Core.Bool.{Bool, true, false, ◌&&◌}
use mathlib.Core.List.{List, [], ◌∷◌}
use native.Mathlib.Omega.{arith}
use kilnci.Base.Equality.{Eq, nat_beq, nat_beq_iff}

abbrev pub ByteString : Type 0
ByteString = List ℕ

-- The code points of a literal, which are its bytes where the text is ASCII.
abbrev pub codes : String → ByteString
codes String.[] = []
codes (String.◌∷◌ c s) = code c ∷ codes s

abbrev pub bytes_beq : ByteString → ByteString → Bool
bytes_beq [] [] = true
bytes_beq [] (y ∷ ys) = false
bytes_beq (x ∷ xs) [] = false
bytes_beq (x ∷ xs) (y ∷ ys) = nat_beq x y && bytes_beq xs ys

bytes_beq_refl : (xs : ByteString) → bytes_beq xs xs ≡ true
bytes_beq_refl [] = refl
bytes_beq_refl (x ∷ xs) = rw ((nat_beq_iff x x).1 refl) (bytes_beq_refl xs)

bytes_beq_eq : (xs ys : ByteString) → bytes_beq xs ys ≡ true → xs ≡ ys
bytes_beq_eq [] [] h = refl
bytes_beq_eq [] (y ∷ ys) h = cc
bytes_beq_eq (x ∷ xs) [] h = cc
bytes_beq_eq (x ∷ xs) (y ∷ ys) h = ground (arith, bytes_beq_eq xs ys)

pub bytes_beq_iff : (xs ys : ByteString) → (bytes_beq xs ys ≡ true) ↔ (xs ≡ ys)
bytes_beq_iff xs ys = (bytes_beq_eq xs ys, λ e. rw e (bytes_beq_refl ys))

instance abbrev pub bytes_eq : Eq ByteString
bytes_eq = record { equals = bytes_beq; equals_iff = bytes_beq_iff }

abbrev pub is_empty {ℓ} : {A : Type ℓ} → List A → Bool
is_empty [] = true
is_empty (x ∷ xs) = false
