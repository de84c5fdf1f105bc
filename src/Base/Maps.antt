-- ===== src/Base/Maps.antt =====
-- Go's maps as association lists, the newest entry first, and how often a list holds a value.
use Prim.Native.Nat.{ℕ, ◌+◌}
use mathlib.Core.Path.{◌≡◌, refl}
use mathlib.Core.Bool.{Bool, true, false}
use mathlib.Core.Option.{Option, none, some}
use mathlib.Core.List.{List, [], ◌∷◌, ◌++◌}
use native.Mathlib.Omega.{arith}
use kilnci.Base.Equality.{Eq, ◌==◌}
use kilnci.Base.Tests.{if◌then◌else◌}

module _ {ℓ} {K : Type ℓ} ⦃e : Eq K⦄ where
  unfoldable pub lookup {κ} : {V : Type κ} → K → List (K × V) → Option V
  lookup k [] = none
  lookup k ((j, v) ∷ m) = if j == k then some v else lookup k m

  pub lookup-cons {κ} :
      {V : Type κ} (k j : K) (v : V) (m : List (K × V))
      → lookup k ((j, v) ∷ m) ≡ (if j == k then some v else lookup k m)
  unfolding lookup
  lookup-cons k j v m = refl

  abbrev pub holds_key : K → List K → Bool
  holds_key k [] = false
  holds_key k (x ∷ xs) = if x == k then true else holds_key k xs

  abbrev pub tally : K → List K → ℕ
  tally k [] = 0
  tally k (x ∷ xs) = (if x == k then 1 else 0) + tally k xs

  pub tally-append : (k : K) (xs ys : List K) → tally k (xs ++ ys) ≡ tally k xs + tally k ys
  tally-append k [] ys = omega arith
  tally-append k (x ∷ xs) ys = omega (arith, tally-append k xs ys)
