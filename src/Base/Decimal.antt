-- ===== src/Base/Decimal.antt =====
-- Decimal numerals, as Go's strconv prints them, and what their bytes determine.
use Prim.Native.Nat.{ℕ, zero, suc, ◌+◌, ◌-◌, ◌*◌, ◌/◌, ◌%◌, ◌≤◌, ◌<◌}
use mathlib.Core.Path.{◌≡◌, refl, sym, ap, ◌∙◌}
use mathlib.Core.Logic.{◌≢◌, inl, inr}
use mathlib.Core.List.{List, [], ◌∷◌, ◌++◌}
use native.Mathlib.Omega.{arith}
use kilnci.Base.Tests.{ltb, if◌then◌else◌, Bool-cases, ltb→lt}
use kilnci.Base.Lists.{All}
use kilnci.Base.Int.{ℤ, pos, negsuc}

-- The digits of `n`, the last one apart; a round for each digit, and `n` itself bounds their number.
unfoldable pub digits : ℕ → ℕ → List ℕ
digits zero n = []
digits (suc f) n =
    let rest = digits f (n / 10) ++ (b'0' + n % 10) ∷ [] in
    if ltb n 10 then (b'0' + n) ∷ [] else rest

unfoldable pub decimal : ℕ → List ℕ
unfolding digits
decimal n = digits (suc n) n

-- `strconv.FormatInt` in base 10.
unfoldable pub format_int : ℤ → List ℕ
unfolding decimal
format_int (pos n) = decimal n
format_int (negsuc n) = b'-' ∷ decimal (suc n)

abbrev pub IsDigit : ℕ → Type 0
IsDigit c = (b'0' ≤ c) × (c ≤ b'9')

value_from : ℕ → List ℕ → ℕ
value_from acc [] = acc
value_from acc (c ∷ cs) = value_from (acc * 10 + (c - b'0')) cs

value_from-append :
    (acc : ℕ) (xs : List ℕ) (c : ℕ)
    → value_from acc (xs ++ c ∷ []) ≡ value_from acc xs * 10 + (c - b'0')
unfolding value_from
value_from-append acc [] c = refl
value_from-append acc (x ∷ xs) c = value_from-append (acc * 10 + (x - b'0')) xs c

value_from-digits : (f n : ℕ) → n < f → value_from 0 (digits f n) ≡ n
unfolding digits
value_from-digits zero n h = elim h [ ]
value_from-digits (suc f) n h = elim (Bool-cases (ltb n 10)) [
  | inl small ↦ rw small (unfold value_from in omega arith)
  | inr large ↦
      let big : 10 ≤ n = ground arith in
      rw (large, value_from-append 0 (digits f (n / 10)) (b'0' + n % 10))
        (omega (arith, value_from-digits f (n / 10) (omega arith)))
]

All-append : (xs : List ℕ) (c : ℕ) → All IsDigit xs → IsDigit c → All IsDigit (xs ++ c ∷ [])
All-append [] c h k = (k, tt)
All-append (x ∷ xs) c h k = (h.0, All-append xs c h.1 k)

digits-IsDigit : (f n : ℕ) → All IsDigit (digits f n)
unfolding digits
digits-IsDigit zero n = tt
digits-IsDigit (suc f) n = elim (Bool-cases (ltb n 10)) [
  | inl small ↦ let below = ltb→lt n 10 small in rw small ((omega arith, omega arith), tt)
  | inr large ↦
      rw large
        (All-append (digits f (n / 10)) _ (digits-IsDigit f (n / 10)) (omega arith, omega arith))
]

pub decimal-IsDigit : (n : ℕ) → All IsDigit (decimal n)
unfolding decimal
decimal-IsDigit n = digits-IsDigit (suc n) n

pub decimal-inj : (a b : ℕ) → decimal a ≡ decimal b → a ≡ b
unfolding decimal
decimal-inj a b e =
    sym (value_from-digits (suc a) a (omega arith))
    ∙ ap (value_from 0) e
    ∙ value_from-digits (suc b) b (omega arith)

-- A byte that is no digit ends a numeral.
until_stop :
    (xs ys : List ℕ) (stop : ℕ) (us vs : List ℕ)
    → All IsDigit xs
    → All IsDigit ys
    → b'9' < stop
    → xs ++ (stop ∷ us) ≡ ys ++ (stop ∷ vs)
    → (xs ≡ ys) × (us ≡ vs)
until_stop [] [] stop us vs h k s e = (refl, cc)
until_stop [] (y ∷ ys) stop us vs h k s e =
    let same : stop ≡ y = cc in absurd (omega (arith, k.0.1))
until_stop (x ∷ xs) [] stop us vs h k s e =
    let same : x ≡ stop = cc in absurd (omega (arith, h.0.1))
until_stop (x ∷ xs) (y ∷ ys) stop us vs h k s e =
    let (p, q) = until_stop xs ys stop us vs h.1 k.1 s (cc) in (cc, q)

pub decimal-stop :
    (a b stop : ℕ) (us vs : List ℕ)
    → b'9' < stop
    → decimal a ++ (stop ∷ us) ≡ decimal b ++ (stop ∷ vs)
    → (a ≡ b) × (us ≡ vs)
decimal-stop a b stop us vs s e =
    let (p, q) =
      until_stop (decimal a) (decimal b) stop us vs (decimal-IsDigit a) (decimal-IsDigit b) s e in
    (decimal-inj a b p, q)

not_minus : (xs ys : List ℕ) → All IsDigit xs → xs ≢ b'-' ∷ ys
not_minus [] ys h e = cc
not_minus (x ∷ xs) ys h e = let same : x ≡ b'-' = cc in absurd (omega (arith, h.0.0))

pub format_int-inj : (a b : ℤ) → format_int a ≡ format_int b → a ≡ b
unfolding format_int
format_int-inj (pos a) (pos b) e = ap pos (decimal-inj a b e)
format_int-inj (pos a) (negsuc b) e = absurd (not_minus (decimal a) _ (decimal-IsDigit a) e)
format_int-inj (negsuc a) (pos b) e = absurd (not_minus (decimal b) _ (decimal-IsDigit b) (sym e))
format_int-inj (negsuc a) (negsuc b) e =
    let same : suc a ≡ suc b = decimal-inj (suc a) (suc b) (cc) in ap negsuc (omega arith)
