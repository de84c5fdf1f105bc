-- ===== src/Engine/Spec/Glob/Accepts.antt =====
-- The table of `Glob` in spec.go decides an inductive relation between tokens and names.
use kilnci.Base.{
  ℕ, Bool, true, false, List, [], ◌∷◌, ◌≡◌, refl, sym, subst, ap, ◌∙◌, ◌≢◌, ◌↔◌, inl, inr, arith,
  nat_eq, Bool-cases,
}
use kilnci.Engine.Spec.Glob.{
  Bytes, Tok, star, double, lit, head_or, cell, last_cell, row, rows, tokens, glob,
}

-- The names that a list of tokens matches.
pub data Accepts : List Tok → Bytes → Type 0 where
  done : Accepts [] []
  same : {ts : List Tok} {s : Bytes} (c : ℕ) → Accepts ts s → Accepts (lit c ∷ ts) (c ∷ s)
  star_end : {ts : List Tok} {s : Bytes} → Accepts ts s → Accepts (star ∷ ts) s
  star_more :
      {ts : List Tok} {s : Bytes} (c : ℕ)
      → c ≢ b'/'
      → Accepts (star ∷ ts) s
      → Accepts (star ∷ ts) (c ∷ s)
  double_end : {ts : List Tok} {s : Bytes} → Accepts ts s → Accepts (double ∷ ts) s
  double_more :
      {ts : List Tok} {s : Bytes} (c : ℕ) → Accepts (double ∷ ts) s → Accepts (double ∷ ts) (c ∷ s)

-- A row's tail is the row of the name's tail.
rows-cons :
    (ts : List Tok) (c : ℕ) (s : Bytes) → rows ts (c ∷ s) ≡ head_or (rows ts (c ∷ s)) ∷ rows ts s
unfolding rows head_or
rows-cons [] c s = refl
rows-cons (t ∷ ts) c s =
    subst (λ r. row t (c ∷ s) r ≡ head_or (row t (c ∷ s) r) ∷ row t s (rows ts s))
      (sym (rows-cons ts c s)) refl

rows-nil : (ts : List Tok) → rows ts [] ≡ head_or (rows ts []) ∷ []
unfolding rows head_or
rows-nil [] = refl
rows-nil (t ∷ ts) = subst (λ r. row t [] r ≡ head_or (row t [] r) ∷ []) (sym (rows-nil ts)) refl

-- The table's answer, with the recursion that it fills in.
answer : List Tok → Bytes → Bool
answer ts s = head_or (rows ts s)

answer-nil : (t : Tok) (ts : List Tok) → answer (t ∷ ts) [] ≡ last_cell t (answer ts [])
unfolding answer rows
answer-nil t ts = ap (λ r. head_or (row t [] r)) (rows-nil ts)

answer-cons :
    (t : Tok) (ts : List Tok) (c : ℕ) (s : Bytes)
    → answer (t ∷ ts) (c ∷ s) ≡ cell t c (answer ts (c ∷ s)) (answer ts s) (answer (t ∷ ts) s)
unfolding answer rows
answer-cons t ts c s = ap (λ r. head_or (row t (c ∷ s) r)) (rows-cons ts c s)

answer-none : (c : ℕ) (s : Bytes) → answer [] (c ∷ s) ≡ false
unfolding answer rows head_or
answer-none c s = refl

answer-Accepts : (ts : List Tok) (s : Bytes) → answer ts s ≡ true → Accepts ts s
unfolding last_cell cell
answer-Accepts [] [] h = done
answer-Accepts [] (c ∷ s) h = absurd (ground (arith, answer-none c s))
answer-Accepts (star ∷ ts) [] h = star_end (answer-Accepts ts [] (sym (answer-nil star ts) ∙ h))
answer-Accepts (double ∷ ts) [] h =
    double_end (answer-Accepts ts [] (sym (answer-nil double ts) ∙ h))
answer-Accepts (lit b ∷ ts) [] h = absurd (ground (arith, answer-nil (lit b) ts))
answer-Accepts (star ∷ ts) (c ∷ s) h = elim (Bool-cases (answer ts (c ∷ s))) [
  | inl e ↦ star_end (answer-Accepts ts (c ∷ s) e)
  | inr e ↦
      star_more c (ground (arith, answer-cons star ts c s))
        (answer-Accepts (star ∷ ts) s (ground (arith, answer-cons star ts c s)))
]
answer-Accepts (double ∷ ts) (c ∷ s) h = elim (Bool-cases (answer ts (c ∷ s))) [
  | inl e ↦ double_end (answer-Accepts ts (c ∷ s) e)
  | inr e ↦
      double_more c (answer-Accepts (double ∷ ts) s (ground (arith, answer-cons double ts c s)))
]
answer-Accepts (lit b ∷ ts) (c ∷ s) h =
    let equal : c ≡ b = ground (arith, answer-cons (lit b) ts c s) in
    subst (λ x. Accepts (lit x ∷ ts) (c ∷ s)) equal
      (same c (answer-Accepts ts s (ground (arith, answer-cons (lit b) ts c s))))

Accepts-answer : {ts : List Tok} {s : Bytes} → Accepts ts s → answer ts s ≡ true
unfolding cell last_cell
Accepts-answer done = unfold answer rows head_or in refl
Accepts-answer (same {ts = ts} {s = s} c a) =
    ground (arith, answer-cons (lit c) ts c s, Accepts-answer a)
Accepts-answer (star_end {ts = ts} {s = []} a) =
    ground (arith, answer-nil star ts, Accepts-answer a)
Accepts-answer (star_end {ts = ts} {s = c ∷ s} a) =
    ground (arith, answer-cons star ts c s, Accepts-answer a)
Accepts-answer (star_more {ts = ts} {s = s} c n a) =
    ground (arith, answer-cons star ts c s, Accepts-answer a)
Accepts-answer (double_end {ts = ts} {s = []} a) =
    ground (arith, answer-nil double ts, Accepts-answer a)
Accepts-answer (double_end {ts = ts} {s = c ∷ s} a) =
    ground (arith, answer-cons double ts c s, Accepts-answer a)
Accepts-answer (double_more {ts = ts} {s = s} c a) =
    ground (arith, answer-cons double ts c s, Accepts-answer a)

-- `Glob` says yes exactly when the pattern's tokens match the name: a byte matches itself, a single star
-- any run of bytes but '/', a double star any run of bytes.
pub glob_iff : (pattern name : Bytes) → (glob pattern name ≡ true) ↔ Accepts (tokens pattern) name
unfolding glob
glob_iff pattern name = (
  λ h. answer-Accepts (tokens pattern) name (unfold answer in h),
  λ a. unfold answer in Accepts-answer a,
)
