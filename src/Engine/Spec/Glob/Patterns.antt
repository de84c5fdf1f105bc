-- ===== src/Engine/Spec/Glob/Patterns.antt =====
-- What the patterns of spec.go mean, and that the tokenizer reads all of a pattern.
use kilnci.Base.{
  ℕ, zero, suc, ◌+◌, ◌≤◌, Bool, true, not, List, [], ◌∷◌, ◌++◌, ◌≡◌, refl, sym, subst, ap, ◌∙◌, ◌↔◌,
  length, length-append, all, map, arith, ◌==◌, nat_eq,
}
use kilnci.Engine.Spec.Glob.{Bytes, Tok, star, double, lit, drop_stars, tokens_from, tokens, glob}
use kilnci.Engine.Spec.Glob.Accepts.{
  Accepts, done, same, star_end, star_more, double_end, double_more, glob_iff,
}

length-drop_stars : (p : Bytes) → length (drop_stars p) ≤ length p
unfolding drop_stars
length-drop_stars [] = omega arith
length-drop_stars (c ∷ p) = ground (arith, length-drop_stars p)

-- Any fuel that covers the pattern gives the same tokens: the rounds that `tokens` allows are enough.
pub tokens_from_enough :
    (f g : ℕ) (p : Bytes) → length p ≤ f → length p ≤ g → tokens_from f p ≡ tokens_from g p
unfolding tokens_from
tokens_from_enough zero zero p h k = refl
tokens_from_enough zero (suc g) [] h k = refl
tokens_from_enough zero (suc g) (c ∷ p) h k = absurd (omega arith)
tokens_from_enough (suc f) zero [] h k = refl
tokens_from_enough (suc f) zero (c ∷ p) h k = absurd (omega arith)
tokens_from_enough (suc f) (suc g) [] h k = refl
tokens_from_enough (suc f) (suc g) (c ∷ p) h k =
    let rest = tokens_from_enough f g p (omega arith) (omega arith) in
    let skipped =
      tokens_from_enough f g (drop_stars p) (omega (arith, length-drop_stars p))
        (omega (arith, length-drop_stars p)) in
    ground (arith, rest, skipped)

-- No byte is a star.
abbrev pub star_free : Bytes → Bool
star_free p = all (λ c. not (c == b'*')) p

tokens_from-lit :
    (f : ℕ) (p : Bytes) → length p ≤ f → star_free p ≡ true → tokens_from f p ≡ map lit p
unfolding tokens_from
tokens_from-lit zero [] h k = refl
tokens_from-lit zero (c ∷ p) h k = absurd (omega arith)
tokens_from-lit (suc f) [] h k = refl
tokens_from-lit (suc f) (c ∷ p) h k = ground (arith, tokens_from-lit f p)

Accepts-lit : (p : Bytes) → Accepts (map lit p) p
Accepts-lit [] = done
Accepts-lit (c ∷ p) = same c (Accepts-lit p)

-- What a list of tokens that is `map lit p` accepts.
lit-Accepts : {ts : List Tok} {s : Bytes} (p : Bytes) → Accepts ts s → ts ≡ map lit p → s ≡ p
lit-Accepts [] done e = refl
lit-Accepts (b ∷ p) done e = cc
lit-Accepts [] (same c a) e = cc
lit-Accepts (b ∷ p) (same c a) e = ground (arith, lit-Accepts p a)
lit-Accepts [] (star_end a) e = cc
lit-Accepts (b ∷ p) (star_end a) e = cc
lit-Accepts [] (star_more c n a) e = cc
lit-Accepts (b ∷ p) (star_more c n a) e = cc
lit-Accepts [] (double_end a) e = cc
lit-Accepts (b ∷ p) (double_end a) e = cc
lit-Accepts [] (double_more c a) e = cc
lit-Accepts (b ∷ p) (double_more c a) e = cc

-- A pattern without a star matches itself and nothing else.
pub glob-literal_iff :
    (pattern name : Bytes)
    → star_free pattern ≡ true
    → (glob pattern name ≡ true) ↔ (name ≡ pattern)
unfolding tokens
glob-literal_iff pattern name h =
    let ts = tokens_from-lit (length pattern) pattern (omega arith) h in
    (
      λ e. lit-Accepts pattern ((glob_iff pattern name).0 e) ts,
      λ e. (glob_iff pattern name).1 (
          subst (λ l. Accepts l name) (sym ts)
            (subst (Accepts (map lit pattern)) (sym e) (Accepts-lit pattern))),
    )

abbrev no_slash : Bytes → Bool
no_slash s = all (λ c. not (c == b'/')) s

tokens_from-lit_stars :
    (f g : ℕ) (p q : Bytes)
    → f ≡ length p + g
    → star_free p ≡ true
    → tokens_from f (p ++ q) ≡ map lit p ++ tokens_from g q
unfolding tokens_from
tokens_from-lit_stars f g [] q h k = ap (λ n. tokens_from n q) (omega arith)
tokens_from-lit_stars zero g (c ∷ p) q h k = absurd (omega arith)
tokens_from-lit_stars (suc f) g (c ∷ p) q h k = ground (arith, tokens_from-lit_stars f g p q)

lit_tail :
    {b : ℕ} {ts : List Tok} {s : Bytes}
    → Accepts (lit b ∷ ts) s
    → (r : Bytes) × (s ≡ b ∷ r) × Accepts ts r
lit_tail (same {s = r} c a) = (r, refl, a)

lits_tail :
    (p : Bytes) (ts : List Tok) (s : Bytes)
    → Accepts (map lit p ++ ts) s
    → (r : Bytes) × (s ≡ p ++ r) × Accepts ts r
lits_tail [] ts s a = (s, refl, a)
lits_tail (b ∷ p) ts s a =
    let (s', e, a') = lit_tail a in
    let (r, e', a'') = lits_tail p ts s' a' in (r, e ∙ ap (λ l. b ∷ l) e', a'')

lits_more :
    (p : Bytes) (ts : List Tok) (r : Bytes) → Accepts ts r → Accepts (map lit p ++ ts) (p ++ r)
lits_more [] ts r a = a
lits_more (b ∷ p) ts r a = same b (lits_more p ts r a)

star-no_slash : {r : Bytes} → Accepts (star ∷ []) r → no_slash r ≡ true
star-no_slash (star_end done) = refl
star-no_slash (star_more c n a) = ground (arith, star-no_slash a)

no_slash-star : (r : Bytes) → no_slash r ≡ true → Accepts (star ∷ []) r
no_slash-star [] h = star_end done
no_slash-star (c ∷ r) h = star_more c (ground arith) (no_slash-star r (ground arith))

double_any : (r : Bytes) → Accepts (double ∷ []) r
double_any [] = double_end done
double_any (c ∷ r) = double_more c (double_any r)

tokens-star : (p : Bytes) → star_free p ≡ true → tokens (p ++ b'*' ∷ []) ≡ map lit p ++ star ∷ []
unfolding tokens tokens_from
tokens-star p h =
    tokens_from-lit_stars _ 1 p (b'*' ∷ []) (omega (arith, length-append p (b'*' ∷ []))) h

tokens-double :
    (p : Bytes) → star_free p ≡ true → tokens (p ++ b'*' ∷ b'*' ∷ []) ≡ map lit p ++ double ∷ []
unfolding tokens tokens_from
tokens-double p h =
    tokens_from-lit_stars _ 2 p (b'*' ∷ b'*' ∷ [])
      (omega (arith, length-append p (b'*' ∷ b'*' ∷ []))) h

-- A pattern that ends in its only star matches the names that go on from it without a slash.
pub glob-star_iff :
    (pattern name : Bytes)
    → star_free pattern ≡ true
    → (glob (pattern ++ b'*' ∷ []) name ≡ true)
      ↔ ((rest : Bytes) × (name ≡ pattern ++ rest) × (all (λ c. not (c == b'/')) rest ≡ true))
glob-star_iff pattern name h =
    let ts = tokens-star pattern h in
    let known = glob_iff (pattern ++ b'*' ∷ []) name in
    (
      λ e.
          let (r, same_text, a) =
            lits_tail pattern (star ∷ []) name (subst (λ l. Accepts l name) ts (known.0 e)) in
          (r, same_text, star-no_slash a),
      λ (r, same_text, free). known.1 (
          subst (λ l. Accepts l name) (sym ts)
            (subst (Accepts (map lit pattern ++ star ∷ [])) (sym same_text)
              (lits_more pattern (star ∷ []) r (no_slash-star r free)))),
    )

-- A pattern that ends in its only stars, two of them, matches every name that begins with it.
pub glob-double_iff :
    (pattern name : Bytes)
    → star_free pattern ≡ true
    → (glob (pattern ++ b'*' ∷ b'*' ∷ []) name ≡ true) ↔ ((rest : Bytes) × (name ≡ pattern ++ rest))
glob-double_iff pattern name h =
    let ts = tokens-double pattern h in
    let known = glob_iff (pattern ++ b'*' ∷ b'*' ∷ []) name in
    (
      λ e.
          let (r, same_text, _) =
            lits_tail pattern (double ∷ []) name (subst (λ l. Accepts l name) ts (known.0 e)) in
          (r, same_text),
      λ (r, same_text). known.1 (
          subst (λ l. Accepts l name) (sym ts)
            (subst (Accepts (map lit pattern ++ double ∷ [])) (sym same_text)
              (lits_more pattern (double ∷ []) r (double_any r)))),
    )
