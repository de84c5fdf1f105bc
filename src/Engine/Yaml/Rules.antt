-- ===== src/Engine/Yaml/Rules.antt =====
-- Rules for the parsers of parse.go: a parser that ends with no problem started with none, and what it
-- returns is then as described; and problems stay few, at paths that hold no text of the document.
use kilnci.Base.{
  ℕ, ◌≤◌, ◌<◌, Bool, true, false, ◌||◌, List, [], ◌∷◌, ◌++◌, ◌==◌, ◌≡◌, inl, inr, refl, arith,
  if◌then◌else◌, leb, length, length-append, all, All, String, ByteString, codes, nat_eq, string_eq,
  is_empty, Bool-cases,
}
use kilnci.Base.Decimal.{decimal, decimal-IsDigit, IsDigit}
use kilnci.Engine.Texts.{is_safe_key, is_safe_char}
use kilnci.Engine.Yaml.{
  Message, Problem, max_errors, Parser, ◌>>=◌, ◌>>◌, pure, when◌then◌else◌, fail_at, join, at_index,
}

-- A character of a key that may be shown, or of the punctuation between keys.
abbrev pub is_path_char : ℕ → Bool
is_path_char c = is_safe_char c || c == b'.' || c == b'[' || c == b']' || c == b'?'

abbrev pub IsSafePath : ByteString → Type 0
IsSafePath p = all is_path_char p ≡ true

abbrev pub Good : List Problem → Type 0
Good ps = (length ps ≤ max_errors) × All (λ (p : Problem). IsSafePath p.path) ps

-- `quiet`: no problem at the end means none at the start, and a value as `Q` says.
pub record Sound {A : Type 0} (m : Parser A) (Q : A → Type 0) : Type 0 where
  pub quiet : (ps : List Problem) → (m ps).1 ≡ [] → (ps ≡ []) × Q (m ps).0
  pub keeps : (ps : List Problem) → Good ps → Good (m ps).1

pub all-append :
    (p : ℕ → Bool) (xs ys : List ℕ) → all p xs ≡ true → all p ys ≡ true → all p (xs ++ ys) ≡ true
all-append p [] ys h k = k
all-append p (x ∷ xs) ys h k = elim (Bool-cases (p x)) [
  | inl t ↦ rw t (all-append p xs ys (rw t at h) k)
  | inr f ↦ absurd (let e : false ≡ true = rw f at h in cc)
]

all_imp :
    (p q : ℕ → Bool) (xs : List ℕ)
    → ((x : ℕ) → p x ≡ true → q x ≡ true)
    → all p xs ≡ true
    → all q xs ≡ true
all_imp p q [] i h = refl
all_imp p q (x ∷ xs) i h = elim (Bool-cases (p x)) [
  | inl t ↦ rw (i x t) (all_imp p q xs i (rw t at h))
  | inr f ↦ absurd (let e : false ≡ true = rw f at h in cc)
]

safe_path_char : (c : ℕ) → is_safe_char c ≡ true → is_path_char c ≡ true
safe_path_char c h = rw h

safe_key_codes :
    (cs : List ℕ) (k : String) → codes k ≡ cs → is_safe_key k ≡ true → IsSafePath (codes k)
unfolding is_safe_key
safe_key_codes [] k e h = rw e
safe_key_codes (c ∷ cs) k e h =
    let first : is_safe_char c ≡ true = ground arith in
    let rest : all is_safe_char cs ≡ true = ground arith in
    rw (e, safe_path_char c first) (all_imp is_safe_char is_path_char cs safe_path_char rest)

pub join-IsSafePath : (path : ByteString) (k : String) → IsSafePath path → IsSafePath (join path k)
unfolding join
join-IsSafePath path k h = elim (Bool-cases (is_safe_key k)) [
  | inl t ↦ elim (Bool-cases (is_empty path)) [
    | inl u ↦ rw (t, u) (safe_key_codes (codes k) k refl t)
    | inr u ↦ rw (t, u) (all-append is_path_char path _ h (safe_key_codes (codes k) k refl t))
  ]
  | inr t ↦ elim (Bool-cases (is_empty path)) [
    | inl u ↦ rw (t, u)
    | inr u ↦ rw (t, u) (all-append is_path_char path _ h refl)
  ]
]

digits_safe : (cs : List ℕ) → All IsDigit cs → IsSafePath cs
digits_safe [] h = refl
digits_safe (c ∷ cs) h =
    let safe : is_path_char c ≡ true = ground arith in rw safe (digits_safe cs h.1)

pub at_index-IsSafePath :
    (path : ByteString) (i : ℕ) → IsSafePath path → IsSafePath (at_index path i)
unfolding at_index
at_index-IsSafePath path i h = all-append is_path_char path _ h (
    all-append is_path_char (decimal i) (b']' ∷ []) (digits_safe (decimal i) (decimal-IsDigit i))
      refl)

All-snoc :
    (P : Problem → Type 0) (ps : List Problem) (p : Problem) → All P ps → P p → All P (ps ++ p ∷ [])
All-snoc P [] p h k = (k, tt)
All-snoc P (q ∷ ps) p h k = (h.0, All-snoc P ps p h.1 k)

not_snoc : (ps : List Problem) (p : Problem) → ps ++ p ∷ [] ≡ [] → ⊥
not_snoc [] p e = cc
not_snoc (q ∷ ps) p e = cc

module _ {A : Type 0} {Q : A → Type 0} where
  pub Sound-pure : (a : A) → Q a → Sound (pure a) Q
  unfolding pure
  Sound-pure a q = record { quiet = λ ps e. (e, q); keeps = λ ps g. g }

  pub Sound-if :
      (b : Bool) {m k : Parser A}
      → (b ≡ true → Sound m Q)
      → (b ≡ false → Sound k Q)
      → Sound (when b then m else k) Q
  unfolding when◌then◌else◌
  Sound-if true h j = h refl
  Sound-if false h j = j refl

  pub Sound-weaken : {R : A → Type 0} {m : Parser A} → Sound m Q → ((a : A) → Q a → R a) → Sound m R
  Sound-weaken h i = record {
    quiet = λ ps e. let r = h.quiet ps e in (r.0, i _ r.1);
    keeps = h.keeps;
  }

  pub Sound-bind :
      {B : Type 0} {R : B → Type 0} {m : Parser A} (f : A → Parser B)
      → Sound m Q
      → ((a : A) → Sound (f a) (λ b. Q a → R b))
      → Sound (m >>= f) R
  unfolding ◌>>=◌
  Sound-bind {m} f h k = record {
    quiet = λ ps e.
        let later = (k (m ps).0).quiet (m ps).1 e in
        let first = h.quiet ps later.0 in (first.0, later.1 first.1);
    keeps = λ ps g. (k (m ps).0).keeps (m ps).1 (h.keeps ps g);
  }

fail_quiet :
    (path : ByteString) (line : ℕ) (msg : Message) (ps : List Problem)
    → (fail_at path line msg ps).1 ≡ []
    → ⊥
unfolding fail_at
fail_quiet path line msg [] e = cc
fail_quiet path line msg (q ∷ ps) e = elim (Bool-cases (leb max_errors (length (q ∷ ps)))) [
  | inl t ↦ let f : q ∷ ps ≡ [] = rw t at e in cc
  | inr t ↦ not_snoc (q ∷ ps) _ (rw t at e)
]

fail_keeps :
    (path : ByteString) (line : ℕ) (msg : Message) (ps : List Problem)
    → IsSafePath path
    → Good ps
    → Good (fail_at path line msg ps).1
unfolding fail_at
fail_keeps path line msg ps safe g = elim (Bool-cases (leb max_errors (length ps))) [
  | inl t ↦ rw t g
  | inr t ↦
      let below : length ps < max_errors = ground arith in
      let p : Problem = record { path = path; line = line; message = msg } in
      rw t (omega (arith, length-append ps (p ∷ [])), All-snoc _ ps p g.1 safe)
]

pub Sound-fail :
    {Q : Unit {0} → Type 0} (path : ByteString) (line : ℕ) (msg : Message)
    → IsSafePath path
    → Sound (fail_at path line msg) Q
Sound-fail path line msg safe = record {
  quiet = λ ps e. absurd (fail_quiet path line msg ps e);
  keeps = λ ps g. fail_keeps path line msg ps safe g;
}

pub Sound-refuse :
    {A : Type 0} {Q : A → Type 0} (path : ByteString) (line : ℕ) (msg : Message) (a : A)
    → IsSafePath path
    → Sound (do fail_at path line msg; pure a) Q
unfolding ◌>>=◌ pure
Sound-refuse path line msg a safe = record {
  quiet = λ ps e. absurd (fail_quiet path line msg ps e);
  keeps = λ ps g. fail_keeps path line msg ps safe g;
}
