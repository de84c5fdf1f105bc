-- ===== src/Engine/Images.antt =====
-- imagePattern of server/internal/engine/spec/parse.go, as a regular expression over runes, and what it
-- takes from a regular-expression library: whether a whole text fits.
use kilnci.Base.{
  ◌⊎◌, ℕ, zero, suc, Bool, true, false, ◌&&◌, ◌||◌, List, [], ◌∷◌, ◌++◌, ◌≡◌, inl, inr, refl, ap,
  ◌==◌, String, codes, nat_eq, Bool-cases, arith,
}
use kilnci.Engine.Texts.{within, is_lower, is_letter, is_number}

pub data Pattern : Type 0 where
  never blank : Pattern
  one : (ℕ → Bool) → Pattern
  seq alt : Pattern → Pattern → Pattern
  many : Pattern → Pattern

takes_nothing : Pattern → Bool
takes_nothing never = false
takes_nothing blank = true
takes_nothing (one f) = false
takes_nothing (seq p q) = takes_nothing p && takes_nothing q
takes_nothing (alt p q) = takes_nothing p || takes_nothing q
takes_nothing (many p) = true

step : Bool → Pattern
step true = blank
step false = never

either : Bool → Pattern → Pattern → Pattern
either true p q = alt p q
either false p q = p

-- What is left of a pattern after a rune.
after : ℕ → Pattern → Pattern
unfolding takes_nothing step either
after c never = never
after c blank = never
after c (one f) = step (f c)
after c (seq p q) = either (takes_nothing p) (seq (after c p) q) (after c q)
after c (alt p q) = alt (after c p) (after c q)
after c (many p) = seq (after c p) (many p)

unfoldable pub fits : Pattern → List ℕ → Bool
unfolding after takes_nothing step either
fits p [] = takes_nothing p
fits p (c ∷ cs) = fits (after c p) cs

abbrev only : ℕ → Pattern
only c = one (λ x. x == c)

abbrev literal : List ℕ → Pattern
literal [] = blank
literal (c ∷ cs) = seq (only c) (literal cs)

abbrev some_of : Pattern → Pattern
some_of p = seq p (many p)

abbrev maybe : Pattern → Pattern
maybe p = alt blank p

abbrev up_to : ℕ → Pattern → Pattern
up_to zero p = blank
up_to (suc n) p = maybe (seq p (up_to n p))

abbrev times : ℕ → Pattern → Pattern
times zero p = blank
times (suc n) p = seq p (times n p)

abbrev is_word : ℕ → Bool
is_word c = is_lower c || is_number c

abbrev word : Pattern
word = some_of (one is_word)

abbrev host : Pattern
host = seq word (many (seq (one (λ c. c == b'.' || c == b'_' || c == b'-')) word))

abbrev port : Pattern
port = seq (only b':') (some_of (one is_number))

abbrev separator : Pattern
separator =
    alt (one (λ c. c == b'.' || c == b'_')) (alt (literal (codes "__")) (some_of (only b'-')))

abbrev path : Pattern
path = seq (only b'/') (seq word (many (seq separator word)))

abbrev tag : Pattern
tag = seq (only b':') (
    seq (one (λ c. is_letter c || is_number c || c == b'_'))
      (up_to 127 (one (λ c. is_letter c || is_number c || c == b'_' || c == b'.' || c == b'-'))))

abbrev digest : Pattern
digest = seq (literal (codes "@sha256:")) (times 64 (one (λ c. within b'a' b'f' c || is_number c)))

abbrev pub image_pattern : Pattern
image_pattern = seq host (seq (maybe port) (seq (many path) (seq (maybe tag) (maybe digest))))

-- `imagePattern.MatchString`.
unfoldable pub is_image : String → Bool
unfolding fits after takes_nothing step either
is_image s = fits image_pattern (codes s)

-- The texts of a pattern.
pub data Matches : Pattern → List ℕ → Type 0 where
  blank : Matches Pattern.blank []
  one : (f : ℕ → Bool) (c : ℕ) → f c ≡ true → Matches (Pattern.one f) (c ∷ [])
  seq :
      {p q : Pattern} {zs : List ℕ} (xs ys : List ℕ)
      → Matches p xs
      → Matches q ys
      → zs ≡ xs ++ ys
      → Matches (Pattern.seq p q) zs
  left : {p q : Pattern} {zs : List ℕ} → Matches p zs → Matches (Pattern.alt p q) zs
  right : {p q : Pattern} {zs : List ℕ} → Matches q zs → Matches (Pattern.alt p q) zs
  done : {p : Pattern} → Matches (Pattern.many p) []
  more :
      {p : Pattern} {zs : List ℕ} (xs ys : List ℕ)
      → Matches p xs
      → Matches (Pattern.many p) ys
      → zs ≡ xs ++ ys
      → Matches (Pattern.many p) zs

takes_nothing-Matches : (p : Pattern) → takes_nothing p ≡ true → Matches p []
unfolding takes_nothing
takes_nothing-Matches never h = cc
takes_nothing-Matches blank h = Matches.blank
takes_nothing-Matches (one f) h = cc
takes_nothing-Matches (seq p q) h =
    Matches.seq [] [] (takes_nothing-Matches p (ground (arith, h)))
      (takes_nothing-Matches q (ground (arith, h))) refl
takes_nothing-Matches (alt p q) h = elim (Bool-cases (takes_nothing p)) [
  | inl t ↦ Matches.left (takes_nothing-Matches p t)
  | inr t ↦ Matches.right (takes_nothing-Matches q (rw t at h))
]
takes_nothing-Matches (many p) h = Matches.done

step-Matches :
    (f : ℕ → Bool) (c : ℕ) (cs : List ℕ) (b : Bool)
    → f c ≡ b
    → Matches (step b) cs
    → Matches (one f) (c ∷ cs)
unfolding step
step-Matches f c cs true h Matches.blank = Matches.one f c h
step-Matches f c cs false h m = elim m [ ]

either-Matches :
    (b : Bool) (p q : Pattern) (cs : List ℕ)
    → Matches (either b p q) cs
    → Matches p cs ⊎ ((b ≡ true) × Matches q cs)
unfolding either
either-Matches true p q cs (Matches.left m) = inl m
either-Matches true p q cs (Matches.right m) = inr (refl, m)
either-Matches false p q cs m = inl m

after-seq :
    (c : ℕ) (p d q : Pattern) (cs : List ℕ)
    → ((xs : List ℕ) → Matches d xs → Matches p (c ∷ xs))
    → Matches (seq d q) cs
    → Matches (seq p q) (c ∷ cs)
after-seq c p d q cs inner (Matches.seq xs ys m n e) =
    Matches.seq (c ∷ xs) ys (inner xs m) n (ap (λ zs. c ∷ zs) e)

after-Matches : (c : ℕ) (p : Pattern) (cs : List ℕ) → Matches (after c p) cs → Matches p (c ∷ cs)
unfolding after
after-Matches c never cs m = elim m [ ]
after-Matches c blank cs m = elim m [ ]
after-Matches c (one f) cs m = step-Matches f c cs (f c) refl m
after-Matches c (seq p q) cs m = elim (either-Matches (takes_nothing p) _ _ cs m) [
  | inl n ↦ after-seq c p (after c p) q cs (λ xs k. after-Matches c p xs k) n
  | inr (empty, n) ↦
      Matches.seq [] (c ∷ cs) (takes_nothing-Matches p empty) (after-Matches c q cs n) refl
]
after-Matches c (alt p q) cs (Matches.left m) = Matches.left (after-Matches c p cs m)
after-Matches c (alt p q) cs (Matches.right m) = Matches.right (after-Matches c q cs m)
after-Matches c (many p) cs (Matches.seq xs ys m n e) =
    Matches.more (c ∷ xs) ys (after-Matches c p xs m) n (ap (λ zs. c ∷ zs) e)

fits-Matches : (p : Pattern) (cs : List ℕ) → fits p cs ≡ true → Matches p cs
unfolding fits
fits-Matches p [] h = takes_nothing-Matches p h
fits-Matches p (c ∷ cs) h = after-Matches c p cs (fits-Matches (after c p) cs h)

-- An accepted image is a text of the pattern.
pub is_image-Matches : (s : String) → is_image s ≡ true → Matches image_pattern (codes s)
unfolding is_image
is_image-Matches s h = fits-Matches image_pattern (codes s) h
