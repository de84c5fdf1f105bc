-- ===== src/Engine/Yaml/Walkers.antt =====
-- What the node walkers of parse.go return when they report nothing.
use kilnci.Base.{
  ℕ, suc, ◌+◌, ◌*◌, ◌≤◌, Bool, true, false, not, ◌&&◌, List, [], ◌∷◌, ◌++◌, Option, none, some, ◌≡◌,
  inl, inr, refl, arith, length, length-append, All, String, ByteString, lookup, holds_key, tally,
  tally-append, nat_eq, string_eq, ==_cases,
}
use kilnci.Base.Int.{ℤ, leb_ℤ}
use kilnci.Engine.Yaml.{
  YamlNode, head, content, entries, Message, Parser, at_index, scalar, str, bounded, integer,
  duration, duration_of, list, add_item, str_items, str_items_of, str_list, with_some, Field, known,
  enter, fill, require, mapping,
}
use kilnci.Engine.Yaml.Rules.{
  IsSafePath, Sound, Sound-pure, Sound-if, Sound-bind, Sound-weaken, Sound-fail, Sound-refuse,
  join-IsSafePath, at_index-IsSafePath,
}

-- A value is there, and is as described.
abbrev pub Given : {A : Type 0} → (A → Type 0) → Option A → Type 0
Given P none = ⊥
Given P (some a) = P a

pub scalar-Sound :
    (path : ByteString) (n : YamlNode)
    → IsSafePath path
    → Sound (scalar path n) (Given (λ _. Unit {0}))
unfolding scalar
scalar-Sound path n safe = Sound-if _ (λ _. Sound-refuse _ _ _ _ safe) (λ _. Sound-pure _ tt)

pub str-Sound :
    (path : ByteString) (n : YamlNode)
    → IsSafePath path
    → Sound (str path n) (Given (λ _. Unit {0}))
unfolding str
str-Sound path n safe = Sound-if _ (λ _. Sound-refuse _ _ _ _ safe) (λ _. Sound-pure _ tt)

abbrev pub Within : ℤ → ℤ → ℤ → Type 0
Within lo hi v = (leb_ℤ lo v ≡ true) × (leb_ℤ v hi ≡ true)

and_true : (a b : Bool) → not (a && b) ≡ false → (a ≡ true) × (b ≡ true)
and_true true true h = (refl, refl)
and_true true false h = cc
and_true false b h = cc

bounded-Sound :
    (path : ByteString) (n : YamlNode) (msg : Message) (lo hi : ℤ) (o : Option ℤ)
    → IsSafePath path
    → Sound (bounded path n msg lo hi o) (Given (Within lo hi))
unfolding bounded
bounded-Sound path n msg lo hi none safe = Sound-refuse _ _ _ _ safe
bounded-Sound path n msg lo hi (some v) safe =
    Sound-if _ (λ _. Sound-refuse _ _ _ _ safe)
      (λ h. Sound-pure _ (and_true (leb_ℤ lo v) (leb_ℤ v hi) h))

pub integer-Sound :
    (atoi : String → Option ℤ) (path : ByteString) (n : YamlNode) (lo hi : ℤ)
    → IsSafePath path
    → Sound (integer atoi path n lo hi) (Given (Within lo hi))
unfolding integer
integer-Sound atoi path n lo hi safe =
    Sound-if _ (λ _. Sound-refuse _ _ _ _ safe) (λ _. bounded-Sound path n _ lo hi _ safe)

duration_of-Sound :
    (parse_duration : String → Option ℤ) (path : ByteString) (n : YamlNode) (lo hi : ℤ)
    (o : Option String)
    → IsSafePath path
    → Sound
        (duration_of parse_duration path n lo hi o)
        (λ d. Given (λ _. Unit {0}) o → Given (Within lo hi) d)
unfolding duration_of
duration_of-Sound parse_duration path n lo hi none safe = Sound-pure none (λ e. absurd e)
duration_of-Sound parse_duration path n lo hi (some s) safe =
    Sound-weaken (bounded-Sound path n _ lo hi (parse_duration s) safe) (λ a w _. w)

pub duration-Sound :
    (parse_duration : String → Option ℤ) (path : ByteString) (n : YamlNode) (lo hi : ℤ)
    → IsSafePath path
    → Sound (duration parse_duration path n lo hi) (Given (Within lo hi))
unfolding duration
duration-Sound parse_duration path n lo hi safe =
    Sound-bind _ (str-Sound path n safe) (λ o. duration_of-Sound parse_duration path n lo hi o safe)

pub list-Sound :
    (path : ByteString) (n : YamlNode) (most : ℕ)
    → IsSafePath path
    → Sound (list path n most) (Given (λ ns. length ns ≤ most))
unfolding list
list-Sound path n most safe =
    Sound-if _ (λ _. Sound-refuse _ _ _ _ safe)
      (λ _. Sound-if _ (λ _. Sound-refuse _ _ _ _ safe) (λ h. Sound-pure _ (ground arith)))

abbrev pub NoRepeats : List String → Type 0
NoRepeats xs = (x : String) → tally x xs ≤ 1

pub holds-tally : (x : String) (xs : List String) → holds_key x xs ≡ false → tally x xs ≡ 0
holds-tally x [] h = refl
holds-tally x (y ∷ ys) h = elim (==_cases y x) [
  | inl (t, e) ↦ absurd (let f : true ≡ false = rw t at h in cc)
  | inr (t, ne) ↦ rw t (omega (arith, holds-tally x ys (rw t at h)))
]

pub NoRepeats-snoc :
    (xs : List String) (s : String)
    → holds_key s xs ≡ false
    → NoRepeats xs
    → NoRepeats (xs ++ s ∷ [])
NoRepeats-snoc xs s h d x = elim (==_cases s x) [
  | inl (t, e) ↦
      let new : tally x xs ≡ 0 = rw (← e) (holds-tally s xs h) in
      rw (tally-append x xs (s ∷ []), t, new) (omega arith)
  | inr (t, ne) ↦ rw (tally-append x xs (s ∷ []), t) (omega (arith, d x))
]

pub true_of_not : (b : Bool) → not b ≡ false → b ≡ true
true_of_not true h = refl
true_of_not false h = cc

module _ (valid : String → Bool) (rule : Message) where
  abbrev IsValidList : List String → Type 0
  IsValidList out = All (λ s. valid s ≡ true) out × NoRepeats out

  All-valid_snoc :
      (out : List String) (s : String)
      → All (λ s. valid s ≡ true) out
      → valid s ≡ true
      → All (λ s. valid s ≡ true) (out ++ s ∷ [])
  All-valid_snoc [] s h v = (v, tt)
  All-valid_snoc (x ∷ out) s h v = (h.0, All-valid_snoc out s h.1 v)

  add_item-Sound :
      (path : ByteString) (n : YamlNode) (out : List String) (o : Option String)
      → IsSafePath path
      → Sound (add_item valid rule path n out o) (λ out'.
        Given (λ _. Unit {0}) o
        → (IsValidList out → IsValidList out') × (length out' ≤ length out + 1))
  unfolding add_item
  add_item-Sound path n out none safe = Sound-pure out (λ e. absurd e)
  add_item-Sound path n out (some s) safe =
      Sound-if _ (λ _. Sound-refuse _ _ _ _ safe)
        (λ v.
          Sound-if _ (λ _. Sound-refuse _ _ _ _ safe)
            (λ h. Sound-pure _ (λ _. (
              λ d. (All-valid_snoc out s d.0 (true_of_not (valid s) v), NoRepeats-snoc out s h d.1),
              omega (arith, length-append out (s ∷ [])),
            ))))

  str_items-Sound :
      (path : ByteString) (i : ℕ) (ns : List YamlNode) (out : List String)
      → IsSafePath path
      → Sound
          (str_items valid rule path i ns out)
          (λ out'. (IsValidList out → IsValidList out') × (length out' ≤ length out + length ns))
  unfolding str_items
  str_items-Sound path i [] out safe = Sound-pure out (λ d. d, omega arith)
  str_items-Sound path i (n ∷ ns) out safe =
      let here = at_index-IsSafePath path i safe in
      Sound-bind _ (str-Sound (at_index path i) n here) (λ o.
        Sound-bind _ (add_item-Sound (at_index path i) n out o here) (λ mid.
          Sound-weaken (str_items-Sound path (suc i) ns mid safe)
            (λ out' r added g. (λ d. r.0 ((added g).0 d), omega (arith, r.1, (added g).1)))))

  str_items_of-Sound :
      (path : ByteString) (most : ℕ) (o : Option (List YamlNode))
      → IsSafePath path
      → Sound
          (str_items_of valid rule path o)
          (λ out. Given (λ ns. length ns ≤ most) o → IsValidList out × (length out ≤ most))
  unfolding str_items_of
  str_items_of-Sound path most none safe = Sound-pure [] (λ e. absurd e)
  str_items_of-Sound path most (some ns) safe =
      Sound-weaken (str_items-Sound path 0 ns [] safe)
        (λ out r g. (r.0 (tt, λ x. omega arith), omega (arith, r.1, g)))

  -- The items are valid and differ, and there are at most as many as allowed.
  pub str_list-Sound :
      (path : ByteString) (n : YamlNode) (most : ℕ)
      → IsSafePath path
      → Sound
          (str_list path n most valid rule)
          (λ out. All (λ s. valid s ≡ true) out × NoRepeats out × (length out ≤ most))
  unfolding str_list
  str_list-Sound path n most safe =
      Sound-weaken
        (Sound-bind _ (list-Sound path n most safe) (λ o. str_items_of-Sound path most o safe))
        (λ out r. (r.0.0, r.0.1, r.1))

module _ {S : Type 0} (Inv : List String → S → Type 0) where
  -- A handler, run on the value of its key, adds the key to what holds of the value being built.
  abbrev pub Handles : String × Field S → Type 0
  Handles (k, f) =
      (path : ByteString) (v : YamlNode) (seen : List String) (s : S)
      → IsSafePath path
      → Sound (f path v s) (λ s'. Inv seen s → Inv (k ∷ seen) s')

  known-Sound :
      (fields : List (String × Field S)) (child : ByteString) (k v : YamlNode) (key : String)
      (seen : List String) (s : S)
      → All Handles fields
      → IsSafePath child
      → Sound (known child k v s (lookup key fields)) (λ s'. Inv seen s → Inv (key ∷ seen) s')
  unfolding lookup known
  known-Sound [] child k v key seen s h safe = Sound-refuse _ _ _ _ safe
  known-Sound ((j, f) ∷ fields) child k v key seen s h safe = elim (==_cases j key) [
    | inl (t, e) ↦ rw (t, ← e) (h.0 child v seen s safe)
    | inr (t, ne) ↦ rw t (known-Sound fields child k v key seen s h.1 safe)
  ]

  enter-Sound :
      (fields : List (String × Field S)) (path : ByteString) (k v : YamlNode) (seen : List String)
      (s : S)
      → All Handles fields
      → IsSafePath path
      → Sound (enter fields path k v seen s) (λ r. Inv seen s → Inv r.1 r.0)
  unfolding enter
  enter-Sound fields path k v seen s h safe =
      let child = join-IsSafePath path (head k).value safe in
      Sound-if _ (λ _. Sound-refuse _ _ _ _ safe)
        (λ _.
          Sound-if _ (λ _. Sound-refuse _ _ _ _ child)
            (λ _.
              Sound-bind _ (known-Sound fields _ k v (head k).value seen s h child)
                (λ s'. Sound-pure _ (λ i. i))))

  fill-Sound :
      (fields : List (String × Field S)) (path : ByteString) (rest : List (YamlNode × YamlNode))
      (seen : List String) (s : S)
      → All Handles fields
      → IsSafePath path
      → Sound (fill fields path rest seen s) (λ r. Inv seen s → Inv r.1 r.0)
  unfolding fill
  fill-Sound fields path [] seen s h safe = Sound-pure _ (λ i. i)
  fill-Sound fields path ((k, v) ∷ rest) seen s h safe =
      Sound-bind _ (enter-Sound fields path k v seen s h safe) (λ r.
        Sound-weaken (fill-Sound fields path rest r.1 r.0 h safe) (λ q later now i. later (now i)))

  require-Sound :
      (path : ByteString) (n : YamlNode) (seen rs : List String)
      → IsSafePath path
      → Sound (require path n seen rs) (λ _. All (λ r. holds_key r seen ≡ true) rs)
  unfolding require
  require-Sound path n seen [] safe = Sound-pure _ tt
  require-Sound path n seen (r ∷ rs) safe =
      Sound-bind {Q = λ _. holds_key r seen ≡ true} _
        (Sound-if _ (λ t. Sound-pure _ t) (λ _. Sound-fail _ _ _ (join-IsSafePath path r safe)))
        (λ _. Sound-weaken (require-Sound path n seen rs safe) (λ _ later now. (now, later)))

  -- What holds before any key holds with the keys seen at the end, the required ones among them.
  pub mapping-Sound :
      (path : ByteString) (n : YamlNode) (fields : List (String × Field S)) (required : List String)
      (s : S)
      → All Handles fields
      → IsSafePath path
      → Sound (mapping path n fields required s) (λ s'.
        Inv [] s → (seen : List String) × Inv seen s' × All (λ r. holds_key r seen ≡ true) required)
  unfolding mapping
  mapping-Sound path n fields required s h safe =
      Sound-if _ (λ _. Sound-refuse _ _ _ _ safe)
        (λ _. Sound-bind _ (fill-Sound fields path (entries (content n)) [] s h safe) (λ r.
          Sound-bind _ (require-Sound path n r.1 required safe)
            (λ _. Sound-pure r.0 (λ all inv i. (r.1, inv i, all)))))

-- What is done with a value that a walker returned quietly.
pub Sound-with_some :
    {A S : Type 0} {P : A → Type 0} {Q : S → Type 0} (o : Option A) (s : S) (f : A → Parser S)
    → ((a : A) → Sound (f a) (λ b. P a → Q b))
    → Sound (with_some o s f) (λ b. Given P o → Q b)
unfolding with_some
Sound-with_some none s f h = Sound-pure s (λ e. absurd e)
Sound-with_some (some a) s f h = h a

-- An entry takes two nodes.
pub length-entries : (ns : List YamlNode) → length (entries ns) * 2 ≤ length ns
unfolding entries
length-entries [] = omega arith
length-entries (k ∷ []) = omega arith
length-entries (k ∷ v ∷ rest) = omega (arith, length-entries rest)
