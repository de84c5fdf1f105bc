-- ===== src/Engine/Parse/Valid/Names.antt =====
-- The names of steps: `sanitizeName` and `firstLine` of server/internal/engine/spec.
use Prim.Native.Char.{code}
use kilnci.Base.{
  ℕ, zero, suc, ◌≤◌, Bool, false, List, [], ◌∷◌, ◌≡◌, inl, inr, refl, arith, length, String, codes,
  Bool-cases,
}
use kilnci.Engine.Texts.{
  is_unsafe_rune, has_control, sanitize_name, first_of, first_line, shorten, split_lines,
  trim_space, is_blank,
}
use kilnci.Engine.Parse.{Outside, max_name_runes, StepSpec}
use kilnci.Engine.Parse.Jobs.{named}
use kilnci.Engine.Parse.Valid.{IsName}

module _ (is_format : ℕ → Bool) where
  length-sanitize : (s : String) → length (codes (sanitize_name is_format s)) ≡ length (codes s)
  unfolding sanitize_name
  length-sanitize String.[] = refl
  length-sanitize (String.◌∷◌ c s) = omega (arith, length-sanitize s)

  is_blank-sanitize : (s : String) → is_blank (sanitize_name is_format s) ≡ is_blank s
  unfolding sanitize_name
  is_blank-sanitize String.[] = refl
  is_blank-sanitize (String.◌∷◌ c s) = refl

  sanitize-safe :
      (s : String)
      → is_format b'?' ≡ false
      → has_control is_format (sanitize_name is_format s) ≡ false
  unfolding sanitize_name
  sanitize-safe String.[] h = refl
  sanitize-safe (String.◌∷◌ c s) h = elim (Bool-cases (is_unsafe_rune is_format (code c))) [
    | inl t ↦ rw (t, h) (sanitize-safe s h)
    | inr t ↦ rw (t, t) (sanitize-safe s h)
  ]

length-shorten : (n : ℕ) (s : String) → length (codes (shorten n s)) ≤ n
unfolding shorten
length-shorten zero s = omega arith
length-shorten (suc n) String.[] = omega arith
length-shorten (suc n) (String.◌∷◌ c s) = omega (arith, length-shorten n s)

shorten-ne : (n : ℕ) (s : String) → is_blank s ≡ false → is_blank (shorten (suc n) s) ≡ false
unfolding shorten
shorten-ne n String.[] h = h
shorten-ne n (String.◌∷◌ c s) h = refl

first_of_lem :
    (most : ℕ) (ls : List String)
    → 3 ≤ most
    → (is_blank (first_of (suc most) ls) ≡ false)
      × (length (codes (first_of (suc most) ls)) ≤ suc most)
unfolding first_of
first_of_lem most [] h = (refl, omega arith)
first_of_lem most (l ∷ ls) h = elim (Bool-cases (is_blank (trim_space l))) [
  | inl t ↦ rw t (first_of_lem most ls h)
  | inr t ↦ rw t (shorten-ne most (trim_space l) t, length-shorten (suc most) (trim_space l))
]

-- A step that is named, or has none, gets a name that may be shown.
pub named-IsName :
    (o : Outside) (st : StepSpec)
    → o.is_format b'?' ≡ false
    → (is_blank st.name ≡ false → IsName o st.name)
    → IsName o (named o st).name
unfolding named first_line
named-IsName o st h good = elim (Bool-cases (is_blank st.name)) [
  | inl t ↦
      let line = first_line max_name_runes st.script in
      let (some_text, short) = first_of_lem 99 (split_lines st.script) (omega arith) in
      rw t (
        rw (is_blank-sanitize o.is_format line) some_text,
        rw (length-sanitize o.is_format line) short,
        sanitize-safe o.is_format line h,
      )
  | inr t ↦ rw t (good t)
]
