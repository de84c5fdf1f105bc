-- ===== src/Engine/Texts.antt =====
-- The texts of a pipeline file: the patterns and helpers on strings of
-- server/internal/engine/spec/parse.go and spec.go. A Go string that holds valid UTF-8 is a String, its
-- runes are its codes, and `utf8` gives its bytes. Each pattern is its character classes written out.
use Prim.Native.Char.{code, Char}
use kilnci.Base.{
  ℕ, zero, suc, ◌+◌, ◌-◌, ◌/◌, ◌%◌, Bool, true, false, ◌&&◌, ◌||◌, List, [], ◌∷◌, ◌++◌, ◌==◌,
  if◌then◌else◌, ltb, leb, length, any, all, String, ByteString, codes, nat_eq, is_empty,
}

-- The bytes of one rune.
unfoldable pub utf8_rune : ℕ → ByteString
utf8_rune c =
    if ltb c 0x80
    then c ∷ []
    else if ltb c 0x800
    then (0xc0 + c / 64) ∷ (0x80 + c % 64) ∷ []
    else if ltb c 0x10000
    then (0xe0 + c / 4096) ∷ (0x80 + c / 64 % 64) ∷ (0x80 + c % 64) ∷ []
    else (0xf0 + c / 262144) ∷ (0x80 + c / 4096 % 64) ∷ (0x80 + c / 64 % 64) ∷ (0x80 + c % 64) ∷ []

unfoldable pub utf8_runes : List ℕ → ByteString
utf8_runes [] = []
utf8_runes (c ∷ cs) = utf8_rune c ++ utf8_runes cs

unfoldable pub utf8 : String → ByteString
unfolding utf8_runes utf8_rune
utf8 s = utf8_runes (codes s)

abbrev pub within : ℕ → ℕ → ℕ → Bool
within lo hi c = leb lo c && leb c hi

abbrev pub is_lower : ℕ → Bool
is_lower c = within b'a' b'z' c

abbrev pub is_letter : ℕ → Bool
is_letter c = is_lower c || within b'A' b'Z' c

abbrev pub is_number : ℕ → Bool
is_number c = within b'0' b'9' c

-- A first character, and at most `most` further ones.
abbrev pub shaped : (ℕ → Bool) → (ℕ → Bool) → ℕ → List ℕ → Bool
shaped first other most [] = false
shaped first other most (c ∷ cs) = first c && all other cs && leb (length cs) most

unfoldable pub is_job_id : String → Bool
is_job_id s =
    shaped is_lower (λ c. is_lower c || is_number c || c == b'_' || c == b'-') 62 (codes s)

unfoldable pub is_label : String → Bool
is_label s =
    shaped (λ c. is_lower c || is_number c)
      (λ c. is_lower c || is_number c || c == b'.' || c == b'_' || c == b'-') 62 (codes s)

unfoldable pub is_env_key : String → Bool
is_env_key s =
    shaped (λ c. is_letter c || c == b'_') (λ c. is_letter c || is_number c || c == b'_') 127
      (codes s)

abbrev pub is_safe_char : ℕ → Bool
is_safe_char c = is_letter c || is_number c || c == b'_' || c == b'-'

unfoldable pub is_safe_key : String → Bool
is_safe_key s = shaped is_safe_char is_safe_char 63 (codes s)

-- `strings.ToUpper` on a letter of ASCII; the names that reach it have no others.
abbrev pub upper : ℕ → ℕ
upper c = if is_lower c then c - 32 else c

unfoldable pub starts_with : List ℕ → List ℕ → Bool
starts_with [] cs = true
starts_with (p ∷ ps) [] = false
starts_with (p ∷ ps) (c ∷ cs) = p == c && starts_with ps cs

unfoldable pub uppers : List ℕ → List ℕ
uppers [] = []
uppers (c ∷ cs) = upper c ∷ uppers cs

unfoldable pub is_reserved : String → Bool
unfolding starts_with uppers
is_reserved s = starts_with (codes "KILN_") (uppers (codes s))

-- `strings.Contains`.
unfoldable pub holds_part : List ℕ → List ℕ → Bool
unfolding starts_with
holds_part part [] = is_empty part
holds_part part (c ∷ cs) = starts_with part (c ∷ cs) || holds_part part cs

unfoldable pub has_expression : String → Bool
unfolding holds_part starts_with
has_expression s = holds_part (codes "${{") (codes s)

-- `unicode.IsSpace`.
abbrev pub is_space : ℕ → Bool
is_space c =
    within 9 13 c
    || c == 32
    || c == 0x85
    || c == 0xa0
    || c == 0x1680
    || within 0x2000 0x200a c
    || c == 0x2028
    || c == 0x2029
    || c == 0x202f
    || c == 0x205f
    || c == 0x3000

unfoldable pub trim_left : String → String
trim_left String.[] = String.[]
trim_left (String.◌∷◌ c s) =
    let rest = trim_left s in if is_space (code c) then rest else String.◌∷◌ c s

unfoldable pub unless_blank : Char → String → String
unless_blank c String.[] = if is_space (code c) then String.[] else String.◌∷◌ c String.[]
unless_blank c (String.◌∷◌ d s) = String.◌∷◌ c (String.◌∷◌ d s)

unfoldable pub trim_right : String → String
unfolding unless_blank
trim_right String.[] = String.[]
trim_right (String.◌∷◌ c s) = unless_blank c (trim_right s)

-- `strings.TrimSpace`.
unfoldable pub trim_space : String → String
unfolding trim_left trim_right unless_blank
trim_space s = trim_right (trim_left s)

abbrev pub is_blank : String → Bool
is_blank s = is_empty (codes s)

-- The category Cf of Unicode is an argument; the category Cc is written out.
module _ (is_format : ℕ → Bool) where
  abbrev pub is_unsafe_rune : ℕ → Bool
  is_unsafe_rune c = ltb c 0x20 || within 0x7f 0x9f c || is_format c || c == 0x2028 || c == 0x2029

  abbrev pub has_control : String → Bool
  has_control s = any is_unsafe_rune (codes s)

  unfoldable pub sanitize_name : String → String
  sanitize_name String.[] = String.[]
  sanitize_name (String.◌∷◌ c s) =
      String.◌∷◌ (if is_unsafe_rune (code c) then "?" else c) (sanitize_name s)

unfoldable pub line_or : Char → List String → List String
line_or c [] = []
line_or c (l ∷ ls) = if code c == b'\n' then String.[] ∷ l ∷ ls else (String.◌∷◌ c l) ∷ ls

-- The lines of a text, as `strings.SplitSeq` by a newline gives them.
unfoldable pub split_lines : String → List String
unfolding line_or
split_lines String.[] = String.[] ∷ []
split_lines (String.◌∷◌ c s) = line_or c (split_lines s)

unfoldable pub shorten : ℕ → String → String
shorten zero s = String.[]
shorten (suc n) String.[] = String.[]
shorten (suc n) (String.◌∷◌ c s) = String.◌∷◌ c (shorten n s)

unfoldable pub first_of : ℕ → List String → String
unfolding shorten trim_space
first_of most [] = "step"
first_of most (l ∷ ls) =
    if is_blank (trim_space l) then first_of most ls else shorten most (trim_space l)

unfoldable pub first_line : ℕ → String → String
unfolding first_of shorten trim_space split_lines
first_line most s = first_of most (split_lines s)
