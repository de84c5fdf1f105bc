-- ===== src/Engine/Spec/Glob.antt =====
-- The branch glob matcher: `Glob` of server/internal/engine/spec/spec.go. A text is its list of bytes.
pub mod Accepts
pub mod Patterns
use kilnci.Base.{
  ℕ, zero, suc, Bool, true, false, not, ◌&&◌, ◌||◌, List, [], ◌∷◌, ◌==◌, nat_eq, if◌then◌else◌,
  length,
}

abbrev pub Bytes : Type 0
Bytes = List ℕ

-- `tok`: a single star, a double star, or a literal byte.
pub data Tok : Type 0 where
  star double : Tok
  lit : ℕ → Tok

pub starts_star : Bytes → Bool
starts_star [] = false
starts_star (c ∷ p) = c == b'*'

-- The inner loop of the tokenizer, which skips the stars behind the first two.
pub drop_stars : Bytes → Bytes
drop_stars [] = []
drop_stars (c ∷ p) = elim (c == b'*') [ true ↦ drop_stars p | false ↦ c ∷ p ]

-- The loop of the tokenizer, at most one round for each byte.
pub tokens_from : ℕ → Bytes → List Tok
unfolding starts_star drop_stars
tokens_from zero p = []
tokens_from (suc f) [] = []
tokens_from (suc f) (c ∷ p) =
    let doubled = double ∷ tokens_from f (drop_stars p) in
    let single = star ∷ tokens_from f p in
    let literal = lit c ∷ tokens_from f p in
    if c == b'*' then (if starts_star p then doubled else single) else literal

unfoldable pub tokens : Bytes → List Tok
unfolding tokens_from
tokens pattern = tokens_from (length pattern) pattern

head_or : List Bool → Bool
head_or [] = false
head_or (b ∷ bs) = b

-- `cur[j]` from `name[j]`, `next[j]`, `next[j+1]` and `cur[j+1]`.
cell : Tok → ℕ → Bool → Bool → Bool → Bool
cell star c here next cur = here || not (c == b'/') && cur
cell double c here next cur = here || cur
cell (lit b) c here next cur = c == b && next

last_cell : Tok → Bool → Bool
last_cell (lit b) here = false
last_cell _ here = here

-- One round of the outer loop: the row `cur` from the row `next`, filled from the end of the name. A row has
-- a cell for each suffix of the name, the empty one last.
pub row : Tok → Bytes → List Bool → List Bool
unfolding head_or cell last_cell
row t name [] = []
row t [] (here ∷ next) = last_cell t here ∷ []
row t (c ∷ name) (here ∷ next) =
    let cur = row t name next in cell t c here (head_or next) (head_or cur) ∷ cur

-- The row of the empty pattern, which matches the empty name.
pub first_row : Bytes → List Bool
first_row [] = true ∷ []
first_row (c ∷ name) = false ∷ first_row name

-- The outer loop, from the last token to the first.
pub rows : List Tok → Bytes → List Bool
unfolding row first_row
rows [] name = first_row name
rows (t ∷ ts) name = row t name (rows ts name)

unfoldable pub glob : Bytes → Bytes → Bool
unfolding tokens rows head_or
glob pattern name = head_or (rows (tokens pattern) name)
