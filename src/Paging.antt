-- ===== src/Paging.antt =====
-- Cursor pages and the ids that cursors hold: server/internal/service/paging/paging.go and
-- server/internal/platform/ids/ids.go. Base64 is an argument; so are the two words of an id, which the
-- clock and the random bytes fill.
mod Ids
mod Resumes
mod Tests
use kilnci.Base.{
  ℕ, zero, suc, ◌+◌, ◌*◌, ◌/◌, ◌%◌, ◌^◌, min, Bool, true, false, not, ◌&&◌, ◌||◌, List, [], ◌∷◌,
  ◌++◌, Option, none, some, ◌==◌, if◌then◌else◌, ltb, leb, length, take, get_or, any, all,
  ByteString, codes, bytes_eq, nat_eq, is_empty, ◌≡◌,
}
use kilnci.Base.Int.{ℤ, pos, negsuc}

abbrev pub alphabet : ByteString
alphabet = codes "0123456789ABCDEFGHJKMNPQRSTVWXYZ"

abbrev pub id_length : ℕ
id_length = 26

abbrev pub is_alphabet : ℕ → Bool
is_alphabet c = any (λ a. a == c) alphabet

-- `s[0] > '7'`, on a text that is not empty.
abbrev starts_low : ByteString → Bool
starts_low [] = false
starts_low (c ∷ cs) = leb c b'7'

-- `ids.Valid`.
unfoldable pub valid_id : ByteString → Bool
valid_id s = length s == id_length && starts_low s && all is_alphabet s

-- The loop of `encode`, from the last character on: the low five bits, and both words shifted.
encode_from : ℕ → ℕ → ℕ → ByteString → ByteString
encode_from zero hi lo out = out
encode_from (suc i) hi lo out =
    encode_from i (hi / 32) (lo / 32 + hi % 32 * 2 ^ 59) (get_or alphabet (lo % 32) 0 ∷ out)

unfoldable pub encode_id : ℕ → ℕ → ByteString
unfolding encode_from
encode_id hi lo = encode_from id_length hi lo []

pub record Base64 : Type 0 where
  pub encode : ByteString → ByteString
  pub decode : ByteString → Option ByteString

-- What the encoding documents: it decodes what it encoded, and gives nothing only for nothing.
pub record Base64Laws (b : Base64) : Type 0 where
  pub decode-encode : (s : ByteString) → b.decode (b.encode s) ≡ some s
  pub encode-some : (s : ByteString) → is_empty s ≡ false → is_empty (b.encode s) ≡ false

pub record Request : Type 0 where
  pub cursor : ByteString
  pub limit : ℤ

abbrev pub default_limit : ℕ
default_limit = 50

abbrev pub max_limit : ℕ
max_limit = 100

unfoldable pub clamp : ℤ → ℕ
clamp (pos zero) = default_limit
clamp (pos (suc n)) = min (suc n) max_limit
clamp (negsuc n) = default_limit

checked : Option ByteString → ℕ → Option (ByteString × ℕ)
checked none limit = none
checked (some id) limit = if valid_id id then some (id, limit) else none

pub record Page {ℓ} (A : Type ℓ) : Type ℓ where
  pub items : List A
  pub next_cursor : ByteString

module _ (b : Base64) where
  -- `Parse`; nothing is the validation error of a malformed cursor.
  unfoldable pub parse_request : Request → Option (ByteString × ℕ)
  unfolding clamp checked
  parse_request r =
      if is_empty r.cursor
      then some ([], clamp r.limit)
      else checked (b.decode r.cursor) (clamp r.limit)

  module _ {A : Type 0} (id_of : A → ByteString) where
    cursor_after : List A → ByteString
    cursor_after [] = []
    cursor_after (x ∷ []) = b.encode (id_of x)
    cursor_after (x ∷ y ∷ xs) = cursor_after (y ∷ xs)

    -- `Build`.
    unfoldable pub build : List A → ℕ → Page A
    unfolding cursor_after
    build xs limit =
        if leb (length xs) limit
        then record { items = xs; next_cursor = [] }
        else record { items = take limit xs; next_cursor = cursor_after (take limit xs) }
