-- ===== src/Mask.antt =====
-- The log masker: the streaming writer of runner/internal/mask/mask.go. A byte is a number below
-- 256, and a slice of bytes a list.
mod Match
mod Cover
mod Stream
mod Split
pub mod Compile
mod Hidden
mod Sizes
mod Tests
use kilnci.Base.{
  ℕ, zero, suc, ◌+◌, ◌-◌, ◌*◌, ◌/◌, ◌%◌, ◌^◌, min, max, Bool, true, false, not, ◌&&◌, List, [], ◌∷◌,
  ◌++◌, Option, none, some, ◌==◌, nat_eq, Eq, if◌then◌else◌, ltb, leb, length, take, drop, set,
  replicate, get_or, any,
}

abbrev pub Bytes : Type 0
Bytes = List ℕ

abbrev pub min_len : ℕ
min_len = 4

abbrev pub wrap_window : ℕ
wrap_window = 16

abbrev pub max_value_bytes : ℕ
max_value_bytes = 64 * 1024

abbrev pub max_total_bytes : ℕ
max_total_bytes = 256 * 1024

-- `Replacement`, three asterisks.
abbrev pub replacement : Bytes
replacement = b'*' ∷ b'*' ∷ b'*' ∷ []

-- The loop of `Check`: `none` if a value is too large, else the total.
check_values : ℕ → List Bytes → Option ℕ
check_values total [] = some total
check_values total (v ∷ vs) =
    if ltb max_value_bytes (length v) then none else check_values (total + length v) vs

within_total : Option ℕ → Bool
within_total none = false
within_total (some total) = not (ltb max_total_bytes total)

-- `Check`: whether it returns nil.
unfoldable pub check : List Bytes → Bool
unfolding check_values within_total
check values = within_total (check_values 0 values)

-- `bytes.HasPrefix`
pub has_prefix : Bytes → Bytes → Bool
has_prefix b [] = true
has_prefix [] (p ∷ ps) = false
has_prefix (x ∷ b) (p ∷ ps) = x == p && has_prefix b ps

pub bytes_eq : Bytes → Bytes → Bool
bytes_eq [] [] = true
bytes_eq (x ∷ xs) (y ∷ ys) = x == y && bytes_eq xs ys
bytes_eq _ _ = false

abbrev pub head_bits : ℕ
head_bits = 20

-- `headHash`, on uint32.
pub head_hash : Bytes → ℕ
head_hash b =
    let x = get_or b 0 0 + get_or b 1 0 * 2 ^ 8 + get_or b 2 0 * 2 ^ 16 + get_or b 3 0 * 2 ^ 24 in
    x * 0x9e3779b1 % 2 ^ 32 / 2 ^ (32 - head_bits)

-- `w & (1 << k) != 0` and `w | 1 << k`, on the binary digits of `w`.
unfoldable pub has_bit : ℕ → ℕ → Bool
has_bit w zero = w % 2 == 1
has_bit w (suc k) = has_bit (w / 2) k

unfoldable pub with_bit : ℕ → ℕ → ℕ
with_bit w zero = w / 2 * 2 + 1
with_bit w (suc k) = w % 2 + 2 * with_bit (w / 2) k

-- `Writer`. The mutex, which makes each call atomic, is left out. `sink` is the state of the
-- underlying writer. `win_head` is [] where Go's slice is nil.
pub record Writer (S : Type 0) : Type 0 where
  pub sink : S
  pub by_first : ℕ → List Bytes
  pub windows : List Bytes
  pub win_head : List ℕ
  pub hold : ℕ
  pub buf : Bytes
  pub carry : ℕ
  pub masking : Bool
  pub closed : Bool

pub data WriteError : Type 0 where
  err_closed sink_error : WriteError

-- The patterns that a writer looks for.
pub record Patterns : Type 0 where
  pub by_first : ℕ → List Bytes
  pub windows : List Bytes
  pub win_head : List ℕ

-- The loop over the patterns with the first byte of `b`.
pub first_prefix : List Bytes → Bytes → ℕ
first_prefix [] b = 0
first_prefix (p ∷ ps) b = if has_prefix b p then length p else first_prefix ps b

abbrev is_nil : List ℕ → Bool
is_nil [] = true
is_nil _ = false

-- The prefilter and the map of windows.
window_at : Patterns → Bytes → Bool
window_at ps b =
    let h = head_hash b in
    has_bit (get_or ps.win_head (h / 64) 0) (h % 64)
    && any (bytes_eq (take wrap_window b)) ps.windows

-- `matchAt`, on the rest of the buffer. Go reads `b[0]`, so it is only called on a rest that has a byte.
pub match_at : Patterns → Bytes → ℕ
unfolding first_prefix window_at
match_at ps [] = 0
match_at ps (x ∷ xs) =
    let b = x ∷ xs in
    let n = first_prefix (ps.by_first x) b in
    if ltb n wrap_window && leb wrap_window (length b) && not (is_nil ps.win_head)
    then (if window_at ps b then wrap_window else n)
    else n

-- `for j := range k { covered[i+j] = true }`
pub mark : ℕ → ℕ → List Bool → List Bool
mark zero i covered = covered
mark (suc k) i covered = mark k (suc i) (set covered i true)

-- The loop over the start positions `i`, with `k` rounds left: `covered` and `end`.
pub scan : Patterns → Bytes → ℕ → ℕ → ℕ → List Bool → ℕ → List Bool × ℕ
scan ps buf limit zero i covered end = (covered, end)
scan ps buf limit (suc k) i covered end =
    let n = match_at ps (drop i buf) in
    scan ps buf limit k (suc i) (mark (min (i + n) limit - i) i covered) (max end (i + n))

-- The loop that builds `out`, over `covered` and the first bytes of `buf`: `out` and `masking`.
pub render : List Bool → Bytes → Bool → Bytes × Bool
render [] buf masking = ([], masking)
render (c ∷ cs) [] masking = ([], masking)
render (true ∷ cs) (x ∷ buf) masking =
    let (out, m) = render cs buf true in (if masking then out else replacement ++ out, m)
render (false ∷ cs) (x ∷ buf) masking = let (out, m) = render cs buf false in (x ∷ out, m)

abbrev pub patterns_of : {S : Type 0} → Writer S → Patterns
patterns_of w = record { by_first = w.by_first; windows = w.windows; win_head = w.win_head }

-- The underlying `io.Writer`: its state after a write, and whether the write returned an error.
abbrev pub Sink : Type 0 → Type 0
Sink S = S → Bytes → S × Bool

module _ {S : Type 0} (write_sink : Sink S) where
  -- The last three statements of `emit`.
  advance : Writer S → S → ℕ → ℕ → Bool → Writer S
  advance w sink limit end masking = record w {
    sink = sink;
    buf = drop limit w.buf;
    carry = end - limit;
    masking = masking;
  }

  flush : Writer S → ℕ → ℕ → Bytes → Bool → Writer S × Option WriteError
  unfolding advance
  flush w limit end [] masking = (advance w w.sink limit end masking, none)
  flush w limit end out masking =
      let (sink, fails) = write_sink w.sink out in
      if fails
      then (record w { sink = sink }, some sink_error)
      else (advance w sink limit end masking, none)

  -- The body of `emit` once `limit` is known to be positive.
  pub emit_to : Writer S → ℕ → Writer S × Option WriteError
  unfolding flush
  emit_to w limit =
      let start = mark (min w.carry limit) 0 (replicate limit false) in
      let (covered, end) = scan (patterns_of w) w.buf limit limit 0 start w.carry in
      let (out, masking) = render covered w.buf w.masking in flush w limit end out masking

  -- Go's `limit` may be negative where it is 0 here; both return nil.
  pub emit : Bool → Writer S → Writer S × Option WriteError
  emit final w =
      let limit = (if final then length w.buf else length w.buf - w.hold) in
      if limit == 0 then (w, none) else emit_to w limit

  -- `Write`; the number of bytes that it returns is all or none, by the error.
  unfoldable pub write : Bytes → Writer S → Writer S × Option WriteError
  write p w = if w.closed then (w, some err_closed) else emit false (record w { buf = w.buf ++ p })

  -- `Close`
  unfoldable pub close : Writer S → Writer S × Option WriteError
  close w =
      if w.closed
      then (w, none)
      else (let (w', err) = emit true (record w { closed = true }) in (record w' { buf = [] }, err))

  -- A job's output: writes in this order. The first error ends it, as it ends an `io.Copy`.
  unfoldable pub write_all : List Bytes → Writer S → Writer S × Option WriteError
  write_all [] w = (w, none)
  write_all (p ∷ ps) w =
      let (w', err) = write p w in elim err [ none ↦ write_all ps w' | some e ↦ (w', some e) ]
