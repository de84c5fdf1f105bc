-- ===== src/Mask/Compile.antt =====
-- How `New` of mask.go builds a writer from the patterns to find, and `addWrapPieces`. A Go map used
-- as a set of texts is a list; the code reads it only by membership, by length and in sorted order.
pub mod Bounds
mod Bits
pub mod Sorted
mod Heads
pub mod Longest
use kilnci.Base.{
  ℕ, zero, suc, ◌+◌, ◌-◌, ◌/◌, ◌%◌, ◌^◌, min, max, Bool, true, false, List, [], ◌∷◌, ◌++◌, ◌||◌,
  ◌&&◌, ◌==◌, nat_eq, ltb, if◌then◌else◌, length, take, drop, set, get_or, replicate, map,
}
use kilnci.Mask.{Bytes, Writer, Patterns, min_len, wrap_window, head_bits, head_hash, with_bit}

-- `bytes.Compare(a, b) < 0`
unfoldable pub bytes_lt : Bytes → Bytes → Bool
bytes_lt a [] = false
bytes_lt [] (y ∷ b) = true
bytes_lt (x ∷ a) (y ∷ b) = ltb x y || x == y && bytes_lt a b

-- The order of `sort.Slice` in `New`: longest first.
unfoldable pub before : Bytes → Bytes → Bool
before a b = if length a == length b then bytes_lt a b else ltb (length b) (length a)

unfoldable pub insert_sorted : Bytes → List Bytes → List Bytes
insert_sorted p [] = p ∷ []
insert_sorted p (q ∷ qs) = if before q p then q ∷ insert_sorted p qs else p ∷ q ∷ qs

-- `sort.Slice(patterns, …)`
unfoldable pub sort_patterns : List Bytes → List Bytes
sort_patterns [] = []
sort_patterns (p ∷ ps) = insert_sorted p (sort_patterns ps)

-- The loop that finds `maxLen`.
unfoldable pub max_length : ℕ → List Bytes → ℕ
max_length n [] = n
max_length n (p ∷ ps) = max_length (max n (length p)) ps

-- `m.byFirst[p[0]] = append(m.byFirst[p[0]], p)`. Go would panic on an empty pattern; none is shorter than
-- `minLen`.
unfoldable pub add_first : (ℕ → List Bytes) → Bytes → ℕ → List Bytes
add_first by_first [] x = by_first x
add_first by_first (y ∷ p) x = if y == x then by_first x ++ (y ∷ p) ∷ [] else by_first x

unfoldable pub by_first_of : (ℕ → List Bytes) → List Bytes → ℕ → List Bytes
by_first_of by_first [] = by_first
by_first_of by_first (p ∷ ps) = by_first_of (add_first by_first p) ps

-- `m.winHead[h/64] |= 1 << (h % 64)`
pub add_head : List ℕ → Bytes → List ℕ
add_head words win =
    let h = head_hash (take 4 win) in
    set words (h / 64) (with_bit (get_or words (h / 64) 0) (h % 64))

pub heads_of : List ℕ → List Bytes → List ℕ
heads_of words [] = words
heads_of words (win ∷ wins) = heads_of (add_head words win) wins

abbrev pub head_words : ℕ
head_words = 2 ^ head_bits / 64

pub win_head_of : List Bytes → List ℕ
win_head_of [] = []
win_head_of (win ∷ wins) = heads_of (replicate head_words 0) (win ∷ wins)

longest_window : List Bytes → ℕ
longest_window [] = 0
longest_window (win ∷ wins) = wrap_window

unfoldable pub hold_of : List Bytes → List Bytes → ℕ
unfolding longest_window
hold_of exact windows = max_length (longest_window windows) exact - 1

unfoldable pub compile_patterns : List Bytes → List Bytes → Patterns
unfolding win_head_of by_first_of add_first sort_patterns insert_sorted before bytes_lt
compile_patterns exact windows = record {
  by_first = by_first_of (λ _. []) (sort_patterns exact);
  windows = windows;
  win_head = win_head_of windows;
}

-- The second half of `New`.
unfoldable pub compile : {S : Type 0} → S → List Bytes → List Bytes → Writer S
compile sink exact windows =
    let ps = compile_patterns exact windows in
    record {
      sink = sink;
      by_first = ps.by_first;
      windows = ps.windows;
      win_head = ps.win_head;
      hold = hold_of exact windows;
      buf = [];
      carry = 0;
      masking = false;
      closed = false;
    }

-- The first loop of `addWrapPieces`: every substring of `wrapWindow` bytes.
pub window_pieces : ℕ → Bytes → List Bytes
window_pieces zero s = []
window_pieces (suc k) s = take wrap_window s ∷ window_pieces k (drop 1 s)

-- The second: the prefixes and suffixes of `n` bytes and more, `k` lengths in all.
pub edge_pieces : ℕ → ℕ → Bytes → List Bytes
edge_pieces zero n s = []
edge_pieces (suc k) n s = take n s ∷ drop (length s - n) s ∷ edge_pieces k (suc n) s

-- `addWrapPieces`: what it adds to `exact` and to `windows`.
unfoldable pub add_wrap_pieces : Bytes → List Bytes → List Bytes → List Bytes × List Bytes
unfolding window_pieces edge_pieces
add_wrap_pieces s exact windows = (
  exact ++ edge_pieces (min (length s) wrap_window - min_len) min_len s,
  windows ++ window_pieces (length s + 1 - wrap_window) s,
)
