-- ===== src/Mask/Compile/Heads.antt =====
-- The windows of mask.go: the prefilter lets every window through.
use kilnci.Base.{
  ℕ, zero, suc, ◌/◌, ◌%◌, ◌<◌, Bool, true, false, List, [], ◌∷◌, ◌≡◌, refl, ap, sym, ◌∙◌, nat_eq,
  inl, inr, ==_cases, ◌≢◌, length, length-set, length-replicate, All, arith, take, set, get_or,
  replicate,
}
use kilnci.Mask.{Bytes, has_bit, with_bit, head_hash, is_nil}
use kilnci.Mask.Compile.{add_head, heads_of, win_head_of, head_words}
use kilnci.Mask.Compile.Bits.{has_bit-with_bit_self, has_bit-with_bit}

get_or-set_self : (ws : List ℕ) (i v : ℕ) → i < length ws → get_or (set ws i v) i 0 ≡ v
get_or-set_self [] i v h = absurd (omega arith)
get_or-set_self (w ∷ ws) zero v h = refl
get_or-set_self (w ∷ ws) (suc i) v h = get_or-set_self ws i v (omega arith)

get_or-set_ne : (ws : List ℕ) (i j v : ℕ) → i ≢ j → get_or (set ws i v) j 0 ≡ get_or ws j 0
get_or-set_ne [] i j v h = refl
get_or-set_ne (w ∷ ws) zero zero v h = absurd (h refl)
get_or-set_ne (w ∷ ws) zero (suc j) v h = refl
get_or-set_ne (w ∷ ws) (suc i) zero v h = refl
get_or-set_ne (w ∷ ws) (suc i) (suc j) v h = get_or-set_ne ws i j v (λ e. h (ap suc e))

-- The bit of hash `h` is set.
unfoldable pub bit_set : List ℕ → ℕ → Bool
bit_set words h = has_bit (get_or words (h / 64) 0) (h % 64)

head_hash-lt : (b : Bytes) → head_hash b / 64 < head_words
unfolding head_hash
head_hash-lt b = omega arith

module _ (words : List ℕ) (win : Bytes) (full : length words ≡ head_words) where
  abbrev hash : ℕ
  hash = head_hash (take 4 win)

  abbrev word : ℕ
  word = get_or words (hash / 64) 0

  at_hash : get_or (add_head words win) (hash / 64) 0 ≡ with_bit word (hash % 64)
  unfolding add_head
  at_hash =
      get_or-set_self words (hash / 64) (with_bit word (hash % 64))
        (omega (arith, head_hash-lt (take 4 win)))

  bit_set-add_head : (h : ℕ) → bit_set words h ≡ true → bit_set (add_head words win) h ≡ true
  unfolding bit_set
  bit_set-add_head h e = elim (==_cases (hash / 64) (h / 64)) [
    | inl (_, same) ↦
        ap (λ i. has_bit (get_or (add_head words win) i 0) (h % 64)) (sym same)
        ∙ ap (λ w. has_bit w (h % 64)) at_hash
        ∙ has_bit-with_bit word (hash % 64) (h % 64)
            (ap (λ i. has_bit (get_or words i 0) (h % 64)) same ∙ e)
    | inr (_, other) ↦
        unfold add_head in
        ap (λ w. has_bit w (h % 64)) (get_or-set_ne words (hash / 64) (h / 64) _ other) ∙ e
  ]

  add_head-sets : bit_set (add_head words win) hash ≡ true
  unfolding bit_set
  add_head-sets = ap (λ w. has_bit w (hash % 64)) at_hash ∙ has_bit-with_bit_self word (hash % 64)

  length-add_head : length (add_head words win) ≡ head_words
  unfolding add_head
  length-add_head = length-set words (hash / 64) (with_bit word (hash % 64)) ∙ full

length-heads_of :
    (words : List ℕ) (wins : List Bytes)
    → length words ≡ head_words
    → length (heads_of words wins) ≡ head_words
unfolding heads_of
length-heads_of words [] full = full
length-heads_of words (w ∷ wins) full =
    length-heads_of (add_head words w) wins (length-add_head words w full)

heads_of-keeps :
    (words : List ℕ) (wins : List Bytes) (h : ℕ)
    → length words ≡ head_words
    → bit_set words h ≡ true
    → bit_set (heads_of words wins) h ≡ true
unfolding heads_of
heads_of-keeps words [] h full e = e
heads_of-keeps words (w ∷ wins) h full e =
    heads_of-keeps (add_head words w) wins h (length-add_head words w full)
      (bit_set-add_head words w full h e)

heads_of-sets :
    (words : List ℕ) (wins : List Bytes)
    → length words ≡ head_words
    → All (λ w. bit_set (heads_of words wins) (head_hash (take 4 w)) ≡ true) wins
unfolding heads_of
heads_of-sets words [] full = tt
heads_of-sets words (w ∷ wins) full = (
  heads_of-keeps (add_head words w) wins (head_hash (take 4 w)) (length-add_head words w full)
      (add_head-sets words w full),
  heads_of-sets (add_head words w) wins (length-add_head words w full),
)

no_words : length (replicate {A = ℕ} head_words 0) ≡ head_words
no_words = length-replicate {A = ℕ} head_words 0

-- The prefilter that `New` builds has the bit of every window.
pub win_head_of-sets :
    (wins : List Bytes) → All (λ w. bit_set (win_head_of wins) (head_hash (take 4 w)) ≡ true) wins
unfolding win_head_of
win_head_of-sets [] = tt
win_head_of-sets (w ∷ wins) = heads_of-sets (replicate head_words 0) (w ∷ wins) no_words

-- And it is there if there is a window.
pub win_head_of-cons : (w : Bytes) (wins : List Bytes) → is_nil (win_head_of (w ∷ wins)) ≡ false
unfolding win_head_of
win_head_of-cons w wins =
    go (heads_of (replicate head_words 0) (w ∷ wins))
      (length-heads_of (replicate head_words 0) (w ∷ wins) no_words)
  where
    go : (words : List ℕ) → length words ≡ head_words → is_nil words ≡ false
    go [] h = absurd (omega arith)
    go (x ∷ words) h = refl
