-- ===== src/Mask/Compile/Bounds.antt =====
-- The writer that `New` of mask.go builds holds enough bytes back.
use kilnci.Base.{
  ℕ, ◌+◌, ◌≤◌, max, Bool, true, false, List, [], ◌∷◌, ◌++◌, ◌≡◌, ◌==◌, nat_eq, length, All, arith,
  if◌then◌else◌,
}
use kilnci.Mask.{Bytes, patterns_of, wrap_window, is_nil}
use kilnci.Mask.Match.{IsBounded}
use kilnci.Mask.Compile.{
  before, insert_sorted, sort_patterns, max_length, add_first, by_first_of, hold_of, win_head_of,
  longest_window, compile, compile_patterns,
}

module _ (P : Bytes → Type 0) where
  All-append : (xs ys : List Bytes) → All P xs → All P ys → All P (xs ++ ys)
  All-append [] ys h k = k
  All-append (x ∷ xs) ys h k = (h.0, All-append xs ys h.1 k)

  All-if : (b : Bool) (xs ys : List Bytes) → All P xs → All P ys → All P (if b then xs else ys)
  All-if true xs ys h k = h
  All-if false xs ys h k = k

  pub All-insert_sorted :
      (p : Bytes) (ps : List Bytes) → P p → All P ps → All P (insert_sorted p ps)
  unfolding insert_sorted
  All-insert_sorted p [] h k = (h, tt)
  All-insert_sorted p (q ∷ qs) h k =
      All-if (before q p) (q ∷ insert_sorted p qs) (p ∷ q ∷ qs) (k.0, All-insert_sorted p qs h k.1)
        (h, k)

  pub All-sort_patterns : (ps : List Bytes) → All P ps → All P (sort_patterns ps)
  unfolding sort_patterns
  All-sort_patterns [] h = tt
  All-sort_patterns (p ∷ ps) h =
      All-insert_sorted p (sort_patterns ps) h.0 (All-sort_patterns ps h.1)

  All-add_first :
      (f : ℕ → List Bytes) (p : Bytes) (x : ℕ) → P p → All P (f x) → All P (add_first f p x)
  unfolding add_first
  All-add_first f [] x h k = k
  All-add_first f (y ∷ p) x h k =
      All-if (y == x) (f x ++ (y ∷ p) ∷ []) (f x) (All-append (f x) ((y ∷ p) ∷ []) k (h, tt)) k

  pub All-by_first_of :
      (f : ℕ → List Bytes) (ps : List Bytes) (x : ℕ)
      → All P ps
      → All P (f x)
      → All P (by_first_of f ps x)
  unfolding by_first_of
  All-by_first_of f [] x h k = k
  All-by_first_of f (p ∷ ps) x h k =
      All-by_first_of (add_first f p) ps x h.1 (All-add_first f p x h.0 k)

max_length-ge : (n : ℕ) (ps : List Bytes) → n ≤ max_length n ps
unfolding max_length
max_length-ge n [] = omega arith
max_length-ge n (p ∷ ps) = omega (arith, max_length-ge (max n (length p)) ps)

max_length-All : (n m : ℕ) (ps : List Bytes) → max_length n ps ≤ m → All (λ p. length p ≤ m) ps
unfolding max_length
max_length-All n m [] h = tt
max_length-All n m (p ∷ ps) h =
    (omega (arith, max_length-ge (max n (length p)) ps), max_length-All (max n (length p)) m ps h)

-- No pattern of the writer that `New` builds is longer than the bytes it holds back and one more.
pub compile-IsBounded :
    {S : Type 0} (sink : S) (exact windows : List Bytes)
    → IsBounded (compile sink exact windows).hold (patterns_of (compile sink exact windows))
unfolding compile hold_of compile_patterns
compile-IsBounded sink exact windows = record {
  exact_fits = λ x.
      All-by_first_of (λ p. length p ≤ most) (λ _. []) (sort_patterns exact) x
        (All-sort_patterns (λ p. length p ≤ most) exact
          (max_length-All (longest_window windows) most exact (omega arith)))
        tt;
  window_fits = fits windows;
}
  where
    most : ℕ
    most = hold_of exact windows + 1

    fits : (ws : List Bytes) → is_nil (win_head_of ws) ≡ false → wrap_window ≤ hold_of exact ws + 1
    fits [] h = cc
    fits (w ∷ ws) h = omega (arith, max_length-ge wrap_window exact)
