-- ===== src/Mask/Stream.antt =====
-- The masked stream, whatever the writes that it came in.
use kilnci.Base.{
  ℕ, zero, suc, ◌-◌, ◌≤◌, ◌<◌, max, Bool, true, false, List, [], ◌∷◌, ◌++◌, ◌≡◌, refl, ap, sym, ◌∙◌,
  length, drop, ltb, arith, if◌then◌else◌,
}
use kilnci.Mask.{Bytes, Patterns, match_at, replacement, render}
use kilnci.Mask.Cover.{flags, carry_after}

-- The masked form of a whole stream, from left to right: a byte is masked if a match covers it, and each
-- run of masked bytes is replaced once. `carry` bytes are covered by an earlier match, and `masking`
-- says that the byte before was masked.
unfoldable pub mask_from : Patterns → ℕ → Bool → Bytes → Bytes
mask_from ps carry masking [] = []
mask_from ps carry masking (x ∷ xs) =
    let c = max carry (match_at ps (x ∷ xs)) in
    let masked = mask_from ps (c - 1) true xs in
    let shown = mask_from ps 0 false xs in
    if ltb 0 c then (if masking then masked else replacement ++ masked) else x ∷ shown

mask_hit :
    (ps : Patterns) (carry : ℕ) (masking : Bool) (x : ℕ) (xs : Bytes)
    → ltb 0 (max carry (match_at ps (x ∷ xs))) ≡ true
    → mask_from ps carry masking (x ∷ xs)
      ≡ (if masking then [] else replacement)
        ++ mask_from ps (max carry (match_at ps (x ∷ xs)) - 1) true xs
unfolding mask_from
mask_hit ps carry true x xs h = rw h
mask_hit ps carry false x xs h = rw h

mask_miss :
    (ps : Patterns) (carry : ℕ) (masking : Bool) (x : ℕ) (xs : Bytes)
    → ltb 0 (max carry (match_at ps (x ∷ xs))) ≡ false
    → mask_from ps carry masking (x ∷ xs) ≡ x ∷ mask_from ps 0 false xs
unfolding mask_from
mask_miss ps carry masking x xs h = rw h

-- One byte: `then` is what follows, by the `masking` that the rest was rendered with.
render_round :
    (ps : Patterns) (carry : ℕ) (flag masking : Bool) (x : ℕ) (cs : List Bool) (b rest : Bytes)
    (after : Bool → Bytes)
    → ltb 0 (max carry (match_at ps (x ∷ b ++ rest))) ≡ flag
    → (render cs b flag).0 ++ after (render cs b flag).1
      ≡ mask_from ps (max carry (match_at ps (x ∷ b ++ rest)) - 1) flag (b ++ rest)
    → (render (flag ∷ cs) (x ∷ b) masking).0 ++ after (render (flag ∷ cs) (x ∷ b) masking).1
      ≡ mask_from ps carry masking (x ∷ b ++ rest)
unfolding render
render_round ps carry true true x cs b rest after e ih =
    rw (mask_hit ps carry true x (b ++ rest) e) ih
render_round ps carry true false x cs b rest after e ih =
    rw (mask_hit ps carry false x (b ++ rest) e) (ap (λ l. replacement ++ l) ih)
render_round ps carry false masking x cs b rest after e ih =
    rw (mask_miss ps carry masking x (b ++ rest) e)
      (ap (λ l. x ∷ l) (ih ∙ ap (λ k. mask_from ps k false (b ++ rest)) (ground arith)))

-- The matches at the first `n` bytes do not depend on what follows the buffer.
abbrev pub Agrees : Patterns → ℕ → Bytes → Bytes → Type 0
Agrees ps n b rest = (k : ℕ) → k < n → match_at ps (drop k b ++ rest) ≡ match_at ps (drop k b)

-- The first `n` bytes are rendered as the whole stream's are.
pub render-mask_from :
    (ps : Patterns) (n carry : ℕ) (masking : Bool) (b rest : Bytes)
    → n ≤ length b
    → Agrees ps n b rest
    → (render (flags ps n carry b) b masking).0
        ++ mask_from ps
            (carry_after ps n carry b)
            (render (flags ps n carry b) b masking).1
            (drop n b ++ rest)
      ≡ mask_from ps carry masking (b ++ rest)
unfolding render flags carry_after
render-mask_from ps zero carry masking b rest h agrees = refl
render-mask_from ps (suc n) carry masking [] rest h agrees = absurd (omega arith)
render-mask_from ps (suc n) carry masking (x ∷ b) rest h agrees =
    let c = max carry (match_at ps (x ∷ b)) in
    let same = ap (max carry) (agrees 0 (omega arith)) in
    let ih =
      render-mask_from ps n (c - 1) (ltb 0 c) b rest (omega arith)
        (λ k hk. agrees (suc k) (omega arith)) in
    render_round ps carry (ltb 0 c) masking x (flags ps n (c - 1) b) b rest
      (λ m. mask_from ps (carry_after ps n (c - 1) b) m (drop n b ++ rest)) (ap (ltb 0) same)
      (ih ∙ ap (λ k. mask_from ps (k - 1) (ltb 0 c) (b ++ rest)) (sym same))
