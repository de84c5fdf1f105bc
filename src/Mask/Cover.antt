-- ===== src/Mask/Cover.antt =====
-- The arrays and loops of `emit` in mask.go compute a plain recursion over the buffer.
use kilnci.Base.{
  ℕ, zero, suc, ◌+◌, ◌-◌, ◌≤◌, min, max, Bool, true, false, List, [], ◌∷◌, ◌++◌, ◌≡◌, refl, ap, sym,
  subst, ap₂, lt→ltb, length-append, ◌∙◌, ltb, length, drop, set, replicate, arith, append_assoc,
}
use kilnci.Mask.{Bytes, Patterns, match_at, mark, scan}

-- The first `c` of `n` flags are set.
unfoldable pub fill : ℕ → ℕ → List Bool
fill zero c = []
fill (suc n) c = ltb 0 c ∷ fill n (c - 1)

-- The flags of the first `n` bytes of `b`, when a decided match still covers `c` of them.
unfoldable pub flags : Patterns → ℕ → ℕ → Bytes → List Bool
flags ps zero c b = []
flags ps (suc n) c b = let c' = max c (match_at ps b) in ltb 0 c' ∷ flags ps n (c' - 1) (drop 1 b)

-- How far decided matches reach past the first `n` bytes.
unfoldable pub carry_after : Patterns → ℕ → ℕ → Bytes → ℕ
carry_after ps zero c b = c
carry_after ps (suc n) c b = carry_after ps n (max c (match_at ps b) - 1) (drop 1 b)

fill_none : (n : ℕ) → replicate n false ≡ fill n 0
unfolding fill
fill_none zero = refl
fill_none (suc n) = ground (arith, fill_none n)

mark-suc : (k j : ℕ) (x : Bool) (cs : List Bool) → mark k (suc j) (x ∷ cs) ≡ x ∷ mark k j cs
unfolding mark
mark-suc zero j x cs = refl
mark-suc (suc k) j x cs = mark-suc k (suc j) x (set cs j true)

mark-append : (k : ℕ) (pre suf : List Bool) → mark k (length pre) (pre ++ suf) ≡ pre ++ mark k 0 suf
mark-append k [] suf = refl
mark-append k (x ∷ pre) suf =
    mark-suc k (length pre) x (pre ++ suf) ∙ ap (λ l. x ∷ l) (mark-append k pre suf)

mark-fill : (k n c : ℕ) → k ≤ n → mark k 0 (fill n c) ≡ fill n (max c k)
unfolding mark fill
mark-fill zero n c h = ap (fill n) (omega arith)
mark-fill (suc k) zero c h = absurd (omega arith)
mark-fill (suc k) (suc n) c h =
    mark-suc k 0 true (fill n (c - 1))
    ∙ ap₂ (λ x l. x ∷ l) (sym (lt→ltb 0 (max c (suc k)) (omega arith)))
        (mark-fill k n (c - 1) (omega arith) ∙ ap (fill n) (omega arith))

pub drop-suc : (i : ℕ) (b : Bytes) → drop (suc i) b ≡ drop 1 (drop i b)
drop-suc zero b = refl
drop-suc (suc i) [] = refl
drop-suc (suc i) (x ∷ b) = drop-suc i b

fill-eq : (n a b : ℕ) → min a n ≡ min b n → fill n a ≡ fill n b
unfolding fill
fill-eq zero a b h = refl
fill-eq (suc n) a b h = ap₂ (λ x l. x ∷ l) (ground arith) (fill-eq n (a - 1) (b - 1) (omega arith))

-- One round of the loop: the match of length `m` at position `i` is marked, as far as `limit`.
mark_round :
    (pre : List Bool) (i k m n c : ℕ)
    → length pre ≡ i
    → k ≡ min m (suc n)
    → mark k i (pre ++ fill (suc n) c) ≡ (pre ++ ltb 0 (max c m) ∷ []) ++ fill n (max c m - 1)
mark_round pre i k m n c l e =
    subst (λ j. mark k j (pre ++ fill (suc n) c) ≡ pre ++ mark k 0 (fill (suc n) c)) l
      (mark-append k pre (fill (suc n) c))
    ∙ ap (λ f. pre ++ f)
        (mark-fill k (suc n) c (omega arith) ∙ fill-eq (suc n) (max c k) (max c m) (omega arith))
    ∙ unfold fill in sym (append_assoc pre (ltb 0 (max c m) ∷ []) (fill n (max c m - 1)))

-- Where the loop of `emit` stands at position `i`, the flags before `i` are final and those from `i` on
-- are the ones that decided matches reach.
scan_lem :
    (ps : Patterns) (buf : Bytes) (limit n i c : ℕ) (pre : List Bool) (end : ℕ)
    → limit ≡ i + n
    → length pre ≡ i
    → c ≡ end - i
    → (scan ps buf limit n i (pre ++ fill n c) end).0 ≡ pre ++ flags ps n c (drop i buf)
unfolding scan flags
scan_lem ps buf limit zero i c pre end h l e = unfold fill in refl
scan_lem ps buf limit (suc n) i c pre end h l e =
    let m = match_at ps (drop i buf) in
    let round = mark_round pre i (min (i + m) limit - i) m n c l (omega arith) in
    let flag = ltb 0 (max c m) ∷ [] in
    ap (λ f. (scan ps buf limit n (suc i) f (max end (i + m))).0) round
    ∙ scan_lem ps buf limit n (suc i) (max c m - 1) (pre ++ flag) (max end (i + m)) (omega arith)
        (omega (arith, length-append pre flag)) (omega arith)
    ∙ append_assoc pre flag (flags ps n (max c m - 1) (drop (suc i) buf))
    ∙ ap (λ b. pre ++ ltb 0 (max c m) ∷ flags ps n (max c m - 1) b) (drop-suc i buf)

scan_end :
    (ps : Patterns) (buf : Bytes) (limit n i c : ℕ) (covered : List Bool) (end : ℕ)
    → c ≡ end - i
    → (scan ps buf limit n i covered end).1 - (i + n) ≡ carry_after ps n c (drop i buf)
unfolding scan carry_after
scan_end ps buf limit zero i c covered end e = omega arith
scan_end ps buf limit (suc n) i c covered end e =
    let m = match_at ps (drop i buf) in
    let covered' = mark (min (i + m) limit - i) i covered in
    ap (λ k. (scan ps buf limit n (suc i) covered' (max end (i + m))).1 - k) (omega arith)
    ∙ scan_end ps buf limit n (suc i) (max c m - 1) covered' (max end (i + m)) (omega arith)
    ∙ ap (carry_after ps n (max c m - 1)) (drop-suc i buf)

-- What `emit` computes: the flags, from the bytes that a decided match still covers.
pub emit_flags :
    (ps : Patterns) (buf : Bytes) (limit carry : ℕ)
    → (scan ps buf limit limit 0 (mark (min carry limit) 0 (replicate limit false)) carry).0
      ≡ flags ps limit carry buf
emit_flags ps buf limit carry =
    ap (λ f. (scan ps buf limit limit 0 f carry).0)
      (ap (mark (min carry limit) 0) (fill_none limit)
        ∙ mark-fill (min carry limit) limit 0 (omega arith)
        ∙ fill-eq limit (max 0 (min carry limit)) carry (omega arith))
    ∙ scan_lem ps buf limit limit 0 carry [] carry (omega arith) refl (omega arith)

pub emit_carry :
    (ps : Patterns) (buf : Bytes) (limit carry : ℕ) (covered : List Bool)
    → (scan ps buf limit limit 0 covered carry).1 - limit ≡ carry_after ps limit carry buf
emit_carry ps buf limit carry covered =
    ap (λ k. (scan ps buf limit limit 0 covered carry).1 - k) (omega arith)
    ∙ scan_end ps buf limit limit 0 carry covered carry (omega arith)
