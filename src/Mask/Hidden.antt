-- ===== src/Mask/Hidden.antt =====
-- What the writer of mask.go hides: the bytes of each pattern that stands in the stream, and no other.
use kilnci.Base.{
  ℕ, zero, suc, ◌+◌, ◌-◌, ◌≤◌, ◌<◌, max, Bool, true, false, List, [], ◌∷◌, ◌++◌, ◌≡◌, refl, ap, sym,
  subst, ◌∙◌, ◌↔◌, ◌⊎◌, inl, inr, none, ltb, length, drop, get_or, All, arith, append-nil,
  Bool-cases,
}
use mathlib.Core.List.{Memᴰ, flatten}
use kilnci.Mask.{Bytes, Sink, Patterns, match_at, has_prefix, render, write_all, close}
use kilnci.Mask.Cover.{flags, carry_after}
use kilnci.Mask.Stream.{mask_from, render-mask_from}
use kilnci.Mask.Split.{Appends, split_lem, target}
use kilnci.Mask.Compile.{compile, compile_patterns}
use kilnci.Mask.Compile.Bounds.{compile-IsBounded}
use kilnci.Mask.Compile.Longest.{AreWindows, match_at-AtMost, match_at-Has}

-- Which bytes of the stream `s` the patterns hide.
unfoldable pub hidden : List Bytes → List Bytes → Bytes → List Bool
hidden exact windows s = flags (compile_patterns exact windows) (length s) 0 s

-- Which bytes a reader of the stream sees: those that no match covers, with one mark for each run of others.
unfoldable pub masked : List Bytes → List Bytes → Bytes → Bytes
unfolding hidden
masked exact windows s = (render (hidden exact windows s) s false).0

drop-length : (b : Bytes) → drop (length b) b ≡ []
drop-length [] = refl
drop-length (x ∷ b) = drop-length b

masked_lem :
    (exact windows : List Bytes) (s : Bytes)
    → masked exact windows s ≡ mask_from (compile_patterns exact windows) 0 false s
unfolding masked mask_from
masked_lem exact windows s =
    let ps = compile_patterns exact windows in
    let n = length s in
    let after =
      λ (b : Bytes). mask_from ps (carry_after ps n 0 s) (render (flags ps n 0 s) s false).1 b in
    sym (append-nil (masked exact windows s))
    ∙ ap (λ b. masked exact windows s ++ b) (ap after (sym (append-nil (drop n s) ∙ drop-length s)))
    ∙ render-mask_from ps n 0 false s [] (omega arith)
        (λ k h. ap (match_at ps) (append-nil (drop k s)))
    ∙ ap (mask_from ps 0 false) (append-nil s)

-- However a job's output is split into writes, a sink that takes everything holds after `Close` the masked
-- form of the whole output, and no call returns an error.
pub split_independent :
    {S : Type 0} (write_sink : Sink S) (sink : S) (exact windows : List Bytes) (writes : List Bytes)
    → Appends write_sink
    → let (w, err) = write_all write_sink writes (compile sink exact windows) in
      (err ≡ none)
      × ((close write_sink w).1 ≡ none)
      × ((close write_sink w).0.sink ≡ (write_sink sink (masked exact windows (flatten writes))).0)
unfolding compile target
split_independent write_sink sink exact windows writes appends =
    let (written, ended, shown) =
      split_lem write_sink appends writes (compile sink exact windows)
        (compile-IsBounded sink exact windows) refl in
    (
      written,
      ended,
      shown ∙ ap (λ b. (write_sink sink b).0) (sym (masked_lem exact windows (flatten writes))),
    )

-- A match that began at or before `j` reaches past it.
abbrev Reached : Patterns → Bytes → ℕ → Type 0
Reached ps b j = (i : ℕ) × (i ≤ j) × (j < i + match_at ps (drop i b))

drop_one : (i : ℕ) (b : Bytes) → drop (suc i) b ≡ drop i (drop 1 b)
drop_one zero [] = refl
drop_one (suc i) [] = refl
drop_one i (x ∷ b) = refl

Reached-suc : (ps : Patterns) (b : Bytes) (j : ℕ) → Reached ps (drop 1 b) j → Reached ps b (suc j)
Reached-suc ps b j (i, le, lt) = (
  suc i,
  omega arith,
  subst (λ d. suc j < suc i + match_at ps d) (sym (drop_one i b)) (omega arith),
)

flags_sound :
    (ps : Patterns) (n c : ℕ) (b : Bytes) (j : ℕ)
    → get_or (flags ps n c b) j false ≡ true
    → (j < c) ⊎ Reached ps b j
unfolding flags
flags_sound ps zero c b j h = cc
flags_sound ps (suc n) c b zero h = elim (Bool-cases (ltb 0 c)) [
  | inl e ↦ inl (ground arith)
  | inr e ↦ inr (0, omega arith, ground arith)
]
flags_sound ps (suc n) c b (suc j) h =
    elim (flags_sound ps n (max c (match_at ps b) - 1) (drop 1 b) j h) [
      | inl lt ↦ elim (Bool-cases (ltb (suc j) c)) [
        | inl e ↦ inl (ground arith)
        | inr e ↦ inr (0, omega arith, ground arith)
      ]
      | inr r ↦ inr (Reached-suc ps b j r)
    ]

flags_complete :
    (ps : Patterns) (n c : ℕ) (b : Bytes) (j : ℕ)
    → j < n
    → (j < c) ⊎ Reached ps b j
    → get_or (flags ps n c b) j false ≡ true
unfolding flags
flags_complete ps zero c b j h r = absurd (omega arith)
flags_complete ps (suc n) c b zero h (inl lt) = ground arith
flags_complete ps (suc n) c b zero h (inr (zero, le, lt)) = ground arith
flags_complete ps (suc n) c b zero h (inr (suc i, le, lt)) = absurd (omega arith)
flags_complete ps (suc n) c b (suc j) h (inl lt) =
    flags_complete ps n (max c (match_at ps b) - 1) (drop 1 b) j (omega arith) (inl (omega arith))
flags_complete ps (suc n) c b (suc j) h (inr (zero, le, lt)) =
    flags_complete ps n (max c (match_at ps b) - 1) (drop 1 b) j (omega arith) (inl (omega arith))
flags_complete ps (suc n) c b (suc j) h (inr (suc i, le, lt)) =
    let later = subst (λ d. suc j < suc i + match_at ps d) (drop_one i b) lt in
    flags_complete ps n (max c (match_at ps b) - 1) (drop 1 b) j (omega arith)
      (inr (i, omega arith, omega arith))

-- A pattern of the writer stands at `i` in the stream, and `j` lies in it.
abbrev pub Occurs : List Bytes → List Bytes → Bytes → ℕ → Type 0
Occurs exact windows s j =
    (i : ℕ) × (p : Bytes) × (Memᴰ p exact ⊎ Memᴰ p windows)
    × (has_prefix (drop i s) p ≡ true)
    × (i ≤ j)
    × (j < i + length p)

All-Memᴰ : (P : Bytes → Type 0) (ps : List Bytes) {p : Bytes} → All P ps → Memᴰ p ps → P p
All-Memᴰ P [] h m = elim m [ ]
All-Memᴰ P (q ∷ ps) h (Memᴰ.head e) = subst P (sym e) h.0
All-Memᴰ P (q ∷ ps) h (Memᴰ.tail m) = All-Memᴰ P ps h.1 m

Memᴰ-All : (P : Bytes → Type 0) (ps : List Bytes) → ((p : Bytes) → Memᴰ p ps → P p) → All P ps
Memᴰ-All P [] h = tt
Memᴰ-All P (q ∷ ps) h = (h q (Memᴰ.head refl), Memᴰ-All P ps (λ p m. h p (Memᴰ.tail m)))

abbrev IsPattern : List Bytes → List Bytes → Bytes → Type 0
IsPattern exact windows p = Memᴰ p exact ⊎ Memᴰ p windows

pattern_le :
    (exact windows : List Bytes) (b p : Bytes)
    → AreWindows windows
    → IsPattern exact windows p
    → has_prefix b p ≡ true
    → length p ≤ match_at (compile_patterns exact windows) b
pattern_le exact windows b p sized (inl m) fits =
    All-Memᴰ _ exact (match_at-AtMost exact windows b sized).0 m fits
pattern_le exact windows b p sized (inr m) fits =
    All-Memᴰ _ windows (match_at-AtMost exact windows b sized).1 m fits

Occurs-of_Reached :
    (exact windows : List Bytes) (s : Bytes) (j : ℕ)
    → AreWindows windows
    → Reached (compile_patterns exact windows) s j
    → Occurs exact windows s j
Occurs-of_Reached exact windows s j sized (i, le, lt) =
    elim (match_at-Has (IsPattern exact windows) exact windows (drop i s)
      (Memᴰ-All _ exact (λ p m. inl m)) (Memᴰ-All _ windows (λ p m. inr m)) sized) [
        | inl none_here ↦ absurd (omega arith)
        | inr (p, known, fits, size) ↦ (i, p, known, fits, le, omega arith)
      ]

-- A byte of the stream is hidden exactly when it lies in an occurrence of a pattern: no byte of any
-- occurrence is shown, also where occurrences overlap, and nothing else is hidden.
pub hidden_iff :
    (exact windows : List Bytes) (s : Bytes) (j : ℕ)
    → AreWindows windows
    → j < length s
    → (get_or (hidden exact windows s) j false ≡ true) ↔ Occurs exact windows s j
unfolding hidden
hidden_iff exact windows s j sized h = (
  λ e. elim (flags_sound (compile_patterns exact windows) (length s) 0 s j e) [
    | inl lt ↦ absurd (omega arith)
    | inr r ↦ Occurs-of_Reached exact windows s j sized r
  ],
  λ (i, p, known, fits, le, lt).
      flags_complete (compile_patterns exact windows) (length s) 0 s j h
        (inr (i, le, omega (arith, pattern_le exact windows (drop i s) p sized known fits))),
)
