-- ===== src/Mask/Split.antt =====
-- `Write` and `Close` of mask.go over a sink that takes everything: the writer's output is the masked
-- form of all that was written, however it was split.
use kilnci.Base.{
  ℕ, zero, suc, ◌-◌, ◌≤◌, Bool, true, false, List, [], ◌∷◌, ◌++◌, ◌≡◌, refl, ap, ap₂, sym, ◌∙◌,
  Option, none, some, length, length-drop, drop, arith, if◌then◌else◌, append_assoc, append-nil,
  ◌==◌, nat_eq, subst,
}
use mathlib.Core.List.{flatten}
use kilnci.Mask.{
  Bytes, Sink, Writer, WriteError, err_closed, patterns_of, match_at, render, flush, emit_to, emit,
  write, close, write_all,
}
use kilnci.Mask.Match.{IsBounded, match_at-append}
use kilnci.Mask.Cover.{flags, carry_after, emit_flags, emit_carry}
use kilnci.Mask.Stream.{mask_from, Agrees, render-mask_from}

-- A sink that never fails, and to which two writes are one write of both.
pub record Appends {S : Type 0} (write_sink : Sink S) : Type 0 where
  pub never_fails : (s : S) (b : Bytes) → (write_sink s b).1 ≡ false
  pub joins :
      (s : S) (a b : Bytes) → (write_sink (write_sink s a).0 b).0 ≡ (write_sink s (a ++ b)).0
  pub empty : (s : S) → (write_sink s []).0 ≡ s

drop-length : (b : Bytes) → drop (length b) b ≡ []
drop-length [] = refl
drop-length (x ∷ b) = drop-length b

module _ {S : Type 0} (write_sink : Sink S) (appends : Appends write_sink) where
  open appends use {never_fails, joins, empty}

  decided : Writer S → ℕ → List Bool → ℕ → Writer S
  decided w limit covered carry =
      let (out, masking) = render covered w.buf w.masking in
      record w {
        sink = (write_sink w.sink out).0;
        buf = drop limit w.buf;
        carry = carry;
        masking = masking;
      }

  -- The writer after its first `limit` bytes are decided and written.
  step : Writer S → ℕ → Writer S
  unfolding decided
  step w limit =
      decided w limit (flags (patterns_of w) limit w.carry w.buf)
        (carry_after (patterns_of w) limit w.carry w.buf)

  flush_lem :
      (w : Writer S) (limit end : ℕ) (out : Bytes) (masking : Bool)
      → flush write_sink w limit end out masking ≡ (
        record w {
          sink = (write_sink w.sink out).0;
          buf = drop limit w.buf;
          carry = end - limit;
          masking = masking;
        },
        none,
      )
  unfolding flush
  flush_lem w limit end [] masking = rw (empty w.sink)
  flush_lem w limit end (x ∷ out) masking = rw (never_fails w.sink (x ∷ out))

  emit_to_lem : (w : Writer S) (limit : ℕ) → emit_to write_sink w limit ≡ (step w limit, none)
  unfolding emit_to step
  emit_to_lem w limit =
      flush_lem w limit _ _ _
      ∙ ap₂ (λ cs k. (decided w limit cs k, none)) (emit_flags (patterns_of w) w.buf limit w.carry)
          (emit_carry (patterns_of w) w.buf limit w.carry _)

  step-zero : (w : Writer S) → step w 0 ≡ w
  unfolding step render flags carry_after
  step-zero w = rw (empty w.sink)

  abbrev limit_of : Bool → Writer S → ℕ
  limit_of final w = (if final then length w.buf else length w.buf - w.hold)

  emit_at :
      (w : Writer S) (limit : ℕ)
      → (if limit == 0 then (w, none) else emit_to write_sink w limit) ≡ (step w limit, none)
  emit_at w zero = ap (λ v. (v, none)) (sym (step-zero w))
  emit_at w (suc limit) =
      let e : (suc limit == 0) ≡ false = ground arith in
      ap (λ b. if b then (w, none) else emit_to write_sink w (suc limit)) e
      ∙ emit_to_lem w (suc limit)

  emit_lem :
      (final : Bool) (w : Writer S) → emit write_sink final w ≡ (step w (limit_of final w), none)
  unfolding emit
  emit_lem final w = emit_at w (limit_of final w)

  -- What the sink holds once `rest` was written too and the writer closed.
  unfoldable pub target : Writer S → Bytes → S
  target w rest =
      (write_sink w.sink (mask_from (patterns_of w) w.carry w.masking (w.buf ++ rest))).0

  step-target :
      (w : Writer S) (limit : ℕ) (rest : Bytes)
      → limit ≤ length w.buf
      → Agrees (patterns_of w) limit w.buf rest
      → target (step w limit) rest ≡ target w rest
  unfolding step target
  step-target w limit rest h agrees =
      joins w.sink _ _
      ∙ ap (λ b. (write_sink w.sink b).0)
          (render-mask_from (patterns_of w) limit w.carry w.masking w.buf rest h agrees)

  abbrev added : Writer S → Bytes → Writer S
  added w p = record w { buf = w.buf ++ p }

  write_lem :
      (w : Writer S) (p : Bytes)
      → w.closed ≡ false
      → write write_sink p w ≡ (step (added w p) (limit_of false (added w p)), none)
  unfolding write
  write_lem w p h =
      ap (λ c. if c then (w, some err_closed) else emit write_sink false (added w p)) h
      ∙ emit_lem false (added w p)

  Agrees-within :
      (w : Writer S) (rest : Bytes)
      → IsBounded w.hold (patterns_of w)
      → Agrees (patterns_of w) (limit_of false w) w.buf rest
  Agrees-within w rest bounded k h =
      match_at-append (patterns_of w) (drop k w.buf) rest bounded
        (omega (arith, length-drop k w.buf))

  -- One write keeps the patterns, stays open, and moves the bytes of the rest to the writer.
  write-target :
      (w : Writer S) (p rest : Bytes)
      → IsBounded w.hold (patterns_of w)
      → target (step (added w p) (limit_of false (added w p))) rest ≡ target w (p ++ rest)
  unfolding target
  write-target w p rest bounded =
      step-target (added w p) (limit_of false (added w p)) rest (omega arith)
        (Agrees-within (added w p) rest bounded)
      ∙ ap (λ b. (write_sink w.sink (mask_from (patterns_of w) w.carry w.masking b)).0)
          (append_assoc w.buf p rest)

  write_all-cons :
      (p : Bytes) (ps : List Bytes) (w w' : Writer S)
      → write write_sink p w ≡ (w', none)
      → write_all write_sink (p ∷ ps) w ≡ write_all write_sink ps w'
  unfolding write_all
  write_all-cons p ps w w' e =
      ap (λ r. elim r.1 [ none ↦ write_all write_sink ps r.0 | some x ↦ (r.0, some x) ]) e

  abbrev WritesAll : List Bytes → Writer S → Bytes → Writer S × Option WriteError → Type 0
  WritesAll ps w rest r =
      (r.1 ≡ none) × (target r.0 rest ≡ target w (flatten ps ++ rest)) × (r.0.closed ≡ false)

  write_all-target :
      (ps : List Bytes) (w : Writer S) (rest : Bytes)
      → IsBounded w.hold (patterns_of w)
      → w.closed ≡ false
      → WritesAll ps w rest (write_all write_sink ps w)
  unfolding write_all flatten step
  write_all-target [] w rest bounded h = (refl, refl, h)
  write_all-target (p ∷ ps) w rest bounded h =
      let w' = step (added w p) (limit_of false (added w p)) in
      let ih = write_all-target ps w' rest bounded h in
      let moved = write-target w p (flatten ps ++ rest) bounded in
      subst (WritesAll (p ∷ ps) w rest) (sym (write_all-cons p ps w w' (write_lem w p h)))
        (ih.0, ih.1 ∙ moved ∙ ap (target w) (sym (append_assoc p (flatten ps) rest)), ih.2)

  Agrees-end : (w : Writer S) (n : ℕ) → Agrees (patterns_of w) n w.buf []
  Agrees-end w n k h = ap (match_at (patterns_of w)) (append-nil (drop k w.buf))

  target_end : (w : Writer S) → w.buf ≡ [] → target w [] ≡ w.sink
  unfolding target mask_from
  target_end w h =
      ap (λ b. (write_sink w.sink (mask_from (patterns_of w) w.carry w.masking (b ++ []))).0) h
      ∙ empty w.sink

  step_all-target : (w : Writer S) → (step w (length w.buf)).sink ≡ target w []
  unfolding step
  step_all-target w =
      sym (target_end (step w (length w.buf)) (drop-length w.buf))
      ∙ step-target w (length w.buf) [] (omega arith) (Agrees-end w (length w.buf))

  -- Closing writes the masked form of what the writer still holds.
  close-target :
      (w : Writer S)
      → w.closed ≡ false
      → ((close write_sink w).1 ≡ none) × ((close write_sink w).0.sink ≡ target w [])
  unfolding close target
  close-target w h =
      let shut = record w { closed = true } in
      let e = emit_lem true shut in
      simp h (ap (λ r. r.1) e, ap (λ r. r.0.sink) e ∙ step_all-target shut)

  pub split_lem :
      (ps : List Bytes) (w : Writer S)
      → IsBounded w.hold (patterns_of w)
      → w.closed ≡ false
      → let (w', err) = write_all write_sink ps w in
        (err ≡ none)
        × ((close write_sink w').1 ≡ none)
        × ((close write_sink w').0.sink ≡ target w (flatten ps))
  split_lem ps w bounded h =
      let (written, moved, opened) = write_all-target ps w [] bounded h in
      let (ended, shown) = close-target (write_all write_sink ps w).0 opened in
      (written, ended, shown ∙ moved ∙ ap (target w) (append-nil (flatten ps)))
