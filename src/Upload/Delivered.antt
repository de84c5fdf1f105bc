-- ===== src/Upload/Delivered.antt =====
-- What reaches a server that stores every chunk: upload.go, `Write` and the final `flush`.
use kilnci.Base.{
  ℕ, zero, suc, ◌+◌, ◌-◌, ◌*◌, ◌≤◌, min, true, false, List, [], ◌∷◌, ◌++◌, append_assoc, append-nil,
  ◌≡◌, inl, inr, refl, sym, ap, subst, ◌∙◌, arith, ltb, length, length-append, take, drop,
  take-append-drop, ByteString, is_empty, Bool-cases,
}
use kilnci.Upload.{
  max_chunk_bytes, max_buffered, Uploader, Answer, stored, Loop, advance, react, round, rounds,
  flush, write, mark_gap, keep_output,
}
use kilnci.Upload.Ends.{if-false, or-cases, rounds_stay, rounds_step, flush_ends, IsDone}

-- The writes of a job, in order.
unfoldable pub writes : List ByteString → Uploader → Uploader
writes [] u = u
writes (p ∷ ps) u = writes ps (write p u)

abbrev pub joined : List ByteString → ByteString
joined [] = []
joined (p ∷ ps) = p ++ joined ps

take_all : (n : ℕ) (xs : ByteString) → length xs ≤ n → take n xs ≡ xs
take_all zero [] h = refl
take_all zero (x ∷ xs) h = absurd (omega arith)
take_all (suc n) [] h = refl
take_all (suc n) (x ∷ xs) h = ap (x ∷◌) (take_all n xs (omega arith))

empty_of_length : (xs : ByteString) → length xs ≡ 0 → xs ≡ []
empty_of_length [] h = refl
empty_of_length (x ∷ xs) h = absurd (omega arith)

-- `v` is `u` with `p` at the end of the buffer.
record Kept (u v : Uploader) (p : ByteString) : Type 0 where
  buf : v.buf ≡ u.buf ++ p
  stopped : v.stopped ≡ u.stopped

keep_output-Kept : (p : ByteString) (u : Uploader) → Kept u (keep_output p (length p) u) p
unfolding keep_output
keep_output-Kept p u = elim (Bool-cases (ltb 0 (length p))) [
  | inl t ↦ rw t (record { buf = rw (take_all (length p) p (omega arith)); stopped = refl })
  | inr t ↦
      let none_there : p ≡ [] = empty_of_length p (ground arith) in
      rw t (record { buf = rw (none_there, append-nil); stopped = refl })
]

mark_gap_none : (p : ByteString) (u : Uploader) → mark_gap p (length p) u ≡ u
unfolding mark_gap
mark_gap_none p u = let whole : ltb (length p) (length p) ≡ false = ground arith in rw whole

-- A write that fits is kept whole.
write-Kept :
    (p : ByteString) (u : Uploader)
    → u.stopped ≡ false
    → length u.buf + length p ≤ max_buffered
    → Kept u (write p u) p
unfolding write
write-Kept p u running fits =
    let whole : min (length p) (max_buffered - length u.buf) ≡ length p = omega arith in
    subst (λ v. Kept u v p)
      (sym
        (if-false u.stopped u _ running ∙ rw whole (mark_gap_none p (keep_output p (length p) u))))
      (keep_output-Kept p u)

writes-Kept :
    (ps : List ByteString) (u : Uploader)
    → u.stopped ≡ false
    → length u.buf + length (joined ps) ≤ max_buffered
    → Kept u (writes ps u) (joined ps)
unfolding writes
writes-Kept [] u running fits = record { buf = sym (append-nil u.buf); stopped = refl }
writes-Kept (p ∷ ps) u running fits =
    let split = length-append p (joined ps) in
    let first = write-Kept p u running (omega (arith, split)) in
    let now = ap length first.buf ∙ length-append u.buf p in
    let rest = writes-Kept ps (write p u) (first.stopped ∙ running) (omega (arith, split, now)) in
    record {
      buf = rest.buf ∙ ap (λ b. b ++ joined ps) first.buf ∙ append_assoc u.buf p (joined ps);
      stopped = rest.stopped ∙ first.stopped;
    }

-- A server that stores each chunk at the end of its log.
abbrev pub storing : ℕ → ByteString → ByteString → Answer × ByteString
storing seq chunk log = (stored false, log ++ chunk)

-- The log and the buffer together are always the whole text.
record Whole (text : ByteString) (l : Loop ByteString) : Type 0 where
  split : l.server ++ l.uploader.buf ≡ text
  running : l.uploader.stopped ≡ false

round-Whole :
    (text : ByteString) (l : Loop ByteString) → Whole text l → Whole text (round true storing l)
unfolding round react advance
round-Whole text l w =
    let u = l.uploader in
    let n = min (length u.buf) max_chunk_bytes in
    elim (or-cases u.stopped (is_empty u.buf)) [
      | inl (t, _) ↦ rw t (record { split = w.split; running = w.running })
      | inr (t, _) ↦ rw t (record {
        split =
            append_assoc l.server (take n u.buf) (drop n u.buf)
            ∙ ap (λ b. l.server ++ b) (take-append-drop n u.buf)
            ∙ w.split;
        running = w.running;
      })
    ]

rounds-Whole :
    (text : ByteString) (fuel : ℕ) (l : Loop ByteString)
    → Whole text l
    → Whole text (rounds true storing fuel l)
rounds-Whole text zero l w = unfold rounds in w
rounds-Whole text (suc fuel) l w = elim (Bool-cases l.returned) [
  | inl t ↦ subst (Whole text) (sym (rounds_stay storing (suc fuel) l t)) w
  | inr t ↦
      subst (Whole text) (sym (rounds_step storing fuel l t))
        (rounds-Whole text fuel (round true storing l) (round-Whole text l w))
]

flush-Whole :
    (fuel : ℕ) (u : Uploader) (log : ByteString)
    → u.stopped ≡ false
    → Whole (log ++ u.buf) (flush true storing fuel u log)
unfolding flush
flush-Whole fuel u log running =
    rounds-Whole (log ++ u.buf) fuel _ (record { split = refl; running = running })

nothing_left : (u : Uploader) → IsDone u → u.stopped ≡ false → u.buf ≡ []
nothing_left u (inl t) running = absurd (let e : true ≡ false = sym t ∙ running in cc)
nothing_left u (inr t) running = emptied u.buf t
  where
    emptied : (xs : ByteString) → is_empty xs ≡ true → xs ≡ []
    emptied [] h = refl
    emptied (x ∷ xs) h = cc

-- Whatever pieces a job writes, at most 8 MiB in all, the final flush leaves the log of a server that
-- stores every chunk with all of them, in order and once each, behind what the log held before.
pub all_delivered :
    (ps : List ByteString) (u : Uploader) (log : ByteString)
    → u.stopped ≡ false
    → u.buf ≡ []
    → length (joined ps) ≤ max_buffered
    → (flush true storing (14 * max_buffered + 7) (writes ps u) log).server ≡ log ++ joined ps
all_delivered ps u log running empty fits =
    let v = writes ps u in
    let kept = writes-Kept ps u running (rw empty (omega arith)) in
    let held : v.buf ≡ joined ps = kept.buf ∙ ap (λ b. b ++ joined ps) empty in
    let whole = flush-Whole (14 * max_buffered + 7) v log (kept.stopped ∙ running) in
    let ends =
      flush_ends storing v log (14 * max_buffered + 7) (omega (arith, ap length held, fits)) in
    let final = flush true storing (14 * max_buffered + 7) v log in
    let left = nothing_left final.uploader ends.1 whole.running in
    sym (append-nil _)
    ∙ ap (λ b. (flush true storing (14 * max_buffered + 7) v log).server ++ b) (sym left)
    ∙ whole.split
    ∙ ap (λ b. log ++ b) held
