-- ===== src/Upload/Ends.antt =====
-- The final flush of upload.go ends, whatever the server answers.
use kilnci.Base.{
  ℕ, zero, suc, ◌+◌, ◌-◌, ◌*◌, ◌≤◌, ◌<◌, min, Bool, true, false, ◌||◌, [], ◌∷◌, ◌++◌, ◌≡◌, ◌⊎◌, inl,
  inr, refl, sym, subst, arith, if◌then◌else◌, leb, length, length-append, length-drop, take, drop,
  ByteString, is_empty, Bool-cases,
}
use kilnci.Upload.{
  max_chunk_bytes, final_attempts, marker_upload_failed, Uploader, Answer, stored, aborted, refused,
  failed, Loop, advance, drop_marker, give_up, replace_chunk, retry, react, round, rounds, flush,
}

abbrev marker_length : ℕ
marker_length = length marker_upload_failed

-- What is left to send: a marker that was just put in front counts for a half.
left_over : Bool → ℕ → ℕ
left_over true n = 2 * (n - marker_length) + 1
left_over false n = 2 * n

left_over-true : (b : Bool) (n : ℕ) → b ≡ true → left_over b n ≡ 2 * (n - marker_length) + 1
unfolding left_over
left_over-true true n h = refl
left_over-true false n h = cc

left_over-false : (b : Bool) (n : ℕ) → b ≡ false → left_over b n ≡ 2 * n
unfolding left_over
left_over-false true n h = cc
left_over-false false n h = refl

-- Nothing is left, or nothing more is sent.
abbrev pub IsDone : Uploader → Type 0
IsDone u = (u.stopped ≡ true) ⊎ (is_empty u.buf ≡ true)

pub or-cases :
    (a b : Bool) → ((a || b) ≡ true) × ((a ≡ true) ⊎ (b ≡ true)) ⊎ ((a || b) ≡ false) × (b ≡ false)
or-cases true b = inl (refl, inl refl)
or-cases false true = inl (refl, inr refl)
or-cases false false = inr (refl, refl)

pub not_empty : (xs : ByteString) → is_empty xs ≡ false → 0 < length xs
not_empty [] h = cc
not_empty (x ∷ xs) h = omega arith

pub if-false {ℓ} : {A : Type ℓ} (b : Bool) (x y : A) → b ≡ false → (if b then x else y) ≡ y
if-false true x y h = cc
if-false false x y h = refl

pub if-true {ℓ} : {A : Type ℓ} (b : Bool) (x y : A) → b ≡ true → (if b then x else y) ≡ x
if-true true x y h = refl
if-true false x y h = cc

module _ {S : Type 0} where
  -- A marker that replaced a chunk is still in front, and attempts are counted up to the limit.
  record IsRunning (l : Loop S) : Type 0 where
    marked : l.dropped_last ≡ true → marker_length ≤ length l.uploader.buf
    tries : l.attempt ≤ final_attempts

  abbrev measure : Loop S → ℕ
  measure l = 7 * left_over l.dropped_last (length l.uploader.buf) + (6 - l.attempt)

  -- What a round that goes on has done.
  record Shrinks (l m : Loop S) : Type 0 where
    goes_on : m.returned ≡ false
    running : IsRunning m
    less : measure m < measure l

  abbrev Progresses : Loop S → Loop S → Type 0
  Progresses l m = (m.returned ≡ true) × IsDone m.uploader ⊎ Shrinks l m

  Progresses-if :
      {l m k : Loop S} (b : Bool)
      → (b ≡ true → Progresses l m)
      → (b ≡ false → Progresses l k)
      → Progresses l (if b then m else k)
  Progresses-if true h j = h refl
  Progresses-if false h j = j refl

  -- The server's state is no work.
  same_work :
      (l : Loop S) (s : S) {m : Loop S} → Progresses (record l { server = s }) m → Progresses l m
  same_work l s (inl d) = inl d
  same_work l s (inr t) = inr (record { goes_on = t.goes_on; running = t.running; less = t.less })

  module _ (l : Loop S) (r : IsRunning l) (open_loop : l.returned ≡ false) where
    abbrev size : ℕ
    size = length l.uploader.buf

    advance-Shrinks :
        (n : ℕ) (truncated : Bool)
        → 0 < n
        → (l.dropped_last ≡ true → marker_length ≤ n)
        → n ≤ size
        → Shrinks l (advance true n truncated l)
    unfolding advance
    advance-Shrinks n truncated pos_n big few =
        let rest = length-drop n l.uploader.buf in
        let after = left_over-false false (length (drop n l.uploader.buf)) refl in
        record {
          goes_on = refl;
          running = record { marked = λ h. cc; tries = omega arith };
          less = (elim (Bool-cases l.dropped_last) [
            | inl t ↦ omega (arith, after, rest, left_over-true l.dropped_last size t, big t)
            | inr t ↦ omega (arith, after, rest, left_over-false l.dropped_last size t)
          ]);
        }

    drop_marker-Shrinks : l.dropped_last ≡ true → Shrinks l (drop_marker true l)
    unfolding drop_marker
    drop_marker-Shrinks t =
        let rest = length-drop marker_length l.uploader.buf in
        let after = left_over-false false (length (drop marker_length l.uploader.buf)) refl in
        record {
          goes_on = open_loop;
          running = record { marked = λ h. cc; tries = omega arith };
          less = (omega (arith, after, rest, left_over-true l.dropped_last size t, r.marked t));
        }

    replace_chunk-Shrinks :
        (n : ℕ) → 0 < n → n ≤ size → l.dropped_last ≡ false → Shrinks l (replace_chunk true n l)
    unfolding replace_chunk
    replace_chunk-Shrinks n pos_n few t =
        let rest = length-drop n l.uploader.buf in
        let joined = length-append marker_upload_failed (drop n l.uploader.buf) in
        let after =
          left_over-true true (length (marker_upload_failed ++ drop n l.uploader.buf)) refl in
        record {
          goes_on = open_loop;
          running = record { marked = λ _. omega (arith, joined); tries = omega arith };
          less = (omega (arith, after, joined, rest, left_over-false l.dropped_last size t));
        }

    give_up-Progresses : Progresses l (give_up true l)
    unfolding give_up
    give_up-Progresses = inl (refl, inl refl)

    retry-Progresses : (n : ℕ) → 0 < n → n ≤ size → Progresses l (retry true n l)
    unfolding retry
    retry-Progresses n pos_n few = elim (Bool-cases (leb (suc l.attempt) final_attempts)) [
      | inl t ↦ rw t (
          inr (record {
            goes_on = open_loop;
            running = record { marked = r.marked; tries = ground arith };
            less = (ground arith);
          }))
      | inr t ↦ rw t (
          Progresses-if l.dropped_last (λ _. give_up-Progresses)
            (λ u. inr (replace_chunk-Shrinks n pos_n few u)))
    ]

    react-Progresses :
        (a : Answer) (n : ℕ)
        → 0 < n
        → (l.dropped_last ≡ true → marker_length ≤ n)
        → n ≤ size
        → Progresses l (react true a n l)
    unfolding react
    react-Progresses (stored truncated) n pos_n big few =
        inr (advance-Shrinks n truncated pos_n big few)
    react-Progresses aborted n pos_n big few =
        Progresses-if l.dropped_last (λ t. inr (drop_marker-Shrinks t)) (λ _. give_up-Progresses)
    react-Progresses refused n pos_n big few = give_up-Progresses
    react-Progresses failed n pos_n big few = retry-Progresses n pos_n few

  module _ (append_logs : ℕ → ByteString → S → Answer × S) where
    round-Progresses :
        (l : Loop S) → IsRunning l → l.returned ≡ false → Progresses l (round true append_logs l)
    unfolding round
    round-Progresses l r open_loop =
        let u = l.uploader in
        let n = min (length u.buf) max_chunk_bytes in
        let reply = append_logs u.seq (take n u.buf) l.server in
        elim (or-cases u.stopped (is_empty u.buf)) [
          | inl (t, done) ↦ rw t (inl (refl, done))
          | inr (t, full) ↦
              let pos_n : 0 < n = omega (arith, not_empty u.buf full) in
              let m = record l { server = reply.1 } in
              let step =
                react-Progresses m (record { marked = r.marked; tries = r.tries }) open_loop reply.0
                  n pos_n (λ d. omega (arith, r.marked d)) (omega arith) in
              rw t (same_work l reply.1 step)
        ]

    pub rounds_stay :
        (fuel : ℕ) (l : Loop S) → l.returned ≡ true → rounds true append_logs fuel l ≡ l
    unfolding rounds
    rounds_stay zero l h = refl
    rounds_stay (suc fuel) l h = if-true l.returned l _ h

    pub rounds_step :
        (fuel : ℕ) (l : Loop S)
        → l.returned ≡ false
        → rounds true append_logs (suc fuel) l
          ≡ rounds true append_logs fuel (round true append_logs l)
    unfolding rounds
    rounds_step fuel l h = if-false l.returned l _ h

    abbrev Ended : Loop S → Type 0
    Ended l = (l.returned ≡ true) × IsDone l.uploader

    rounds_end :
        (fuel : ℕ) (l : Loop S)
        → IsRunning l
        → l.returned ≡ false
        → measure l < fuel
        → Ended (rounds true append_logs fuel l)
    rounds_end zero l r h m = elim m [ ]
    rounds_end (suc fuel) l r h m =
        subst Ended (sym (rounds_step fuel l h)) (elim (round-Progresses l r h) [
          | inl (t, done) ↦
              subst Ended (sym (rounds_stay fuel (round true append_logs l) t)) (t, done)
          | inr s ↦
              rounds_end fuel (round true append_logs l) s.running s.goes_on (omega (arith, s.less))
        ])

    -- The final flush returns, whatever the server answers at each call: either nothing is left to
    -- send, or the upload has stopped. Fourteen rounds for each byte held, and seven more, are enough.
    pub flush_ends :
        (u : Uploader) (s : S) (fuel : ℕ)
        → 14 * length u.buf + 7 ≤ fuel
        → ((flush true append_logs fuel u s).returned ≡ true)
          × IsDone (flush true append_logs fuel u s).uploader
    unfolding flush
    flush_ends u s fuel h =
        rounds_end fuel _ (record { marked = λ e. cc; tries = omega arith }) refl
          (omega (arith, left_over-false false (length u.buf) refl))
