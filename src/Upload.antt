-- ===== src/Upload.antt =====
-- The log uploader of the runner: runner/internal/agent/upload.go. The server is a function of the
-- sequence number and the chunk over a state of its own. Each locked section is one step; a flush is
-- the loop with no write between its sections, as in the final flush. Logging, the pauses between
-- attempts and the channels that start a flush are left out.
mod Ends
mod Delivered
mod Tests
use kilnci.Base.{
  ℕ, zero, suc, ◌+◌, ◌-◌, ◌*◌, min, Bool, true, false, not, ◌&&◌, ◌||◌, List, [], ◌∷◌, ◌++◌, Option,
  none, some, if◌then◌else◌, ltb, leb, length, take, drop, ByteString, codes, is_empty,
}

abbrev pub flush_bytes : ℕ
flush_bytes = 64 * 1024

abbrev pub max_chunk_bytes : ℕ
max_chunk_bytes = 256 * 1024

abbrev pub max_buffered : ℕ
max_buffered = 8 * 1024 * 1024

abbrev pub final_attempts : ℕ
final_attempts = 5

abbrev pub marker_buffer_full : ByteString
marker_buffer_full = codes "\n[kiln: output dropped: upload buffer full]\n"

abbrev pub marker_upload_failed : ByteString
marker_upload_failed = codes "\n[kiln: output dropped: upload failed]\n"

pub record Uploader : Type 0 where
  pub buf : ByteString
  pub seq : ℕ
  pub stopped : Bool
  pub in_gap : Bool

-- The status codes that the loop tells apart; `stored` says whether the log is truncated.
pub data Answer : Type 0 where
  stored : Bool → Answer
  aborted refused failed : Answer

mark_gap : ByteString → ℕ → Uploader → Uploader
mark_gap p n u =
    if ltb n (length p) && not u.in_gap
    then record u { buf = u.buf ++ marker_buffer_full; in_gap = true }
    else u

keep_output : ByteString → ℕ → Uploader → Uploader
keep_output p n u = if ltb 0 n then record u { buf = u.buf ++ take n p; in_gap = false } else u

-- `Write`, which never fails and never waits.
unfoldable pub write : ByteString → Uploader → Uploader
unfolding mark_gap keep_output
write p u =
    let n = min (length p) (max_buffered - length u.buf) in
    if u.stopped then u else mark_gap p n (keep_output p n u)

-- The variables of the loop of `flush`, and whether it goes on.
pub record Loop (S : Type 0) : Type 0 where
  pub uploader : Uploader
  pub attempt : ℕ
  pub dropped_last : Bool
  pub returned : Bool
  pub server : S

module _ {S : Type 0} (all : Bool) where
  -- After a chunk of `n` bytes was stored.
  advance : ℕ → Bool → Loop S → Loop S
  advance n truncated l =
      let u = l.uploader in
      let rest = drop n u.buf in
      record l {
        uploader = record u { buf = rest; seq = suc u.seq; stopped = truncated || u.stopped };
        attempt = 0;
        dropped_last = false;
        returned = not all && ltb (length rest) flush_bytes;
      }

  -- The marker conflicts with the chunk that was given up on: it is dropped.
  drop_marker : Loop S → Loop S
  drop_marker l =
      let u = l.uploader in
      record l {
        uploader = record u { buf = drop (length marker_upload_failed) u.buf; seq = suc u.seq };
        attempt = 0;
        dropped_last = false;
      }

  give_up : Loop S → Loop S
  give_up l = record l {
    uploader = record l.uploader { stopped = true; buf = [] };
    returned = true;
  }

  replace_chunk : ℕ → Loop S → Loop S
  replace_chunk n l =
      let u = l.uploader in
      record l {
        uploader = record u { buf = marker_upload_failed ++ drop n u.buf };
        attempt = 0;
        dropped_last = true;
      }

  -- Any other error: try again, or replace the chunk, or give up.
  retry : ℕ → Loop S → Loop S
  unfolding give_up replace_chunk
  retry n l =
      let again = record l { attempt = suc l.attempt } in
      if not all
      then record again { returned = true }
      else if leb again.attempt final_attempts
      then again
      else if l.dropped_last
      then give_up l
      else replace_chunk n l

  react : Answer → ℕ → Loop S → Loop S
  unfolding advance drop_marker give_up retry replace_chunk
  react (stored truncated) n l = advance n truncated l
  react aborted n l = if l.dropped_last then drop_marker l else give_up l
  react refused n l = give_up l
  react failed n l = retry n l

  module _ (append_logs : ℕ → ByteString → S → Answer × S) where
    -- One round of the loop.
    unfoldable pub round : Loop S → Loop S
    unfolding react
    round l =
        let u = l.uploader in
        let n = min (length u.buf) max_chunk_bytes in
        let (answer, s) = append_logs u.seq (take n u.buf) l.server in
        if u.stopped || is_empty u.buf
        then record l { returned = true }
        else react answer n (record l { server = s })

    -- The loop; it has returned unless the fuel ran out.
    unfoldable pub rounds : ℕ → Loop S → Loop S
    unfolding round
    rounds zero l = l
    rounds (suc f) l = let more = rounds f (round l) in if l.returned then l else more

    -- `flush`, with fuel.
    unfoldable pub flush : ℕ → Uploader → S → Loop S
    unfolding rounds
    flush fuel u s =
        rounds fuel
          (record { uploader = u; attempt = 0; dropped_last = false; returned = false; server = s })
