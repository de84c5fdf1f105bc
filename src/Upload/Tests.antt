-- ===== src/Upload/Tests.antt =====
-- The uploader at small inputs.
use kilnci.Base.{ℕ, ◌+◌, ◌*◌, true, false, [], ◌∷◌, ◌++◌, ◌≡◌, refl, arith, ByteString, codes}
use kilnci.Upload.{Uploader, Answer, failed, max_buffered, flush}
use kilnci.Upload.Ends.{IsDone, flush_ends}
use kilnci.Upload.Delivered.{writes, joined, storing, all_delivered}

abbrev fresh : Uploader
fresh = record { buf = []; seq = 0; stopped = false; in_gap = false }

abbrev holding : Uploader
holding = record fresh { buf = codes "ab" }

-- A server that never answers.
abbrev down : ℕ → ByteString → ℕ → Answer × ℕ
down seq chunk calls = (failed, calls + 1)

-- Six attempts for the chunk, and six for the marker that replaces it.
gives_up_after : (flush true down 40 holding 0).server ≡ 12
unfolding flush
gives_up_after = refl

flush_ends_example :
    ((flush true down 40 holding 0).returned ≡ true)
    × IsDone (flush true down 40 holding 0).uploader
flush_ends_example = flush_ends down holding 0 40 (omega arith)

all_delivered_example :
    (flush true storing
      (14 * max_buffered + 7)
      (writes (codes "ab" ∷ codes "c" ∷ []) fresh)
      (codes "x")).server
    ≡ codes "x" ++ joined (codes "ab" ∷ codes "c" ∷ [])
all_delivered_example =
    all_delivered (codes "ab" ∷ codes "c" ∷ []) fresh (codes "x") refl refl (omega arith)
