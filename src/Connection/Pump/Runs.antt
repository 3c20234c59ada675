-- ===== src/Connection/Pump/Runs.antt =====
-- Runs of the body pump, and its theorems at concrete inputs.
use h2ts.Common.{ℕ, ◌≡◌, refl, arith, ◌≤◌, length, false, List, [], ◌∷◌, ◌++◌, some}
use mathlib.Core.List.{flatten}
use h2ts.Common.Int.{pos}
use h2ts.Flow.{new, is_ready}
use h2ts.Connection.Pump.{Shared, Round, round, send_next}
use h2ts.Connection.Pump.Bounds.{Within, round-Within, round_sends}
use h2ts.Connection.Pump.Upload.{Upload, start, advance, Step, Steps, upload-bytes}
use h2ts.Connection.Pump.Waits.{Waits, round-Waits}

-- Windows of 5 and 3 bytes, frames of at most 4, and a chunk of four bytes.
abbrev narrow : Shared
narrow = record {
  closed = false;
  conn_send_window = new (pos 5);
  stream_window = some (new (pos 3));
  max_frame_size = 4;
}

abbrev four_bytes : List ℕ
four_bytes = 1 ∷ 2 ∷ 3 ∷ 4 ∷ []

three_sent : (round narrow four_bytes 7).0 ≡ Round.sent 3 (1 ∷ 2 ∷ 3 ∷ [])
unfolding round send_next is_ready
three_sent = refl

round-Within_example : Within narrow (round narrow four_bytes 7).1 3 (1 ∷ 2 ∷ 3 ∷ [])
round-Within_example = round-Within narrow four_bytes 3 (1 ∷ 2 ∷ 3 ∷ []) 7 three_sent

round_sends_example :
    (k : ℕ) × (bytes : List ℕ) × ((round narrow four_bytes 7).0 ≡ Round.sent k bytes)
    × (1 ≤ length bytes)
round_sends_example =
    round_sends narrow (new (pos 3)) four_bytes 7 refl refl refl refl refl (omega arith)
      (omega arith)

abbrev first_round : Upload
first_round = advance (start narrow four_bytes) 7

abbrev uploading : Steps (start narrow four_bytes) first_round
uploading = Steps.next Steps.done (Step.advanced 7)

upload-bytes_example : flatten first_round.frames ++ first_round.rest ≡ four_bytes
upload-bytes_example = upload-bytes narrow four_bytes first_round uploading

abbrev exhausted : Shared
exhausted = record narrow { stream_window = some (new (pos 0)) }

exhausted_parks : (round exhausted four_bytes 7).0 ≡ Round.parked
unfolding round is_ready
exhausted_parks = refl

round-Waits_example : Waits exhausted 7 (round exhausted four_bytes 7).1
round-Waits_example = round-Waits exhausted four_bytes 7 exhausted_parks
