-- ===== src/Frames/Runs.antt =====
-- Runs of the frame codec, and its theorems at concrete inputs.
use h2ts.Common.{ℕ, ◌≡◌, refl, false, List, [], ◌∷◌, ◌++◌, arith, All}
use mathlib.Core.List.{flatten}
use h2ts.Errors.{ok}
use h2ts.Frames.Types.{Frame}
use h2ts.Frames.Encode.{encode_body, serialize_frame}
use h2ts.Frames.Decoder.{new, push}
use h2ts.Frames.Chunks.{IsBoth, push-append, IsPartial, push-IsPartial}
use h2ts.Frames.Wire.{Fits, serialize_all, feed, feed-serialize}

-- A PING, and half of the header that follows it.
abbrev ping_bytes : List ℕ
ping_bytes = 0 ∷ 0 ∷ 8 ∷ 6 ∷ 0 ∷ 0 ∷ 0 ∷ 0 ∷ 0 ∷ 1 ∷ 2 ∷ 3 ∷ 4 ∷ 5 ∷ 6 ∷ 7 ∷ 8 ∷ 0 ∷ 0 ∷ 4 ∷ []

abbrev ping_frame : Frame
ping_frame = Frame.ping false (1 ∷ 2 ∷ 3 ∷ 4 ∷ 5 ∷ 6 ∷ 7 ∷ 8 ∷ [])

abbrev grant_frame : Frame
grant_frame = Frame.window_update 3 70000

abbrev two_frames : List Frame
two_frames = ping_frame ∷ grant_frame ∷ []

-- The bytes of the two frames, cut inside a header and inside a payload.
abbrev two_chunks : List (List ℕ)
two_chunks =
    (0 ∷ 0 ∷ 8 ∷ 6 ∷ [])
    ∷ (0 ∷ 0 ∷ 0 ∷ 0 ∷ 0 ∷ 1 ∷ 2 ∷ 3 ∷ 4 ∷ 5 ∷ 6 ∷ 7 ∷ 8 ∷ 0 ∷ 0 ∷ 4 ∷ 8 ∷ 0 ∷ 0 ∷ 0 ∷ 0 ∷ 3 ∷ 0
        ∷ [])
    ∷ (1 ∷ 17 ∷ 112 ∷ [])
    ∷ []

two_chunks_flat : flatten two_chunks ≡ serialize_all two_frames
unfolding serialize_frame encode_body flatten
two_chunks_flat = refl

two_frames_Fit : All (Fits 16384) two_frames
unfolding encode_body
two_frames_Fit = ((refl, omega arith), (((omega arith, omega arith), omega arith), tt))

feed-serialize_example : feed (new 16384) two_chunks ≡ (ok two_frames, new 16384)
feed-serialize_example =
    feed-serialize 16384 two_frames two_chunks (omega arith) two_frames_Fit two_chunks_flat

push-append_example :
    IsBoth
      (push (new 16384) ping_bytes)
      (push (push (new 16384) ping_bytes).1 (8 ∷ []))
      (push (new 16384) (ping_bytes ++ 8 ∷ []))
push-append_example = push-append (new 16384) ping_bytes (8 ∷ [])

push-IsPartial_example : IsPartial (push (new 16384) ping_bytes).1
push-IsPartial_example = push-IsPartial (new 16384) ping_bytes
