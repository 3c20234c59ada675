-- ===== src/Frames/Decoder.antt =====
-- rust/crates/h2ts-client/src/frames.rs: `FrameDecoder`, which frames arbitrary chunks of bytes.
-- The loop's `buf` and `offset` are one list, `buf[offset..]`.
use h2ts.Common.{
  ℕ, zero, suc, ◌%◌, ◌^◌, if◌then◌else◌, ltb, List, [], ◌∷◌, ◌++◌, Option, none, some, length, take,
  drop,
}
use h2ts.Errors
use h2ts.Errors.{ErrorCode, Outcome, ok, err, panic, ◌>>=◌}
use h2ts.Bytes.{from_u24, from_u32}
use h2ts.Frames.Types.{Frame}
use h2ts.Frames.Parse.{parse_payload}

-- What one round of the loop finds at the head of the buffer: too few bytes, an error, or a frame
-- (`none` if its type is unknown) with what follows it.
pub data Round : Type 0 where
  wait : Round
  fail : Errors.H2Error → Round
  crash : Round
  frame : Option Frame → List ℕ → Round

abbrev pub to_round : Outcome (Option Frame) → List ℕ → Round
to_round (ok f) rest = Round.frame f rest
to_round (err e) rest = Round.fail e
to_round panic rest = Round.crash

-- The header is complete: check the length, wait for the payload, and parse it.
unfoldable pub read_frame : ℕ → ℕ → ℕ → ℕ → ℕ → List ℕ → Round
read_frame max_frame_size len type_id flag_bits id body =
    if ltb max_frame_size len
    then Round.fail
        (Errors.new ErrorCode.frame_size_error (Errors.frame_length_exceeds len max_frame_size))
    else if ltb (length body) len
    then Round.wait
    else to_round (parse_payload type_id flag_bits id (take len body)) (drop len body)

unfoldable pub round : ℕ → List ℕ → Round
unfolding read_frame
round max_frame_size (l0 ∷ l1 ∷ l2 ∷ type_id ∷ flag_bits ∷ s0 ∷ s1 ∷ s2 ∷ s3 ∷ body) =
    read_frame max_frame_size (from_u24 l0 l1 l2) type_id flag_bits (from_u32 s0 s1 s2 s3 % 2 ^ 31)
      body
round max_frame_size _ = Round.wait

abbrev pub push_some : Option Frame → List Frame → List Frame
push_some none fs = fs
push_some (some f) fs = f ∷ fs

-- Puts a frame before those that the later rounds find.
abbrev pub before : Option Frame → Outcome (List Frame × List ℕ) → Outcome (List Frame × List ℕ)
before f r = do (fs, rest) ← r; ok (push_some f fs, rest)

-- What the loop does after a round: stop with what is left, return, or go on behind the frame.
abbrev pub resume :
    List ℕ → (List ℕ → Outcome (List Frame × List ℕ)) → Round → Outcome (List Frame × List ℕ)
resume buf next Round.wait = ok ([], buf)
resume buf next (Round.fail e) = err e
resume buf next Round.crash = panic
resume buf next (Round.frame f rest) = before f (next rest)

-- `while buf.len() - offset >= FRAME_HEADER_SIZE`; the answer's second part is `buf[offset..]`.
-- Each round that finds a frame takes nine bytes at least, so `length buf` rounds are enough.
unfoldable pub drain : ℕ → ℕ → List ℕ → Outcome (List Frame × List ℕ)
drain max_frame_size zero buf = resume buf (λ _. panic) (round max_frame_size buf)
drain max_frame_size (suc fuel) buf =
    resume buf (drain max_frame_size fuel) (round max_frame_size buf)

pub record FrameDecoder : Type 0 where
  pub pending : List ℕ
  pub max_frame_size : ℕ

abbrev pub new : ℕ → FrameDecoder
new max_frame_size = record { pending = []; max_frame_size = max_frame_size }

-- On an error the frames of this call are lost, and so is what was pending.
abbrev pub settle :
    FrameDecoder → Outcome (List Frame × List ℕ) → Outcome (List Frame) × FrameDecoder
settle d (ok (fs, rest)) = (ok fs, record d { pending = rest })
settle d (err e) = (err e, record d { pending = [] })
settle d panic = (panic, record d { pending = [] })

unfoldable pub push : FrameDecoder → List ℕ → Outcome (List Frame) × FrameDecoder
push d chunk = let buf = d.pending ++ chunk in settle d (drain d.max_frame_size (length buf) buf)
