-- ===== src/Frames/Chunks.antt =====
-- rust/crates/h2ts-client/src/frames.rs: what `FrameDecoder::push` makes of two chunks at once, its
-- end, and what it leaves pending.
use h2ts.Common.{
  ℕ, ◌+◌, ◌<◌, ◌≡◌, ap, ◌∙◌, refl, ◌≢◌, List, Option, take, drop, ◌∷◌, ◌++◌, append_assoc, arith,
  length,
}
use h2ts.Errors.{Outcome, ok, err, panic, map_ok}
use h2ts.Frames.Types.{Frame}
use h2ts.Frames.Parse.{parse_payload}
use h2ts.Frames.Decoder.{Round, round, read_frame, to_round, drain, FrameDecoder, push, settle}
use h2ts.Frames.Rounds.{behind, continue, drain-append, drain-ne-panic, Leaves, drain-Leaves}

-- What is done behind a `push` that has not failed: its frames come after those of the `push`.
abbrev pub and_then :
    Outcome (List Frame) × FrameDecoder
    → (FrameDecoder → Outcome (List Frame) × FrameDecoder)
    → Outcome (List Frame) × FrameDecoder
and_then (ok fs, d) next = let (r, d') = next d in (map_ok (◌++◌ fs) r, d')
and_then (err e, d) next = (err e, d)
and_then (panic, d) next = (panic, d)

settle-behind :
    (d : FrameDecoder) (rest : List ℕ) (fs : List Frame) (o : Outcome (List Frame × List ℕ))
    → settle d (behind fs o)
      ≡ (let (r, d') = settle (record d { pending = rest }) o in (map_ok (◌++◌ fs) r, d'))
settle-behind d rest fs (ok (gs, left)) = refl
settle-behind d rest fs (err e) = refl
settle-behind d rest fs panic = refl

settle-continue :
    (d : FrameDecoder) (more : List ℕ) (o : Outcome (List Frame × List ℕ))
    → settle d (continue d.max_frame_size more o) ≡ and_then (settle d o) (λ d'. push d' more)
unfolding push
settle-continue d more (ok (fs, rest)) = settle-behind d rest fs _
settle-continue d more (err e) = refl
settle-continue d more panic = refl

-- What `push` of two chunks at once gives, from what it gives for them one after the other.
pub push_both :
    (d : FrameDecoder) (a b : List ℕ) → push d (a ++ b) ≡ and_then (push d a) (λ d'. push d' b)
unfolding push
push_both d a b = rw (← append_assoc d.pending a b) (
    ap (settle d) (drain-append d.max_frame_size _ _ (d.pending ++ a) b (omega arith) (omega arith))
    ∙ settle-continue d b (drain d.max_frame_size _ (d.pending ++ a)))

settle-ne-panic :
    (d : FrameDecoder) (o : Outcome (List Frame × List ℕ)) → o ≢ panic → (settle d o).0 ≢ panic
settle-ne-panic d (ok (fs, rest)) h = ground arith
settle-ne-panic d (err e) h = ground arith
settle-ne-panic d panic h = λ _. h refl

-- `push` answers frames or an error on every input: its loop ends and reads in bounds.
pub push-ne-panic : (d : FrameDecoder) (chunk : List ℕ) → (push d chunk).0 ≢ panic
unfolding push
push-ne-panic d chunk = settle-ne-panic d _ (drain-ne-panic d.max_frame_size _ _ (omega arith))

-- What `push` of two chunks at once gives, beside what it gives for them one after the other. Only a
-- `push` that does not fail returns its frames.
abbrev pub IsBoth :
    Outcome (List Frame) × FrameDecoder
    → Outcome (List Frame) × FrameDecoder
    → Outcome (List Frame) × FrameDecoder
    → Type 0
IsBoth (ok fs, d1) (ok gs, d2) both = both ≡ (ok (fs ++ gs), d2)
IsBoth (ok fs, d1) (err e, d2) both = both ≡ (err e, d2)
IsBoth (ok fs, d1) (panic, d2) both = ⊥
IsBoth (err e, d1) second both = both ≡ (err e, d1)
IsBoth (panic, d1) second both = ⊥

and_then-IsBoth :
    (first both : Outcome (List Frame) × FrameDecoder)
    (next : FrameDecoder → Outcome (List Frame) × FrameDecoder)
    → first.0 ≢ panic
    → (next first.1).0 ≢ panic
    → both ≡ and_then first next
    → IsBoth first (next first.1) both
and_then-IsBoth (ok fs, d1) both next p q e = after (next d1) q e
  where
    after :
        (second : Outcome (List Frame) × FrameDecoder)
        → second.0 ≢ panic
        → both ≡ (map_ok (◌++◌ fs) second.0, second.1)
        → IsBoth (ok fs, d1) second both
    after (ok gs, d2) q e = e
    after (err x, d2) q e = e
    after (panic, d2) q e = q refl
and_then-IsBoth (err x, d1) both next p q e = e
and_then-IsBoth (panic, d1) both next p q e = p refl

-- Two chunks that are pushed as one, against the same two pushed one after the other. If both succeed
-- the one push returns the frames of the first and then those of the second, and the same bytes stay
-- pending: a frame that is cut anywhere, in its header too, comes out whole. If the first fails the
-- one push fails with the same error. If only the second fails, the one push fails with that error,
-- and does not return the frames that the first of the two returned. None of them panics.
pub push-append :
    (d : FrameDecoder) (a b : List ℕ) → IsBoth (push d a) (push (push d a).1 b) (push d (a ++ b))
push-append d a b =
    and_then-IsBoth (push d a) (push d (a ++ b)) (λ d1. push d1 b) (push-ne-panic d a)
      (push-ne-panic (push d a).1 b) (push_both d a b)

-- What is pending holds no whole frame, and is shorter than the longest one.
abbrev pub IsPartial : FrameDecoder → Type 0
IsPartial d =
    (round d.max_frame_size d.pending ≡ Round.wait) × (length d.pending < 9 + d.max_frame_size)

to_round-ne-wait : (o : Outcome (Option Frame)) (rest : List ℕ) → to_round o rest ≢ Round.wait
to_round-ne-wait (ok f) rest = ground arith
to_round-ne-wait (err e) rest = ground arith
to_round-ne-wait panic rest = ground arith

read_frame_wait :
    (m len type_id flags id : ℕ) (body : List ℕ)
    → read_frame m len type_id flags id body ≡ Round.wait
    → length body < m
unfolding read_frame
read_frame_wait m len type_id flags id body h =
    ground
      (arith, to_round-ne-wait (parse_payload type_id flags id (take len body)) (drop len body))

round_wait : (m : ℕ) (buf : List ℕ) → round m buf ≡ Round.wait → length buf < 9 + m
unfolding round
round_wait m (a ∷ b ∷ c ∷ d ∷ e ∷ f ∷ g ∷ h ∷ i ∷ body) w =
    omega (arith, read_frame_wait m _ d e _ body w)
round_wait m _ w = omega arith

settle-IsPartial :
    (d : FrameDecoder) (o : Outcome (List Frame × List ℕ))
    → Leaves d.max_frame_size o
    → IsPartial (settle d o).1
unfolding round
settle-IsPartial d (ok (fs, rest)) h = (h, round_wait d.max_frame_size rest h)
settle-IsPartial d (err e) h = (refl, omega arith)
settle-IsPartial d panic h = (refl, omega arith)

-- After every `push`, failed or not, the decoder keeps less than one frame: what is pending holds
-- no whole frame, and it is shorter than a header and the largest payload allowed.
pub push-IsPartial : (d : FrameDecoder) (chunk : List ℕ) → IsPartial (push d chunk).1
unfolding push
push-IsPartial d chunk = settle-IsPartial d _ (drain-Leaves d.max_frame_size _ (d.pending ++ chunk))
