-- ===== src/Frames/Wire.antt =====
-- rust/crates/h2ts-client/src/frames.rs: what `serialize_frame` sends, `FrameDecoder` gives back,
-- however the bytes are cut.
use h2ts.Common.{
  ℕ, zero, suc, ◌/◌, ◌%◌, ◌^◌, ◌≤◌, ◌<◌, ◌≡◌, refl, ap, sym, ap₂, ◌∙◌, List, [], ◌∷◌, ◌++◌,
  append-nil, Option, some, arith, length, All, take-append, drop-append, length-append,
  le→ltb-false,
}
use h2ts.Errors.{Outcome, ok, err, panic, map_ok}
use h2ts.Bytes.{from_u24, from_u32}
use mathlib.Core.List.{flatten}
use h2ts.Frames.Types.{Frame}
use h2ts.Frames.Encode.{Encoded, encode_body, header_bytes, serialize_frame}
use h2ts.Frames.Decoder.{Round, read_frame, round, drain, FrameDecoder, push, new, settle, resume}
use h2ts.Frames.Parse.{parse_payload}
use h2ts.Frames.RoundTrip.{IsFrame, parse_payload-encode_body}
use h2ts.Frames.Chunks.{push_both, and_then, IsPartial, push-IsPartial}

length-serialize : (f : Frame) → 9 ≤ length (serialize_frame f)
unfolding serialize_frame
length-serialize f = omega arith

-- A frame that the peer's limit and the wire's 24 bits of length allow.
abbrev pub Fits : ℕ → Frame → Type 0
Fits m f = IsFrame f × (length (encode_body f).payload ≤ m)

length24 :
    (n : ℕ)
    → n < 2 ^ 24
    → from_u24 (n % 2 ^ 32 / 2 ^ 16 % 2 ^ 8) (n % 2 ^ 32 / 2 ^ 8 % 2 ^ 8) (n % 2 ^ 32 % 2 ^ 8) ≡ n
length24 n h = omega arith

stream31 :
    (n : ℕ)
    → (let k = n % 2 ^ 31 in
        from_u32 (k / 2 ^ 24 % 2 ^ 8) (k / 2 ^ 16 % 2 ^ 8) (k / 2 ^ 8 % 2 ^ 8) (k % 2 ^ 8) % 2 ^ 31
        ≡ n % 2 ^ 31)
stream31 n = omega arith

header-append :
    (m : ℕ) (e : Encoded) (rest : List ℕ)
    → length e.payload < 2 ^ 24
    → round m (header_bytes e ++ rest)
      ≡ read_frame m (length e.payload) e.type_id e.flags (e.stream_id % 2 ^ 31) rest
unfolding round
header-append m e rest h =
    ap₂ (λ len id. read_frame m len e.type_id e.flags id rest) (length24 (length e.payload) h)
      (stream31 e.stream_id)

read_frame-whole :
    (m type_id flags id : ℕ) (payload rest : List ℕ) (f : Option Frame)
    → length payload ≤ m
    → parse_payload type_id flags id payload ≡ ok f
    → read_frame m (length payload) type_id flags id (payload ++ rest) ≡ Round.frame f rest
unfolding read_frame
read_frame-whole m type_id flags id payload rest f h e = rw (
  le→ltb-false m (length payload) h,
  le→ltb-false (length (payload ++ rest)) (length payload)
      (omega (arith, length-append payload rest)),
  take-append payload rest,
  drop-append payload rest,
  e,
)

round-serialize :
    (m : ℕ) (f : Frame) (rest : List ℕ)
    → m < 2 ^ 24
    → Fits m f
    → round m (serialize_frame f ++ rest) ≡ Round.frame (some f) rest
unfolding serialize_frame
round-serialize m f rest hm (hf, hl) =
    let e = encode_body f in
    header-append m e (e.payload ++ rest) (omega arith)
    ∙ read_frame-whole m e.type_id e.flags (e.stream_id % 2 ^ 31) e.payload rest (some f) hl
        (parse_payload-encode_body f hf)

-- The bytes of several frames, one after another.
abbrev pub serialize_all : List Frame → List ℕ
serialize_all [] = []
serialize_all (f ∷ fs) = serialize_frame f ++ serialize_all fs

drain-serialize :
    (m fuel : ℕ) (fs : List Frame)
    → m < 2 ^ 24
    → All (Fits m) fs
    → length (serialize_all fs) ≤ fuel
    → drain m fuel (serialize_all fs) ≡ ok (fs, [])
unfolding drain
drain-serialize m zero [] hm h k = unfold round in refl
drain-serialize m (suc fuel) [] hm h k = unfold round in refl
drain-serialize m zero (f ∷ fs) hm h k =
    absurd (omega (arith, length-serialize f, length-append (serialize_frame f) (serialize_all fs)))
drain-serialize m (suc fuel) (f ∷ fs) hm (hf, hfs) k = rw (
  round-serialize m f (serialize_all fs) hm hf,
  drain-serialize m fuel fs hm hfs
      (omega (arith, length-serialize f, length-append (serialize_frame f) (serialize_all fs))),
)

push-serialize :
    (m : ℕ) (fs : List Frame)
    → m < 2 ^ 24
    → All (Fits m) fs
    → push (new m) (serialize_all fs) ≡ (ok fs, new m)
unfolding push
push-serialize m fs hm h = ap (settle (new m)) (drain-serialize m _ fs hm h (omega arith))

-- The read loop: a chunk after another, until an error.
abbrev pub feed : FrameDecoder → List (List ℕ) → Outcome (List Frame) × FrameDecoder
feed d [] = (ok [], d)
feed d (c ∷ cs) = and_then (push d c) (λ d'. feed d' cs)

new-IsPartial : (m : ℕ) → IsPartial (new m)
unfolding round
new-IsPartial m = (refl, omega arith)

and_then_congr :
    (r : Outcome (List Frame) × FrameDecoder)
    (next next' : FrameDecoder → Outcome (List Frame) × FrameDecoder)
    → next r.1 ≡ next' r.1
    → and_then r next ≡ and_then r next'
and_then_congr (ok fs, d) next next' e = ap (λ r. (map_ok (◌++◌ fs) r.0, r.1)) e
and_then_congr (err x, d) next next' e = refl
and_then_congr (panic, d) next next' e = refl

drain_wait :
    (m fuel : ℕ) (buf : List ℕ) → round m buf ≡ Round.wait → drain m fuel buf ≡ ok ([], buf)
unfolding drain
drain_wait m zero buf h = ap (resume buf (λ _. panic)) h
drain_wait m (suc fuel) buf h = ap (resume buf (drain m fuel)) h

push-nil : (d : FrameDecoder) → IsPartial d → push d [] ≡ (ok [], d)
unfolding push
push-nil d h =
    rw (append-nil d.pending) (ap (settle d) (drain_wait d.max_frame_size _ d.pending h.0))

feed-flatten :
    (d : FrameDecoder) (chunks : List (List ℕ))
    → IsPartial d
    → feed d chunks ≡ push d (flatten chunks)
unfolding flatten
feed-flatten d [] h = sym (push-nil d h)
feed-flatten d (c ∷ cs) h =
    and_then_congr (push d c) (λ d'. feed d' cs) (λ d'. push d' (flatten cs))
      (feed-flatten (push d c).1 cs (push-IsPartial d c))
    ∙ sym (push_both d c (flatten cs))

-- However the bytes of some frames are cut into chunks, a fresh decoder that reads the chunks one
-- by one gives those frames back, in order, and ends with nothing pending. The frames' fields fit
-- the wire, and their payloads fit the decoder's limit, which itself fits 24 bits.
pub feed-serialize :
    (m : ℕ) (fs : List Frame) (chunks : List (List ℕ))
    → m < 2 ^ 24
    → All (Fits m) fs
    → flatten chunks ≡ serialize_all fs
    → feed (new m) chunks ≡ (ok fs, new m)
feed-serialize m fs chunks hm h e =
    feed-flatten (new m) chunks (new-IsPartial m) ∙ ap (push (new m)) e ∙ push-serialize m fs hm h
