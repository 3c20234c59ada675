-- ===== src/Connection/Drive/Slots.antt =====
-- rust/crates/h2ts-client/src/connection.rs: the peer's limit on concurrent streams, what an opened
-- request sends, and the slots that are freed.
use h2ts.Common.{
  true-ne-false, ℕ, ◌+◌, ◌%◌, ◌^◌, ◌≤◌, ◌≡◌, refl, sym, ap, ◌∙◌, subst, Bool, true, false, not,
  ◌==◌, ==_iff, ltb→lt, lt→ltb, le→ltb-false, if_case, List, [], ◌∷◌, ◌++◌, append_assoc,
  append-nil, some, arith, Bool-cases, inl, inr,
}
use h2ts.Common.Dict.{Dict, keys, find, put, remove, find-put}
use h2ts.Errors.{Outcome, ok}
use h2ts.Frames.Types.{Frame}
use h2ts.Hpack.Encoder.{encode}
use h2ts.Connection.Head.{RequestInit, build_request_headers}
use h2ts.Connection.SendHeaders.{Carries, send_headers-Carries}
use h2ts.Connection.State.{
  ConnState, StreamState, Output, odd_keys, active_streams, can_open_stream, new_stream, write_raw,
  send_frame,
}
use h2ts.Connection.Dispatch.{reset_found, on_rst_stream}
use h2ts.Connection.Client.{Admission, send_all, reserve, sent_frames, open_stream, request}
use h2ts.Connection.Invariant.{IsConn}

odd_keys-put :
    (k : ℕ) (s : StreamState) (d : Dict StreamState)
    → odd_keys (keys (put k s d)) ≤ odd_keys (keys d) + 1
odd_keys-put k s [] = ground arith
odd_keys-put k s ((j, t) ∷ d) = ground (arith, odd_keys-put k s d)

odd_keys-remove :
    (k : ℕ) (s : StreamState) (d : Dict StreamState)
    → find k d ≡ some s
    → k % 2 ≡ 1
    → odd_keys (keys (remove k d)) + 1 ≡ odd_keys (keys d)
odd_keys-remove k s [] f o = absurd (ground (arith, f))
odd_keys-remove k s ((j, t) ∷ d) f o = elim (Bool-cases (j == k)) [
  | inl same ↦
      let odd : (j % 2 == 1) ≡ true =
        subst (λ i. (i % 2 == 1) ≡ true) (sym ((==_iff j k).0 same)) ((==_iff (k % 2) 1).1 o) in
      rw (same, odd) (omega arith)
  | inr other ↦ rw other (omega (arith, odd_keys-remove k s d (rw other at f) o))
]

-- A connection whose streams have reached the limit, before and behind a reset by the peer.
abbrev Strands : ConnState → ConnState → Type 0
Strands st u =
    (can_open_stream st ≡ false)
    × (can_open_stream u ≡ true)
    × (u.slot_waiters ≡ st.slot_waiters)
    × (u.admitted ≡ st.admitted)

reset_found-Strands :
    (st : ConnState) (id code : ℕ) (s : StreamState)
    → find id st.streams ≡ some s
    → id % 2 ≡ 1
    → active_streams st ≡ st.remote.max_concurrent_streams
    → Strands st (reset_found st id code (some s))
unfolding can_open_stream
reset_found-Strands st id code s f o full = (
  le→ltb-false (active_streams st) st.remote.max_concurrent_streams (omega (arith, full)),
  lt→ltb (odd_keys (keys (remove id st.streams))) st.remote.max_concurrent_streams
      (omega (arith, full, odd_keys-remove id s st.streams f o)),
  refl,
  refl,
)

-- A reset by the peer frees the slot of its stream, and leaves each parked request parked: of a
-- connection whose streams have reached the peer's limit, with a stream of ours that is reset, a
-- new stream can be opened afterwards, the same requests are parked, and none is admitted.
pub on_rst_stream_strands :
    (st : ConnState) (id code : ℕ) (s : StreamState)
    → find id st.streams ≡ some s
    → id % 2 ≡ 1
    → active_streams st ≡ st.remote.max_concurrent_streams
    → (can_open_stream st ≡ false)
      × (can_open_stream (on_rst_stream st id code) ≡ true)
      × ((on_rst_stream st id code).slot_waiters ≡ st.slot_waiters)
      × ((on_rst_stream st id code).admitted ≡ st.admitted)
unfolding on_rst_stream
on_rst_stream_strands st id code s f o full =
    subst (λ found. Strands st (reset_found st id code found)) (sym f)
      (reset_found-Strands st id code s f o full)

-- What each frame of a list is put on the channel as.
abbrev outputs : List Frame → List Output
outputs [] = []
outputs (f ∷ fs) = Output.frame f ∷ outputs fs

-- What a connection that is open sends, and keeps.
record Sends (st u : ConnState) (fs : List Frame) : Type 0 where
  sent : u.sent ≡ st.sent ++ outputs fs
  streams : u.streams ≡ st.streams
  remote : u.remote ≡ st.remote
  next : u.next_stream_id ≡ st.next_stream_id

sent_one :
    (st : ConnState) (f : Frame) (os : List Output)
    → st.closed ≡ false
    → st.out_tx ≡ true
    → (send_frame st f).sent ++ os ≡ st.sent ++ (Output.frame f ∷ os)
unfolding send_frame write_raw
sent_one st f os c o = rw (c, o) (append_assoc st.sent (Output.frame f ∷ []) os)

send_all-Sends :
    (st : ConnState) (fs : List Frame)
    → st.closed ≡ false
    → st.out_tx ≡ true
    → Sends st (send_all st fs) fs
unfolding send_all send_frame write_raw
send_all-Sends st [] c o = record {
  sent = sym (append-nil st.sent);
  streams = refl;
  remote = refl;
  next = refl;
}
send_all-Sends st (f ∷ fs) c o =
    let rest = send_all-Sends (send_frame st f) fs c o in
    record {
      sent = rest.sent ∙ sent_one st f (outputs fs) c o;
      streams = rest.streams;
      remote = rest.remote;
      next = rest.next;
    }

-- What a request that was opened has done.
pub record IsOpened (st u : ConnState) (block : List ℕ) (end_stream : Bool) : Type 0 where
  pub next_number : u.next_stream_id ≡ (st.next_stream_id + 2) % 2 ^ 32
  pub stream :
      (s : StreamState) × (find st.next_stream_id u.streams ≡ some s)
      × (s.local_closed ≡ end_stream)
      × (s.head_tx ≡ true)
  pub within : active_streams u ≤ st.remote.max_concurrent_streams
  pub sends :
      (fs : List Frame) × (u.sent ≡ st.sent ++ outputs fs)
      × Carries st.remote.max_frame_size st.next_stream_id end_stream block fs

-- An answer of `request`, and the state behind it.
abbrev Opens : ConnState → List ℕ → Bool → Outcome Admission × ConnState → Type 0
Opens st block end_stream (o, u) =
    (o ≡ ok (Admission.opened st.next_stream_id)) × IsOpened st u block end_stream

same_key : (k : ℕ) → (k == k) ≡ true
same_key k = (==_iff k k).1 refl

sent_frames-Opens :
    (st : ConnState) (block : List ℕ) (has_body : Bool) (fs : List Frame)
    → IsConn st
    → st.closed ≡ false
    → can_open_stream st ≡ true
    → Carries st.remote.max_frame_size st.next_stream_id (not has_body) block fs
    → Opens st block (not has_body) (sent_frames (reserve st has_body) st.next_stream_id (ok fs))
unfolding reserve can_open_stream
sent_frames-Opens st block has_body fs h o c carries =
    let id = st.next_stream_id in
    let s = record (new_stream st.remote.initial_window_size) {
      head_tx = true;
      local_closed = not has_body;
    } in
    let k = send_all-Sends (reserve st has_body) fs o (h.sender o) in
    (
      refl,
      record {
        next_number = k.next;
        stream = (
          s,
          ap (find id) k.streams ∙ find-put id id s st.streams ∙ rw (same_key id),
          refl,
          refl,
        );
        within = omega (
          arith,
          ap (λ (d : Dict StreamState). odd_keys (keys d)) k.streams,
          odd_keys-put id s st.streams,
          ltb→lt (active_streams st) st.remote.max_concurrent_streams c,
        );
        sends = (fs, k.sent, carries);
      },
    )

open_stream-Opens :
    (to_uppercase : List ℕ → List ℕ) (st : ConnState) (init : RequestInit) (has_body : Bool)
    → IsConn st
    → st.closed ≡ false
    → can_open_stream st ≡ true
    → Opens st
        (encode (build_request_headers to_uppercase init))
        (not has_body)
        (open_stream to_uppercase st init has_body)
unfolding open_stream
open_stream-Opens to_uppercase st init has_body h o c =
    let id = st.next_stream_id in
    let block = encode (build_request_headers to_uppercase init) in
    let (fs, e, carries) =
      send_headers-Carries st.remote.max_frame_size id block (not has_body)
        (omega (arith, h.peer.frame_low)) in
    subst (λ m. Opens st block (not has_body) (sent_frames (reserve st has_body) id m)) (sym e)
      (sent_frames-Opens st block has_body fs h o c carries)

-- A request on an open connection, to which the peer has not said goodbye and that has a free slot,
-- is opened on the next stream number: the stream is entered with the sender of its channel, and is
-- closed on our side if there is no body; the streams stay within the peer's limit; and the frames
-- that are sent, and nothing else, carry the block of the request's headers as RFC 9113 wants it.
pub request-IsOpened :
    (to_uppercase : List ℕ → List ℕ) (st : ConnState) (init : RequestInit) (has_body : Bool)
    (ticket : ℕ)
    → IsConn st
    → st.closed ≡ false
    → st.goaway_received ≡ false
    → can_open_stream st ≡ true
    → ((request to_uppercase st init has_body ticket).0 ≡ ok (Admission.opened st.next_stream_id))
      × IsOpened st
          (request to_uppercase st init has_body ticket).1
          (encode (build_request_headers to_uppercase init))
          (not has_body)
unfolding request
request-IsOpened to_uppercase st init has_body ticket h o g c =
    let Good = Opens st (encode (build_request_headers to_uppercase init)) (not has_body) in
    if_case Good st.closed (λ t. absurd (true-ne-false (sym t ∙ o)))
      λ _.
        if_case Good st.goaway_received (λ t. absurd (true-ne-false (sym t ∙ g)))
          λ _.
            if_case Good (can_open_stream st)
              (λ _. open_stream-Opens to_uppercase st init has_body h o c)
              (λ f. absurd (true-ne-false (sym c ∙ f)))
