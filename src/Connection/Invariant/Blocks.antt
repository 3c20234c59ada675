-- ===== src/Connection/Invariant/Blocks.antt =====
-- rust/crates/h2ts-client/src/connection.rs: header blocks keep the invariant.
use h2ts.Common.{
  ℕ, ◌≤◌, ◌≡◌, refl, sym, ap, Bool, false, ◌==◌, ltb, ltb-false→le, if_case, List, [], ◌∷◌, Option,
  some, none, arith, length, length-append, append-nil, subst,
}
use mathlib.Core.List.{flatten}
use h2ts.Common.Flatten.{flatten_one}
use h2ts.Common.Dict.{find, Each-find}
use h2ts.Errors.{ErrorCode, Outcome, ok, err, panic, value}
use h2ts.Outcomes.{Yields}
use h2ts.Frames.Types.{Frame}
use h2ts.Hpack.Decoder.{Header, HpackDecoder, decode}
use h2ts.Hpack.Table.{IsTable}
use h2ts.Hpack.Totality.{decode-Yields}
use h2ts.Connection.State.{
  ConnState, StreamState, HeaderBlockKind, PendingHeaderBlock, max_header_block_size,
}
use h2ts.Connection.Streams.{receive_headers}
use h2ts.Connection.Blocks.{
  response_block, push_block, block_of_kind, decoded, complete_header_block, start_block,
  guard_and_complete, extended, on_continuation, block_start, retire_if, or_zero,
}
use h2ts.Connection.Live.{
  IsOpen, found_waits, found-IsHeaded, receive_headers-IsHeaded, receive_headers-waits,
}
use h2ts.Connection.Invariant.{
  core-IsConn, IsBlock, IsConn, IsConnUnbounded, same-IsPeer, send_frame-IsConn,
}
use h2ts.Connection.Invariant.Teardown.{unbounded}
use h2ts.Connection.Invariant.Windows.{Keeps}
use h2ts.Connection.Invariant.Frames.{closing-IsConn, retire_if-IsConn, same_ends}

response_block-IsConn :
    (st : ConnState) (pb : PendingHeaderBlock) (headers : List Header) (o : Option StreamState)
    → IsConn st
    → find pb.stream_id st.streams ≡ o
    → IsConn (retire_if pb.end_stream (response_block st pb headers o) pb.stream_id)
response_block-IsConn st pb headers none h f = retire_if-IsConn st pb.stream_id pb.end_stream h
response_block-IsConn st pb headers (some s) h f =
    let id = pb.stream_id in
    let c = st.cells id in
    let r = receive_headers s c headers pb.end_stream in
    let headed = found-IsHeaded st.streams st.cells id s h.live f in
    closing-IsConn st id s r.0 r.1 pb.end_stream h f
      (receive_headers-IsHeaded s c headers pb.end_stream id headed)
      (receive_headers-waits s c headers pb.end_stream id headed
        (found_waits st.streams st.cells id s h.live f))
      (same_ends s c headers pb.end_stream id (Each-find IsOpen id s st.streams h.each f))

promised-IsConn : (st : ConnState) (n : ℕ) → IsConn st → IsConn (record st { highest_promised = n })
promised-IsConn st n h =
    core-IsConn IsOpen st (record st { highest_promised = n }) h refl refl refl refl refl refl refl
      refl refl

push_block-IsConn : (st : ConnState) (promised : ℕ) → IsConn st → IsConn (push_block st promised)
push_block-IsConn st promised h =
    send_frame-IsConn IsOpen _ (promised-IsConn st _ h)
      (Frame.rst_stream promised (value ErrorCode.refused_stream))

block_of_kind-IsConn :
    (kind : HeaderBlockKind) (st : ConnState) (pb : PendingHeaderBlock) (headers : List Header)
    → IsConn st
    → IsConn (block_of_kind kind st pb headers)
block_of_kind-IsConn HeaderBlockKind.response st pb headers h =
    response_block-IsConn st pb headers (find pb.stream_id st.streams) h refl
block_of_kind-IsConn HeaderBlockKind.push st pb headers h =
    push_block-IsConn st (or_zero pb.promised_stream_id) h

decoder-IsConn :
    (st : ConnState) (d : HpackDecoder) → IsConn st → IsTable d → IsConn (record st { decoder = d })
decoder-IsConn st d h t = record {
  table = record { counted = t.counted; within = t.within; agreed = t.agreed };
  peer = same-IsPeer st (record st { decoder = d }) refl h.peer;
  block = h.block;
  live = h.live;
  sender = h.sender;
  each = h.each;
  torn = λ c.
      let k = h.torn c in
      record {
        no_streams = k.no_streams;
        no_sender = k.no_sender;
        no_pings = k.no_pings;
        no_waiters = k.no_waiters;
      };
}

decoded-Keeps :
    (st : ConnState) (pb : PendingHeaderBlock) (o : Outcome (List Header × HpackDecoder))
    → IsConn st
    → Yields (λ (p : List Header × HpackDecoder). IsTable p.1) o
    → Keeps (decoded st pb o)
decoded-Keeps st pb (ok (headers, d)) h y =
    block_of_kind-IsConn pb.kind (record st { decoder = d }) pb headers (decoder-IsConn st d h y)
decoded-Keeps st pb (err e) h y = unbounded st h
decoded-Keeps st pb panic h y = y

-- The size that is kept with a block is the length of its fragments.
abbrev pub IsCounted : PendingHeaderBlock → Type 0
IsCounted pb = pb.size ≡ length (flatten pb.fragments)

complete-Keeps :
    (bits : ℕ) (st : ConnState) (pb : PendingHeaderBlock)
    → IsConnUnbounded st
    → Keeps (complete_header_block bits (start_block st pb))
unfolding complete_header_block
complete-Keeps bits st pb h =
    decoded-Keeps (record st { pending_header_block = none }) pb
      (decode bits st.decoder (flatten pb.fragments)) h
      (decode-Yields bits st.decoder (flatten pb.fragments) h.table)

bounded-IsConn :
    (st : ConnState) (pb : PendingHeaderBlock)
    → IsConnUnbounded st
    → (st.closed ≡ false → IsCounted pb)
    → pb.size ≤ max_header_block_size
    → IsConn (start_block st pb)
bounded-IsConn st pb h counted small = record {
  table = h.table;
  peer = same-IsPeer (record st { pending_header_block = none }) (start_block st pb) refl h.peer;
  block = λ o. (counted o, small);
  live = h.live;
  sender = h.sender;
  each = h.each;
  torn = λ c.
      let t = h.torn c in
      record {
        no_streams = t.no_streams;
        no_sender = t.no_sender;
        no_pings = t.no_pings;
        no_waiters = t.no_waiters;
      };
}

guard-Keeps :
    (bits : ℕ) (st : ConnState) (pb : PendingHeaderBlock) (end_headers : Bool)
    → IsConnUnbounded st
    → (st.closed ≡ false → IsCounted pb)
    → Keeps (guard_and_complete bits (start_block st pb) end_headers)
unfolding guard_and_complete
guard-Keeps bits st pb end_headers h counted =
    if_case Keeps (ltb max_header_block_size pb.size) (λ big. h)
      λ small.
        if_case Keeps end_headers (λ e. complete-Keeps bits st pb h)
          (λ e. bounded-IsConn st pb h counted (ltb-false→le max_header_block_size pb.size small))

pub first-Keeps :
    (bits : ℕ) (st : ConnState) (kind : HeaderBlockKind) (id : ℕ) (end_stream : Bool)
    (promised : Option ℕ) (fragment : List ℕ) (end_headers : Bool)
    → IsConn st
    → Keeps
        (guard_and_complete bits (block_start st kind id end_stream promised fragment) end_headers)
unfolding flatten
first-Keeps bits st kind id end_stream promised fragment end_headers h =
    guard-Keeps bits st
      (record {
        stream_id = id;
        kind = kind;
        end_stream = end_stream;
        promised_stream_id = promised;
        fragments = fragment ∷ [];
        size = length fragment;
      })
      end_headers (unbounded st h) (λ o. sym (ap length (append-nil fragment)))

extended-IsCounted :
    (pb : PendingHeaderBlock) (fragment : List ℕ) → IsCounted pb → IsCounted (extended pb fragment)
extended-IsCounted pb fragment h = omega (
  arith,
  h,
  ap length (flatten_one pb.fragments fragment),
  length-append (flatten pb.fragments) fragment,
)

pub on_continuation-Keeps :
    (bits : ℕ) (st : ConnState) (o : Option PendingHeaderBlock) (id : ℕ) (fragment : List ℕ)
    (end_headers : Bool)
    → IsConn st
    → st.pending_header_block ≡ o
    → Keeps (on_continuation bits st o id fragment end_headers)
unfolding on_continuation
on_continuation-Keeps bits st none id fragment end_headers h f = unbounded st h
on_continuation-Keeps bits st (some pb) id fragment end_headers h f =
    if_case Keeps (pb.stream_id == id)
      (λ same.
        guard-Keeps bits st (extended pb fragment) end_headers (unbounded st h)
          (λ o. extended-IsCounted pb fragment (subst IsBlock f (h.block o)).0))
      (λ other. unbounded st h)
