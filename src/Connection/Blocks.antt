-- ===== src/Connection/Blocks.antt =====
-- rust/crates/h2ts-client/src/connection.rs: header blocks: `complete_header_block`, and the arms of
-- `dispatch` that lead to it.
use h2ts.Common.{
  ℕ, ◌+◌, Bool, true, false, ◌==◌, ltb, if◌then◌else◌, List, [], ◌∷◌, ◌++◌, Option, some, none,
  length,
}
use mathlib.Core.List.{flatten}
use h2ts.Common.Dict.{find, put}
use h2ts.Errors.{H2Error, ErrorCode, Outcome, ok, err, panic, value, from_value, text}
use h2ts.Errors
use h2ts.Frames.Types.{Frame}
use h2ts.Hpack.Decoder.{Header, HpackDecoder, decode}
use h2ts.Connection.State.{
  ConnState, StreamState, Cell, HeaderBlockKind, PendingHeaderBlock, max_header_block_size,
  send_frame, set_cell,
}
use h2ts.Connection.Streams.{receive_headers}
use h2ts.Connection.Control.{retire_if_fully_closed}

-- A `Result<(), H2Error>` with the state behind it: what was done before an error stays done.
abbrev pub Done : Type 0
Done = Outcome (Unit {0}) × ConnState

abbrev pub done : ConnState → Done
done st = (ok tt, st)

abbrev pub protocol_error : Errors.Message → H2Error
protocol_error m = Errors.new ErrorCode.protocol_error m

-- The stream's state and cell, put back.
abbrev pub put_stream : ConnState → ℕ → StreamState × Cell → ConnState
put_stream st id (s, c) = set_cell (record st { streams = put id s st.streams }) id c

abbrev pub close_remote : Bool → StreamState × Cell → StreamState × Cell
close_remote end_stream (s, c) =
    if end_stream then (record s { remote_closed = true }, c) else (s, c)

abbrev pub retire_if : Bool → ConnState → ℕ → ConnState
retire_if end_stream st id = if end_stream then retire_if_fully_closed st id else st

abbrev pub response_block :
    ConnState → PendingHeaderBlock → List Header → Option StreamState → ConnState
response_block st pb headers none = st
response_block st pb headers (some s) =
    put_stream st pb.stream_id
      (close_remote pb.end_stream (receive_headers s (st.cells pb.stream_id) headers pb.end_stream))

abbrev pub or_zero : Option ℕ → ℕ
or_zero none = 0
or_zero (some n) = n

-- A push is refused.
abbrev pub push_block : ConnState → ℕ → ConnState
push_block st promised =
    let highest = if ltb st.highest_promised promised then promised else st.highest_promised in
    send_frame (record st { highest_promised = highest })
      (Frame.rst_stream promised (value ErrorCode.refused_stream))

abbrev pub block_of_kind :
    HeaderBlockKind → ConnState → PendingHeaderBlock → List Header → ConnState
block_of_kind HeaderBlockKind.response st pb headers =
    retire_if pb.end_stream (response_block st pb headers (find pb.stream_id st.streams))
      pb.stream_id
block_of_kind HeaderBlockKind.push st pb headers = push_block st (or_zero pb.promised_stream_id)

abbrev pub decoded : ConnState → PendingHeaderBlock → Outcome (List Header × HpackDecoder) → Done
decoded st pb (ok (headers, d)) =
    done (block_of_kind pb.kind (record st { decoder = d }) pb headers)
decoded st pb (err e) = (err e, st)
decoded st pb panic = (panic, st)

abbrev pub complete_pending : ℕ → ConnState → Option PendingHeaderBlock → Done
complete_pending bits st none = (panic, st)
complete_pending bits st (some pb) =
    decoded (record st { pending_header_block = none }) pb
      (decode bits st.decoder (flatten pb.fragments))

-- A decoder that fails ends the connection, so that its table behind an error is not modelled.
unfoldable pub complete_header_block : ℕ → ConnState → Done
unfolding receive_headers send_frame retire_if_fully_closed value
complete_header_block bits st = complete_pending bits st st.pending_header_block

abbrev pub too_large : Option PendingHeaderBlock → Bool
too_large none = false
too_large (some pb) = ltb max_header_block_size pb.size

-- `guard_header_block_size`, and `complete_header_block` if the frame ends the block.
unfoldable pub guard_and_complete : ℕ → ConnState → Bool → Done
guard_and_complete bits st end_headers =
    if too_large st.pending_header_block
    then (
      err (Errors.new ErrorCode.enhance_your_calm (text "header block exceeds the maximum size")),
      st,
    )
    else if end_headers
    then complete_header_block bits st
    else done st

abbrev pub start_block : ConnState → PendingHeaderBlock → ConnState
start_block st pb = record st { pending_header_block = some pb }

abbrev pub extended : PendingHeaderBlock → List ℕ → PendingHeaderBlock
extended pb fragment = record pb {
  size = pb.size + length fragment;
  fragments = pb.fragments ++ (fragment ∷ []);
}

unfoldable pub on_continuation :
    ℕ → ConnState → Option PendingHeaderBlock → ℕ → List ℕ → Bool → Done
unfolding guard_and_complete
on_continuation bits st none stream_id fragment end_headers =
    (err (protocol_error (text "unexpected CONTINUATION")), st)
on_continuation bits st (some pb) stream_id fragment end_headers =
    if pb.stream_id == stream_id
    then guard_and_complete bits (start_block st (extended pb fragment)) end_headers
    else (err (protocol_error (text "unexpected CONTINUATION")), st)

abbrev pub block_start : ConnState → HeaderBlockKind → ℕ → Bool → Option ℕ → List ℕ → ConnState
block_start st kind id end_stream promised fragment = start_block st record {
  stream_id = id;
  kind = kind;
  end_stream = end_stream;
  promised_stream_id = promised;
  fragments = fragment ∷ [];
  size = length fragment;
}
