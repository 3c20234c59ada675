-- ===== src/Frames/RoundTrip.antt =====
-- rust/crates/h2ts-client/src/frames.rs: `parse_payload` reads back what `encode_body` wrote.
use h2ts.Common.{
  ℕ, ◌+◌, ◌/◌, ◌%◌, ◌^◌, ◌≤◌, ◌<◌, ◌≡◌, ap, Bool, true, false, List, ◌++◌, Option, none, some,
  arith, length, take_self,
}
use h2ts.Errors.{H2Error, ok}
use h2ts.Bytes.{from_u32}
use h2ts.Frames.Types.{Frame, Priority, no_settings}
use h2ts.Frames.Encode.{encode_body, priority_bytes}
use h2ts.Frames.SettingsRoundTrip.{IsSettings, settings-roundtrip, ack-roundtrip}
use h2ts.Frames.Parse.{
  parse_data, parse_headers, parse_priority, parse_rst_stream, parse_push_promise, parse_ping,
  parse_goaway, parse_window_update, parse_continuation, parse_payload, known, read_fragment,
  read_padded, read_priority,
}

-- The values that the fields' types allow, less the reserved bits.
abbrev pub IsId : ℕ → Type 0
IsId id = id < 2 ^ 31

abbrev pub IsU32 : ℕ → Type 0
IsU32 v = v < 2 ^ 32

abbrev pub IsPriority : Priority → Type 0
IsPriority p = IsId p.stream_dependency × (1 ≤ p.weight) × (p.weight ≤ 256)

abbrev pub IsOptional : Option Priority → Type 0
IsOptional none = Unit {0}
IsOptional (some p) = IsPriority p

abbrev pub IsFrame : Frame → Type 0
IsFrame (Frame.data_frame id bytes end_stream) = IsId id
IsFrame (Frame.headers id fragment end_stream end_headers p) = IsId id × IsOptional p
IsFrame (Frame.priority id p) = IsId id × IsPriority p
IsFrame (Frame.rst_stream id code) = IsId id × IsU32 code
IsFrame (Frame.settings true s) = s ≡ no_settings
IsFrame (Frame.settings false s) = IsSettings s
IsFrame (Frame.push_promise id promised fragment end_headers) = IsId id × IsId promised
IsFrame (Frame.ping ack opaque_data) = length opaque_data ≡ 8
IsFrame (Frame.goaway last code debug_data) = IsId last × IsU32 code
IsFrame (Frame.window_update id increment) = IsId id × IsId increment
IsFrame (Frame.continuation id fragment end_headers) = IsId id

u32_roundtrip :
    (v : ℕ)
    → IsU32 v
    → from_u32 (v / 2 ^ 24 % 2 ^ 8) (v / 2 ^ 16 % 2 ^ 8) (v / 2 ^ 8 % 2 ^ 8) (v % 2 ^ 8) ≡ v
u32_roundtrip v h = omega arith

read_padded_self : (r : List ℕ) → read_padded r (length r) false ≡ ok r
unfolding read_padded
read_padded_self r = ground (arith, take_self r)

read_fragment_self :
    (r : List ℕ) (len overhead : ℕ) (e : H2Error)
    → len ≡ length r + overhead
    → read_fragment r len overhead e ≡ ok r
unfolding read_fragment
read_fragment_self r len overhead e h = ground (arith, take_self r)

read_priority_bytes :
    (p : Priority) (r : List ℕ) → IsPriority p → read_priority (priority_bytes p ++ r) ≡ ok (p, r)
unfolding read_priority
read_priority_bytes p r h = ground arith

data-roundtrip :
    (id : ℕ) (bytes : List ℕ) (end_stream : Bool)
    → let e = encode_body (Frame.data_frame id bytes end_stream) in
      parse_data e.flags id e.payload ≡ ok (Frame.data_frame id bytes end_stream)
unfolding encode_body parse_data
data-roundtrip id bytes true = ground (arith, take_self bytes)
data-roundtrip id bytes false = ground (arith, take_self bytes)

headers-roundtrip :
    (id : ℕ) (fragment : List ℕ) (end_stream end_headers : Bool) (p : Option Priority)
    → IsOptional p
    → let e = encode_body (Frame.headers id fragment end_stream end_headers p) in
      parse_headers e.flags id e.payload ≡ ok (Frame.headers id fragment end_stream end_headers p)
unfolding encode_body parse_headers
headers-roundtrip id fragment true true none h = ground (arith, take_self fragment)
headers-roundtrip id fragment true false none h = ground (arith, take_self fragment)
headers-roundtrip id fragment false true none h = ground (arith, take_self fragment)
headers-roundtrip id fragment false false none h = ground (arith, take_self fragment)
headers-roundtrip id fragment true true (some p) h = ground (arith, take_self fragment)
headers-roundtrip id fragment true false (some p) h = ground (arith, take_self fragment)
headers-roundtrip id fragment false true (some p) h = ground (arith, take_self fragment)
headers-roundtrip id fragment false false (some p) h = ground (arith, take_self fragment)

push_promise-roundtrip :
    (id promised : ℕ) (fragment : List ℕ) (end_headers : Bool)
    → IsId promised
    → let e = encode_body (Frame.push_promise id promised fragment end_headers) in
      parse_push_promise e.flags id e.payload
      ≡ ok (Frame.push_promise id promised fragment end_headers)
unfolding encode_body parse_push_promise
push_promise-roundtrip id promised fragment true h = ground (arith, take_self fragment)
push_promise-roundtrip id promised fragment false h = ground (arith, take_self fragment)

goaway-roundtrip :
    (last code : ℕ) (debug_data : List ℕ)
    → IsId last
    → IsU32 code
    → parse_goaway (encode_body (Frame.goaway last code debug_data)).payload
      ≡ ok (Frame.goaway last code debug_data)
unfolding encode_body parse_goaway
goaway-roundtrip last code debug_data hl hc = ground (arith, take_self debug_data)

ping-roundtrip :
    (ack : Bool) (opaque_data : List ℕ)
    → length opaque_data ≡ 8
    → let e = encode_body (Frame.ping ack opaque_data) in
      parse_ping e.flags e.payload ≡ ok (Frame.ping ack opaque_data)
unfolding encode_body parse_ping
ping-roundtrip true opaque_data h = ground (arith, take_self opaque_data)
ping-roundtrip false opaque_data h = ground (arith, take_self opaque_data)

continuation-roundtrip :
    (id : ℕ) (fragment : List ℕ) (end_headers : Bool)
    → let e = encode_body (Frame.continuation id fragment end_headers) in
      parse_continuation e.flags id e.payload ≡ ok (Frame.continuation id fragment end_headers)
unfolding encode_body parse_continuation
continuation-roundtrip id fragment true = ground (arith, take_self fragment)
continuation-roundtrip id fragment false = ground (arith, take_self fragment)

priority-roundtrip :
    (id : ℕ) (p : Priority)
    → IsPriority p
    → parse_priority id (encode_body (Frame.priority id p)).payload ≡ ok (Frame.priority id p)
unfolding encode_body parse_priority
priority-roundtrip id p h = ground arith

rst_stream-roundtrip :
    (id code : ℕ)
    → IsU32 code
    → parse_rst_stream id (encode_body (Frame.rst_stream id code)).payload
      ≡ ok (Frame.rst_stream id code)
unfolding encode_body parse_rst_stream
rst_stream-roundtrip id code h = ground arith

window_update-roundtrip :
    (id increment : ℕ)
    → IsId increment
    → parse_window_update id (encode_body (Frame.window_update id increment)).payload
      ≡ ok (Frame.window_update id increment)
unfolding encode_body parse_window_update
window_update-roundtrip id increment h = ground arith

mod_id : (id : ℕ) → IsId id → id % 2 ^ 31 ≡ id
mod_id id h = omega arith

-- `parse_payload` reads back every frame whose fields fit the wire: type, flags, stream and payload
-- as `encode_body` wrote them give that frame again.
pub parse_payload-encode_body :
    (f : Frame)
    → IsFrame f
    → (let e = encode_body f in
        parse_payload e.type_id e.flags (e.stream_id % 2 ^ 31) e.payload ≡ ok (some f))
unfolding encode_body parse_payload
parse_payload-encode_body (Frame.data_frame id bytes end_stream) h =
    rw (mod_id id h) (ap known (data-roundtrip id bytes end_stream))
parse_payload-encode_body (Frame.headers id fragment end_stream end_headers none) h =
    rw (mod_id id h.0) (ap known (headers-roundtrip id fragment end_stream end_headers none tt))
parse_payload-encode_body (Frame.headers id fragment end_stream end_headers (some p)) h =
    rw (mod_id id h.0)
      (ap known (headers-roundtrip id fragment end_stream end_headers (some p) h.1))
parse_payload-encode_body (Frame.priority id p) h =
    rw (mod_id id h.0) (ap known (priority-roundtrip id p h.1))
parse_payload-encode_body (Frame.rst_stream id code) h =
    rw (mod_id id h.0) (ap known (rst_stream-roundtrip id code h.1))
parse_payload-encode_body (Frame.settings true s) h = rw h (ap known ack-roundtrip)
parse_payload-encode_body (Frame.settings false s) h = ap known (settings-roundtrip s h)
parse_payload-encode_body (Frame.push_promise id promised fragment end_headers) h =
    rw (mod_id id h.0) (ap known (push_promise-roundtrip id promised fragment end_headers h.1))
parse_payload-encode_body (Frame.ping ack opaque_data) h =
    ap known (ping-roundtrip ack opaque_data h)
parse_payload-encode_body (Frame.goaway last code debug_data) h =
    ap known (goaway-roundtrip last code debug_data h.0 h.1)
parse_payload-encode_body (Frame.window_update id increment) h =
    rw (mod_id id h.0) (ap known (window_update-roundtrip id increment h.1))
parse_payload-encode_body (Frame.continuation id fragment end_headers) h =
    rw (mod_id id h) (ap known (continuation-roundtrip id fragment end_headers))
