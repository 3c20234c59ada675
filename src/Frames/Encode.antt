-- ===== src/Frames/Encode.antt =====
-- rust/crates/h2ts-client/src/frames.rs: `encode_body` and `serialize_frame`.
-- `x & 0x7fff_ffff` is `x % 2 ^ 31`; `dep | 0x8000_0000` is a sum, as `dep` is below 2 ^ 31.
use h2ts.Common.{
  ℕ, ◌+◌, ◌%◌, ◌^◌, bit_or, Bool, if◌then◌else◌, List, [], ◌∷◌, ◌++◌, Option, none, some, length,
}
use h2ts.Bytes.{u16_bytes, u24_bytes, u32_bytes}
use h2ts.Frames.Types.{Frame, Priority, Settings}
use h2ts.Frames.Types

pub record Encoded : Type 0 where
  pub type_id : ℕ
  pub flags : ℕ
  pub stream_id : ℕ
  pub payload : List ℕ

abbrev flag : Bool → ℕ → ℕ
flag b mask = if b then mask else 0

-- `(p.weight - 1) as u8`: the subtraction is of `u16`, and wraps.
abbrev pub priority_bytes : Priority → List ℕ
priority_bytes p =
    let dep = p.stream_dependency % 2 ^ 31 in
    u32_bytes (if p.exclusive then dep + 2 ^ 31 else dep)
    ++ ((p.weight + 0xffff) % 2 ^ 16 % 2 ^ 8) ∷ []

abbrev pub setting_bytes : ℕ → Option ℕ → List ℕ
setting_bytes id none = []
setting_bytes id (some v) = u16_bytes id ++ u32_bytes v

abbrev pub bit_of : Option Bool → Option ℕ
bit_of none = none
bit_of (some b) = some (if b then 1 else 0)

abbrev pub settings_bytes : Settings → List ℕ
settings_bytes s =
    setting_bytes 0x1 s.header_table_size
    ++ (setting_bytes 0x2 (bit_of s.enable_push)
        ++ (setting_bytes 0x3 s.max_concurrent_streams
            ++ (setting_bytes 0x4 s.initial_window_size
                ++ (setting_bytes 0x5 s.max_frame_size
                    ++ setting_bytes 0x6 s.max_header_list_size))))

-- The HEADERS arm: END_HEADERS, then END_STREAM and PRIORITY are or-ed in.
unfoldable pub encode_headers : ℕ → List ℕ → Bool → Bool → Option Priority → Encoded
encode_headers id fragment end_stream end_headers none = record {
  type_id = Types.headers_type;
  flags = bit_or (flag end_headers Types.end_headers_flag) (flag end_stream Types.end_stream_flag);
  stream_id = id;
  payload = fragment;
}
encode_headers id fragment end_stream end_headers (some p) = record {
  type_id = Types.headers_type;
  flags =
      bit_or
        (bit_or (flag end_headers Types.end_headers_flag) (flag end_stream Types.end_stream_flag))
        Types.priority_flag;
  stream_id = id;
  payload = priority_bytes p ++ fragment;
}

unfoldable pub encode_body : Frame → Encoded
unfolding encode_headers
encode_body (Frame.data_frame id bytes end_stream) = record {
  type_id = Types.data_type;
  flags = flag end_stream Types.end_stream_flag;
  stream_id = id;
  payload = bytes;
}
encode_body (Frame.headers id fragment end_stream end_headers p) =
    encode_headers id fragment end_stream end_headers p
encode_body (Frame.priority id p) = record {
  type_id = Types.priority_type;
  flags = 0;
  stream_id = id;
  payload = priority_bytes p;
}
encode_body (Frame.rst_stream id error_code) = record {
  type_id = Types.rst_stream_type;
  flags = 0;
  stream_id = id;
  payload = u32_bytes error_code;
}
encode_body (Frame.settings ack s) = record {
  type_id = Types.settings_type;
  flags = flag ack Types.ack_flag;
  stream_id = 0;
  payload = settings_bytes s;
}
encode_body (Frame.push_promise id promised fragment end_headers) = record {
  type_id = Types.push_promise_type;
  flags = flag end_headers Types.end_headers_flag;
  stream_id = id;
  payload = u32_bytes (promised % 2 ^ 31) ++ fragment;
}
encode_body (Frame.ping ack opaque_data) = record {
  type_id = Types.ping_type;
  flags = flag ack Types.ack_flag;
  stream_id = 0;
  payload = opaque_data;
}
encode_body (Frame.goaway last_stream_id error_code debug_data) = record {
  type_id = Types.goaway_type;
  flags = 0;
  stream_id = 0;
  payload = u32_bytes (last_stream_id % 2 ^ 31) ++ (u32_bytes error_code ++ debug_data);
}
encode_body (Frame.window_update id increment) = record {
  type_id = Types.window_update_type;
  flags = 0;
  stream_id = id;
  payload = u32_bytes (increment % 2 ^ 31);
}
encode_body (Frame.continuation id fragment end_headers) = record {
  type_id = Types.continuation_type;
  flags = flag end_headers Types.end_headers_flag;
  stream_id = id;
  payload = fragment;
}

-- The nine bytes of header before the payload.
abbrev pub header_bytes : Encoded → List ℕ
header_bytes e =
    u24_bytes (length e.payload % 2 ^ 32)
    ++ (e.type_id ∷ e.flags ∷ u32_bytes (e.stream_id % 2 ^ 31))

unfoldable pub serialize_frame : Frame → List ℕ
serialize_frame frame = let e = encode_body frame in header_bytes e ++ e.payload
