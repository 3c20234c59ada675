-- ===== src/Frames/Parse.antt =====
-- rust/crates/h2ts-client/src/frames.rs: `read_padded` and `parse_payload`, an arm to a function.
-- `dep & 0x7fff_ffff` is `dep % 2 ^ 31`; `dep & 0x8000_0000 != 0` tests bit 31 of a `u32`.
use h2ts.Common.{
  ℕ, zero, suc, ◌+◌, ◌-◌, ◌/◌, ◌%◌, ◌^◌, Bool, true, false, not, ◌&&◌, if◌then◌else◌, ltb, ◌==◌,
  has_bits, List, Option, none, some, length,
}
use h2ts.Errors
use h2ts.Errors.{ErrorCode, H2Error, Outcome, ok, err, panic, text, ok_or, reject, ◌>>=◌, ◌>>◌}
use h2ts.Bytes.{remaining, read_u8, read_u16, read_u32, read_bytes}
use h2ts.Frames.Types
use h2ts.Frames.Types.{Frame, Priority, Settings, no_settings}

abbrev protocol : Errors.Message → H2Error
protocol m = Errors.new ErrorCode.protocol_error m

abbrev frame_size : Errors.Message → H2Error
frame_size m = Errors.new ErrorCode.frame_size_error m

abbrev pub truncated : H2Error
truncated = protocol (text "truncated frame payload")

-- `a.checked_sub(b)`
abbrev checked_sub : ℕ → ℕ → Option ℕ
checked_sub a b = if ltb a b then none else some (a - b)

abbrev bit31 : ℕ → Bool
bit31 dep = (dep / 2 ^ 31 % 2) == 1

unfoldable pub read_padded : List ℕ → ℕ → Bool → Outcome (List ℕ)
read_padded r len false = do (bytes, _) ← ok_or (read_bytes r len) truncated; ok bytes
read_padded r len true = do
  reject (ltb len 1) (protocol (text "padded frame missing pad length"))
  (pad_length, r1) ← read_u8 r
  data_length ←
      ok_or (checked_sub (len - 1) pad_length) (protocol (text "pad length exceeds frame payload"))
  (bytes, _) ← ok_or (read_bytes r1 data_length) truncated
  ok bytes

unfoldable pub parse_data : ℕ → ℕ → List ℕ → Outcome Frame
unfolding read_padded
parse_data flag_bits id payload = do
  bytes ← read_padded payload (length payload) (has_bits flag_bits Types.padded_flag)
  ok (Frame.data_frame id bytes (has_bits flag_bits Types.end_stream_flag))

-- The pad length that a padded HEADERS or PUSH_PROMISE begins with.
unfoldable pub read_pad_length : List ℕ → ℕ → Bool → H2Error → Outcome (ℕ × List ℕ)
read_pad_length r len false e = ok (0, r)
read_pad_length r len true e = do reject (ltb len 1) e; read_u8 r

-- Five bytes of priority.
unfoldable pub read_priority : List ℕ → Outcome (Priority × List ℕ)
read_priority r = do
  (dep, r1) ← read_u32 r
  (w, r2) ← read_u8 r1
  ok (record { stream_dependency = dep % 2 ^ 31; weight = w + 1; exclusive = bit31 dep }, r2)

unfoldable pub read_optional_priority : List ℕ → Bool → Outcome (Option Priority × List ℕ)
unfolding read_priority
read_optional_priority r false = ok (none, r)
read_optional_priority r true = do
  reject (ltb (remaining r) 5) (protocol (text "HEADERS priority truncated"))
  (p, r1) ← read_priority r
  ok (some p, r1)

-- `frag_length` and the fragment: what the overhead leaves of the payload.
unfoldable pub read_fragment : List ℕ → ℕ → ℕ → H2Error → Outcome (List ℕ)
read_fragment r len overhead e = do
  frag_length ← ok_or (checked_sub len overhead) e
  (fragment, _) ← ok_or (read_bytes r frag_length) truncated
  ok fragment

unfoldable pub parse_headers : ℕ → ℕ → List ℕ → Outcome Frame
unfolding read_pad_length read_optional_priority read_fragment
parse_headers flag_bits id payload = do
  let padded = has_bits flag_bits Types.padded_flag
  let has_priority = has_bits flag_bits Types.priority_flag
  (pad_length, r) ←
      read_pad_length payload (length payload) padded (protocol (text "invalid HEADERS padding"))
  (p, r1) ← read_optional_priority r has_priority
  fragment ←
      read_fragment r1 (length payload)
        ((if padded then 1 else 0) + (if has_priority then 5 else 0) + pad_length)
        (protocol (text "invalid HEADERS padding"))
  ok (
      Frame.headers id fragment (has_bits flag_bits Types.end_stream_flag)
        (has_bits flag_bits Types.end_headers_flag) p)

unfoldable pub parse_priority : ℕ → List ℕ → Outcome Frame
unfolding read_priority
parse_priority id payload = do
  reject (not (length payload == 5))
      (Errors.stream ErrorCode.frame_size_error (text "PRIORITY must be 5 bytes") id)
  (p, _) ← read_priority payload
  ok (Frame.priority id p)

unfoldable pub parse_rst_stream : ℕ → List ℕ → Outcome Frame
parse_rst_stream id payload = do
  reject (not (length payload == 4)) (frame_size (text "RST_STREAM must be 4 bytes"))
  (code, _) ← read_u32 payload
  ok (Frame.rst_stream id code)

-- The `match id` of the settings loop; an unknown parameter is ignored.
unfoldable pub set_parameter : Settings → ℕ → ℕ → Settings
set_parameter s id v =
    if id == 0x1
    then record s { header_table_size = some v }
    else if id == 0x2
    then record s { enable_push = some (not (v == 0)) }
    else if id == 0x3
    then record s { max_concurrent_streams = some v }
    else if id == 0x4
    then record s { initial_window_size = some v }
    else if id == 0x5
    then record s { max_frame_size = some v }
    else if id == 0x6
    then record s { max_header_list_size = some v }
    else s

-- `for _ in 0..n`
unfoldable pub read_parameters : ℕ → Settings → List ℕ → Outcome Settings
unfolding set_parameter
read_parameters zero s r = ok s
read_parameters (suc n) s r = do
  (id, r1) ← read_u16 r
  (v, r2) ← read_u32 r1
  read_parameters n (set_parameter s id v) r2

unfoldable pub parse_settings : ℕ → List ℕ → Outcome Frame
unfolding read_parameters
parse_settings flag_bits payload = do
  let ack = has_bits flag_bits Types.ack_flag
  reject (ack && not (length payload == 0)) (frame_size (text "SETTINGS ACK must be empty"))
  reject (not ((length payload % 6) == 0)) (frame_size (text "SETTINGS length not multiple of 6"))
  s ← read_parameters (length payload / 6) no_settings payload
  ok (Frame.settings ack s)

unfoldable pub parse_push_promise : ℕ → ℕ → List ℕ → Outcome Frame
unfolding read_pad_length read_fragment
parse_push_promise flag_bits id payload = do
  let padded = has_bits flag_bits Types.padded_flag
  (pad_length, r) ←
      read_pad_length payload (length payload) padded
        (protocol (text "invalid PUSH_PROMISE padding"))
  reject (ltb (remaining r) 4) (protocol (text "PUSH_PROMISE truncated"))
  (promised, r1) ← read_u32 r
  fragment ←
      read_fragment r1 (length payload) ((if padded then 1 else 0) + 4 + pad_length)
        (protocol (text "invalid PUSH_PROMISE padding"))
  ok (
      Frame.push_promise id (promised % 2 ^ 31) fragment
        (has_bits flag_bits Types.end_headers_flag))

unfoldable pub parse_ping : ℕ → List ℕ → Outcome Frame
parse_ping flag_bits payload = do
  reject (not (length payload == 8)) (frame_size (text "PING must be 8 bytes"))
  (opaque, _) ← ok_or (read_bytes payload 8) truncated
  ok (Frame.ping (has_bits flag_bits Types.ack_flag) opaque)

unfoldable pub parse_goaway : List ℕ → Outcome Frame
parse_goaway payload = do
  reject (ltb (length payload) 8) (frame_size (text "GOAWAY too short"))
  (last, r1) ← read_u32 payload
  (code, r2) ← read_u32 r1
  (debug_data, _) ← ok_or (read_bytes r2 (length payload - 8)) truncated
  ok (Frame.goaway (last % 2 ^ 31) code debug_data)

unfoldable pub parse_window_update : ℕ → List ℕ → Outcome Frame
parse_window_update id payload = do
  reject (not (length payload == 4)) (frame_size (text "WINDOW_UPDATE must be 4 bytes"))
  (increment, _) ← read_u32 payload
  ok (Frame.window_update id (increment % 2 ^ 31))

unfoldable pub parse_continuation : ℕ → ℕ → List ℕ → Outcome Frame
parse_continuation flag_bits id payload = do
  (fragment, _) ← ok_or (read_bytes payload (length payload)) truncated
  ok (Frame.continuation id fragment (has_bits flag_bits Types.end_headers_flag))

abbrev pub known : Outcome Frame → Outcome (Option Frame)
known r = do f ← r; ok (some f)

-- `ok none` is an unknown frame type, to be skipped.
unfoldable pub parse_payload : ℕ → ℕ → ℕ → List ℕ → Outcome (Option Frame)
parse_payload type_id flag_bits id payload =
    if type_id == Types.data_type
    then known (parse_data flag_bits id payload)
    else if type_id == Types.headers_type
    then known (parse_headers flag_bits id payload)
    else if type_id == Types.priority_type
    then known (parse_priority id payload)
    else if type_id == Types.rst_stream_type
    then known (parse_rst_stream id payload)
    else if type_id == Types.settings_type
    then known (parse_settings flag_bits payload)
    else if type_id == Types.push_promise_type
    then known (parse_push_promise flag_bits id payload)
    else if type_id == Types.ping_type
    then known (parse_ping flag_bits payload)
    else if type_id == Types.goaway_type
    then known (parse_goaway payload)
    else if type_id == Types.window_update_type
    then known (parse_window_update id payload)
    else if type_id == Types.continuation_type
    then known (parse_continuation flag_bits id payload)
    else ok none
