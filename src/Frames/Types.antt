-- ===== src/Frames/Types.antt =====
-- rust/crates/h2ts-client/src/frames.rs: constants, settings, priorities, and the frame.
use h2ts.Common.{ℕ, Bool, List, Option, none}

abbrev pub frame_header_size : ℕ
frame_header_size = 9

abbrev pub default_max_frame_size : ℕ
default_max_frame_size = 16384

-- `mod frame_type`
abbrev pub data_type : ℕ
data_type = 0x0

abbrev pub headers_type : ℕ
headers_type = 0x1

abbrev pub priority_type : ℕ
priority_type = 0x2

abbrev pub rst_stream_type : ℕ
rst_stream_type = 0x3

abbrev pub settings_type : ℕ
settings_type = 0x4

abbrev pub push_promise_type : ℕ
push_promise_type = 0x5

abbrev pub ping_type : ℕ
ping_type = 0x6

abbrev pub goaway_type : ℕ
goaway_type = 0x7

abbrev pub window_update_type : ℕ
window_update_type = 0x8

abbrev pub continuation_type : ℕ
continuation_type = 0x9

-- `mod flags`: frame types share END_STREAM and ACK, END_HEADERS, PADDED, and PRIORITY.
abbrev pub end_stream_flag : ℕ
end_stream_flag = 0x1

abbrev pub ack_flag : ℕ
ack_flag = 0x1

abbrev pub end_headers_flag : ℕ
end_headers_flag = 0x4

abbrev pub padded_flag : ℕ
padded_flag = 0x8

abbrev pub priority_flag : ℕ
priority_flag = 0x20

pub record Settings : Type 0 where
  pub header_table_size : Option ℕ
  pub enable_push : Option Bool
  pub max_concurrent_streams : Option ℕ
  pub initial_window_size : Option ℕ
  pub max_frame_size : Option ℕ
  pub max_header_list_size : Option ℕ

-- `Settings::default()`
abbrev pub no_settings : Settings
no_settings = record {
  header_table_size = none;
  enable_push = none;
  max_concurrent_streams = none;
  initial_window_size = none;
  max_frame_size = none;
  max_header_list_size = none;
}

-- `weight` is the human value, 1 to 256.
pub record Priority : Type 0 where
  pub stream_dependency : ℕ
  pub weight : ℕ
  pub exclusive : Bool

-- The fields stand in the source's order.
pub data Frame : Type 0 where
  -- stream_id, data, end_stream
  data_frame : ℕ → List ℕ → Bool → Frame
  -- stream_id, header_block_fragment, end_stream, end_headers, priority
  headers : ℕ → List ℕ → Bool → Bool → Option Priority → Frame
  -- stream_id, priority
  priority : ℕ → Priority → Frame
  -- stream_id, error_code
  rst_stream : ℕ → ℕ → Frame
  -- ack, settings
  settings : Bool → Settings → Frame
  -- stream_id, promised_stream_id, header_block_fragment, end_headers
  push_promise : ℕ → ℕ → List ℕ → Bool → Frame
  -- ack, opaque_data (eight bytes)
  ping : Bool → List ℕ → Frame
  -- last_stream_id, error_code, debug_data
  goaway : ℕ → ℕ → List ℕ → Frame
  -- stream_id, window_size_increment
  window_update : ℕ → ℕ → Frame
  -- stream_id, header_block_fragment, end_headers
  continuation : ℕ → List ℕ → Bool → Frame
