-- ===== src/Bridge.antt =====
-- rust/crates/h2ts-server/src/wslay.rs: what the bridge shares with wslay, and the callbacks.
pub mod View
pub mod Config
pub mod Session
pub mod Directions
pub mod Steps
pub mod Plain
pub mod Forwarding
pub mod Reading
pub mod Receiving
mod Sections
mod Running
pub mod Delivery
mod Closing
mod Ending
mod Runs
use h2ts.Common.{
  ℕ, ◌+◌, ◌-◌, ◌/◌, ◌%◌, min, Bool, true, false, ◌&&◌, ◌==◌, leb, if◌then◌else◌, List, [], ◌∷◌,
  ◌++◌, Option, some, none, length, take, drop,
}

-- A received control frame.
pub data ControlEvent : Type 0 where
  close : ℕ → List ℕ → ControlEvent
  ping : List ℕ → ControlEvent
  pong : List ℕ → ControlEvent

pub record Shared : Type 0 where
  pub inbound : List ℕ
  pub inbound_pos : ℕ
  pub outbound : List ℕ
  pub to_peer : List ℕ
  pub cur_is_data : Bool
  pub control_events : List ControlEvent

-- `Shared::default()`
abbrev pub new_shared : Shared
new_shared = record {
  inbound = [];
  inbound_pos = 0;
  outbound = [];
  to_peer = [];
  cur_is_data = false;
  control_events = [];
}

-- The bytes that are copied into a buffer of `len` bytes, or none if the call would block.
unfoldable pub recv_cb : Shared → ℕ → Option (List ℕ) × Shared
recv_cb s len =
    let avail = length s.inbound - s.inbound_pos in
    let n = min len avail in
    if avail == 0 then (none, s) else (
      some (take n (drop s.inbound_pos s.inbound)),
      record s { inbound_pos = s.inbound_pos + n },
    )

unfoldable pub send_cb : Shared → List ℕ → Shared
send_cb s data_bytes = record s { outbound = s.outbound ++ data_bytes }

-- `is_ctrl_frame(opcode) == (opcode >> 3) & 1`
abbrev pub is_data_opcode : ℕ → Bool
is_data_opcode opcode = (opcode / 8) % 2 == 0

unfoldable pub frame_start_cb : Shared → ℕ → Shared
frame_start_cb s opcode = record s { cur_is_data = is_data_opcode opcode }

unfoldable pub frame_chunk_cb : Shared → List ℕ → Shared
frame_chunk_cb s chunk = record s {
  to_peer = if s.cur_is_data then s.to_peer ++ chunk else s.to_peer;
}

-- A payload that is absent is a null pointer.
abbrev reason_of : Option (List ℕ) → List ℕ
reason_of none = []
reason_of (some msg) = if leb 2 (length msg) then drop 2 msg else []

abbrev payload_of : Option (List ℕ) → List ℕ
payload_of none = []
payload_of (some msg) = msg

abbrev event_of : ℕ → ℕ → Option (List ℕ) → List ControlEvent
event_of opcode status_code msg =
    if opcode == 0x8
    then ControlEvent.close status_code (reason_of msg) ∷ []
    else if opcode == 0x9
    then ControlEvent.ping (payload_of msg) ∷ []
    else if opcode == 0xa
    then ControlEvent.pong (payload_of msg) ∷ []
    else []

unfoldable pub msg_recv_cb : Shared → ℕ → ℕ → Option (List ℕ) → Shared
msg_recv_cb s opcode status_code msg = record s {
  control_events = s.control_events ++ event_of opcode status_code msg;
}

-- What a call into wslay does before it returns: it calls back, and goes on with what it is
-- answered. It returns whether it failed, with its context.
pub data Calls (C : Type 0) : Type 0 where
  returns : Bool → C → Calls C
  wants : ℕ → (Option (List ℕ) → Calls C) → Calls C
  sends : List ℕ → Calls C → Calls C
  starts : ℕ → Calls C → Calls C
  chunk : List ℕ → Calls C → Calls C
  message : ℕ → ℕ → Option (List ℕ) → Calls C → Calls C

-- The calls of the bridge into wslay, over an unknown context.
pub record Wslay (C : Type 0) : Type 0 where
  pub server_init : Option C
  pub set_no_buffering : C → C
  pub recv : C → Calls C
  pub send : C → Calls C
  pub queue_msg : C → ℕ → List ℕ → C
  pub queue_close : C → ℕ → List ℕ → C
  pub close_received : C → Bool

-- A call, with the state that the callbacks share.
unfoldable pub run : {C : Type 0} → Calls C → Shared → (Bool × C) × Shared
unfolding recv_cb send_cb frame_start_cb frame_chunk_cb msg_recv_cb
run (Calls.returns failed c) s = ((failed, c), s)
run (Calls.wants len k) s = let (r, s1) = recv_cb s len in run (k r) s1
run (Calls.sends bytes k) s = run k (send_cb s bytes)
run (Calls.starts opcode k) s = run k (frame_start_cb s opcode)
run (Calls.chunk bytes k) s = run k (frame_chunk_cb s bytes)
run (Calls.message opcode status_code msg k) s = run k (msg_recv_cb s opcode status_code msg)
