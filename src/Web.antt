-- ===== src/Web.antt =====
-- rust/crates/h2ts-client/src/web.rs: a browser's WebSocket as a transport. The events of the socket
-- are the browser's, and so are its operations; the channel is the `futures` crate's.
pub mod Events
mod Runs
use h2ts.Common.{ℕ, Bool, true, false, if◌then◌else◌, List, [], ◌∷◌, Option, some, none, codes}

-- What `open` waits for: the sender of its channel, until an event takes it, and what was sent.
pub data Opened : Type 0 where
  ok : Opened
  err : List ℕ → Opened

pub record Opening : Type 0 where
  pub tx : Bool
  pub sent : Option Opened

abbrev pub new_opening : Opening
new_opening = record { tx = true; sent = none }

abbrev take_tx : Opened → Opening → Opening
take_tx result o = if o.tx then record { tx = false; sent = some result } else o

unfoldable pub onopen : Opening → Opening
onopen = take_tx Opened.ok

unfoldable pub onerror : Opening → Opening
onerror = take_tx (Opened.err (codes "WebSocket connection failed"))

-- The data of a message: an `ArrayBuffer`, or anything else.
pub data MessageData : Type 0 where
  array_buffer : List ℕ → MessageData
  other : MessageData

-- The sending half of the `futures` crate's channel: what it does to the channel to send on it, and to
-- drop it. The receiving half, which is the reader, is that crate's.
pub record Channel (S : Type 0) : Type 0 where
  pub unbounded_send : List ℕ → S → S
  pub drop_sender : S → S

-- Whether the callbacks still hold the sender, and the channel.
pub record Inbound (S : Type 0) : Type 0 where
  pub in_tx : Bool
  pub channel : S

abbrev pub new_inbound : {S : Type 0} → S → Inbound S
new_inbound channel = record { in_tx = true; channel = channel }

abbrev pub send_in : {S : Type 0} → Channel S → List ℕ → Inbound S → Inbound S
send_in ch bytes s = if s.in_tx then record s { channel = ch.unbounded_send bytes s.channel } else s

unfoldable pub onmessage : {S : Type 0} → Channel S → MessageData → Inbound S → Inbound S
onmessage ch (MessageData.array_buffer []) s = s
onmessage ch (MessageData.array_buffer (b ∷ r)) s = send_in ch (b ∷ r) s
onmessage ch MessageData.other s = s

unfoldable pub onclose : {S : Type 0} → Channel S → Inbound S → Inbound S
onclose ch s = if s.in_tx then record { in_tx = false; channel = ch.drop_sender s.channel } else s

-- The operations of the browser's `WebSocket` that the sink uses: `send` answers its error's text.
pub record WebSocket (C : Type 0) : Type 0 where
  pub send_with_u8_array : List ℕ → C → Option (List ℕ) × C
  pub close : C → C

unfoldable pub start_send : {C : Type 0} → WebSocket C → List ℕ → C → Option (List ℕ) × C
start_send ws item c = ws.send_with_u8_array item c

unfoldable pub poll_close : {C : Type 0} → WebSocket C → C → C
poll_close ws c = ws.close c
