-- ===== src/Web/Events.antt =====
-- rust/crates/h2ts-client/src/web.rs: what the callbacks of a WebSocket do to the channel of its reader.
use h2ts.Common.{ℕ, ◌≡◌, refl, Bool, true, false, not, List, [], ◌∷◌, ◌++◌}
use h2ts.Web.{MessageData, Channel, Inbound, new_inbound, onmessage, onclose}

-- The events of the socket that its reader depends on.
pub data Event : Type 0 where
  message : MessageData → Event
  closed : Event

-- Each event calls its callback, in the order in which they come.
unfoldable pub run : {S : Type 0} → Channel S → List Event → Inbound S → Inbound S
run ch [] s = s
run ch (Event.message m ∷ es) s = run ch es (onmessage ch m s)
run ch (Event.closed ∷ es) s = run ch es (onclose ch s)

-- The bytes of the messages up to the close: each binary message that is not empty.
abbrev bytes_of : MessageData → List (List ℕ)
bytes_of (MessageData.array_buffer []) = []
bytes_of (MessageData.array_buffer (b ∷ r)) = (b ∷ r) ∷ []
bytes_of MessageData.other = []

abbrev pub messages : List Event → List (List ℕ)
messages [] = []
messages (Event.message m ∷ es) = bytes_of m ++ messages es
messages (Event.closed ∷ es) = []

abbrev pub is_closed : List Event → Bool
is_closed [] = false
is_closed (Event.message m ∷ es) = is_closed es
is_closed (Event.closed ∷ es) = true

-- A channel that was sent each of some chunks in turn.
abbrev pub send_each : {S : Type 0} → Channel S → List (List ℕ) → S → S
send_each ch [] s = s
send_each ch (c ∷ cs) s = send_each ch cs (ch.unbounded_send c s)

-- A channel of which the sender was dropped behind that, if it was.
abbrev pub drop_if : {S : Type 0} → Channel S → Bool → S → S
drop_if ch false s = s
drop_if ch true s = ch.drop_sender s

-- Once the socket is closed nothing is sent, and the sender is not dropped again.
run_closed :
    {S : Type 0} (ch : Channel S) (es : List Event) (s : S)
    → run ch es (record { in_tx = false; channel = s }) ≡ record { in_tx = false; channel = s }
unfolding run onmessage onclose
run_closed ch [] s = refl
run_closed ch (Event.message (MessageData.array_buffer []) ∷ es) s = run_closed ch es s
run_closed ch (Event.message (MessageData.array_buffer (b ∷ r)) ∷ es) s = run_closed ch es s
run_closed ch (Event.message MessageData.other ∷ es) s = run_closed ch es s
run_closed ch (Event.closed ∷ es) s = run_closed ch es s

-- Whatever the channel is, and in whatever order messages and closes come, the callbacks send the
-- binary messages that came before the first close, whole, in order and each once, the empty ones left
-- out; behind them they drop the sender once if the socket closed, and hold it if it did not; and
-- after the close they touch the channel no more.
pub run_sends :
    {S : Type 0} (ch : Channel S) (es : List Event) (s : S)
    → run ch es (new_inbound s) ≡ record {
      in_tx = not (is_closed es);
      channel = drop_if ch (is_closed es) (send_each ch (messages es) s);
    }
unfolding run onmessage onclose
run_sends ch [] s = refl
run_sends ch (Event.message (MessageData.array_buffer []) ∷ es) s = run_sends ch es s
run_sends ch (Event.message (MessageData.array_buffer (b ∷ r)) ∷ es) s =
    run_sends ch es (ch.unbounded_send (b ∷ r) s)
run_sends ch (Event.message MessageData.other ∷ es) s = run_sends ch es s
run_sends ch (Event.closed ∷ es) s = run_closed ch es (ch.drop_sender s)
