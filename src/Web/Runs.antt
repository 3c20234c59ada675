-- ===== src/Web/Runs.antt =====
-- rust/crates/h2ts-client/src/web.rs: tests of the transport.
use h2ts.Common.{ℕ, suc, ◌≡◌, refl, Bool, true, false, not, List, [], ◌∷◌, ◌++◌, some, none}
use h2ts.Web.{
  WebSocket, start_send, poll_close, MessageData, Channel, new_inbound, onmessage, onclose, Opened,
  new_opening, onopen, onerror,
}
use h2ts.Web.Events.{Event, run, messages, is_closed, send_each, drop_if, run_sends}

abbrev events : List Event
events =
    Event.message (MessageData.array_buffer (1 ∷ 2 ∷ []))
    ∷ Event.message MessageData.other
    ∷ Event.message (MessageData.array_buffer [])
    ∷ Event.message (MessageData.array_buffer (3 ∷ []))
    ∷ Event.closed
    ∷ Event.message (MessageData.array_buffer (4 ∷ []))
    ∷ Event.closed
    ∷ []

-- A channel that keeps what is sent on it, and how often its sender was dropped.
abbrev log : Channel (List (List ℕ) × ℕ)
log = record {
  unbounded_send = λ bytes s. (s.0 ++ bytes ∷ [], s.1);
  drop_sender = λ s. (s.0, suc s.1);
}

sent_events :
    run log events (new_inbound ([], 0))
    ≡ record { in_tx = false; channel = ((1 ∷ 2 ∷ []) ∷ (3 ∷ []) ∷ [], 1) }
unfolding run onmessage onclose
sent_events = refl

-- The first event decides.
opened_first : (onerror (onopen new_opening)).sent ≡ some Opened.ok
unfolding onopen onerror
opened_first = refl

run_sends_example : run log events (new_inbound ([], 0)) ≡ record {
  in_tx = not (is_closed events);
  channel = drop_if log (is_closed events) (send_each log (messages events) ([], 0));
}
run_sends_example = run_sends log events ([], 0)

-- A socket that keeps what is sent, and whether it is closed.
abbrev kept : WebSocket (List ℕ × Bool)
kept = record {
  send_with_u8_array = λ item c. (none, (c.0 ++ item, c.1));
  close = λ c. (c.0, true);
}

sends_and_closes : poll_close kept (start_send kept (1 ∷ 2 ∷ []) ([], false)).1 ≡ (1 ∷ 2 ∷ [], true)
unfolding poll_close start_send
sends_and_closes = refl
