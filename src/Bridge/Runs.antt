-- ===== src/Bridge/Runs.antt =====
-- rust/crates/h2ts-server/src/wslay.rs: tests of the bridge, over a small stand-in for wslay.
use h2ts.Common.{ℕ, ◌≡◌, refl, true, false, List, [], ◌∷◌, ◌++◌, Option, some, none, arith}
use h2ts.Bridge.{
  ControlEvent, Shared, new_shared, Calls, Wslay, recv_cb, send_cb, frame_start_cb, frame_chunk_cb,
  msg_recv_cb, run,
}
use h2ts.Bridge.Config.{
  BridgeConfig, default_config, closed_with, Ended, EndReason, returned, default_close, ControlCmd,
}
use h2ts.Bridge.Session.{
  Bridge, Direction, Hook, Reader, Received, start, send, bridge_with, flush, finish, hooks_of,
  peer_close_of,
}
use h2ts.Bridge.Directions.{replied, forwarded, receive, digest, peer_written, pump_end, write_over}
use h2ts.Bridge.Steps.{Turn, Step, Steps}
use h2ts.Bridge.View.{View, IsViewed, Agrees, view_run, run-view}
use h2ts.Bridge.Plain.{plain_turns}
use h2ts.Bridge.Delivery.{new_view, IsDelivered, steps-IsDelivered}

-- It takes four bytes at a time for a data frame, and a ping with each. Its context is what it has
-- to send.
abbrev heard : List ℕ → Option (List ℕ) → Calls (List ℕ)
heard c none = Calls.returns false c
heard c (some bytes) = Calls.starts 2 (
    Calls.chunk bytes (
      Calls.starts 9 (Calls.message 9 0 (some (1 ∷ [])) (Calls.returns false (c ++ 138 ∷ 1 ∷ [])))))

abbrev stand_in : Wslay (List ℕ)
stand_in = record {
  server_init = some [];
  set_no_buffering = λ c. c;
  recv = λ c. Calls.wants 4 (heard c);
  send = λ c. Calls.sends c (Calls.returns false []);
  queue_msg = λ c opcode payload. c ++ opcode ∷ payload;
  queue_close = λ c code reason. c ++ 136 ∷ reason;
  close_received = λ c. false;
}

abbrev watched : BridgeConfig
watched = record default_config { on_close = true; on_ping = true }

-- A read of five bytes, the write of four to the peer, the pong, and the end of the peer.
abbrev five : List ℕ
five = 5 ∷ 6 ∷ 7 ∷ 8 ∷ 9 ∷ []

abbrev after_read : Bridge (List ℕ)
after_read = receive stand_in watched (λ s. s) five (start [] 7)

read_five :
    after_read.reader
    ≡ Reader.forwarding (record {
      to_peer = 5 ∷ 6 ∷ 7 ∷ 8 ∷ [];
      outbound = 138 ∷ 1 ∷ [];
      closed = false;
      events = ControlEvent.ping (1 ∷ []) ∷ [];
    })
unfolding receive digest flush run recv_cb send_cb frame_start_cb frame_chunk_cb msg_recv_cb
read_five = refl

abbrev in_hand : Received
in_hand = record {
  to_peer = 5 ∷ 6 ∷ 7 ∷ 8 ∷ [];
  outbound = 138 ∷ 1 ∷ [];
  closed = false;
  events = ControlEvent.ping (1 ∷ []) ∷ [];
}

abbrev after_peer : Bridge (List ℕ)
after_peer = peer_written stand_in watched (λ s. s) in_hand after_read

abbrev after_pong : Bridge (List ℕ)
after_pong =
    write_over stand_in watched (λ s. s) Direction.ws_to_peer none
      (record after_peer { wire = after_peer.wire ++ 138 ∷ 1 ∷ []; writes = [] })

abbrev after_end : Bridge (List ℕ)
after_end = pump_end stand_in watched (λ s. s) watched.close after_pong

abbrev at_last : Bridge (List ℕ)
at_last =
    write_over stand_in watched (λ s. s) Direction.peer_to_ws none
      (record after_end { wire = after_end.wire ++ 136 ∷ []; writes = [] })

abbrev asked : List Turn
asked = Turn.receives five ∷ Turn.queues_close watched.close ∷ []

session : Steps stand_in watched (λ s. s) (start [] 7) asked false at_last
unfolding receive digest flush run recv_cb send_cb frame_start_cb frame_chunk_cb msg_recv_cb
    peer_written forwarded replied pump_end write_over hooks_of peer_close_of
session =
    Steps.next
      (Steps.next
        (Steps.next
          (Steps.next
            (Steps.next Steps.done refl (Step.ws_read five refl (omega arith) (omega arith))) refl
            (Step.peer_write in_hand refl))
          refl (Step.write_done Direction.ws_to_peer (138 ∷ 1 ∷ []) [] refl))
        refl (Step.peer_ended refl))
      refl (Step.write_done Direction.peer_to_ws (136 ∷ []) [] refl)

delivered_at_last : at_last.peer_out ≡ 5 ∷ 6 ∷ 7 ∷ 8 ∷ []
unfolding receive digest flush run recv_cb send_cb frame_start_cb frame_chunk_cb msg_recv_cb
    peer_written forwarded replied pump_end write_over hooks_of peer_close_of finish
delivered_at_last = refl

told_at_last :
    at_last.hooks ≡ Hook.on_ping (1 ∷ []) ∷ Hook.on_close (record { code = 1000; reason = [] }) ∷ []
unfolding receive digest flush run recv_cb send_cb frame_start_cb frame_chunk_cb msg_recv_cb
    peer_written forwarded replied pump_end write_over hooks_of peer_close_of finish closed_with
told_at_last = refl

steps-IsDelivered_example : IsDelivered false at_last (plain_turns stand_in asked ([], new_view))
steps-IsDelivered_example =
    steps-IsDelivered stand_in watched (λ s. s) [] 7 at_last asked false session

-- A buffer with two bytes read and five left.
abbrev half_read : Shared
half_read = record new_shared { inbound = 1 ∷ 2 ∷ five; inbound_pos = 2; outbound = 3 ∷ [] }

abbrev half_view : View
half_view = record { input = five; sent = 4 ∷ 3 ∷ []; payload = 8 ∷ []; is_data = false }

half-IsViewed : IsViewed (8 ∷ []) (4 ∷ []) half_read half_view
half-IsViewed = record {
  within = omega arith;
  input = refl;
  sent = refl;
  payload = refl;
  is_data = refl;
}

run-view_example :
    Agrees
      (8 ∷ [])
      (4 ∷ [])
      (run (stand_in.recv []) half_read)
      (view_run (stand_in.recv []) half_view)
run-view_example = run-view (stand_in.recv []) (8 ∷ []) (4 ∷ []) half_read half_view half-IsViewed

begins : bridge_with stand_in 7 ≡ some (start [] 7)
unfolding bridge_with
begins = refl

-- Commands are taken until the bridge has ended, which returned no error.
takes_command : (send (ControlCmd.ping []) after_read).0 ≡ true
unfolding send receive digest flush run recv_cb send_cb frame_start_cb frame_chunk_cb msg_recv_cb
takes_command = refl

ends_well : returned (Ended.ok (EndReason.local_close default_close)) ≡ none
ends_well = refl
