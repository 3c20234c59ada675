-- ===== src/Bridge/Directions.antt =====
-- rust/crates/h2ts-server/src/wslay.rs, bridge_with: what each of its four directions does between
-- two awaits. A shutdown of the peer's write half is done at once.
use h2ts.Common.{
  ℕ, ◌+◌, ◌-◌, Bool, true, ◌||◌, ltb, leb, if◌then◌else◌, List, [], ◌∷◌, ◌++◌, Option, some, none,
  take, drop,
}
use h2ts.Bridge.{Wslay, run}
use h2ts.Bridge.Config.{CloseFrame, KeepAlive, BridgeConfig, EndReason, Ended, ControlCmd}
use h2ts.Bridge.Session.{
  Bridge, Direction, Received, Reader, Pump, Commands, Keeper, peer_close_of, hooks_of, end_of,
  finish, flush, queue_msg, queue_close, cleared, write_or,
}

module _ {C : Type 0} (w : Wslay C) (cfg : BridgeConfig) (from_utf8_lossy : List ℕ → List ℕ) where
  -- WebSocket to peer.
  unfoldable pub replied : Bool → Option CloseFrame → Bridge C → Bridge C
  replied closed pc b =
      let b1 = record b { reader = Reader.reading } in
      if closed then finish cfg (Ended.ok (end_of pc)) (record b1 { peer_shut = true }) else b1

  unfoldable pub forwarded : Received → Bridge C → Bridge C
  forwarded r b =
      let pc = peer_close_of from_utf8_lossy r.events none in
      let b1 = record b { hooks = b.hooks ++ hooks_of cfg r.events } in
      write_or w Direction.ws_to_peer r.outbound (replied r.closed pc b1)
        (record b1 { reader = Reader.replying r.closed pc })

  -- With nothing for the peer the write is left out.
  abbrev pub forward : List ℕ → Received → Bridge C → Bridge C
  forward [] r b = forwarded r b
  forward (x ∷ xs) r b = record b { reader = Reader.forwarding r }

  -- The bytes of a read, through wslay.
  unfoldable pub digest : List ℕ → Bridge C → Bool × Bridge C
  digest bytes b =
      let s0 = record b.shared { inbound = b.shared.inbound ++ bytes } in
      let ((rc, c), s1) = run (w.recv b.ctx) s0 in
      (rc, flush w (record b { ctx = c; shared = s1; last_activity = b.now }))

  abbrev pub received : Bool → Bridge C → Received
  received rc b = record {
    to_peer = b.shared.to_peer;
    outbound = b.shared.outbound;
    closed = rc || w.close_received b.ctx;
    events = b.shared.control_events;
  }

  abbrev pub drained : Bridge C → Bridge C
  drained b = record b {
    shared = record b.shared {
      inbound = drop b.shared.inbound_pos b.shared.inbound;
      inbound_pos = 0;
      to_peer = [];
      outbound = [];
      control_events = [];
    };
  }

  unfoldable pub receive : List ℕ → Bridge C → Bridge C
  receive bytes b =
      let (rc, b1) = digest bytes b in forward b1.shared.to_peer (received rc b1) (drained b1)

  unfoldable pub peer_written : Received → Bridge C → Bridge C
  peer_written r b = forwarded r (record b { peer_out = b.peer_out ++ r.to_peer })

  -- The peer took `n` bytes and failed; what wslay wanted sent with this read is dropped.
  unfoldable pub peer_write_failed : Received → ℕ → Bridge C → Bridge C
  peer_write_failed r n b =
      let b1 = record b { peer_out = b.peer_out ++ take n r.to_peer; reader = Reader.failing } in
      let b2 = flush w (queue_close w cfg.error_close b1) in
      write_or w Direction.ws_to_peer b2.shared.outbound
        (finish cfg (Ended.ok (EndReason.local_close cfg.error_close)) (cleared w b2))
        (cleared w b2)

  unfoldable pub ws_eof : Bridge C → Bridge C
  ws_eof b = finish cfg (Ended.ok EndReason.abnormal) (record b { peer_shut = true })

  -- Peer to WebSocket.
  unfoldable pub pump_read : List ℕ → Bridge C → Bridge C
  pump_read bytes b =
      let b1 = flush w (queue_msg w 2 bytes b) in
      write_or w Direction.peer_to_ws b1.shared.outbound (cleared w b1)
        (record (cleared w b1) { pump = Pump.writing })

  unfoldable pub pump_end : CloseFrame → Bridge C → Bridge C
  pump_end cf b =
      let b1 = flush w (queue_close w cf b) in
      write_or w Direction.peer_to_ws b1.shared.outbound
        (finish cfg (Ended.ok (EndReason.local_close cf)) (cleared w b1))
        (record (cleared w b1) { pump = Pump.closing cf })

  -- Control frames of the application.
  abbrev pub queue_cmd : ControlCmd → Bridge C → Bridge C
  queue_cmd (ControlCmd.ping p) b = queue_msg w 9 p b
  queue_cmd (ControlCmd.pong p) b = queue_msg w 10 p b
  queue_cmd (ControlCmd.close cf) b = queue_close w cf b

  unfoldable pub control_turn : ControlCmd → Bridge C → Bridge C
  control_turn cmd b =
      let b1 = flush w (queue_cmd cmd b) in
      write_or w Direction.control_dir b1.shared.outbound (cleared w b1)
        (record (cleared w b1) { control = Commands.writing })

  -- Keepalive.
  unfoldable pub keepalive_check : KeepAlive → Bridge C → Bridge C
  keepalive_check ka b =
      let idle = b.now - b.last_activity in
      let b1 = flush w (queue_msg w 9 [] b) in
      if ltb idle ka.interval
      then record b { keeper = Keeper.sleeping (b.now + (ka.interval - idle)) }
      else write_or w Direction.keepalive_dir b1.shared.outbound
          (record (cleared w b1) { keeper = Keeper.pinged ka b.now })
          (record (cleared w b1) { keeper = Keeper.pinging ka })

  unfoldable pub keepalive_due : KeepAlive → ℕ → Bridge C → Bridge C
  keepalive_due ka pinged_at b =
      let b1 = flush w (queue_close w ka.close b) in
      if leb b.last_activity pinged_at
      then write_or w Direction.keepalive_dir b1.shared.outbound
          (finish cfg (Ended.ok (EndReason.local_close ka.close)) (cleared w b1))
          (record (cleared w b1) { keeper = Keeper.closing ka })
      else record b { keeper = Keeper.checking }

  -- What a direction does when its write is over: a text is the error of the socket. The error of
  -- a last Close is ignored.
  abbrev pub reader_over : Reader → Option (List ℕ) → Bridge C → Bridge C
  reader_over Reader.failing e b = finish cfg (Ended.ok (EndReason.local_close cfg.error_close)) b
  reader_over (Reader.replying closed pc) none b = replied closed pc b
  reader_over (Reader.replying closed pc) (some text) b = finish cfg (Ended.failed text) b
  reader_over Reader.reading e b = b
  reader_over (Reader.forwarding r) e b = b

  abbrev pub pump_over : Pump → Option (List ℕ) → Bridge C → Bridge C
  pump_over (Pump.closing cf) e b = finish cfg (Ended.ok (EndReason.local_close cf)) b
  pump_over Pump.writing none b = record b { pump = Pump.reading }
  pump_over Pump.writing (some text) b = finish cfg (Ended.failed text) b
  pump_over Pump.reading e b = b

  abbrev pub control_over : Commands → Option (List ℕ) → Bridge C → Bridge C
  control_over Commands.waiting e b = b
  control_over Commands.writing none b = record b { control = Commands.waiting }
  control_over Commands.writing (some text) b = finish cfg (Ended.failed text) b

  abbrev pub keeper_over : Keeper → Option (List ℕ) → Bridge C → Bridge C
  keeper_over (Keeper.closing ka) e b = finish cfg (Ended.ok (EndReason.local_close ka.close)) b
  keeper_over (Keeper.pinging ka) none b = record b { keeper = Keeper.pinged ka b.now }
  keeper_over (Keeper.pinging ka) (some text) b = finish cfg (Ended.failed text) b
  keeper_over Keeper.checking e b = b
  keeper_over (Keeper.sleeping t) e b = b
  keeper_over (Keeper.pinged ka t) e b = b

  unfoldable pub write_over : Direction → Option (List ℕ) → Bridge C → Bridge C
  write_over Direction.ws_to_peer e b = reader_over b.reader e b
  write_over Direction.peer_to_ws e b = pump_over b.pump e b
  write_over Direction.control_dir e b = control_over b.control e b
  write_over Direction.keepalive_dir e b = keeper_over b.keeper e b
