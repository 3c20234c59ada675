-- ===== src/Bridge/Sections.antt =====
-- rust/crates/h2ts-server/src/wslay.rs, bridge_with: the bytes of the other directions, and of the writes.
use h2ts.Common.{
  ℕ, ◌≡◌, refl, ap, Bool, true, false, ltb, leb, ◌-◌, if◌then◌else◌, if_case, List, [], ◌∷◌, ◌++◌,
  Option, some, none, arith, take, drop, take-append-drop, true-ne-false,
}
use h2ts.Bridge.{Wslay}
use h2ts.Bridge.Config.{CloseFrame, KeepAlive, BridgeConfig, ControlCmd}
use h2ts.Bridge.Session.{
  Bridge, Direction, Reader, Pump, Commands, Keeper, Write, finish, send, has_ended, flush,
  queue_close, queue_msg,
}
use h2ts.Bridge.Directions.{
  pump_read, pump_end, control_turn, keepalive_check, keepalive_due, write_over, reader_over,
  pump_over, control_over, keeper_over,
}
use h2ts.Bridge.Steps.{Turn, turn_of}
use h2ts.Bridge.View.{View}
use h2ts.Bridge.Plain.{count, count-append, queued, core, Stands, plain_turn, plain_turns}
use h2ts.Bridge.Forwarding.{queue-Stands, write_or-Stands, empty_handed}
use h2ts.Bridge.Reading.{replied-Stands}

-- Two choices under one test.
both_if :
    {A B : Type 0} (P : A → B → Type 0) (b : Bool) {x y : A} {u v : B}
    → P x u
    → P y v
    → P (if b then x else y) (if b then u else v)
both_if P true h k = h
both_if P false h k = k

module _ {C : Type 0} (w : Wslay C) (cfg : BridgeConfig) (lossy : List ℕ → List ℕ) (f : Bool)
    (c : C) (v : View) (b : Bridge C) (h : Stands f (core b) (c, v)) where
  pub pump_read-Stands :
      (bytes : List ℕ)
      → Stands f
          (core (pump_read w cfg lossy bytes b))
          (plain_turn w (Turn.queues_msg 2 bytes) (c, v))
  unfolding pump_read plain_turn
  pump_read-Stands bytes =
      write_or-Stands f _ w Direction.peer_to_ws (flush w (queue_msg w 2 bytes b)) _ _
        (queue-Stands w f (λ k. w.queue_msg k 2 bytes) b c v h) refl refl

  pub pump_end-Stands :
      (cf : CloseFrame)
      → Stands f (core (pump_end w cfg lossy cf b)) (plain_turn w (Turn.queues_close cf) (c, v))
  unfolding pump_end finish plain_turn
  pump_end-Stands cf =
      write_or-Stands f _ w Direction.peer_to_ws (flush w (queue_close w cf b)) _ _
        (queue-Stands w f (λ k. w.queue_close k cf.code cf.reason) b c v h) refl refl

  pub control_turn-Stands :
      (cmd : ControlCmd)
      → Stands f (core (control_turn w cfg lossy cmd b)) (plain_turn w (turn_of cmd) (c, v))
  unfolding control_turn plain_turn
  control_turn-Stands (ControlCmd.ping p) =
      write_or-Stands f _ w Direction.control_dir (flush w (queue_msg w 9 p b)) _ _
        (queue-Stands w f (λ k. w.queue_msg k 9 p) b c v h) refl refl
  control_turn-Stands (ControlCmd.pong p) =
      write_or-Stands f _ w Direction.control_dir (flush w (queue_msg w 10 p b)) _ _
        (queue-Stands w f (λ k. w.queue_msg k 10 p) b c v h) refl refl
  control_turn-Stands (ControlCmd.close cf) =
      write_or-Stands f _ w Direction.control_dir (flush w (queue_close w cf b)) _ _
        (queue-Stands w f (λ k. w.queue_close k cf.code cf.reason) b c v h) refl refl

  pub keepalive_check-Stands :
      (ka : KeepAlive)
      → Stands f (core (keepalive_check w cfg lossy ka b)) (
          plain_turns w
            (if ltb (b.now - b.last_activity) ka.interval then [] else Turn.queues_msg 9 [] ∷ [])
            (c, v))
  unfolding keepalive_check plain_turn plain_turns
  keepalive_check-Stands ka =
      both_if (λ k ts. Stands f (core k) (plain_turns w ts (c, v)))
        (ltb (b.now - b.last_activity) ka.interval) h
        (write_or-Stands f _ w Direction.keepalive_dir (flush w (queue_msg w 9 [] b)) _ _
          (queue-Stands w f (λ k. w.queue_msg k 9 []) b c v h) refl refl)

  pub keepalive_due-Stands :
      (ka : KeepAlive) (pinged_at : ℕ)
      → Stands f (core (keepalive_due w cfg lossy ka pinged_at b)) (
          plain_turns w
            (if leb b.last_activity pinged_at then Turn.queues_close ka.close ∷ [] else [])
            (c, v))
  unfolding keepalive_due finish plain_turn plain_turns
  keepalive_due-Stands ka pinged_at =
      both_if (λ k ts. Stands f (core k) (plain_turns w ts (c, v))) (leb b.last_activity pinged_at)
        (write_or-Stands f _ w Direction.keepalive_dir (flush w (queue_close w ka.close b)) _ _
          (queue-Stands w f (λ k. w.queue_close k ka.close.code ka.close.reason) b c v h) refl refl)
        h

  -- A write that is over leaves the bytes where they are.
  reader_over-Stands :
      (r : Reader) (e : Option (List ℕ))
      → b.reader ≡ r
      → Stands f (core (reader_over w cfg lossy r e b)) (c, v)
  unfolding finish
  reader_over-Stands Reader.failing e q = h
  reader_over-Stands (Reader.replying closed pc) none q =
      replied-Stands w cfg lossy f (c, v) closed pc b
        (empty_handed f (c, v) (core b) (Reader.replying closed pc) Reader.reading h q refl refl
          refl refl refl)
  reader_over-Stands (Reader.replying closed pc) (some text) q = h
  reader_over-Stands Reader.reading e q = h
  reader_over-Stands (Reader.forwarding r) e q = h

  pump_over-Stands :
      (p : Pump) (e : Option (List ℕ)) → Stands f (core (pump_over w cfg lossy p e b)) (c, v)
  unfolding finish
  pump_over-Stands (Pump.closing cf) e = h
  pump_over-Stands Pump.writing none = h
  pump_over-Stands Pump.writing (some text) = h
  pump_over-Stands Pump.reading e = h

  control_over-Stands :
      (p : Commands) (e : Option (List ℕ)) → Stands f (core (control_over w cfg lossy p e b)) (c, v)
  unfolding finish
  control_over-Stands Commands.waiting e = h
  control_over-Stands Commands.writing none = h
  control_over-Stands Commands.writing (some text) = h

  keeper_over-Stands :
      (p : Keeper) (e : Option (List ℕ)) → Stands f (core (keeper_over w cfg lossy p e b)) (c, v)
  unfolding finish
  keeper_over-Stands (Keeper.closing ka) e = h
  keeper_over-Stands (Keeper.pinging ka) none = h
  keeper_over-Stands (Keeper.pinging ka) (some text) = h
  keeper_over-Stands Keeper.checking e = h
  keeper_over-Stands (Keeper.sleeping t) e = h
  keeper_over-Stands (Keeper.pinged ka t) e = h

  pub write_over-Stands :
      (d : Direction) (e : Option (List ℕ)) → Stands f (core (write_over w cfg lossy d e b)) (c, v)
  unfolding write_over
  write_over-Stands Direction.ws_to_peer e = reader_over-Stands b.reader e refl
  write_over-Stands Direction.peer_to_ws e = pump_over-Stands b.pump e
  write_over-Stands Direction.control_dir e = control_over-Stands b.control e
  write_over-Stands Direction.keepalive_dir e = keeper_over-Stands b.keeper e

  pub send-Stands : (cmd : ControlCmd) → Stands f (core (send cmd b).1) (c, v)
  unfolding send
  send-Stands cmd =
      if_case {A = Bool × Bridge C} (λ k. Stands f (core k.1) (c, v)) (has_ended b.result) (λ t. h)
        (λ t. h)

  -- The head of the queue, on the wire.
  pub write-Stands :
      (d : Direction) (bytes : List ℕ) (rest : List Write)
      → b.writes ≡ record { direction = d; bytes = bytes } ∷ rest
      → Stands f (core (record b { wire = b.wire ++ bytes; writes = rest })) (c, v)
  write-Stands d bytes rest e = record {
    ctx = h.ctx;
    unsent = h.unsent;
    taken = h.taken;
    lost = h.lost;
    viewed = h.viewed;
    on_wire = λ x. omega (
      arith,
      h.on_wire x,
      ap (λ ws. count x (queued ws)) e,
      count-append x bytes (queued rest),
      count-append x b.wire bytes,
    );
    all_unsent = h.all_unsent;
    none_lost = h.none_lost;
  }

  pub cut_write-Stands :
      (d : Direction) (bytes : List ℕ) (rest : List Write) (n : ℕ)
      → b.writes ≡ record { direction = d; bytes = bytes } ∷ rest
      → Stands true (core (record b { wire = b.wire ++ take n bytes; writes = rest })) (c, v)
  cut_write-Stands d bytes rest n e = record {
    ctx = h.ctx;
    unsent = h.unsent;
    taken = h.taken;
    lost = drop n bytes ++ h.lost;
    viewed = h.viewed;
    on_wire = λ x. omega (
      arith,
      h.on_wire x,
      ap (λ ws. count x (queued ws)) e,
      count-append x bytes (queued rest),
      count-append x b.wire (take n bytes),
      ap (count x) (take-append-drop n bytes),
      count-append x (take n bytes) (drop n bytes),
      count-append x (drop n bytes) h.lost,
    );
    all_unsent = h.all_unsent;
    none_lost = λ q. absurd (true-ne-false q);
  }
