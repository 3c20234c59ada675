-- ===== src/Bridge/Receiving.antt =====
-- rust/crates/h2ts-server/src/wslay.rs, bridge_with: the bytes of a read of the WebSocket, and of a
-- failed write to the peer.
use h2ts.Common.{
  ℕ, ◌≡◌, refl, sym, ap, subst, ◌∙◌, Bool, true, List, [], ◌∷◌, ◌++◌, arith, append-nil, take,
  length-append, drop-append_le,
}
use h2ts.Bridge.{Wslay, run}
use h2ts.Bridge.Config.{BridgeConfig}
use h2ts.Bridge.Session.{Bridge, Direction, Received, Reader, finish, flush, queue_close}
use h2ts.Bridge.Directions.{forward, peer_write_failed, receive, digest, drained, received}
use h2ts.Bridge.Steps.{Turn}
use h2ts.Bridge.View.{View, run-view}
use h2ts.Bridge.Plain.{count, count-append, held, pending, is_failing, core, Stands, plain_turn}
use h2ts.Bridge.Forwarding.{flush-Stands, queue-Stands, write_or-Stands}
use h2ts.Bridge.Reading.{forwarded-Stands, dropped-Stands}

module _ {C : Type 0} (w : Wslay C) (cfg : BridgeConfig) (lossy : List ℕ → List ℕ) (f : Bool)
    (c : C) (v : View) where
  pub peer_write_failed-Stands :
      (r : Received) (n : ℕ) (b : Bridge C)
      → b.reader ≡ Reader.forwarding r
      → Stands f (core b) (c, v)
      → Stands true
          (core (peer_write_failed w cfg lossy r n b))
          (plain_turn w (Turn.queues_close cfg.error_close) (c, v))
  unfolding peer_write_failed finish plain_turn
  peer_write_failed-Stands r n b e h =
      let b1 = record b { peer_out = b.peer_out ++ take n r.to_peer; reader = Reader.failing } in
      write_or-Stands true _ w Direction.ws_to_peer (flush w (queue_close w cfg.error_close b1)) _ _
        (queue-Stands w true (λ k. w.queue_close k cfg.error_close.code cfg.error_close.reason) b1 c
          v (dropped-Stands w cfg lossy f (c, v) r n b e h))
        refl refl

  -- The bytes of a read, on both sides.
  digest-Stands :
      (bytes : List ℕ) (b : Bridge C)
      → Stands f (core b) (c, v)
      → Stands f (core (digest w cfg lossy bytes b).1) (plain_turn w (Turn.receives bytes) (c, v))
  unfolding digest plain_turn
  digest-Stands bytes b h =
      let s0 = record b.shared { inbound = b.shared.inbound ++ bytes } in
      let v0 = record v { input = v.input ++ bytes } in
      let b1 = (run (w.recv b.ctx) s0) in
      let (e, after) = run-view (w.recv b.ctx) (b.peer_out ++ h.unsent) h.taken s0 v0 (record {
        within = omega (arith, h.viewed.within, length-append b.shared.inbound bytes);
        input =
            ap (◌++ bytes) h.viewed.input
            ∙ sym (drop-append_le b.shared.inbound_pos b.shared.inbound bytes h.viewed.within);
        sent = h.viewed.sent;
        payload = h.viewed.payload;
        is_data = h.viewed.is_data;
      }) in
      subst
        (λ x.
          Stands f (core (digest w cfg lossy bytes b).1)
            (plain_turn w (Turn.receives bytes) (x, v)))
        h.ctx
        (flush-Stands w f (record b { ctx = b1.0.1; shared = b1.1; last_activity = b.now }) _ _
          (record {
            ctx = ap (λ r. r.1) e;
            unsent = h.unsent;
            taken = h.taken;
            lost = h.lost;
            viewed = after;
            on_wire = h.on_wire;
            all_unsent = h.all_unsent;
            none_lost = h.none_lost;
          }))

  digest-reader : (bytes : List ℕ) (b : Bridge C) → (digest w cfg lossy bytes b).1.reader ≡ b.reader
  unfolding digest flush
  digest-reader bytes b = refl

  -- The buffers are emptied into the hands of the reader.
  drained-Stands :
      (rc : Bool) (b : Bridge C) (m : C × View)
      → b.reader ≡ Reader.reading
      → Stands f (core b) m
      → Stands f
          (record (core (drained w cfg lossy b)) {
            reader = Reader.forwarding (received w cfg lossy rc b);
          })
          m
  drained-Stands rc b m e h =
      let all = h.all_unsent (ap is_failing e) ∙ ap pending e in
      record {
        ctx = h.ctx;
        unsent = b.shared.to_peer;
        taken = h.taken ++ b.shared.outbound;
        lost = h.lost;
        viewed = record {
          within = omega arith;
          input = h.viewed.input;
          sent = h.viewed.sent ∙ sym (append-nil (h.taken ++ b.shared.outbound));
          payload =
              h.viewed.payload
              ∙ ap (λ u. (b.peer_out ++ u) ++ b.shared.to_peer) all
              ∙ ap (◌++ b.shared.to_peer) (append-nil b.peer_out)
              ∙ sym (append-nil (b.peer_out ++ b.shared.to_peer));
          is_data = h.viewed.is_data;
        };
        on_wire = λ x. omega (
          arith,
          h.on_wire x,
          ap (λ k. count x (held k)) e,
          count-append x h.taken b.shared.outbound,
        );
        all_unsent = λ q. refl;
        none_lost = h.none_lost;
      }

  forward-Stands :
      (to_peer : List ℕ) (r : Received) (b : Bridge C) (m : C × View)
      → to_peer ≡ r.to_peer
      → Stands f (record (core b) { reader = Reader.forwarding r }) m
      → Stands f (core (forward w cfg lossy to_peer r b)) m
  forward-Stands [] r b m e h = forwarded-Stands w cfg lossy f m r r b (sym e) refl h
  forward-Stands (x ∷ xs) r b m e h = h

  pub receive-Stands :
      (bytes : List ℕ) (b : Bridge C)
      → b.reader ≡ Reader.reading
      → Stands f (core b) (c, v)
      → Stands f (core (receive w cfg lossy bytes b)) (plain_turn w (Turn.receives bytes) (c, v))
  unfolding receive
  receive-Stands bytes b e h =
      let (rc, b1) = digest w cfg lossy bytes b in
      forward-Stands b1.shared.to_peer (received w cfg lossy rc b1) (drained w cfg lossy b1) _ refl
        (drained-Stands rc b1 _ (digest-reader bytes b ∙ e) (digest-Stands bytes b h))
