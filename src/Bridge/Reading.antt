-- ===== src/Bridge/Reading.antt =====
-- rust/crates/h2ts-server/src/wslay.rs, bridge_with: the bytes of the direction from the WebSocket to the
-- peer.
use h2ts.Common.{
  ℕ, ◌+◌, ◌≡◌, refl, sym, ap, ◌∙◌, Bool, true, false, List, [], ◌++◌, Option, arith, append_assoc,
  append-nil, take, drop, take-append-drop, true-ne-false,
}
use h2ts.Bridge.{Wslay}
use h2ts.Bridge.Config.{CloseFrame, BridgeConfig}
use h2ts.Bridge.Session.{Bridge, Direction, Received, Reader, finish}
use h2ts.Bridge.Directions.{replied, forwarded, peer_written}
use h2ts.Bridge.View.{View}
use h2ts.Bridge.Plain.{
  count, count-append, queued, queued-append, held, pending, is_failing, core, Stands,
}
use h2ts.Bridge.Forwarding.{empty_handed, write_or_case}

module _ {C : Type 0} (w : Wslay C) (cfg : BridgeConfig) (lossy : List ℕ → List ℕ) (f : Bool)
    (m : C × View) where
  pub replied-Stands :
      (closed : Bool) (pc : Option CloseFrame) (b : Bridge C)
      → Stands f (record (core b) { reader = Reader.reading }) m
      → Stands f (core (replied w cfg lossy closed pc b)) m
  unfolding replied finish
  replied-Stands true pc b h = h
  replied-Stands false pc b h = h

  -- The payload is written; the bytes of wslay are not yet asked for.
  pub forwarded-Stands :
      (r r' : Received) (b : Bridge C)
      → r'.to_peer ≡ []
      → r'.outbound ≡ r.outbound
      → Stands f (record (core b) { reader = Reader.forwarding r' }) m
      → Stands f (core (forwarded w cfg lossy r b)) m
  unfolding forwarded
  forwarded-Stands r r' b p o h =
      write_or_case f m w Direction.ws_to_peer r.outbound _ _
        (λ e. replied-Stands r.closed _ _ (
          empty_handed f m (record (core b) { reader = Reader.forwarding r' })
            (Reader.forwarding r') Reader.reading h refl refl p (o ∙ e) refl refl))
        (record {
          ctx = h.ctx;
          unsent = h.unsent;
          taken = h.taken;
          lost = h.lost;
          viewed = h.viewed;
          on_wire = λ x. omega (
            arith,
            h.on_wire x,
            queued-append x b.writes Direction.ws_to_peer r.outbound,
            ap (count x) o,
          );
          all_unsent = λ q. h.all_unsent refl ∙ p;
          none_lost = h.none_lost;
        })

  pub peer_written-Stands :
      (r : Received) (b : Bridge C)
      → b.reader ≡ Reader.forwarding r
      → Stands f (core b) m
      → Stands f (core (peer_written w cfg lossy r b)) m
  unfolding peer_written
  peer_written-Stands r b e h =
      let all = h.all_unsent (ap is_failing e) ∙ ap pending e in
      forwarded-Stands r (record r { to_peer = [] })
        (record b { peer_out = b.peer_out ++ r.to_peer }) refl refl
        (record {
          ctx = h.ctx;
          unsent = [];
          taken = h.taken;
          lost = h.lost;
          viewed = record {
            within = h.viewed.within;
            input = h.viewed.input;
            sent = h.viewed.sent;
            payload =
                h.viewed.payload
                ∙ ap (◌++ b.shared.to_peer)
                    (ap (λ u. b.peer_out ++ u) all ∙ sym (append-nil (b.peer_out ++ r.to_peer)));
            is_data = h.viewed.is_data;
          };
          on_wire = λ x.
              h.on_wire x
              ∙ ap (λ l. count x b.wire + count x (queued b.writes) + count x l + count x h.lost)
                  (ap held e);
          all_unsent = λ q. refl;
          none_lost = h.none_lost;
        })

  -- What a failed write to the peer leaves behind, before the Close.
  pub dropped-Stands :
      (r : Received) (n : ℕ) (b : Bridge C)
      → b.reader ≡ Reader.forwarding r
      → Stands f (core b) m
      → Stands true
          (core (record b { peer_out = b.peer_out ++ take n r.to_peer; reader = Reader.failing }))
          m
  dropped-Stands r n b e h =
      let all = h.all_unsent (ap is_failing e) ∙ ap pending e in
      record {
        ctx = h.ctx;
        unsent = drop n r.to_peer;
        taken = h.taken;
        lost = r.outbound ++ h.lost;
        viewed = record {
          within = h.viewed.within;
          input = h.viewed.input;
          sent = h.viewed.sent;
          payload =
              h.viewed.payload
              ∙ ap (◌++ b.shared.to_peer) (
                  ap (λ u. b.peer_out ++ u) (all ∙ sym (take-append-drop n r.to_peer))
                  ∙ sym (append_assoc b.peer_out (take n r.to_peer) (drop n r.to_peer)));
          is_data = h.viewed.is_data;
        };
        on_wire = λ x.
            omega
              (arith, h.on_wire x, ap (λ k. count x (held k)) e, count-append x r.outbound h.lost);
        all_unsent = λ q. absurd (true-ne-false q);
        none_lost = λ q. absurd (true-ne-false q);
      }
