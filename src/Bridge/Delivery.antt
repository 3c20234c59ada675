-- ===== src/Bridge/Delivery.antt =====
-- rust/crates/h2ts-server/src/wslay.rs, bridge_with: what reaches the peer and the WebSocket in a run.
use h2ts.Common.{
  ℕ, ◌+◌, ◌≤◌, ◌≡◌, refl, ap, ◌∙◌, Bool, true, false, List, [], ◌++◌, arith, append_assoc, take,
  length, take-append, append-nil,
}
use h2ts.Bridge.{Wslay}
use h2ts.Bridge.Config.{BridgeConfig}
use h2ts.Bridge.Session.{Bridge, Reader, start}
use h2ts.Bridge.Steps.{Turn, Steps}
use h2ts.Bridge.View.{View}
use h2ts.Bridge.Plain.{
  count, count-append, queued, held, pending, is_failing, core, Stands, plain_turns,
}
use h2ts.Bridge.Running.{steps-Stands}

abbrev pub new_view : View
new_view = record { input = []; sent = []; payload = []; is_data = false }

-- What the peer got of a payload, and what waits for it. After a failed write it is the front only.
abbrev pub IsForwarded : Reader → List ℕ → List ℕ → List ℕ → Type 0
IsForwarded Reader.failing out to_peer payload = take (length out) payload ≡ out
IsForwarded Reader.reading out to_peer payload = payload ≡ out ++ to_peer
IsForwarded (Reader.forwarding r) out to_peer payload = payload ≡ out ++ r.to_peer ++ to_peer
IsForwarded (Reader.replying closed pc) out to_peer payload = payload ≡ out ++ to_peer

-- Numbers of the same byte: as many, or no more once a write failed.
abbrev pub IsOnce : Bool → ℕ → ℕ → Type 0
IsOnce true m n = m ≤ n
IsOnce false m n = m ≡ n

-- The bytes of wslay on the wire, and those that wait for it.
abbrev pub outgoing : {C : Type 0} → ℕ → Bridge C → ℕ
outgoing x b =
    count x b.wire + count x (queued b.writes) + count x (held b.reader) + count x b.shared.outbound

-- A bridge against what wslay did: its context, the payload of its data frames, and what it sent.
pub record IsDelivered {C : Type 0} (fails : Bool) (b : Bridge C) (m : C × View) : Type 0 where
  pub ctx : b.ctx ≡ m.0
  pub forwarded : IsForwarded b.reader b.peer_out b.shared.to_peer m.1.payload
  pub sent_once : (x : ℕ) → IsOnce fails (outgoing x b) (count x m.1.sent)

front :
    (r : Reader) (out unsent to_peer payload : List ℕ)
    → payload ≡ (out ++ unsent) ++ to_peer
    → (is_failing r ≡ false → unsent ≡ pending r)
    → IsForwarded r out to_peer payload
front Reader.failing out unsent to_peer payload h e =
    ap (take (length out)) (h ∙ append_assoc out unsent to_peer)
    ∙ take-append out (unsent ++ to_peer)
front Reader.reading out unsent to_peer payload h e =
    h ∙ ap (λ u. (out ++ u) ++ to_peer) (e refl) ∙ ap (◌++ to_peer) (append-nil out)
front (Reader.forwarding r) out unsent to_peer payload h e =
    h ∙ ap (λ u. (out ++ u) ++ to_peer) (e refl)
front (Reader.replying closed pc) out unsent to_peer payload h e =
    h ∙ ap (λ u. (out ++ u) ++ to_peer) (e refl) ∙ ap (◌++ to_peer) (append-nil out)

once :
    {C : Type 0} (f : Bool) (b : Bridge C) (m : C × View)
    → Stands f (core b) m
    → (x : ℕ) → IsOnce f (outgoing x b) (count x m.1.sent)
once true b m h x =
    omega (arith, h.on_wire x, ap (count x) h.viewed.sent, count-append x h.taken b.shared.outbound)
once false b m h x = omega (
  arith,
  h.on_wire x,
  ap (count x) h.viewed.sent,
  count-append x h.taken b.shared.outbound,
  ap (count x) (h.none_lost refl),
)

delivered :
    {C : Type 0} (f : Bool) (b : Bridge C) (m : C × View) → Stands f (core b) m → IsDelivered f b m
delivered f b m h = record {
  ctx = h.ctx;
  forwarded =
      front b.reader b.peer_out h.unsent b.shared.to_peer m.1.payload h.viewed.payload h.all_unsent;
  sent_once = once f b m h;
}

-- However the four directions interleave, the peer gets, in order, the payload of the data frames
-- that wslay decoded, and nothing else: what is missing is at hand unless a write to the peer
-- failed. Of each byte no more is on its way to the WebSocket, or waits for it, than wslay sent, and
-- if no write failed just as many.
pub steps-IsDelivered :
    {C : Type 0} (w : Wslay C) (cfg : BridgeConfig) (from_utf8_lossy : List ℕ → List ℕ) (ctx : C)
    (now : ℕ) (b : Bridge C) (ts : List Turn) (fails : Bool)
    → Steps w cfg from_utf8_lossy (start ctx now) ts fails b
    → IsDelivered fails b (plain_turns w ts (ctx, new_view))
steps-IsDelivered w cfg from_utf8_lossy ctx now b ts fails s = delivered fails b _ (
    steps-Stands w cfg from_utf8_lossy ctx new_view s (record {
      ctx = refl;
      unsent = [];
      taken = [];
      lost = [];
      viewed = record {
        within = omega arith;
        input = refl;
        sent = refl;
        payload = refl;
        is_data = refl;
      };
      on_wire = λ x. omega arith;
      all_unsent = λ q. refl;
      none_lost = λ q. refl;
    }))
