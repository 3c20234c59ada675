-- ===== src/Bridge/Forwarding.antt =====
-- rust/crates/h2ts-server/src/wslay.rs, bridge_with: the bytes of a bridge, section by section.
use h2ts.Common.{
  ℕ, ◌+◌, ◌≡◌, refl, sym, ap, subst, ◌∙◌, Bool, false, List, [], ◌∷◌, ◌++◌, arith, append-nil,
}
use h2ts.Bridge.{Wslay}
use h2ts.Bridge.Session.{Bridge, Direction, Reader, flush, cleared, write_or, enqueue}
use h2ts.Bridge.View.{View, run-view}
use h2ts.Bridge.Plain.{
  count, count-append, queued, queued-append, held, pending, is_failing, Core, core, Stands,
  plain_flush,
}

module _ {C : Type 0} (w : Wslay C) where
  -- A flush, on both sides.
  pub flush-Stands :
      (f : Bool) (b : Bridge C) (c : C) (v : View)
      → Stands f (core b) (c, v)
      → Stands f (core (flush w b)) (plain_flush w (c, v))
  unfolding flush
  flush-Stands f b c v h =
      subst (λ x. Stands f (core (flush w b)) (plain_flush w (x, v))) h.ctx
        (let (e, after) =
            run-view (w.send b.ctx) (b.peer_out ++ h.unsent) h.taken b.shared v h.viewed in
          record {
            ctx = ap (λ r. r.1) e;
            unsent = h.unsent;
            taken = h.taken;
            lost = h.lost;
            viewed = after;
            on_wire = h.on_wire;
            all_unsent = h.all_unsent;
            none_lost = h.none_lost;
          })

  pub queue-Stands :
      (f : Bool) (g : C → C) (b : Bridge C) (c : C) (v : View)
      → Stands f (core b) (c, v)
      → Stands f (core (flush w (record b { ctx = g b.ctx }))) (plain_flush w (g c, v))
  queue-Stands f g b c v h =
      flush-Stands f (record b { ctx = g b.ctx }) (g c) v
        (record {
          ctx = ap g h.ctx;
          unsent = h.unsent;
          taken = h.taken;
          lost = h.lost;
          viewed = h.viewed;
          on_wire = h.on_wire;
          all_unsent = h.all_unsent;
          none_lost = h.none_lost;
        })

-- What is taken for the socket joins the queue.
module _ {C : Type 0} (f : Bool) (m : C × View) where
  took :
      (k : Core C)
      → Stands f k m
      → (d : Direction)
      → Stands f
          (record k {
            shared = record k.shared { outbound = [] };
            writes = k.writes ++ record { direction = d; bytes = k.shared.outbound } ∷ [];
          })
          m
  took k h d = record {
    ctx = h.ctx;
    unsent = h.unsent;
    taken = h.taken ++ k.shared.outbound;
    lost = h.lost;
    viewed = record {
      within = h.viewed.within;
      input = h.viewed.input;
      sent = h.viewed.sent ∙ sym (append-nil (h.taken ++ k.shared.outbound));
      payload = h.viewed.payload;
      is_data = h.viewed.is_data;
    };
    on_wire = λ x. omega (
      arith,
      h.on_wire x,
      count-append x h.taken k.shared.outbound,
      queued-append x k.writes d k.shared.outbound,
    );
    all_unsent = h.all_unsent;
    none_lost = h.none_lost;
  }

  took_nothing :
      (k : Core C)
      → Stands f k m
      → [] ≡ k.shared.outbound
      → Stands f (record k { shared = record k.shared { outbound = [] } }) m
  took_nothing k h e = record {
    ctx = h.ctx;
    unsent = h.unsent;
    taken = h.taken;
    lost = h.lost;
    viewed = record {
      within = h.viewed.within;
      input = h.viewed.input;
      sent = h.viewed.sent ∙ ap (λ o. h.taken ++ o) (sym e);
      payload = h.viewed.payload;
      is_data = h.viewed.is_data;
    };
    on_wire = h.on_wire;
    all_unsent = h.all_unsent;
    none_lost = h.none_lost;
  }

  -- The two ways on from a flush.
  pub write_or-Stands :
      (w : Wslay C) (d : Direction) (b unwritten asked : Bridge C)
      → Stands f (core b) m
      → core (cleared w b) ≡ core unwritten
      → core (cleared w b) ≡ core asked
      → Stands f (core (write_or w d b.shared.outbound unwritten asked)) m
  write_or-Stands w d b unwritten asked h eu ea = by_bytes b.shared.outbound refl
    where
      by_bytes :
          (out : List ℕ)
          → out ≡ b.shared.outbound
          → Stands f (core (write_or w d out unwritten asked)) m
      by_bytes [] e = subst (λ k. Stands f k m) eu (took_nothing (core b) h e)
      by_bytes (x ∷ xs) e =
          subst
            (λ k.
              Stands f
                (record k { writes = k.writes ++ record { direction = d; bytes = x ∷ xs } ∷ [] }) m)
            ea
            (subst
              (λ o.
                Stands f
                  (record (core (cleared w b)) {
                    writes = b.writes ++ record { direction = d; bytes = o } ∷ [];
                  })
                  m)
              (sym e) (took (core b) h d))

  -- A reader with nothing in its hands.
  pub empty_handed :
      (k : Core C) (r r' : Reader)
      → Stands f k m
      → k.reader ≡ r
      → is_failing r ≡ false
      → pending r ≡ []
      → held r ≡ []
      → pending r' ≡ []
      → held r' ≡ []
      → Stands f (record k { reader = r' }) m
  empty_handed k r r' h e nf p o p' o' = record {
    ctx = h.ctx;
    unsent = h.unsent;
    taken = h.taken;
    lost = h.lost;
    viewed = h.viewed;
    on_wire = λ x.
        h.on_wire x
        ∙ ap (λ l. count x k.wire + count x (queued k.writes) + count x l + count x h.lost)
            (ap held e ∙ o ∙ sym o');
    all_unsent = λ q. h.all_unsent (ap is_failing e ∙ nf) ∙ ap pending e ∙ p ∙ sym p';
    none_lost = h.none_lost;
  }

  pub write_or_case :
      (w : Wslay C) (d : Direction) (bytes : List ℕ) (unwritten asked : Bridge C)
      → (bytes ≡ [] → Stands f (core unwritten) m)
      → Stands f (core (enqueue d bytes asked)) m
      → Stands f (core (write_or w d bytes unwritten asked)) m
  write_or_case w d [] unwritten asked h k = h refl
  write_or_case w d (x ∷ xs) unwritten asked h k = k
