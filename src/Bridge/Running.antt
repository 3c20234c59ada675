-- ===== src/Bridge/Running.antt =====
-- rust/crates/h2ts-server/src/wslay.rs, bridge_with: the bytes of a whole run.
use h2ts.Common.{ℕ, ◌≡◌, refl, sym, subst, Bool, true, false, ◌||◌, List, ◌++◌, some, none, take}
use h2ts.Bridge.{Wslay}
use h2ts.Bridge.Config.{BridgeConfig}
use h2ts.Bridge.Session.{Bridge, finish}
use h2ts.Bridge.Directions.{ws_eof}
use h2ts.Bridge.Steps.{Turn, Step, Steps}
use h2ts.Bridge.View.{View}
use h2ts.Bridge.Plain.{Core, core, Stands, plain_turns, plain_turns-append}
use h2ts.Bridge.Reading.{peer_written-Stands}
use h2ts.Bridge.Receiving.{peer_write_failed-Stands, receive-Stands}
use h2ts.Bridge.Sections.{
  pump_read-Stands, pump_end-Stands, control_turn-Stands, keepalive_check-Stands,
  keepalive_due-Stands, write_over-Stands, send-Stands, write-Stands, cut_write-Stands,
}

or_false : (f : Bool) → f ≡ f || false
or_false true = refl
or_false false = refl

or_true : (f : Bool) → true ≡ f || true
or_true true = refl
or_true false = refl

still : {C : Type 0} {k : Core C} {m : C × View} (f : Bool) → Stands f k m → Stands (f || false) k m
still {k = k} {m = m} f x = subst (λ y. Stands y k m) (or_false f) x

torn :
    {C : Type 0} {k : Core C} {m : C × View} (f : Bool) → Stands true k m → Stands (f || true) k m
torn {k = k} {m = m} f x = subst (λ y. Stands y k m) (or_true f) x

module _ {C : Type 0} (w : Wslay C) (cfg : BridgeConfig) (lossy : List ℕ → List ℕ) where
  -- A section of the bridge, and what it asks of wslay, on both sides.
  step-Stands :
      {b b' : Bridge C} {ts : List Turn} {g : Bool} (f : Bool) (c : C) (v : View)
      → Step w cfg lossy b ts g b'
      → Stands f (core b) (c, v)
      → Stands (f || g) (core b') (plain_turns w ts (c, v))
  unfolding plain_turns ws_eof finish
  step-Stands {b = b} f c v (Step.tick d) h = still f h
  step-Stands {b = b} f c v (Step.commanded cmd) h = still f (send-Stands w cfg lossy f c v b h cmd)
  step-Stands {b = b} f c v (Step.ws_read bytes r le me) h =
      still f (receive-Stands w cfg lossy f c v bytes b r h)
  step-Stands {b = b} f c v (Step.ws_ended r) h = still f h
  step-Stands {b = b} f c v (Step.ws_failed text r) h = still f h
  step-Stands {b = b} f c v (Step.peer_write r q) h =
      still f (peer_written-Stands w cfg lossy f (c, v) r b q h)
  step-Stands {b = b} f c v (Step.peer_write_fails r n q) h =
      torn f (peer_write_failed-Stands w cfg lossy f c v r n b q h)
  step-Stands {b = b} f c v (Step.peer_read bytes q le me) h =
      still f (pump_read-Stands w cfg lossy f c v b h bytes)
  step-Stands {b = b} f c v (Step.peer_ended q) h =
      still f (pump_end-Stands w cfg lossy f c v b h cfg.close)
  step-Stands {b = b} f c v (Step.peer_failed q) h =
      still f (pump_end-Stands w cfg lossy f c v b h cfg.error_close)
  step-Stands {b = b} f c v (Step.command cmd rest p q e) h =
      still f (control_turn-Stands w cfg lossy f c v (record b { commands = rest }) h cmd)
  step-Stands {b = b} f c v (Step.check ka p q) h =
      still f (keepalive_check-Stands w cfg lossy f c v b h ka)
  step-Stands {b = b} f c v (Step.wake t q le) h = still f h
  step-Stands {b = b} f c v (Step.due ka p q le) h =
      still f (keepalive_due-Stands w cfg lossy f c v b h ka p)
  step-Stands {b = b} f c v (Step.write_done d bytes rest e) h = still f (
      write_over-Stands w cfg lossy f c v (record b { wire = b.wire ++ bytes; writes = rest })
        (write-Stands w cfg lossy f c v b h d bytes rest e) d none)
  step-Stands {b = b} f c v (Step.write_fails d bytes rest n text e) h = torn f (
      write_over-Stands w cfg lossy true c v
        (record b { wire = b.wire ++ take n bytes; writes = rest })
        (cut_write-Stands w cfg lossy f c v b h d bytes rest n e) d (some text))

  pub steps-Stands :
      {a b : Bridge C} {ts : List Turn} {f : Bool} (c : C) (v : View)
      → Steps w cfg lossy a ts f b
      → Stands false (core a) (c, v)
      → Stands f (core b) (plain_turns w ts (c, v))
  unfolding plain_turns
  steps-Stands c v Steps.done h = h
  steps-Stands {b = b} c v (Steps.next {ts = ts} {us = us} {f = f} {g = g} s live t) h =
      let m = plain_turns w ts (c, v) in
      subst (λ k. Stands (f || g) (core b) k) (sym (plain_turns-append w ts us (c, v)))
        (step-Stands f m.0 m.1 t (steps-Stands c v s h))
