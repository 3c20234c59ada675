-- ===== src/Bridge/Closing.antt =====
-- rust/crates/h2ts-server/src/wslay.rs, bridge_with: the hook that tells why a bridge ended.
use h2ts.Common.{
  ℕ, ◌≡◌, refl, sym, ap, ◌∙◌, Bool, true, false, if◌then◌else◌, if_case, List, [], ◌∷◌, ◌++◌,
  Option, some, none,
}
use h2ts.Bridge.{ControlEvent, Wslay}
use h2ts.Bridge.Config.{CloseFrame, BridgeConfig, Ended, closed_with}
use h2ts.Bridge.Session.{
  Bridge, Direction, Received, Reader, Pump, Commands, Keeper, Hook, hooks_of, finish, write_or,
}
use h2ts.Bridge.Directions.{
  replied, forwarded, forward, write_over, reader_over, pump_over, control_over, keeper_over,
}

-- The frames that the hook for the end was called with.
abbrev pub closes : List Hook → List CloseFrame
closes [] = []
closes (Hook.on_close cf ∷ hs) = cf ∷ closes hs
closes (Hook.on_ping p ∷ hs) = closes hs
closes (Hook.on_pong p ∷ hs) = closes hs

closes-append : (xs ys : List Hook) → closes (xs ++ ys) ≡ closes xs ++ closes ys
closes-append [] ys = refl
closes-append (Hook.on_close cf ∷ hs) ys = ap (cf ∷◌) (closes-append hs ys)
closes-append (Hook.on_ping p ∷ hs) ys = closes-append hs ys
closes-append (Hook.on_pong p ∷ hs) ys = closes-append hs ys

closes-hooks_of : (cfg : BridgeConfig) (es : List ControlEvent) → closes (hooks_of cfg es) ≡ []
unfolding hooks_of
closes-hooks_of cfg [] = refl
closes-hooks_of cfg (ControlEvent.close code reason ∷ es) = closes-hooks_of cfg es
closes-hooks_of cfg (ControlEvent.ping p ∷ es) =
    if_case (λ hs. closes hs ≡ []) cfg.on_ping (λ t. closes-hooks_of cfg es)
      (λ t. closes-hooks_of cfg es)
closes-hooks_of cfg (ControlEvent.pong p ∷ es) =
    if_case (λ hs. closes hs ≡ []) cfg.on_pong (λ t. closes-hooks_of cfg es)
      (λ t. closes-hooks_of cfg es)

-- The calls that a result asks for.
abbrev pub told : BridgeConfig → Option Ended → List CloseFrame
told cfg none = []
told cfg (some r) = if cfg.on_close then closed_with r ∷ [] else []

-- The hook was called for the end of the bridge, once, and for nothing else.
abbrev pub IsTold : {C : Type 0} → BridgeConfig → Bridge C → Type 0
IsTold cfg b = closes b.hooks ≡ told cfg b.result

-- A bridge that runs, and called no hook for its end.
abbrev pub IsQuiet : {C : Type 0} → Bridge C → Type 0
IsQuiet b = b.result ≡ none × closes b.hooks ≡ []

pub quiet-IsTold : {C : Type 0} (cfg : BridgeConfig) (b : Bridge C) → IsQuiet b → IsTold cfg b
quiet-IsTold cfg b (r, h) = h ∙ sym (ap (told cfg) r)

pub finish-IsTold :
    {C : Type 0} (cfg : BridgeConfig) (r : Ended) (b : Bridge C)
    → closes b.hooks ≡ []
    → IsTold cfg (finish cfg r b)
unfolding finish
finish-IsTold cfg r b h = both cfg.on_close refl
  where
    both :
        (t : Bool)
        → t ≡ cfg.on_close
        → closes (if t then b.hooks ++ Hook.on_close (closed_with r) ∷ [] else b.hooks)
          ≡ (if t then closed_with r ∷ [] else [])
    both true e =
        closes-append b.hooks (Hook.on_close (closed_with r) ∷ []) ∙ ap (◌++ closed_with r ∷ []) h
    both false e = h

module _ {C : Type 0} (w : Wslay C) (cfg : BridgeConfig) (lossy : List ℕ → List ℕ) where
  pub write_or-IsTold :
      (d : Direction) (bytes : List ℕ) (unwritten asked : Bridge C)
      → IsTold cfg unwritten
      → IsTold cfg asked
      → IsTold cfg (write_or w d bytes unwritten asked)
  write_or-IsTold d [] unwritten asked h k = h
  write_or-IsTold d (x ∷ xs) unwritten asked h k = k

  replied-IsTold :
      (closed : Bool) (pc : Option CloseFrame) (b : Bridge C)
      → IsQuiet b
      → IsTold cfg (replied w cfg lossy closed pc b)
  unfolding replied
  replied-IsTold true pc b (r, h) =
      finish-IsTold cfg _ (record b { reader = Reader.reading; peer_shut = true }) h
  replied-IsTold false pc b q = quiet-IsTold cfg (record b { reader = Reader.reading }) q

  pub forwarded-IsTold :
      (r : Received) (b : Bridge C) → IsQuiet b → IsTold cfg (forwarded w cfg lossy r b)
  unfolding forwarded
  forwarded-IsTold r b (q, h) =
      let quiet =
        closes-append b.hooks (hooks_of cfg r.events)
        ∙ ap (◌++ closes (hooks_of cfg r.events)) h
        ∙ closes-hooks_of cfg r.events in
      write_or-IsTold Direction.ws_to_peer r.outbound _ _
        (replied-IsTold r.closed _ (record b { hooks = b.hooks ++ hooks_of cfg r.events })
          (q, quiet))
        (quiet ∙ sym (ap (told cfg) q))

  pub forward-IsTold :
      (bytes : List ℕ) (r : Received) (b : Bridge C)
      → IsQuiet b
      → IsTold cfg (forward w cfg lossy bytes r b)
  forward-IsTold [] r b q = forwarded-IsTold r b q
  forward-IsTold (x ∷ xs) r b q = quiet-IsTold cfg (record b { reader = Reader.forwarding r }) q

  -- A write that is over.
  reader_over-IsTold :
      (r : Reader) (e : Option (List ℕ)) (b : Bridge C)
      → IsQuiet b
      → IsTold cfg (reader_over w cfg lossy r e b)
  reader_over-IsTold Reader.failing e b (r, h) = finish-IsTold cfg _ b h
  reader_over-IsTold (Reader.replying closed pc) none b q = replied-IsTold closed pc b q
  reader_over-IsTold (Reader.replying closed pc) (some text) b (r, h) = finish-IsTold cfg _ b h
  reader_over-IsTold Reader.reading e b q = quiet-IsTold cfg b q
  reader_over-IsTold (Reader.forwarding r) e b q = quiet-IsTold cfg b q

  pump_over-IsTold :
      (p : Pump) (e : Option (List ℕ)) (b : Bridge C)
      → IsQuiet b
      → IsTold cfg (pump_over w cfg lossy p e b)
  pump_over-IsTold (Pump.closing cf) e b (r, h) = finish-IsTold cfg _ b h
  pump_over-IsTold Pump.writing none b q = quiet-IsTold cfg (record b { pump = Pump.reading }) q
  pump_over-IsTold Pump.writing (some text) b (r, h) = finish-IsTold cfg _ b h
  pump_over-IsTold Pump.reading e b q = quiet-IsTold cfg b q

  control_over-IsTold :
      (p : Commands) (e : Option (List ℕ)) (b : Bridge C)
      → IsQuiet b
      → IsTold cfg (control_over w cfg lossy p e b)
  control_over-IsTold Commands.waiting e b q = quiet-IsTold cfg b q
  control_over-IsTold Commands.writing none b q =
      quiet-IsTold cfg (record b { control = Commands.waiting }) q
  control_over-IsTold Commands.writing (some text) b (r, h) = finish-IsTold cfg _ b h

  keeper_over-IsTold :
      (p : Keeper) (e : Option (List ℕ)) (b : Bridge C)
      → IsQuiet b
      → IsTold cfg (keeper_over w cfg lossy p e b)
  keeper_over-IsTold (Keeper.closing ka) e b (r, h) = finish-IsTold cfg _ b h
  keeper_over-IsTold (Keeper.pinging ka) none b q =
      quiet-IsTold cfg (record b { keeper = Keeper.pinged ka b.now }) q
  keeper_over-IsTold (Keeper.pinging ka) (some text) b (r, h) = finish-IsTold cfg _ b h
  keeper_over-IsTold Keeper.checking e b q = quiet-IsTold cfg b q
  keeper_over-IsTold (Keeper.sleeping t) e b q = quiet-IsTold cfg b q
  keeper_over-IsTold (Keeper.pinged ka t) e b q = quiet-IsTold cfg b q

  pub write_over-IsTold :
      (d : Direction) (e : Option (List ℕ)) (b : Bridge C)
      → IsQuiet b
      → IsTold cfg (write_over w cfg lossy d e b)
  unfolding write_over
  write_over-IsTold Direction.ws_to_peer e b q = reader_over-IsTold b.reader e b q
  write_over-IsTold Direction.peer_to_ws e b q = pump_over-IsTold b.pump e b q
  write_over-IsTold Direction.control_dir e b q = control_over-IsTold b.control e b q
  write_over-IsTold Direction.keepalive_dir e b q = keeper_over-IsTold b.keeper e b q
