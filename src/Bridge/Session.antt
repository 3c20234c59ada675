-- ===== src/Bridge/Session.antt =====
-- rust/crates/h2ts-server/src/wslay.rs, bridge_with: what a bridge keeps, how it starts and ends, and
-- what all its directions do.
use h2ts.Common.{ℕ, Bool, true, false, ◌==◌, if◌then◌else◌, List, [], ◌∷◌, ◌++◌, Option, some, none}
use h2ts.Bridge.{ControlEvent, Shared, new_shared, Wslay, run}
use mathlib.Core.Option.{map}
use h2ts.Bridge.Config.{
  CloseFrame, KeepAlive, BridgeConfig, EndReason, Ended, ControlCmd, closed_with,
}

pub data Direction : Type 0 where
  ws_to_peer : Direction
  peer_to_ws : Direction
  control_dir : Direction
  keepalive_dir : Direction

-- A `write_all` to the socket. The lock is fair, so the writes go out in the order they asked for it.
pub record Write : Type 0 where
  pub direction : Direction
  pub bytes : List ℕ

-- What a read took from the state shared with wslay.
pub record Received : Type 0 where
  pub to_peer : List ℕ
  pub outbound : List ℕ
  pub closed : Bool
  pub events : List ControlEvent

-- Where a direction waits: for its input, or for a write.
pub data Reader : Type 0 where
  reading : Reader
  forwarding : Received → Reader
  replying : Bool → Option CloseFrame → Reader
  failing : Reader

pub data Pump : Type 0 where
  reading : Pump
  writing : Pump
  closing : CloseFrame → Pump

pub data Commands : Type 0 where
  waiting : Commands
  writing : Commands

pub data Keeper : Type 0 where
  checking : Keeper
  sleeping : ℕ → Keeper
  pinging : KeepAlive → Keeper
  pinged : KeepAlive → ℕ → Keeper
  closing : KeepAlive → Keeper

pub data Hook : Type 0 where
  on_close : CloseFrame → Hook
  on_ping : List ℕ → Hook
  on_pong : List ℕ → Hook

-- A running bridge, what it wrote to both sides, the hooks it called, and how it ended.
pub record Bridge (C : Type 0) : Type 0 where
  pub ctx : C
  pub shared : Shared
  pub now : ℕ
  pub last_activity : ℕ
  pub reader : Reader
  pub pump : Pump
  pub control : Commands
  pub commands : List ControlCmd
  pub keeper : Keeper
  pub writes : List Write
  pub peer_out : List ℕ
  pub peer_shut : Bool
  pub wire : List ℕ
  pub hooks : List Hook
  pub result : Option Ended

-- The last Close of a read; a Close without a code has code 1005.
unfoldable pub close_frame : (List ℕ → List ℕ) → ℕ → List ℕ → CloseFrame
close_frame from_utf8_lossy code reason = record {
  code = if code == 0 then 1005 else code;
  reason = from_utf8_lossy reason;
}

unfoldable pub peer_close_of :
    (List ℕ → List ℕ) → List ControlEvent → Option CloseFrame → Option CloseFrame
peer_close_of lossy [] pc = pc
peer_close_of lossy (ControlEvent.close code reason ∷ es) pc =
    peer_close_of lossy es (some (close_frame lossy code reason))
peer_close_of lossy (ControlEvent.ping p ∷ es) pc = peer_close_of lossy es pc
peer_close_of lossy (ControlEvent.pong p ∷ es) pc = peer_close_of lossy es pc

unfoldable pub hooks_of : BridgeConfig → List ControlEvent → List Hook
hooks_of cfg [] = []
hooks_of cfg (ControlEvent.close code reason ∷ es) = hooks_of cfg es
hooks_of cfg (ControlEvent.ping p ∷ es) =
    let rest = hooks_of cfg es in if cfg.on_ping then Hook.on_ping p ∷ rest else rest
hooks_of cfg (ControlEvent.pong p ∷ es) =
    let rest = hooks_of cfg es in if cfg.on_pong then Hook.on_pong p ∷ rest else rest

-- `peer_close.map_or(EndReason::Abnormal, EndReason::PeerClose)`
abbrev pub end_of : Option CloseFrame → EndReason
end_of none = EndReason.abnormal
end_of (some cf) = EndReason.peer_close cf

-- The first direction to end takes the others down, and calls the hook.
unfoldable pub finish : {C : Type 0} → BridgeConfig → Ended → Bridge C → Bridge C
finish cfg r b = record b {
  result = some r;
  hooks = if cfg.on_close then b.hooks ++ Hook.on_close (closed_with r) ∷ [] else b.hooks;
}

-- The bridge asks for the lock and waits.
abbrev pub enqueue : {C : Type 0} → Direction → List ℕ → Bridge C → Bridge C
enqueue d bytes b = record b { writes = b.writes ++ record { direction = d; bytes = bytes } ∷ [] }

module _ {C : Type 0} (w : Wslay C) where
  -- `wslay_event_send`
  unfoldable pub flush : Bridge C → Bridge C
  flush b = let ((_, c), s) = run (w.send b.ctx) b.shared in record b { ctx = c; shared = s }

  abbrev pub queue_msg : ℕ → List ℕ → Bridge C → Bridge C
  queue_msg opcode payload b = record b { ctx = w.queue_msg b.ctx opcode payload }

  abbrev pub queue_close : CloseFrame → Bridge C → Bridge C
  queue_close cf b = record b { ctx = w.queue_close b.ctx cf.code cf.reason }

  -- `std::mem::take(outbound)`
  abbrev pub cleared : Bridge C → Bridge C
  cleared b = record b { shared = record b.shared { outbound = [] } }

  -- `write_all`, if there is something to write.
  abbrev pub write_or : Direction → List ℕ → Bridge C → Bridge C → Bridge C
  write_or d [] unwritten asked = unwritten
  write_or d (x ∷ xs) unwritten asked = enqueue d (x ∷ xs) asked

abbrev pub has_ended : Option Ended → Bool
has_ended none = false
has_ended (some r) = true

-- `WsControl::send`: it fails once the bridge has ended.
unfoldable pub send : {C : Type 0} → ControlCmd → Bridge C → Bool × Bridge C
send cmd b =
    if has_ended b.result
    then (false, b)
    else (true, record b { commands = b.commands ++ cmd ∷ [] })

-- A bridge at its start. Without a context of wslay there is none.
abbrev pub start : {C : Type 0} → C → ℕ → Bridge C
start ctx now = record {
  ctx = ctx;
  shared = new_shared;
  now = now;
  last_activity = now;
  reader = Reader.reading;
  pump = Pump.reading;
  control = Commands.waiting;
  commands = [];
  keeper = Keeper.checking;
  writes = [];
  peer_out = [];
  peer_shut = false;
  wire = [];
  hooks = [];
  result = none;
}

-- `bridge_with` up to its loop.
unfoldable pub bridge_with : {C : Type 0} → Wslay C → ℕ → Option (Bridge C)
bridge_with w now = map (λ c. start (w.set_no_buffering c) now) w.server_init
