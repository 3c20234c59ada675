-- ===== src/Bridge/Steps.antt =====
-- rust/crates/h2ts-server/src/wslay.rs, bridge_with: the four directions side by side. Between two
-- awaits a direction runs alone, so a run of the bridge is a sequence of their sections.
use h2ts.Common.{
  ℕ, ◌+◌, ◌-◌, ◌≤◌, ◌≡◌, Bool, true, false, ◌||◌, ltb, leb, if◌then◌else◌, List, [], ◌∷◌, ◌++◌,
  some, none, take, length,
}
use h2ts.Bridge.{Wslay}
use h2ts.Bridge.Config.{CloseFrame, KeepAlive, BridgeConfig, Ended, ControlCmd}
use h2ts.Bridge.Session.{
  Bridge, Direction, Write, Received, Reader, Pump, Commands, Keeper, finish, send,
}
use h2ts.Bridge.Directions.{
  receive, peer_written, peer_write_failed, ws_eof, pump_read, pump_end, control_turn,
  keepalive_check, keepalive_due, write_over,
}

-- What a section asks of wslay.
pub data Turn : Type 0 where
  receives : List ℕ → Turn
  queues_msg : ℕ → List ℕ → Turn
  queues_close : CloseFrame → Turn

abbrev pub turn_of : ControlCmd → Turn
turn_of (ControlCmd.ping p) = Turn.queues_msg 9 p
turn_of (ControlCmd.pong p) = Turn.queues_msg 10 p
turn_of (ControlCmd.close cf) = Turn.queues_close cf

module _ {C : Type 0} (w : Wslay C) (cfg : BridgeConfig) (from_utf8_lossy : List ℕ → List ℕ) where
  -- A section, with what it asks of wslay and whether a write failed.
  pub data Step (b : Bridge C) : List Turn → Bool → Bridge C → Type 0 where
    tick : (d : ℕ) → Step b [] false (record b { now = b.now + d })
    commanded : (cmd : ControlCmd) → Step b [] false (send cmd b).1
    ws_read :
        (bytes : List ℕ)
        → b.reader ≡ Reader.reading
        → 1 ≤ length bytes
        → length bytes ≤ 65536
        → Step b (Turn.receives bytes ∷ []) false (receive w cfg from_utf8_lossy bytes b)
    ws_ended : b.reader ≡ Reader.reading → Step b [] false (ws_eof w cfg from_utf8_lossy b)
    ws_failed :
        (text : List ℕ)
        → b.reader ≡ Reader.reading
        → Step b [] false (finish cfg (Ended.failed text) b)
    peer_write :
        (r : Received)
        → b.reader ≡ Reader.forwarding r
        → Step b [] false (peer_written w cfg from_utf8_lossy r b)
    peer_write_fails :
        (r : Received) (n : ℕ)
        → b.reader ≡ Reader.forwarding r
        → Step b
            (Turn.queues_close cfg.error_close ∷ [])
            true
            (peer_write_failed w cfg from_utf8_lossy r n b)
    peer_read :
        (bytes : List ℕ)
        → b.pump ≡ Pump.reading
        → 1 ≤ length bytes
        → length bytes ≤ 65536
        → Step b (Turn.queues_msg 2 bytes ∷ []) false (pump_read w cfg from_utf8_lossy bytes b)
    peer_ended :
        b.pump ≡ Pump.reading
        → Step b
            (Turn.queues_close cfg.close ∷ [])
            false
            (pump_end w cfg from_utf8_lossy cfg.close b)
    peer_failed :
        b.pump ≡ Pump.reading
        → Step b
            (Turn.queues_close cfg.error_close ∷ [])
            false
            (pump_end w cfg from_utf8_lossy cfg.error_close b)
    command :
        (cmd : ControlCmd) (rest : List ControlCmd)
        → cfg.control ≡ true
        → b.control ≡ Commands.waiting
        → b.commands ≡ cmd ∷ rest
        → Step b
            (turn_of cmd ∷ [])
            false
            (control_turn w cfg from_utf8_lossy cmd (record b { commands = rest }))
    check :
        (ka : KeepAlive)
        → cfg.keepalive ≡ some ka
        → b.keeper ≡ Keeper.checking
        → Step b
            (if ltb (b.now - b.last_activity) ka.interval then [] else Turn.queues_msg 9 [] ∷ [])
            false
            (keepalive_check w cfg from_utf8_lossy ka b)
    wake :
        (t : ℕ)
        → b.keeper ≡ Keeper.sleeping t
        → t ≤ b.now
        → Step b [] false (record b { keeper = Keeper.checking })
    due :
        (ka : KeepAlive) (pinged_at : ℕ)
        → b.keeper ≡ Keeper.pinged ka pinged_at
        → pinged_at + ka.timeout ≤ b.now
        → Step b
            (if leb b.last_activity pinged_at then Turn.queues_close ka.close ∷ [] else [])
            false
            (keepalive_due w cfg from_utf8_lossy ka pinged_at b)
    write_done :
        (d : Direction) (bytes : List ℕ) (rest : List Write)
        → b.writes ≡ record { direction = d; bytes = bytes } ∷ rest
        → Step b [] false (
            write_over w cfg from_utf8_lossy d none
              (record b { wire = b.wire ++ bytes; writes = rest }))
    write_fails :
        (d : Direction) (bytes : List ℕ) (rest : List Write) (n : ℕ) (text : List ℕ)
        → b.writes ≡ record { direction = d; bytes = bytes } ∷ rest
        → Step b [] true (
            write_over w cfg from_utf8_lossy d
              (some text)
              (record b { wire = b.wire ++ take n bytes; writes = rest }))

  -- A run, until the first direction ends.
  pub data Steps (a : Bridge C) : List Turn → Bool → Bridge C → Type 0 where
    done : Steps a [] false a
    next :
        {b c : Bridge C} {ts us : List Turn} {f g : Bool}
        → Steps a ts f b
        → b.result ≡ none
        → Step b us g c
        → Steps a (ts ++ us) (f || g) c
