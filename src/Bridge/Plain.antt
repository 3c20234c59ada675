-- ===== src/Bridge/Plain.antt =====
-- rust/crates/h2ts-server/src/wslay.rs, bridge_with: what wslay does in a run, apart from the buffers of the
-- bridge, and how a bridge stands for it.
use h2ts.Common.{
  ℕ, ◌+◌, ◌≡◌, refl, Bool, true, false, ◌==◌, if◌then◌else◌, List, [], ◌∷◌, ◌++◌, arith,
}
use h2ts.Bridge.{Shared, Wslay}
use h2ts.Bridge.Session.{Bridge, Direction, Reader, Write}
use h2ts.Bridge.Steps.{Turn}
use h2ts.Bridge.View.{View, IsViewed, view_run}

abbrev pub count : ℕ → List ℕ → ℕ
count b [] = 0
count b (x ∷ xs) = (if x == b then 1 else 0) + count b xs

pub count-append : (b : ℕ) (xs ys : List ℕ) → count b (xs ++ ys) ≡ count b xs + count b ys
count-append b [] ys = omega arith
count-append b (x ∷ xs) ys = omega (arith, count-append b xs ys)

module _ {C : Type 0} (w : Wslay C) where
  abbrev pub plain_flush : C × View → C × View
  plain_flush (c, v) = let ((_, c1), v1) = view_run (w.send c) v in (c1, v1)

  unfoldable pub plain_turn : Turn → C × View → C × View
  plain_turn (Turn.receives bytes) (c, v) =
      let ((_, c1), v1) = view_run (w.recv c) (record v { input = v.input ++ bytes }) in
      plain_flush (c1, v1)
  plain_turn (Turn.queues_msg opcode payload) (c, v) = plain_flush (w.queue_msg c opcode payload, v)
  plain_turn (Turn.queues_close cf) (c, v) = plain_flush (w.queue_close c cf.code cf.reason, v)

  unfoldable pub plain_turns : List Turn → C × View → C × View
  plain_turns [] m = m
  plain_turns (t ∷ ts) m = plain_turns ts (plain_turn t m)

  pub plain_turns-append :
      (ts us : List Turn) (m : C × View)
      → plain_turns (ts ++ us) m ≡ plain_turns us (plain_turns ts m)
  unfolding plain_turns
  plain_turns-append [] us m = refl
  plain_turns-append (t ∷ ts) us m = plain_turns-append ts us (plain_turn t m)

-- The payload that waits for the peer.
abbrev pub pending : Reader → List ℕ
pending Reader.reading = []
pending (Reader.forwarding r) = r.to_peer
pending (Reader.replying closed pc) = []
pending Reader.failing = []

-- The bytes of wslay that wait until that payload is written.
abbrev pub held : Reader → List ℕ
held Reader.reading = []
held (Reader.forwarding r) = r.outbound
held (Reader.replying closed pc) = []
held Reader.failing = []

abbrev pub queued : List Write → List ℕ
queued [] = []
queued (x ∷ xs) = x.bytes ++ queued xs

pub queued-append :
    (b : ℕ) (xs : List Write) (d : Direction) (bytes : List ℕ)
    → count b (queued (xs ++ record { direction = d; bytes = bytes } ∷ []))
      ≡ count b (queued xs) + count b bytes
queued-append b [] d bytes = omega (arith, count-append b bytes [])
queued-append b (x ∷ xs) d bytes = omega (
  arith,
  queued-append b xs d bytes,
  count-append b x.bytes (queued (xs ++ record { direction = d; bytes = bytes } ∷ [])),
  count-append b x.bytes (queued xs),
)

abbrev pub is_failing : Reader → Bool
is_failing Reader.reading = false
is_failing (Reader.forwarding r) = false
is_failing (Reader.replying closed pc) = false
is_failing Reader.failing = true

-- What of a bridge carries the bytes.
pub record Core (C : Type 0) : Type 0 where
  pub ctx : C
  pub shared : Shared
  pub reader : Reader
  pub peer_out : List ℕ
  pub wire : List ℕ
  pub writes : List Write

abbrev pub core : {C : Type 0} → Bridge C → Core C
core b = record {
  ctx = b.ctx;
  shared = b.shared;
  reader = b.reader;
  peer_out = b.peer_out;
  wire = b.wire;
  writes = b.writes;
}

-- A bridge against its plain machine. Only a failed write loses anything: of the payload what is
-- left of `unsent`, of the bytes of wslay `lost`.
pub record Stands {C : Type 0} (fails : Bool) (k : Core C) (m : C × View) : Type 0 where
  pub ctx : k.ctx ≡ m.0
  pub unsent : List ℕ
  pub taken : List ℕ
  pub lost : List ℕ
  pub viewed : IsViewed (k.peer_out ++ unsent) taken k.shared m.1
  pub on_wire :
      (x : ℕ)
      → count x taken
        ≡ count x k.wire + count x (queued k.writes) + count x (held k.reader) + count x lost
  pub all_unsent : is_failing k.reader ≡ false → unsent ≡ pending k.reader
  pub none_lost : fails ≡ false → lost ≡ []
