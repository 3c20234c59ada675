-- ===== src/Connection/Invariant.antt =====
-- rust/crates/h2ts-client/src/connection.rs: what every call leaves true of the connection's state.
pub mod Endings
pub mod Drain
pub mod Teardown
pub mod Windows
pub mod Frames
pub mod Blocks
pub mod Driver
pub mod Calls
pub mod Farewell
use h2ts.Common.{
  true-ne-false, subst, ℕ, ◌+◌, ◌≤◌, ◌≡◌, refl, sym, ap, ◌∙◌, ◌≢◌, Bool, true, false, not, ◌&&◌,
  ◌==◌, ==_iff, Bool-cases, inl, inr, if◌then◌else◌, List, [], ◌∷◌, ◌++◌, Option, some, none,
  Option-cases, arith, length,
}
use mathlib.Core.List.{flatten}
use h2ts.Common.Dict.{
  Dict, find, put, remove, update, Each, Lacks, Distinct, Each-find, Each-put, Each-remove,
  find-Lacks, find-remove_self,
}
use h2ts.Errors.{H2Error}
use h2ts.Frames.Types.{Frame}
use h2ts.Hpack.Table.{IsTable}
use h2ts.Common.Int.{pos_part, neg_part}
use h2ts.Connection.Settings.{RemoteSettings}
use h2ts.Connection.Settings.Limits.{IsPeer}
use h2ts.Connection.State.{
  ConnState, StreamState, Cell, HeadSlot, PendingHeaderBlock, max_header_block_size, Output,
  write_raw, send_frame, wake_slot_waiters, set_cell,
}
use h2ts.Connection.Blocks.{put_stream}
use h2ts.Connection.Dispatch.{peer_of}
use h2ts.Connection.Live.{none-ne-some, IsLive, IsHeaded, IsOpen, put-IsLive, remove-IsLive}

-- A pending header block is counted, and within the bound.
abbrev pub IsBlock : Option PendingHeaderBlock → Type 0
IsBlock none = Unit
IsBlock (some pb) = (pb.size ≡ length (flatten pb.fragments)) × (pb.size ≤ max_header_block_size)

-- After the teardown nothing is left that could wait, and nothing more is sent.
pub record IsTorn (st : ConnState) : Type 0 where
  pub no_streams : st.streams ≡ []
  pub no_sender : st.out_tx ≡ false
  pub no_pings : st.pings ≡ []
  pub no_waiters : st.slot_waiters ≡ []

-- The invariant, with a condition on each stream of the map.
pub record IsConnFor (P : ℕ → StreamState → Type 0) (st : ConnState) : Type 0 where
  pub table : IsTable st.decoder
  pub peer : IsPeer (peer_of st)
  pub block : st.closed ≡ false → IsBlock st.pending_header_block
  pub live : IsLive st.streams st.cells
  pub sender : st.closed ≡ false → st.out_tx ≡ true
  pub each : Each P st.streams
  pub torn : st.closed ≡ true → IsTorn st

-- The decoder's table is well formed, the peer's settings are within their limits, the pending header
-- block of an open connection is counted and bounded, its outbound sender is held, each waiting request has its stream, no fully
-- closed stream stays, and a closed connection is torn down.
abbrev pub IsConn : ConnState → Type 0
IsConn = IsConnFor IsOpen

-- The same, but for the pending header block, which may be too large.
abbrev pub IsConnUnbounded : ConnState → Type 0
IsConnUnbounded st = IsConn (record st { pending_header_block = none })

-- The same, but for the stream that is worked on, of which both directions may have ended.
abbrev pub IsOpenBut : ℕ → ℕ → StreamState → Type 0
IsOpenBut id j s = j ≢ id → IsOpen j s

abbrev pub IsConnBut : ℕ → ConnState → Type 0
IsConnBut id = IsConnFor (IsOpenBut id)

-- The limits are on the remote settings only.
pub same-IsPeer :
    (st u : ConnState) → u.remote ≡ st.remote → IsPeer (peer_of st) → IsPeer (peer_of u)
same-IsPeer st u e p = record {
  frame_low = omega (arith, p.frame_low, ap (λ (r : RemoteSettings). r.max_frame_size) e);
  frame_high = omega (arith, p.frame_high, ap (λ (r : RemoteSettings). r.max_frame_size) e);
  window_sign = ap (λ (r : RemoteSettings). neg_part r.initial_window_size) e ∙ p.window_sign;
  window_high =
      omega (arith, p.window_high, ap (λ (r : RemoteSettings). pos_part r.initial_window_size) e);
}

same_head :
    (cells : ℕ → Cell) (id : ℕ) (c : Cell)
    → c.head ≡ (cells id).head
    → (j : ℕ) → (cells j).head ≡ (update cells id c j).head
same_head cells id c e j = elim (Bool-cases (j == id)) [
  | inl same ↦ rw same (ap (λ k. (cells k).head) ((==_iff j id).0 same) ∙ sym e)
  | inr other ↦ rw other
]

-- A state that differs in nothing that the invariant reads.
pub core-IsConn :
    (P : ℕ → StreamState → Type 0) (st u : ConnState)
    → IsConnFor P st
    → u.decoder ≡ st.decoder
    → u.remote ≡ st.remote
    → u.pending_header_block ≡ st.pending_header_block
    → u.streams ≡ st.streams
    → u.cells ≡ st.cells
    → u.closed ≡ st.closed
    → u.out_tx ≡ st.out_tx
    → u.pings ≡ st.pings
    → u.slot_waiters ≡ st.slot_waiters
    → IsConnFor P u
core-IsConn P st u h ed er eb es ec ef eo ep ew = record {
  table = subst IsTable (sym ed) h.table;
  peer = same-IsPeer st u er h.peer;
  block = λ c. subst IsBlock (sym eb) (h.block (sym ef ∙ c));
  live = subst (IsLive u.streams) (sym ec) (subst (λ d. IsLive d st.cells) (sym es) h.live);
  sender = λ c. eo ∙ h.sender (sym ef ∙ c);
  each = subst (Each P) (sym es) h.each;
  torn = λ c.
      let t = h.torn (sym ef ∙ c) in
      record {
        no_streams = es ∙ t.no_streams;
        no_sender = eo ∙ t.no_sender;
        no_pings = ep ∙ t.no_pings;
        no_waiters = ew ∙ t.no_waiters;
      };
}

module _ (P : ℕ → StreamState → Type 0) (st : ConnState) (h : IsConnFor P st) where
  pub write_raw-IsConn : (o : Output) → IsConnFor P (write_raw st o)
  unfolding write_raw
  write_raw-IsConn o =
      core-IsConn P st (write_raw st o) h refl refl refl refl refl refl refl refl refl

  pub send_frame-IsConn : (f : Frame) → IsConnFor P (send_frame st f)
  unfolding send_frame
  send_frame-IsConn f = write_raw-IsConn (Output.frame f)

  pub wake_slot_waiters-IsConn : IsConnFor P (wake_slot_waiters st)
  unfolding wake_slot_waiters
  wake_slot_waiters-IsConn = record {
    table = h.table;
    peer = same-IsPeer st (wake_slot_waiters st) refl h.peer;
    block = h.block;
    live = h.live;
    sender = h.sender;
    each = h.each;
    torn = λ e.
        let t = h.torn e in
        record {
          no_streams = t.no_streams;
          no_sender = t.no_sender;
          no_pings = t.no_pings;
          no_waiters = refl;
        };
  }

  -- A connection with a stream is not closed.
  pub found_open : (id : ℕ) (s : StreamState) → find id st.streams ≡ some s → st.closed ≡ false
  found_open id s e = elim (Bool-cases st.closed) [
    | inl c ↦ absurd (none-ne-some s (ap (find id) (sym (h.torn c).no_streams) ∙ e))
    | inr o ↦ o
  ]

  -- A stream that was found is written, with its cell.
  pub put_stream-IsConn :
      (Q : ℕ → StreamState → Type 0) (id : ℕ) (s s' : StreamState) (c : Cell)
      → find id st.streams ≡ some s
      → IsHeaded id s'
      → (c.head ≡ HeadSlot.waiting → s'.head_tx ≡ true)
      → Each Q (put id s' st.streams)
      → IsConnFor Q (put_stream st id (s', c))
  put_stream-IsConn Q id s s' c e hs hc q = record {
    table = h.table;
    peer = same-IsPeer st (put_stream st id (s', c)) refl h.peer;
    block = h.block;
    live = put-IsLive st.streams st.cells id s' c h.live hs hc;
    sender = h.sender;
    each = q;
    torn = λ t. absurd (true-ne-false (sym t ∙ found_open id s e));
  }

  -- A stream that was found is taken out.
  pub remove-IsConn :
      (Q : ℕ → StreamState → Type 0) (id : ℕ) (s : StreamState) (c : Cell)
      → find id st.streams ≡ some s
      → c.head ≢ HeadSlot.waiting
      → Each Q (remove id st.streams)
      → IsConnFor Q (set_cell (record st { streams = remove id st.streams }) id c)
  remove-IsConn Q id s c e hc q = record {
    table = h.table;
    peer =
        same-IsPeer st (set_cell (record st { streams = remove id st.streams }) id c) refl h.peer;
    block = h.block;
    live = remove-IsLive st.streams st.cells id c h.live hc;
    sender = h.sender;
    each = q;
    torn = λ t. absurd (true-ne-false (sym t ∙ found_open id s e));
  }

  -- Only the store is written, and no cell starts to wait.
  pub set_cell-IsConn :
      (id : ℕ) (c : Cell) → c.head ≡ (st.cells id).head → IsConnFor P (set_cell st id c)
  set_cell-IsConn id c e = record {
    table = h.table;
    peer = same-IsPeer st (set_cell st id c) refl h.peer;
    block = h.block;
    live = record {
      distinct = h.live.distinct;
      headed = h.live.headed;
      waits = λ j w. h.live.waits j (same_head st.cells id c e j ∙ w);
    };
    sender = h.sender;
    each = h.each;
    torn = λ t.
        let k = h.torn t in
        record {
          no_streams = k.no_streams;
          no_sender = k.no_sender;
          no_pings = k.no_pings;
          no_waiters = k.no_waiters;
        };
  }
