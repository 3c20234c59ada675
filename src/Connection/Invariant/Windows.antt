-- ===== src/Connection/Invariant/Windows.antt =====
-- rust/crates/h2ts-client/src/connection.rs: a SETTINGS frame keeps the invariant, and what a handler
-- with a result keeps.
use h2ts.Common.{
  ℕ, ◌≡◌, refl, ap, ◌∙◌, Bool, true, false, ◌==◌, if_case, List, [], ◌∷◌, Option, some, none,
  Bool-cases, inl, inr,
}
use h2ts.Common.Dict.{Dict, find, Each, Lacks, Distinct}
use h2ts.Errors.{Outcome, ok, err, panic}
use h2ts.Frames.Types.{Frame, Settings, no_settings}
use h2ts.Flow.{SendWindow}
use h2ts.Outcomes.{Yields}
use h2ts.Connection.Settings.{Peer, apply_remote_settings}
use h2ts.Connection.Settings.Limits.{
  apply_remote_settings-IsPeer, apply_remote_settings-no_waiters, apply_remote_settings-Yields,
}
use h2ts.Connection.State.{ConnState, StreamState, Cell}
use h2ts.Connection.Blocks.{Done}
use h2ts.Connection.Dispatch.{peer_of, put_peer, put_windows, acknowledge, on_settings}
use h2ts.Connection.Live.{IsLive, IsHeaded, IsOpen}
use h2ts.Connection.Invariant.{IsConn, IsConnUnbounded, send_frame-IsConn}
use h2ts.Connection.Invariant.Teardown.{unbounded}

-- A success keeps the invariant, an error all of it but the bound on a pending header block, and
-- there is no panic.
abbrev pub Keeps : Done → Type 0
Keeps (ok u, st) = IsConn st
Keeps (err e, st) = IsConnUnbounded st
Keeps (panic, st) = ⊥

-- A condition that does not read the window.
abbrev Blind : (ℕ → StreamState → Type 0) → Type 0
Blind P = (id : ℕ) (s : StreamState) (w : SendWindow) → P id s → P id (record s { send_window = w })

Each-put_windows :
    (P : ℕ → StreamState → Type 0) (ws : List SendWindow) (d : Dict StreamState)
    → Blind P
    → Each P d
    → Each P (put_windows ws d)
Each-put_windows P [] d b h = h
Each-put_windows P (w ∷ ws) [] b h = h
Each-put_windows P (w ∷ ws) ((id, s) ∷ d) b h = (b id s w h.0, Each-put_windows P ws d b h.1)

Lacks-put_windows :
    (k : ℕ) (ws : List SendWindow) (d : Dict StreamState) → Lacks k d → Lacks k (put_windows ws d)
Lacks-put_windows k [] d h = h
Lacks-put_windows k (w ∷ ws) [] h = h
Lacks-put_windows k (w ∷ ws) ((id, s) ∷ d) h = (h.0, Lacks-put_windows k ws d h.1)

Distinct-put_windows :
    (ws : List SendWindow) (d : Dict StreamState) → Distinct d → Distinct (put_windows ws d)
Distinct-put_windows [] d h = h
Distinct-put_windows (w ∷ ws) [] h = h
Distinct-put_windows (w ∷ ws) ((id, s) ∷ d) h =
    (Lacks-put_windows id ws d h.0, Distinct-put_windows ws d h.1)

-- A stream that holds its sender.
abbrev Holds : Option StreamState → Type 0
Holds o = (s : StreamState) × (o ≡ some s) × (s.head_tx ≡ true)

-- Whether an entry holds its sender.
abbrev holds : Option StreamState → Bool
holds none = false
holds (some s) = s.head_tx

Holds-write :
    (s : StreamState) (w : SendWindow)
    → Holds (some s)
    → Holds (some (record s { send_window = w }))
Holds-write s w (t, q, h) = (record s { send_window = w }, refl, ap holds q ∙ h)

Holds-put_windows :
    (k : ℕ) (ws : List SendWindow) (d : Dict StreamState)
    → Holds (find k d)
    → Holds (find k (put_windows ws d))
Holds-put_windows k [] d h = h
Holds-put_windows k (w ∷ ws) [] h = h
Holds-put_windows k (w ∷ ws) ((id, s) ∷ d) h = elim (Bool-cases (id == k)) [
  | inl same ↦ rw same (Holds-write s w (rw same at h))
  | inr other ↦ rw other (Holds-put_windows k ws d (rw other at h))
]

put_windows_none : (ws : List SendWindow) (d : Dict StreamState) → d ≡ [] → put_windows ws d ≡ []
put_windows_none [] d h = h
put_windows_none (w ∷ ws) d h = ap (put_windows (w ∷ ws)) h

put_windows-IsLive :
    (ws : List SendWindow) (d : Dict StreamState) (cells : ℕ → Cell)
    → IsLive d cells
    → IsLive (put_windows ws d) cells
put_windows-IsLive ws d cells l = record {
  distinct = Distinct-put_windows ws d l.distinct;
  headed = Each-put_windows IsHeaded ws d (λ id s w h. h) l.headed;
  waits = λ id w. Holds-put_windows id ws d (l.waits id w);
}

put_peer-IsConn :
    (st : ConnState) (s : Settings) (p : Peer)
    → IsConn st
    → apply_remote_settings (peer_of st) s ≡ ok p
    → IsConn (put_peer st p)
put_peer-IsConn st s p h e =
    let limits = apply_remote_settings-IsPeer (peer_of st) p s h.peer e in
    record {
      table = h.table;
      peer = record {
        frame_low = limits.frame_low;
        frame_high = limits.frame_high;
        window_sign = limits.window_sign;
        window_high = limits.window_high;
      };
      block = h.block;
      live = put_windows-IsLive p.stream_windows st.streams st.cells h.live;
      sender = h.sender;
      each = Each-put_windows IsOpen p.stream_windows st.streams (λ id t w o. o) h.each;
      torn = λ c.
          let t = h.torn c in
          record {
            no_streams = put_windows_none p.stream_windows st.streams t.no_streams;
            no_sender = t.no_sender;
            no_pings = t.no_pings;
            no_waiters = apply_remote_settings-no_waiters (peer_of st) p s e t.no_waiters;
          };
    }

acknowledge-Keeps :
    (st : ConnState) (s : Settings) (o : Outcome Peer)
    → IsConn st
    → apply_remote_settings (peer_of st) s ≡ o
    → Yields (λ (p : Peer). Unit) o
    → Keeps (acknowledge st o)
acknowledge-Keeps st s (ok p) h e y =
    send_frame-IsConn IsOpen (put_peer st p) (put_peer-IsConn st s p h e)
      (Frame.settings true no_settings)
acknowledge-Keeps st s (err x) h e y = unbounded st h
acknowledge-Keeps st s panic h e y = y

pub on_settings-Keeps :
    (st : ConnState) (ack : Bool) (s : Settings) → IsConn st → Keeps (on_settings st ack s)
unfolding on_settings
on_settings-Keeps st ack s h =
    if_case Keeps ack (λ a. h)
      (λ a.
        acknowledge-Keeps st s (apply_remote_settings (peer_of st) s) h refl
          (apply_remote_settings-Yields (peer_of st) s))
