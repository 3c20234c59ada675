-- ===== src/Connection/Pump/Bounds.antt =====
-- rust/crates/h2ts-client/src/connection.rs: the body pump stays within the windows.
use h2ts.Common.{
  ℕ, ◌≤◌, ◌≡◌, refl, sym, Bool, true, false, ◌&&◌, List, Option, some, none, length, take,
  length-take, arith, if◌then◌else◌, subst,
}
use h2ts.Common.Int.{ℤ, pos, negsuc, pos_part, ◌≤ℤ◌, ltb_ℤ, min_ℤ}
use h2ts.Flow.{SendWindow, consume, is_ready}
use h2ts.Connection.Pump.{Shared, Round, grant, send_next, round, consumed, with_stream, while_open}

-- What a round that sends `bytes` from `s` has found and left; `k` is what the offset moves by.
pub record Within (s t : Shared) (k : ℕ) (bytes : List ℕ) : Type 0 where
  pub window : SendWindow
  pub stream_open : s.stream_window ≡ some window
  pub moved : length bytes ≡ k
  pub not_empty : 1 ≤ length bytes
  pub frame_size : length bytes ≤ s.max_frame_size
  pub conn_credit : pos (length bytes) ≤ℤ s.conn_send_window.available
  pub stream_credit : pos (length bytes) ≤ℤ window.available
  pub conn_left : t.conn_send_window ≡ consume s.conn_send_window (pos (length bytes))
  pub stream_left : t.stream_window ≡ some (consume window (pos (length bytes)))

min-le_left : (a b : ℤ) → min_ℤ a b ≤ℤ a
min-le_left a b = ground arith

min-le_right : (a b : ℤ) → min_ℤ a b ≤ℤ b
min-le_right a b = ground arith

le_trans : (a b c : ℤ) → a ≤ℤ b → b ≤ℤ c → a ≤ℤ c
le_trans a b c h k = omega arith

pos_of : (g : ℤ) → ltb_ℤ (pos 0) g ≡ true → (k : ℕ) × (g ≡ pos k) × (1 ≤ k)
pos_of (pos k) h = (k, refl, ground arith)
pos_of (negsuc k) h = absurd (ground arith)

-- A positive grant is within each of its four bounds.
record Granted (c w : ℤ) (max n : ℕ) : Type 0 where
  k : ℕ
  equal : grant c w max n ≡ pos k
  positive : 1 ≤ k
  chunk : k ≤ n
  frame : k ≤ max
  conn : pos k ≤ℤ c
  stream : pos k ≤ℤ w

grant_bounds : (c w : ℤ) (max n : ℕ) → ltb_ℤ (pos 0) (grant c w max n) ≡ true → Granted c w max n
grant_bounds c w max n h =
    let m1 = min_ℤ (pos n) c in
    let m2 = min_ℤ m1 w in
    let (k, e, h1) = pos_of (grant c w max n) h in
    let g1 : pos k ≤ℤ pos max = subst (λ (x : ℤ). x ≤ℤ pos max) e (min-le_right m2 (pos max)) in
    let g2 : pos k ≤ℤ m2 = subst (λ (x : ℤ). x ≤ℤ m2) e (min-le_left m2 (pos max)) in
    let g3 : pos k ≤ℤ m1 = le_trans (pos k) m2 m1 g2 (min-le_left m1 w) in
    let g4 : pos k ≤ℤ pos n = le_trans (pos k) m1 (pos n) g3 (min-le_left (pos n) c) in
    record {
      k = k;
      equal = e;
      positive = h1;
      chunk = omega (arith, g4);
      frame = omega (arith, g1);
      conn = le_trans (pos k) m1 c g3 (min-le_right (pos n) c);
      stream = le_trans (pos k) m2 w g2 (min-le_right m1 w);
    }

-- Which of the three ways a round has taken.
sent_way :
    (stop go : Bool) (j k : ℕ) (xs bytes : List ℕ) (s t : Shared)
    → (let p : Round × Shared =
          if stop
          then (Round.stopped, s)
          else if go
          then (Round.sent j xs, t)
          else (Round.again, s) in
        p.0 ≡ Round.sent k bytes → (go ≡ true) × (j ≡ k) × (xs ≡ bytes) × (p.1 ≡ t))
sent_way true go j k xs bytes s t e = absurd (ground arith)
sent_way false true j k xs bytes s t e = (refl, ground arith, ground arith, refl)
sent_way false false j k xs bytes s t e = absurd (ground arith)

length-take_le : (k : ℕ) (xs : List ℕ) → k ≤ length xs → length (take k xs) ≡ k
length-take_le k xs h = omega (arith, length-take k xs, h)

Within-consumed :
    (s : Shared) (w : SendWindow) (rest : List ℕ)
    → s.stream_window ≡ some w
    → (g : Granted s.conn_send_window.available w.available s.max_frame_size (length rest))
    → Within s (consumed s w (pos g.k)) g.k (take g.k rest)
Within-consumed s w rest hw g =
    let l = length-take_le g.k rest g.chunk in
    record {
      window = w;
      stream_open = hw;
      moved = l;
      not_empty = omega (arith, l, g.positive);
      frame_size = omega (arith, l, g.frame);
      conn_credit = rw l g.conn;
      stream_credit = rw l g.stream;
      conn_left = rw l;
      stream_left = rw l;
    }

send_next-Within :
    (s : Shared) (w : SendWindow) (rest : List ℕ) (k : ℕ) (bytes : List ℕ)
    → s.stream_window ≡ some w
    → (send_next s w rest).0 ≡ Round.sent k bytes
    → Within s (send_next s w rest).1 k bytes
unfolding send_next
send_next-Within s w rest k bytes hw e =
    let n = grant s.conn_send_window.available w.available s.max_frame_size (length rest) in
    let (go, ek, eb, et) =
      sent_way w.closed (ltb_ℤ (pos 0) n) (pos_part n) k (take (pos_part n) rest) bytes s
        (consumed s w n) e in
    let g =
      grant_bounds s.conn_send_window.available w.available s.max_frame_size (length rest) go in
    let found =
      subst (λ (x : ℤ). Within s (consumed s w x) (pos_part x) (take (pos_part x) rest))
        (sym g.equal) (Within-consumed s w rest hw g) in
    subst (λ t. Within s t k bytes) (sym et)
      (subst (λ b. Within s (consumed s w n) k b) eb
        (subst (λ j. Within s (consumed s w n) j (take (pos_part n) rest)) ek found))

-- A test on the way to the sending, of which the other branch sends nothing.
past_park :
    (b : Bool) (x : Round × Shared) (t : Shared) (k : ℕ) (bytes : List ℕ)
    → (if b then x else (Round.parked, t)).0 ≡ Round.sent k bytes
    → (if b then x else (Round.parked, t)) ≡ x
past_park true x t k bytes e = refl
past_park false x t k bytes e = absurd (ground arith)

past_stop :
    (b : Bool) (x : Round × Shared) (t : Shared) (k : ℕ) (bytes : List ℕ)
    → (if b then (Round.stopped, t) else x).0 ≡ Round.sent k bytes
    → (if b then (Round.stopped, t) else x) ≡ x
past_stop true x t k bytes e = absurd (ground arith)
past_stop false x t k bytes e = refl

-- `Within`, carried over to an equal round.
abbrev Carried : Shared → ℕ → List ℕ → Round × Shared → Type 0
Carried s k bytes p = p.0 ≡ Round.sent k bytes → Within s p.1 k bytes

carry :
    (s : Shared) (k : ℕ) (bytes : List ℕ) (p q : Round × Shared)
    → p ≡ q
    → Carried s k bytes q
    → Carried s k bytes p
carry s k bytes p q e c = subst (Carried s k bytes) (sym e) c

with_stream-Within :
    (s : Shared) (w : SendWindow) (rest : List ℕ) (k : ℕ) (bytes : List ℕ) (task : ℕ)
    → s.stream_window ≡ some w
    → Carried s k bytes (with_stream s w rest task)
with_stream-Within s w rest k bytes task hw e =
    let same =
      past_park (is_ready s.conn_send_window && is_ready w) (send_next s w rest) _ k bytes e in
    carry s k bytes (with_stream s w rest task) (send_next s w rest) same
      (send_next-Within s w rest k bytes hw) e

while_open-Within :
    (s : Shared) (o : Option SendWindow) (rest : List ℕ) (k : ℕ) (bytes : List ℕ) (task : ℕ)
    → s.stream_window ≡ o
    → Carried s k bytes (while_open s o rest task)
while_open-Within s none rest k bytes task hw e = absurd (ground arith)
while_open-Within s (some w) rest k bytes task hw e = with_stream-Within s w rest k bytes task hw e

-- A round that sends a DATA frame sends at least one byte, at most the peer's frame size, and no
-- more than either window allows; both windows shrink by exactly the bytes sent, and
-- the offset moves on by as much.
pub round-Within :
    (s : Shared) (rest : List ℕ) (k : ℕ) (bytes : List ℕ) (task : ℕ)
    → (round s rest task).0 ≡ Round.sent k bytes
    → Within s (round s rest task).1 k bytes
unfolding round
round-Within s rest k bytes task e =
    let open_round = while_open s s.stream_window rest task in
    let same = past_stop s.closed open_round s k bytes e in
    carry s k bytes (if s.closed then (Round.stopped, s) else open_round) open_round same
      (while_open-Within s s.stream_window rest k bytes task refl) e

grant_positive :
    (c w : ℤ) (max n : ℕ)
    → ltb_ℤ (pos 0) c ≡ true
    → ltb_ℤ (pos 0) w ≡ true
    → 1 ≤ max
    → 1 ≤ n
    → ltb_ℤ (pos 0) (grant c w max n) ≡ true
grant_positive c w max n hc hw hm hn = ground arith

round_grants :
    (s : Shared) (w : SendWindow) (rest : List ℕ) (task : ℕ)
    → s.closed ≡ false
    → s.stream_window ≡ some w
    → w.closed ≡ false
    → ltb_ℤ (pos 0) s.conn_send_window.available ≡ true
    → ltb_ℤ (pos 0) w.available ≡ true
    → 1 ≤ s.max_frame_size
    → 1 ≤ length rest
    → (k : ℕ) × (bytes : List ℕ) × ((round s rest task).0 ≡ Round.sent k bytes)
unfolding round send_next is_ready
round_grants s w rest task h0 hw h1 hc hs hm hn =
    let n = grant s.conn_send_window.available w.available s.max_frame_size (length rest) in
    let positive =
      grant_positive s.conn_send_window.available w.available s.max_frame_size (length rest) hc hs
        hm hn in
    (pos_part n, take (pos_part n) rest, rw (h0, hw, hc, hs, h1, positive))

-- When both windows have capacity, a round on an open stream with bytes to send sends at least
-- one: the pump neither waits nor spins.
pub round_sends :
    (s : Shared) (w : SendWindow) (rest : List ℕ) (task : ℕ)
    → s.closed ≡ false
    → s.stream_window ≡ some w
    → w.closed ≡ false
    → ltb_ℤ (pos 0) s.conn_send_window.available ≡ true
    → ltb_ℤ (pos 0) w.available ≡ true
    → 1 ≤ s.max_frame_size
    → 1 ≤ length rest
    → (k : ℕ) × (bytes : List ℕ) × ((round s rest task).0 ≡ Round.sent k bytes) × (1 ≤ length bytes)
round_sends s w rest task h0 hw h1 hc hs hm hn =
    let (k, bytes, e) = round_grants s w rest task h0 hw h1 hc hs hm hn in
    (k, bytes, e, (round-Within s rest k bytes task e).not_empty)
