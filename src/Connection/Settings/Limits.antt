-- ===== src/Connection/Settings/Limits.antt =====
-- rust/crates/h2ts-client/src/connection.rs: what a SETTINGS frame leaves within its limits, and
-- what it does to the windows of the open streams.
use h2ts.Common.{
  ℕ, ◌-◌, ◌^◌, ◌≤◌, ◌≡◌, refl, ap, ap₂, ◌∙◌, Bool, true, false, ◌||◌, ltb, ltb-false→le, List, [],
  ◌∷◌, map, Option, some, none, arith, subst,
}
use h2ts.Common.Int.{ℤ, pos, pos_part, neg_part, ◌+ℤ◌, ◌-ℤ◌, +ℤ_parts, -ℤ_parts, eq_of_parts}
use h2ts.Errors.{Outcome, ok, err, panic, ◌>>=◌, ◌>>◌, reject, H2Error}
use h2ts.Outcomes.{Yields, Yields-bind, Yields-reject}
use h2ts.Frames.Types.{Settings}
use h2ts.Flow.{SendWindow, adjust, wake}
use h2ts.Connection.Settings.{
  Peer, set_initial_window, apply_window, apply_frame_size, apply_table_size, apply_push,
  apply_streams, apply_remote_settings,
}

-- The limits of RFC 9113, 6.5.2.
pub record IsPeer (p : Peer) : Type 0 where
  pub frame_low : 16384 ≤ p.remote.max_frame_size
  pub frame_high : p.remote.max_frame_size ≤ 16_777_215
  pub window_sign : neg_part p.remote.initial_window_size ≡ 0
  pub window_high : pos_part p.remote.initial_window_size ≤ 2 ^ 31 - 1

-- How much of its window each open stream has used.
abbrev pub used : Peer → List ℤ
used p = map (λ w. p.remote.initial_window_size -ℤ w.available) p.stream_windows

passed : (b : Bool) (e : H2Error) (x q : Peer) → (reject b e >> ok x) ≡ ok q → (b ≡ false) × (x ≡ q)
passed true e x q h = absurd (ground arith)
passed false e x q h = (refl, ground arith)

both_ok :
    (m : Outcome Peer) (f : Peer → Outcome Peer) (q : Peer)
    → (m >>= f) ≡ ok q
    → (p : Peer) × (m ≡ ok p) × (f p ≡ ok q)
both_ok (ok p) f q h = (p, refl, h)
both_ok (err e) f q h = absurd (ground arith)
both_ok panic f q h = absurd (ground arith)

ok_inj : (p q : Peer) → ok p ≡ ok q → p ≡ q
ok_inj p q h = ground arith

-- One stream: the window moves with the initial one.
used_moves : (i n a : ℤ) → n -ℤ (a +ℤ (n -ℤ i)) ≡ i -ℤ a
used_moves i n a =
    eq_of_parts (n -ℤ (a +ℤ (n -ℤ i))) (i -ℤ a)
      (omega (arith, -ℤ_parts n (a +ℤ (n -ℤ i)), +ℤ_parts a (n -ℤ i), -ℤ_parts n i, -ℤ_parts i a))

adjust-available : (w : SendWindow) (d : ℤ) → (adjust w d).available ≡ w.available +ℤ d
unfolding adjust wake
adjust-available w d = ground arith

used_windows :
    (i n : ℤ) (ws : List SendWindow)
    → map (λ w. n -ℤ w.available) (map (λ w. adjust w (n -ℤ i)) ws) ≡ map (λ w. i -ℤ w.available) ws
used_windows i n [] = refl
used_windows i n (w ∷ ws) =
    ap₂ (◌∷◌) (ap (n -ℤ◌) (adjust-available w (n -ℤ i)) ∙ used_moves i n w.available)
      (used_windows i n ws)

-- What each part of `apply_remote_settings` keeps.
record Kept (p q : Peer) : Type 0 where
  limits : IsPeer p → IsPeer q
  same_use : used q ≡ used p
  no_waiters : p.slot_waiters ≡ [] → q.slot_waiters ≡ []

Kept-trans : (p q r : Peer) → Kept p q → Kept q r → Kept p r
Kept-trans p q r h k = record {
  limits = λ v. k.limits (h.limits v);
  same_use = k.same_use ∙ h.same_use;
  no_waiters = λ n. k.no_waiters (h.no_waiters n);
}

apply_window-Kept : (p q : Peer) (o : Option ℕ) → apply_window p o ≡ ok q → Kept p q
unfolding apply_window set_initial_window
apply_window-Kept p q none e =
    subst (Kept p) (ok_inj p q e) record { limits = λ v. v; same_use = refl; no_waiters = λ n. n }
apply_window-Kept p q (some iw) e =
    let (small, same) = passed (ltb 0x7fff_ffff iw) _ (set_initial_window p iw) q e in
    subst (Kept p) same record {
      limits = λ v. record {
        frame_low = v.frame_low;
        frame_high = v.frame_high;
        window_sign = refl;
        window_high = omega (arith, ltb-false→le 0x7fff_ffff iw small);
      };
      same_use = used_windows p.remote.initial_window_size (pos iw) p.stream_windows;
      no_waiters = λ n. n;
    }

neither : (a b : Bool) → (a || b) ≡ false → (a ≡ false) × (b ≡ false)
neither a b h = ground arith

apply_frame_size-Kept : (p q : Peer) (o : Option ℕ) → apply_frame_size p o ≡ ok q → Kept p q
unfolding apply_frame_size
apply_frame_size-Kept p q none e =
    subst (Kept p) (ok_inj p q e) record { limits = λ v. v; same_use = refl; no_waiters = λ n. n }
apply_frame_size-Kept p q (some mfs) e =
    let (inside, same) = passed (ltb mfs 16384 || ltb 16_777_215 mfs) _ _ q e in
    let (low, high) = neither (ltb mfs 16384) (ltb 16_777_215 mfs) inside in
    subst (Kept p) same record {
      limits = λ v. record {
        frame_low = ltb-false→le mfs 16384 low;
        frame_high = ltb-false→le 16_777_215 mfs high;
        window_sign = v.window_sign;
        window_high = v.window_high;
      };
      same_use = refl;
      no_waiters = λ n. n;
    }

same_limits :
    (p q : Peer)
    → q.remote.max_frame_size ≡ p.remote.max_frame_size
    → q.remote.initial_window_size ≡ p.remote.initial_window_size
    → q.stream_windows ≡ p.stream_windows
    → (p.slot_waiters ≡ [] → q.slot_waiters ≡ [])
    → Kept p q
same_limits p q hf hi hs hw = record {
  limits = λ v. record {
    frame_low = omega (arith, hf, v.frame_low);
    frame_high = omega (arith, hf, v.frame_high);
    window_sign = ap neg_part hi ∙ v.window_sign;
    window_high = omega (arith, ap pos_part hi, v.window_high);
  };
  same_use = ap₂ (λ i ws. map (λ (w : SendWindow). i -ℤ w.available) ws) hi hs;
  no_waiters = hw;
}

apply_table_size-Kept : (p : Peer) (o : Option ℕ) → Kept p (apply_table_size p o)
apply_table_size-Kept p none = same_limits p _ refl refl refl (λ n. n)
apply_table_size-Kept p (some v) = same_limits p _ refl refl refl (λ n. n)

apply_push-Kept : (p : Peer) (o : Option Bool) → Kept p (apply_push p o)
apply_push-Kept p none = same_limits p _ refl refl refl (λ n. n)
apply_push-Kept p (some v) = same_limits p _ refl refl refl (λ n. n)

apply_streams-Kept : (p : Peer) (o : Option ℕ) → Kept p (apply_streams p o)
apply_streams-Kept p none = same_limits p _ refl refl refl (λ n. n)
apply_streams-Kept p (some v) = same_limits p _ refl refl refl (λ n. refl)

apply_remote_settings-Kept :
    (p q : Peer) (s : Settings) → apply_remote_settings p s ≡ ok q → Kept p q
unfolding apply_remote_settings
apply_remote_settings-Kept p q s e =
    let (p1, e1, k1) = both_ok (apply_window p s.initial_window_size) _ q e in
    let (p2, e2, k2) = both_ok (apply_frame_size p1 s.max_frame_size) _ q k1 in
    let p3 = apply_table_size p2 s.header_table_size in
    let p4 = apply_push p3 s.enable_push in
    let p5 = apply_streams p4 s.max_concurrent_streams in
    let first =
      Kept-trans p p1 p2 (apply_window-Kept p p1 s.initial_window_size e1)
        (apply_frame_size-Kept p1 p2 s.max_frame_size e2) in
    let plain = Kept-trans p2 p3 p5 (apply_table_size-Kept p2 s.header_table_size) (
      Kept-trans p3 p4 p5 (apply_push-Kept p3 s.enable_push)
        (apply_streams-Kept p4 s.max_concurrent_streams)) in
    subst (Kept p) (ok_inj p5 q k2) (Kept-trans p p2 p5 first plain)

-- Settings do not park a request.
pub apply_remote_settings-no_waiters :
    (p q : Peer) (s : Settings)
    → apply_remote_settings p s ≡ ok q
    → p.slot_waiters ≡ []
    → q.slot_waiters ≡ []
apply_remote_settings-no_waiters p q s e = (apply_remote_settings-Kept p q s e).no_waiters

apply_window-Yields : (p : Peer) (o : Option ℕ) → Yields (λ (q : Peer). Unit) (apply_window p o)
unfolding apply_window
apply_window-Yields p none = tt
apply_window-Yields p (some iw) =
    Yields-reject (λ (q : Peer). Unit) (ltb 0x7fff_ffff iw) _ (ok (set_initial_window p iw))
      (λ f. tt)

apply_frame_size-Yields :
    (p : Peer) (o : Option ℕ) → Yields (λ (q : Peer). Unit) (apply_frame_size p o)
unfolding apply_frame_size
apply_frame_size-Yields p none = tt
apply_frame_size-Yields p (some mfs) =
    Yields-reject (λ (q : Peer). Unit) (ltb mfs 16384 || ltb 16_777_215 mfs) _ (ok _) (λ f. tt)

pub apply_remote_settings-Yields :
    (p : Peer) (s : Settings) → Yields (λ (q : Peer). Unit) (apply_remote_settings p s)
unfolding apply_remote_settings
apply_remote_settings-Yields p s =
    Yields-bind (λ (q : Peer). Unit) (λ (q : Peer). Unit) (apply_window p s.initial_window_size) _
      (apply_window-Yields p s.initial_window_size)
      λ q u.
        Yields-bind (λ (r : Peer). Unit) (λ (r : Peer). Unit) (apply_frame_size q s.max_frame_size)
          _ (apply_frame_size-Yields q s.max_frame_size) λ r v. tt

-- Settings that are accepted leave the peer's frame size within 2 ^ 14 and 2 ^ 24 - 1, and its
-- initial window not negative and below 2 ^ 31.
pub apply_remote_settings-IsPeer :
    (p q : Peer) (s : Settings) → IsPeer p → apply_remote_settings p s ≡ ok q → IsPeer q
apply_remote_settings-IsPeer p q s h e = (apply_remote_settings-Kept p q s e).limits h

-- A new initial window moves the window of every open stream by the same amount: what each stream
-- has used of it, the initial window less the capacity that is left, stays the same.
pub apply_remote_settings-used :
    (p q : Peer) (s : Settings) → apply_remote_settings p s ≡ ok q → used q ≡ used p
apply_remote_settings-used p q s e = (apply_remote_settings-Kept p q s e).same_use
