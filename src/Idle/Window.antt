-- ===== src/Idle/Window.antt =====
-- rust/crates/h2ts-server/src/idle.rs: when a connection is reaped.
use h2ts.Common.{
  ℕ, ◌+◌, ◌≤◌, ◌≡◌, ◌≢◌, refl, sym, ap, ◌∙◌, Bool, true, false, ◌==◌, ==_iff, subst, true-ne-false,
  if_case, List, [], ◌∷◌, ◌++◌, Option, some, none, length, length-append, arith, ◌⊎◌, inl, inr,
}
use h2ts.Idle.{
  StreamCounter, Tracked, Waiter, Served, new_served, enter, release, call, respond, leave, look,
  reap, Step, Steps,
}

-- What the waiter's window says, if no change is unseen: there is no stream, and there was none from
-- an `idle` before its end.
abbrev InWindow : ℕ → ℕ → StreamCounter → Waiter → Type 0
InWindow idle seen c Waiter.looking = Unit
InWindow idle seen c Waiter.busy = Unit
InWindow idle seen c (Waiter.idle_until t) =
    seen ≡ c.version → (c.open_streams ≡ 0) × (c.changed_at + idle ≤ t)
InWindow idle seen c Waiter.returned = Unit

record IsServed (idle : ℕ) (s : Served) : Type 0 where
  counted : s.counter.open_streams ≡ length s.streams
  past : s.counter.changed_at ≤ s.now
  seen_before : s.seen ≤ s.counter.version
  window : InWindow idle s.seen s.counter s.waiter

-- A change that is not seen.
unseen :
    (idle seen : ℕ) (c : StreamCounter) (w : Waiter) → seen + 1 ≤ c.version → InWindow idle seen c w
unseen idle seen c Waiter.looking h = tt
unseen idle seen c Waiter.busy h = tt
unseen idle seen c (Waiter.idle_until t) h = λ e. absurd (omega (arith, h, e))
unseen idle seen c Waiter.returned h = tt

call-IsServed : (idle : ℕ) (s : Served) → IsServed idle s → IsServed idle (call s)
unfolding call enter
call-IsServed idle s h = record {
  counted = omega (arith, h.counted);
  past = omega arith;
  seen_before = omega (arith, h.seen_before);
  window = unseen idle s.seen _ s.waiter (omega (arith, h.seen_before));
}

respond-IsServed :
    (idle : ℕ) (before after : List Tracked) (s : Served)
    → s.streams ≡ before ++ (Tracked.calling ∷ after)
    → IsServed idle s
    → IsServed idle (respond before after s)
unfolding respond
respond-IsServed idle before after s e h = record {
  counted = omega (
    arith,
    h.counted,
    ap length e,
    length-append before (Tracked.calling ∷ after),
    length-append before (Tracked.body ∷ after),
  );
  past = h.past;
  seen_before = h.seen_before;
  window = h.window;
}

leave-IsServed :
    (idle : ℕ) (before after : List Tracked) (t : Tracked) (s : Served)
    → s.streams ≡ before ++ (t ∷ after)
    → IsServed idle s
    → IsServed idle (leave before after s)
unfolding leave release
leave-IsServed idle before after t s e h = record {
  counted =
      omega (
        arith,
        h.counted,
        ap length e,
        length-append before (t ∷ after),
        length-append before after,
      );
  past = omega arith;
  seen_before = omega (arith, h.seen_before);
  window = unseen idle s.seen _ s.waiter (omega (arith, h.seen_before));
}

look-IsServed : (idle : ℕ) (s : Served) → IsServed idle s → IsServed idle (look idle s)
unfolding look
look-IsServed idle s h = record {
  counted = h.counted;
  past = h.past;
  seen_before = omega arith;
  window =
      if_case (InWindow idle s.counter.version s.counter) (s.counter.open_streams == 0)
        (λ z. λ e. ((==_iff s.counter.open_streams 0).0 z, omega (arith, h.past))) (λ z. tt);
}

-- A waiter that is not in its window.
outside :
    (idle : ℕ) (s : Served) (w : Waiter) (down : Bool)
    → InWindow idle s.seen s.counter w
    → IsServed idle s
    → IsServed idle (record s { waiter = w; shutdown = down })
outside idle s w down k h = record {
  counted = h.counted;
  past = h.past;
  seen_before = h.seen_before;
  window = k;
}

abbrev some_or : ℕ → Option ℕ → ℕ
some_or d none = d
some_or d (some n) = n

step-IsServed : (idle : ℕ) {s u : Served} → Step (some idle) s u → IsServed idle s → IsServed idle u
unfolding reap
step-IsServed idle (Step.tick d) h = record {
  counted = h.counted;
  past = omega (arith, h.past);
  seen_before = h.seen_before;
  window = h.window;
}
step-IsServed idle {s = s} Step.called h = call-IsServed idle s h
step-IsServed idle {s = s} (Step.responded before after e) h =
    respond-IsServed idle before after s e h
step-IsServed idle {s = s} (Step.left before after t e) h = leave-IsServed idle before after t s e h
step-IsServed idle {s = s} (Step.looked i e q) h =
    subst (λ k. IsServed idle (look k s)) (ap (some_or 0) e) (look-IsServed idle s h)
step-IsServed idle {s = s} (Step.changed_busy e q) h = outside idle s Waiter.looking s.shutdown tt h
step-IsServed idle {s = s} (Step.changed_idle t e q) h =
    outside idle s Waiter.looking s.shutdown tt h
step-IsServed idle {s = s} (Step.elapsed t e q) h = outside idle s Waiter.returned true tt h

steps-IsServed :
    (idle now : ℕ) {s : Served} → Steps (some idle) (new_served now) s → IsServed idle s
steps-IsServed idle now Steps.done = record {
  counted = refl;
  past = omega arith;
  seen_before = omega arith;
  window = tt;
}
steps-IsServed idle now (Steps.next ss t) = step-IsServed idle t (steps-IsServed idle now ss)

-- A change of the count that the waiter did not see yet, or no open stream for `idle`.
abbrev pub IsReapable : ℕ → Served → Type 0
IsReapable idle s =
    (s.seen + 1 ≤ s.counter.version) ⊎ ((s.streams ≡ []) × (s.counter.changed_at + idle ≤ s.now))

no_streams : (ts : List Tracked) → length ts ≡ 0 → ts ≡ []
no_streams [] h = refl
no_streams (t ∷ ts) h = absurd (omega (arith, h))

differ : (m n : ℕ) → (m == n) ≡ false → m ≢ n
differ m n h e = true-ne-false (sym ((==_iff m n).1 e) ∙ h)

-- When the window of the waiter ends, the connection has no open stream, and had none in the whole
-- window, or there is a change of the count that the waiter did not see yet; the count is the number
-- of streams, so it never falls below zero.
pub elapsed-IsReapable :
    (idle now t : ℕ) (s : Served)
    → Steps (some idle) (new_served now) s
    → s.waiter ≡ Waiter.idle_until t
    → t ≤ s.now
    → (s.counter.open_streams ≡ length s.streams) × IsReapable idle s
elapsed-IsReapable idle now t s ss e le =
    let h = steps-IsServed idle now ss in
    (
      h.counted,
      by_version h (subst (InWindow idle s.seen s.counter) e h.window) (s.seen == s.counter.version)
          refl,
    )
  where
    by_version :
        IsServed idle s
        → (s.seen ≡ s.counter.version
            → (s.counter.open_streams ≡ 0) × (s.counter.changed_at + idle ≤ t))
        → (b : Bool) → (s.seen == s.counter.version) ≡ b
        → IsReapable idle s
    by_version h k true q =
        let (none_open, since) = k ((==_iff s.seen s.counter.version).0 q) in
        inr (no_streams s.streams (omega (arith, h.counted, none_open)), omega (arith, since, le))
    by_version h k false q = inl (omega (arith, h.seen_before, differ s.seen s.counter.version q))
