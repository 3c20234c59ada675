-- ===== src/Idle.antt =====
-- rust/crates/h2ts-server/src/idle.rs and serve_h2_with_config of rust/crates/h2ts-server/src/lib.rs:
-- the count of open streams, and the close of a connection without any.
mod Window
mod Runs
use h2ts.Common.{
  ℕ, ◌+◌, ◌-◌, ◌≤◌, ◌≡◌, ◌≢◌, Bool, true, false, ◌==◌, if◌then◌else◌, List, [], ◌∷◌, ◌++◌, Option,
  some, none,
}

-- The value of the watch channel. Each `send_modify` is a new version of it, at its time.
pub record StreamCounter : Type 0 where
  pub open_streams : ℕ
  pub version : ℕ
  pub changed_at : ℕ

abbrev pub new_counter : ℕ → StreamCounter
new_counter now = record { open_streams = 0; version = 0; changed_at = now }

unfoldable pub enter : ℕ → StreamCounter → StreamCounter
enter now c = record {
  open_streams = c.open_streams + 1;
  version = c.version + 1;
  changed_at = now;
}

-- `drop` of a `StreamGuard`: a subtraction that saturates.
unfoldable pub release : ℕ → StreamCounter → StreamCounter
release now c = record {
  open_streams = c.open_streams - 1;
  version = c.version + 1;
  changed_at = now;
}

-- Where the guard of a stream is: with the service's future, or with the response's body.
pub data Tracked : Type 0 where
  calling : Tracked
  body : Tracked

-- `wait_idle`, at its awaits.
pub data Waiter : Type 0 where
  looking : Waiter
  busy : Waiter
  idle_until : ℕ → Waiter
  returned : Waiter

-- A connection that is served: the count, its streams, the version that the waiter has seen, and
-- whether `graceful_shutdown` was called.
pub record Served : Type 0 where
  pub now : ℕ
  pub counter : StreamCounter
  pub streams : List Tracked
  pub seen : ℕ
  pub waiter : Waiter
  pub shutdown : Bool

abbrev pub new_served : ℕ → Served
new_served now = record {
  now = now;
  counter = new_counter now;
  streams = [];
  seen = 0;
  waiter = Waiter.looking;
  shutdown = false;
}

-- `TrackedService::call`
unfoldable pub call : Served → Served
unfolding enter
call s = record s { counter = enter s.now s.counter; streams = Tracked.calling ∷ s.streams }

-- The future answers, or it fails; a body ends.
unfoldable pub respond : List Tracked → List Tracked → Served → Served
respond before after s = record s { streams = before ++ (Tracked.body ∷ after) }

unfoldable pub leave : List Tracked → List Tracked → Served → Served
unfolding release
leave before after s = record s { counter = release s.now s.counter; streams = before ++ after }

-- `borrow_and_update`, and what follows.
unfoldable pub look : ℕ → Served → Served
look idle s = record s {
  seen = s.counter.version;
  waiter = if s.counter.open_streams == 0 then Waiter.idle_until (s.now + idle) else Waiter.busy;
}

-- `wait_idle` returns, and the connection is told to go away.
unfoldable pub reap : Served → Served
reap s = record s { waiter = Waiter.returned; shutdown = true }

-- One step, with the configured timeout. `select!` takes either arm when both are ready.
pub data Step (idle_timeout : Option ℕ) (s : Served) : Served → Type 0 where
  tick : (d : ℕ) → Step idle_timeout s (record s { now = s.now + d })
  called : Step idle_timeout s (call s)
  responded :
      (before after : List Tracked)
      → s.streams ≡ before ++ (Tracked.calling ∷ after)
      → Step idle_timeout s (respond before after s)
  left :
      (before after : List Tracked) (t : Tracked)
      → s.streams ≡ before ++ (t ∷ after)
      → Step idle_timeout s (leave before after s)
  looked :
      (idle : ℕ)
      → idle_timeout ≡ some idle
      → s.waiter ≡ Waiter.looking
      → Step idle_timeout s (look idle s)
  changed_busy :
      s.waiter ≡ Waiter.busy
      → s.seen ≢ s.counter.version
      → Step idle_timeout s (record s { waiter = Waiter.looking })
  changed_idle :
      (t : ℕ)
      → s.waiter ≡ Waiter.idle_until t
      → s.seen ≢ s.counter.version
      → Step idle_timeout s (record s { waiter = Waiter.looking })
  elapsed : (t : ℕ) → s.waiter ≡ Waiter.idle_until t → t ≤ s.now → Step idle_timeout s (reap s)

pub data Steps (idle_timeout : Option ℕ) (a : Served) : Served → Type 0 where
  done : Steps idle_timeout a a
  next : {s u : Served} → Steps idle_timeout a s → Step idle_timeout s u → Steps idle_timeout a u
