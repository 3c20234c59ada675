-- ===== src/Idle/Runs.antt =====
-- rust/crates/h2ts-server/src/idle.rs: a connection that is reaped.
use h2ts.Common.{◌≡◌, refl, true, [], some, length, arith}
use h2ts.Idle.{
  Tracked, Waiter, Served, new_served, enter, release, call, respond, leave, look, reap, Step,
  Steps,
}
use h2ts.Idle.Window.{IsReapable, elapsed-IsReapable}

-- A stream from 3 to 8, and a window of 10 that is entered at 8.
abbrev served : Served
served = leave [] [] (record (respond [] [] (call (new_served 3))) { now = 8 })

abbrev waiting : Served
waiting = record (look 10 served) { now = 18 }

session : Steps (some 10) (new_served 3) waiting
unfolding call enter respond leave release look
session =
    Steps.next
      (Steps.next
        (Steps.next
          (Steps.next (Steps.next (Steps.next Steps.done Step.called) (Step.responded [] [] refl))
            (Step.tick 5))
          (Step.left [] [] Tracked.body refl))
        (Step.looked 10 refl refl))
      (Step.tick 10)

reaped : (reap waiting).shutdown ≡ true
unfolding reap
reaped = refl

in_window : waiting.waiter ≡ Waiter.idle_until 18
unfolding call enter respond leave release look
in_window = refl

elapsed-IsReapable_example :
    (waiting.counter.open_streams ≡ length waiting.streams) × IsReapable 10 waiting
elapsed-IsReapable_example = elapsed-IsReapable 10 3 18 waiting session in_window (omega arith)
