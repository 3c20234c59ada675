-- ===== src/Flow/Waiters.antt =====
-- rust/crates/h2ts-client/src/flow.rs: no task waits on a window that is ready.
use h2ts.Common.{
  ℕ, ◌≡◌, refl, ap, sym, ◌∙◌, true, false, List, [], ◌∷◌, ◌++◌, append_assoc, append-nil, arith,
}
use h2ts.Common.Int.{ℤ, pos}
use h2ts.Flow.{SendWindow, new, wake, update, adjust, consume, is_ready, register_waker, close}

-- What is done to a window. A task parks itself only when the window is not ready, as the body
-- pump does, and what is consumed is not negative.
pub data Step : SendWindow → SendWindow → Type 0 where
  updated : {w : SendWindow} (n : ℤ) → Step w (update w n)
  adjusted : {w : SendWindow} (n : ℤ) → Step w (adjust w n)
  consumed : {w : SendWindow} (n : ℕ) → Step w (consume w (pos n))
  parked : {w : SendWindow} (task : ℕ) → is_ready w ≡ false → Step w (register_waker w task)
  shut : {w : SendWindow} → Step w (close w)

pub data Steps : SendWindow → SendWindow → Type 0 where
  done : {w : SendWindow} → Steps w w
  next : {w v u : SendWindow} → Steps w v → Step v u → Steps w u

-- No task waits while the window is ready.
abbrev pub IsFair : SendWindow → Type 0
IsFair w = is_ready w ≡ true → w.wakers ≡ []

-- The tasks that parked themselves, in order.
abbrev parking : {w v : SendWindow} → Step w v → List ℕ
parking (Step.parked task e) = task ∷ []
parking _ = []

abbrev pub parked_tasks : {w v : SendWindow} → Steps w v → List ℕ
parked_tasks Steps.done = []
parked_tasks (Steps.next t s) = parked_tasks t ++ parking s

abbrev tasks : SendWindow → List ℕ
tasks w = w.woken ++ w.wakers

update-tasks : (w : SendWindow) (n : ℤ) → tasks (update w n) ≡ tasks w ++ []
unfolding update wake
update-tasks w n = ground (arith, append-nil w.woken, append-nil (w.woken ++ w.wakers))

adjust-tasks : (w : SendWindow) (n : ℤ) → tasks (adjust w n) ≡ tasks w ++ []
unfolding adjust wake
adjust-tasks w n = ground (arith, append-nil w.woken, append-nil (w.woken ++ w.wakers))

Step-tasks : {w v : SendWindow} (s : Step w v) → tasks v ≡ tasks w ++ parking s
unfolding consume register_waker close wake
Step-tasks (Step.updated n) = update-tasks _ n
Step-tasks (Step.adjusted n) = adjust-tasks _ n
Step-tasks (Step.consumed n) = sym (append-nil _)
Step-tasks (Step.parked {w} task e) = sym (append_assoc w.woken w.wakers (task ∷ []))
Step-tasks Step.shut = refl

-- Each parking is answered by one wake and no more, in the order of the parkings: the wakes so far,
-- and behind them the tasks that wait, are the tasks of the parkings, one for each. A task that parks
-- twice before it is woken is woken twice.
pub Steps-parked :
    (initial : ℤ) (w : SendWindow) (t : Steps (new initial) w)
    → w.woken ++ w.wakers ≡ parked_tasks t
Steps-parked initial w Steps.done = refl
Steps-parked initial w (Steps.next t s) =
    Step-tasks s ∙ ap (◌++ parking s) (Steps-parked initial _ t)
