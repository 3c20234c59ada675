-- ===== src/Flow.antt =====
-- rust/crates/h2ts-client/src/flow.rs: the send window of a connection or a stream. A waker is the
-- number of the task that it wakes.
pub mod Waiters
mod Runs
use h2ts.Common.{ℕ, Bool, true, false, ◌||◌, List, [], ◌∷◌, ◌++◌, if◌then◌else◌}
use h2ts.Common.Int.{ℤ, pos, ◌+ℤ◌, ◌-ℤ◌, ltb_ℤ}

-- `woken` holds the tasks woken so far, in order.
pub record SendWindow : Type 0 where
  pub available : ℤ
  pub wakers : List ℕ
  pub closed : Bool
  pub woken : List ℕ

abbrev pub new : ℤ → SendWindow
new initial = record { available = initial; wakers = []; closed = false; woken = [] }

unfoldable pub wake : SendWindow → SendWindow
wake w = record w { wakers = []; woken = w.woken ++ w.wakers }

abbrev wake_if : Bool → SendWindow → SendWindow
wake_if b w = if b then wake w else w

unfoldable pub update : SendWindow → ℤ → SendWindow
unfolding ◌+ℤ◌ wake
update w increment =
    let w' = record w { available = w.available +ℤ increment } in
    wake_if (ltb_ℤ (pos 0) w'.available) w'

unfoldable pub adjust : SendWindow → ℤ → SendWindow
unfolding ◌+ℤ◌ wake
adjust w delta =
    let w' = record w { available = w.available +ℤ delta } in
    wake_if (ltb_ℤ (pos 0) w'.available) w'

unfoldable pub consume : SendWindow → ℤ → SendWindow
unfolding ◌-ℤ◌
consume w n = record w { available = w.available -ℤ n }

unfoldable pub is_ready : SendWindow → Bool
is_ready w = ltb_ℤ (pos 0) w.available || w.closed

unfoldable pub register_waker : SendWindow → ℕ → SendWindow
register_waker w task = record w { wakers = w.wakers ++ (task ∷ []) }

unfoldable pub close : SendWindow → SendWindow
unfolding wake
close w = wake (record w { closed = true })
