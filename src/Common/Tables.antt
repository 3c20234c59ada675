-- ===== src/Common/Tables.antt =====
-- Facts about bytes that are checked by evaluation at every value.
use Prim.Native.Nat.{ℕ, zero, suc, ◌<◌}
use mathlib.Core.Path.{◌≡◌}
use mathlib.Core.Bool.{Bool, true, ◌&&◌}
use native.Mathlib.Omega.{arith}

unfoldable pub all_below : ℕ → (ℕ → Bool) → Bool
all_below zero test = true
all_below (suc k) test = all_below k test && test k

pub all_below_sound :
    (k : ℕ) (test : ℕ → Bool) (a : ℕ) → all_below k test ≡ true → a < k → test a ≡ true
unfolding all_below
all_below_sound zero test a e below = absurd (omega (arith, below))
all_below_sound (suc k) test a e below = ground (arith, below, e, all_below_sound k test a)
