-- ===== src/Errors/Codes.antt =====
-- rust/crates/h2ts-client/src/errors.rs: the codes and their values.
use h2ts.Common.{ℕ, ◌≡◌, ap, sym, ◌∙◌, some, arith}
use mathlib.Core.Logic.{◌↔◌}
use h2ts.Errors.{ErrorCode, value, from_value}

from_value-value : (c : ErrorCode) → from_value (value c) ≡ some c
unfolding from_value value
from_value-value c = ground arith

value-from_value : (v : ℕ) (c : ErrorCode) → from_value v ≡ some c → value c ≡ v
unfolding from_value value
value-from_value v c e = ground arith

-- `from_value` finds a code exactly for the values of the codes, and the code with that value.
pub from_value_iff : (v : ℕ) (c : ErrorCode) → (from_value v ≡ some c) ↔ (value c ≡ v)
from_value_iff v c = (value-from_value v c, λ e. ap from_value (sym e) ∙ from_value-value c)
