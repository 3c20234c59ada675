-- ===== src/Errors/Runs.antt =====
-- The theorems on error codes at concrete inputs.
use h2ts.Common.{◌≡◌, some}
use mathlib.Core.Logic.{◌↔◌}
use h2ts.Errors.{ErrorCode, value, from_value}
use h2ts.Errors.Codes.{from_value_iff}

from_value_iff_example :
    (from_value 0xb ≡ some ErrorCode.enhance_your_calm) ↔ (value ErrorCode.enhance_your_calm ≡ 0xb)
from_value_iff_example = from_value_iff 0xb ErrorCode.enhance_your_calm
