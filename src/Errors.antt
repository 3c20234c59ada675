-- ===== src/Errors.antt =====
-- rust/crates/h2ts-client/src/errors.rs: the error codes of HTTP/2 and the error value. What a
-- fallible function of the client answers is an `Outcome`.
pub mod Codes
mod Runs
use h2ts.Common.{ℕ, String, Bool, ◌==◌, if◌then◌else◌, Option, none, some}

pub data ErrorCode : Type 0 where
  no_error protocol_error internal_error flow_control_error settings_timeout : ErrorCode
  stream_closed frame_size_error refused_stream cancel compression_error : ErrorCode
  connect_error enhance_your_calm inadequate_security http11_required : ErrorCode

unfoldable pub value : ErrorCode → ℕ
value ErrorCode.no_error = 0x0
value ErrorCode.protocol_error = 0x1
value ErrorCode.internal_error = 0x2
value ErrorCode.flow_control_error = 0x3
value ErrorCode.settings_timeout = 0x4
value ErrorCode.stream_closed = 0x5
value ErrorCode.frame_size_error = 0x6
value ErrorCode.refused_stream = 0x7
value ErrorCode.cancel = 0x8
value ErrorCode.compression_error = 0x9
value ErrorCode.connect_error = 0xa
value ErrorCode.enhance_your_calm = 0xb
value ErrorCode.inadequate_security = 0xc
value ErrorCode.http11_required = 0xd

unfoldable pub from_value : ℕ → Option ErrorCode
from_value v =
    if v == 0x0
    then some ErrorCode.no_error
    else if v == 0x1
    then some ErrorCode.protocol_error
    else if v == 0x2
    then some ErrorCode.internal_error
    else if v == 0x3
    then some ErrorCode.flow_control_error
    else if v == 0x4
    then some ErrorCode.settings_timeout
    else if v == 0x5
    then some ErrorCode.stream_closed
    else if v == 0x6
    then some ErrorCode.frame_size_error
    else if v == 0x7
    then some ErrorCode.refused_stream
    else if v == 0x8
    then some ErrorCode.cancel
    else if v == 0x9
    then some ErrorCode.compression_error
    else if v == 0xa
    then some ErrorCode.connect_error
    else if v == 0xb
    then some ErrorCode.enhance_your_calm
    else if v == 0xc
    then some ErrorCode.inadequate_security
    else if v == 0xd
    then some ErrorCode.http11_required
    else none

-- The name of the RFC.
unfoldable pub name : ErrorCode → String
name ErrorCode.no_error = "NO_ERROR"
name ErrorCode.protocol_error = "PROTOCOL_ERROR"
name ErrorCode.internal_error = "INTERNAL_ERROR"
name ErrorCode.flow_control_error = "FLOW_CONTROL_ERROR"
name ErrorCode.settings_timeout = "SETTINGS_TIMEOUT"
name ErrorCode.stream_closed = "STREAM_CLOSED"
name ErrorCode.frame_size_error = "FRAME_SIZE_ERROR"
name ErrorCode.refused_stream = "REFUSED_STREAM"
name ErrorCode.cancel = "CANCEL"
name ErrorCode.compression_error = "COMPRESSION_ERROR"
name ErrorCode.connect_error = "CONNECT_ERROR"
name ErrorCode.enhance_your_calm = "ENHANCE_YOUR_CALM"
name ErrorCode.inadequate_security = "INADEQUATE_SECURITY"
name ErrorCode.http11_required = "HTTP_1_1_REQUIRED"

-- A message of the source: a fixed text, or a format with the numbers it shows.
pub data Message : Type 0 where
  text : String → Message
  frame_length_exceeds : ℕ → ℕ → Message
  invalid_index : ℕ → Message
  reset_by_peer : ℕ → Message
  reset_locally : ℕ → Message

pub record H2Error : Type 0 where
  pub code : ErrorCode
  pub message : Option Message
  pub stream_id : Option ℕ

-- `H2Error::new`, a connection-level error.
abbrev pub new : ErrorCode → Message → H2Error
new c m = record { code = c; message = some m; stream_id = none }

-- `H2Error::code`, without a message.
abbrev pub code_only : ErrorCode → H2Error
code_only c = record { code = c; message = none; stream_id = none }

-- `H2Error::stream`, a stream-scoped error.
abbrev pub stream : ErrorCode → Message → ℕ → H2Error
stream c m id = record { code = c; message = some m; stream_id = some id }

-- `Result<A, H2Error>`; `panic` is an index out of bounds, or a loop of the model out of fuel.
pub data Outcome {ℓ} (A : Type ℓ) : Type ℓ where
  ok : A → Outcome A
  err : H2Error → Outcome A
  panic : Outcome A

infixl 5 ◌>>=◌ ◌>>◌
abbrev pub ◌>>=◌ {ℓ κ} : {A : Type ℓ} {B : Type κ} → Outcome A → (A → Outcome B) → Outcome B
ok a >>= f = f a
err e >>= f = err e
panic >>= f = panic

abbrev pub ◌>>◌ {ℓ} : {B : Type ℓ} → Outcome (Unit {0}) → Outcome B → Outcome B
m >> k = m >>= λ _. k

-- An early `return Err(e)` under a test.
abbrev pub reject : Bool → H2Error → Outcome (Unit {0})
reject b e = if b then err e else ok tt

-- `option.ok_or_else(e)?`
abbrev pub ok_or {ℓ} : {A : Type ℓ} → Option A → H2Error → Outcome A
ok_or (some a) e = ok a
ok_or none e = err e

abbrev pub map_ok {ℓ κ} : {A : Type ℓ} {B : Type κ} → (A → B) → Outcome A → Outcome B
map_ok f (ok a) = ok (f a)
map_ok f (err e) = err e
map_ok f panic = panic
