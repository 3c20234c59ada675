-- ===== src/Proxy.antt =====
-- rust/crates/h2ts-server/src/bin/h2ts-proxy.rs: the command line of the proxy, and what it does with
-- a request. A text is the list of its bytes.
pub mod Arguments
pub mod Guard
mod Runs
use h2ts.Common.{
  ℕ, ◌+◌, ◌-◌, ◌*◌, ◌^◌, Bool, true, false, ◌&&◌, ◌||◌, ◌==◌, leb, ltb, if◌then◌else◌, List, [],
  ◌∷◌, ◌++◌, Option, some, none, codes, bytes_eq,
}
use h2ts.Handshake.{
  Crates, Request, AcceptOptions, Answer, WebSocketError, rejection_status, accept_with_options,
}
use h2ts.Bridge.Config.{
  CloseFrame, KeepAlive, BridgeConfig, new_keepalive, default_keepalive, default_config,
}

abbrev pub codec_flag : List ℕ
codec_flag = codes "--allow-implicit-codec"

abbrev pub keepalive_flag : List ℕ
keepalive_flag = codes "--no-keepalive"

abbrev pub origin_flag : List ℕ
origin_flag = codes "--allowed-origin"

-- `raw.iter().any(..)`
unfoldable pub any_arg : List ℕ → List (List ℕ) → Bool
any_arg flag [] = false
any_arg flag (a ∷ rest) = bytes_eq a flag || any_arg flag rest

pub data Kind : Type 0 where
  flag origin positional : Kind

unfoldable pub kind_of : List ℕ → Kind
kind_of a =
    if bytes_eq a codec_flag || bytes_eq a keepalive_flag
    then Kind.flag
    else if bytes_eq a origin_flag
    then Kind.origin
    else Kind.positional

-- What the loop collects.
pub record Collected : Type 0 where
  pub allowed_origins : List (List ℕ)
  pub positional : List (List ℕ)

abbrev pub with_origin : List ℕ → Collected → Collected
with_origin v c = record c { allowed_origins = v ∷ c.allowed_origins }

abbrev pub with_positional : List ℕ → Collected → Collected
with_positional a c = record c { positional = a ∷ c.positional }

unfoldable pub collect_args : List (List ℕ) → Collected
collect_args [] = record { allowed_origins = []; positional = [] }
collect_args (a ∷ []) = elim (kind_of a) [
  | Kind.flag ↦ collect_args []
  | Kind.origin ↦ collect_args []
  | Kind.positional ↦ with_positional a (collect_args [])
]
collect_args (a ∷ v ∷ rest) = elim (kind_of a) [
  | Kind.flag ↦ collect_args (v ∷ rest)
  | Kind.origin ↦ with_origin v (collect_args rest)
  | Kind.positional ↦ with_positional a (collect_args (v ∷ rest))
]

-- `str::parse::<u64>`: digits, perhaps after a plus.
abbrev is_digit : ℕ → Bool
is_digit b = leb 48 b && leb b 57

unfoldable pub parse_digits : ℕ → List ℕ → Option ℕ
parse_digits acc [] = some acc
parse_digits acc (b ∷ r) =
    let next = acc * 10 + (b - 48) in
    let rest = parse_digits next r in if is_digit b && ltb next (2 ^ 64) then rest else none

unfoldable pub parse_u64 : List ℕ → Option ℕ
parse_u64 [] = none
parse_u64 (b ∷ []) = parse_digits 0 (b ∷ [])
parse_u64 (b ∷ c ∷ r) = if b == 43 then parse_digits 0 (c ∷ r) else parse_digits 0 (b ∷ c ∷ r)

-- The third positional argument, in seconds.
abbrev keepalive_secs : Option ℕ → Option KeepAlive
keepalive_secs none = none
keepalive_secs (some s) = if ltb 0 s then some (new_keepalive (s * 1000) (s * 1000)) else none

abbrev pub keepalive_arg : List (List ℕ) → Option KeepAlive
keepalive_arg [] = some default_keepalive
keepalive_arg (s ∷ rest) = keepalive_secs (parse_u64 s)

abbrev pub tail : List (List ℕ) → List (List ℕ)
tail [] = []
tail (a ∷ rest) = rest

abbrev pub head_or : List ℕ → List (List ℕ) → List ℕ
head_or default [] = default
head_or default (a ∷ rest) = a

-- `(!allowed_origins.is_empty()).then_some(allowed_origins)`
abbrev pub some_origins : List (List ℕ) → Option (List (List ℕ))
some_origins [] = none
some_origins (v ∷ vs) = some (v ∷ vs)

pub record Options : Type 0 where
  pub listen : List ℕ
  pub upstream : List ℕ
  pub keepalive : Option KeepAlive
  pub allow_implicit_codec : Bool
  pub allowed_origins : Option (List (List ℕ))

unfoldable pub read_options : List (List ℕ) → Options
read_options raw =
    let args = (collect_args raw).positional in
    record {
      listen = head_or (codes "127.0.0.1:8091") args;
      upstream = head_or (codes "127.0.0.1:8000") (tail args);
      keepalive = if any_arg keepalive_flag raw then none else keepalive_arg (tail (tail args));
      allow_implicit_codec = any_arg codec_flag raw;
      allowed_origins = some_origins (collect_args raw).allowed_origins;
    }

-- `main` up to its loop. An address that does not parse is its error, the standard library's to
-- decide.
unfoldable pub main : (List ℕ → Bool) → List (List ℕ) → Option Options
main is_socket_addr raw =
    let options = read_options raw in if is_socket_addr options.listen then some options else none

-- The answer to a request.
unfoldable pub handle : Crates → Request → Options → Answer
handle crates request options =
    accept_with_options crates request (λ offered. none)
      record {
        allow_implicit_codec = options.allow_implicit_codec;
        allowed_origins = options.allowed_origins;
      }

-- The status of the response.
unfoldable pub status : Answer → ℕ
status (Answer.switching response) = 101
status (Answer.rejected err) = rejection_status err

abbrev pub bad_gateway : CloseFrame
bad_gateway = record { code = 1014; reason = codes "bad gateway" }

-- The bridge behind a 101, when the upstream was reached, and when it was not: then its peer is
-- empty.
unfoldable pub tunnel_config : Bool → Options → BridgeConfig
tunnel_config true options = record default_config {
  keepalive = options.keepalive;
  error_close = bad_gateway;
  on_close = true;
}
tunnel_config false options = record default_config { close = bad_gateway; keepalive = none }
