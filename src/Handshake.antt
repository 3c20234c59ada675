-- ===== src/Handshake.antt =====
-- rust/crates/h2ts-server/src/handshake.rs: the server's side of the WebSocket handshake.
pub mod Answers
pub mod Statuses
mod Runs
use h2ts.Common.{
  ℕ, Bool, true, false, not, ◌&&◌, ◌||◌, ◌==◌, leb, if◌then◌else◌, List, [], ◌∷◌, ◌++◌, Option,
  some, none, map, codes, bytes_eq, to_ascii_lowercase,
}

-- The values that `headers().get(..)` gives for the names that the handshake reads.
pub record Request : Type 0 where
  pub upgrade : Option (List ℕ)
  pub connection : Option (List ℕ)
  pub key : Option (List ℕ)
  pub protocol : Option (List ℕ)
  pub origin : Option (List ℕ)

pub record AcceptOptions : Type 0 where
  pub allow_implicit_codec : Bool
  pub allowed_origins : Option (List (List ℕ))

pub data WebSocketError : Type 0 where
  not_upgrade_request unsupported_subprotocol forbidden_origin upgrade_failed : WebSocketError

-- The status of `rejection_response`.
abbrev pub rejection_status : WebSocketError → ℕ
rejection_status WebSocketError.not_upgrade_request = 426
rejection_status WebSocketError.unsupported_subprotocol = 400
rejection_status WebSocketError.forbidden_origin = 403
rejection_status WebSocketError.upgrade_failed = 500

-- `str::split` at a character.
abbrev join_first : ℕ → List (List ℕ) → List (List ℕ)
join_first b [] = (b ∷ []) ∷ []
join_first b (w ∷ ws) = (b ∷ w) ∷ ws

abbrev pub split : ℕ → List ℕ → List (List ℕ)
split sep [] = [] ∷ []
split sep (b ∷ r) = let rest = split sep r in if b == sep then [] ∷ rest else join_first b rest

-- `str::trim`, on ASCII.
abbrev is_blank : ℕ → Bool
is_blank b = b == 32 || (leb 9 b && leb b 13)

abbrev pub is_nil : List ℕ → Bool
is_nil [] = true
is_nil (b ∷ r) = false

abbrev trim_start : List ℕ → List ℕ
trim_start [] = []
trim_start (b ∷ r) = let rest = trim_start r in if is_blank b then rest else b ∷ r

abbrev trim_end : List ℕ → List ℕ
trim_end [] = []
trim_end (b ∷ r) = let rest = trim_end r in if is_blank b && is_nil rest then [] else b ∷ rest

abbrev pub trim : List ℕ → List ℕ
trim s = trim_end (trim_start s)

abbrev pub eq_ignore_ascii_case : List ℕ → List ℕ → Bool
eq_ignore_ascii_case a b = bytes_eq (to_ascii_lowercase a) (to_ascii_lowercase b)

-- Whether one of a list is the text, but for ASCII case.
abbrev pub any_equal : List ℕ → List (List ℕ) → Bool
any_equal t [] = false
any_equal t (s ∷ r) = eq_ignore_ascii_case s t || any_equal t r

abbrev pub read_with : (List ℕ → Option (List ℕ)) → Option (List ℕ) → Option (List ℕ)
read_with to_str none = none
read_with to_str (some v) = to_str v

abbrev lists : List ℕ → Option (List ℕ) → Bool
lists needle none = false
lists needle (some list) = any_equal needle (map trim (split 44 list))

-- `HeaderValue::to_str` is the `http` crate's.
unfoldable pub header_lists : (List ℕ → Option (List ℕ)) → Option (List ℕ) → List ℕ → Bool
header_lists to_str header needle = lists needle (read_with to_str header)

abbrev pub is_some : Option (List ℕ) → Bool
is_some none = false
is_some (some v) = true

unfoldable pub is_upgrade_request : (List ℕ → Option (List ℕ)) → Request → Bool
unfolding header_lists
is_upgrade_request to_str request =
    header_lists to_str request.upgrade (codes "websocket")
    && (header_lists to_str request.connection (codes "upgrade") && is_some request.key)

abbrev pub non_empty : List (List ℕ) → List (List ℕ)
non_empty [] = []
non_empty (s ∷ r) = let rest = non_empty r in if is_nil s then rest else s ∷ rest

abbrev protocols_of : Option (List ℕ) → List (List ℕ)
protocols_of none = []
protocols_of (some list) = non_empty (map trim (split 44 list))

unfoldable pub offered_protocols : (List ℕ → Option (List ℕ)) → Request → List (List ℕ)
offered_protocols to_str request = protocols_of (read_with to_str request.protocol)

pub data Fallback : Type 0 where
  accept : Option (List ℕ) → Fallback
  reject : Fallback

abbrev pub default_subprotocol : List ℕ
default_subprotocol = codes "h2ts"

abbrev pub find_equal : List ℕ → List (List ℕ) → Option (List ℕ)
find_equal t [] = none
find_equal t (s ∷ r) = if eq_ignore_ascii_case s t then some s else find_equal t r

abbrev pub first : List (List ℕ) → Option (List ℕ)
first [] = none
first (s ∷ r) = some s

abbrev pub or_implicit : List (List ℕ) → Bool → Option (List ℕ) → Fallback
or_implicit offered allow_implicit_codec (some p) = Fallback.accept (some p)
or_implicit offered allow_implicit_codec none =
    if allow_implicit_codec then Fallback.accept (first offered) else Fallback.reject

unfoldable pub fallback_subprotocol : List (List ℕ) → Bool → Fallback
fallback_subprotocol offered allow_implicit_codec =
    or_implicit offered allow_implicit_codec (find_equal default_subprotocol offered)

-- The decision, with what the handler's selector answered.
unfoldable pub decide : List (List ℕ) → Bool → Option (List ℕ) → Fallback
unfolding fallback_subprotocol
decide offered allow_implicit_codec none = fallback_subprotocol offered allow_implicit_codec
decide offered allow_implicit_codec (some proto) =
    if any_equal proto offered
    then Fallback.accept (some proto)
    else fallback_subprotocol offered allow_implicit_codec

abbrev pub origin_matches : List (List ℕ) → Option (List ℕ) → Bool
origin_matches allowed none = false
origin_matches allowed (some o) = any_equal o allowed

abbrev pub origin_allowed : (List ℕ → Option (List ℕ)) → AcceptOptions → Request → Bool
origin_allowed to_str options request = elim options.allowed_origins [
  | none ↦ true
  | some allowed ↦ origin_matches allowed (read_with to_str request.origin)
]

-- What stands in the 101: `Sec-WebSocket-Accept`, and the subprotocol if one is echoed.
pub record Response : Type 0 where
  pub accept_value : List ℕ
  pub subprotocol : Option (List ℕ)

pub data Answer : Type 0 where
  switching : Response → Answer
  rejected : WebSocketError → Answer

abbrev pub valid_only : (List ℕ → Bool) → Option (List ℕ) → Option (List ℕ)
valid_only is_header_value none = none
valid_only is_header_value (some p) = if is_header_value p then some p else none

abbrev pub respond : (List ℕ → Bool) → List ℕ → Fallback → Answer
respond is_header_value accept_value Fallback.reject =
    Answer.rejected WebSocketError.unsupported_subprotocol
respond is_header_value accept_value (Fallback.accept p) =
    Answer.switching
      record { accept_value = accept_value; subprotocol = valid_only is_header_value p }

abbrev pub with_key : Option (List ℕ) → (List ℕ → Answer) → Answer
with_key none k = Answer.rejected WebSocketError.not_upgrade_request
with_key (some key) k = k key

abbrev pub ws_guid : List ℕ
ws_guid = codes "258EAFA5-E914-47DA-95CA-C5AB0DC85B11"

-- What other crates answer: `HeaderValue::to_str` and whether `HeaderValue::from_str` accepts a text
-- (`http`), the digest (`sha1`), and its text (`base64`).
pub record Crates : Type 0 where
  pub to_str : List ℕ → Option (List ℕ)
  pub is_header_value : List ℕ → Bool
  pub sha1 : List ℕ → List ℕ
  pub base64 : List ℕ → List ℕ

abbrev pub accept_key : Crates → List ℕ → List ℕ
accept_key crates key = crates.base64 (crates.sha1 (key ++ ws_guid))

-- `select` is the caller's. What follows the response is hyper's upgrade.
unfoldable pub accept_with_options :
    Crates → Request → (List (List ℕ) → Option (List ℕ)) → AcceptOptions → Answer
unfolding is_upgrade_request offered_protocols decide
accept_with_options crates request select options =
    let offered = offered_protocols crates.to_str request in
    if not (is_upgrade_request crates.to_str request)
    then Answer.rejected WebSocketError.not_upgrade_request
    else if not (origin_allowed crates.to_str options request)
    then Answer.rejected WebSocketError.forbidden_origin
    else with_key request.key λ key.
      respond crates.is_header_value (accept_key crates key)
        (decide offered options.allow_implicit_codec (select offered))

abbrev pub default_options : AcceptOptions
default_options = record { allow_implicit_codec = false; allowed_origins = none }

abbrev pub accept_with : Crates → Request → (List (List ℕ) → Option (List ℕ)) → Answer
accept_with crates request select = accept_with_options crates request select default_options

-- The function `accept` of the crate.
abbrev pub accept_default : Crates → Request → Answer
accept_default crates request = accept_with crates request (λ offered. none)
