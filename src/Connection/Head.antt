-- ===== src/Connection/Head.antt =====
-- rust/crates/h2ts-client/src/connection.rs: the head of a response, and the headers of a request.
pub mod Fields
pub mod Request
mod Runs
use h2ts.Common.{
  ℕ, ◌+◌, ◌-◌, ◌*◌, ◌==◌, Bool, true, false, ◌&&◌, ◌||◌, leb, ltb, if◌then◌else◌, List, [], ◌∷◌,
  ◌++◌, Option, some, none, codes, bytes_eq, to_ascii_lowercase,
}
use h2ts.Hpack.Decoder.{Header}

-- A map from names to values. It is only ever asked for a name, so the order is of no account.
abbrev pub Fields : Type 0
Fields = List (List ℕ × List ℕ)

abbrev pub get : List ℕ → Fields → Option (List ℕ)
get name [] = none
get name ((n, v) ∷ d) = if bytes_eq n name then some v else get name d

abbrev pub insert : List ℕ → List ℕ → Fields → Fields
insert name value [] = (name, value) ∷ []
insert name value ((n, v) ∷ d) =
    if bytes_eq n name then (n, value) ∷ d else (n, v) ∷ insert name value d

pub record Head : Type 0 where
  pub status : ℕ
  pub headers : Fields
  pub raw : List Header

abbrev pub or_zero : Option ℕ → ℕ
or_zero (some n) = n
or_zero none = 0

-- `str::parse::<u16>`: digits, after a `+` or not, and no value above 65535.
abbrev digits : ℕ → List ℕ → Option ℕ
digits acc [] = some acc
digits acc (c ∷ r) =
    let rest = digits (acc * 10 + (c - 48)) r in
    if leb 48 c && leb c 57 && leb (acc * 10 + (c - 48)) 65535 then rest else none

abbrev unsigned : List ℕ → Option ℕ
unsigned [] = none
unsigned (c ∷ r) = digits 0 (c ∷ r)

unfoldable pub parse_u16 : List ℕ → Option ℕ
parse_u16 [] = none
parse_u16 (c ∷ r) = if c == 43 then unsigned r else unsigned (c ∷ r)

abbrev pub is_pseudo : List ℕ → Bool
is_pseudo [] = false
is_pseudo (c ∷ r) = c == 58

abbrev pub separator : List ℕ → List ℕ
separator name = if bytes_eq name (codes "cookie") then codes "; " else codes ", "

-- One field beside those with the same name.
abbrev pub joined : List ℕ → List ℕ → Option (List ℕ) → List ℕ
joined name value (some existing) = existing ++ (separator name ++ value)
joined name value none = value

abbrev pub add_field : Header → Fields → Fields
add_field h d = insert h.name (joined h.name h.value (get h.name d)) d

abbrev pub is_status : Header → Bool
is_status h = bytes_eq h.name (codes ":status")

abbrev status_after : ℕ → Header → ℕ
status_after status h = if is_status h then or_zero (parse_u16 h.value) else status

unfoldable pub fields_after : Fields → Header → Fields
fields_after d h = if is_status h || is_pseudo h.name then d else add_field h d

-- The loop: the status and the fields so far.
unfoldable pub collect : ℕ → Fields → List Header → ℕ × Fields
unfolding parse_u16 fields_after
collect status d [] = (status, d)
collect status d (h ∷ r) = collect (status_after status h) (fields_after d h) r

unfoldable pub collect_headers : List Header → Head
collect_headers raw =
    let (status, headers) = collect 0 [] raw in
    record { status = status; headers = headers; raw = raw }

-- A request's parts, without its body.
pub record RequestInit : Type 0 where
  pub method : Option (List ℕ)
  pub path : Option (List ℕ)
  pub authority : Option (List ℕ)
  pub scheme : Option (List ℕ)
  pub headers : List (List ℕ × List ℕ)

abbrev pub or_text : List ℕ → Option (List ℕ) → List ℕ
or_text d none = d
or_text d (some t) = t

abbrev pub plain : List ℕ → List ℕ → Header
plain name value = record { name = name; value = value; never_index = false }

abbrev pub forbidden_headers : List (List ℕ)
forbidden_headers =
    codes "connection"
    ∷ codes "host"
    ∷ codes "keep-alive"
    ∷ codes "proxy-connection"
    ∷ codes "transfer-encoding"
    ∷ codes "upgrade"
    ∷ []

abbrev pub among : List ℕ → List (List ℕ) → Bool
among name [] = false
among name (n ∷ r) = bytes_eq n name || among name r

abbrev pub is_secret : List ℕ → Bool
is_secret name = bytes_eq name (codes "authorization") || bytes_eq name (codes "cookie")

-- The loop over the caller's headers.
unfoldable pub own_headers : List (List ℕ × List ℕ) → List Header
own_headers [] = []
own_headers ((raw_name, value) ∷ r) =
    let name = to_ascii_lowercase raw_name in
    let h : Header = record { name = name; value = value; never_index = is_secret name } in
    let rest = own_headers r in
    if is_pseudo name || among name forbidden_headers then rest else h ∷ rest

abbrev pub authority_header : Option (List ℕ) → List Header
authority_header none = []
authority_header (some a) = plain (codes ":authority") a ∷ []

-- `to_uppercase` is the library's, over all of Unicode.
unfoldable pub build_request_headers : (List ℕ → List ℕ) → RequestInit → List Header
build_request_headers to_uppercase init =
    plain (codes ":method") (to_uppercase (or_text (codes "GET") init.method))
    ∷ plain (codes ":scheme") (or_text (codes "http") init.scheme)
    ∷ (authority_header init.authority
        ++ (plain (codes ":path") (or_text (codes "/") init.path) ∷ own_headers init.headers))
