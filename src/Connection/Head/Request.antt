-- ===== src/Connection/Head/Request.antt =====
-- rust/crates/h2ts-client/src/connection.rs: `build_request_headers`, which drops the headers that
-- HTTP/2 forbids.
use h2ts.Common.{
  true-ne-false, codes, ℕ, ◌≡◌, refl, sym, ap, ◌∙◌, Bool, true, false, ◌||◌, Bool-cases, inl, inr,
  if◌then◌else◌, List, [], ◌∷◌, ◌++◌, Option, some, none, arith, bytes_eq, bytes_eq→eq,
  to_ascii_lowercase,
}
use h2ts.Hpack.Decoder.{Header}
use h2ts.Connection.Head.{
  authority_header, plain, or_text, is_pseudo, among, forbidden_headers, is_secret, own_headers,
  RequestInit, build_request_headers,
}
use h2ts.Connection.Head.Fields.{values}

-- The values that the caller gave for a name, in whatever case.
abbrev pub asked : List ℕ → List (List ℕ × List ℕ) → List (List ℕ)
asked name [] = []
asked name ((raw_name, value) ∷ r) =
    if bytes_eq (to_ascii_lowercase raw_name) name then value ∷ asked name r else asked name r

abbrev pub is_dropped : List ℕ → Bool
is_dropped name = is_pseudo name || among name forbidden_headers

-- One header of the caller, before those that follow.
values_one :
    (name : List ℕ) (h : Header) (drop_h drop_name : Bool) (rest : List Header) (vs : List (List ℕ))
    → (bytes_eq h.name name ≡ true → drop_h ≡ drop_name)
    → values name rest ≡ (if drop_name then [] else vs)
    → values name (if drop_h then rest else h ∷ rest)
      ≡ (if drop_name then [] else if bytes_eq h.name name then h.value ∷ vs else vs)
values_one name h true true rest vs k e = e
values_one name h false false rest vs k e = ground (arith, e)
values_one name h true false rest vs k e = ground (arith, e, k)
values_one name h false true rest vs k e = ground (arith, e, k)

if_nil : (b : Bool) → ◌≡◌ {A = List (List ℕ)} [] (if b then [] else [])
if_nil true = refl
if_nil false = refl

-- The loop over the headers: what it sends under a name is what the caller gave, in whatever case and in the
-- same order; pseudo-headers and the headers of a connection are dropped.
pub values-own_headers :
    (name : List ℕ) (hs : List (List ℕ × List ℕ))
    → values name (own_headers hs) ≡ (if is_dropped name then [] else asked name hs)
unfolding own_headers
values-own_headers name [] = if_nil (is_dropped name)
values-own_headers name ((n, v) ∷ hs) =
    let lower = to_ascii_lowercase n in
    let h : Header = record { name = lower; value = v; never_index = is_secret lower } in
    values_one name h (is_dropped lower) (is_dropped name) (own_headers hs) (asked name hs)
      (λ e. ap is_dropped (bytes_eq→eq lower name e)) (values-own_headers name hs)

-- A pseudo-header is no header of another name.
values_pseudo :
    (name : List ℕ) (h : Header) (rest : List Header)
    → is_pseudo h.name ≡ true
    → is_pseudo name ≡ false
    → values name (h ∷ rest) ≡ values name rest
values_pseudo name h rest p q = elim (Bool-cases (bytes_eq h.name name)) [
  | inl same ↦ absurd (true-ne-false (sym p ∙ ap is_pseudo (bytes_eq→eq h.name name same) ∙ q))
  | inr other ↦ rw other
]

values-authority :
    (name : List ℕ) (o : Option (List ℕ)) (rest : List Header)
    → is_pseudo name ≡ false
    → values name (authority_header o ++ rest) ≡ values name rest
values-authority name none rest q = refl
values-authority name (some a) rest q =
    values_pseudo name (plain (codes ":authority") a) rest refl q

-- What a request sends under a name that does not begin with a colon is what the caller gave for it,
-- in whatever case and in the same order; the headers of a connection are dropped.
pub values-build_request_headers :
    (to_uppercase : List ℕ → List ℕ) (init : RequestInit) (name : List ℕ)
    → is_pseudo name ≡ false
    → values name (build_request_headers to_uppercase init)
      ≡ (if among name forbidden_headers then [] else asked name init.headers)
unfolding build_request_headers
values-build_request_headers to_uppercase init name q =
    let path = plain (codes ":path") (or_text (codes "/") init.path) in
    let own = own_headers init.headers in
    let rest = authority_header init.authority ++ (path ∷ own) in
    let scheme = plain (codes ":scheme") (or_text (codes "http") init.scheme) in
    let method = plain (codes ":method") (to_uppercase (or_text (codes "GET") init.method)) in
    values_pseudo name method (scheme ∷ rest) refl q
    ∙ values_pseudo name scheme rest refl q
    ∙ values-authority name init.authority (path ∷ own) q
    ∙ values_pseudo name path own refl q
    ∙ values-own_headers name init.headers
    ∙ rw q
