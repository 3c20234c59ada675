-- ===== src/Proxy/Guard.antt =====
-- rust/crates/h2ts-server/src/bin/h2ts-proxy.rs: whom the proxy lets in.
use h2ts.Common.{
  ℕ, ◌≡◌, refl, sym, subst, Bool, true, false, not, ◌||◌, if_case, List, [], ◌∷◌, Option, some,
  none, arith, true-ne-false, All,
}
use h2ts.Handshake.{
  Crates, Request, AcceptOptions, Answer, WebSocketError, Fallback, any_equal, find_equal,
  read_with, is_upgrade_request, origin_allowed, origin_matches, offered_protocols,
  default_subprotocol, accept_with_options, decide, fallback_subprotocol, respond, with_key,
  accept_key,
}
use h2ts.Handshake.Answers.{IsJudged, accept_with_options-IsJudged}
use h2ts.Proxy.{handle, status, read_options, some_origins}
use h2ts.Proxy.Arguments.{Item, IsItem, spell, origins, says_codec, read_options-spell}

-- The `Origin` of the request is one of those, but for ASCII case.
abbrev pub IsFrom : Crates → Request → List (List ℕ) → Type 0
IsFrom crates request allowed =
    (text : List ℕ) × (read_with crates.to_str request.origin ≡ some text)
    × (any_equal text allowed ≡ true)

-- With no origins there is no guard.
abbrev pub IsGuarded : Crates → Request → List (List ℕ) → Type 0
IsGuarded crates request [] = Unit
IsGuarded crates request (v ∷ vs) = IsFrom crates request (v ∷ vs)

from_matches :
    (allowed : List (List ℕ)) (o : Option (List ℕ))
    → origin_matches allowed o ≡ true
    → (text : List ℕ) × (o ≡ some text) × (any_equal text allowed ≡ true)
from_matches allowed none h = absurd (true-ne-false (sym h))
from_matches allowed (some text) h = (text, refl, h)

answered :
    (crates : Crates) (request : Request) (select : List (List ℕ) → Option (List ℕ))
    (options : AcceptOptions) (a : Answer)
    → IsJudged crates request select options a
    → status a ≡ 101
    → (is_upgrade_request crates.to_str request ≡ true)
      × (origin_allowed crates.to_str options request ≡ true)
unfolding status
answered crates request select options (Answer.switching response) (u, o, key, rest) s = (u, o)
answered crates request select options (Answer.rejected WebSocketError.not_upgrade_request) h s =
    absurd (omega (arith, s))
answered crates request select options (Answer.rejected WebSocketError.forbidden_origin) h s =
    absurd (omega (arith, s))
answered crates request select options (Answer.rejected WebSocketError.unsupported_subprotocol) h
      s =
    absurd (omega (arith, s))
answered crates request select options (Answer.rejected WebSocketError.upgrade_failed) h s =
    absurd (omega (arith, s))

allowed_from :
    (crates : Crates) (request : Request) (codec : Bool) (os : List (List ℕ))
    → origin_allowed crates.to_str
        (record { allow_implicit_codec = codec; allowed_origins = some_origins os })
        request
      ≡ true
    → IsGuarded crates request os
allowed_from crates request codec [] h = tt
allowed_from crates request codec (o ∷ os) h =
    from_matches (o ∷ os) (read_with crates.to_str request.origin) h

-- Without h2ts among the offered, and with no implicit codec, there is no 101.
missing :
    (t : List ℕ) (offered : List (List ℕ))
    → any_equal t offered ≡ false
    → find_equal t offered ≡ none
missing t [] h = refl
missing t (s ∷ r) h = ground (arith, missing t r)

module _ (crates : Crates) (request : Request) (codec : Bool) (os : List (List ℕ)) where
  abbrev offered : List (List ℕ)
  offered = offered_protocols crates.to_str request

  -- What a 101 says of the offer.
  abbrev IsOpen : Answer → Type 0
  IsOpen a = status a ≡ 101 → (codec || any_equal default_subprotocol offered) ≡ true

  closed : (e : WebSocketError) → IsOpen (Answer.rejected e)
  unfolding status
  closed WebSocketError.not_upgrade_request s = absurd (omega (arith, s))
  closed WebSocketError.forbidden_origin s = absurd (omega (arith, s))
  closed WebSocketError.unsupported_subprotocol s = absurd (omega (arith, s))
  closed WebSocketError.upgrade_failed s = absurd (omega (arith, s))

  turned :
      codec ≡ false
      → any_equal default_subprotocol offered ≡ false
      → decide offered codec none ≡ Fallback.reject
  unfolding decide fallback_subprotocol
  turned c e = rw (c, missing default_subprotocol offered e)

  implicit-IsOpen :
      (b k : Bool) (key : List ℕ)
      → (codec ≡ b)
      → any_equal default_subprotocol offered ≡ k
      → IsOpen (respond crates.is_header_value (accept_key crates key) (decide offered codec none))
  unfolding decide fallback_subprotocol
  implicit-IsOpen true k key c e s = rw c
  implicit-IsOpen false true key c e s = rw (c, e)
  implicit-IsOpen false false key c e s = closed WebSocketError.unsupported_subprotocol (
      subst (λ d. status (respond crates.is_header_value (accept_key crates key) d) ≡ 101)
        (turned c e) s)

  with_key-IsOpen :
      (k : Option (List ℕ))
      → IsOpen (
          with_key k (λ key.
            respond crates.is_header_value (accept_key crates key) (decide offered codec none)))
  with_key-IsOpen none = closed WebSocketError.not_upgrade_request
  with_key-IsOpen (some key) = implicit-IsOpen codec _ key refl refl

  accept-IsOpen : IsOpen (
      accept_with_options crates request
        (λ offered. none)
        (record { allow_implicit_codec = codec; allowed_origins = some_origins os }))
  unfolding accept_with_options
  accept-IsOpen =
      if_case IsOpen (not (is_upgrade_request crates.to_str request))
        (λ n. closed WebSocketError.not_upgrade_request)
        λ u.
          if_case IsOpen
            (not (
              origin_allowed crates.to_str
                (record { allow_implicit_codec = codec; allowed_origins = some_origins os })
                request))
            (λ n. closed WebSocketError.forbidden_origin) (λ a. with_key-IsOpen request.key)

-- What a 101 of the proxy says of the request.
abbrev pub IsLetIn : Crates → Request → List Item → Type 0
IsLetIn crates request is =
    (is_upgrade_request crates.to_str request ≡ true)
    × IsGuarded crates request (origins is)
    × ((says_codec is || any_equal default_subprotocol (offered_protocols crates.to_str request))
        ≡ true)

-- The proxy answers 101 only to an upgrade request. If origins stand on its command line, anywhere
-- on it, the request's `Origin` is one of them, up to ASCII case; and without
-- `--allow-implicit-codec` the client offered h2ts. On the command line no positional argument is
-- one of the three flags, and no origin one of the two without a value.
pub handle-IsLetIn :
    (crates : Crates) (request : Request) (is : List Item)
    → All IsItem is
    → status (handle crates request (read_options (spell is))) ≡ 101
    → IsLetIn crates request is
unfolding handle
handle-IsLetIn crates request is h s =
    let s1 = subst (λ o. status (handle crates request o) ≡ 101) (read_options-spell is h) s in
    let codec = says_codec is in
    let options : AcceptOptions = record {
      allow_implicit_codec = codec;
      allowed_origins = some_origins (origins is);
    } in
    let (u, o) =
      answered crates request (λ offered. none) options _
        (accept_with_options-IsJudged crates request (λ offered. none) options) s1 in
    (
      u,
      allowed_from crates request codec (origins is) o,
      accept-IsOpen crates request codec (origins is) s1,
    )
