-- ===== src/Handshake/Answers.antt =====
-- rust/crates/h2ts-server/src/handshake.rs: which of its tests decide the answer of the handshake.
use h2ts.Common.{
  ℕ, ◌≡◌, refl, sym, Bool, true, false, true-ne-false, not, ◌&&◌, ◌||◌, if_case, List, [], ◌∷◌,
  Option, some, none, bytes_eq_refl, to_ascii_lowercase, arith, codes,
}
use h2ts.Handshake.{
  Request, AcceptOptions, WebSocketError, Crates, eq_ignore_ascii_case, any_equal,
  is_upgrade_request, is_some, offered_protocols, Fallback, default_subprotocol, find_equal, first,
  or_implicit, fallback_subprotocol, decide, origin_allowed, Answer, valid_only, respond, with_key,
  accept_key, accept_with_options, header_lists,
}

-- The subprotocol of a response, if there is one, is one that the client offered, but for case.
abbrev pub IsOffered : List (List ℕ) → Option (List ℕ) → Type 0
IsOffered offered none = Unit
IsOffered offered (some p) = any_equal p offered ≡ true

-- What an answer says of the request, by the tests that the code makes.
abbrev pub IsJudged :
    Crates → Request → (List (List ℕ) → Option (List ℕ)) → AcceptOptions → Answer → Type 0
IsJudged crates request select options (Answer.switching response) =
    (is_upgrade_request crates.to_str request ≡ true)
    × (origin_allowed crates.to_str options request ≡ true)
    × ((key : List ℕ) × (request.key ≡ some key) × (response.accept_value ≡ accept_key crates key))
    × IsOffered (offered_protocols crates.to_str request) response.subprotocol
IsJudged crates request select options (Answer.rejected WebSocketError.not_upgrade_request) =
    is_upgrade_request crates.to_str request ≡ false
IsJudged crates request select options (Answer.rejected WebSocketError.forbidden_origin) =
    (is_upgrade_request crates.to_str request ≡ true)
    × (origin_allowed crates.to_str options request ≡ false)
IsJudged crates request select options (Answer.rejected WebSocketError.unsupported_subprotocol) =
    (any_equal default_subprotocol (offered_protocols crates.to_str request) ≡ false)
    × (options.allow_implicit_codec ≡ false)
IsJudged crates request select options (Answer.rejected WebSocketError.upgrade_failed) = ⊥

eq_ignore_ascii_case_refl : (t : List ℕ) → eq_ignore_ascii_case t t ≡ true
eq_ignore_ascii_case_refl t = bytes_eq_refl (to_ascii_lowercase t)

or_true : (b : Bool) → (b || true) ≡ true
or_true true = refl
or_true false = refl

any_equal-first : (offered : List (List ℕ)) → IsOffered offered (first offered)
any_equal-first [] = tt
any_equal-first (s ∷ r) = rw (eq_ignore_ascii_case_refl s)

IsOffered-cons :
    (s : List ℕ) (r : List (List ℕ)) (o : Option (List ℕ)) → IsOffered r o → IsOffered (s ∷ r) o
IsOffered-cons s r none h = tt
IsOffered-cons s r (some p) h = rw h (or_true (eq_ignore_ascii_case s p))

find_equal-IsOffered :
    (t : List ℕ) (offered : List (List ℕ)) → IsOffered offered (find_equal t offered)
find_equal-IsOffered t [] = tt
find_equal-IsOffered t (s ∷ r) =
    if_case (IsOffered (s ∷ r)) (eq_ignore_ascii_case s t) (λ e. rw (eq_ignore_ascii_case_refl s))
      (λ f. IsOffered-cons s r (find_equal t r) (find_equal-IsOffered t r))

find_equal-none :
    (t : List ℕ) (offered : List (List ℕ))
    → find_equal t offered ≡ none
    → any_equal t offered ≡ false
find_equal-none t [] h = refl
find_equal-none t (s ∷ r) h = ground (arith, h, find_equal-none t r)

-- What a decision says of the offer.
abbrev IsDecided : List (List ℕ) → Bool → Fallback → Type 0
IsDecided offered implicit (Fallback.accept o) = IsOffered offered o
IsDecided offered implicit Fallback.reject =
    (any_equal default_subprotocol offered ≡ false) × (implicit ≡ false)

or_implicit-IsDecided :
    (offered : List (List ℕ)) (implicit : Bool) (o : Option (List ℕ))
    → find_equal default_subprotocol offered ≡ o
    → IsOffered offered o
    → IsDecided offered implicit (or_implicit offered implicit o)
or_implicit-IsDecided offered implicit (some p) e h = h
or_implicit-IsDecided offered implicit none e h =
    if_case (IsDecided offered implicit) implicit (λ t. any_equal-first offered)
      (λ f. (find_equal-none default_subprotocol offered e, f))

fallback-IsDecided :
    (offered : List (List ℕ)) (implicit : Bool)
    → IsDecided offered implicit (fallback_subprotocol offered implicit)
unfolding fallback_subprotocol
fallback-IsDecided offered implicit =
    or_implicit-IsDecided offered implicit (find_equal default_subprotocol offered) refl
      (find_equal-IsOffered default_subprotocol offered)

decide-IsDecided :
    (offered : List (List ℕ)) (implicit : Bool) (o : Option (List ℕ))
    → IsDecided offered implicit (decide offered implicit o)
unfolding decide
decide-IsDecided offered implicit none = fallback-IsDecided offered implicit
decide-IsDecided offered implicit (some p) =
    if_case (IsDecided offered implicit) (any_equal p offered) (λ t. t)
      (λ f. fallback-IsDecided offered implicit)

valid_only-IsOffered :
    (valid : List ℕ → Bool) (offered : List (List ℕ)) (o : Option (List ℕ))
    → IsOffered offered o
    → IsOffered offered (valid_only valid o)
valid_only-IsOffered valid offered none h = tt
valid_only-IsOffered valid offered (some p) h =
    if_case (IsOffered offered) (valid p) (λ t. h) (λ f. tt)

module _ (crates : Crates) (request : Request) (select : List (List ℕ) → Option (List ℕ))
    (options : AcceptOptions) where
  respond-IsJudged :
      (key : List ℕ) (d : Fallback)
      → is_upgrade_request crates.to_str request ≡ true
      → origin_allowed crates.to_str options request ≡ true
      → request.key ≡ some key
      → IsDecided (offered_protocols crates.to_str request) options.allow_implicit_codec d
      → IsJudged crates request select options
          (respond crates.is_header_value (accept_key crates key) d)
  respond-IsJudged key (Fallback.accept o) u a k h = (
    u,
    a,
    (key, k, refl),
    valid_only-IsOffered crates.is_header_value (offered_protocols crates.to_str request) o h,
  )
  respond-IsJudged key Fallback.reject u a k h = h

  with_key-IsJudged :
      (o : Option (List ℕ))
      → is_upgrade_request crates.to_str request ≡ true
      → origin_allowed crates.to_str options request ≡ true
      → request.key ≡ o
      → is_some o ≡ true
      → IsJudged crates request select options (
          with_key o λ key. respond crates.is_header_value (accept_key crates key) (
            decide
              (offered_protocols crates.to_str request)
              options.allow_implicit_codec
              (select (offered_protocols crates.to_str request))))
  with_key-IsJudged none u a k s = absurd (true-ne-false (sym s))
  with_key-IsJudged (some key) u a k s =
      let offered = offered_protocols crates.to_str request in
      respond-IsJudged key (decide offered options.allow_implicit_codec (select offered)) u a k
        (decide-IsDecided offered options.allow_implicit_codec (select offered))

third : (a b c : Bool) → (a && (b && c)) ≡ true → c ≡ true
third true true c h = h
third true false c h = absurd (true-ne-false (sym h))
third false b c h = absurd (true-ne-false (sym h))

upgrade_has_key :
    (to_str : List ℕ → Option (List ℕ)) (request : Request)
    → is_upgrade_request to_str request ≡ true
    → is_some request.key ≡ true
unfolding is_upgrade_request
upgrade_has_key to_str request h =
    third (header_lists to_str request.upgrade (codes "websocket"))
      (header_lists to_str request.connection (codes "upgrade")) (is_some request.key) h

not-true : (b : Bool) → not b ≡ true → b ≡ false
not-true true h = sym h
not-true false h = refl

not-false : (b : Bool) → not b ≡ false → b ≡ true
not-false true h = refl
not-false false h = sym h

-- What the answer says of the request, in the terms of the code's own tests.
pub accept_with_options-IsJudged :
    (crates : Crates) (request : Request) (select : List (List ℕ) → Option (List ℕ))
    (options : AcceptOptions)
    → IsJudged crates request select options (accept_with_options crates request select options)
unfolding accept_with_options
accept_with_options-IsJudged crates request select options =
    let upgrade = is_upgrade_request crates.to_str request in
    let allowed = origin_allowed crates.to_str options request in
    if_case (IsJudged crates request select options) (not upgrade) (λ n. not-true upgrade n)
      λ u.
        if_case (IsJudged crates request select options) (not allowed)
          (λ n. (not-false upgrade u, not-true allowed n))
          (λ a.
            with_key-IsJudged crates request select options request.key (not-false upgrade u)
              (not-false allowed a) refl
              (upgrade_has_key crates.to_str request (not-false upgrade u)))
