-- ===== src/Handshake/Statuses.antt =====
-- rust/crates/h2ts-server/src/handshake.rs: what each answer of the handshake means, with the status
-- of the response that a rejection becomes.
use h2ts.Common.{ℕ, ◌≡◌, ◌⊎◌, true, false, List, Option, some, none}
use h2ts.Handshake.{
  Request, AcceptOptions, rejection_status, Crates, any_equal, is_upgrade_request,
  offered_protocols, default_subprotocol, read_with, Answer, accept_key,
}
use h2ts.Handshake.Answers.{IsOffered}

-- The origin of a request that may come in: any if no list is given; else the request has an
-- `Origin`, it is text, and it is in the list, but for ASCII case.
abbrev pub IsWelcome : Option (List (List ℕ)) → Option (List ℕ) → Type 0
IsWelcome none origin = Unit
IsWelcome (some allowed) origin =
    (text : List ℕ) × (origin ≡ some text) × (any_equal text allowed ≡ true)

-- One that may not: a list is given, and there is no such `Origin`, or it is not in the list.
abbrev pub IsUnwelcome : Option (List (List ℕ)) → Option (List ℕ) → Type 0
IsUnwelcome none origin = ⊥
IsUnwelcome (some allowed) origin =
    (origin ≡ none) ⊎ ((text : List ℕ) × (origin ≡ some text) × (any_equal text allowed ≡ false))

-- What an answer says of the request, and the status of a rejection.
abbrev pub IsAnswered : Crates → Request → AcceptOptions → Answer → Type 0
IsAnswered crates request options (Answer.switching response) =
    (is_upgrade_request crates.to_str request ≡ true)
    × IsWelcome options.allowed_origins (read_with crates.to_str request.origin)
    × ((key : List ℕ) × (request.key ≡ some key) × (response.accept_value ≡ accept_key crates key))
    × IsOffered (offered_protocols crates.to_str request) response.subprotocol
IsAnswered crates request options (Answer.rejected e) =
    ((rejection_status e ≡ 426) × (is_upgrade_request crates.to_str request ≡ false))
    ⊎ (((rejection_status e ≡ 403)
          × (is_upgrade_request crates.to_str request ≡ true)
          × IsUnwelcome options.allowed_origins (read_with crates.to_str request.origin))
        ⊎ ((rejection_status e ≡ 400)
            × (any_equal default_subprotocol (offered_protocols crates.to_str request) ≡ false)
            × (options.allow_implicit_codec ≡ false)))
