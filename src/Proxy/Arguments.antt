-- ===== src/Proxy/Arguments.antt =====
-- rust/crates/h2ts-server/src/bin/h2ts-proxy.rs: the command line against a grammar of it.
use h2ts.Common.{
  ℕ, ◌≡◌, refl, ap, ◌∙◌, Bool, true, false, if◌then◌else◌, List, [], ◌∷◌, none, codes, bytes_eq,
  All,
}
use h2ts.Proxy.{
  any_arg, codec_flag, keepalive_flag, origin_flag, Kind, kind_of, Collected, collect_args,
  with_origin, with_positional, Options, head_or, tail, keepalive_arg, some_origins, read_options,
}

-- What stands on a command line.
pub data Item : Type 0 where
  allow_implicit_codec : Item
  no_keepalive : Item
  allowed_origin : List ℕ → Item
  positional : List ℕ → Item

abbrev pub spell : List Item → List (List ℕ)
spell [] = []
spell (Item.allow_implicit_codec ∷ is) = codec_flag ∷ spell is
spell (Item.no_keepalive ∷ is) = keepalive_flag ∷ spell is
spell (Item.allowed_origin v ∷ is) = origin_flag ∷ v ∷ spell is
spell (Item.positional a ∷ is) = a ∷ spell is

-- An origin's value is not one of the flags without a value, and a positional argument is no flag.
abbrev pub IsItem : Item → Type 0
IsItem Item.allow_implicit_codec = Unit
IsItem Item.no_keepalive = Unit
IsItem (Item.allowed_origin v) = bytes_eq v codec_flag ≡ false × bytes_eq v keepalive_flag ≡ false
IsItem (Item.positional a) =
    bytes_eq a codec_flag ≡ false
    × bytes_eq a keepalive_flag ≡ false
    × bytes_eq a origin_flag ≡ false

-- What the items say.
abbrev pub origins : List Item → List (List ℕ)
origins [] = []
origins (Item.allow_implicit_codec ∷ is) = origins is
origins (Item.no_keepalive ∷ is) = origins is
origins (Item.allowed_origin v ∷ is) = v ∷ origins is
origins (Item.positional a ∷ is) = origins is

abbrev pub positionals : List Item → List (List ℕ)
positionals [] = []
positionals (Item.allow_implicit_codec ∷ is) = positionals is
positionals (Item.no_keepalive ∷ is) = positionals is
positionals (Item.allowed_origin v ∷ is) = positionals is
positionals (Item.positional a ∷ is) = a ∷ positionals is

abbrev pub says_codec : List Item → Bool
says_codec [] = false
says_codec (Item.allow_implicit_codec ∷ is) = true
says_codec (Item.no_keepalive ∷ is) = says_codec is
says_codec (Item.allowed_origin v ∷ is) = says_codec is
says_codec (Item.positional a ∷ is) = says_codec is

abbrev pub says_no_keepalive : List Item → Bool
says_no_keepalive [] = false
says_no_keepalive (Item.allow_implicit_codec ∷ is) = says_no_keepalive is
says_no_keepalive (Item.no_keepalive ∷ is) = true
says_no_keepalive (Item.allowed_origin v ∷ is) = says_no_keepalive is
says_no_keepalive (Item.positional a ∷ is) = says_no_keepalive is

abbrev pub said : List Item → Collected
said is = record { allowed_origins = origins is; positional = positionals is }

-- The loop, at the front of the arguments.
collect_args-flag :
    (a : List ℕ) (rest : List (List ℕ))
    → kind_of a ≡ Kind.flag
    → collect_args (a ∷ rest) ≡ collect_args rest
unfolding collect_args
collect_args-flag a [] h = rw (h, collect_args)
collect_args-flag a (v ∷ rest) h = rw (h, collect_args)

collect_args-positional :
    (a : List ℕ) (rest : List (List ℕ))
    → kind_of a ≡ Kind.positional
    → collect_args (a ∷ rest) ≡ with_positional a (collect_args rest)
unfolding collect_args
collect_args-positional a [] h = rw (h, collect_args)
collect_args-positional a (v ∷ rest) h = rw (h, collect_args)

collect_args-origin :
    (a v : List ℕ) (rest : List (List ℕ))
    → kind_of a ≡ Kind.origin
    → collect_args (a ∷ v ∷ rest) ≡ with_origin v (collect_args rest)
unfolding collect_args
collect_args-origin a v rest h = rw (h, collect_args)

positional_kind : (a : List ℕ) → IsItem (Item.positional a) → kind_of a ≡ Kind.positional
unfolding kind_of
positional_kind a (c, k, o) = rw (c, k, o)

codec_kind : kind_of codec_flag ≡ Kind.flag
unfolding kind_of
codec_kind = refl

keepalive_kind : kind_of keepalive_flag ≡ Kind.flag
unfolding kind_of
keepalive_kind = refl

origin_kind : kind_of origin_flag ≡ Kind.origin
unfolding kind_of
origin_kind = refl

pub collect_args-spell : (is : List Item) → All IsItem is → collect_args (spell is) ≡ said is
unfolding collect_args
collect_args-spell [] h = refl
collect_args-spell (Item.allow_implicit_codec ∷ is) (_, hs) =
    collect_args-flag codec_flag (spell is) codec_kind ∙ collect_args-spell is hs
collect_args-spell (Item.no_keepalive ∷ is) (_, hs) =
    collect_args-flag keepalive_flag (spell is) keepalive_kind ∙ collect_args-spell is hs
collect_args-spell (Item.allowed_origin v ∷ is) (_, hs) =
    collect_args-origin origin_flag v (spell is) origin_kind
    ∙ ap (with_origin v) (collect_args-spell is hs)
collect_args-spell (Item.positional a ∷ is) (h, hs) =
    collect_args-positional a (spell is) (positional_kind a h)
    ∙ ap (with_positional a) (collect_args-spell is hs)

pub any_arg-codec : (is : List Item) → All IsItem is → any_arg codec_flag (spell is) ≡ says_codec is
unfolding any_arg
any_arg-codec [] h = refl
any_arg-codec (Item.allow_implicit_codec ∷ is) (_, hs) = refl
any_arg-codec (Item.no_keepalive ∷ is) (_, hs) = any_arg-codec is hs
any_arg-codec (Item.allowed_origin v ∷ is) ((c, k), hs) = rw c (any_arg-codec is hs)
any_arg-codec (Item.positional a ∷ is) ((c, k, o), hs) = rw c (any_arg-codec is hs)

pub any_arg-no_keepalive :
    (is : List Item) → All IsItem is → any_arg keepalive_flag (spell is) ≡ says_no_keepalive is
unfolding any_arg
any_arg-no_keepalive [] h = refl
any_arg-no_keepalive (Item.allow_implicit_codec ∷ is) (_, hs) = any_arg-no_keepalive is hs
any_arg-no_keepalive (Item.no_keepalive ∷ is) (_, hs) = refl
any_arg-no_keepalive (Item.allowed_origin v ∷ is) ((c, k), hs) = rw k (any_arg-no_keepalive is hs)
any_arg-no_keepalive (Item.positional a ∷ is) ((c, k, o), hs) = rw k (any_arg-no_keepalive is hs)

-- What the options are to be.
abbrev pub meant : List Item → Options
meant is =
    let args = positionals is in
    record {
      listen = head_or (codes "127.0.0.1:8091") args;
      upstream = head_or (codes "127.0.0.1:8000") (tail args);
      keepalive = if says_no_keepalive is then none else keepalive_arg (tail (tail args));
      allow_implicit_codec = says_codec is;
      allowed_origins = some_origins (origins is);
    }

-- The flags may stand anywhere: the options are read from a command line as the items on it say,
-- whatever their order. No positional argument is one of the three flags, and no origin one of the
-- two without a value; an origin may be spelled like the third.
pub read_options-spell : (is : List Item) → All IsItem is → read_options (spell is) ≡ meant is
unfolding read_options
read_options-spell is h =
    rw (collect_args-spell is h, any_arg-codec is h, any_arg-no_keepalive is h)
