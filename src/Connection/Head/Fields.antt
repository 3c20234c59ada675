-- ===== src/Connection/Head/Fields.antt =====
-- rust/crates/h2ts-client/src/connection.rs: `collect_headers`, which joins fields of one name.
use h2ts.Common.{ℕ, ◌==◌, if◌then◌else◌, List, [], ◌∷◌, ◌++◌, Option, some, none, bytes_eq}
use h2ts.Hpack.Decoder.{Header}
use h2ts.Connection.Head.{separator}

-- The values of a name, in order.
abbrev pub values : List ℕ → List Header → List (List ℕ)
values name [] = []
values name (h ∷ r) = if bytes_eq h.name name then h.value ∷ values name r else values name r

-- Texts with a separator between two neighbours; none at all has no value.
abbrev tail_text : List ℕ → List (List ℕ) → List ℕ
tail_text sep [] = []
tail_text sep (v ∷ r) = sep ++ (v ++ tail_text sep r)

abbrev pub join : List ℕ → List (List ℕ) → Option (List ℕ)
join sep [] = none
join sep (v ∷ r) = some (v ++ tail_text sep r)

abbrev extend : List ℕ → Option (List ℕ) → List (List ℕ) → Option (List ℕ)
extend sep none vs = join sep vs
extend sep (some t) vs = some (t ++ tail_text sep vs)

-- The value of a name that does not begin with a colon, which is 58.
abbrev pub field_value : List ℕ → List Header → Option (List ℕ)
field_value [] raw = join (separator []) (values [] raw)
field_value (c ∷ r) raw = if c == 58 then none else join (separator (c ∷ r)) (values (c ∷ r) raw)
