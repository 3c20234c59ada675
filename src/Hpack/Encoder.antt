-- ===== src/Hpack/Encoder.antt =====
-- rust/crates/h2ts-client/src/hpack/mod.rs: `HpackEncoder`, which keeps no table.
use h2ts.Common.{
  ℕ, ◌+◌, Bool, if◌then◌else◌, List, [], ◌∷◌, ◌++◌, Option, none, some, bytes_eq,
  to_ascii_lowercase,
}
use h2ts.Hpack.Integer.{write_integer}
use h2ts.Hpack.Strings.{write_string}
use h2ts.Hpack.StaticTable.{static_table}
use h2ts.Hpack.Decoder.{Entry, Header}

-- `format!("{name}\u{0}{value}")`
abbrev pub pair_key : List ℕ → List ℕ → List ℕ
pair_key name value = name ++ (0 ∷ value)

-- `pair_to_index` and `name_to_index` of `static_maps`. No pair stands twice in the table, and of
-- equal names the first is kept, so each map finds the first entry that fits, counted from `i`.
unfoldable pub pair_to_index : ℕ → List Entry → List ℕ → Option ℕ
pair_to_index i [] key = none
pair_to_index i ((name, value) ∷ r) key =
    if bytes_eq (pair_key name value) key then some i else pair_to_index (i + 1) r key

unfoldable pub name_to_index : ℕ → List Entry → List ℕ → Option ℕ
name_to_index i [] key = none
name_to_index i ((name, value) ∷ r) key =
    if bytes_eq name key then some i else name_to_index (i + 1) r key

-- The name of a literal, with the flags of its first byte.
abbrev pub write_name : Option ℕ → ℕ → List ℕ → List ℕ
write_name (some name_index) flags name = write_integer name_index 4 flags
write_name none flags name = write_integer 0 4 flags ++ write_string name

abbrev pub encode_field : Option ℕ → Option ℕ → Bool → List ℕ → List ℕ → List ℕ
encode_field (some index) name_index never_index name value = write_integer index 7 0x80
encode_field none name_index never_index name value =
    write_name name_index (if never_index then 0x10 else 0x00) name ++ write_string value

unfoldable pub encode_header : Header → List ℕ
unfolding to_ascii_lowercase
encode_header h =
    let name = to_ascii_lowercase h.name in
    encode_field (pair_to_index 1 static_table (pair_key name h.value))
      (name_to_index 1 static_table name) h.never_index name h.value

unfoldable pub encode : List Header → List ℕ
unfolding encode_header
encode [] = []
encode (h ∷ r) = encode_header h ++ encode r
