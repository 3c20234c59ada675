-- ===== src/Hpack/RoundTrip.antt =====
-- rust/crates/h2ts-client/src/hpack/mod.rs: `HpackDecoder` reads back what `HpackEncoder` wrote.
use h2ts.Common.{
  ℕ, zero, suc, ◌-◌, ◌^◌, ◌≤◌, ◌<◌, ◌≡◌, refl, ◌∙◌, bit_or, Bool, true, false, not, ◌==◌, has_bits,
  inl, inr, List, [], ◌∷◌, ◌++◌, map, append_assoc, Option, some, none, Option-cases, arith, length,
  All, length-append, if◌then◌else◌, get_elem?, to_ascii_lowercase,
}
use h2ts.Common.Tables.{all_below, all_below_sound}
use h2ts.Errors.{ok}
use h2ts.Hpack.Integer.{write_integer}
use h2ts.Hpack.IntegerRoundTrip.{IsPrefix, read_integer-write_integer}
use h2ts.Hpack.StaticTable.{static_table}
use h2ts.Hpack.Strings.{write_string}
use h2ts.Hpack.StringRoundTrip.{
  IsText, read_string-write_string, write_integer-Begins, IsPrefix-huffman, IsPrefix-literal,
  IsPrefix-never, not-true, huffman_bit,
}
use h2ts.Hpack.Lookup.{pair_to_index-static, name_to_index-static}
use h2ts.Hpack.Decoder.{
  Entry, Header, HpackDecoder, entry_at, indexed, read_name, decode_indexed, decode_literal,
  decode_kind, decode_one, decode_loop, decode,
}
use h2ts.Hpack.Encoder.{pair_key, pair_to_index, name_to_index, encode_field, encode_header, encode}

not_zero : (k : ℕ) → 1 ≤ k → (k == 0) ≡ false
not_zero k h = ground arith

entry_at-static :
    (d : HpackDecoder) (k : ℕ) (e : Entry)
    → 1 ≤ k
    → k ≤ 61
    → get_elem? static_table (k - 1) ≡ some e
    → entry_at d k ≡ ok e
unfolding entry_at
entry_at-static d k e h1 h2 h = ground (arith, h1, h2, h)

-- The first byte of a literal, by its flags.
record IsLiteral (flags : ℕ) : Type 0 where
  prefix : IsPrefix 4 flags
  no_indexed : (v : ℕ) → v < 16 → has_bits (bit_or flags v) 0x80 ≡ false
  no_incremental : (v : ℕ) → v < 16 → has_bits (bit_or flags v) 0x40 ≡ false
  no_update : (v : ℕ) → v < 16 → has_bits (bit_or flags v) 0x20 ≡ false

abbrev lacks : ℕ → ℕ → ℕ → Bool
lacks flags mask v = not (has_bits (bit_or flags v) mask)

lacks_below :
    (flags mask : ℕ)
    → all_below 16 (lacks flags mask) ≡ true
    → (v : ℕ) → v < 16
    → has_bits (bit_or flags v) mask ≡ false
lacks_below flags mask h v hv = not-true _ (all_below_sound 16 (lacks flags mask) v h hv)

plain-IsLiteral : IsLiteral 0x00
unfolding all_below
plain-IsLiteral = record {
  prefix = IsPrefix-literal;
  no_indexed = lacks_below 0x00 0x80 refl;
  no_incremental = lacks_below 0x00 0x40 refl;
  no_update = lacks_below 0x00 0x20 refl;
}

never-IsLiteral : IsLiteral 0x10
unfolding all_below
never-IsLiteral = record {
  prefix = IsPrefix-never;
  no_indexed = lacks_below 0x10 0x80 refl;
  no_incremental = lacks_below 0x10 0x40 refl;
  no_update = lacks_below 0x10 0x20 refl;
}

-- A block that begins with an integer is decoded by the kind of its first byte.
decode_one-indexed :
    (d : HpackDecoder) (k : ℕ) (rest : List ℕ)
    → decode_one 64 d (write_integer k 7 0x80 ++ rest)
      ≡ decode_indexed 64 d (write_integer k 7 0x80 ++ rest)
unfolding decode_one decode_kind
decode_one-indexed d k rest =
    let w = write_integer-Begins k 7 0x80 (omega arith) in rw (w.begins, huffman_bit w.low w.below)

decode_one-literal :
    (d : HpackDecoder) (flags k : ℕ) (rest : List ℕ)
    → IsLiteral flags
    → decode_one 64 d (write_integer k 4 flags ++ rest)
      ≡ decode_literal 64 d (write_integer k 4 flags ++ rest)
unfolding decode_one decode_kind
decode_one-literal d flags k rest l =
    let w = write_integer-Begins k 4 flags (omega arith) in
    rw (
      w.begins,
      l.no_indexed w.low w.below,
      l.no_incremental w.low w.below,
      l.no_update w.low w.below,
    )

decode_indexed-static :
    (d : HpackDecoder) (k : ℕ) (name value rest : List ℕ)
    → pair_to_index 1 static_table (pair_key name value) ≡ some k
    → decode_indexed 64 d (write_integer k 7 0x80 ++ rest)
      ≡ ok (d, some (indexed (name, value)), rest)
unfolding decode_indexed
decode_indexed-static d k name value rest e =
    let (h1, h2, h) = pair_to_index-static k name value e in
    rw (
      read_integer-write_integer k 7 0x80 rest IsPrefix-huffman (omega arith) (omega arith),
      entry_at-static d k (name, value) h1 h2 h,
      not_zero k h1,
    )

decode_literal-spelled :
    (d : HpackDecoder) (flags : ℕ) (name value rest : List ℕ)
    → IsLiteral flags
    → IsText name
    → IsText value
    → decode_literal 64 d
        (write_integer 0 4 flags ++ (write_string name ++ (write_string value ++ rest)))
      ≡ ok (d, some (indexed (name, value)), rest)
unfolding decode_literal read_name
decode_literal-spelled d flags name value rest l hn hv = rw (
  read_integer-write_integer 0 4 flags (write_string name ++ (write_string value ++ rest)) l.prefix
      (omega arith) (omega arith),
  read_string-write_string name (write_string value ++ rest) hn,
  read_string-write_string value rest hv,
)

read_name-static :
    (d : HpackDecoder) (k : ℕ) (name r : List ℕ)
    → name_to_index 1 static_table name ≡ some k
    → read_name 64 d k r ≡ ok (name, r)
unfolding read_name
read_name-static d zero name r e =
    let (_, h1, _, _) = name_to_index-static 0 name e in ground (arith, h1)
read_name-static d (suc k) name r e =
    let (value, h1, h2, h) = name_to_index-static (suc k) name e in
    rw (entry_at-static d (suc k) (name, value) h1 h2 h)

decode_literal-named :
    (d : HpackDecoder) (flags k : ℕ) (name value rest : List ℕ)
    → IsLiteral flags
    → name_to_index 1 static_table name ≡ some k
    → IsText value
    → decode_literal 64 d (write_integer k 4 flags ++ (write_string value ++ rest))
      ≡ ok (d, some (indexed (name, value)), rest)
unfolding decode_literal
decode_literal-named d flags k name value rest l e hv =
    let (_, h1, h2, h) = name_to_index-static k name e in
    rw (
      read_integer-write_integer k 4 flags (write_string value ++ rest) l.prefix (omega arith)
          (omega arith),
      read_name-static d k name (write_string value ++ rest) e,
      read_string-write_string value rest hv,
    )

-- A header whose name, in lower case, and value the wire can carry.
pub record IsHeader (h : Header) : Type 0 where
  pub name_text : IsText (to_ascii_lowercase h.name)
  pub value_text : IsText h.value

-- What the decoder makes of a header: the name in lower case, and no mark.
unfoldable pub received : Header → Header
unfolding to_ascii_lowercase
received h = indexed (to_ascii_lowercase h.name, h.value)

abbrev literal_flags : Bool → ℕ
literal_flags never_index = if never_index then 0x10 else 0x00

flags-IsLiteral : (b : Bool) → IsLiteral (literal_flags b)
flags-IsLiteral true = never-IsLiteral
flags-IsLiteral false = plain-IsLiteral

decode_one-encode_field :
    (d : HpackDecoder) (never_index : Bool) (name value rest : List ℕ)
    → IsText name
    → IsText value
    → decode_one 64 d (
        encode_field
          (pair_to_index 1 static_table (pair_key name value))
          (name_to_index 1 static_table name)
          never_index
          name
          value
        ++ rest)
      ≡ ok (d, some (indexed (name, value)), rest)
decode_one-encode_field d never_index name value rest hn hv =
    let flags = literal_flags never_index in
    let l = flags-IsLiteral never_index in
    elim (Option-cases (pair_to_index 1 static_table (pair_key name value))) [
      | inr (k, e) ↦
          rw e (decode_one-indexed d k rest ∙ decode_indexed-static d k name value rest e)
      | inl e ↦ elim (Option-cases (name_to_index 1 static_table name)) [
        | inr (k, e') ↦
            rw (e, e', append_assoc (write_integer k 4 flags) (write_string value) rest)
              (decode_one-literal d flags k (write_string value ++ rest) l
                ∙ decode_literal-named d flags k name value rest l e' hv)
        | inl e' ↦
            rw
              (
                e,
                e',
                append_assoc (write_integer 0 4 flags ++ write_string name) (write_string value)
                    rest,
                append_assoc (write_integer 0 4 flags) (write_string name)
                    (write_string value ++ rest),
              )
              (decode_one-literal d flags 0 (write_string name ++ (write_string value ++ rest)) l
                ∙ decode_literal-spelled d flags name value rest l hn hv)
      ]
    ]

-- One header is read back, whatever follows it, and the table stays as it was.
decode_one-encode_header :
    (d : HpackDecoder) (h : Header) (rest : List ℕ)
    → IsHeader h
    → decode_one 64 d (encode_header h ++ rest) ≡ ok (d, some (received h), rest)
unfolding encode_header received
decode_one-encode_header d h rest p =
    decode_one-encode_field d h.never_index (to_ascii_lowercase h.name) h.value rest p.name_text
      p.value_text

length-write_integer : (v p flags : ℕ) → 0 < 2 ^ p → 1 ≤ length (write_integer v p flags)
length-write_integer v p flags h =
    let w = write_integer-Begins v p flags h in rw w.begins (omega arith)

length-encode_field :
    (o o' : Option ℕ) (b : Bool) (name value : List ℕ) → 1 ≤ length (encode_field o o' b name value)
length-encode_field (some k) o' b name value = length-write_integer k 7 0x80 (omega arith)
length-encode_field none (some k) b name value =
    let h = length-write_integer k 4 (literal_flags b) (omega arith) in
    omega (arith, h, length-append (write_integer k 4 (literal_flags b)) (write_string value))
length-encode_field none none b name value =
    let h = length-write_integer 0 4 (literal_flags b) (omega arith) in
    let w = write_integer 0 4 (literal_flags b) in
    omega (
      arith,
      h,
      length-append (w ++ write_string name) (write_string value),
      length-append w (write_string name),
    )

decode_loop-step :
    (fuel : ℕ) (d : HpackDecoder) (block rest : List ℕ) (h : Header) (hs : List Header)
    → 1 ≤ length block
    → decode_one 64 d block ≡ ok (d, some h, rest)
    → decode_loop fuel 64 d rest ≡ ok (hs, d)
    → decode_loop (suc fuel) 64 d block ≡ ok (h ∷ hs, d)
unfolding decode_loop
decode_loop-step fuel d [] rest h hs h0 e1 e2 = ground arith
decode_loop-step fuel d (b ∷ r) rest h hs h0 e1 e2 = rw (e1, e2)

length-encode_header : (h : Header) → 1 ≤ length (encode_header h)
unfolding encode_header
length-encode_header h =
    let name = to_ascii_lowercase h.name in
    length-encode_field (pair_to_index 1 static_table (pair_key name h.value))
      (name_to_index 1 static_table name) h.never_index name h.value

decode_loop-encode :
    (hs : List Header) (fuel : ℕ) (d : HpackDecoder)
    → All IsHeader hs
    → length (encode hs) ≤ fuel
    → decode_loop fuel 64 d (encode hs) ≡ ok (map received hs, d)
unfolding encode decode_loop
decode_loop-encode [] fuel d a hf = refl
decode_loop-encode (h ∷ hs) zero d a hf =
    ground (arith, hf, length-encode_header h, length-append (encode_header h) (encode hs))
decode_loop-encode (h ∷ hs) (suc fuel) d a hf =
    let n = length-append (encode_header h) (encode hs) in
    let m = length-encode_header h in
    decode_loop-step fuel d (encode_header h ++ encode hs) (encode hs) (received h)
      (map received hs) (omega (arith, n, m)) (decode_one-encode_header d h (encode hs) a.0)
      (decode_loop-encode hs fuel d a.1 (omega (arith, n, m)))

-- A block that the encoder wrote for headers of text is decoded, on a target with 64-bit `usize`,
-- to the same headers in the same order, their names in lower case, and the decoder's table is
-- left as it was.
pub decode-encode :
    (hs : List Header) (d : HpackDecoder)
    → All IsHeader hs
    → decode 64 d (encode hs) ≡ ok (map received hs, d)
unfolding decode
decode-encode hs d a = decode_loop-encode hs (length (encode hs)) d a (omega arith)
