-- ===== src/Hpack/Runs.antt =====
-- Runs of the header compression, and its theorems at concrete inputs.
use h2ts.Common.{
  ℕ, ◌+◌, ◌%◌, ◌^◌, ◌<◌, ◌≤◌, ◌⊎◌, ◌≡◌, refl, true, false, List, [], ◌∷◌, ◌++◌, map, codes, All,
  length, arith, to_ascii_lowercase, lower_byte,
}
use h2ts.Errors.{ok}
use h2ts.Bytes.{IsByte}
use h2ts.Outcomes.{Yields}
use h2ts.Hpack.Huffman.{huffman_encode, huffman_decode, code_of, message_bits, decode_bits}
use h2ts.Hpack.Huffman.Bits.{pack}
use h2ts.Hpack.Huffman.RoundTrip.{huffman_decode-huffman_encode}
use h2ts.Hpack.Strings.{write_string}
use h2ts.Hpack.StringSize.{huffman_form, plain_form, write_string_shortest}
use h2ts.Hpack.Integer.{write_integer, write_rest, read_integer}
use h2ts.Hpack.IntegerRoundTrip.{read_integer-write_integer, read_integer_wraps}
use h2ts.Hpack.Utf8.{ascii-IsUtf8}
use h2ts.Hpack.StringRoundTrip.{IsText, IsPrefix-huffman}
use h2ts.Hpack.Decoder.{Header, HpackDecoder, evict, apply_max_size, decode}
use h2ts.Hpack.Encoder.{encode}
use h2ts.Hpack.Table.{IsTable}
use h2ts.Hpack.Totality.{decode-Yields}
use h2ts.Hpack.RoundTrip.{IsHeader, received, decode-encode}

www :
    huffman_encode (codes "www.example.com")
    ≡ 0xf1 ∷ 0xe3 ∷ 0xc2 ∷ 0xe5 ∷ 0xf2 ∷ 0x3a ∷ 0x6b ∷ 0xa0 ∷ 0xab ∷ 0x90 ∷ 0xf4 ∷ 0xff ∷ []
unfolding huffman_encode message_bits code_of pack
www = refl

www_back :
    huffman_decode
      (0xf1 ∷ 0xe3 ∷ 0xc2 ∷ 0xe5 ∷ 0xf2 ∷ 0x3a ∷ 0x6b ∷ 0xa0 ∷ 0xab ∷ 0x90 ∷ 0xf4 ∷ 0xff ∷ [])
    ≡ ok (codes "www.example.com")
unfolding huffman_decode decode_bits
www_back = refl

abbrev cookie : Header
cookie = record { name = codes "Cookie"; value = codes "a=1"; never_index = true }

abbrev get : Header
get = record { name = codes ":method"; value = codes "GET"; never_index = false }

abbrev small_table : HpackDecoder
small_table = record {
  dynamic = (codes "a", codes "b") ∷ [];
  size = 34;
  max_size = 70;
  protocol_max = 4096;
}

small_table-IsTable : IsTable small_table
small_table-IsTable = record { counted = refl; within = omega arith; agreed = omega arith }

word : All IsByte (codes "www")
word = (omega arith, (omega arith, (omega arith, tt)))

huffman_decode-huffman_encode_example :
    huffman_decode (huffman_encode (codes "www")) ≡ ok (codes "www")
huffman_decode-huffman_encode_example = huffman_decode-huffman_encode (codes "www") word

write_string_shortest_example :
    ((write_string (codes "www") ≡ huffman_form (codes "www"))
      × (length (huffman_encode (codes "www")) < length (codes "www")))
    ⊎ ((write_string (codes "www") ≡ plain_form (codes "www"))
        × (length (codes "www") ≤ length (huffman_encode (codes "www"))))
write_string_shortest_example = write_string_shortest (codes "www")

-- RFC 7541, C.1.2: 1337 with a prefix of five bits.
write_1337 : write_integer 1337 5 0 ≡ 31 ∷ 154 ∷ 10 ∷ []
unfolding write_integer write_rest
write_1337 = refl

read_integer-write_integer_example :
    read_integer 64 (write_integer 1337 7 0x80 ++ (9 ∷ [])) 7 ≡ ok (1337, 9 ∷ [])
read_integer-write_integer_example =
    read_integer-write_integer 1337 7 0x80 (9 ∷ []) IsPrefix-huffman (omega arith) (omega arith)

read_integer_wraps_example :
    (read_integer 32 (write_integer (2 ^ 32 + 5) 7 0x80 ++ []) 7 ≡ ok ((2 ^ 32 + 5) % 2 ^ 32, []))
    × ((2 ^ 32 + 5) % 2 ^ 32 < 2 ^ 32 + 5)
read_integer_wraps_example =
    read_integer_wraps (2 ^ 32 + 5) 7 0x80 [] IsPrefix-huffman (omega arith) (omega arith)
      (omega arith)

www_IsText : IsText (codes "www")
www_IsText = record {
  bytes = word;
  utf8 = ascii-IsUtf8 (codes "www") (omega arith, (omega arith, (omega arith, tt)));
  short = omega arith;
}

shrinks :
    apply_max_size small_table 10
    ≡ ok (record small_table { dynamic = []; size = 0; max_size = 10 })
unfolding apply_max_size evict
shrinks = refl

decode-Yields_example :
    Yields
      (λ (p : List Header × HpackDecoder). IsTable p.1)
      (decode 64 small_table (0x82 ∷ 0x40 ∷ []))
decode-Yields_example = decode-Yields 64 small_table (0x82 ∷ 0x40 ∷ []) small_table-IsTable

abbrev IsAscii : ℕ → Type 0
IsAscii c = c < 0x80

ascii_bytes : (s : List ℕ) → All IsAscii s → All IsByte s
ascii_bytes [] h = tt
ascii_bytes (c ∷ r) (hc, hr) = (omega arith, ascii_bytes r hr)

ascii-IsText : (s : List ℕ) → All IsAscii s → length s < 100 → IsText s
ascii-IsText s h k = record {
  bytes = ascii_bytes s h;
  utf8 = ascii-IsUtf8 s h;
  short = omega (arith, k);
}

headers_text : All IsHeader (get ∷ cookie ∷ [])
unfolding to_ascii_lowercase lower_byte
headers_text = (
  record {
    name_text =
        ascii-IsText (codes ":method")
          (
            omega arith,
            (
              omega arith,
              (omega arith, (omega arith, (omega arith, (omega arith, (omega arith, tt))))),
            ),
          )
          (omega arith);
    value_text =
        ascii-IsText (codes "GET") (omega arith, (omega arith, (omega arith, tt))) (omega arith);
  },
  (
    record {
      name_text =
          ascii-IsText (codes "cookie")
            (
              omega arith,
              (omega arith, (omega arith, (omega arith, (omega arith, (omega arith, tt))))),
            )
            (omega arith);
      value_text =
          ascii-IsText (codes "a=1") (omega arith, (omega arith, (omega arith, tt))) (omega arith);
    },
    tt,
  ),
)

decode-encode_example :
    decode 64 small_table (encode (get ∷ cookie ∷ []))
    ≡ ok (map received (get ∷ cookie ∷ []), small_table)
decode-encode_example = decode-encode (get ∷ cookie ∷ []) small_table headers_text
