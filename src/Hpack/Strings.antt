-- ===== src/Hpack/Strings.antt =====
-- rust/crates/h2ts-client/src/hpack/mod.rs: string literals, Huffman-coded when that is shorter.
use h2ts.Common.{ℕ, Bool, true, false, if◌then◌else◌, ltb, ◌==◌, has_bits, List, ◌++◌, length}
use h2ts.Errors.{Outcome, ok, text, ok_or, reject, ◌>>=◌, ◌>>◌}
use h2ts.Bytes.{remaining, peek, read_bytes}
use h2ts.Hpack.Integer.{compression, write_integer, read_integer}
use h2ts.Hpack.Huffman.{huffman_encode, huffman_decode, huffman_shorter}
use h2ts.Hpack.Utf8.{decode_utf8}

unfoldable pub write_string : List ℕ → List ℕ
write_string raw =
    if huffman_shorter raw
    then write_integer (length (huffman_encode raw)) 7 0x80 ++ huffman_encode raw
    else write_integer (length raw) 7 0x00 ++ raw

-- `if huffman { huffman_decode(raw)? } else { raw.to_vec() }`
abbrev pub unpack : Bool → List ℕ → Outcome (List ℕ)
unpack true raw = huffman_decode raw
unpack false raw = ok raw

unfoldable pub read_string : ℕ → List ℕ → Outcome (List ℕ × List ℕ)
read_string bits r = do
  reject (remaining r == 0) (compression (text "truncated string"))
  first ← peek r
  (len, r1) ← read_integer bits r 7
  reject (ltb (remaining r1) len) (compression (text "string length exceeds block"))
  (raw, r2) ← ok_or (read_bytes r1 len) (compression (text "truncated string"))
  decoded ← unpack (has_bits first 0x80) raw
  ok (decode_utf8 decoded, r2)
