-- ===== src/Hpack/StringRoundTrip.antt =====
-- rust/crates/h2ts-client/src/hpack/mod.rs: `read_string` reads back what `write_string` wrote.
use h2ts.Common.{
  ℕ, ◌-◌, ◌^◌, ◌<◌, ◌≡◌, refl, sym, ◌∙◌, bit_and, bit_or, Bool, true, false, not, ◌==◌, ==_iff,
  has_bits, ltb, ltb→lt, le→ltb-false, Bool-cases, inl, inr, List, [], ◌∷◌, ◌++◌, append_assoc,
  arith, length, All, take-append, drop-append, length-append,
}
use h2ts.Common.Tables.{all_below, all_below_sound}
use h2ts.Errors.{ok}
use h2ts.Bytes.{IsByte, peek, remaining}
use h2ts.Hpack.Integer.{write_integer, read_integer, write_rest, groups}
use h2ts.Hpack.IntegerRoundTrip.{IsPrefix, read_integer-write_integer}
use h2ts.Hpack.Huffman.{huffman_encode, huffman_shorter}
use h2ts.Hpack.Huffman.RoundTrip.{huffman_decode-huffman_encode}
use h2ts.Hpack.Huffman.Size.{huffman_shorter_iff}
use h2ts.Hpack.Strings.{write_string, read_string, unpack}
use h2ts.Hpack.Utf8.{IsUtf8}

abbrev fits_prefix : ℕ → ℕ → ℕ → Bool
fits_prefix p flags v = bit_and (bit_or flags v) (2 ^ p - 1) == v

-- The flags that the encoder uses, against their prefixes.
pub IsPrefix-huffman : IsPrefix 7 0x80
IsPrefix-huffman v h =
    (==_iff _ v).0 (all_below_sound 128 (fits_prefix 7 0x80) v (unfold all_below in refl) h)

pub IsPrefix-raw : IsPrefix 7 0x00
IsPrefix-raw v h =
    (==_iff _ v).0 (all_below_sound 128 (fits_prefix 7 0x00) v (unfold all_below in refl) h)

pub IsPrefix-literal : IsPrefix 4 0x00
IsPrefix-literal v h =
    (==_iff _ v).0 (all_below_sound 16 (fits_prefix 4 0x00) v (unfold all_below in refl) h)

pub IsPrefix-never : IsPrefix 4 0x10
IsPrefix-never v h =
    (==_iff _ v).0 (all_below_sound 16 (fits_prefix 4 0x10) v (unfold all_below in refl) h)

-- What `write_integer` writes begins with the flags and some bits below them.
pub record Begins (flags prefix_bits : ℕ) (bytes : List ℕ) : Type 0 where
  pub low : ℕ
  pub tail : List ℕ
  pub below : low < 2 ^ prefix_bits
  pub begins : bytes ≡ bit_or flags low ∷ tail

pub write_integer-Begins :
    (value prefix_bits flags : ℕ)
    → 0 < 2 ^ prefix_bits
    → Begins flags prefix_bits (write_integer value prefix_bits flags)
unfolding write_integer
write_integer-Begins value p flags h = elim (Bool-cases (ltb value (2 ^ p - 1))) [
  | inl small ↦ record {
    low = value;
    tail = [];
    below = omega (arith, ltb→lt value (2 ^ p - 1) small);
    begins = rw small;
  }
  | inr large ↦ record {
    low = 2 ^ p - 1;
    tail = write_rest groups (value - (2 ^ p - 1));
    below = omega arith;
    begins = rw large;
  }
]

-- A text that the wire can carry: bytes, in UTF-8, of a length within the decoder's guard.
pub record IsText (s : List ℕ) : Type 0 where
  pub bytes : All IsByte s
  pub utf8 : IsUtf8 s
  pub short : length s < 2 ^ 42

pub not-true : (b : Bool) → not b ≡ true → b ≡ false
not-true true h = sym h
not-true false h = refl

pub huffman_bit : (v : ℕ) → v < 128 → has_bits (bit_or 0x80 v) 0x80 ≡ true
huffman_bit v h =
    all_below_sound 128 (λ v. has_bits (bit_or 0x80 v) 0x80) v (unfold all_below in refl) h

raw_bit : (v : ℕ) → v < 128 → has_bits (bit_or 0x00 v) 0x80 ≡ false
raw_bit v h =
    not-true _ (
      all_below_sound 128 (λ v. not (has_bits (bit_or 0x00 v) 0x80)) v (unfold all_below in refl) h)

read_string_step :
    (block : List ℕ) (first : ℕ) (huffman : Bool) (raw s rest : List ℕ)
    → (remaining block == 0) ≡ false
    → peek block ≡ ok first
    → read_integer 64 block 7 ≡ ok (length raw, raw ++ rest)
    → has_bits first 0x80 ≡ huffman
    → unpack huffman raw ≡ ok s
    → IsUtf8 s
    → read_string 64 block ≡ ok (s, rest)
unfolding read_string
read_string_step block first huffman raw s rest h0 hp hi hb hu h8 = rw (
  h0,
  hp,
  hi,
  le→ltb-false (length (raw ++ rest)) (length raw) (omega (arith, length-append raw rest)),
  take-append raw rest,
  drop-append raw rest,
  hb,
  hu,
  h8,
)

-- A length, and then as many bytes.
read_string_body :
    (flags : ℕ) (huffman : Bool) (raw s rest : List ℕ)
    → IsPrefix 7 flags
    → length raw < 2 ^ 42
    → ((v : ℕ) → v < 128 → has_bits (bit_or flags v) 0x80 ≡ huffman)
    → unpack huffman raw ≡ ok s
    → IsUtf8 s
    → read_string 64 (write_integer (length raw) 7 flags ++ (raw ++ rest)) ≡ ok (s, rest)
read_string_body flags huffman raw s rest hp hl hb hu h8 =
    let w = write_integer-Begins (length raw) 7 flags (omega arith) in
    read_string_step (write_integer (length raw) 7 flags ++ (raw ++ rest)) (bit_or flags w.low)
      huffman raw s rest (rw w.begins (ground arith)) (rw w.begins)
      (read_integer-write_integer (length raw) 7 flags (raw ++ rest) hp (omega arith) hl)
      (hb w.low w.below) hu h8

-- A string literal is read back as the text that was written, whichever form `write_string` chose,
-- and what follows it is left.
pub read_string-write_string :
    (s rest : List ℕ) → IsText s → read_string 64 (write_string s ++ rest) ≡ ok (s, rest)
unfolding write_string
read_string-write_string s rest t = elim (Bool-cases (huffman_shorter s)) [
  | inl shorter ↦
      let e : length (huffman_encode s) < length s =
        ltb→lt _ _ (sym (huffman_shorter_iff s) ∙ shorter) in
      rw
        (
          shorter,
          append_assoc (write_integer (length (huffman_encode s)) 7 0x80) (huffman_encode s) rest,
        )
        (read_string_body 0x80 true (huffman_encode s) s rest IsPrefix-huffman
          (omega (arith, t.short)) huffman_bit (huffman_decode-huffman_encode s t.bytes) t.utf8)
  | inr longer ↦
      rw (longer, append_assoc (write_integer (length s) 7 0x00) s rest)
        (read_string_body 0x00 false s s rest IsPrefix-raw t.short raw_bit refl t.utf8)
]
