-- ===== src/Hpack/Integer.antt =====
-- rust/crates/h2ts-client/src/hpack/mod.rs: prefix integers. `usize` has `bits` bits, and its
-- arithmetic wraps, shifts included, as it does in a release build.
use h2ts.Common.{
  ℕ, zero, suc, ◌+◌, ◌-◌, ◌*◌, ◌/◌, ◌%◌, ◌^◌, bit_and, bit_or, if◌then◌else◌, ltb, ◌==◌, List, [],
  ◌∷◌,
}
use h2ts.Errors
use h2ts.Errors.{ErrorCode, H2Error, Outcome, ok, err, text, ◌>>=◌}
use h2ts.Bytes.{read_u8}

abbrev pub compression : Errors.Message → H2Error
compression m = Errors.new ErrorCode.compression_error m

-- `while rest >= 128` and the last byte. A `usize` has at most 64 bits, ten groups of seven.
unfoldable pub write_rest : ℕ → ℕ → List ℕ
write_rest zero rest = (rest % 2 ^ 8) ∷ []
write_rest (suc fuel) rest =
    let more = write_rest fuel (rest / 128) in
    if ltb rest 128 then (rest % 2 ^ 8) ∷ [] else (rest % 128 + 128) ∷ more

abbrev pub groups : ℕ
groups = 10

-- What `write_integer` appends; the flags are the high bits of the first byte.
unfoldable pub write_integer : ℕ → ℕ → ℕ → List ℕ
write_integer value prefix_bits first_byte_flags =
    let max = 2 ^ prefix_bits - 1 in
    if ltb value max
    then bit_or first_byte_flags value ∷ []
    else bit_or first_byte_flags max ∷ write_rest groups (value - max)

-- `value += ((byte & 0x7f) as usize) << shift`
abbrev pub add_group : ℕ → ℕ → ℕ → ℕ → ℕ
add_group bits value byte shift =
    (value + bit_and byte 0x7f * 2 ^ (shift % bits) % 2 ^ bits) % 2 ^ bits

-- The loop, over the bytes that remain.
unfoldable pub read_rest : ℕ → ℕ → ℕ → List ℕ → Outcome (ℕ × List ℕ)
read_rest bits value shift [] = err (compression (text "truncated integer"))
read_rest bits value shift (byte ∷ r) =
    let value' = add_group bits value byte shift in
    let more = read_rest bits value' (shift + 7) r in
    if ltb 42 (shift + 7)
    then err (compression (text "integer overflow"))
    else if bit_and byte 0x80 == 0
    then ok (value', r)
    else more

unfoldable pub read_integer : ℕ → List ℕ → ℕ → Outcome (ℕ × List ℕ)
read_integer bits r prefix_bits = do
  let max = 2 ^ prefix_bits - 1
  (first, r1) ← read_u8 r
  let value = bit_and first max
  if ltb value max then ok (value, r1) else read_rest bits value 0 r1
