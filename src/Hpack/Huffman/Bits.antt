-- ===== src/Hpack/Huffman/Bits.antt =====
-- rust/crates/h2ts-client/src/hpack/huffman.rs: bits, most significant first, and bytes.
use h2ts.Common.{
  ℕ, zero, suc, ◌+◌, ◌*◌, ◌-◌, ◌/◌, ap, ap₂, ◌∙◌, length, ◌%◌, ◌^◌, ◌≤◌, ◌≡◌, refl, Bool, true,
  false, ◌==◌, if◌then◌else◌, List, [], ◌∷◌, arith,
}

-- `for i in (0..nbits).rev()`: the bits `(code >> i) & 1`.
abbrev pub code_bits : ℕ → ℕ → List Bool
code_bits code zero = []
code_bits code (suc i) = ((code / 2 ^ i % 2) == 1) ∷ code_bits code i

-- The bits of each byte, from `byte >> 7` down to `byte >> 0`.
abbrev pub bits_of : ℕ → List Bool → List Bool
bits_of b r =
    ((b / 128 % 2) == 1)
    ∷ ((b / 64 % 2) == 1)
    ∷ ((b / 32 % 2) == 1)
    ∷ ((b / 16 % 2) == 1)
    ∷ ((b / 8 % 2) == 1)
    ∷ ((b / 4 % 2) == 1)
    ∷ ((b / 2 % 2) == 1)
    ∷ ((b % 2) == 1)
    ∷ r

abbrev pub byte_bits : List ℕ → List Bool
byte_bits [] = []
byte_bits (b ∷ r) = bits_of b (byte_bits r)

abbrev pub bit : Bool → ℕ
bit b = if b then 1 else 0

-- `out[pos >> 3] |= 0x80 >> (pos & 7)` for each bit that is set: whole bytes, eight bits to a byte.
unfoldable pub pack : List Bool → List ℕ
pack (a ∷ b ∷ c ∷ d ∷ e ∷ f ∷ g ∷ h ∷ r) =
    (128 * bit a + 64 * bit b + 32 * bit c + 16 * bit d + 8 * bit e + 4 * bit f + 2 * bit g + bit h)
    ∷ pack r
pack _ = []

bit-le : (b : Bool) → bit b ≤ 1
bit-le true = omega arith
bit-le false = omega arith

bit_test : (n : ℕ) (b : Bool) → n ≡ bit b → (n == 1) ≡ b
bit_test n true e = ground arith
bit_test n false e = ground arith

bits_of_pack :
    (a b c d e f g h : Bool) (r : List Bool)
    → bits_of
        (128 * bit a
          + 64 * bit b
          + 32 * bit c
          + 16 * bit d
          + 8 * bit e
          + 4 * bit f
          + 2 * bit g
          + bit h)
        r
      ≡ a ∷ b ∷ c ∷ d ∷ e ∷ f ∷ g ∷ h ∷ r
bits_of_pack a b c d e f g h r =
    let ha : bit a ≤ 1 = bit-le a in
    let hb : bit b ≤ 1 = bit-le b in
    let hc : bit c ≤ 1 = bit-le c in
    let hd : bit d ≤ 1 = bit-le d in
    let he : bit e ≤ 1 = bit-le e in
    let hf : bit f ≤ 1 = bit-le f in
    let hg : bit g ≤ 1 = bit-le g in
    let hh : bit h ≤ 1 = bit-le h in
    let v : ℕ =
      128 * bit a
      + 64 * bit b
      + 32 * bit c
      + 16 * bit d
      + 8 * bit e
      + 4 * bit f
      + 2 * bit g
      + bit h in
    ap₂ ◌∷◌ (bit_test (v / 128 % 2) a (omega arith)) (
      ap₂ ◌∷◌ (bit_test (v / 64 % 2) b (omega arith)) (
        ap₂ ◌∷◌ (bit_test (v / 32 % 2) c (omega arith)) (
          ap₂ ◌∷◌ (bit_test (v / 16 % 2) d (omega arith)) (
            ap₂ ◌∷◌ (bit_test (v / 8 % 2) e (omega arith)) (
              ap₂ ◌∷◌ (bit_test (v / 4 % 2) f (omega arith)) (
                ap₂ ◌∷◌ (bit_test (v / 2 % 2) g (omega arith))
                  (ap (λ x. x ∷ r) (bit_test (v % 2) h (omega arith)))))))))

-- Whole bytes of bits come back from the bytes.
pub byte_bits-pack : (bits : List Bool) (n : ℕ) → length bits ≡ 8 * n → byte_bits (pack bits) ≡ bits
unfolding pack
byte_bits-pack [] n e = refl
byte_bits-pack (a ∷ b ∷ c ∷ d ∷ e ∷ f ∷ g ∷ h ∷ r) n l =
    ap (bits_of _) (byte_bits-pack r (n - 1) (omega arith)) ∙ bits_of_pack a b c d e f g h r
byte_bits-pack _ n e = absurd (omega arith)
