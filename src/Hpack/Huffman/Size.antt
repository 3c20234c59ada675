-- ===== src/Hpack/Huffman/Size.antt =====
-- rust/crates/h2ts-client/src/hpack/huffman.rs: the size of an encoding, as `huffman_shorter` has it.
use h2ts.Common.{
  ℕ, zero, suc, ◌+◌, ◌-◌, ◌*◌, ◌/◌, ◌≡◌, refl, ap, Bool, true, List, [], ◌∷◌, ◌++◌, arith, length,
  replicate, length-append, length-replicate, ltb,
}
use h2ts.Hpack.Huffman.{
  code_of, message_bits, encoded_bit_length, padding, huffman_encode, huffman_shorter,
}
use h2ts.Hpack.Huffman.Bits.{code_bits, pack}

length-code_bits : (c n : ℕ) → length (code_bits c n) ≡ n
length-code_bits c zero = refl
length-code_bits c (suc n) = ap suc (length-code_bits c n)

length-message_bits : (input : List ℕ) → length (message_bits input) ≡ encoded_bit_length input
unfolding message_bits encoded_bit_length
length-message_bits [] = refl
length-message_bits (b ∷ r) = omega (
  arith,
  length-append (code_bits (code_of b).0 (code_of b).1) (message_bits r),
  length-code_bits (code_of b).0 (code_of b).1,
  length-message_bits r,
)

length-pack : (bits : List Bool) (n : ℕ) → length bits ≡ 8 * n → length (pack bits) ≡ n
unfolding pack
length-pack [] n e = omega arith
length-pack (a ∷ b ∷ c ∷ d ∷ e ∷ f ∷ g ∷ h ∷ r) n l =
    omega (arith, length-pack r (n - 1) (omega arith))
length-pack _ n e = absurd (omega arith)

-- The encoding has as many bytes as `huffman_shorter` reckons.
pub length-huffman_encode :
    (input : List ℕ) → length (huffman_encode input) ≡ (encoded_bit_length input + 7) / 8
unfolding huffman_encode
length-huffman_encode input =
    let bits = message_bits input in
    let pad = padding (length bits) in
    length-pack (bits ++ replicate pad true) _ (
      omega (
        arith,
        length-append bits (replicate pad true),
        length-replicate pad true,
        length-message_bits input,
      ))

-- `huffman_shorter` answers whether the Huffman form has fewer bytes than the text itself.
pub huffman_shorter_iff :
    (input : List ℕ) → huffman_shorter input ≡ ltb (length (huffman_encode input)) (length input)
unfolding huffman_shorter
huffman_shorter_iff input = rw (length-huffman_encode input)
