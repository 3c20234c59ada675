-- ===== src/Hpack/Huffman.antt =====
-- rust/crates/h2ts-client/src/hpack/huffman.rs: the Huffman coder, and its decoder's trie.
pub mod Codes
pub mod Bits
pub mod RoundTrip
pub mod Size
use h2ts.Common.{
  ℕ, zero, suc, ◌+◌, ◌-◌, ◌/◌, ◌%◌, ◌^◌, Bool, true, false, ◌&&◌, ◌||◌, not, if◌then◌else◌, ltb,
  ◌==◌, List, [], ◌∷◌, ◌++◌, Option, none, some, length, get_elem?, replicate,
}
use h2ts.Errors
use h2ts.Errors.{ErrorCode, H2Error, Outcome, ok, err, text, map_ok}
use Codes.{huffman_codes, huffman_eos}
use Bits.{code_bits, byte_bits, pack}

-- The index is a byte, so it is always in the table.
unfoldable pub code_of : ℕ → ℕ × ℕ
unfolding huffman_codes
code_of b = elim (get_elem? huffman_codes b) [ some c ↦ c | none ↦ (0, 0) ]

-- `encoded_bit_length`
unfoldable pub encoded_bit_length : List ℕ → ℕ
encoded_bit_length [] = 0
encoded_bit_length (b ∷ r) = (code_of b).1 + encoded_bit_length r

-- The bits of the codes, one code after another.
unfoldable pub message_bits : List ℕ → List Bool
message_bits [] = []
message_bits (b ∷ r) = code_bits (code_of b).0 (code_of b).1 ++ message_bits r

-- `while bit_pos & 7 != 0`: ones up to the end of the byte.
abbrev pub padding : ℕ → ℕ
padding bit_pos = (8 - bit_pos % 8) % 8

unfoldable pub huffman_encode : List ℕ → List ℕ
huffman_encode input =
    let bits = message_bits input in pack (bits ++ replicate (padding (length bits)) true)

unfoldable pub huffman_shorter : List ℕ → Bool
huffman_shorter input = ltb ((encoded_bit_length input + 7) / 8) (length input)

-- `TrieNode`, or no node.
pub data Trie : Type 0 where
  absent : Trie
  node : Trie → Trie → Option ℕ → Trie

abbrev pub empty_node : Trie
empty_node = Trie.node Trie.absent Trie.absent none

-- The walk down the code, with the nodes that are missing put in, and the symbol set at its end.
unfoldable pub insert_code : List Bool → ℕ → Trie → Trie
insert_code [] sym Trie.absent = Trie.node Trie.absent Trie.absent (some sym)
insert_code [] sym (Trie.node l r s) = Trie.node l r (some sym)
insert_code (true ∷ bits) sym Trie.absent =
    Trie.node Trie.absent (insert_code bits sym Trie.absent) none
insert_code (false ∷ bits) sym Trie.absent =
    Trie.node (insert_code bits sym Trie.absent) Trie.absent none
insert_code (true ∷ bits) sym (Trie.node l r s) = Trie.node l (insert_code bits sym r) s
insert_code (false ∷ bits) sym (Trie.node l r s) = Trie.node (insert_code bits sym l) r s

unfoldable pub insert_all : ℕ → List (ℕ × ℕ) → Trie → Trie
unfolding insert_code
insert_all sym [] t = t
insert_all sym ((code, nbits) ∷ r) t =
    insert_all (suc sym) r (insert_code (code_bits code nbits) sym t)

unfoldable pub build_trie : Trie
unfolding insert_all huffman_codes
build_trie = insert_all 0 huffman_codes empty_node

abbrev pub child : Bool → Trie → Trie
child b Trie.absent = Trie.absent
child true (Trie.node l r s) = r
child false (Trie.node l r s) = l

abbrev compression : Errors.Message → H2Error
compression m = Errors.new ErrorCode.compression_error m

-- Leftover bits must be at most seven, all ones.
abbrev pub finish : Bool → ℕ → Bool → Outcome (List ℕ)
finish at_root partial_bits all_ones =
    if not at_root && (ltb 7 partial_bits || not all_ones)
    then err (compression (text "invalid Huffman padding"))
    else ok []

-- The loop over the bits. `at_root` is `ptr::eq(node, root)`.
unfoldable pub decode_bits : Trie → Trie → Bool → ℕ → Bool → List Bool → Outcome (List ℕ)
decode_bits root n at_root partial_bits all_ones [] = finish at_root partial_bits all_ones
decode_bits root n at_root partial_bits all_ones (b ∷ bits) = elim (child b n) [
  | Trie.absent ↦ err (compression (text "invalid Huffman code"))
  | Trie.node l r none ↦
      decode_bits root (Trie.node l r none) false (partial_bits + 1) (all_ones && b) bits
  | Trie.node l r (some sym) ↦
      let rest = decode_bits root root true 0 true bits in
      if sym == huffman_eos
      then err (compression (text "EOS symbol in Huffman stream"))
      else map_ok (◌∷◌ (sym % 2 ^ 8)) rest
]

unfoldable pub huffman_decode : List ℕ → Outcome (List ℕ)
unfolding build_trie
huffman_decode input = let root = build_trie in decode_bits root root true 0 true (byte_bits input)
