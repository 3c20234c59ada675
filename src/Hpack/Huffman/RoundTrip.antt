-- ===== src/Hpack/Huffman/RoundTrip.antt =====
-- rust/crates/h2ts-client/src/hpack/huffman.rs: the decoder reads back what the encoder wrote. The
-- code table is checked by evaluation: each code leads from the root to its symbol.
use h2ts.Common.{
  ℕ, zero, suc, ◌+◌, ◌/◌, ◌%◌, ◌^◌, ◌≤◌, ◌<◌, ◌≡◌, refl, ap, sym, ◌∙◌, Bool, true, false, ◌&&◌,
  ◌==◌, if◌then◌else◌, ◌⊎◌, inl, inr, List, [], ◌∷◌, ◌++◌, append_assoc, none, some, arith, length,
  All, replicate, length-append, length-replicate,
}
use h2ts.Errors.{H2Error, Outcome, err, ok, map_ok}
use h2ts.Bytes.{IsByte}
use h2ts.Hpack.Huffman.{
  Trie, code_of, message_bits, padding, huffman_encode, build_trie, child, decode_bits,
  huffman_decode,
}
use h2ts.Hpack.Huffman.Codes.{huffman_eos}
use h2ts.Hpack.Huffman.Bits.{code_bits, byte_bits-pack}

-- The walk from a node by a code ends at the symbol, and passes no other.
abbrev at_end : List Bool → Bool
at_end [] = true
at_end (b ∷ r) = false

leads : ℕ → Trie → List Bool → Bool
leads sym n [] = false
leads sym n (b ∷ bits) = elim (child b n) [
  | Trie.absent ↦ false
  | Trie.node l r none ↦ leads sym (Trie.node l r none) bits
  | Trie.node l r (some s) ↦ s == sym && at_end bits
]

all_lead : Trie → ℕ → Bool
all_lead root zero = true
all_lead root (suc n) = leads n root (code_bits (code_of n).0 (code_of n).1) && all_lead root n

all_lead_sound :
    (root : Trie) (n sym : ℕ)
    → all_lead root n ≡ true
    → sym < n
    → leads sym root (code_bits (code_of sym).0 (code_of sym).1) ≡ true
unfolding all_lead
all_lead_sound root zero sym e h = absurd (omega arith)
all_lead_sound root (suc n) sym e h = ground (arith, all_lead_sound root n sym)

-- From a node, `k` ones pass no symbol and do not leave the trie.
opens : Trie → ℕ → Bool
opens n zero = true
opens n (suc k) = elim (child true n) [
  | Trie.absent ↦ false
  | Trie.node l r none ↦ opens (Trie.node l r none) k
  | Trie.node l r (some s) ↦ false
]

table_checked : (all_lead build_trie 256 && opens build_trie 7) ≡ true
unfolding all_lead opens build_trie leads code_of
table_checked = refl

pub Trie-cases :
    (t : Trie)
    → (t ≡ Trie.absent)
      ⊎ ((l : Trie) × (r : Trie) × (t ≡ Trie.node l r none))
      ⊎ ((l : Trie) × (r : Trie) × (s : ℕ) × (t ≡ Trie.node l r (some s)))
Trie-cases Trie.absent = inl refl
Trie-cases (Trie.node l r none) = inr (inl (l, r, refl))
Trie-cases (Trie.node l r (some s)) = inr (inr (l, r, s, refl))

-- At the symbol itself: it is no EOS, it is a byte, and the code is used up.
accept :
    (s sym : ℕ) (code rest : List Bool) (e : H2Error) (next : List Bool → Outcome (List ℕ))
    → sym < 2 ^ 8
    → (s == sym && at_end code) ≡ true
    → (if s == huffman_eos then err e else map_ok (◌∷◌ (s % 2 ^ 8)) (next (code ++ rest)))
      ≡ map_ok (◌∷◌ sym) (next rest)
accept s sym [] rest x next h e = ground arith
accept s sym (b ∷ code) rest x next h e = ground arith

decode_bits-leads :
    (root n : Trie) (sym : ℕ) (code rest : List Bool) (at_root : Bool) (partial : ℕ) (ones : Bool)
    → sym < 2 ^ 8
    → leads sym n code ≡ true
    → decode_bits root n at_root partial ones (code ++ rest)
      ≡ map_ok (◌∷◌ sym) (decode_bits root root true 0 true rest)
unfolding decode_bits leads
decode_bits-leads root n sym [] rest at_root partial ones h e = cc
decode_bits-leads root n sym (b ∷ code) rest at_root partial ones h e =
    elim (Trie-cases (child b n)) [
      | inl c ↦ cc (rw (c, leads) at e)
      | inr (inl (l, r, c)) ↦
          rw (c, decode_bits)
            (decode_bits-leads root (Trie.node l r none) sym code rest false (partial + 1)
              (ones && b) h (rw (c, leads) at e))
      | inr (inr (l, r, s, c)) ↦
          rw (c, decode_bits)
            (accept s sym code rest _ (decode_bits root root true 0 true) h (rw (c, leads) at e))
    ]

decode_bits-opens :
    (root n : Trie) (k partial : ℕ) (at_root : Bool)
    → opens n k ≡ true
    → partial + k ≤ 7
    → decode_bits root n at_root partial true (replicate k true) ≡ ok []
unfolding decode_bits opens
decode_bits-opens root n zero partial at_root e h = ground arith
decode_bits-opens root n (suc k) partial at_root e h = elim (Trie-cases (child true n)) [
  | inl c ↦ cc (rw (c, opens) at e)
  | inr (inl (l, r, c)) ↦
      rw (c, decode_bits)
        (decode_bits-opens root (Trie.node l r none) k (partial + 1) false (rw (c, opens) at e)
          (omega arith))
  | inr (inr (l, r, s, c)) ↦ cc (rw (c, opens) at e)
]

module _ (root : Trie) (checked : (all_lead root 256 && opens root 7) ≡ true) where
  symbols : all_lead root 256 ≡ true
  symbols = ground arith

  padded : opens root 7 ≡ true
  padded = ground arith

opens_fewer : (n : Trie) (j k : ℕ) → j ≤ k → opens n k ≡ true → opens n j ≡ true
unfolding opens
opens_fewer n zero k h e = refl
opens_fewer n (suc j) zero h e = absurd (omega arith)
opens_fewer n (suc j) (suc k) h e = elim (Trie-cases (child true n)) [
  | inl c ↦ cc (rw (c, opens) at e)
  | inr (inl (l, r, c)) ↦
      rw (c, opens) (opens_fewer (Trie.node l r none) j k (omega arith) (rw (c, opens) at e))
  | inr (inr (l, r, s, c)) ↦ cc (rw (c, opens) at e)
]

-- The decoder over the bits of a message, and ones behind it.
decode_bits-message :
    (root : Trie) (input : List ℕ) (k : ℕ)
    → (all_lead root 256 && opens root 7) ≡ true
    → k ≤ 7
    → All IsByte input
    → decode_bits root root true 0 true (message_bits input ++ replicate k true) ≡ ok input
unfolding message_bits
decode_bits-message root [] k c hk h =
    decode_bits-opens root root k 0 true (opens_fewer root k 7 hk (padded root c)) (omega arith)
decode_bits-message root (b ∷ r) k c hk (hb, hr) =
    rw (append_assoc (code_bits (code_of b).0 (code_of b).1) (message_bits r) (replicate k true)) (
      decode_bits-leads root root b _ _ true 0 true hb
        (all_lead_sound root 256 b (symbols root c) hb)
      ∙ ap (map_ok (◌∷◌ b)) (decode_bits-message root r k c hk hr))

-- Decoding what was encoded gives the bytes back, for every list of bytes: no code is a prefix of
-- another, and the ones that fill the last byte are taken for padding.
pub huffman_decode-huffman_encode :
    (input : List ℕ) → All IsByte input → huffman_decode (huffman_encode input) ≡ ok input
unfolding huffman_decode huffman_encode
huffman_decode-huffman_encode input h =
    ap (decode_bits build_trie build_trie true 0 true) (
      byte_bits-pack (message_bits input ++ replicate (padding (length (message_bits input))) true)
        ((length (message_bits input) + 7) / 8)
        (omega (
          arith,
          length-append (message_bits input)
              (replicate (padding (length (message_bits input))) true),
          length-replicate (padding (length (message_bits input))) true,
        )))
    ∙ decode_bits-message build_trie input (padding (length (message_bits input))) table_checked
        (omega arith) h
