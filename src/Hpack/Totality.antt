-- ===== src/Hpack/Totality.antt =====
-- rust/crates/h2ts-client/src/hpack/mod.rs: decoding ends on every block, in bounds, and keeps the
-- table well formed.
use h2ts.Common.{
  bit_and, ◌^◌, ◌%◌, ◌&&◌, ℕ, zero, suc, ◌+◌, ◌-◌, ◌≤◌, ◌<◌, ◌≡◌, ◌≢◌, refl, Bool, true, false,
  List, [], ◌∷◌, Option, none, arith, length, length-drop, Bool-cases, inl, inr, ltb, has_bits,
  ◌==◌, take, if◌then◌else◌,
}
use h2ts.Errors.{H2Error, Outcome, ok, err, panic, map_ok}
use h2ts.Bytes.{remaining}
use h2ts.Outcomes.{Yields, Yields-bind, Yields-mono}
use h2ts.Hpack.Huffman.{Trie, decode_bits, huffman_decode, child, finish}
use h2ts.Hpack.Huffman.RoundTrip.{Trie-cases}
use h2ts.Hpack.Huffman.Bits.{byte_bits}
use h2ts.Hpack.Integer.{read_rest, read_integer, add_group}
use h2ts.Hpack.Strings.{read_string, unpack}
use h2ts.Hpack.Decoder.{
  HpackDecoder, Header, entry_at, apply_max_size, read_name, decode_indexed, decode_incremental,
  decode_size_update, decode_literal, decode_one, decode_loop, decode,
}
use h2ts.Hpack.Table.{IsTable, insert-IsTable, apply_max_size-IsTable}

-- A reader's answer, and what is left: fewer bytes than there were.
abbrev Shorter {ℓ} : {A : Type ℓ} → List ℕ → A × List ℕ → Type 0
Shorter r (a, r1) = length r1 < length r

read_rest-Yields :
    (bits value shift : ℕ) (r : List ℕ) → Yields (Shorter r) (read_rest bits value shift r)
unfolding read_rest
read_rest-Yields bits value shift [] = tt
read_rest-Yields bits value shift (b ∷ r) = elim (Bool-cases (ltb 42 (shift + 7))) [
  | inl big ↦ rw big tt
  | inr small ↦ elim (Bool-cases (bit_and b 0x80 == 0)) [
    | inl last ↦ rw (small, last) (omega arith)
    | inr more ↦
        rw (small, more)
          (Yields-mono (Shorter {A = ℕ} r) (Shorter {A = ℕ} (b ∷ r)) _
            (read_rest-Yields bits (add_group bits value b shift) (shift + 7) r)
            (λ a h. omega arith))
  ]
]

read_integer-Yields :
    (bits prefix b : ℕ) (r : List ℕ) → Yields (Shorter (b ∷ r)) (read_integer bits (b ∷ r) prefix)
unfolding read_integer
read_integer-Yields bits prefix b r =
    let first = bit_and b (2 ^ prefix - 1) in
    elim (Bool-cases (ltb first (2 ^ prefix - 1))) [
      | inl small ↦ rw small (omega arith)
      | inr large ↦ rw large (
          Yields-mono (Shorter {A = ℕ} r) (Shorter {A = ℕ} (b ∷ r)) _
            (read_rest-Yields bits first 0 r) (λ a h. omega arith))
    ]

-- A byte of the output, or EOS.
emit-ne-panic :
    (b : Bool) (e : H2Error) (s : ℕ) (o : Outcome (List ℕ))
    → o ≢ panic
    → (if b then err e else map_ok (◌∷◌ s) o) ≢ panic
emit-ne-panic true e s o h = λ p. cc
emit-ne-panic false e s (ok a) h = λ p. cc
emit-ne-panic false e s (err x) h = λ p. cc
emit-ne-panic false e s panic h = h

finish-ne-panic : (at_root : Bool) (partial : ℕ) (ones : Bool) → finish at_root partial ones ≢ panic
finish-ne-panic at_root partial ones = ground arith

decode_bits-ne-panic :
    (root n : Trie) (at_root : Bool) (partial : ℕ) (ones : Bool) (bits : List Bool)
    → decode_bits root n at_root partial ones bits ≢ panic
unfolding decode_bits
decode_bits-ne-panic root n at_root partial ones [] = finish-ne-panic at_root partial ones
decode_bits-ne-panic root n at_root partial ones (b ∷ bits) = elim (Trie-cases (child b n)) [
  | inl c ↦ rw (c, decode_bits) (λ e. cc)
  | inr (inl (l, r, c)) ↦
      rw (c, decode_bits)
        (decode_bits-ne-panic root (Trie.node l r none) false (partial + 1) (ones && b) bits)
  | inr (inr (l, r, s, c)) ↦
      rw (c, decode_bits)
        (emit-ne-panic _ _ (s % 2 ^ 8) _ (decode_bits-ne-panic root root true 0 true bits))
]

Yields-of_ne : {A : Type 0} (o : Outcome A) → o ≢ panic → Yields (λ _. Unit {0}) o
Yields-of_ne (ok a) h = tt
Yields-of_ne (err e) h = tt
Yields-of_ne panic h = h refl

Yields-of_ok :
    {A : Type 0} (P : A → Type 0) (o : Outcome A)
    → o ≢ panic
    → ((a : A) → o ≡ ok a → P a)
    → Yields P o
Yields-of_ok P (ok a) h k = k a refl
Yields-of_ok P (err e) h k = tt
Yields-of_ok P panic h k = h refl

unpack-Yields : (huffman : Bool) (raw : List ℕ) → Yields (λ _. Unit {0}) (unpack huffman raw)
unfolding huffman_decode
unpack-Yields true raw = Yields-of_ne _ (decode_bits-ne-panic _ _ true 0 true (byte_bits raw))
unpack-Yields false raw = tt

read_string-Yields : (bits : ℕ) (r : List ℕ) → Yields (Shorter r) (read_string bits r)
unfolding read_string
read_string-Yields bits [] = tt
read_string-Yields bits (b ∷ r) =
    let some_left : (remaining (b ∷ r) == 0) ≡ false = ground arith in
    rw some_left (
      Yields-bind (Shorter {A = ℕ} (b ∷ r)) (Shorter {A = List ℕ} (b ∷ r))
        (read_integer bits (b ∷ r) 7) _ (read_integer-Yields bits 7 b r)
        λ (len, r1) h1. elim (Bool-cases (ltb (remaining r1) len)) [
          | inl short ↦ rw short tt
          | inr full ↦ rw full (
              Yields-bind (λ _. Unit {0}) (Shorter {A = List ℕ} (b ∷ r)) _ _
                (unpack-Yields (has_bits b 0x80) (take len r1))
                (λ decoded _. omega (arith, length-drop len r1)))
        ])

entry_at-Yields : (d : HpackDecoder) (i : ℕ) → Yields (λ _. Unit {0}) (entry_at d i)
unfolding entry_at
entry_at-Yields d i = Yields-of_ne (entry_at d i) (ground arith)

apply_max_size-Yields : (d : HpackDecoder) (n : ℕ) → IsTable d → Yields IsTable (apply_max_size d n)
apply_max_size-Yields d n t =
    Yields-of_ok IsTable (apply_max_size d n) (unfold apply_max_size in ground arith)
      (λ d' e. apply_max_size-IsTable d d' n t e)

-- What an instruction does: it takes bytes, and keeps the table well formed.
abbrev Moves : List ℕ → HpackDecoder × Option Header × List ℕ → Type 0
Moves r (d, h, rest) = IsTable d × (length rest < length r)

read_name-Yields :
    (bits : ℕ) (d : HpackDecoder) (i : ℕ) (r r0 : List ℕ)
    → length r < length r0
    → Yields (Shorter r0) (read_name bits d i r)
unfolding read_name
read_name-Yields bits d zero r r0 h =
    Yields-mono (Shorter r) (Shorter r0) _ (read_string-Yields bits r) (λ a k. omega arith)
read_name-Yields bits d (suc i) r r0 h =
    Yields-bind (λ _. Unit {0}) (Shorter r0) _ _ (entry_at-Yields d (suc i)) (λ e _. h)

decode_indexed-Yields :
    (bits : ℕ) (d : HpackDecoder) (b : ℕ) (r : List ℕ)
    → IsTable d
    → Yields (Moves (b ∷ r)) (decode_indexed bits d (b ∷ r))
unfolding decode_indexed
decode_indexed-Yields bits d b r t =
    Yields-bind (Shorter {A = ℕ} (b ∷ r)) (Moves (b ∷ r)) _ _ (read_integer-Yields bits 7 b r)
      λ (index, r1) h1. elim (Bool-cases (index == 0)) [
        | inl none_such ↦ rw none_such tt
        | inr known ↦ rw known (
            Yields-bind (λ _. Unit {0}) (Moves (b ∷ r)) _ _ (entry_at-Yields d index)
              (λ e _. (t, h1)))
      ]

decode_incremental-Yields :
    (bits : ℕ) (d : HpackDecoder) (b : ℕ) (r : List ℕ)
    → IsTable d
    → Yields (Moves (b ∷ r)) (decode_incremental bits d (b ∷ r))
unfolding decode_incremental
decode_incremental-Yields bits d b r t =
    Yields-bind (Shorter (b ∷ r)) (Moves (b ∷ r)) _ _ (read_integer-Yields bits 6 b r) λ (i, r1) h1.
      Yields-bind (Shorter (b ∷ r)) (Moves (b ∷ r)) _ _ (read_name-Yields bits d i r1 (b ∷ r) h1)
        λ (name, r2) h2.
          Yields-bind (Shorter r2) (Moves (b ∷ r)) _ _ (read_string-Yields bits r2)
            λ (value, r3) h3. (insert-IsTable d name value t, omega arith)

decode_literal-Yields :
    (bits : ℕ) (d : HpackDecoder) (b : ℕ) (r : List ℕ)
    → IsTable d
    → Yields (Moves (b ∷ r)) (decode_literal bits d (b ∷ r))
unfolding decode_literal
decode_literal-Yields bits d b r t =
    Yields-bind (Shorter (b ∷ r)) (Moves (b ∷ r)) _ _ (read_integer-Yields bits 4 b r) λ (i, r1) h1.
      Yields-bind (Shorter (b ∷ r)) (Moves (b ∷ r)) _ _ (read_name-Yields bits d i r1 (b ∷ r) h1)
        λ (name, r2) h2.
          Yields-bind (Shorter r2) (Moves (b ∷ r)) _ _ (read_string-Yields bits r2)
            λ (value, r3) h3. (t, omega arith)

decode_size_update-Yields :
    (bits : ℕ) (d : HpackDecoder) (b : ℕ) (r : List ℕ)
    → IsTable d
    → Yields (Moves (b ∷ r)) (decode_size_update bits d (b ∷ r))
unfolding decode_size_update
decode_size_update-Yields bits d b r t =
    Yields-bind (Shorter (b ∷ r)) (Moves (b ∷ r)) _ _ (read_integer-Yields bits 5 b r) λ (n, r1) h1.
      Yields-bind IsTable (Moves (b ∷ r)) _ _ (apply_max_size-Yields d n t) λ d' t'. (t', h1)

decode_one-Yields :
    (bits : ℕ) (d : HpackDecoder) (b : ℕ) (r : List ℕ)
    → IsTable d
    → Yields (Moves (b ∷ r)) (decode_one bits d (b ∷ r))
unfolding decode_one
decode_one-Yields bits d b r t = elim (Bool-cases (has_bits b 0x80)) [
  | inl a ↦ rw a (decode_indexed-Yields bits d b r t)
  | inr a ↦ elim (Bool-cases (has_bits b 0x40)) [
    | inl c ↦ rw (a, c) (decode_incremental-Yields bits d b r t)
    | inr c ↦ elim (Bool-cases (has_bits b 0x20)) [
      | inl e ↦ rw (a, c, e) (decode_size_update-Yields bits d b r t)
      | inr e ↦ rw (a, c, e) (decode_literal-Yields bits d b r t)
    ]
  ]
]

decode_loop-Yields :
    (fuel bits : ℕ) (d : HpackDecoder) (r : List ℕ)
    → length r ≤ fuel
    → IsTable d
    → Yields (λ (p : List Header × HpackDecoder). IsTable p.1) (decode_loop fuel bits d r)
unfolding decode_loop
decode_loop-Yields fuel bits d [] h t = t
decode_loop-Yields zero bits d (b ∷ r) h t = absurd (omega arith)
decode_loop-Yields (suc fuel) bits d (b ∷ r) h t =
    Yields-bind (Moves (b ∷ r)) (λ (p : List Header × HpackDecoder). IsTable p.1) _ _
      (decode_one-Yields bits d b r t)
      λ (d1, x, rest) m.
        Yields-bind (λ (p : List Header × HpackDecoder). IsTable p.1)
          (λ (p : List Header × HpackDecoder). IsTable p.1) _ _
          (decode_loop-Yields fuel bits d1 rest (omega arith) m.0) λ p k. k

-- Decoding a header block ends on every list of bytes without an access out of bounds, and a
-- success leaves a well-formed table: counted, within the limit last agreed on.
pub decode-Yields :
    (bits : ℕ) (d : HpackDecoder) (block : List ℕ)
    → IsTable d
    → Yields (λ (p : List Header × HpackDecoder). IsTable p.1) (decode bits d block)
unfolding decode
decode-Yields bits d block t = decode_loop-Yields (length block) bits d block (omega arith) t
