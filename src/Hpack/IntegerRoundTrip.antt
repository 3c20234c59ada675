-- ===== src/Hpack/IntegerRoundTrip.antt =====
-- rust/crates/h2ts-client/src/hpack/mod.rs: `read_integer` reads back what `write_integer` wrote.
use h2ts.Common.{
  Bool-cases, inl, inr, ltb, ltb→lt, ltb-false→le, le→ltb-false, ℕ, zero, suc, ◌+◌, ◌-◌, ◌*◌, ◌/◌,
  ◌%◌, ◌^◌, ◌≤◌, ◌<◌, ◌≡◌, refl, ap, ◌∙◌, bit_and, bit_or, true, ◌==◌, ==_iff, List, ◌∷◌, ◌++◌,
  arith,
}
use native.Mathlib.Nat.{
  mod-eq_of_lt, add-mod-mod, mod-add-mod, div-add-mod, one-le-pow, pow-le-pow_right,
}
use native.Mathlib.Numerals.{towards_suc}
use h2ts.Common.Tables.{all_below, all_below_sound}
use h2ts.Errors.{ok}
use h2ts.Hpack.Integer.{write_rest, write_integer, add_group, read_rest, read_integer, groups}

low_table : all_below 256 (λ b. bit_and b 0x7f == (b % 128)) ≡ true
unfolding all_below
low_table = refl

high_table : all_below 256 (λ b. bit_and b 0x80 == (b / 128 * 128)) ≡ true
unfolding all_below
high_table = refl

low_bits : (b : ℕ) → b < 256 → bit_and b 0x7f ≡ b % 128
low_bits b h = (==_iff _ _).0 (all_below_sound 256 (λ b. bit_and b 0x7f == (b % 128)) b low_table h)

high_bit : (b : ℕ) → b < 256 → bit_and b 0x80 ≡ b / 128 * 128
high_bit b h =
    (==_iff _ _).0 (all_below_sound 256 (λ b. bit_and b 0x80 == (b / 128 * 128)) b high_table h)

-- A group whose shift is below the width is added without loss, modulo the width.
add_group_lem :
    (bits acc b shift : ℕ)
    → b < 256
    → shift < bits
    → add_group bits acc b shift ≡ (acc + b % 128 * 2 ^ shift) % 2 ^ bits
add_group_lem bits acc b shift hb hs =
    rw (low_bits b hb, mod-eq_of_lt hs) (add-mod-mod acc (b % 128 * 2 ^ shift) (2 ^ bits))

last_byte :
    (bits w acc shift : ℕ) (rest : List ℕ)
    → w < 128
    → shift + 7 ≤ 42
    → shift < bits
    → read_rest bits acc shift (w ∷ rest) ≡ ok ((acc + w * 2 ^ shift) % 2 ^ bits, rest)
unfolding read_rest
last_byte bits w acc shift rest hw hs hb =
    let small : w % 128 ≡ w = omega arith in
    ground (arith, high_bit w, rw small at (add_group_lem bits acc w shift (omega arith) hb))

inner_byte :
    (bits g acc shift : ℕ) (rest : List ℕ)
    → g < 128
    → shift + 7 ≤ 42
    → shift < bits
    → read_rest bits acc shift ((g + 128) ∷ rest)
      ≡ read_rest bits ((acc + g * 2 ^ shift) % 2 ^ bits) (shift + 7) rest
unfolding read_rest
inner_byte bits g acc shift rest hg hs hb =
    let low : (g + 128) % 128 ≡ g = omega arith in
    ground (
      arith,
      high_bit (g + 128),
      rw low at (add_group_lem bits acc (g + 128) shift (omega arith) hb),
    )

next_group : (p : ℕ) → 2 ^ (p + 7) ≡ 2 ^ p * 128
next_group p = simp towards_suc (omega arith)

groups_sum : (p v : ℕ) → v % 128 * 2 ^ p + v / 128 * 2 ^ (p + 7) ≡ v * 2 ^ p
groups_sum p v =
    let power = ap (λ (u : ℕ). v / 128 * u) (next_group p) in
    let parts = ap (λ (u : ℕ). u * 2 ^ p) (div-add-mod v 128) in omega (arith, parts, power)

regroup :
    (bits acc w s : ℕ)
    → ((acc + w % 128 * 2 ^ s) % 2 ^ bits + w / 128 * 2 ^ (s + 7)) % 2 ^ bits
      ≡ (acc + w * 2 ^ s) % 2 ^ bits
regroup bits acc w s =
    mod-add-mod (acc + w % 128 * 2 ^ s) (2 ^ bits) (w / 128 * 2 ^ (s + 7))
    ∙ ap (λ t. t % 2 ^ bits) (omega (arith, groups_sum s w))

read_rest-write_rest :
    (k fuel bits w acc shift : ℕ) (rest : List ℕ)
    → k ≤ fuel
    → w < 128 ^ suc k
    → shift + 7 * suc k ≤ 42
    → shift + 7 * k < bits
    → read_rest bits acc shift (write_rest fuel w ++ rest)
      ≡ ok ((acc + w * 2 ^ shift) % 2 ^ bits, rest)
unfolding write_rest
read_rest-write_rest zero zero bits w acc shift rest hk hw hs hb =
    let small : w % 256 ≡ w = omega arith in
    rw small (last_byte bits w acc shift rest (omega arith) (omega arith) (omega arith))
read_rest-write_rest zero (suc fuel) bits w acc shift rest hk hw hs hb =
    ground (arith, last_byte bits w acc shift rest (omega arith) (omega arith) (omega arith))
read_rest-write_rest (suc k) zero bits w acc shift rest hk hw hs hb = absurd (omega arith)
read_rest-write_rest (suc k) (suc fuel) bits w acc shift rest hk hw hs hb =
    elim (Bool-cases (ltb w 128)) [
      | inl small ↦
          rw (small, let e : w % 256 ≡ w = omega (arith, ltb→lt w 128 small) in e)
            (last_byte bits w acc shift rest (ltb→lt w 128 small) (omega arith) (omega arith))
      | inr large ↦ rw large (
          inner_byte bits (w % 128) acc shift (write_rest fuel (w / 128) ++ rest) (omega arith)
            (omega arith) (omega arith)
          ∙ read_rest-write_rest k fuel bits (w / 128) ((acc + w % 128 * 2 ^ shift) % 2 ^ bits)
              (shift + 7) rest (omega arith) (omega arith) (omega arith) (omega arith)
          ∙ ap (λ v. ok (v, rest)) (regroup bits acc w shift))
    ]

-- The first byte carries the flags and the low bits of the value side by side.
abbrev pub IsPrefix : ℕ → ℕ → Type 0
IsPrefix prefix_bits flags =
    (v : ℕ) → v < 2 ^ prefix_bits → bit_and (bit_or flags v) (2 ^ prefix_bits - 1) ≡ v

-- On any width, a value of up to `k` groups beyond the prefix is read back modulo the width, where
-- the shifts stay below the width and the guard of 42 bits.
read_integer_mod :
    (k bits value prefix_bits flags : ℕ) (rest : List ℕ)
    → IsPrefix prefix_bits flags
    → 0 < 2 ^ prefix_bits
    → k ≤ 5
    → 7 * k < bits
    → 2 ^ prefix_bits ≤ 2 ^ bits
    → value < 2 ^ prefix_bits - 1 + 128 ^ suc k
    → read_integer bits (write_integer value prefix_bits flags ++ rest) prefix_bits
      ≡ ok (value % 2 ^ bits, rest)
unfolding read_integer write_integer
read_integer_mod k bits value prefix_bits flags rest hp h1 hk hb hpb hv =
    elim (Bool-cases (ltb value (2 ^ prefix_bits - 1))) [
      | inl small ↦
          rw (small, hp value (omega (arith, ltb→lt _ _ small)), small, mod-eq_of_lt (fits small))
      | inr large ↦
          rw
            (
              large,
              hp (2 ^ prefix_bits - 1) (omega arith),
              le→ltb-false (2 ^ prefix_bits - 1) (2 ^ prefix_bits - 1) (omega arith),
            )
            (read_rest-write_rest k groups bits (value - (2 ^ prefix_bits - 1))
                (2 ^ prefix_bits - 1) 0 rest (omega arith) (omega (arith, ltb-false→le _ _ large))
                (omega arith) (omega arith)
              ∙ ap (λ v. ok (v % 2 ^ bits, rest)) (omega (arith, ltb-false→le _ _ large)))
    ]
  where
    fits : ltb value (2 ^ prefix_bits - 1) ≡ true → value < 2 ^ bits
    fits small = omega (arith, ltb→lt value (2 ^ prefix_bits - 1) small)

pow_prefix : (p : ℕ) → p ≤ 8 → 2 ^ p ≤ 2 ^ 8
pow_prefix p h = pow-le-pow_right (omega arith) h

-- With a 64-bit `usize`, `read_integer` reads back every value below 2 ^ 42 that `write_integer`
-- wrote, and leaves what follows it: the prefix and the flags must not share bits.
pub read_integer-write_integer :
    (value prefix_bits flags : ℕ) (rest : List ℕ)
    → IsPrefix prefix_bits flags
    → prefix_bits ≤ 8
    → value < 2 ^ 42
    → read_integer 64 (write_integer value prefix_bits flags ++ rest) prefix_bits ≡ ok (value, rest)
read_integer-write_integer value prefix_bits flags rest hp h8 hv =
    read_integer_mod 5 64 value prefix_bits flags rest hp (one-le-pow prefix_bits 2 (omega arith))
      (omega arith) (omega arith) (omega (arith, pow_prefix prefix_bits h8)) (omega arith)
    ∙ ap (λ v. ok (v, rest)) (omega arith)

-- With a 32-bit `usize`, which `wasm32` has, the guard of 42 bits does not stop an overflow: the
-- encoding of every value from 2 ^ 32 up to 2 ^ 35 is accepted, and read as another, smaller value.
pub read_integer_wraps :
    (value prefix_bits flags : ℕ) (rest : List ℕ)
    → IsPrefix prefix_bits flags
    → prefix_bits ≤ 8
    → 2 ^ 32 ≤ value
    → value < 2 ^ 35
    → (read_integer 32 (write_integer value prefix_bits flags ++ rest) prefix_bits
        ≡ ok (value % 2 ^ 32, rest))
      × (value % 2 ^ 32 < value)
read_integer_wraps value prefix_bits flags rest hp h8 lo hi = (
  read_integer_mod 4 32 value prefix_bits flags rest hp (one-le-pow prefix_bits 2 (omega arith))
      (omega arith) (omega arith) (omega (arith, pow_prefix prefix_bits h8)) (omega arith),
  omega arith,
)
