-- ===== src/Bytes.antt =====
-- rust/crates/h2ts-client/src/bytes.rs: big-endian writer and cursor reader. A byte is a number
-- below 256. A `ByteWriter` is what has been written; a `ByteReader` is `buf[cursor..]`, the bytes
-- that remain.
use h2ts.Common.{
  ℕ, ◌+◌, ◌*◌, ◌/◌, ◌%◌, ◌^◌, ◌<◌, List, [], ◌∷◌, Option, none, some, ltb, if◌then◌else◌, length,
  take, drop,
}
use h2ts.Errors.{Outcome, ok, panic}

abbrev pub IsByte : ℕ → Type 0
IsByte b = b < 2 ^ 8

-- What `w.u16(v)`, `w.u24(v)` and `w.u32(v)` append.
abbrev pub u16_bytes : ℕ → List ℕ
u16_bytes v = (v / 2 ^ 8 % 2 ^ 8) ∷ (v % 2 ^ 8) ∷ []

abbrev pub u24_bytes : ℕ → List ℕ
u24_bytes v = (v / 2 ^ 16 % 2 ^ 8) ∷ (v / 2 ^ 8 % 2 ^ 8) ∷ (v % 2 ^ 8) ∷ []

abbrev pub u32_bytes : ℕ → List ℕ
u32_bytes v = (v / 2 ^ 24 % 2 ^ 8) ∷ (v / 2 ^ 16 % 2 ^ 8) ∷ (v / 2 ^ 8 % 2 ^ 8) ∷ (v % 2 ^ 8) ∷ []

abbrev pub from_u16 : ℕ → ℕ → ℕ
from_u16 a b = a * 2 ^ 8 + b

abbrev pub from_u24 : ℕ → ℕ → ℕ → ℕ
from_u24 a b c = a * 2 ^ 16 + b * 2 ^ 8 + c

abbrev pub from_u32 : ℕ → ℕ → ℕ → ℕ → ℕ
from_u32 a b c d = a * 2 ^ 24 + b * 2 ^ 16 + c * 2 ^ 8 + d

abbrev pub remaining : List ℕ → ℕ
remaining r = length r

-- The fixed-width reads panic when too few bytes remain.
abbrev pub read_u8 : List ℕ → Outcome (ℕ × List ℕ)
read_u8 (a ∷ r) = ok (a, r)
read_u8 _ = panic

abbrev pub read_u16 : List ℕ → Outcome (ℕ × List ℕ)
read_u16 (a ∷ b ∷ r) = ok (from_u16 a b, r)
read_u16 _ = panic

abbrev pub read_u32 : List ℕ → Outcome (ℕ × List ℕ)
read_u32 (a ∷ b ∷ c ∷ d ∷ r) = ok (from_u32 a b c d, r)
read_u32 _ = panic

abbrev pub peek : List ℕ → Outcome ℕ
peek (a ∷ r) = ok a
peek _ = panic

-- `bytes(n)`: the next `n` bytes and the reader behind them, or `none` if fewer remain.
abbrev pub read_bytes : List ℕ → ℕ → Option (List ℕ × List ℕ)
read_bytes r n = if ltb (remaining r) n then none else some (take n r, drop n r)
