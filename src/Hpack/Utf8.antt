-- ===== src/Hpack/Utf8.antt =====
-- rust/crates/h2ts-client/src/bytes.rs: `decode_utf8`, which is the standard library's
-- `String::from_utf8_lossy`. A string is the list of its bytes in UTF-8; each longest part of a
-- sequence that cannot be completed becomes U+FFFD.
use h2ts.Common.{
  ℕ, zero, suc, ◌-◌, ◌<◌, ◌≡◌, refl, ap, ap₂, ◌∙◌, Bool, ◌&&◌, if◌then◌else◌, leb, ltb, ◌==◌, List,
  [], ◌∷◌, ◌++◌, take, All, arith,
}

abbrev replacement : List ℕ
replacement = 0xef ∷ 0xbf ∷ 0xbd ∷ []

abbrev within : ℕ → ℕ → ℕ → Bool
within lo hi b = leb lo b && leb b hi

-- How many bytes the sequence of a leading byte has; 0 if no sequence begins with it.
abbrev width : ℕ → ℕ
width b =
    if ltb b 0x80
    then 1
    else if within 0xc2 0xdf b
    then 2
    else if within 0xe0 0xef b
    then 3
    else if within 0xf0 0xf4 b
    then 4
    else 0

-- Which second bytes may follow a leading byte.
abbrev second : ℕ → ℕ → Bool
second first b =
    if first == 0xe0
    then within 0xa0 0xbf b
    else if first == 0xed
    then within 0x80 0x9f b
    else if first == 0xf0
    then within 0x90 0xbf b
    else if first == 0xf4
    then within 0x80 0x8f b
    else within 0x80 0xbf b

-- The bytes behind the second one that continue the sequence, `k` at most.
abbrev continued : ℕ → List ℕ → ℕ
continued zero r = 0
continued (suc k) [] = 0
continued (suc k) (b ∷ r) = let more = continued k r in if within 0x80 0xbf b then suc more else 0

-- How many bytes of a sequence are there, of the number that it wants.
abbrev found : ℕ → ℕ → List ℕ → ℕ
found first k [] = 1
found first zero (b ∷ r) = 1
found first (suc k) (b ∷ r) = if second first b then suc (suc (continued k r)) else 1

-- What stands for the sequence at the head, and how many bytes behind the first belong to it.
unfoldable pub sequence : ℕ → List ℕ → List ℕ × ℕ
sequence b r =
    let n = found b (width b - 1) r in
    if width b == 0
    then (replacement, 0)
    else if n == width b
    then (b ∷ take (n - 1) r, n - 1)
    else (replacement, n - 1)

-- `skip` bytes belong to a sequence that has been dealt with.
unfoldable pub lossy_from : ℕ → List ℕ → List ℕ
unfolding sequence
lossy_from skip [] = []
lossy_from (suc skip) (b ∷ r) = lossy_from skip r
lossy_from zero (b ∷ r) = let (out, n) = sequence b r in out ++ lossy_from n r

unfoldable pub decode_utf8 : List ℕ → List ℕ
unfolding lossy_from
decode_utf8 = lossy_from 0

-- A text in UTF-8 is one that the decoder leaves alone.
abbrev pub IsUtf8 : List ℕ → Type 0
IsUtf8 s = decode_utf8 s ≡ s

ascii_sequence : (b : ℕ) (r : List ℕ) → b < 0x80 → sequence b r ≡ (b ∷ [], 0)
unfolding sequence
ascii_sequence b [] h = ground arith
ascii_sequence b (c ∷ r) h = ground arith

-- Every text in ASCII is in UTF-8.
pub ascii-IsUtf8 : (s : List ℕ) → All (λ b. b < 0x80) s → IsUtf8 s
unfolding decode_utf8
ascii-IsUtf8 [] h = refl
ascii-IsUtf8 (b ∷ r) (hb, hr) =
    ap₂ (λ o t. o ++ t) (ap (λ p. p.0) (ascii_sequence b r hb))
      (ap (λ p. lossy_from p.1 r) (ascii_sequence b r hb) ∙ ascii-IsUtf8 r hr)
