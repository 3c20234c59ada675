-- ===== src/Connection/SendHeaders.antt =====
-- rust/crates/h2ts-client/src/connection.rs: `send_headers`, a header block as frames.
use h2ts.Common.{
  ℕ, zero, suc, ◌≤◌, ◌<◌, ◌≡◌, refl, ap, sym, Bool, true, false, leb, Bool-cases, inl, inr, List,
  [], ◌∷◌, ◌++◌, none, arith, length, take, drop, if◌then◌else◌, take-append-drop, length-take,
  length-drop,
}
use h2ts.Errors.{Outcome, ok, panic, map_ok}
use h2ts.Frames.Types.{Frame}

-- The loop, on the part of the block from `offset`. With a frame size of 0 it would not end.
unfoldable pub continuations : ℕ → ℕ → ℕ → List ℕ → Outcome (List Frame)
continuations fuel max id [] = ok []
continuations zero max id (b ∷ r) = panic
continuations (suc fuel) max id (b ∷ r) =
    let rest = continuations fuel max id (drop max (b ∷ r)) in
    map_ok (◌∷◌ (Frame.continuation id (take max (b ∷ r)) (leb (length (b ∷ r)) max))) rest

-- The frames that are sent, in order, where `max` is the peer's frame size.
unfoldable pub send_headers : ℕ → ℕ → List ℕ → Bool → Outcome (List Frame)
unfolding continuations
send_headers max id block end_stream =
    if leb (length block) max
    then ok (Frame.headers id block end_stream true none ∷ [])
    else map_ok (◌∷◌ (Frame.headers id (take max block) end_stream false none))
        (continuations (length block) max id (drop max block))

-- RFC 9113, 4.3: the frames that carry the rest of a field block, of which the last, and no other,
-- has END_HEADERS.
pub data Continues (max id : ℕ) : List ℕ → List Frame → Type 0 where
  last :
      {block : List ℕ}
      → length block ≤ max
      → Continues max id block (Frame.continuation id block true ∷ [])
  more :
      {block fragment rest : List ℕ} {fs : List Frame}
      → length fragment ≤ max
      → block ≡ fragment ++ rest
      → Continues max id rest fs
      → Continues max id block (Frame.continuation id fragment false ∷ fs)

-- A field block: a HEADERS frame, which carries END_STREAM, and what continues it.
pub data Carries (max id : ℕ) (end_stream : Bool) : List ℕ → List Frame → Type 0 where
  whole :
      {block : List ℕ}
      → length block ≤ max
      → Carries max id end_stream block (Frame.headers id block end_stream true none ∷ [])
  split :
      {block fragment rest : List ℕ} {fs : List Frame}
      → length fragment ≤ max
      → block ≡ fragment ++ rest
      → Continues max id rest fs
      → Carries max id end_stream block (Frame.headers id fragment end_stream false none ∷ fs)

leb→le : (a b : ℕ) → leb a b ≡ true → a ≤ b
leb→le a b h = ground arith

leb-false→lt : (a b : ℕ) → leb a b ≡ false → b < a
leb-false→lt a b h = ground arith

take_all : (n : ℕ) (xs : List ℕ) → length xs ≤ n → take n xs ≡ xs
take_all zero [] h = refl
take_all (suc n) [] h = refl
take_all zero (x ∷ xs) h = absurd (omega (arith, h))
take_all (suc n) (x ∷ xs) h = ap (x ∷◌) (take_all n xs (omega (arith, h)))

drop_all : (n : ℕ) (xs : List ℕ) → length xs ≤ n → drop n xs ≡ []
drop_all zero [] h = refl
drop_all (suc n) [] h = refl
drop_all zero (x ∷ xs) h = absurd (omega (arith, h))
drop_all (suc n) (x ∷ xs) h = drop_all n xs (omega (arith, h))

take_short : (n : ℕ) (xs : List ℕ) → length (take n xs) ≤ n
take_short n xs = omega (arith, length-take n xs)

-- A frame of a block that is longer than the frame size leaves fewer bytes, and at least one.
abbrev Continued : ℕ → ℕ → ℕ → List ℕ → Type 0
Continued max id fuel block =
    (fs : List Frame) × (continuations fuel max id block ≡ ok fs) × Continues max id block fs

continuations_step :
    (max id fuel : ℕ) (block : List ℕ)
    → 1 ≤ length block
    → ((max < length block) → Continued max id fuel (drop max block))
    → Continued max id (suc fuel) block
unfolding continuations
continuations_step max id fuel [] h rec = absurd (omega (arith, h))
continuations_step max id fuel (b ∷ r) h rec = elim (Bool-cases (leb (length (b ∷ r)) max)) [
  | inl fits ↦
      let l = leb→le (length (b ∷ r)) max fits in
      (
        Frame.continuation id (b ∷ r) true ∷ [],
        rw (fits, take_all max (b ∷ r) l, drop_all max (b ∷ r) l),
        Continues.last l,
      )
  | inr large ↦
      let (fs, e, c) = rec (leb-false→lt (length (b ∷ r)) max large) in
      (
        Frame.continuation id (take max (b ∷ r)) false ∷ fs,
        rw (large, e),
        Continues.more (take_short max (b ∷ r)) (sym (take-append-drop max (b ∷ r))) c,
      )
]

continuations-Continues :
    (max id fuel : ℕ) (block : List ℕ)
    → 1 ≤ max
    → 1 ≤ length block
    → length block ≤ fuel
    → Continued max id fuel block
continuations-Continues max id zero block hm h hf = absurd (omega (arith, h, hf))
continuations-Continues max id (suc fuel) block hm h hf =
    continuations_step max id fuel block h λ large.
      continuations-Continues max id fuel (drop max block) hm
        (omega (arith, length-drop max block, large))
        (omega (arith, length-drop max block, large, hf))

-- With a frame size that is not 0, `send_headers` ends, and the frames that it sends carry the
-- block: END_STREAM on the HEADERS frame, no fragment above the peer's frame size, END_HEADERS on
-- the last frame and no other, and the fragments one after the other are the block.
pub send_headers-Carries :
    (max id : ℕ) (block : List ℕ) (end_stream : Bool)
    → 1 ≤ max
    → (fs : List Frame) × (send_headers max id block end_stream ≡ ok fs)
      × Carries max id end_stream block fs
unfolding send_headers
send_headers-Carries max id block end_stream hm = elim (Bool-cases (leb (length block) max)) [
  | inl fits ↦ (
    Frame.headers id block end_stream true none ∷ [],
    rw fits,
    Carries.whole (leb→le (length block) max fits),
  )
  | inr large ↦
      let l = leb-false→lt (length block) max large in
      let (fs, e, c) =
        continuations-Continues max id (length block) (drop max block) hm
          (omega (arith, length-drop max block, l)) (omega (arith, length-drop max block)) in
      (
        Frame.headers id (take max block) end_stream false none ∷ fs,
        rw (large, e),
        Carries.split (take_short max block) (sym (take-append-drop max block)) c,
      )
]
