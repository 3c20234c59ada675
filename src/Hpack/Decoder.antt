-- ===== src/Hpack/Decoder.antt =====
-- rust/crates/h2ts-client/src/hpack/mod.rs: `HpackDecoder` and its dynamic table.
use h2ts.Common.{
  ℕ, zero, suc, ◌+◌, ◌-◌, Bool, false, ◌&&◌, if◌then◌else◌, ltb, leb, ◌==◌, has_bits, List, [], ◌∷◌,
  Option, none, some, length, get_elem?,
}
use h2ts.Errors
use h2ts.Errors.{ErrorCode, H2Error, Outcome, ok, err, panic, text, ok_or, reject, ◌>>=◌, ◌>>◌}
use h2ts.Bytes.{peek}
use h2ts.Hpack.Integer.{compression, read_integer}
use h2ts.Hpack.Strings.{read_string}
use h2ts.Hpack.StaticTable.{static_table, static_table_length}

abbrev pub entry_overhead : ℕ
entry_overhead = 32

abbrev pub default_table_size : ℕ
default_table_size = 4096

abbrev pub Entry : Type 0
Entry = List ℕ × List ℕ

pub record Header : Type 0 where
  pub name : List ℕ
  pub value : List ℕ
  pub never_index : Bool

-- The newest entry stands first.
pub record HpackDecoder : Type 0 where
  pub dynamic : List Entry
  pub size : ℕ
  pub max_size : ℕ
  pub protocol_max : ℕ

abbrev pub new : ℕ → HpackDecoder
new max_size = record { dynamic = []; size = 0; max_size = max_size; protocol_max = max_size }

abbrev pub entry_size : Entry → ℕ
entry_size (name, value) = length name + length value + entry_overhead

-- `Vec::pop` on a list that has an entry: all but the last.
abbrev pub drop_last : List Entry → List Entry
drop_last [] = []
drop_last (e ∷ []) = []
drop_last (e ∷ f ∷ r) = e ∷ drop_last (f ∷ r)

abbrev pub last_entry : Entry → List Entry → Entry
last_entry e [] = e
last_entry e (f ∷ r) = last_entry f r

-- The eviction loops: `self.size + room > self.max_size`, and `room` is 0 in `apply_max_size`. A
-- round drops an entry, so as many rounds as entries are enough.
unfoldable pub evict : ℕ → ℕ → ℕ → ℕ → List Entry → List Entry × ℕ
evict fuel room max_size size [] = ([], size)
evict zero room max_size size (e ∷ r) = (e ∷ r, size)
evict (suc fuel) room max_size size (e ∷ r) =
    let rest = evict fuel room max_size (size - entry_size (last_entry e r)) (drop_last (e ∷ r)) in
    if ltb max_size (size + room) then rest else (e ∷ r, size)

unfoldable pub insert : HpackDecoder → List ℕ → List ℕ → HpackDecoder
insert d name value =
    let room = entry_size (name, value) in
    let (kept, size) = evict (length d.dynamic) room d.max_size d.size d.dynamic in
    if leb room d.max_size
    then record d { dynamic = (name, value) ∷ kept; size = size + room }
    else record d { dynamic = []; size = 0 }

unfoldable pub apply_max_size : HpackDecoder → ℕ → Outcome HpackDecoder
apply_max_size d new_size = do
  reject (ltb d.protocol_max new_size) (compression (text "dynamic table size update too large"))
  let (kept, size) = evict (length d.dynamic) 0 new_size d.size d.dynamic
  ok (record d { dynamic = kept; size = size; max_size = new_size })

-- `let _ = self.apply_max_size(n)`: an error would leave the table alone.
abbrev or_keep : HpackDecoder → Outcome HpackDecoder → HpackDecoder
or_keep d (ok d') = d'
or_keep d _ = d

unfoldable pub set_protocol_max_size : HpackDecoder → ℕ → HpackDecoder
unfolding apply_max_size
set_protocol_max_size d n =
    let d' = record d { protocol_max = n } in
    if ltb n d.max_size then or_keep d' (apply_max_size d' n) else d'

-- Called with an index other than 0, so that the subtraction does not wrap.
unfoldable pub entry_at : HpackDecoder → ℕ → Outcome Entry
entry_at d index =
    if leb 1 index && leb index static_table_length
    then ok_or (get_elem? static_table (index - 1)) (compression (Errors.invalid_index index))
    else ok_or (get_elem? d.dynamic (index - static_table_length - 1))
        (compression (Errors.invalid_index index))

abbrev pub indexed : Entry → Header
indexed (name, value) = record { name = name; value = value; never_index = false }

-- What an instruction of the block gives: a header, or none for a size update.
abbrev pub Step : Type 0
Step = Outcome (HpackDecoder × Option Header × List ℕ)

-- The name of a literal: by its index, or spelled out when that is 0.
unfoldable pub read_name : ℕ → HpackDecoder → ℕ → List ℕ → Outcome (List ℕ × List ℕ)
read_name bits d zero r = read_string bits r
read_name bits d (suc i) r = do (name, _) ← entry_at d (suc i); ok (name, r)

unfoldable pub decode_indexed : ℕ → HpackDecoder → List ℕ → Step
decode_indexed bits d r = do
  (index, r1) ← read_integer bits r 7
  reject (index == 0) (compression (text "indexed field with index 0"))
  e ← entry_at d index
  ok (d, some (indexed e), r1)

unfoldable pub decode_incremental : ℕ → HpackDecoder → List ℕ → Step
decode_incremental bits d r = do
  (name_index, r1) ← read_integer bits r 6
  (name, r2) ← read_name bits d name_index r1
  (value, r3) ← read_string bits r2
  ok (insert d name value, some (indexed (name, value)), r3)

unfoldable pub decode_size_update : ℕ → HpackDecoder → List ℕ → Step
decode_size_update bits d r = do
  (new_size, r1) ← read_integer bits r 5
  d' ← apply_max_size d new_size
  ok (d', none, r1)

unfoldable pub decode_literal : ℕ → HpackDecoder → List ℕ → Step
decode_literal bits d r = do
  (name_index, r1) ← read_integer bits r 4
  (name, r2) ← read_name bits d name_index r1
  (value, r3) ← read_string bits r2
  ok (d, some (indexed (name, value)), r3)

-- The instruction by its first byte.
unfoldable pub decode_kind : ℕ → ℕ → HpackDecoder → List ℕ → Step
decode_kind first bits d r =
    if has_bits first 0x80
    then decode_indexed bits d r
    else if has_bits first 0x40
    then decode_incremental bits d r
    else if has_bits first 0x20
    then decode_size_update bits d r
    else decode_literal bits d r

-- One round of the loop, on a block that is not empty.
unfoldable pub decode_one : ℕ → HpackDecoder → List ℕ → Step
unfolding decode_kind
decode_one bits d r = do first ← peek r; decode_kind first bits d r

abbrev pub push_some : Option Header → List Header → List Header
push_some none hs = hs
push_some (some h) hs = h ∷ hs

-- `while r.remaining() > 0`. Each round reads a byte, so as many rounds as bytes are enough.
unfoldable pub decode_loop : ℕ → ℕ → HpackDecoder → List ℕ → Outcome (List Header × HpackDecoder)
decode_loop fuel bits d [] = ok ([], d)
decode_loop zero bits d (b ∷ r) = panic
decode_loop (suc fuel) bits d (b ∷ r) = do
  (d1, h, rest) ← decode_one bits d (b ∷ r)
  (hs, d2) ← decode_loop fuel bits d1 rest
  ok (push_some h hs, d2)

-- A failed block ends the connection, so that the table behind an error is not modelled.
unfoldable pub decode : ℕ → HpackDecoder → List ℕ → Outcome (List Header × HpackDecoder)
decode bits d block = decode_loop (length block) bits d block
