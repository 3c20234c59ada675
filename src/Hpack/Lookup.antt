-- ===== src/Hpack/Lookup.antt =====
-- rust/crates/h2ts-client/src/hpack/mod.rs: `static_maps` against the table that it indexes.
use h2ts.Common.{
  ℕ, suc, ◌+◌, ◌-◌, ◌≤◌, ◌<◌, ◌≡◌, refl, ap, sym, Bool, true, false, not, ◌&&◌, ◌==◌, Bool-cases,
  inl, inr, List, [], ◌∷◌, ◌++◌, some, arith, length, bytes_eq, bytes_eq→eq, get_elem?,
}
use h2ts.Hpack.StaticTable.{static_table}
use h2ts.Hpack.Decoder.{Entry}
use h2ts.Hpack.Encoder.{pair_key, pair_to_index, name_to_index}

-- No NUL in a text, and in a table.
abbrev no_nul : List ℕ → Bool
no_nul [] = true
no_nul (c ∷ r) = not (c == 0) && no_nul r

abbrev no_nuls : List Entry → Bool
no_nuls [] = true
no_nuls ((n, v) ∷ r) = no_nul n && (no_nul v && no_nuls r)

no_nul-append : (xs ys : List ℕ) → no_nul (xs ++ 0 ∷ ys) ≡ false
no_nul-append [] ys = refl
no_nul-append (x ∷ xs) ys = rw (no_nul-append xs ys) (ground arith)

-- The key determines the pair, if the table's side holds no NUL.
pair_key_inj :
    (n name v value : List ℕ)
    → no_nul n ≡ true
    → no_nul v ≡ true
    → pair_key n v ≡ pair_key name value
    → (n ≡ name) × (v ≡ value)
pair_key_inj [] [] v value hn hv e = (refl, ground arith)
pair_key_inj [] (c ∷ name) v value hn hv e =
    let tail : v ≡ name ++ 0 ∷ value = ground arith in
    ground (arith, tail, ap no_nul tail, no_nul-append name value)
pair_key_inj (c ∷ n) [] v value hn hv e = ground arith
pair_key_inj (c ∷ n) (d ∷ name) v value hn hv e =
    let (en, ev) = pair_key_inj n name v value (ground arith) hv (ground arith) in
    (ground (arith, en), ev)

-- What a search that counts from `i` has found in `es`.
pub record FoundAt (es : List Entry) (i k : ℕ) (name value : List ℕ) : Type 0 where
  pub from : i ≤ k
  pub below : k < i + length es
  pub entry : get_elem? es (k - i) ≡ some (name, value)

sub_self : (i : ℕ) → i - i ≡ 0
sub_self i = omega arith

FoundAt-here :
    (i : ℕ) (name value : List ℕ) (es : List Entry) → FoundAt ((name, value) ∷ es) i i name value
FoundAt-here i name value es = record {
  from = omega arith;
  below = omega arith;
  entry = rw (sub_self i);
}

sub_suc : (i k : ℕ) → i + 1 ≤ k → k - i ≡ suc (k - (i + 1))
sub_suc i k h = omega arith

FoundAt-suc :
    (e : Entry) (es : List Entry) (i k : ℕ) (name value : List ℕ)
    → FoundAt es (i + 1) k name value
    → FoundAt (e ∷ es) i k name value
FoundAt-suc e es i k name value f = record {
  from = omega (arith, f.from);
  below = omega (arith, f.below);
  entry = rw (sub_suc i k f.from) f.entry;
}

pair_to_index-FoundAt :
    (es : List Entry) (i k : ℕ) (name value : List ℕ)
    → no_nuls es ≡ true
    → pair_to_index i es (pair_key name value) ≡ some k
    → FoundAt es i k name value
unfolding pair_to_index
pair_to_index-FoundAt [] i k name value h e = ground arith
pair_to_index-FoundAt ((n, v) ∷ es) i k name value h e =
    elim (Bool-cases (bytes_eq (pair_key n v) (pair_key name value))) [
      | inl hit ↦
          let (en, ev) =
            pair_key_inj n name v value (ground arith) (ground arith) (bytes_eq→eq _ _ hit) in
          let ek : i ≡ k = ground (arith, e, hit) in
          rw (sym ek, sym en, sym ev) (FoundAt-here i n v es)
      | inr miss ↦
          FoundAt-suc (n, v) es i k name value
            (pair_to_index-FoundAt es (i + 1) k name value (ground arith) (ground (arith, e, miss)))
    ]

name_to_index-FoundAt :
    (es : List Entry) (i k : ℕ) (name : List ℕ)
    → name_to_index i es name ≡ some k
    → (value : List ℕ) × FoundAt es i k name value
unfolding name_to_index
name_to_index-FoundAt [] i k name e = ground arith
name_to_index-FoundAt ((n, v) ∷ es) i k name e = elim (Bool-cases (bytes_eq n name)) [
  | inl hit ↦
      let ek : i ≡ k = ground (arith, e, hit) in
      (v, rw (sym ek, sym (bytes_eq→eq n name hit)) (FoundAt-here i n v es))
  | inr miss ↦
      let (value, f) = name_to_index-FoundAt es (i + 1) k name (ground (arith, e, miss)) in
      (value, FoundAt-suc (n, v) es i k name value f)
]

static_table-no_nuls : no_nuls static_table ≡ true
unfolding static_table
static_table-no_nuls = refl

static_table-length : length static_table ≡ 61
unfolding static_table
static_table-length = refl

-- What the two maps of the encoder give is the wire index of an entry with that name, and for
-- `pair_to_index` that value.
pub pair_to_index-static :
    (k : ℕ) (name value : List ℕ)
    → pair_to_index 1 static_table (pair_key name value) ≡ some k
    → (1 ≤ k) × (k ≤ 61) × (get_elem? static_table (k - 1) ≡ some (name, value))
pair_to_index-static k name value e =
    let f = pair_to_index-FoundAt static_table 1 k name value static_table-no_nuls e in
    (f.from, omega (arith, f.below, static_table-length), f.entry)

pub name_to_index-static :
    (k : ℕ) (name : List ℕ)
    → name_to_index 1 static_table name ≡ some k
    → (value : List ℕ) × (1 ≤ k) × (k ≤ 61) × (get_elem? static_table (k - 1) ≡ some (name, value))
name_to_index-static k name e =
    let (value, f) = name_to_index-FoundAt static_table 1 k name e in
    (value, f.from, omega (arith, f.below, static_table-length), f.entry)
