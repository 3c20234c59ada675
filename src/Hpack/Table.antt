-- ===== src/Hpack/Table.antt =====
-- rust/crates/h2ts-client/src/hpack/mod.rs: the dynamic table. Its size is the sum of its entries'
-- sizes and stays within the limit; eviction drops the oldest entries, and only as many as it must.
use h2ts.Common.{
  ℕ, ◌⊎◌, inl, inr, Bool-cases, ltb→lt, ltb-false→le, take_self, zero, suc, ◌+◌, ◌-◌, ◌≤◌, ◌<◌, ◌≡◌,
  refl, ap, ◌∙◌, sym, subst, true, List, [], ◌∷◌, arith, length, take, ltb,
}
use h2ts.Errors.{ok}
use h2ts.Hpack.Decoder.{
  Entry, HpackDecoder, new, entry_size, drop_last, last_entry, evict, insert, apply_max_size,
}

-- The size that RFC 7541 gives a table.
abbrev pub total : List Entry → ℕ
total [] = 0
total (e ∷ r) = entry_size e + total r

pub record IsTable (d : HpackDecoder) : Type 0 where
  pub counted : d.size ≡ total d.dynamic
  pub within : d.size ≤ d.max_size
  pub agreed : d.max_size ≤ d.protocol_max

total-drop_last :
    (e : Entry) (r : List Entry)
    → total (drop_last (e ∷ r)) + entry_size (last_entry e r) ≡ total (e ∷ r)
total-drop_last e [] = omega arith
total-drop_last e (f ∷ r) = omega (arith, total-drop_last f r)

length-drop_last : (e : Entry) (r : List Entry) → length (drop_last (e ∷ r)) ≡ length r
length-drop_last e [] = refl
length-drop_last e (f ∷ r) = ap suc (length-drop_last f r)

take-drop_last :
    (n : ℕ) (e : Entry) (r : List Entry)
    → n ≤ length r
    → take n (drop_last (e ∷ r)) ≡ take n (e ∷ r)
take-drop_last zero e r h = refl
take-drop_last (suc n) e [] h = absurd (omega arith)
take-drop_last (suc n) e (f ∷ r) h = ap (◌∷◌ e) (take-drop_last n f r (omega arith))

-- What an eviction makes of the entries: those of the newest that are kept, counted, and room for
-- the new entry unless nothing is left; and one entry more would have been too much.
pub record Evicted (room max_size : ℕ) (old : List Entry) (new : List Entry × ℕ) : Type 0 where
  pub kept : ℕ
  pub newest : new.0 ≡ take kept old
  pub at_most : kept ≤ length old
  pub counted : new.1 ≡ total new.0
  pub fits : (new.1 + room ≤ max_size) ⊎ (new.0 ≡ [])
  pub needed : (kept ≡ length old) ⊎ (max_size < total (take (suc kept) old) + room)

-- Taking one more from a list than it has without its last entry.
Evicted-more :
    (room max_size : ℕ) (x : Entry) (r : List Entry) (new : List Entry × ℕ)
    → max_size < total (x ∷ r) + room
    → Evicted room max_size (drop_last (x ∷ r)) new
    → Evicted room max_size (x ∷ r) new
Evicted-more room max_size x r new over v =
    let few : v.kept ≤ length r = omega (arith, length-drop_last x r, v.at_most) in
    record {
      kept = v.kept;
      newest = v.newest ∙ take-drop_last v.kept x r few;
      at_most = omega arith;
      counted = v.counted;
      fits = v.fits;
      needed = inr (elim (Bool-cases (ltb v.kept (length r))) [
        | inl less ↦ one_more less v.needed
        | inr all ↦ whole (ltb-false→le v.kept (length r) all) few
      ]);
    }
  where
    one_more :
        ltb v.kept (length r) ≡ true
        → (v.kept ≡ length (drop_last (x ∷ r)))
          ⊎ (max_size < total (take (suc v.kept) (drop_last (x ∷ r))) + room)
        → max_size < total (take (suc v.kept) (x ∷ r)) + room
    one_more less (inl e) =
        absurd (omega (arith, ltb→lt v.kept (length r) less, length-drop_last x r, e))
    one_more less (inr o) =
        subst (λ t. max_size < total t + room)
          (take-drop_last (suc v.kept) x r (ltb→lt v.kept (length r) less)) o

    whole :
        length r ≤ v.kept → v.kept ≤ length r → max_size < total (take (suc v.kept) (x ∷ r)) + room
    whole a b =
        let e : v.kept ≡ length r = omega arith in
        subst (λ k. max_size < total (take (suc k) (x ∷ r)) + room) (sym e)
          (subst (λ t. max_size < total t + room) (sym (take_self (x ∷ r))) over)

evict-Evicted :
    (fuel room max_size size : ℕ) (es : List Entry)
    → length es ≤ fuel
    → size ≡ total es
    → Evicted room max_size es (evict fuel room max_size size es)
unfolding evict
evict-Evicted fuel room max_size size [] h e = record {
  kept = 0;
  newest = refl;
  at_most = omega arith;
  counted = e;
  fits = inr refl;
  needed = inl refl;
}
evict-Evicted zero room max_size size (x ∷ r) h e = absurd (omega arith)
evict-Evicted (suc fuel) room max_size size (x ∷ r) h e =
    elim (Bool-cases (ltb max_size (size + room))) [
      | inl over ↦
          rw (over, evict)
            (Evicted-more room max_size x r _ (omega (arith, e, ltb→lt max_size (size + room) over))
              (evict-Evicted fuel room max_size (size - entry_size (last_entry x r))
                (drop_last (x ∷ r)) (omega (arith, length-drop_last x r))
                (omega (arith, total-drop_last x r))))
      | inr fits ↦
          rw (fits, evict)
            (record {
              kept = length (x ∷ r);
              newest = sym (take_self (x ∷ r));
              at_most = omega arith;
              counted = e;
              fits = inl (ltb-false→le max_size (size + room) fits);
              needed = inl refl;
            })
    ]

Evicted-room :
    (room max_size : ℕ) (old : List Entry) (new : List Entry × ℕ)
    → Evicted room max_size old new
    → room ≤ max_size
    → new.1 + room ≤ max_size
Evicted-room room max_size old new v h = elim v.fits [
  | inl f ↦ f
  | inr e ↦ omega (arith, v.counted, ap total e)
]

insert_evicts :
    (d : HpackDecoder) (name value : List ℕ)
    → IsTable d
    → Evicted
        (entry_size (name, value))
        d.max_size
        d.dynamic
        (evict (length d.dynamic) (entry_size (name, value)) d.max_size d.size d.dynamic)
insert_evicts d name value v =
    evict-Evicted (length d.dynamic) (entry_size (name, value)) d.max_size d.size d.dynamic
      (omega arith) v.counted

-- `insert` keeps the size equal to the sum of the entries' sizes and within the limit, so that no
-- subtraction of `size` wraps; an entry that is larger than the whole table empties it.
pub insert-IsTable :
    (d : HpackDecoder) (name value : List ℕ) → IsTable d → IsTable (insert d name value)
unfolding insert
insert-IsTable d name value v =
    let w = insert_evicts d name value v in
    let room = entry_size (name, value) in
    ground (arith, w.counted, v.agreed, Evicted-room room d.max_size d.dynamic _ w)

-- A size update that `apply_max_size` accepts leaves a table that is counted and within its limits.
pub apply_max_size-IsTable :
    (d d' : HpackDecoder) (n : ℕ) → IsTable d → apply_max_size d n ≡ ok d' → IsTable d'
unfolding apply_max_size
apply_max_size-IsTable d d' n v e =
    let w = evict-Evicted (length d.dynamic) 0 n d.size d.dynamic (omega arith) v.counted in
    ground (arith, w.counted, Evicted-room 0 n d.dynamic _ w (omega arith), e)

-- What `insert` leaves in the table: the new entry in front of the newest old ones, and one old
-- entry more would not have fitted.
pub insert_keeps :
    (d : HpackDecoder) (name value : List ℕ)
    → IsTable d
    → entry_size (name, value) ≤ d.max_size
    → (k : ℕ) × ((insert d name value).dynamic ≡ (name, value) ∷ take k d.dynamic)
      × ((k ≡ length d.dynamic)
          ⊎ (d.max_size < total (take (suc k) d.dynamic) + entry_size (name, value)))
unfolding insert
insert_keeps d name value v h =
    let w = insert_evicts d name value v in (w.kept, ground (arith, w.newest), w.needed)
