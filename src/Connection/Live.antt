-- ===== src/Connection/Live.antt =====
-- rust/crates/h2ts-client/src/connection.rs: the map of streams against the cells that they share.
use h2ts.Common.{
  ℕ, ◌≡◌, sym, ap, ◌∙◌, ◌≢◌, Bool, true, false, not, ◌&&◌, ◌==◌, ==_iff, Bool-cases, inl, inr, List,
  some, none, arith, subst,
}
use h2ts.Common.Dict.{
  Dict, find, put, remove, update, Each, Distinct, Each-find, Each-put, Each-remove, Distinct-put,
  Distinct-remove, find-put, find-remove_ne,
}
use h2ts.Errors.{H2Error}
use h2ts.Connection.State.{StreamState, Cell, HeadSlot}
use h2ts.Connection.Streams.{fail, receive_headers}
use h2ts.Hpack.Decoder.{Header}

-- A stream holds the sender of its channel until the head has come.
abbrev pub IsHeaded : ℕ → StreamState → Type 0
IsHeaded id s = s.head_tx ≡ not s.got_head

-- A stream of which both directions have ended does not stay in the map.
abbrev pub IsOpen : ℕ → StreamState → Type 0
IsOpen id s = (s.local_closed && s.remote_closed) ≡ false

-- The keys are distinct, and a request that still waits for its head has its stream in the map,
-- with the sender that will answer it.
pub record IsLive (d : Dict StreamState) (cells : ℕ → Cell) : Type 0 where
  pub distinct : Distinct d
  pub headed : Each IsHeaded d
  pub waits :
      (id : ℕ)
      → (cells id).head ≡ HeadSlot.waiting
      → (s : StreamState) × (find id d ≡ some s) × (s.head_tx ≡ true)

eq_flip : (a b : ℕ) → (a == b) ≡ (b == a)
eq_flip a b = ground arith

ne_flip : (a b : ℕ) → (a == b) ≡ false → b ≢ a
ne_flip a b h e = ground (arith, h, e)

-- A stream's entry and its cell are written.
pub put-IsLive :
    (d : Dict StreamState) (cells : ℕ → Cell) (id : ℕ) (s : StreamState) (c : Cell)
    → IsLive d cells
    → IsHeaded id s
    → (c.head ≡ HeadSlot.waiting → s.head_tx ≡ true)
    → IsLive (put id s d) (update cells id c)
put-IsLive d cells id s c l hs hc = record {
  distinct = Distinct-put id s d l.distinct;
  headed = Each-put IsHeaded id s d hs l.headed;
  waits = λ j w. elim (Bool-cases (j == id)) [
    | inl same ↦ (s, find-put j id s d ∙ rw (eq_flip id j ∙ same), hc (rw same at w))
    | inr other ↦
        let (s', e, t) = l.waits j (rw other at w) in
        (s', find-put j id s d ∙ rw (eq_flip id j ∙ other) e, t)
  ];
}

-- A stream is taken out, and its cell does not wait any more.
pub remove-IsLive :
    (d : Dict StreamState) (cells : ℕ → Cell) (id : ℕ) (c : Cell)
    → IsLive d cells
    → c.head ≢ HeadSlot.waiting
    → IsLive (remove id d) (update cells id c)
remove-IsLive d cells id c l hc = record {
  distinct = Distinct-remove id d l.distinct;
  headed = Each-remove IsHeaded id d l.headed;
  waits = λ j w. elim (Bool-cases (j == id)) [
    | inl same ↦ absurd (hc (rw same at w))
    | inr other ↦
        let (s', e, t) = l.waits j (rw other at w) in
        (s', find-remove_ne j id d (λ q. ne_flip j id other q) ∙ e, t)
  ];
}

HeadSlot-ne : (e : H2Error) → HeadSlot.failed e ≢ HeadSlot.waiting
HeadSlot-ne e h = cc

-- A stream that is failed has no sender any more, and its cell does not wait: it was answered
-- before, or it is answered with the error.
pub fail_answers :
    (s : StreamState) (c : Cell) (e : H2Error) (id : ℕ)
    → IsHeaded id s
    → (c.head ≡ HeadSlot.waiting → s.head_tx ≡ true)
    → (fail s c e).1.head ≢ HeadSlot.waiting
unfolding fail
fail_answers s c e id h hc w = ground (arith, h, hc, w, HeadSlot-ne e)

-- The condition of a stream that was found.
pub found_waits :
    (d : Dict StreamState) (cells : ℕ → Cell) (id : ℕ) (s : StreamState)
    → IsLive d cells
    → find id d ≡ some s
    → (cells id).head ≡ HeadSlot.waiting
    → s.head_tx ≡ true
found_waits d cells id s l e w =
    let (s', e', t) = l.waits id w in
    let same : s' ≡ s = ground (arith, e, e') in ap (λ (x : StreamState). x.head_tx) (sym same) ∙ t

pub found-IsHeaded :
    (d : Dict StreamState) (cells : ℕ → Cell) (id : ℕ) (s : StreamState)
    → IsLive d cells
    → find id d ≡ some s
    → IsHeaded id s
found-IsHeaded d cells id s l e = Each-find IsHeaded id s d l.headed e

-- `receive_headers` keeps both: the sender goes with the first head, and then the cell is answered.
pub receive_headers-IsHeaded :
    (s : StreamState) (c : Cell) (raw : List Header) (end_stream : Bool) (id : ℕ)
    → IsHeaded id s
    → IsHeaded id (receive_headers s c raw end_stream).0
unfolding receive_headers
receive_headers-IsHeaded s c raw end_stream id h = ground (arith, h)

pub receive_headers-waits :
    (s : StreamState) (c : Cell) (raw : List Header) (end_stream : Bool) (id : ℕ)
    → IsHeaded id s
    → (c.head ≡ HeadSlot.waiting → s.head_tx ≡ true)
    → (receive_headers s c raw end_stream).1.head ≡ HeadSlot.waiting
    → (receive_headers s c raw end_stream).0.head_tx ≡ true
unfolding receive_headers
receive_headers-waits s c raw end_stream id h hc w = ground (arith, h, hc, w)

-- A stream that was found is written, with the same sender, and no cell.
pub replace-IsLive :
    (d : Dict StreamState) (cells : ℕ → Cell) (id : ℕ) (s s' : StreamState)
    → IsLive d cells
    → find id d ≡ some s
    → s'.head_tx ≡ s.head_tx
    → IsHeaded id s'
    → IsLive (put id s' d) cells
replace-IsLive d cells id s s' l f e hs = record {
  distinct = Distinct-put id s' d l.distinct;
  headed = Each-put IsHeaded id s' d hs l.headed;
  waits = λ j w. elim (Bool-cases (j == id)) [
    | inl same ↦
        let w' = subst (λ k. (cells k).head ≡ HeadSlot.waiting) ((==_iff j id).0 same) w in
        (s', find-put j id s' d ∙ rw (eq_flip id j ∙ same), e ∙ found_waits d cells id s l f w')
    | inr other ↦
        let (s1, e1, t) = l.waits j w in (s1, find-put j id s' d ∙ rw (eq_flip id j ∙ other) e1, t)
  ];
}

pub canceled-ne-waiting : HeadSlot.canceled ≢ HeadSlot.waiting
canceled-ne-waiting e = cc

pub none-ne-some : (s : StreamState) → none ≢ some s
none-ne-some s e = cc
