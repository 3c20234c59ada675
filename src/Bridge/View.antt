-- ===== src/Bridge/View.antt =====
-- rust/crates/h2ts-server/src/wslay.rs: the callbacks against a plain machine, which reads from a list
-- and writes to others.
use h2ts.Common.{
  ℕ, zero, suc, ◌+◌, ◌-◌, ◌≤◌, ◌≡◌, refl, sym, ap, ◌∙◌, min, Bool, true, false, true-ne-false, ◌==◌,
  ==_iff, if◌then◌else◌, if_case, List, [], ◌∷◌, ◌++◌, append_assoc, Option, some, none, length,
  take, drop, arith, length-drop, subst,
}
use h2ts.Bridge.{
  Shared, Calls, recv_cb, send_cb, frame_start_cb, frame_chunk_cb, msg_recv_cb, run, is_data_opcode,
}

-- What is left to read, what was sent, and the payload of the data frames so far.
pub record View : Type 0 where
  pub input : List ℕ
  pub sent : List ℕ
  pub payload : List ℕ
  pub is_data : Bool

-- A read of at most `len` bytes; with nothing to read it would block.
abbrev pub answer : List ℕ → ℕ → Option (List ℕ)
answer [] len = none
answer (b ∷ r) len = some (take len (b ∷ r))

unfoldable pub view_run : {C : Type 0} → Calls C → View → (Bool × C) × View
view_run (Calls.returns failed c) v = ((failed, c), v)
view_run (Calls.wants len k) v =
    view_run (k (answer v.input len)) (record v { input = drop len v.input })
view_run (Calls.sends bytes k) v = view_run k (record v { sent = v.sent ++ bytes })
view_run (Calls.starts opcode k) v = view_run k (record v { is_data = is_data_opcode opcode })
view_run (Calls.chunk bytes k) v =
    view_run k (record v { payload = if v.is_data then v.payload ++ bytes else v.payload })
view_run (Calls.message opcode status_code msg k) v = view_run k v

-- The shared state against a view, behind the payload `p` that was forwarded and the bytes `o` that
-- were taken for the socket. What was read is within the buffer.
pub record IsViewed (p o : List ℕ) (s : Shared) (v : View) : Type 0 where
  pub within : s.inbound_pos ≤ length s.inbound
  pub input : v.input ≡ drop s.inbound_pos s.inbound
  pub sent : v.sent ≡ o ++ s.outbound
  pub payload : v.payload ≡ p ++ s.to_peer
  pub is_data : v.is_data ≡ s.cur_is_data

drop_nil : (n : ℕ) → drop {A = ℕ} n [] ≡ []
drop_nil zero = refl
drop_nil (suc n) = refl

take_nil : (n : ℕ) → take {A = ℕ} n [] ≡ []
take_nil zero = refl
take_nil (suc n) = refl

suc-min : (m n : ℕ) → suc (min m n) ≡ min (suc m) (suc n)
suc-min m n = omega arith

zero_add : (m : ℕ) → m ≡ 0 + m
zero_add m = omega arith

add_suc : (n m : ℕ) → suc (n + m) ≡ suc n + m
add_suc n m = omega arith

min_zero : (n : ℕ) → 0 ≡ min 0 n
min_zero n = omega arith

drop-drop : (m n : ℕ) (xs : List ℕ) → drop m (drop n xs) ≡ drop (n + m) xs
drop-drop m zero xs = ap (λ k. drop k xs) (zero_add m)
drop-drop m (suc n) [] = drop_nil m ∙ sym (drop_nil (suc n + m))
drop-drop m (suc n) (x ∷ xs) = drop-drop m n xs ∙ ap (λ k. drop k (x ∷ xs)) (add_suc n m)

take-min : (len : ℕ) (xs : List ℕ) → take (min len (length xs)) xs ≡ take len xs
take-min len [] = take_nil (min len 0) ∙ sym (take_nil len)
take-min zero (x ∷ xs) = sym (ap (λ k. take k (x ∷ xs)) (min_zero (suc (length xs))))
take-min (suc len) (x ∷ xs) =
    sym (ap (λ k. take k (x ∷ xs)) (suc-min len (length xs))) ∙ ap (x ∷◌) (take-min len xs)

drop-min : (len : ℕ) (xs : List ℕ) → drop (min len (length xs)) xs ≡ drop len xs
drop-min len [] = drop_nil (min len 0) ∙ sym (drop_nil len)
drop-min zero (x ∷ xs) = sym (ap (λ k. drop k (x ∷ xs)) (min_zero (suc (length xs))))
drop-min (suc len) (x ∷ xs) =
    sym (ap (λ k. drop k (x ∷ xs)) (suc-min len (length xs))) ∙ drop-min len xs

answer-some :
    (input : List ℕ) (len : ℕ) → ¬ (length input ≡ 0) → some (take len input) ≡ answer input len
answer-some [] len h = absurd (h refl)
answer-some (x ∷ xs) len h = refl

-- One read, where `input` is what is left of the buffer.
record Reads (s : Shared) (len : ℕ) (input : List ℕ) (r : Option (List ℕ) × Shared) : Type 0 where
  bytes : r.0 ≡ answer input len
  rest : drop r.1.inbound_pos r.1.inbound ≡ drop len input
  inside : r.1.inbound_pos ≤ length r.1.inbound
  same : r.1 ≡ record s { inbound_pos = r.1.inbound_pos }

available :
    (s : Shared) (input : List ℕ)
    → input ≡ drop s.inbound_pos s.inbound
    → length s.inbound - s.inbound_pos ≡ length input
available s input e = sym (ap length e ∙ length-drop s.inbound_pos s.inbound)

nothing_left : (xs : List ℕ) → length xs ≡ 0 → xs ≡ []
nothing_left [] h = refl
nothing_left (x ∷ xs) h = absurd (omega (arith, h))

recv_cb-Reads :
    (s : Shared) (len : ℕ) (input : List ℕ)
    → s.inbound_pos ≤ length s.inbound
    → input ≡ drop s.inbound_pos s.inbound
    → Reads s len input (recv_cb s len)
unfolding recv_cb
recv_cb-Reads s len input w e =
    let avail = length s.inbound - s.inbound_pos in
    let n = min len avail in
    if_case (Reads s len input) (avail == 0)
      (λ z.
        let none_left =
          nothing_left input (omega (arith, (==_iff avail 0).0 z, available s input e)) in
        record {
          bytes = rw none_left refl;
          rest = sym e ∙ rw none_left (sym (drop_nil len));
          inside = w;
          same = refl;
        })
      (λ z. record {
        bytes =
            rw (← e, available s input e, take-min len input)
              (answer-some input len
                (λ h. true-ne-false (sym ((==_iff avail 0).1 (available s input e ∙ h)) ∙ z)));
        rest =
            sym (drop-drop n s.inbound_pos s.inbound)
            ∙ rw (← e, available s input e) (drop-min len input);
        inside = omega (arith, w);
        same = refl;
      })

-- The same result, and states that stand for each other.
abbrev pub Agrees :
    {C : Type 0} → List ℕ → List ℕ → (Bool × C) × Shared → (Bool × C) × View → Type 0
Agrees p o a b = a.0 ≡ b.0 × IsViewed p o a.1 b.1

chunked :
    (p : List ℕ) (b d : Bool) (to_peer payload bytes : List ℕ)
    → payload ≡ p ++ to_peer
    → b ≡ d
    → (if b then payload ++ bytes else payload) ≡ p ++ (if d then to_peer ++ bytes else to_peer)
chunked p true true to_peer payload bytes e h = ap (◌++ bytes) e ∙ append_assoc p to_peer bytes
chunked p false false to_peer payload bytes e h = e
chunked p true false to_peer payload bytes e h = absurd (true-ne-false h)
chunked p false true to_peer payload bytes e h = absurd (true-ne-false (sym h))

-- Whatever wslay does in a call, the callbacks answer it as the plain machine does, and the shared
-- state still stands for that machine's: no byte is read twice or skipped, no read leaves the
-- buffer, and the payload that is collected is the one of the data frames.
pub run-view :
    {C : Type 0}
    → (c : Calls C) (p o : List ℕ) (s : Shared) (v : View) → IsViewed p o s v
    → Agrees p o (run c s) (view_run c v)
unfolding run view_run send_cb frame_start_cb frame_chunk_cb msg_recv_cb
run-view (Calls.returns failed c) p o s v h = (refl, h)
run-view (Calls.wants len k) p o s v h =
    let reads = recv_cb-Reads s len v.input h.within h.input in
    let s1 = (recv_cb s len).1 in
    let v1 = record v { input = drop len v.input } in
    subst (λ r. Agrees p o (run (k r) s1) (view_run (k (answer v.input len)) v1)) (sym reads.bytes)
      (run-view (k (answer v.input len)) p o s1 v1 (record {
        within = reads.inside;
        input = sym reads.rest;
        sent = h.sent ∙ ap (λ r. o ++ r.outbound) (sym reads.same);
        payload = h.payload ∙ ap (λ r. p ++ r.to_peer) (sym reads.same);
        is_data = h.is_data ∙ ap (λ r. r.cur_is_data) (sym reads.same);
      }))
run-view (Calls.sends bytes k) p o s v h =
    run-view k p o (send_cb s bytes) (record v { sent = v.sent ++ bytes })
      (record {
        within = h.within;
        input = h.input;
        sent = ap (◌++ bytes) h.sent ∙ append_assoc o s.outbound bytes;
        payload = h.payload;
        is_data = h.is_data;
      })
run-view (Calls.starts opcode k) p o s v h =
    run-view k p o (frame_start_cb s opcode) (record v { is_data = is_data_opcode opcode })
      (record {
        within = h.within;
        input = h.input;
        sent = h.sent;
        payload = h.payload;
        is_data = refl;
      })
run-view (Calls.chunk bytes k) p o s v h =
    run-view k p o (frame_chunk_cb s bytes)
      (record v { payload = if v.is_data then v.payload ++ bytes else v.payload })
      (record {
        within = h.within;
        input = h.input;
        sent = h.sent;
        payload = chunked p v.is_data s.cur_is_data s.to_peer v.payload bytes h.payload h.is_data;
        is_data = h.is_data;
      })
run-view (Calls.message opcode status_code msg k) p o s v h =
    run-view k p o (msg_recv_cb s opcode status_code msg) v (record {
      within = h.within;
      input = h.input;
      sent = h.sent;
      payload = h.payload;
      is_data = h.is_data;
    })
