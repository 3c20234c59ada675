-- ===== src/Connection/Invariant/Endings.antt =====
-- rust/crates/h2ts-client/src/connection.rs: the end of a stream keeps the invariant.
use h2ts.Common.{
  true-ne-false, ℕ, ◌≡◌, refl, sym, ◌∙◌, ◌≢◌, true, false, ◌&&◌, ◌==◌, ==_iff, Bool-cases, if_case,
  inl, inr, if◌then◌else◌, List, [], ◌∷◌, Option, some, none, arith, subst,
}
use h2ts.Common.Dict.{Dict, find, remove, Each, Lacks, Distinct, Each-remove}
use h2ts.Errors.{H2Error, ErrorCode, reset_locally, value}
use h2ts.Errors
use h2ts.Frames.Types.{Frame}
use h2ts.Connection.State.{ConnState, StreamState, HeadSlot, send_frame}
use h2ts.Connection.Streams.{fail}
use h2ts.Connection.Control.{
  remove_and_fail, fail_found, fail_all, reset_stream, retire_if_fully_closed, retire_found,
  drop_stream,
}
use h2ts.Connection.Live.{
  canceled-ne-waiting, none-ne-some, IsOpen, fail_answers, found_waits, found-IsHeaded,
}
use h2ts.Connection.Invariant.{
  IsConnFor, IsConn, IsOpenBut, IsConnBut, send_frame-IsConn, wake_slot_waiters-IsConn,
  remove-IsConn,
}

pub fail_found-IsConn :
    (P : ℕ → StreamState → Type 0) (st : ConnState) (id : ℕ) (e : H2Error) (o : Option StreamState)
    → IsConnFor P st
    → find id st.streams ≡ o
    → IsConnFor P (fail_found st id e o)
fail_found-IsConn P st id e none h f = h
fail_found-IsConn P st id e (some s) h f =
    remove-IsConn P st h P id s (fail s (st.cells id) e).1 f
      (fail_answers s (st.cells id) e id (found-IsHeaded st.streams st.cells id s h.live f)
        (found_waits st.streams st.cells id s h.live f))
      (Each-remove P id st.streams h.each)

pub remove_and_fail-IsConn :
    (P : ℕ → StreamState → Type 0) (st : ConnState) (id : ℕ) (e : H2Error)
    → IsConnFor P st
    → IsConnFor P (remove_and_fail st id e)
unfolding remove_and_fail
remove_and_fail-IsConn P st id e h = fail_found-IsConn P st id e (find id st.streams) h refl

pub fail_all-IsConn :
    (P : ℕ → StreamState → Type 0) (st : ConnState) (ids : List ℕ) (e : H2Error)
    → IsConnFor P st
    → IsConnFor P (fail_all st ids e)
unfolding fail_all
fail_all-IsConn P st [] e h = h
fail_all-IsConn P st (id ∷ ids) e h =
    fail_all-IsConn P (remove_and_fail st id e) ids e (remove_and_fail-IsConn P st id e h)

pub reset_stream-IsConn :
    (P : ℕ → StreamState → Type 0) (st : ConnState) (id : ℕ) (code : ErrorCode)
    → IsConnFor P st
    → IsConnFor P (reset_stream st id code)
unfolding reset_stream
reset_stream-IsConn P st id code h =
    let sent = send_frame st (Frame.rst_stream id (value code)) in
    let e = Errors.stream code (reset_locally id) id in
    wake_slot_waiters-IsConn P (remove_and_fail sent id e) (
      remove_and_fail-IsConn P sent id e
        (send_frame-IsConn P st h (Frame.rst_stream id (value code))))

-- A stream that is not there is no exception.
Each-Lacks : (d : Dict StreamState) (id : ℕ) → Lacks id d → Each (IsOpenBut id) d → Each IsOpen d
Each-Lacks [] id l h = tt
Each-Lacks ((j, s) ∷ d) id l h = (h.0 l.0, Each-Lacks d id l.1 h.1)

same_Lacks : (d : Dict StreamState) (j id : ℕ) → (j == id) ≡ true → Lacks j d → Lacks id d
same_Lacks d j id e l = subst (λ k. Lacks k d) ((==_iff j id).0 e) l

differ : (j id : ℕ) → (j == id) ≡ false → j ≢ id
differ j id h e = ground (arith, h, e)

-- Only one stream may have ended, and it was found open or is not there.
Each-IsOpen :
    (d : Dict StreamState) (id : ℕ)
    → Distinct d
    → Each (IsOpenBut id) d
    → ((s : StreamState) → find id d ≡ some s → IsOpen id s)
    → Each IsOpen d
Each-IsOpen [] id dis h k = tt
Each-IsOpen ((j, s) ∷ d) id dis h k = elim (Bool-cases (j == id)) [
  | inl same ↦ (k s (rw same), Each-Lacks d id (same_Lacks d j id same dis.0) h.1)
  | inr other ↦ (h.0 (differ j id other), Each-IsOpen d id dis.1 h.1 (λ t e. k t (rw other e)))
]

-- The removal of a stream leaves the others.
Each-remove_but :
    (d : Dict StreamState) (id : ℕ) → Distinct d → Each (IsOpenBut id) d → Each IsOpen (remove id d)
Each-remove_but [] id dis h = tt
Each-remove_but ((j, s) ∷ d) id dis h = elim (Bool-cases (j == id)) [
  | inl same ↦ rw same (Each-Lacks d id (same_Lacks d j id same dis.0) h.1)
  | inr other ↦ rw other (h.0 (differ j id other), Each-remove_but d id dis.1 h.1)
]

record_but :
    (id : ℕ) (st : ConnState)
    → IsConnBut id st
    → ((s : StreamState) → find id st.streams ≡ some s → IsOpen id s)
    → IsConn st
record_but id st h k = record {
  table = h.table;
  peer = h.peer;
  block = h.block;
  live = h.live;
  sender = h.sender;
  each = Each-IsOpen st.streams id h.live.distinct h.each k;
  torn = h.torn;
}

-- A stream that is dropped leaves no request behind that waits.
drops_answer :
    (s : StreamState) (slot : HeadSlot)
    → (slot ≡ HeadSlot.waiting → s.head_tx ≡ true)
    → (if s.head_tx then HeadSlot.canceled else slot) ≢ HeadSlot.waiting
drops_answer s slot k w = elim (Bool-cases s.head_tx) [
  | inl t ↦ canceled-ne-waiting (rw t at w)
  | inr f ↦ true-ne-false (sym (k (rw f at w)) ∙ f)
]

drop_stream-IsConn :
    (st : ConnState) (id : ℕ) (s : StreamState)
    → IsConnBut id st
    → find id st.streams ≡ some s
    → IsConn (drop_stream st id s)
drop_stream-IsConn st id s h f =
    let c = st.cells id in
    remove-IsConn (IsOpenBut id) st h IsOpen id s
      (record c { head = if s.head_tx then HeadSlot.canceled else c.head }) f
      (drops_answer s c.head (found_waits st.streams st.cells id s h.live f))
      (Each-remove_but st.streams id h.live.distinct h.each)

some-eq : (s t : StreamState) → some s ≡ some t → s ≡ t
some-eq s t e = cc

retire_found-IsConn :
    (st : ConnState) (id : ℕ) (o : Option StreamState)
    → IsConnBut id st
    → find id st.streams ≡ o
    → IsConn (retire_found st id o)
retire_found-IsConn st id none h f = record_but id st h (λ s e. absurd (none-ne-some s (sym f ∙ e)))
retire_found-IsConn st id (some s) h f =
    if_case IsConn (s.local_closed && s.remote_closed)
      (λ both.
        wake_slot_waiters-IsConn IsOpen (drop_stream st id s) (drop_stream-IsConn st id s h f))
      (λ one. record_but id st h (λ t e. subst (IsOpen id) (some-eq s t (sym f ∙ e)) one))

pub retire-IsConn :
    (st : ConnState) (id : ℕ) → IsConnBut id st → IsConn (retire_if_fully_closed st id)
unfolding retire_if_fully_closed
retire-IsConn st id h = retire_found-IsConn st id (find id st.streams) h refl
