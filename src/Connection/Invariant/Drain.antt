-- ===== src/Connection/Invariant/Drain.antt =====
-- rust/crates/h2ts-client/src/connection.rs: what failing a list of streams changes.
use h2ts.Common.{ℕ, ◌≡◌, refl, sym, ap, ◌∙◌, Bool, List, [], ◌∷◌, ◌++◌, Option, some, none, arith}
use h2ts.Common.Dict.{Dict, keys, find, remove}
use h2ts.Errors.{H2Error}
use h2ts.Flow.{SendWindow}
use h2ts.Connection.State.{ConnState, StreamState, PendingHeaderBlock}
use h2ts.Connection.Control.{remove_and_fail, fail_found, fail_all}

fail_found_commutes :
    (st : ConnState) (b : Bool) (o : Option H2Error) (w : SendWindow)
    (p : Option PendingHeaderBlock) (id : ℕ) (e : H2Error) (f : Option StreamState)
    → fail_found
        (record st { closed = b; close_error = o; conn_send_window = w; pending_header_block = p })
        id
        e
        f
      ≡ record (fail_found st id e f) {
        closed = b;
        close_error = o;
        conn_send_window = w;
        pending_header_block = p;
      }
fail_found_commutes st b o w p id e none = refl
fail_found_commutes st b o w p id e (some s) = refl

pub fail_all_commutes :
    (st : ConnState) (b : Bool) (o : Option H2Error) (w : SendWindow)
    (p : Option PendingHeaderBlock) (ids : List ℕ) (e : H2Error)
    → fail_all
        (record st { closed = b; close_error = o; conn_send_window = w; pending_header_block = p })
        ids
        e
      ≡ record (fail_all st ids e) {
        closed = b;
        close_error = o;
        conn_send_window = w;
        pending_header_block = p;
      }
unfolding fail_all remove_and_fail
fail_all_commutes st b o w p [] e = refl
fail_all_commutes st b o w p (id ∷ ids) e =
    ap (λ u. fail_all u ids e) (fail_found_commutes st b o w p id e (find id st.streams))
    ∙ fail_all_commutes (fail_found st id e (find id st.streams)) b o w p ids e

remove-none : (d : Dict StreamState) (id : ℕ) → find id d ≡ none → remove id d ≡ d
remove-none [] id h = refl
remove-none ((j, s) ∷ d) id h = ground (arith, h, remove-none d id)

fail_found-streams :
    (st : ConnState) (id : ℕ) (e : H2Error) (o : Option StreamState)
    → find id st.streams ≡ o
    → (fail_found st id e o).streams ≡ remove id st.streams
fail_found-streams st id e none f = sym (remove-none st.streams id f)
fail_found-streams st id e (some s) f = refl

abbrev remove_all : List ℕ → Dict StreamState → Dict StreamState
remove_all [] d = d
remove_all (id ∷ ids) d = remove_all ids (remove id d)

remove_head : (j : ℕ) (s : StreamState) (d : Dict StreamState) → remove j ((j, s) ∷ d) ≡ d
remove_head j s d = ground arith

remove_all-keys : (d : Dict StreamState) → remove_all (keys d) d ≡ []
remove_all-keys [] = refl
remove_all-keys ((j, s) ∷ d) = ap (remove_all (keys d)) (remove_head j s d) ∙ remove_all-keys d

fail_all-streams :
    (st : ConnState) (ids : List ℕ) (e : H2Error)
    → (fail_all st ids e).streams ≡ remove_all ids st.streams
unfolding fail_all remove_and_fail
fail_all-streams st [] e = refl
fail_all-streams st (id ∷ ids) e =
    fail_all-streams (fail_found st id e (find id st.streams)) ids e
    ∙ ap (remove_all ids) (fail_found-streams st id e (find id st.streams) refl)

-- Every stream of the map is taken out.
pub fail_all-keys : (st : ConnState) (e : H2Error) → (fail_all st (keys st.streams) e).streams ≡ []
fail_all-keys st e = fail_all-streams st (keys st.streams) e ∙ remove_all-keys st.streams

fail_found-closed :
    (st : ConnState) (id : ℕ) (e : H2Error) (o : Option StreamState)
    → (fail_found st id e o).closed ≡ st.closed
fail_found-closed st id e none = refl
fail_found-closed st id e (some s) = refl

pub fail_all-closed :
    (st : ConnState) (ids : List ℕ) (e : H2Error) → (fail_all st ids e).closed ≡ st.closed
unfolding fail_all remove_and_fail
fail_all-closed st [] e = refl
fail_all-closed st (id ∷ ids) e =
    fail_all-closed (fail_found st id e (find id st.streams)) ids e
    ∙ fail_found-closed st id e (find id st.streams)

fail_found-parked :
    (st : ConnState) (id : ℕ) (e : H2Error) (o : Option StreamState)
    → (fail_found st id e o).admitted ++ (fail_found st id e o).slot_waiters
      ≡ st.admitted ++ st.slot_waiters
fail_found-parked st id e none = refl
fail_found-parked st id e (some s) = refl

pub fail_all-parked :
    (st : ConnState) (ids : List ℕ) (e : H2Error)
    → (fail_all st ids e).admitted ++ (fail_all st ids e).slot_waiters
      ≡ st.admitted ++ st.slot_waiters
unfolding fail_all remove_and_fail
fail_all-parked st [] e = refl
fail_all-parked st (id ∷ ids) e =
    fail_all-parked (fail_found st id e (find id st.streams)) ids e
    ∙ fail_found-parked st id e (find id st.streams)

fail_found-sent :
    (st : ConnState) (id : ℕ) (e : H2Error) (o : Option StreamState)
    → (fail_found st id e o).sent ≡ st.sent
fail_found-sent st id e none = refl
fail_found-sent st id e (some s) = refl

pub fail_all-sent :
    (st : ConnState) (ids : List ℕ) (e : H2Error) → (fail_all st ids e).sent ≡ st.sent
unfolding fail_all remove_and_fail
fail_all-sent st [] e = refl
fail_all-sent st (id ∷ ids) e =
    fail_all-sent (fail_found st id e (find id st.streams)) ids e
    ∙ fail_found-sent st id e (find id st.streams)

fail_found-close_error :
    (st : ConnState) (id : ℕ) (e : H2Error) (o : Option StreamState)
    → (fail_found st id e o).close_error ≡ st.close_error
fail_found-close_error st id e none = refl
fail_found-close_error st id e (some s) = refl

pub fail_all-close_error :
    (st : ConnState) (ids : List ℕ) (e : H2Error) → (fail_all st ids e).close_error ≡ st.close_error
unfolding fail_all remove_and_fail
fail_all-close_error st [] e = refl
fail_all-close_error st (id ∷ ids) e =
    fail_all-close_error (fail_found st id e (find id st.streams)) ids e
    ∙ fail_found-close_error st id e (find id st.streams)
