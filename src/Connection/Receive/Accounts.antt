-- ===== src/Connection/Receive/Accounts.antt =====
-- rust/crates/h2ts-client/src/connection.rs: the bytes of a body, kept and handed out.
use h2ts.Common.{
  ℕ, ◌+◌, ◌≡◌, refl, ap, sym, ◌∙◌, Bool, true, false, Bool-cases, inl, inr, List, [], ◌∷◌, ◌++◌,
  append_assoc, append-nil, Option, some, none, length, length-append, arith, if◌then◌else◌,
}
use mathlib.Core.List.{flatten}
use h2ts.Common.Flatten.{flatten_one}
use h2ts.Errors.{H2Error}
use h2ts.Connection.Receive.{
  RecvState, empty, notify, keeps, receive_data, fail, end_body, Poll, at_end, from_queue,
  poll_next, replenished, drop_body,
}

-- What happens to a buffer: the connection's calls, and the polls of the body's reader.
pub data Step : RecvState → RecvState → Type 0 where
  data_received :
      {r : RecvState} (bytes : List ℕ) (end_stream : Bool)
      → Step r (receive_data r bytes end_stream)
  stream_failed : {r : RecvState} (e : H2Error) → Step r (fail r e)
  body_ended : {r : RecvState} → Step r (end_body r)
  polled : {r : RecvState} (task : ℕ) → Step r (poll_next r task).1

pub data Steps : RecvState → RecvState → Type 0 where
  done : {r : RecvState} → Steps r r
  next : {r s u : RecvState} → Steps r s → Step s u → Steps r u

abbrev chunk_of : Poll → List ℕ
chunk_of (Poll.chunk bytes) = bytes
chunk_of _ = []

-- The bytes that a step takes into the buffer, that it hands to the reader, and the number of
-- bytes that it gives back to the windows.
abbrev taken : {r s : RecvState} → Step r s → List ℕ
taken (Step.data_received {r} bytes end_stream) = if keeps r bytes then bytes else []
taken _ = []

abbrev handed : {r s : RecvState} → Step r s → List ℕ
handed (Step.polled {r} task) = chunk_of (poll_next r task).0
handed _ = []

abbrev returned : {r s : RecvState} → Step r s → ℕ
returned (Step.polled {r} task) = replenished (poll_next r task).0
returned _ = 0

abbrev pub accepted : {r s : RecvState} → Steps r s → List ℕ
accepted Steps.done = []
accepted (Steps.next t s) = accepted t ++ taken s

abbrev pub delivered : {r s : RecvState} → Steps r s → List ℕ
delivered Steps.done = []
delivered (Steps.next t s) = delivered t ++ handed s

abbrev pub given_back : {r s : RecvState} → Steps r s → ℕ
given_back Steps.done = 0
given_back (Steps.next t s) = given_back t + returned s

-- The count agrees with the queue.
abbrev IsCounted : RecvState → Type 0
IsCounted r = r.buffered ≡ length (flatten r.queue)

-- One step: what was in the queue and what is taken is what is handed out and what stays.
record Balanced (r s : RecvState) (incoming outgoing : List ℕ) (back : ℕ) : Type 0 where
  bytes : flatten r.queue ++ incoming ≡ outgoing ++ flatten s.queue
  counted : IsCounted r → IsCounted s
  back_length : back ≡ length outgoing

unchanged : (r s : RecvState) → s.queue ≡ r.queue → s.buffered ≡ r.buffered → Balanced r s [] [] 0
unchanged r s hq hb = record {
  bytes = append-nil (flatten r.queue) ∙ ap flatten (sym hq);
  counted = λ c. hb ∙ c ∙ ap (λ q. length (flatten q)) (sym hq);
  back_length = refl;
}

-- What `receive_data` leaves, on both sides of its test.
receive_data_kept :
    (r : RecvState) (bytes : List ℕ) (end_stream : Bool)
    → keeps r bytes ≡ true
    → ((receive_data r bytes end_stream).queue ≡ r.queue ++ (bytes ∷ []))
      × ((receive_data r bytes end_stream).buffered ≡ r.buffered + length bytes)
unfolding receive_data
receive_data_kept r bytes true h = rw h (refl, refl)
receive_data_kept r bytes false h = rw h (refl, refl)

receive_data_dropped :
    (r : RecvState) (bytes : List ℕ) (end_stream : Bool)
    → keeps r bytes ≡ false
    → ((receive_data r bytes end_stream).queue ≡ r.queue)
      × ((receive_data r bytes end_stream).buffered ≡ r.buffered)
unfolding receive_data
receive_data_dropped r bytes true h = rw h (refl, refl)
receive_data_dropped r bytes false h = rw h (refl, refl)

receive_data-Balanced :
    (r : RecvState) (bytes : List ℕ) (end_stream : Bool)
    → Balanced r (receive_data r bytes end_stream) (if keeps r bytes then bytes else []) [] 0
receive_data-Balanced r bytes end_stream = elim (Bool-cases (keeps r bytes)) [
  | inl h ↦
      let (hq, hb) = receive_data_kept r bytes end_stream h in
      let all = ap flatten hq ∙ flatten_one r.queue bytes in
      rw h record {
        bytes = sym all;
        counted = λ c. omega (arith, c, hb, ap length all, length-append (flatten r.queue) bytes);
        back_length = refl;
      }
  | inr h ↦
      let (hq, hb) = receive_data_dropped r bytes end_stream h in
      rw h (unchanged r (receive_data r bytes end_stream) hq hb)
]

at_end-Balanced :
    (r : RecvState) (o : Option H2Error) (ended : Bool) (task : ℕ)
    → (let p = at_end r o ended task in Balanced r p.1 [] (chunk_of p.0) (replenished p.0))
at_end-Balanced r (some e) ended task = unchanged r _ refl refl
at_end-Balanced r none true task = unchanged r _ refl refl
at_end-Balanced r none false task = unchanged r _ refl refl

from_queue-Balanced :
    (r : RecvState) (q : List (List ℕ)) (task : ℕ)
    → r.queue ≡ q
    → (let p = from_queue r q task in Balanced r p.1 [] (chunk_of p.0) (replenished p.0))
unfolding flatten
from_queue-Balanced r [] task e = at_end-Balanced r r.error r.ended task
from_queue-Balanced r (x ∷ q) task e =
    let all : flatten r.queue ≡ x ++ flatten q = ap flatten e in
    record {
      bytes = append-nil (flatten r.queue) ∙ all;
      counted = λ c. omega (arith, c, ap length all, length-append x (flatten q));
      back_length = refl;
    }

poll_next-Balanced :
    (r : RecvState) (task : ℕ)
    → Balanced r
        (poll_next r task).1
        []
        (chunk_of (poll_next r task).0)
        (replenished (poll_next r task).0)
unfolding poll_next
poll_next-Balanced r task = from_queue-Balanced r r.queue task refl

end_if-Balanced :
    (r : RecvState) (b : Bool)
    → Balanced r (if b then r else notify (record r { ended = true })) [] [] 0
end_if-Balanced r true = unchanged r r refl refl
end_if-Balanced r false = unchanged r _ refl refl

end_body-Balanced : (r : RecvState) → Balanced r (end_body r) [] [] 0
unfolding end_body
end_body-Balanced r = end_if-Balanced r r.ended

Step-Balanced : {r s : RecvState} (p : Step r s) → Balanced r s (taken p) (handed p) (returned p)
unfolding fail
Step-Balanced (Step.data_received bytes end_stream) = receive_data-Balanced _ bytes end_stream
Step-Balanced (Step.stream_failed e) = unchanged _ _ refl refl
Step-Balanced Step.body_ended = end_body-Balanced _
Step-Balanced (Step.polled task) = poll_next-Balanced _ task

record Account (r : RecvState) (t_in t_out : List ℕ) (back : ℕ) : Type 0 where
  bytes : t_in ≡ t_out ++ flatten r.queue
  counted : IsCounted r
  back_length : back ≡ length t_out

Account-next :
    (r s : RecvState) (t_in t_out incoming outgoing : List ℕ) (t_back back : ℕ)
    → Account r t_in t_out t_back
    → Balanced r s incoming outgoing back
    → Account s (t_in ++ incoming) (t_out ++ outgoing) (t_back + back)
Account-next r s t_in t_out incoming outgoing t_back back a b = record {
  bytes =
      ap (◌++ incoming) a.bytes
      ∙ append_assoc t_out (flatten r.queue) incoming
      ∙ ap (t_out ++◌) b.bytes
      ∙ sym (append_assoc t_out outgoing (flatten s.queue));
  counted = b.counted a.counted;
  back_length = omega (arith, a.back_length, b.back_length, length-append t_out outgoing);
}

Steps-Account :
    (r : RecvState) (t : Steps empty r) → Account r (accepted t) (delivered t) (given_back t)
unfolding flatten
Steps-Account r Steps.done = record { bytes = refl; counted = refl; back_length = refl }
Steps-Account r (Steps.next t s) =
    Account-next _ _ _ _ _ _ _ _ (Steps-Account _ t) (Step-Balanced s)

-- However the connection's calls and the reader's polls follow each other, the bytes that were
-- kept are the chunks handed out, in the order of arrival, and then what the queue still holds.
pub accepted-delivered :
    (r : RecvState) (t : Steps empty r) → accepted t ≡ delivered t ++ flatten r.queue
accepted-delivered r t = (Steps-Account r t).bytes

-- The counts that the polls and then the drop of a body hand to `replenish_recv_window` add up to the
-- bytes that were kept. Whether it grants them again is for the connection, which may be closed.
pub given_back-drop_body :
    (r : RecvState) (t : Steps empty r) → given_back t + (drop_body r).0 ≡ length (accepted t)
unfolding drop_body
given_back-drop_body r t =
    let a = Steps-Account r t in
    omega (
      arith,
      a.counted,
      a.back_length,
      ap length a.bytes,
      length-append (delivered t) (flatten r.queue),
    )
