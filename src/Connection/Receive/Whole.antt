-- ===== src/Connection/Receive/Whole.antt =====
-- rust/crates/h2ts-client/src/connection.rs: what one call of `Response::bytes` returns.
use h2ts.Common.{
  ℕ, ◌≡◌, refl, ap, sym, subst, ◌∙◌, Bool, true, false, List, [], ◌∷◌, ◌++◌, append_assoc,
  append-nil, Option, some, none,
}
use mathlib.Core.List.{flatten}
use h2ts.Common.Flatten.{flatten_one}
use h2ts.Errors.{H2Error}
use h2ts.Connection.Receive.{RecvState, receive_data, fail, end_body, poll_next}
use h2ts.Connection.Receive.Collect.{Collected, Collecting, new_collecting, round, Event, bytes}

-- Whether the peer ended the body.
pub data Told : Type 0 where
  more whole broken : Told

-- The body as the peer sent it, up to its end or the failure of the stream.
abbrev pub body : List Event → List ℕ
body [] = []
body (Event.data_received chunk true ∷ es) = chunk
body (Event.data_received chunk false ∷ es) = chunk ++ body es
body (Event.stream_failed e ∷ es) = []
body (Event.body_ended ∷ es) = []
body (Event.polled task ∷ es) = body es

abbrev pub told : List Event → Told
told [] = Told.more
told (Event.data_received chunk true ∷ es) = Told.whole
told (Event.data_received chunk false ∷ es) = told es
told (Event.stream_failed e ∷ es) = Told.broken
told (Event.body_ended ∷ es) = Told.whole
told (Event.polled task ∷ es) = told es

abbrev pub first_failure : List Event → Option H2Error
first_failure [] = none
first_failure (Event.data_received chunk end_stream ∷ es) = first_failure es
first_failure (Event.stream_failed e ∷ es) = some e
first_failure (Event.body_ended ∷ es) = first_failure es
first_failure (Event.polled task ∷ es) = first_failure es

-- What a result says, of the body that is wanted, how it was told, and the failure.
abbrev pub IsCollected : List ℕ → Told → Option H2Error → Collected → Collecting → Type 0
IsCollected want t f Collected.ok c = (c.out ≡ want) × (t ≡ Told.whole)
IsCollected want t f (Collected.err e) c = f ≡ some e
IsCollected want t f Collected.collecting c = c.out ++ flatten c.recv.queue ≡ want

-- A future that has returned.
stays_ok :
    (es : List Event) (r : RecvState) (out want : List ℕ) (t : Told) (f : Option H2Error)
    → out ≡ want
    → t ≡ Told.whole
    → (let c = bytes es (record { recv = r; out = out; result = Collected.ok }) in
        IsCollected want t f c.result c)
unfolding bytes round
stays_ok [] r out want t f e h = (e, h)
stays_ok (Event.data_received chunk end_stream ∷ es) r out want t f e h =
    stays_ok es (receive_data r chunk end_stream) out want t f e h
stays_ok (Event.stream_failed x ∷ es) r out want t f e h = stays_ok es (fail r x) out want t f e h
stays_ok (Event.body_ended ∷ es) r out want t f e h = stays_ok es (end_body r) out want t f e h
stays_ok (Event.polled task ∷ es) r out want t f e h = stays_ok es r out want t f e h

stays_err :
    (es : List Event) (r : RecvState) (out want : List ℕ) (t : Told) (f : Option H2Error)
    (x : H2Error)
    → f ≡ some x
    → (let c = bytes es (record { recv = r; out = out; result = Collected.err x }) in
        IsCollected want t f c.result c)
unfolding bytes round
stays_err [] r out want t f x e = e
stays_err (Event.data_received chunk end_stream ∷ es) r out want t f x e =
    stays_err es (receive_data r chunk end_stream) out want t f x e
stays_err (Event.stream_failed y ∷ es) r out want t f x e = stays_err es (fail r y) out want t f x e
stays_err (Event.body_ended ∷ es) r out want t f x e = stays_err es (end_body r) out want t f x e
stays_err (Event.polled task ∷ es) r out want t f x e = stays_err es r out want t f x e

abbrev buffer : List (List ℕ) → ℕ → Bool → Option H2Error → Option ℕ → List ℕ → RecvState
buffer q n ended error waker woken = record {
  queue = q;
  buffered = n;
  ended = ended;
  error = error;
  waker = waker;
  woken = woken;
}

abbrev reads : RecvState → List ℕ → Collecting
reads r out = record { recv = r; out = out; result = Collected.collecting }

wanted :
    {want want' : List ℕ} (t : Told) (f : Option H2Error) (c : Collecting)
    → want ≡ want'
    → IsCollected want t f c.result c
    → IsCollected want' t f c.result c
wanted t f c e h = subst (λ w. IsCollected w t f c.result c) e h

chunk_out :
    (out chunk : List ℕ) (q : List (List ℕ))
    → (out ++ chunk) ++ flatten q ≡ out ++ flatten (chunk ∷ q)
unfolding flatten
chunk_out out chunk q = append_assoc out chunk (flatten q)

chunk_in :
    (out : List ℕ) (q : List (List ℕ)) (chunk : List ℕ)
    → out ++ flatten (q ++ chunk ∷ []) ≡ (out ++ flatten q) ++ chunk
chunk_in out q chunk =
    ap (λ x. out ++ x) (flatten_one q chunk) ∙ sym (append_assoc out (flatten q) chunk)

-- After a failure nothing is added, and the error comes behind what is buffered.
broken-IsCollected :
    (es : List Event) (q : List (List ℕ)) (n : ℕ) (x : H2Error) (k : Option ℕ) (ks : List ℕ)
    (out : List ℕ) (t : Told)
    → (let c = bytes es (reads (buffer q n true (some x) k ks) out) in
        IsCollected (out ++ flatten q) t (some x) c.result c)
unfolding bytes round receive_data fail end_body poll_next
broken-IsCollected [] q n x k ks out t = refl
broken-IsCollected (Event.data_received [] true ∷ es) q n x k ks out t =
    broken-IsCollected es q n x none _ out t
broken-IsCollected (Event.data_received [] false ∷ es) q n x k ks out t =
    broken-IsCollected es q n x none _ out t
broken-IsCollected (Event.data_received (b ∷ r) true ∷ es) q n x k ks out t =
    broken-IsCollected es q n x none _ out t
broken-IsCollected (Event.data_received (b ∷ r) false ∷ es) q n x k ks out t =
    broken-IsCollected es q n x none _ out t
broken-IsCollected (Event.stream_failed y ∷ es) q n x k ks out t =
    broken-IsCollected es q n x none _ out t
broken-IsCollected (Event.body_ended ∷ es) q n x k ks out t = broken-IsCollected es q n x k ks out t
broken-IsCollected (Event.polled task ∷ es) [] n x k ks out t =
    stays_err es _ out _ t (some x) x refl
broken-IsCollected (Event.polled task ∷ es) (chunk ∷ q) n x k ks out t =
    wanted t (some x) _ (chunk_out out chunk q) (broken-IsCollected es q _ x k ks (out ++ chunk) t)

-- After the end nothing is added.
over-IsCollected :
    (es : List Event) (q : List (List ℕ)) (n : ℕ) (k : Option ℕ) (ks : List ℕ) (out : List ℕ)
    → (let c = bytes es (reads (buffer q n true none k ks) out) in
        IsCollected (out ++ flatten q) Told.whole (first_failure es) c.result c)
unfolding bytes round receive_data fail end_body poll_next flatten
over-IsCollected [] q n k ks out = refl
over-IsCollected (Event.data_received [] true ∷ es) q n k ks out =
    over-IsCollected es q n none _ out
over-IsCollected (Event.data_received [] false ∷ es) q n k ks out =
    over-IsCollected es q n none _ out
over-IsCollected (Event.data_received (b ∷ r) true ∷ es) q n k ks out =
    over-IsCollected es q n none _ out
over-IsCollected (Event.data_received (b ∷ r) false ∷ es) q n k ks out =
    over-IsCollected es q n none _ out
over-IsCollected (Event.stream_failed y ∷ es) q n k ks out =
    broken-IsCollected es q n y none _ out Told.whole
over-IsCollected (Event.body_ended ∷ es) q n k ks out = over-IsCollected es q n k ks out
over-IsCollected (Event.polled task ∷ es) [] n k ks out =
    stays_ok es _ out (out ++ []) Told.whole (first_failure es) (sym (append-nil out)) refl
over-IsCollected (Event.polled task ∷ es) (chunk ∷ q) n k ks out =
    wanted Told.whole (first_failure es) _ (chunk_out out chunk q)
      (over-IsCollected es q _ k ks (out ++ chunk))

live-IsCollected :
    (es : List Event) (q : List (List ℕ)) (n : ℕ) (k : Option ℕ) (ks : List ℕ) (out : List ℕ)
    → (let c = bytes es (reads (buffer q n false none k ks) out) in
        IsCollected ((out ++ flatten q) ++ body es) (told es) (first_failure es) c.result c)
unfolding bytes round receive_data fail end_body poll_next
live-IsCollected [] q n k ks out = sym (append-nil (out ++ flatten q))
live-IsCollected (Event.data_received [] true ∷ es) q n k ks out =
    wanted Told.whole (first_failure es) _ (sym (append-nil (out ++ flatten q)))
      (over-IsCollected es q n none _ out)
live-IsCollected (Event.data_received [] false ∷ es) q n k ks out =
    live-IsCollected es q n none _ out
live-IsCollected (Event.data_received (b ∷ r) true ∷ es) q n k ks out =
    wanted Told.whole (first_failure es) _ (chunk_in out q (b ∷ r))
      (over-IsCollected es (q ++ (b ∷ r) ∷ []) _ none _ out)
live-IsCollected (Event.data_received (b ∷ r) false ∷ es) q n k ks out =
    wanted (told es) (first_failure es) _
      (ap (◌++ body es) (chunk_in out q (b ∷ r))
        ∙ append_assoc (out ++ flatten q) (b ∷ r) (body es))
      (live-IsCollected es (q ++ (b ∷ r) ∷ []) _ none _ out)
live-IsCollected (Event.stream_failed y ∷ es) q n k ks out =
    wanted Told.broken (some y) _ (sym (append-nil (out ++ flatten q)))
      (broken-IsCollected es q n y none _ out Told.broken)
live-IsCollected (Event.body_ended ∷ es) q n k ks out =
    wanted Told.whole (first_failure es) _ (sym (append-nil (out ++ flatten q)))
      (over-IsCollected es q n none _ out)
live-IsCollected (Event.polled task ∷ es) [] n k ks out =
    live-IsCollected es [] n (some task) ks out
live-IsCollected (Event.polled task ∷ es) (chunk ∷ q) n k ks out =
    wanted (told es) (first_failure es) _ (ap (◌++ body es) (chunk_out out chunk q))
      (live-IsCollected es q _ k ks (out ++ chunk))

-- A single call of `bytes`, on a body that nothing was read of and that did not fail before: it
-- returns without an error only if the peer ended the body before the stream failed, and then exactly
-- the bytes that the peer sent; an error that it returns is that of the first failure. Until it
-- returns, what it has read and what is buffered are together the bytes that were sent so far. It
-- does not speak of a second call, made after the first returned its error.
pub bytes-IsCollected :
    (es : List Event)
    → (let c = bytes es new_collecting in
        IsCollected (body es) (told es) (first_failure es) c.result c)
unfolding flatten
bytes-IsCollected es = live-IsCollected es [] 0 none [] []
