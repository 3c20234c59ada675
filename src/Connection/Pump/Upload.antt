-- ===== src/Connection/Pump/Upload.antt =====
-- rust/crates/h2ts-client/src/connection.rs: the body pump over a whole chunk.
use h2ts.Common.{
  ℕ, ◌&&◌, ◌≡◌, refl, ap, ◌∙◌, Bool, true, false, List, [], ◌∷◌, ◌++◌, append_assoc, append-nil,
  Option, some, none, take, drop, take-append-drop, if◌then◌else◌, length,
}
use mathlib.Core.List.{flatten}
use h2ts.Common.Flatten.{flatten-append}
use h2ts.Common.Int.{pos, pos_part, ltb_ℤ}
use h2ts.Flow.{SendWindow, is_ready}
use h2ts.Connection.Pump.{Shared, Round, round, behind, grant, send_next, while_open, consumed}

-- A chunk on its way: the state that the pump sees, what is left, and the frames sent so far.
pub record Upload : Type 0 where
  pub shared : Shared
  pub rest : List ℕ
  pub frames : List (List ℕ)

abbrev pub start : Shared → List ℕ → Upload
start s chunk = record { shared = s; rest = chunk; frames = [] }

abbrev pub frames_of : Round → List (List ℕ)
frames_of (Round.sent k bytes) = bytes ∷ []
frames_of _ = []

abbrev next_round : Upload → Round × Shared → Upload
next_round u p = record {
  shared = p.1;
  rest = behind p.0 u.rest;
  frames = u.frames ++ frames_of p.0;
}

-- `while offset < chunk.len()`
abbrev pub while_left : List ℕ → Upload → Upload → Upload
while_left [] u v = u
while_left (b ∷ r) u v = v

-- A round of the loop, if bytes are left.
abbrev pub advance : Upload → ℕ → Upload
advance u task = while_left u.rest u (next_round u (round u.shared u.rest task))

-- A round of the pump, or anything that the rest of the client does to the state in between.
pub data Step : Upload → Upload → Type 0 where
  advanced : {u : Upload} (task : ℕ) → Step u (advance u task)
  changed : {u : Upload} (s : Shared) → Step u (record u { shared = s })

pub data Steps : Upload → Upload → Type 0 where
  done : {u : Upload} → Steps u u
  next : {u v w : Upload} → Steps u v → Step v w → Steps u w

-- What a round sends stands at the front of what was left.
abbrev Splits : List ℕ → Round × Shared → Type 0
Splits rest p = flatten (frames_of p.0) ++ behind p.0 rest ≡ rest

sent-Splits : (k : ℕ) (rest : List ℕ) (s : Shared) → Splits rest (Round.sent k (take k rest), s)
unfolding flatten
sent-Splits k rest s = ap (◌++ drop k rest) (append-nil (take k rest)) ∙ take-append-drop k rest

if-Splits :
    (b : Bool) (rest : List ℕ) (p q : Round × Shared)
    → Splits rest p
    → Splits rest q
    → Splits rest (if b then p else q)
if-Splits true rest p q hp hq = hp
if-Splits false rest p q hp hq = hq

send_next-Splits : (s : Shared) (w : SendWindow) (rest : List ℕ) → Splits rest (send_next s w rest)
unfolding send_next flatten
send_next-Splits s w rest =
    let n = grant s.conn_send_window.available w.available s.max_frame_size (length rest) in
    if-Splits w.closed rest _ _ refl
      (if-Splits (ltb_ℤ (pos 0) n) rest _ _ (sent-Splits (pos_part n) rest (consumed s w n)) refl)

while_open-Splits :
    (s : Shared) (o : Option SendWindow) (rest : List ℕ) (task : ℕ)
    → Splits rest (while_open s o rest task)
unfolding flatten
while_open-Splits s none rest task = refl
while_open-Splits s (some w) rest task =
    if-Splits (is_ready s.conn_send_window && is_ready w) rest _ _ (send_next-Splits s w rest) refl

round-Splits : (s : Shared) (rest : List ℕ) (task : ℕ) → Splits rest (round s rest task)
unfolding round flatten
round-Splits s rest task =
    if-Splits s.closed rest _ _ refl (while_open-Splits s s.stream_window rest task)

abbrev bytes_of : Upload → List ℕ
bytes_of u = flatten u.frames ++ u.rest

next_round-bytes_of :
    (u : Upload) (p : Round × Shared) → Splits u.rest p → bytes_of (next_round u p) ≡ bytes_of u
next_round-bytes_of u p h =
    ap (◌++ behind p.0 u.rest) (flatten-append u.frames (frames_of p.0))
    ∙ append_assoc (flatten u.frames) (flatten (frames_of p.0)) (behind p.0 u.rest)
    ∙ ap (flatten u.frames ++◌) h

while_left-bytes_of :
    (rest : List ℕ) (u v : Upload)
    → bytes_of v ≡ bytes_of u
    → bytes_of (while_left rest u v) ≡ bytes_of u
while_left-bytes_of [] u v h = refl
while_left-bytes_of (b ∷ r) u v h = h

advance-bytes_of : (u : Upload) (task : ℕ) → bytes_of (advance u task) ≡ bytes_of u
advance-bytes_of u task =
    let p = round u.shared u.rest task in
    while_left-bytes_of u.rest u (next_round u p)
      (next_round-bytes_of u p (round-Splits u.shared u.rest task))

Step-bytes_of : {u v : Upload} → Step u v → bytes_of v ≡ bytes_of u
Step-bytes_of (Step.advanced task) = advance-bytes_of _ task
Step-bytes_of (Step.changed s) = refl

-- However the pump's rounds and changes of the windows, of the stream or of the connection follow
-- each other, the frames sent and then what is left are the chunk: no byte is lost or sent twice,
-- and a chunk that is used up was sent whole.
pub upload-bytes :
    (s : Shared) (chunk : List ℕ) (u : Upload)
    → Steps (start s chunk) u
    → flatten u.frames ++ u.rest ≡ chunk
unfolding flatten
upload-bytes s chunk u Steps.done = refl
upload-bytes s chunk u (Steps.next t p) = Step-bytes_of p ∙ upload-bytes s chunk _ t
