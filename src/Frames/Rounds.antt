-- ===== src/Frames/Rounds.antt =====
-- rust/crates/h2ts-client/src/frames.rs: one round of the loop of `FrameDecoder::push`, and the loop:
-- how much it takes, that it ends, what it leaves, and that more bytes change nothing behind it.
use h2ts.Common.{
  ℕ, zero, suc, ◌+◌, ◌≤◌, ◌≡◌, ap, sym, ◌∙◌, refl, ◌≢◌, List, [], ◌∷◌, ◌++◌, Option, none, some,
  arith, length, take, drop, length-append, ltb, Bool-cases, ltb-false→le, le→ltb-false,
  length-drop, take-append_le, drop-append_le, inl, inr,
}
use h2ts.Errors.{Outcome, ok, err, panic, ◌>>=◌}
use h2ts.Frames.Types.{Frame}
use h2ts.Frames.Parse.{parse_payload}
use h2ts.Frames.Totality.{parse_payload-ne-panic}
use h2ts.Frames.Decoder.{Round, read_frame, round, drain, push_some, before, to_round, resume}

-- A frame takes at least the nine bytes of its header from the buffer.
abbrev Takes : List ℕ → Round → Type 0
Takes buf (Round.frame f rest) = length rest + 9 ≤ length buf
Takes buf Round.crash = ⊥
Takes buf _ = Unit {0}

to_round-Takes :
    (n : ℕ) (buf : List ℕ) (o : Outcome (Option Frame)) (rest : List ℕ)
    → o ≢ panic
    → length rest + 9 ≤ length buf
    → Takes buf (to_round o rest)
to_round-Takes n buf (ok f) rest p h = h
to_round-Takes n buf (err e) rest p h = tt
to_round-Takes n buf panic rest p h = p refl

read_frame-Takes :
    (m len type_id flags id : ℕ) (buf body : List ℕ)
    → length body + 9 ≤ length buf
    → Takes buf (read_frame m len type_id flags id body)
unfolding read_frame
read_frame-Takes m len type_id flags id buf body h = ground (
  arith,
  to_round-Takes 0 buf (parse_payload type_id flags id (take len body)) (drop len body)
      (parse_payload-ne-panic type_id flags id (take len body))
      (omega (arith, length-drop len body)),
)

pub round-Takes : (m : ℕ) (buf : List ℕ) → Takes buf (round m buf)
unfolding round
round-Takes m (a ∷ b ∷ c ∷ d ∷ e ∷ f ∷ g ∷ h ∷ i ∷ body) =
    read_frame-Takes m _ d e _ (a ∷ b ∷ c ∷ d ∷ e ∷ f ∷ g ∷ h ∷ i ∷ body) body (omega arith)
round-Takes m _ = tt

before-ne-panic :
    (f : Option Frame) (o : Outcome (List Frame × List ℕ)) → o ≢ panic → before f o ≢ panic
before-ne-panic f (ok (fs, rest)) h = ground arith
before-ne-panic f (err e) h = ground arith
before-ne-panic f panic h = λ _. h refl

resume-ne-panic :
    (buf : List ℕ) (next : List ℕ → Outcome (List Frame × List ℕ)) (r : Round)
    → Takes buf r
    → ((f : Option Frame) (rest : List ℕ) → length rest + 9 ≤ length buf → next rest ≢ panic)
    → resume buf next r ≢ panic
resume-ne-panic buf next Round.wait t h = ground arith
resume-ne-panic buf next (Round.fail e) t h = ground arith
resume-ne-panic buf next Round.crash t h = absurd t
resume-ne-panic buf next (Round.frame f rest) t h = before-ne-panic f (next rest) (h f rest t)

-- With fuel for the bytes the loop ends.
pub drain-ne-panic : (m fuel : ℕ) (buf : List ℕ) → length buf ≤ fuel → drain m fuel buf ≢ panic
unfolding drain
drain-ne-panic m zero buf h =
    resume-ne-panic buf (λ _. panic) (round m buf) (round-Takes m buf)
      (λ f rest t. absurd (omega arith))
drain-ne-panic m (suc fuel) buf h =
    resume-ne-panic buf (drain m fuel) (round m buf) (round-Takes m buf)
      (λ f rest t. drain-ne-panic m fuel rest (omega arith))

-- What is left holds no whole frame.
abbrev pub Leaves : ℕ → Outcome (List Frame × List ℕ) → Type 0
Leaves m (ok (fs, rest)) = round m rest ≡ Round.wait
Leaves m _ = Unit {0}

before-Leaves :
    (m : ℕ) (f : Option Frame) (o : Outcome (List Frame × List ℕ))
    → Leaves m o
    → Leaves m (before f o)
before-Leaves m f (ok (fs, rest)) h = h
before-Leaves m f (err e) h = tt
before-Leaves m f panic h = tt

resume-Leaves :
    (m : ℕ) (buf : List ℕ) (next : List ℕ → Outcome (List Frame × List ℕ)) (r : Round)
    → round m buf ≡ r
    → ((rest : List ℕ) → Leaves m (next rest))
    → Leaves m (resume buf next r)
resume-Leaves m buf next Round.wait e h = e
resume-Leaves m buf next (Round.fail x) e h = tt
resume-Leaves m buf next Round.crash e h = tt
resume-Leaves m buf next (Round.frame f rest) e h = before-Leaves m f (next rest) (h rest)

pub drain-Leaves : (m fuel : ℕ) (buf : List ℕ) → Leaves m (drain m fuel buf)
unfolding drain
drain-Leaves m zero buf = resume-Leaves m buf (λ _. panic) (round m buf) refl (λ rest. tt)
drain-Leaves m (suc fuel) buf =
    resume-Leaves m buf (drain m fuel) (round m buf) refl (drain-Leaves m fuel)

-- More bytes do not change a round that has found something.
abbrev extend : List ℕ → Round → Round
extend more (Round.frame f rest) = Round.frame f (rest ++ more)
extend more r = r

to_round-extend :
    (o : Outcome (Option Frame)) (rest more : List ℕ)
    → to_round o (rest ++ more) ≡ extend more (to_round o rest)
to_round-extend (ok f) rest more = refl
to_round-extend (err e) rest more = refl
to_round-extend panic rest more = refl

read_frame-append :
    (m len type_id flags id : ℕ) (body more : List ℕ)
    → read_frame m len type_id flags id body ≢ Round.wait
    → read_frame m len type_id flags id (body ++ more)
      ≡ extend more (read_frame m len type_id flags id body)
unfolding read_frame
read_frame-append m len type_id flags id body more h = elim (Bool-cases (ltb m len)) [
  | inl big ↦ rw big
  | inr fits ↦ elim (Bool-cases (ltb (length body) len)) [
    | inl short ↦ absurd (h (rw (fits, short)))
    | inr full ↦
        rw
          (
            fits,
            full,
            le→ltb-false (length (body ++ more)) len
                (omega (arith, length-append body more, ltb-false→le _ _ full)),
            take-append_le len body more (ltb-false→le _ _ full),
            drop-append_le len body more (ltb-false→le _ _ full),
          )
          (to_round-extend _ (drop len body) more)
  ]
]

round-append :
    (m : ℕ) (buf more : List ℕ)
    → round m buf ≢ Round.wait
    → round m (buf ++ more) ≡ extend more (round m buf)
unfolding round
round-append m (a ∷ b ∷ c ∷ d ∷ e ∷ f ∷ g ∷ h ∷ i ∷ body) more p =
    read_frame-append m _ d e _ body more p
round-append m _ more p = absurd (p refl)

resume_congr :
    (buf : List ℕ) (next next' : List ℕ → Outcome (List Frame × List ℕ)) (r : Round)
    → Takes buf r
    → ((rest : List ℕ) → length rest + 9 ≤ length buf → next rest ≡ next' rest)
    → resume buf next r ≡ resume buf next' r
resume_congr buf next next' Round.wait t h = refl
resume_congr buf next next' (Round.fail e) t h = refl
resume_congr buf next next' Round.crash t h = refl
resume_congr buf next next' (Round.frame f rest) t h = ap (before f) (h rest t)

-- The rounds do not depend on the fuel.
drain_fuel :
    (m f g : ℕ) (buf : List ℕ) → length buf ≤ f → length buf ≤ g → drain m f buf ≡ drain m g buf
unfolding drain
drain_fuel m zero zero buf hf hg = refl
drain_fuel m zero (suc g) buf hf hg =
    resume_congr buf (λ _. panic) (drain m g) (round m buf) (round-Takes m buf)
      (λ rest t. absurd (omega arith))
drain_fuel m (suc f) zero buf hf hg =
    resume_congr buf (drain m f) (λ _. panic) (round m buf) (round-Takes m buf)
      (λ rest t. absurd (omega arith))
drain_fuel m (suc f) (suc g) buf hf hg =
    resume_congr buf (drain m f) (drain m g) (round m buf) (round-Takes m buf)
      (λ rest t. drain_fuel m f g rest (omega arith) (omega arith))

-- Puts the frames of the earlier rounds before those of the later ones.
abbrev pub behind : List Frame → Outcome (List Frame × List ℕ) → Outcome (List Frame × List ℕ)
behind fs r = do (gs, rest) ← r; ok (fs ++ gs, rest)

behind-nil : (o : Outcome (List Frame × List ℕ)) → behind [] o ≡ o
behind-nil (ok (gs, rest)) = refl
behind-nil (err e) = refl
behind-nil panic = refl

before-behind :
    (f : Option Frame) (fs : List Frame) (o : Outcome (List Frame × List ℕ))
    → before f (behind fs o) ≡ behind (push_some f fs) o
before-behind none fs (ok (gs, rest)) = refl
before-behind (some f) fs (ok (gs, rest)) = refl
before-behind f fs (err e) = refl
before-behind f fs panic = refl

-- What the loop makes of `more` behind the bytes that it has been through.
abbrev pub continue : ℕ → List ℕ → Outcome (List Frame × List ℕ) → Outcome (List Frame × List ℕ)
continue m more (ok (fs, rest)) = behind fs (drain m (length (rest ++ more)) (rest ++ more))
continue m more (err e) = err e
continue m more panic = panic

before-continue :
    (m : ℕ) (more : List ℕ) (f : Option Frame) (o : Outcome (List Frame × List ℕ))
    → before f (continue m more o) ≡ continue m more (before f o)
before-continue m more f (err e) = refl
before-continue m more f panic = refl
before-continue m more f (ok (fs, rest)) = before-behind f fs _

round-extend :
    (m : ℕ) (buf more : List ℕ) (r : Round)
    → round m buf ≡ r
    → r ≢ Round.wait
    → round m (buf ++ more) ≡ extend more r
round-extend m buf more r e h = round-append m buf more (λ w. h (sym e ∙ w)) ∙ ap (extend more) e

-- The loop's next round, or the end of the fuel.
abbrev later : ℕ → ℕ → List ℕ → Outcome (List Frame × List ℕ)
later m zero = λ _. panic
later m (suc g) = drain m g

drain-resume : (m g : ℕ) (buf : List ℕ) → drain m g buf ≡ resume buf (later m g) (round m buf)
unfolding drain
drain-resume m zero buf = refl
drain-resume m (suc g) buf = refl

drain-extend :
    (m g : ℕ) (buf more : List ℕ) (r : Round)
    → round m buf ≡ r
    → r ≢ Round.wait
    → drain m g (buf ++ more) ≡ resume (buf ++ more) (later m g) (extend more r)
drain-extend m g buf more r e h =
    drain-resume m g (buf ++ more)
    ∙ ap (resume (buf ++ more) (later m g)) (round-extend m buf more r e h)

-- A round on the longer buffer, given what the round on the shorter one was.
resume-continue :
    (m g : ℕ) (buf more : List ℕ) (next : List ℕ → Outcome (List Frame × List ℕ)) (r : Round)
    → round m buf ≡ r
    → Takes buf r
    → length (buf ++ more) ≤ g
    → ((rest : List ℕ)
        → length rest + 9 ≤ length buf
        → (k : ℕ) → length (rest ++ more) ≤ k
        → drain m k (rest ++ more) ≡ continue m more (next rest))
    → drain m g (buf ++ more) ≡ continue m more (resume buf next r)
resume-continue m g buf more next Round.wait e t hg ih =
    drain_fuel m g (length (buf ++ more)) (buf ++ more) hg (omega arith) ∙ sym (behind-nil _)
resume-continue m g buf more next (Round.fail x) e t hg ih =
    drain-extend m g buf more (Round.fail x) e (λ w. cc)
resume-continue m g buf more next Round.crash e t hg ih = absurd t
resume-continue m zero buf more next (Round.frame f rest) e t hg ih =
    absurd (omega (arith, length-append buf more))
resume-continue m (suc g) buf more next (Round.frame f rest) e t hg ih =
    drain-extend m (suc g) buf more (Round.frame f rest) e (λ w. cc)
    ∙ ap (before f) (ih rest t g (omega (arith, length-append buf more, length-append rest more)))
    ∙ before-continue m more f (next rest)

pub drain-append :
    (m f g : ℕ) (buf more : List ℕ)
    → length buf ≤ f
    → length (buf ++ more) ≤ g
    → drain m g (buf ++ more) ≡ continue m more (drain m f buf)
unfolding drain
drain-append m zero g buf more hf hg =
    resume-continue m g buf more (λ _. panic) (round m buf) refl (round-Takes m buf) hg
      (λ rest t k hk. absurd (omega arith))
drain-append m (suc f) g buf more hf hg =
    resume-continue m g buf more (drain m f) (round m buf) refl (round-Takes m buf) hg
      (λ rest t k hk. drain-append m f k rest more (omega arith) hk)
