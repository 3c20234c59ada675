-- ===== src/Outcomes.antt =====
-- Postconditions of fallible code: what a success meets, and that there is no panic.
use h2ts.Common.{Bool, true, false, ◌≡◌, ◌≢◌, refl, Option, none, some}
use h2ts.Errors.{H2Error, Outcome, ok, err, panic, ◌>>=◌, ◌>>◌, reject, ok_or}

-- A success meets `P`, an error is allowed, and a panic is not.
abbrev pub Yields {ℓ} : {A : Type ℓ} → (A → Type 0) → Outcome A → Type 0
Yields P (ok a) = P a
Yields P (err e) = Unit
Yields P panic = ⊥

pub Yields-bind {ℓ μ} :
    {A : Type ℓ} {B : Type μ} (P : A → Type 0) (Q : B → Type 0) (m : Outcome A) (f : A → Outcome B)
    → Yields P m
    → ((a : A) → P a → Yields Q (f a))
    → Yields Q (m >>= f)
Yields-bind P Q (ok a) f h k = k a h
Yields-bind P Q (err e) f h k = tt
Yields-bind P Q panic f h k = absurd h

pub Yields-reject {ℓ} :
    {A : Type ℓ} (Q : A → Type 0) (b : Bool) (e : H2Error) (m : Outcome A)
    → (b ≡ false → Yields Q m)
    → Yields Q (reject b e >> m)
Yields-reject Q true e m h = tt
Yields-reject Q false e m h = h refl

pub Yields-ok_or {ℓ} :
    {A : Type ℓ} (P : A → Type 0) (o : Option A) (e : H2Error)
    → ((a : A) → o ≡ some a → P a)
    → Yields P (ok_or o e)
Yields-ok_or P (some a) e h = h a refl
Yields-ok_or P none e h = tt

pub Yields-mono {ℓ} :
    {A : Type ℓ} (P : A → Type 0) (Q : A → Type 0) (m : Outcome A)
    → Yields P m
    → ((a : A) → P a → Q a)
    → Yields Q m
Yields-mono P Q (ok a) h k = k a h
Yields-mono P Q (err e) h k = tt
Yields-mono P Q panic h k = absurd h

pub Yields-ne-panic {ℓ} : {A : Type ℓ} (P : A → Type 0) (m : Outcome A) → Yields P m → m ≢ panic
Yields-ne-panic P (ok a) h = λ e. cc
Yields-ne-panic P (err x) h = λ e. cc
Yields-ne-panic P panic h = λ e. h
