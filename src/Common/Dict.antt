-- ===== src/Common/Dict.antt =====
-- Maps from numbers as association lists, and stores of shared cells as functions.
use Prim.Native.Nat.{ℕ}
use mathlib.Core.Path.{◌≡◌, refl, subst}
use mathlib.Core.Logic.{◌≢◌, inl, inr}
use mathlib.Core.Bool.{Bool, true, false}
use mathlib.Core.List.{List, [], ◌∷◌}
use mathlib.Core.Option.{Option, none, some}
use native.Mathlib.Omega.{arith}
use h2ts.Common.Tests.{◌==◌, ==_iff, Bool-cases, if◌then◌else◌}

abbrev pub Dict {ℓ} : Type ℓ → Type ℓ
Dict V = List (ℕ × V)

-- What a store holds at an address, after a write there.
abbrev pub update {ℓ} : {A : Type ℓ} → (ℕ → A) → ℕ → A → ℕ → A
update cells i a j = if j == i then a else cells j

module _ {ℓ} {V : Type ℓ} where
  abbrev pub keys : Dict V → List ℕ
  keys [] = []
  keys ((j, v) ∷ d) = j ∷ keys d

  abbrev pub find : ℕ → Dict V → Option V
  find k [] = none
  find k ((j, v) ∷ d) = if j == k then some v else find k d

  abbrev pub has_key : ℕ → Dict V → Bool
  has_key k [] = false
  has_key k ((j, v) ∷ d) = if j == k then true else has_key k d

  -- The entry of a key is replaced where it stands, and a new one stands last.
  abbrev pub put : ℕ → V → Dict V → Dict V
  put k v [] = (k, v) ∷ []
  put k v ((j, w) ∷ d) = if j == k then (j, v) ∷ d else (j, w) ∷ put k v d

  abbrev pub remove : ℕ → Dict V → Dict V
  remove k [] = []
  remove k ((j, v) ∷ d) = if j == k then d else (j, v) ∷ remove k d

  -- What holds of each entry.
  abbrev pub Each : (ℕ → V → Type 0) → Dict V → Type 0
  Each P [] = Unit
  Each P ((j, v) ∷ d) = P j v × Each P d

  -- No key stands twice.
  abbrev pub Lacks : ℕ → Dict V → Type 0
  Lacks k [] = Unit
  Lacks k ((j, v) ∷ d) = (j ≢ k) × Lacks k d

  abbrev pub Distinct : Dict V → Type 0
  Distinct [] = Unit
  Distinct ((j, v) ∷ d) = Lacks j d × Distinct d

  pub Each-find :
      (P : ℕ → V → Type 0) (k : ℕ) (v : V) (d : Dict V) → Each P d → find k d ≡ some v → P k v
  Each-find P k v [] h e = absurd (ground arith)
  Each-find P k v ((j, w) ∷ d) h e = ground (arith, h.0, Each-find P k v d h.1)

  pub Each-remove : (P : ℕ → V → Type 0) (k : ℕ) (d : Dict V) → Each P d → Each P (remove k d)
  Each-remove P k [] h = tt
  Each-remove P k ((j, w) ∷ d) h = ground (arith, h.0, h.1, Each-remove P k d h.1)

  pub Each-put :
      (P : ℕ → V → Type 0) (k : ℕ) (v : V) (d : Dict V) → P k v → Each P d → Each P (put k v d)
  Each-put P k v [] p h = (p, tt)
  Each-put P k v ((j, w) ∷ d) p h = ground (arith, p, h.0, h.1, Each-put P k v d p h.1)

  pub Lacks-remove : (j k : ℕ) (d : Dict V) → Lacks j d → Lacks j (remove k d)
  Lacks-remove j k [] h = tt
  Lacks-remove j k ((i, w) ∷ d) h = ground (arith, h.0, h.1, Lacks-remove j k d h.1)

  pub Lacks-put : (j k : ℕ) (v : V) (d : Dict V) → k ≢ j → Lacks j d → Lacks j (put k v d)
  Lacks-put j k v [] n h = (n, tt)
  Lacks-put j k v ((i, w) ∷ d) n h = ground (arith, n, h.0, h.1, Lacks-put j k v d n h.1)

  pub Distinct-remove : (k : ℕ) (d : Dict V) → Distinct d → Distinct (remove k d)
  Distinct-remove k [] h = tt
  Distinct-remove k ((i, w) ∷ d) h =
      ground (arith, h.0, h.1, Lacks-remove i k d h.0, Distinct-remove k d h.1)

  pub Distinct-put : (k : ℕ) (v : V) (d : Dict V) → Distinct d → Distinct (put k v d)
  Distinct-put k v [] h = (tt, tt)
  Distinct-put k v ((i, w) ∷ d) h =
      ground (arith, h.0, h.1, Lacks-put i k v d, Distinct-put k v d h.1)

  pub find-put :
      (j k : ℕ) (v : V) (d : Dict V) → find j (put k v d) ≡ (if k == j then some v else find j d)
  find-put j k v [] = refl
  find-put j k v ((i, w) ∷ d) = ground (arith, find-put j k v d)

  pub find-remove_ne : (j k : ℕ) (d : Dict V) → k ≢ j → find j (remove k d) ≡ find j d
  find-remove_ne j k [] n = refl
  find-remove_ne j k ((i, w) ∷ d) n = ground (arith, n, find-remove_ne j k d n)

  pub find-Lacks : (k : ℕ) (d : Dict V) → Lacks k d → find k d ≡ none
  find-Lacks k [] h = refl
  find-Lacks k ((i, w) ∷ d) h = ground (arith, h.0, find-Lacks k d h.1)

  pub find-remove_self : (k : ℕ) (d : Dict V) → Distinct d → find k (remove k d) ≡ none
  find-remove_self k [] h = refl
  find-remove_self k ((i, w) ∷ d) h = elim (Bool-cases (i == k)) [
    | inl e ↦ rw e (find-Lacks k d (subst (λ j. Lacks j d) ((==_iff i k).0 e) h.0))
    | inr n ↦ rw (n, n) (find-remove_self k d h.1)
  ]
