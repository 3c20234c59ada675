-- ===== src/Common/Flatten.antt =====
-- Lists of chunks, one after the other.
use mathlib.Core.Path.{◌≡◌, refl, sym, ap, ◌∙◌}
use mathlib.Core.List.{List, [], ◌∷◌, ◌++◌, append-nil, append_assoc, flatten}
use Prim.Native.Nat.{ℕ}

pub flatten-append : (xs ys : List (List ℕ)) → flatten (xs ++ ys) ≡ flatten xs ++ flatten ys
unfolding flatten
flatten-append [] ys = refl
flatten-append (x ∷ xs) ys =
    ap (x ++◌) (flatten-append xs ys) ∙ sym (append_assoc x (flatten xs) (flatten ys))

pub flatten_one : (xs : List (List ℕ)) (x : List ℕ) → flatten (xs ++ (x ∷ [])) ≡ flatten xs ++ x
unfolding flatten
flatten_one xs x = flatten-append xs (x ∷ []) ∙ ap (flatten xs ++◌) (append-nil x)
