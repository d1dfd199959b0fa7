-- ===== src/Prelude/Distinct.antt =====
-- Lists of texts in which none stands twice.
use mathlib.Core.Path.{◌≡◌, refl}
use mathlib.Core.Bool.{Bool, true, false, not, ◌&&◌, ◌||◌}
use mathlib.Core.List.{List, [], ◌∷◌, ◌++◌}
use native.Mathlib.Omega.{arith}
use wrtg.Prelude.Lists.{any}
use wrtg.Prelude.Eq.{ℕ_eq, list_eq, ◌=?◌, =?_iff}
use wrtg.Prelude.Bytes.{Bytes}

abbrev pub elem : Bytes → List Bytes → Bool
elem d = any (λ x. x =? d)

-- No domain stands twice.
abbrev pub distinct : List Bytes → Bool
distinct [] = true
distinct (d ∷ ds) = not (elem d ds) && distinct ds

pub elem-append : (d : Bytes) (xs ys : List Bytes) → elem d (xs ++ ys) ≡ (elem d xs || elem d ys)
elem-append d [] ys = refl
elem-append d (x ∷ xs) ys = ground (arith, elem-append d xs ys)

pub distinct-snoc :
    (out : List Bytes) (x : Bytes)
    → distinct out ≡ true
    → elem x out ≡ false
    → distinct (out ++ (x ∷ [])) ≡ true
distinct-snoc [] x h n = refl
distinct-snoc (d ∷ out) x h n =
    ground (arith, distinct-snoc out x, elem-append d out (x ∷ []), =?_iff x d, =?_iff d x)
