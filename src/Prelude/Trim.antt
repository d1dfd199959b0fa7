-- ===== src/Prelude/Trim.antt =====
-- Text whose ends are not white space is left as it is by `str::trim`.
use Prim.Native.Nat.{ℕ}
use mathlib.Core.Path.{◌≡◌, refl, sym, ap, ◌∙◌}
use mathlib.Core.Bool.{Bool, false}
use mathlib.Core.List.{[], ◌∷◌, ◌++◌, reverse, reverse-append, reverse-reverse}
use wrtg.Prelude.Bytes.{Bytes, is_whitespace, trim, trim_start, trim_end}

pub trim_start-kept :
    (p : ℕ → Bool) (c : ℕ) (s : Bytes) → p c ≡ false → trim_start p (c ∷ s) ≡ c ∷ s
unfolding trim_start
trim_start-kept p c s h = rw (h) refl

pub trim_end-kept :
    (p : ℕ → Bool) (s : Bytes) (d : ℕ) → p d ≡ false → trim_end p (s ++ (d ∷ [])) ≡ s ++ (d ∷ [])
unfolding trim_end
trim_end-kept p s d h =
    ap (λ t. reverse (trim_start p t)) (reverse-append s (d ∷ []))
    ∙ ap reverse (trim_start-kept p d (reverse s) h ∙ sym (reverse-append s (d ∷ [])))
    ∙ reverse-reverse (s ++ (d ∷ []))

-- Text whose ends are not white space is not trimmed.
pub trim-kept :
    (c : ℕ) (s : Bytes) (d : ℕ)
    → is_whitespace c ≡ false
    → is_whitespace d ≡ false
    → trim (c ∷ (s ++ (d ∷ []))) ≡ c ∷ (s ++ (d ∷ []))
unfolding trim
trim-kept c s d h k =
    ap (trim_end is_whitespace) (trim_start-kept is_whitespace c (s ++ (d ∷ [])) h)
    ∙ trim_end-kept is_whitespace (c ∷ s) d k
