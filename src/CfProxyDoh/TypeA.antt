-- ===== src/CfProxyDoh/TypeA.antt =====
-- cf_proxy_doh.rs: which answer records are of type A.
use wrtg.Prelude.{
  ℕ, zero, suc, ◌+◌, ◌<◌, ◌≡◌, refl, sym, ap, ◌∙◌, arith, subst, Bool, true, false, not, ◌&&◌, ◌||◌,
  inl, inr, Option, none, some, [], ◌∷◌, ◌++◌, length, drop, if◌then◌else◌, Bool-cases,
  Option-cases, length-drop, drop-drop,
}
use wrtg.Prelude.Bytes.{Bytes, starts_with}
use wrtg.ClientInit.{position}
use wrtg.CfProxyDoh.{type_a, digit_next, type_a_from, record_is_type_a}

-- Somewhere stands `"type":1` with no further digit.
abbrev pub has_type_a : Bytes → Bool
has_type_a [] = false
has_type_a (c ∷ s) =
    (starts_with (c ∷ s) type_a && not (digit_next (drop 8 (c ∷ s)))) || has_type_a s

starts_with-split : (p t : Bytes) → starts_with t p ≡ true → t ≡ p ++ drop (length p) t
starts_with-split [] t h = refl
starts_with-split (d ∷ p) [] h = absurd (ground arith)
starts_with-split (d ∷ p) (c ∷ t) h = cons_eq (ground arith) (starts_with-split p t (ground arith))
  where
    cons_eq : {a b : ℕ} {u v : Bytes} → a ≡ b → u ≡ v → (a ∷ u) ≡ (b ∷ v)
    cons_eq e f = cc

-- No occurrence begins within another.
at_occurrence : (u : Bytes) → has_type_a (type_a ++ u) ≡ (not (digit_next u) || has_type_a u)
at_occurrence u = refl

not_here :
    (c : ℕ) (s : Bytes) → starts_with (c ∷ s) type_a ≡ false → has_type_a (c ∷ s) ≡ has_type_a s
not_here c s h = by_first _ _ _ h
  where
    by_first : (b x y : Bool) → b ≡ false → ((b && x) || y) ≡ y
    by_first b x y e = ground arith

abbrev Found : Bytes → Option ℕ → Type 0
Found s none = has_type_a s ≡ false
Found s (some i) =
    (has_type_a s ≡ has_type_a (drop i s)) × (starts_with (drop i s) type_a ≡ true) × (i < length s)

position-Found : (s : Bytes) → Found s (position type_a s)
unfolding position
position-Found [] = refl
position-Found (c ∷ s) = elim (Bool-cases (starts_with (c ∷ s) type_a)) [
  | inl h ↦ rw (position, h) (refl, h, omega arith)
  | inr h ↦ later h (position type_a s) (position-Found s)
]
  where
    later :
        starts_with (c ∷ s) type_a ≡ false
        → (o : Option ℕ) → Found s o
        → Found (c ∷ s) (
            if starts_with (c ∷ s) type_a
            then some 0
            else (elim o [ none ↦ none | some i ↦ some (suc i) ]))
    later h none k = rw (h) (not_here c s h ∙ k)
    later h (some i) (k, occ, l) = rw (h) (not_here c s h ∙ k, occ, omega arith)

type_a_from-reference :
    (fuel : ℕ) (hay : Bytes) → length hay < fuel → type_a_from fuel hay ≡ has_type_a hay
unfolding type_a_from
type_a_from-reference zero hay h = absurd (omega arith)
type_a_from-reference (suc fuel) hay h = elim (Option-cases (position type_a hay)) [
  | inl q ↦ rw (type_a_from, q) (sym (subst (Found hay) q (position-Found hay)))
  | inr (i, q) ↦
      let found = subst (Found hay) q (position-Found hay) in
      let u = drop (i + 8) hay in
      rw (type_a_from, q)
        (round (digit_next u) (has_type_a u) _ _
          (type_a_from-reference fuel u (omega (arith, length-drop (i + 8) hay, found.2)))
          (found.0
            ∙ ap has_type_a (starts_with-split type_a (drop i hay) found.1)
            ∙ at_occurrence (drop 8 (drop i hay))
            ∙ ap (λ v. not (digit_next v) || has_type_a v) (drop-drop i 8 hay)))
]
  where
    round :
        (digit later found rest : Bool)
        → rest ≡ later
        → found ≡ (not digit || later)
        → (if digit then rest else true) ≡ found
    round digit later found rest p q = ground arith

-- The scan of a record answers as its description does: there is an occurrence of `"type":1` that no digit follows,
-- also behind ones that a digit follows, as in `"type":16`.
pub record_is_type_a-reference : (rec : Bytes) → record_is_type_a rec ≡ has_type_a rec
unfolding record_is_type_a
record_is_type_a-reference rec = type_a_from-reference (suc (length rec)) rec (omega arith)
