-- ===== src/Prelude/Eq.antt =====
-- Decidable equality as an interface, with its instances for the key types of the program.
use Prim.Native.Nat.{ℕ}
use mathlib.Core.Path.{◌≡◌, refl}
use mathlib.Core.Logic.{◌↔◌}
use mathlib.Core.Bool.{Bool, true, false, ◌&&◌}
use mathlib.Core.List.{List, [], ◌∷◌}
use native.Mathlib.Omega.{arith}
use wrtg.Prelude.Tests.{◌==◌, ==_iff}
use wrtg.Prelude.Int.{ℤ, eq_ℤ, eq_ℤ_iff}

pub record Eq {ℓ} (A : Type ℓ) : Type ℓ where
  pub eqb : A → A → Bool
  pub eqb_iff : (x y : A) → (eqb x y ≡ true) ↔ (x ≡ y)

-- One test for every type that has an instance.
infix 50 ◌=?◌
abbrev pub ◌=?◌ {ℓ} : {A : Type ℓ} ⦃e : Eq A⦄ → A → A → Bool
◌=?◌ ⦃e⦄ = e.eqb

pub =?_iff {ℓ} : {A : Type ℓ} ⦃e : Eq A⦄ (a b : A) → ((a =? b) ≡ true) ↔ (a ≡ b)
=?_iff ⦃e⦄ a b = e.eqb_iff a b

pub =?_refl {ℓ} : {A : Type ℓ} ⦃e : Eq A⦄ (a : A) → (a =? a) ≡ true
=?_refl ⦃e⦄ a = (e.eqb_iff a a).1 refl

instance abbrev pub ℕ_eq : Eq ℕ
ℕ_eq = record { eqb = ◌==◌; eqb_iff = ==_iff }

instance abbrev pub ℤ_eq : Eq ℤ
ℤ_eq = record { eqb = eq_ℤ; eqb_iff = eq_ℤ_iff }

abbrev pub eq_Bool : Bool → Bool → Bool
eq_Bool true true = true
eq_Bool false false = true
eq_Bool _ _ = false

pub eq_Bool_iff : (a b : Bool) → (eq_Bool a b ≡ true) ↔ (a ≡ b)
eq_Bool_iff true true = ground arith
eq_Bool_iff true false = ground arith
eq_Bool_iff false true = ground arith
eq_Bool_iff false false = ground arith

instance abbrev pub Bool_eq : Eq Bool
Bool_eq = record { eqb = eq_Bool; eqb_iff = eq_Bool_iff }

module _ {ℓ κ} {A : Type ℓ} {B : Type κ} ⦃a : Eq A⦄ ⦃b : Eq B⦄ where
  abbrev pub eq_pair : A × B → A × B → Bool
  eq_pair (x, y) (u, v) = x =? u && y =? v

  pub eq_pair_iff : (p q : A × B) → (eq_pair p q ≡ true) ↔ (p ≡ q)
  eq_pair_iff (x, y) (u, v) = ground (arith, a.eqb_iff x u, b.eqb_iff y v)

instance abbrev pub pair_eq {ℓ κ} : {A : Type ℓ} {B : Type κ} ⦃a : Eq A⦄ ⦃b : Eq B⦄ → Eq (A × B)
pair_eq = record { eqb = eq_pair; eqb_iff = eq_pair_iff }

module _ {ℓ} {A : Type ℓ} ⦃a : Eq A⦄ where
  abbrev pub eq_list : List A → List A → Bool
  eq_list [] [] = true
  eq_list [] (y ∷ ys) = false
  eq_list (x ∷ xs) [] = false
  eq_list (x ∷ xs) (y ∷ ys) = x =? y && eq_list xs ys

  pub eq_list_iff : (xs ys : List A) → (eq_list xs ys ≡ true) ↔ (xs ≡ ys)
  eq_list_iff [] [] = ground arith
  eq_list_iff [] (y ∷ ys) = ground arith
  eq_list_iff (x ∷ xs) [] = ground arith
  eq_list_iff (x ∷ xs) (y ∷ ys) = ground (arith, a.eqb_iff x y, eq_list_iff xs ys)

instance abbrev pub list_eq {ℓ} : {A : Type ℓ} ⦃a : Eq A⦄ → Eq (List A)
list_eq = record { eqb = eq_list; eqb_iff = eq_list_iff }
