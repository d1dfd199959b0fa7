-- ===== src/Prelude/Bits.antt =====
-- Laws of the bit operations: exclusive or at every width, masks on one byte.
use Prim.Native.Nat.{
  ℕ, zero, suc, ◌+◌, ◌*◌, ◌/◌, ◌%◌, ◌^◌, ◌≤◌, ◌<◌, bit_and, bit_or, bit_xor, digits, bitwise,
  bit_xor-bitwise, differ,
}
use mathlib.Core.Path.{◌≡◌, refl, ap, ◌∙◌}
use mathlib.Core.Bool.{Bool, true, ◌&&◌}
use native.Mathlib.Nat.{le_refl, pow-suc}
use native.Mathlib.Omega.{arith}
use wrtg.Prelude.Tests.{◌==◌, ==_iff}

-- Fuel beyond the number of the digits changes nothing.
spare_fuel :
    (x y f g : ℕ) → x ≤ f → x ≤ g → digits (λ d. d) differ g x y ≡ digits (λ d. d) differ f x y
spare_fuel zero y zero zero hf hg = refl
spare_fuel zero y zero (suc g) hf hg = refl
spare_fuel zero y (suc f) zero hf hg = refl
spare_fuel zero y (suc f) (suc g) hf hg = refl
spare_fuel (suc x) y zero g hf hg = absurd (omega arith)
spare_fuel (suc x) y (suc f) zero hf hg = absurd (omega arith)
spare_fuel (suc x) y (suc f) (suc g) hf hg =
    rw (spare_fuel (suc x / 2) (y / 2) f g (omega arith) (omega arith)) refl

bitwise-suc :
    (x y : ℕ)
    → bitwise (λ d. d) differ (suc x) y
      ≡ bitwise (λ d. d) differ (suc x / 2) (y / 2) * 2 + differ (suc x % 2) (y % 2)
bitwise-suc x y =
    omega (arith, spare_fuel (suc x / 2) (y / 2) (suc x / 2) x (le_refl _) (omega arith))

-- The lowest digit, by cases that `omega` reads.
xor_digit : (a b : ℕ) → a < 2 → b < 2 → differ a b ≡ (a + b) % 2
xor_digit zero zero h k = refl
xor_digit zero (suc zero) h k = refl
xor_digit (suc zero) zero h k = refl
xor_digit (suc zero) (suc zero) h k = refl
xor_digit zero (suc (suc b)) h k = absurd (omega arith)
xor_digit (suc zero) (suc (suc b)) h k = absurd (omega arith)
xor_digit (suc (suc a)) b h k = absurd (omega arith)

differ-mod : (a b : ℕ) → differ (a % 2) (b % 2) ≡ (a + b) % 2
differ-mod a b = omega (arith, xor_digit (a % 2) (b % 2) (omega arith) (omega arith))

pub bit_xor_step : (a b : ℕ) → bit_xor a b ≡ bit_xor (a / 2) (b / 2) * 2 + (a + b) % 2
bit_xor_step zero b = simp bit_xor-bitwise (omega arith)
bit_xor_step (suc a) b = omega (arith, xor_suc, differ-mod (suc a) b)
  where
    xor_suc : bit_xor (suc a) b ≡ bit_xor (suc a / 2) (b / 2) * 2 + differ (suc a % 2) (b % 2)
    xor_suc = simp bit_xor-bitwise (bitwise-suc a b)

-- The half of an exclusive or, and its parity.
bit_xor_half : (a b : ℕ) → bit_xor a b / 2 ≡ bit_xor (a / 2) (b / 2)
bit_xor_half a b = omega (arith, bit_xor_step a b)

comm_fuel : (n a b : ℕ) → a + b ≤ n → bit_xor a b ≡ bit_xor b a
comm_fuel n zero zero h = refl
comm_fuel zero zero (suc b) h = absurd (omega arith)
comm_fuel zero (suc a) b h = absurd (omega arith)
comm_fuel (suc n) zero (suc b) h = omega (
  arith,
  bit_xor_step 0 (suc b),
  bit_xor_step (suc b) 0,
  comm_fuel n (0 / 2) (suc b / 2) (omega arith),
)
comm_fuel (suc n) (suc a) b h = omega (
  arith,
  bit_xor_step (suc a) b,
  bit_xor_step b (suc a),
  comm_fuel n (suc a / 2) (b / 2) (omega arith),
)

pub bit_xor_comm : (a b : ℕ) → bit_xor a b ≡ bit_xor b a
bit_xor_comm a b = comm_fuel (a + b) a b (le_refl _)

assoc_step :
    (a b c : ℕ)
    → bit_xor (bit_xor (a / 2) (b / 2)) (c / 2) ≡ bit_xor (a / 2) (bit_xor (b / 2) (c / 2))
    → bit_xor (bit_xor a b) c ≡ bit_xor a (bit_xor b c)
assoc_step a b c ih = omega (
  arith,
  bit_xor_step (bit_xor a b) c,
  bit_xor_step a (bit_xor b c),
  bit_xor_step a b,
  bit_xor_step b c,
  ap (λ t. bit_xor t (c / 2)) (bit_xor_half a b),
  ap (bit_xor (a / 2)) (bit_xor_half b c),
  ih,
)

assoc_fuel : (n a b c : ℕ) → a + b + c ≤ n → bit_xor (bit_xor a b) c ≡ bit_xor a (bit_xor b c)
assoc_fuel n zero zero zero h = refl
assoc_fuel zero zero zero (suc c) h = absurd (omega arith)
assoc_fuel zero zero (suc b) c h = absurd (omega arith)
assoc_fuel zero (suc a) b c h = absurd (omega arith)
assoc_fuel (suc n) zero zero (suc c) h =
    assoc_step 0 0 (suc c) (assoc_fuel n (0 / 2) (0 / 2) (suc c / 2) (omega arith))
assoc_fuel (suc n) zero (suc b) c h =
    assoc_step 0 (suc b) c (assoc_fuel n (0 / 2) (suc b / 2) (c / 2) (omega arith))
assoc_fuel (suc n) (suc a) b c h =
    assoc_step (suc a) b c (assoc_fuel n (suc a / 2) (b / 2) (c / 2) (omega arith))

pub bit_xor_assoc : (a b c : ℕ) → bit_xor (bit_xor a b) c ≡ bit_xor a (bit_xor b c)
bit_xor_assoc a b c = assoc_fuel (a + b + c) a b c (le_refl _)

self_fuel : (n a : ℕ) → a ≤ n → bit_xor a a ≡ 0
self_fuel n zero h = refl
self_fuel zero (suc a) h = absurd (omega arith)
self_fuel (suc n) (suc a) h =
    omega (arith, bit_xor_step (suc a) (suc a), self_fuel n (suc a / 2) (omega arith))

zero_fuel : (n a : ℕ) → a ≤ n → bit_xor a 0 ≡ a
zero_fuel n zero h = refl
zero_fuel zero (suc a) h = absurd (omega arith)
zero_fuel (suc n) (suc a) h =
    omega (arith, bit_xor_step (suc a) 0, zero_fuel n (suc a / 2) (omega arith))

pub bit_xor_zero : (a : ℕ) → bit_xor a 0 ≡ a
bit_xor_zero a = zero_fuel a a (le_refl _)

-- The same mask twice gives the value back.
pub bit_xor_cancel : (a b : ℕ) → bit_xor (bit_xor a b) b ≡ a
bit_xor_cancel a b =
    bit_xor_assoc a b b ∙ ap (bit_xor a) (self_fuel b b (le_refl _)) ∙ bit_xor_zero a

pub bit_xor-lt : (k a b : ℕ) → a < 2 ^ k → b < 2 ^ k → bit_xor a b < 2 ^ k
bit_xor-lt zero zero zero ha hb = omega arith
bit_xor-lt zero zero (suc b) ha hb = absurd (omega arith)
bit_xor-lt zero (suc a) b ha hb = absurd (omega arith)
bit_xor-lt (suc k) a b ha hb = omega (
  arith,
  pow-suc 2 k,
  bit_xor_step a b,
  bit_xor-lt k (a / 2) (b / 2) (omega (arith, pow-suc 2 k)) (omega (arith, pow-suc 2 k)),
)

-- Two functions that agree at every argument below a bound, by evaluation.
module _ (f g : ℕ → ℕ) where
  unfoldable pub agree : ℕ → Bool
  agree zero = true
  agree (suc limit) = agree limit && f limit == g limit

  pub table : (limit x : ℕ) → agree limit ≡ true → x < limit → f x ≡ g x
  unfolding agree
  table zero x t h = absurd (omega arith)
  table (suc limit) x t h = ground (arith, table limit x, ==_iff (f limit) (g limit), t, h)

pub low_seven : (b : ℕ) → b < 256 → bit_and b 0x7f ≡ b % 128
unfolding agree
low_seven b h = table (λ x. bit_and x 0x7f) (λ x. x % 128) 256 b refl h

pub top_bit : (b : ℕ) → b < 256 → bit_and b 0x80 ≡ b / 128 * 128
unfolding agree
top_bit b h = table (λ x. bit_and x 0x80) (λ x. x / 128 * 128) 256 b refl h

pub low_four : (b : ℕ) → b < 256 → bit_and b 0x0f ≡ b % 16
unfolding agree
low_four b h = table (λ x. bit_and x 0x0f) (λ x. x % 16) 256 b refl h

-- The three reserved bits of a frame's first byte.
pub mid_three : (b : ℕ) → b < 256 → bit_and b 0x70 ≡ b / 16 % 8 * 16
unfolding agree
mid_three b h = table (λ x. bit_and x 0x70) (λ x. x / 16 % 8 * 16) 256 b refl h

pub set_top_bit : (b : ℕ) → b < 128 → bit_or 0x80 b ≡ 128 + b
unfolding agree
set_top_bit b h = table (bit_or 0x80) (λ x. 128 + x) 128 b refl h
