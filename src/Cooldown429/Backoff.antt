-- ===== src/Cooldown429/Backoff.antt =====
-- The delay that cooldown429.rs chooses.
use native.Mathlib.Nat.{pow-suc, one-le-pow}
use wrtg.Prelude.{ℕ, zero, suc, ◌*◌, ◌^◌, ◌≤◌, ◌≡◌, ap, min, arith, ltb, if◌then◌else◌}
use wrtg.Cooldown429.{CooldownState, Settings, duration_max, lapsed, double, next_delay}

-- One strike more doubles what the strikes before it gave.
double_start : (base n : ℕ) → base * 2 ^ suc n ≡ base * 2 * 2 ^ n
double_start base n = omega (arith, ap (λ (t : ℕ). base * t) (pow-suc 2 n))

pub below_power : (d n : ℕ) → d ≤ d * 2 ^ n
below_power d n = grind (arith, one-le-pow n 2)

-- The loop that stops at the cap gives the capped power.
double_lem : (max n delay : ℕ) → max ≤ duration_max → double max n delay ≡ min (delay * 2 ^ n) max
unfolding double
double_lem max zero delay h = omega arith
double_lem max (suc n) delay h = ground (
  arith,
  double_start delay n,
  below_power (delay * 2) n,
  double_lem max n (min (delay * 2) duration_max) h,
)

-- The next delay is what the server asks for, or else the base doubled for each strike that still
-- counts, and in both cases at most the maximum; a key that has been quiet for longer than the
-- maximum starts again at the base. The maximum must fit a `Duration`.
pub next_delay_lem :
    (c : Settings) (prev : CooldownState) (retry_after now : ℕ)
    → c.max ≤ duration_max
    → next_delay c prev retry_after now
      ≡ min
          (if ltb 0 retry_after
            then retry_after
            else (if lapsed c.max prev now then c.base else c.base * 2 ^ prev.strikes))
          c.max
unfolding next_delay
next_delay_lem c prev retry_after now h =
    ground (arith, double_lem c.max 0 c.base h, double_lem c.max prev.strikes c.base h)
