-- ===== src/Cooldown429.antt =====
-- crates/wrtg/src/cooldown429.rs: a cooldown for each key, with exponential backoff.
-- The static map is an argument. `base` and `max` are constant functions in the program, and values
-- here. Where a method reads the clock more than once, each reading is an argument.
pub mod Backoff
pub mod Escalation
mod Examples
use wrtg.Prelude.{
  ℕ, zero, suc, ◌+◌, ◌-◌, ◌*◌, ◌^◌, min, Bool, true, false, Option, none, some, ltb, leb,
  if◌then◌else◌,
}
use wrtg.Prelude.Eq.{ℕ_eq, list_eq}
use wrtg.Prelude.Map
use wrtg.Prelude.Map.{Map}
use wrtg.Prelude.Bytes.{Bytes, is_empty, trim, lowercase}
use wrtg.Prelude.Durations.{unwrap_or}
use wrtg.Ws.Error.{WsConnectError, retry_after_from_err}

pub record CooldownState : Type 0 where
  pub until : Option ℕ
  pub strikes : ℕ

pub record Settings : Type 0 where
  pub base : ℕ
  pub max : ℕ

abbrev pub Cooldowns : Type 0
Cooldowns = Map Bytes CooldownState

abbrev pub default_state : CooldownState
default_state = record { until = none; strikes = 0 }

-- `Duration::MAX`, in nanoseconds.
abbrev pub duration_max : ℕ
duration_max = (2 ^ 64 - 1) * 1_000_000_000 + 999_999_999

abbrev pub u32_max : ℕ
u32_max = 2 ^ 32 - 1

-- `prev.until.is_none_or(|u| u.elapsed() > max)`; `elapsed` stops at 0.
unfoldable pub lapsed : ℕ → CooldownState → ℕ → Bool
lapsed max prev now = elim prev.until [ none ↦ true | some u ↦ ltb max (now - u) ]

-- The loop over the strikes, with the `min` behind it.
unfoldable pub double : ℕ → ℕ → ℕ → ℕ
double max zero delay = min delay max
double max (suc n) delay =
    let delay' = min (delay * 2) duration_max in
    let rest = double max n delay' in if leb max delay' then max else rest

unfoldable pub next_delay : Settings → CooldownState → ℕ → ℕ → ℕ
unfolding lapsed double
next_delay c prev retry_after now =
    if ltb 0 retry_after
    then min retry_after c.max
    else (let strikes = if lapsed c.max prev now then 0 else prev.strikes in
        double c.max strikes c.base)

unfoldable pub normalize : Bytes → Bytes
normalize key = lowercase (trim key)

-- `now` is the reading of `Instant::now()`, `later` that of `until.elapsed()`.
remaining_of : Settings → Cooldowns → Bytes → ℕ → ℕ → ℕ → Cooldowns × ℕ
remaining_of c m key until now later =
    if leb until now
    then (if ltb c.max (later - until) then Map.remove m key else m, 0)
    else (m, until - now)

unfoldable pub remaining : Settings → Cooldowns → Bytes → ℕ → ℕ → Cooldowns × ℕ
unfolding remaining_of
remaining c m key now later =
    let k = normalize key in
    if is_empty k then (m, 0) else (elim (Map.get m k) [
      | none ↦ (m, 0)
      | some state ↦ elim state.until [
        | none ↦ (m, 0)
        | some until ↦ remaining_of c m k until now later
      ]
    ])

unfoldable pub is_active : Settings → Cooldowns → Bytes → ℕ → ℕ → Cooldowns × Bool
is_active c m key now later = let (m', left) = remaining c m key now later in (m', ltb 0 left)

-- The readings are those of `next_delay`, of `expired` and of the new deadline.
unfoldable pub mark_for : Settings → Cooldowns → Bytes → ℕ → ℕ → ℕ → ℕ → Cooldowns
mark_for c m key retry_after now₁ now₂ now₃ =
    let k = normalize key in
    let prev = unwrap_or (Map.get m k) default_state in
    if is_empty k
    then m
    else Map.insert m k (record {
      until = some (now₃ + next_delay c prev retry_after now₁);
      strikes = if lapsed c.max prev now₂ then 1 else min (prev.strikes + 1) u32_max;
    })

unfoldable pub mark : Settings → Cooldowns → Bytes → WsConnectError → ℕ → Cooldowns
mark c m key err now = mark_for c m key (retry_after_from_err err) now now now

unfoldable pub clear : Cooldowns → Bytes → Cooldowns
clear m key = let k = normalize key in if is_empty k then m else Map.remove m k
