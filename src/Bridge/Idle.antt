-- ===== src/Bridge/Idle.antt =====
-- bridge.rs, `Activity` and `session_idle_timeout`: the guard that ends a session that has gone silent.
-- Times are milliseconds since the start of the session. `last t` is what `last_ms` holds at `t`: the
-- latest touch of either direction, at `moved t`, in the `width` bits of a usize. `late t` is how much
-- later than asked a sleep that begins at `t` ends.
use wrtg.Prelude.{
  ℕ, zero, suc, ◌+◌, ◌-◌, ◌*◌, ◌/◌, ◌≤◌, ◌<◌, ◌^◌, ◌%◌, true, sym, subst, ◌≡◌, refl, arith, inl,
  inr, Option, none, some, max, ltb, leb, if◌then◌else◌, Bool-cases,
}
use wrtg.Prelude.Bytes.{Bytes, trim, parse_u64}
use wrtg.Prelude.Durations.{from_secs, unwrap_or}

abbrev pub trimmed_u64 : Option Bytes → Option ℕ
trimmed_u64 none = none
trimmed_u64 (some v) = parse_u64 (trim v)

-- `WRTG_SESSION_IDLE_SEC`; zero disables the guard.
unfoldable pub session_idle_timeout : Option Bytes → Option ℕ
session_idle_timeout env =
    let secs = unwrap_or (trimmed_u64 env) 600 in if ltb 0 secs then some (from_secs secs) else none

-- `(idle.as_millis() as u64).max(1)`
unfoldable pub idle_ms : ℕ → ℕ
idle_ms idle = max (idle / 1_000_000) 1

idle_ms_pos : (idle : ℕ) → 0 < idle_ms idle
unfolding idle_ms
idle_ms_pos idle = omega arith

long : (wait t l : ℕ) → 0 < wait → leb wait (t - l) ≡ true → l + wait ≤ t
long wait t l some_wait q = ground arith

module _ (last late : ℕ → ℕ) where
  -- The loop, from `elapsed` on, on fuel: the time at which it returns.
  unfoldable pub guard_loop : ℕ → ℕ → ℕ → Option ℕ
  guard_loop zero wait elapsed = none
  guard_loop (suc fuel) wait elapsed =
      let since = elapsed - last elapsed in
      let rest = guard_loop fuel wait (elapsed + max (wait - since) 50 + late elapsed) in
      if leb wait since then some elapsed else rest

  -- The guard returns at `t`, in time and not before the session has been silent for long enough.
  abbrev Returns : ℕ → ℕ → Option ℕ → Type 0
  Returns wait bound r = (t : ℕ) × (r ≡ some t) × (last t + wait ≤ t) × (t ≤ bound)

  guard_loop-Returns :
      (n wait elapsed bound quiet slack : ℕ)
      → 0 < wait
      → ((t : ℕ) → last t ≤ quiet)
      → ((t : ℕ) → late t ≤ slack)
      → quiet + wait ≤ elapsed + 50 * n
      → elapsed ≤ bound
      → quiet + wait + 50 + slack ≤ bound
      → Returns wait bound (guard_loop (suc n) wait elapsed)
  unfolding guard_loop
  guard_loop-Returns zero wait elapsed bound quiet slack some_wait silent prompt rounds here room =
      elim (Bool-cases (leb wait (elapsed - last elapsed))) [
        | inl q ↦ (elapsed, rw q refl, ground (arith, silent elapsed), here)
        | inr q ↦ absurd (ground (arith, silent elapsed))
      ]
  guard_loop-Returns (suc n) wait elapsed bound quiet slack some_wait silent prompt rounds here
        room =
      elim (Bool-cases (leb wait (elapsed - last elapsed))) [
        | inl q ↦ (elapsed, rw q refl, ground (arith, silent elapsed), here)
        | inr q ↦ rw q (
            guard_loop-Returns n wait
              (elapsed + max (wait - (elapsed - last elapsed)) 50 + late elapsed) bound quiet slack
              some_wait silent prompt (ground arith)
              (ground (arith, silent elapsed, prompt elapsed)) room)
      ]

  guard_loop-silent :
      (fuel wait elapsed t : ℕ)
      → 0 < wait
      → guard_loop fuel wait elapsed ≡ some t
      → last t + wait ≤ t
  unfolding guard_loop
  guard_loop-silent zero wait elapsed t some_wait e = absurd (ground arith)
  guard_loop-silent (suc fuel) wait elapsed t some_wait e =
      elim (Bool-cases (leb wait (elapsed - last elapsed))) [
        | inl q ↦ let here : elapsed ≡ t = ground (arith, q, e) in ended here q
        | inr q ↦
            guard_loop-silent fuel wait
              (elapsed + max (wait - (elapsed - last elapsed)) 50 + late elapsed) t some_wait
              (ground (arith, q, e))
      ]
    where
      ended : elapsed ≡ t → leb wait (elapsed - last elapsed) ≡ true → last t + wait ≤ t
      ended here q =
          subst (λ x. last x + wait ≤ x) here (long wait elapsed (last elapsed) some_wait q)

-- `elapsed().as_millis() as usize`
unfoldable pub touch : ℕ → ℕ → ℕ
touch width elapsed = elapsed % 2 ^ width

small : (x n : ℕ) → x < n → x % n ≡ x
small x n h = grind arith

touch_small : (width t : ℕ) → t < 2 ^ width → touch width t ≡ t
unfolding touch
touch_small width t h = small t (2 ^ width) h

module _ (width : ℕ) (moved late : ℕ → ℕ) where
  -- A guard that is disabled never returns.
  unfoldable pub idle_reached : ℕ → Option ℕ → ℕ → Option ℕ
  idle_reached fuel none elapsed = none
  idle_reached fuel (some idle) elapsed =
      guard_loop (λ t. touch width (moved t)) late fuel (idle_ms idle) elapsed

  -- The guard returns by `bound`, when no payload has moved for the time `wait`.
  abbrev pub Ends : ℕ → ℕ → Option ℕ → Type 0
  Ends wait bound r = (t : ℕ) × (r ≡ some t) × (moved t + wait ≤ t) × (t ≤ bound)

  -- A session in which no payload moves after `quiet` is ended: the guard, which looks at the clock at
  -- `elapsed` and after each sleep, returns, at the latest 50 milliseconds and the lateness of one
  -- sleep after the idle time has passed since `quiet`, and not before the idle time has passed since
  -- the last payload. `quiet` fits in a usize.
  pub idle_reached_lem :
      (n idle elapsed quiet slack : ℕ)
      → ((t : ℕ) → moved t ≤ quiet)
      → quiet < 2 ^ width
      → ((t : ℕ) → late t ≤ slack)
      → quiet + idle_ms idle ≤ elapsed + 50 * n
      → Ends
          (idle_ms idle)
          (max elapsed (quiet + idle_ms idle + 50 + slack))
          (idle_reached (suc n) (some idle) elapsed)
  unfolding idle_reached
  idle_reached_lem n idle elapsed quiet slack silent fits prompt rounds =
      let (t, e, long, soon) =
        guard_loop-Returns (λ t. touch width (moved t)) late n (idle_ms idle) elapsed
          (max elapsed (quiet + idle_ms idle + 50 + slack)) quiet slack (idle_ms_pos idle)
          (λ t. subst (λ x. x ≤ quiet) (sym (same t)) (silent t)) prompt rounds (omega arith)
          (omega arith) in
      (t, e, subst (λ x. x + idle_ms idle ≤ t) (same t) long, soon)
    where
      same : (t : ℕ) → touch width (moved t) ≡ moved t
      same t = touch_small width (moved t) (omega (arith, silent t, fits))

  -- A session that stays active is not ended: whenever payload moves and however late the sleeps end,
  -- the guard returns only at an instant before which no payload has moved for the whole idle time,
  -- as long as the age of the session fits in a usize.
  pub idle_reached_silent :
      (fuel idle elapsed t : ℕ)
      → ((u : ℕ) → moved u ≤ u)
      → idle_reached fuel (some idle) elapsed ≡ some t
      → t < 2 ^ width
      → moved t + idle_ms idle ≤ t
  unfolding idle_reached
  idle_reached_silent fuel idle elapsed t past e fits =
      subst (λ x. x + idle_ms idle ≤ t) (touch_small width (moved t) (omega (arith, past t, fits)))
        (guard_loop-silent (λ u. touch width (moved u)) late fuel (idle_ms idle) elapsed t
          (idle_ms_pos idle) e)
