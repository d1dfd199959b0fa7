-- ===== src/Cooldown429/Escalation.antt =====
-- Repeated failures of one key in cooldown429.rs.
use wrtg.Prelude.{
  ℕ, suc, ◌+◌, ◌-◌, ◌*◌, ◌^◌, ◌≤◌, ◌<◌, ◌≡◌, refl, ap, ◌∙◌, min, false, Option, none, some, List,
  [], ◌∷◌, arith, if◌then◌else◌, length, All,
}
use wrtg.Prelude.Eq.{ℕ_eq, list_eq, ◌=?◌, =?_refl}
use wrtg.Prelude.Map
use wrtg.Prelude.Bytes.{Bytes, is_empty}
use wrtg.Prelude.Durations.{unwrap_or}
use wrtg.Cooldown429.{
  CooldownState, Settings, Cooldowns, default_state, duration_max, u32_max, lapsed, next_delay,
  normalize, remaining, mark_for,
}
use wrtg.Cooldown429.Backoff.{next_delay_lem}

-- The state that a failure leaves behind.
abbrev pub struck : Settings → CooldownState → ℕ → ℕ → CooldownState
struck c prev retry_after now = record {
  until = some (now + next_delay c prev retry_after now);
  strikes = if lapsed c.max prev now then 1 else min (prev.strikes + 1) u32_max;
}

pub get-mark_for :
    (c : Settings) (m : Cooldowns) (key : Bytes) (retry_after now : ℕ) (k : Bytes)
    → is_empty (normalize key) ≡ false
    → Map.get (mark_for c m key retry_after now now now) k ≡ (
        if normalize key =? k
        then some (struck c (unwrap_or (Map.get m (normalize key)) default_state) retry_after now)
        else Map.get m k)
unfolding mark_for
get-mark_for c m key retry_after now k h = rw h (Map.get-insert m (normalize key) _ k)

abbrev pub left : Option CooldownState → ℕ → ℕ
left none now = 0
left (some state) now = elim state.until [ none ↦ 0 | some until ↦ until - now ]

pub remaining-left :
    (c : Settings) (m : Cooldowns) (key : Bytes) (now later : ℕ)
    → is_empty (normalize key) ≡ false
    → (remaining c m key now later).1 ≡ left (Map.get m (normalize key)) now
unfolding remaining
remaining-left c m key now later h = ground arith

-- A failure at `now` is felt for exactly the delay chosen for it, under every spelling of the key
-- that normalizes to the same text, and the state of every other key stays as it was.
pub remaining-mark_for :
    (c : Settings) (m : Cooldowns) (key key' k : Bytes) (retry_after now asked later : ℕ)
    → is_empty (normalize key) ≡ false
    → normalize key' ≡ normalize key
    → (normalize key =? k) ≡ false
    → ((remaining c (mark_for c m key retry_after now now now) key' asked later).1
        ≡ now
          + next_delay c (unwrap_or (Map.get m (normalize key)) default_state) retry_after now
          - asked)
      × (Map.get (mark_for c m key retry_after now now now) k ≡ Map.get m k)
remaining-mark_for c m key key' k retry_after now asked later h same ne = (
  rw
      (
        remaining-left c (mark_for c m key retry_after now now now) key' asked later (rw same h),
        same,
        get-mark_for c m key retry_after now (normalize key) h,
        =?_refl (normalize key),
      )
      refl,
  rw (get-mark_for c m key retry_after now k h, ne),
)

-- One attempt that fails: the key is looked at, dialled and marked, with no `Retry-After`.
pub attempt : Settings → Cooldowns → Bytes → ℕ → Cooldowns
attempt c m key now = mark_for c (remaining c m key now now).0 key 0 now now now

abbrev until_of : Option CooldownState → ℕ
until_of none = 0
until_of (some state) = unwrap_or state.until 0

-- Attempts that all fail, each a gap after the cooldown of the one before has run out. The result
-- has the time of the last attempt.
pub storm : Settings → Cooldowns → Bytes → ℕ → List ℕ → Cooldowns × ℕ
unfolding attempt
storm c m key now [] = (attempt c m key now, now)
storm c m key now (gap ∷ gaps) =
    let m' = attempt c m key now in
    storm c m' key (until_of (Map.get m' (normalize key)) + gap) gaps

-- A look at a key that is not yet forgotten changes nothing.
remaining-keeps :
    (c : Settings) (m : Cooldowns) (key : Bytes) (now : ℕ) (u s : ℕ)
    → Map.get m (normalize key) ≡ some (record { until = some u; strikes = s })
    → now ≤ u + c.max
    → (remaining c m key now now).0 ≡ m
unfolding remaining
remaining-keeps c m key now u s e h = ground arith

get-attempt :
    (c : Settings) (m : Cooldowns) (key : Bytes) (now u s : ℕ)
    → c.max ≤ duration_max
    → is_empty (normalize key) ≡ false
    → Map.get m (normalize key) ≡ some (record { until = some u; strikes = s })
    → now ≤ u + c.max
    → s < u32_max
    → Map.get (attempt c m key now) (normalize key)
      ≡ some (record { until = some (now + min (c.base * 2 ^ s) c.max); strikes = s + 1 })
unfolding attempt
get-attempt c m key now u s fits h e soon few =
    rw
      (
        remaining-keeps c m key now u s e soon,
        get-mark_for c m key 0 now (normalize key) h,
        =?_refl (normalize key),
        e,
        next_delay_lem c (record { until = some u; strikes = s }) 0 now fits,
      )
      (unfold lapsed in ground arith)

storm-cons :
    (c : Settings) (m : Cooldowns) (key : Bytes) (now gap : ℕ) (gaps : List ℕ) (u s : ℕ)
    → Map.get (attempt c m key now) (normalize key) ≡ some (record { until = some u; strikes = s })
    → storm c m key now (gap ∷ gaps) ≡ storm c (attempt c m key now) key (u + gap) gaps
unfolding storm
storm-cons c m key now gap gaps u s e =
    ap (λ o. storm c (attempt c m key now) key (until_of o + gap) gaps) e

storm_strikes :
    (c : Settings) (m : Cooldowns) (key : Bytes) (now u s : ℕ) (gaps : List ℕ)
    → c.max ≤ duration_max
    → is_empty (normalize key) ≡ false
    → Map.get m (normalize key) ≡ some (record { until = some u; strikes = s })
    → now ≤ u + c.max
    → All (λ gap. gap ≤ c.max) gaps
    → s + length gaps < u32_max
    → Map.get (storm c m key now gaps).0 (normalize key)
      ≡ some (record {
        until = some ((storm c m key now gaps).1 + min (c.base * 2 ^ (s + length gaps)) c.max);
        strikes = s + length gaps + 1;
      })
unfolding storm
storm_strikes c m key now u s [] fits h e soon close few =
    ground (arith, get-attempt c m key now u s fits h e soon (omega arith))
storm_strikes c m key now u s (gap ∷ gaps) fits h e soon (near, close) few =
    let delay : ℕ = min (c.base * 2 ^ s) c.max in
    let step = get-attempt c m key now u s fits h e soon (omega arith) in
    let shift : s + suc (length gaps) ≡ s + 1 + length gaps = omega arith in
    rw (storm-cons c m key now gap gaps (now + delay) (s + 1) step, shift)
      (storm_strikes c (attempt c m key now) key (now + delay + gap) (now + delay) (s + 1) gaps fits
        h step (omega arith) close (omega arith))

get-attempt_first :
    (c : Settings) (m : Cooldowns) (key : Bytes) (now : ℕ)
    → c.max ≤ duration_max
    → is_empty (normalize key) ≡ false
    → Map.get m (normalize key) ≡ none
    → Map.get (attempt c m key now) (normalize key)
      ≡ some (record { until = some (now + min c.base c.max); strikes = 1 })
unfolding attempt
get-attempt_first c m key now fits h e =
    rw
      (
        unquestioned,
        get-mark_for c m key 0 now (normalize key) h,
        =?_refl (normalize key),
        e,
        next_delay_lem c default_state 0 now fits,
      )
      (unfold lapsed in refl)
  where
    unquestioned : (remaining c m key now now).0 ≡ m
    unquestioned = unfold remaining in ground arith

storm_first :
    (c : Settings) (m : Cooldowns) (key : Bytes) (now : ℕ) (gaps : List ℕ)
    → c.max ≤ duration_max
    → is_empty (normalize key) ≡ false
    → Map.get m (normalize key) ≡ none
    → All (λ gap. gap ≤ c.max) gaps
    → length gaps < u32_max
    → left (Map.get (storm c m key now gaps).0 (normalize key)) (storm c m key now gaps).1
      ≡ min (c.base * 2 ^ length gaps) c.max
unfolding storm
storm_first c m key now [] fits h e close few =
    rw (get-attempt_first c m key now fits h e) (omega arith)
storm_first c m key now (gap ∷ gaps) fits h e (near, close) few =
    let delay : ℕ = min c.base c.max in
    let first = get-attempt_first c m key now fits h e in
    rw
      (
        storm-cons c m key now gap gaps (now + delay) 1 first,
        storm_strikes c (attempt c m key now) key (now + delay + gap) (now + delay) 1 gaps fits h
            first (omega arith) close (omega arith),
      )
      (ground (arith, ap (λ (k : ℕ). c.base * 2 ^ k) one_more))
  where
    one_more : 1 + length gaps ≡ suc (length gaps)
    one_more = omega arith

-- A key that fails again and again backs off further each time, although every cooldown runs out
-- before the next attempt: after a first failure of an unknown key and `length gaps` more, each
-- within the maximum of the end of the cooldown before it, the cooldown that runs is the base
-- doubled `length gaps` times, or the maximum if that is less.
pub storm_escalates :
    (c : Settings) (m : Cooldowns) (key : Bytes) (now : ℕ) (gaps : List ℕ)
    → c.max ≤ duration_max
    → is_empty (normalize key) ≡ false
    → Map.get m (normalize key) ≡ none
    → All (λ gap. gap ≤ c.max) gaps
    → length gaps < u32_max
    → (remaining c
        (storm c m key now gaps).0
        key
        (storm c m key now gaps).1
        (storm c m key now gaps).1).1
      ≡ min (c.base * 2 ^ length gaps) c.max
storm_escalates c m key now gaps fits h e close few =
    remaining-left c (storm c m key now gaps).0 key (storm c m key now gaps).1
      (storm c m key now gaps).1 h
    ∙ storm_first c m key now gaps fits h e close few
