-- ===== src/Watchdog.antt =====
-- crates/wrtg/src/watchdog.rs: the loop that accepts connections, bounded by a semaphore.
-- The loop and the connections that it serves run side by side, so a step is one of either. A stretch of
-- the loop ends where it waits: for a permit, or for `accept`, whose outcome it then deals with. The
-- semaphore is never closed in the program.
pub mod Bounds
mod Examples
use wrtg.Prelude.{
  ℕ, suc, ◌+◌, ◌*◌, ◌<◌, min, Bool, true, false, Option, none, some, leb, if◌then◌else◌, ◌^◌,
}
use wrtg.Prelude.Bytes.{Bytes, trim, parse_uint}
use wrtg.Prelude.Durations.{from_secs, from_millis, env_positive, unwrap_or}

abbrev pub accept_error_backoff : ℕ
accept_error_backoff = from_millis 200

abbrev pub rebind_after_errors : ℕ
rebind_after_errors = 5

abbrev pub rebind_max_backoff : ℕ
rebind_max_backoff = from_secs 30

-- From `WRTG_MAX_CONNS`, on a machine of 64 bits.
unfoldable pub max_conns : Option Bytes → ℕ
max_conns env = unwrap_or (env_positive env) 1024

-- `active` is the number of permits that connections hold, `holding` whether the loop holds one.
pub record Serving : Type 0 where
  pub active : ℕ
  pub holding : Bool
  pub errors : ℕ
  pub rebind_backoff : ℕ

unfoldable pub serving : Serving
serving = record { active = 0; holding = false; errors = 0; rebind_backoff = accept_error_backoff }

-- What `accept` gives, and what a rebind would.
pub data Accept : Type 0 where
  accepted : Accept
  failed : Bool → Accept

-- The body of the loop behind `accept`: the new state, and how long the loop sleeps.
unfoldable pub on_accept : Serving → Accept → Serving × ℕ
on_accept s accepted = (
  record { active = suc s.active; holding = false; errors = 0; rebind_backoff = s.rebind_backoff },
  0,
)
on_accept s (failed rebound) =
    let errors = s.errors + 1 in
    if leb rebind_after_errors errors
    then if rebound
      then (
        record {
          active = s.active;
          holding = false;
          errors = 0;
          rebind_backoff = accept_error_backoff;
        },
        accept_error_backoff,
      )
      else (
        record {
          active = s.active;
          holding = false;
          errors = rebind_after_errors;
          rebind_backoff = min (s.rebind_backoff * 2) rebind_max_backoff;
        },
        accept_error_backoff + s.rebind_backoff,
      )
    else (
      record {
        active = s.active;
        holding = false;
        errors = errors;
        rebind_backoff = s.rebind_backoff;
      },
      accept_error_backoff,
    )

-- A permit is free where fewer than `cap` are out.
pub data Step (cap : ℕ) : Serving → Serving → Type 0 where
  acquires :
      (active errors backoff : ℕ)
      → active < cap
      → Step cap
          (record { active = active; holding = false; errors = errors; rebind_backoff = backoff })
          (record { active = active; holding = true; errors = errors; rebind_backoff = backoff })
  accepts :
      (active errors backoff : ℕ) (outcome : Accept)
      → Step cap
          (record { active = active; holding = true; errors = errors; rebind_backoff = backoff })
          (on_accept
            (record { active = active; holding = true; errors = errors; rebind_backoff = backoff })
            outcome).0
  ends :
      (active : ℕ) (holding : Bool) (errors backoff : ℕ)
      → Step cap
          (record {
            active = suc active;
            holding = holding;
            errors = errors;
            rebind_backoff = backoff;
          })
          (record { active = active; holding = holding; errors = errors; rebind_backoff = backoff })

pub data Reachable (cap : ℕ) : Serving → Type 0 where
  starts : Reachable cap serving
  steps : (s t : Serving) → Reachable cap s → Step cap s t → Reachable cap t
