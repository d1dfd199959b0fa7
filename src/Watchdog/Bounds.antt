-- ===== src/Watchdog/Bounds.antt =====
-- watchdog.rs: what holds however connections come, fail and end.
use wrtg.Prelude.{ℕ, ◌+◌, ◌≤◌, if◌then◌else◌}
use wrtg.Watchdog.{Serving, accept_error_backoff, rebind_after_errors, rebind_max_backoff}

abbrev pub permits : Serving → ℕ
permits s = s.active + (if s.holding then 1 else 0)

abbrev pub Bounded : ℕ → Serving → Type 0
Bounded limit s =
    (permits s ≤ limit)
    × ((s.errors ≤ rebind_after_errors)
        × ((accept_error_backoff ≤ s.rebind_backoff) × (s.rebind_backoff ≤ rebind_max_backoff)))
