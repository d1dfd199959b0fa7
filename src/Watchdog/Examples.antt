-- ===== src/Watchdog/Examples.antt =====
-- watchdog.rs: one connection, and an error behind it.
use wrtg.Prelude.{true, false}
use wrtg.Watchdog.{Serving, failed, on_accept, accept_error_backoff}

abbrev one_held : Serving
one_held = record { active = 0; holding = true; errors = 0; rebind_backoff = accept_error_backoff }

abbrev after_error : Serving
after_error = (on_accept one_held (failed false)).0
