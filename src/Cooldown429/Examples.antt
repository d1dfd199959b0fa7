-- ===== src/Cooldown429/Examples.antt =====
-- cooldown429.rs: one domain that answers 429 again and again.
use wrtg.Prelude.{◌*◌, ◌^◌, ◌≡◌, refl, arith, min, [], ◌∷◌}
use wrtg.Prelude.Eq.{ℕ_eq, list_eq}
use wrtg.Prelude.Map
use wrtg.Prelude.Bytes.{Bytes, bytes, trim, trim_end, trim_start, lowercase, to_ascii_lowercase}
use wrtg.Prelude.Durations.{from_secs}
use wrtg.Cooldown429.{Settings, normalize, remaining}
use wrtg.Cooldown429.Escalation.{storm, storm_escalates}

abbrev proxy_settings : Settings
proxy_settings = record { base = from_secs 45; max = from_secs 300 }

abbrev host : Bytes
host = bytes "a.dev"

storm_escalates_example :
    (remaining proxy_settings
      (storm proxy_settings [] host 9 (1 ∷ 2 ∷ [])).0
      host
      (storm proxy_settings [] host 9 (1 ∷ 2 ∷ [])).1
      (storm proxy_settings [] host 9 (1 ∷ 2 ∷ [])).1).1
    ≡ min (from_secs 45 * 2 ^ 2) (from_secs 300)
unfolding normalize trim trim_end trim_start lowercase to_ascii_lowercase Map.get
storm_escalates_example =
    storm_escalates proxy_settings [] host 9 (1 ∷ 2 ∷ []) (omega arith) refl refl
      (omega arith, (omega arith, _)) (omega arith)
