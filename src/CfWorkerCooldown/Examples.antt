-- ===== src/CfWorkerCooldown/Examples.antt =====
-- cf_worker_cooldown.rs: two Workers of one account.
use wrtg.Prelude.{◌≡◌, refl, arith, true, List, [], ◌∷◌}
use wrtg.Prelude.Bytes.{
  Bytes, bytes, trim, trim_end, trim_start, lowercase, to_ascii_lowercase, split_at,
}
use wrtg.Prelude.Durations.{from_secs}
use wrtg.Ws.Error.{WsConnectError, handshake, http_status}
use wrtg.Cooldown429.{Settings, normalize}
use wrtg.CfWorkerCooldown.{Workers, worker_rate_limited, account_key, mark_worker_429_with_peers}
use wrtg.CfWorkerCooldown.Account.{mark_worker_429_with_peers_siblings}

abbrev worker_settings : Settings
worker_settings = record { base = from_secs 60; max = from_secs 900 }

abbrev none_cooling : Workers
none_cooling = record { cf_worker_429 = []; cf_worker_503 = [] }

abbrev over_quota : WsConnectError
over_quota = handshake (record { status_code = 429; status_line = []; headers = [] })

abbrev first_worker : Bytes
first_worker = bytes "a.me.workers.dev"

abbrev second_worker : Bytes
second_worker = bytes "b.me.workers.dev"

abbrev configured : List Bytes
configured = first_worker ∷ second_worker ∷ []

mark_worker_429_with_peers_siblings_example :
    ((worker_rate_limited worker_settings
        (mark_worker_429_with_peers worker_settings none_cooling first_worker over_quota configured
          5)
        first_worker
        5).1
      ≡ true)
    × ((worker_rate_limited worker_settings
          (mark_worker_429_with_peers worker_settings none_cooling first_worker over_quota
            configured 5)
          second_worker
          5).1
        ≡ true)
unfolding http_status normalize account_key trim trim_end trim_start lowercase to_ascii_lowercase
    split_at
mark_worker_429_with_peers_siblings_example =
    mark_worker_429_with_peers_siblings worker_settings first_worker over_quota
      (bytes "me.workers.dev") 5 (omega arith, omega arith, omega arith) none_cooling configured
      second_worker refl refl refl refl refl refl refl
