-- ===== src/CfProxy/Examples.antt =====
-- cf_proxy.rs: a zone over its limit.
use wrtg.Prelude.{ℕ, ◌≡◌, refl, arith, true, false, Option, none, []}
use wrtg.Prelude.Int.{pos}
use wrtg.Prelude.Map
use wrtg.Prelude.Bytes.{Bytes, bytes, lowercase, trim, trim_start, trim_end}
use wrtg.Prelude.Durations.{from_secs}
use wrtg.Prelude.Results.{Result, ok, err}
use wrtg.Ws.Error.{WsConnectError, handshake, http_status, is_ws_http_status, retry_after_from_err}
use wrtg.Cooldown429.{Settings, Cooldowns, normalize, remaining, next_delay}
use wrtg.CfProxy.{
  cf_connect_domain, connect_hosts, connect_cf_proxy_ws, cf_proxy_hosts, in_cooldown,
  try_cf_proxy_domain,
}
use wrtg.CfProxy.Cooling.{try_cf_proxy_domain_cools}

abbrev proxy_settings : Settings
proxy_settings = record { base = from_secs 45; max = from_secs 300 }

abbrev rate_limited : WsConnectError
rate_limited = handshake (record { status_code = 429; status_line = []; headers = [] })

abbrev over_limit : Bytes → Bytes → Result WsConnectError ℕ
over_limit dial_host sni_host = err rate_limited

abbrev answers : Bytes → Bytes → Result WsConnectError ℕ
answers dial_host sni_host = ok 7

abbrev no_answer : Bytes → Option Bytes
no_answer host = none

abbrev zone : Bytes
zone = bytes "p.dev"

abbrev after : Cooldowns
after = (try_cf_proxy_domain proxy_settings over_limit no_answer true [] zone (pos 2) true 5 6).0

try_cf_proxy_domain_cools_example :
    ((try_cf_proxy_domain proxy_settings over_limit no_answer true [] zone (pos 2) true 5 6).1
      ≡ err rate_limited)
    × ((try_cf_proxy_domain proxy_settings answers no_answer true after zone
          (pos 4)
          false
          (from_secs 45)
          (from_secs 46)).1
        ≡ err in_cooldown)
unfolding normalize trim trim_start trim_end remaining connect_cf_proxy_ws cf_proxy_hosts
    connect_hosts cf_connect_domain is_ws_http_status http_status next_delay retry_after_from_err
    lowercase Map.get
try_cf_proxy_domain_cools_example =
    try_cf_proxy_domain_cools proxy_settings [] zone over_limit answers no_answer no_answer true
      (pos 2) (pos 4) true false rate_limited 5 6 (from_secs 45) (from_secs 46) refl refl refl refl
      (omega arith)
