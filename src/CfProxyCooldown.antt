-- ===== src/CfProxyCooldown.antt =====
-- crates/wrtg/src/cf_proxy_cooldown.rs: which proxied domains to leave alone after an HTTP 429.
use wrtg.Prelude.{ℕ, Option}
use wrtg.Prelude.Bytes.{Bytes}
use wrtg.Prelude.Durations.{from_secs, env_positive, unwrap_or}
use wrtg.Ws.Error.{WsConnectError}
use wrtg.Cooldown429
use wrtg.Cooldown429.{Settings, Cooldowns}

-- `WRTG_CFPROXY_429_COOLDOWN_SEC` and `WRTG_CFPROXY_429_MAX_COOLDOWN_SEC`.
unfoldable pub base_cooldown : Option Bytes → ℕ
base_cooldown env = from_secs (unwrap_or (env_positive env) 45)

unfoldable pub max_cooldown : Option Bytes → ℕ
max_cooldown env = from_secs (unwrap_or (env_positive env) 300)

unfoldable pub cfproxy_429 : Option Bytes → Option Bytes → Settings
cfproxy_429 base max_ = record { base = base_cooldown base; max = max_cooldown max_ }

unfoldable pub cf_proxy_cooldown_remaining : Settings → Cooldowns → Bytes → ℕ → Cooldowns × ℕ
cf_proxy_cooldown_remaining c m domain now = Cooldown429.remaining c m domain now now

unfoldable pub mark_cf_proxy_429_cooldown :
    Settings → Cooldowns → Bytes → WsConnectError → ℕ → Cooldowns
mark_cf_proxy_429_cooldown c m domain e now = Cooldown429.mark c m domain e now

unfoldable pub clear_cf_proxy_429_cooldown : Cooldowns → Bytes → Cooldowns
clear_cf_proxy_429_cooldown m domain = Cooldown429.clear m domain
