-- ===== src/IpFail.antt =====
-- crates/wrtg/src/ip_fail.rs: which addresses to skip and how long to wait for a datacenter.
-- The two static maps are a record, and the settings from the environment another.
pub mod Skipping
use wrtg.Prelude.{ℕ, Bool, true, false, not, ◌&&◌, Option, if◌then◌else◌, max}
use wrtg.Prelude.Int.{ℤ}
use wrtg.Prelude.Eq.{ℕ_eq, ℤ_eq, Bool_eq, pair_eq, list_eq}
use wrtg.Prelude.Bytes.{Bytes, is_empty}
use wrtg.Prelude.Durations.{from_secs, env_secs, unwrap_or}
use wrtg.TtlMap
use wrtg.TtlMap.{TtlMap}
use wrtg.WsBlacklist.{Blacklist, clear_ws_blacklisted}

pub record Env : Type 0 where
  pub ip_fail_cooldown_sec : Option Bytes
  pub dc_fail_cooldown_sec : Option Bytes
  pub ws_fail_timeout_sec : Option Bytes
  pub ws_fail_timeout_fast_sec : Option Bytes

pub record Fails : Type 0 where
  pub ip_fail : TtlMap (Bytes × ℤ)
  pub dc_fail : TtlMap (ℤ × Bool)

unfoldable pub cooldown : Env → ℕ
cooldown env = from_secs (unwrap_or (env_secs env.ip_fail_cooldown_sec) 3600)

unfoldable pub dc_fail_cooldown : Env → ℕ
dc_fail_cooldown env = from_secs (unwrap_or (env_secs env.dc_fail_cooldown_sec) 60)

unfoldable pub ws_timeout_normal : Env → ℕ
ws_timeout_normal env = from_secs (max (unwrap_or (env_secs env.ws_fail_timeout_sec) 5) 1)

unfoldable pub ws_timeout_fast : Env → ℕ
ws_timeout_fast env = from_secs (max (unwrap_or (env_secs env.ws_fail_timeout_fast_sec) 2) 1)

unfoldable pub mark_ip_failed : Env → Fails → Bytes → ℤ → ℕ → Fails
mark_ip_failed env s ip dc now =
    if is_empty ip
    then s
    else record s { ip_fail = (TtlMap.mark_if_absent s.ip_fail (ip, dc) (cooldown env) now).0 }

unfoldable pub clear_ip_fail : Fails → Bytes → ℤ → Fails
clear_ip_fail s ip dc =
    if is_empty ip then s else record s { ip_fail = (TtlMap.clear s.ip_fail (ip, dc)).0 }

unfoldable pub should_skip_direct_ws : Fails → Bytes → ℤ → ℕ → Fails × Bool
should_skip_direct_ws s ip dc now =
    if is_empty ip
    then (s, false)
    else (let (m, active) = TtlMap.is_active s.ip_fail (ip, dc) now in
        (record s { ip_fail = m }, active))

unfoldable pub ws_connect_timeout : Env → Fails → ℤ → Bool → ℕ → Fails × ℕ
ws_connect_timeout env s dc is_media now =
    let (m, active) = TtlMap.is_active s.dc_fail (dc, is_media) now in
    (record s { dc_fail = m }, if active then ws_timeout_fast env else ws_timeout_normal env)

unfoldable pub mark_dc_failed : Env → Fails → ℤ → Bool → ℕ → Fails
mark_dc_failed env s dc is_media now = record s {
  dc_fail = (TtlMap.mark_if_absent s.dc_fail (dc, is_media) (dc_fail_cooldown env) now).0;
}

unfoldable pub clear_dc_fail : Fails → ℤ → Bool → Fails
clear_dc_fail s dc is_media = record s { dc_fail = (TtlMap.clear s.dc_fail (dc, is_media)).0 }

unfoldable pub clear_ws_skip_state : Fails × Blacklist → Bytes → ℤ → Bool → Fails × Blacklist
clear_ws_skip_state (s, blacklist) ip dc is_media =
    (clear_dc_fail (clear_ip_fail s ip dc) dc is_media, clear_ws_blacklisted blacklist dc is_media)

unfoldable pub reset_all : Fails → Fails
reset_all s = record { ip_fail = TtlMap.clear_all s.ip_fail; dc_fail = TtlMap.clear_all s.dc_fail }
