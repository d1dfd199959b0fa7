-- ===== src/CfProxy/Cooling.antt =====
-- cf_proxy.rs: a refusal keeps the domain from being dialled for as long as it asks.
use wrtg.Prelude.{ℕ, ◌+◌, ◌<◌, ◌≡◌, refl, arith, Bool, true, false, Option, ltb}
use wrtg.Prelude.Int.{ℤ}
use wrtg.Prelude.Eq.{ℕ_eq, list_eq, =?_refl}
use wrtg.Prelude.Map
use wrtg.Prelude.Bytes.{Bytes, is_empty}
use wrtg.Prelude.Durations.{unwrap_or}
use wrtg.Prelude.Results.{Result, err}
use wrtg.Ws.Error.{WsConnectError, is_ws_http_status, retry_after_from_err}
use wrtg.Cooldown429
use wrtg.Cooldown429.{
  Settings, Cooldowns, default_state, next_delay, normalize, mark_for, remaining,
}
use wrtg.Cooldown429.Escalation.{get-mark_for, remaining-left}
use wrtg.CfProxyCooldown.{cf_proxy_cooldown_remaining, mark_cf_proxy_429_cooldown}
use wrtg.CfProxy.{connect_cf_proxy_ws, in_cooldown, settle, try_cf_proxy_domain}

module _ {W : Type 0} (c : Settings) (m : Cooldowns) (cf_domain : Bytes) where
  -- A domain that is cooling down is not dialled.
  not_dialled :
      (connect : Bytes → Bytes → Result WsConnectError W) (resolve_doh : Bytes → Option Bytes)
      (slot : Bool) (dc : ℤ) (is_media : Bool) (now done : ℕ)
      → ltb 0 (remaining c m cf_domain now now).1 ≡ true
      → (try_cf_proxy_domain c connect resolve_doh slot m cf_domain dc is_media now done).1
        ≡ err in_cooldown
  unfolding try_cf_proxy_domain cf_proxy_cooldown_remaining
  not_dialled connect resolve_doh slot dc is_media now done h = rw h refl

  -- What a 429 leaves behind.
  refused_leaves :
      (connect : Bytes → Bytes → Result WsConnectError W) (resolve_doh : Bytes → Option Bytes)
      (dc : ℤ) (is_media : Bool) (e : WsConnectError) (now done : ℕ)
      → ltb 0 (remaining c m cf_domain now now).1 ≡ false
      → connect_cf_proxy_ws connect resolve_doh cf_domain dc is_media ≡ err e
      → is_ws_http_status e 429 ≡ true
      → try_cf_proxy_domain c connect resolve_doh true m cf_domain dc is_media now done ≡ (
        mark_for c
            (remaining c m cf_domain now now).0
            cf_domain
            (retry_after_from_err e)
            done
            done
            done,
        err e,
      )
  unfolding try_cf_proxy_domain cf_proxy_cooldown_remaining mark_cf_proxy_429_cooldown
      Cooldown429.mark
  refused_leaves connect resolve_doh dc is_media e now done h refused quota =
      rw (h, refused, settle, quota) refl

-- Where a domain that was not cooling down answers an attempt with HTTP 429, the attempt reports it, and
-- until the delay of that failure has passed the next attempt fails without dialling, under
-- whatever connector, resolver, datacenter and media flag. The name of the domain is not empty.
pub try_cf_proxy_domain_cools :
    {W : Type 0} (c : Settings) (m : Cooldowns) (cf_domain : Bytes)
    (connect connect' : Bytes → Bytes → Result WsConnectError W)
    (resolve_doh resolve_doh' : Bytes → Option Bytes) (slot : Bool) (dc dc' : ℤ)
    (is_media is_media' : Bool) (e : WsConnectError) (now done asked done' : ℕ)
    → is_empty (normalize cf_domain) ≡ false
    → (remaining c m cf_domain now now).1 ≡ 0
    → connect_cf_proxy_ws connect resolve_doh cf_domain dc is_media ≡ err e
    → is_ws_http_status e 429 ≡ true
    → asked
      < done
        + next_delay c
            (unwrap_or
              (Map.get (remaining c m cf_domain now now).0 (normalize cf_domain))
              default_state)
            (retry_after_from_err e)
            done
    → ((try_cf_proxy_domain c connect resolve_doh true m cf_domain dc is_media now done).1 ≡ err e)
      × ((try_cf_proxy_domain c connect' resolve_doh' slot
            (try_cf_proxy_domain c connect resolve_doh true m cf_domain dc is_media now done).0
            cf_domain
            dc'
            is_media'
            asked
            done').1
          ≡ err in_cooldown)
try_cf_proxy_domain_cools c m cf_domain connect connect' resolve_doh resolve_doh' slot dc dc'
      is_media is_media' e now done asked done' named free refused quota h =
    rw
      (refused_leaves c m cf_domain connect resolve_doh dc is_media e now done (rw free refl)
        refused quota)
      (
        refl,
        not_dialled c marked cf_domain connect' resolve_doh' slot dc' is_media' asked done' cooling,
      )
  where
    marked : Cooldowns
    marked =
        mark_for c (remaining c m cf_domain now now).0 cf_domain (retry_after_from_err e) done done
          done

    cooling : ltb 0 (remaining c marked cf_domain asked asked).1 ≡ true
    cooling = ground (
      arith,
      h,
      remaining-left c marked cf_domain asked asked named,
      get-mark_for c (remaining c m cf_domain now now).0 cf_domain (retry_after_from_err e) done
          (normalize cf_domain) named,
      =?_refl (normalize cf_domain),
    )
