-- ===== src/CfProxy.antt =====
-- crates/wrtg/src/cf_proxy.rs: a WebSocket through a domain that Cloudflare proxies.
-- The connector, with the paths and headers it is given, and the resolver are outside, and arguments.
pub mod Cooling
mod Examples
use wrtg.Prelude.{ℕ, Bool, true, false, Option, none, some, List, [], ◌∷◌, ◌++◌, ltb, if◌then◌else◌}
use wrtg.Prelude.Int.{ℤ}
use wrtg.Prelude.Bytes.{Bytes, bytes, is_empty}
use wrtg.Prelude.Durations.{unwrap_or}
use wrtg.Prelude.Results.{Result, ok, err}
use wrtg.Ws.Error.{WsConnectError, io, tls, handshake, timeout, would_block, is_ws_http_status}
use wrtg.Cooldown429.{Settings, Cooldowns}
use wrtg.Mtproto.Routing.{folded, decimal}
use wrtg.CfProxyCooldown.{
  cf_proxy_cooldown_remaining, mark_cf_proxy_429_cooldown, clear_cf_proxy_429_cooldown,
}

unfoldable pub cf_proxy_ws_domain : Bytes → ℤ → Bool → Bytes
cf_proxy_ws_domain cf_domain dc is_media =
    let kws = bytes "kws" ++ decimal (folded dc) in
    if is_media then kws ++ (bytes "-1." ++ cf_domain) else kws ++ (bytes "." ++ cf_domain)

unfoldable pub cf_proxy_hosts : Bytes → ℤ → Bool → List Bytes
cf_proxy_hosts cf_domain dc is_media =
    let host = cf_proxy_ws_domain cf_domain dc is_media in
    if is_media then host ∷ cf_proxy_ws_domain cf_domain dc false ∷ [] else host ∷ []

-- `matches!(host_err, WsConnectError::Io(_) | WsConnectError::Timeout)`
abbrev pub is_transport : WsConnectError → Bool
is_transport (io e) = true
is_transport timeout = true
is_transport (tls e) = false
is_transport (handshake h) = false

abbrev pub in_cooldown : WsConnectError
in_cooldown = io (record { kind = would_block; message = bytes "CF proxy domain in 429 cooldown" })

abbrev pub no_slot : WsConnectError
no_slot = io (record { kind = would_block; message = bytes "CF proxy parallel slot unavailable" })

-- `connect` takes the host or address to dial, and the name for TLS and the Host header.
module _ {W : Type 0} (connect : Bytes → Bytes → Result WsConnectError W)
    (resolve_doh : Bytes → Option Bytes) where
  unfoldable pub cf_connect_domain : Bytes → Bytes → Result WsConnectError W
  cf_connect_domain dial_host sni_host = elim (connect dial_host sni_host) [
    | ok ws ↦ ok ws
    | err host_err ↦
        let resolved_ip = unwrap_or (resolve_doh dial_host) [] in
        if is_ws_http_status host_err 429
        then err host_err
        else if is_transport host_err
        then (if is_empty resolved_ip then err host_err else connect resolved_ip sni_host)
        else err host_err
  ]

  -- The loop over the hosts, with the last error.
  unfoldable pub connect_hosts : Option WsConnectError → List Bytes → Result WsConnectError W
  connect_hosts last_err [] = err (unwrap_or last_err timeout)
  connect_hosts last_err (host ∷ hosts) = elim (cf_connect_domain host host) [
    | ok ws ↦ ok ws
    | err e ↦
        let rest = connect_hosts (some e) hosts in if is_ws_http_status e 429 then err e else rest
  ]

  unfoldable pub connect_cf_proxy_ws : Bytes → ℤ → Bool → Result WsConnectError W
  connect_cf_proxy_ws cf_domain dc is_media =
      connect_hosts none (cf_proxy_hosts cf_domain dc is_media)

abbrev pub settle :
    {W : Type 0}
    → Settings
    → Cooldowns
    → Bytes
    → ℕ
    → Result WsConnectError W
    → Cooldowns × Result WsConnectError W
settle c m cf_domain done (ok ws) = (clear_cf_proxy_429_cooldown m cf_domain, ok ws)
settle c m cf_domain done (err e) =
    if is_ws_http_status e 429
    then (mark_cf_proxy_429_cooldown c m cf_domain e done, err e)
    else (m, err e)

-- `now` is the reading at the start, `done` that after the attempts; `slot` is false where the
-- semaphore is closed.
unfoldable pub try_cf_proxy_domain :
    {W : Type 0}
    → Settings
    → (Bytes → Bytes → Result WsConnectError W)
    → (Bytes → Option Bytes)
    → Bool
    → Cooldowns
    → Bytes
    → ℤ
    → Bool
    → ℕ
    → ℕ
    → Cooldowns × Result WsConnectError W
try_cf_proxy_domain c connect resolve_doh slot m cf_domain dc is_media now done =
    let (m', left) = cf_proxy_cooldown_remaining c m cf_domain now in
    if ltb 0 left
    then (m', err in_cooldown)
    else if slot
    then settle c m' cf_domain done (connect_cf_proxy_ws connect resolve_doh cf_domain dc is_media)
    else (m', err no_slot)
