-- ===== src/TlsSni/Targets.antt =====
-- tls_sni.rs, `passthrough_targets`: where a client that is no Telegram session is passed on to.
use wrtg.Prelude.{ℕ, Bool, not, ◌&&◌, ◌||◌, Option, List, [], ◌∷◌, if◌then◌else◌, any}
use wrtg.Prelude.Int.{ℤ}
use wrtg.Prelude.Eq.{ℕ_eq, list_eq, ◌=?◌}
use wrtg.Prelude.Bytes.{Bytes, bytes, is_empty}
use wrtg.Media.{http_front_host, tls_front_host, is_blocked_media_cdn}
use wrtg.Mtproto.Routing.{add_target}
use wrtg.TlsSni.{web_blocked_ips, is_web_telegram_host, is_cdn_telegram_host}

-- The addresses of the datacenters, at the end of the list.
abbrev pub last_resort : List Bytes
last_resort =
    bytes "149.154.167.51"
    ∷ bytes "149.154.175.50"
    ∷ bytes "149.154.175.100"
    ∷ bytes "149.154.167.91"
    ∷ bytes "149.154.171.5"
    ∷ bytes "91.105.192.100"
    ∷ []

abbrev pub add_all : List Bytes → List Bytes → List Bytes
add_all out [] = out
add_all out (ip ∷ ips) = add_all (add_target out ip) ips

-- The flags that the code computes first: a name of the web or of a CDN, an address that is blocked, one
-- that serves media, and one that is fronted at its port.
abbrev pub fronted : Bytes → Option (ℤ × Bool) → ℕ → Bool
fronted orig_ip learned orig_port =
    not (is_empty (http_front_host orig_ip learned orig_port))
    || not (is_empty (tls_front_host orig_ip learned orig_port))

abbrev pub is_web_blocked : Bytes → Bool
is_web_blocked ip = any (λ b. b =? ip) web_blocked_ips

unfoldable pub passthrough_targets : Bytes → Bytes → Bytes → Option (ℤ × Bool) → ℕ → List Bytes
passthrough_targets front orig_ip host learned orig_port =
    let blocked_orig = is_web_blocked orig_ip in
    let media_cdn = is_blocked_media_cdn orig_ip in
    let by_front = fronted orig_ip learned orig_port in
    let first =
      if is_web_telegram_host host
        || (is_cdn_telegram_host host || (blocked_orig || (media_cdn || by_front)))
      then (if not (is_empty orig_ip) && (not blocked_orig && (not media_cdn && not by_front))
          then add_target (add_target [] front) orig_ip
          else add_target [] front)
      else add_target (add_target [] orig_ip) front in
    if not media_cdn && not by_front then add_all first last_resort else first
