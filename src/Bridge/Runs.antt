-- ===== src/Bridge/Runs.antt =====
-- bridge.rs and main.rs: sessions while WebSockets time out, and a race.
use wrtg.Prelude.{
  ℕ, ◌≡◌, ◌≤◌, refl, arith, Bool, true, false, not, List, [], ◌∷◌, none, some, replicate, ltb, ◌==◌,
  ◌&&◌, ◌+◌, min, max,
}
use wrtg.Prelude.Int.{pos}
use wrtg.Prelude.Map
use wrtg.Prelude.Eq.{ℕ_eq, list_eq, ◌=?◌}
use wrtg.Prelude.Bytes.{Bytes, bytes}
use wrtg.Cipher.Sample.{sample}
use wrtg.ClientInit.{Read, got, ended}
use wrtg.Mtproto.Routing.{default_routes, ws_target_ip, dc_front_ip, front_applies_to_dc}
use wrtg.Mtproto.Handshake.{
  valid_dc, generate_relay_init, is_reserved, relay_init_of, tail_plain, xor_bytes, key_of, iv_of,
  proto_tag_for,
}
use wrtg.Mtproto.Crypto.{CryptoCtx, build_direct, reversed_key, reversed_key_iv, reversed_iv}
use wrtg.IpFail.{should_skip_direct_ws, cooldown}
use wrtg.Bridge.Direct.{try_ws_bridge}
use wrtg.Bridge.Direct.Skips.{is_connected, try_ws_bridge_skips}
use wrtg.Bridge.Direct.Late.{attempts_late}
use wrtg.Bridge.Fallback.{race}
use wrtg.Bridge.Fallback.Race.{Won, opened, race_lem}
use wrtg.Bridge.Idle.{
  idle_ms, idle_reached, guard_loop, touch, Ends, idle_reached_lem, idle_reached_silent,
}
use wrtg.Bridge.Passthrough.{blind_relay}
use wrtg.Bridge.Passthrough.Dials.{IsSafe, blind_relay-IsSafe}
use wrtg.Media.{http_front_passthrough_payload}
use wrtg.DcLearn.{lookup}
use wrtg.Fronting
use wrtg.Bridge.Session.{prepare, resolve_dc, handle_handshake}
use wrtg.Bridge.Connection.{handle_conn}
use wrtg.Bridge.Connection.Kept.{Served, handle_conn_kept}
use wrtg.Bridge.Connection.Reaches.{is_carried, handle_handshake_reaches}
use wrtg.Bridge.Setting.{unset, started, blocked, proxies, tcp_only, ws_clock, readings, hello}

abbrev target : Bytes
target = ws_target_ip default_routes (pos 2) []

try_ws_bridge_skips_example :
    (should_skip_direct_ws
      (try_ws_bridge unset blocked ws_clock started (pos 2) false []).0.fails
      target
      (pos 2)
      9).1
    ≡ (not (is_connected (try_ws_bridge unset blocked ws_clock started (pos 2) false []).1)
        && (attempts_late unset blocked ws_clock target
              (pos 2)
              false
              started.fails
              started.fronting_fail
            && ltb 9 (8 + cooldown unset.ip)))
unfolding ws_target_ip dc_front_ip front_applies_to_dc Map.get default_routes
try_ws_bridge_skips_example =
    try_ws_bridge_skips unset blocked ws_clock started (pos 2) false [] 9 refl (omega arith)
      (omega arith)

abbrev finished : List (Bytes × (ℕ × ℕ))
finished = (bytes "a.dev", (5, 6)) ∷ (bytes "b.dev", (5, 7)) ∷ []

abbrev is_first : ℕ → Bool
is_first ws = ws == 1

race_lem_example :
    Won unset.proxy proxies
      (pos 2)
      false
      is_first
      (race unset.proxy proxies (pos 2) false [] finished)
      (opened unset.proxy proxies (pos 2) false [] finished)
race_lem_example = race_lem unset.proxy proxies (pos 2) false is_first [] finished

abbrev request : List Read
request = got (bytes "GET / HTTP/1.1") ∷ got (13 ∷ 10 ∷ 13 ∷ 10 ∷ []) ∷ ended ∷ []

handle_conn_kept_example :
    Served sample unset tcp_only readings request (
      handle_conn sample unset tcp_only readings started none
        (bytes "149.154.167.51")
        80
        request
        [])
handle_conn_kept_example =
    handle_conn_kept sample unset tcp_only readings started none (bytes "149.154.167.51") 80 request
      []

abbrev draws : List Bytes
draws = replicate 64 9 ∷ []

abbrev ctx : CryptoCtx sample
ctx = record { clt_dec = (63, 64); clt_enc = (63, 0); tg_enc = (81, 64); tg_dec = (81, 0) }

handle_handshake_reaches_example :
    is_carried
      (handle_handshake sample unset tcp_only readings started hello []
        (bytes "149.154.167.51")
        draws).1
    ≡ true
unfolding resolve_dc prepare generate_relay_init build_direct valid_dc is_reserved relay_init_of
    tail_plain xor_bytes key_of iv_of proto_tag_for reversed_key reversed_key_iv reversed_iv
handle_handshake_reaches_example =
    handle_handshake_reaches sample unset tcp_only readings started hello []
      (bytes "149.154.167.51") draws 2 false ctx refl refl refl (λ limit. refl)

-- The addresses of datacenter 2 and 4 do not answer.
abbrev reach : Bytes → ℕ → Bool
reach ip port = not (ip =? bytes "149.154.167.51") && not (ip =? bytes "149.154.167.91")

abbrev first_bytes : Bytes
first_bytes = bytes "SSH-2.0-OpenSSH_9.6"

blind_relay-IsSafe_example :
    IsSafe 149 154 167 91 22
      (omega arith)
      (omega arith)
      (omega arith)
      (omega arith)
      reach
      22
      first_bytes
      (http_front_passthrough_payload first_bytes
        (bytes "149.154.167.51")
        (lookup started.learned (bytes "149.154.167.51"))
        22)
      (blind_relay unset
        (λ w port ip. Fronting.out_of_time)
        reach
        3
        (λ i. 4)
        5
        started
        (some (some (149 ∷ 154 ∷ 167 ∷ 91 ∷ []), 22))
        (bytes "149.154.167.51")
        22
        first_bytes).1
blind_relay-IsSafe_example =
    blind_relay-IsSafe unset (λ w port ip. Fronting.out_of_time) reach 3 (λ i. 4) 5 started 149 154
      167 91 22 (omega arith) (omega arith) (omega arith) (omega arith) (bytes "149.154.167.51") 22
      first_bytes

-- Payload moves until the first second has passed; each sleep is one millisecond late.
abbrev moved : ℕ → ℕ
moved t = min t 1000

idle_reached_lem_example :
    Ends 32 moved
      (λ t. 1)
      (idle_ms 5_000_000_000)
      (max 0 (1000 + idle_ms 5_000_000_000 + 50 + 1))
      (idle_reached 32 moved (λ t. 1) 201 (some 5_000_000_000) 0)
unfolding idle_ms
idle_reached_lem_example =
    idle_reached_lem 32 moved (λ t. 1) 200 5_000_000_000 0 1000 1 (λ t. omega arith) (omega arith)
      (λ t. omega arith) (omega arith)

idle_reached_silent_example : moved 6001 + idle_ms 5_000_000_000 ≤ 6001
unfolding idle_reached guard_loop touch idle_ms
idle_reached_silent_example =
    idle_reached_silent 32 moved (λ t. 1) 201 5_000_000_000 0 6001 (λ u. omega arith) refl
      (omega arith)
