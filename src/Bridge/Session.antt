-- ===== src/Bridge/Session.antt =====
-- main.rs, `handle_handshake`: the rungs that a session with a handshake tries, in order, and the blind
-- relay behind them. `extra` is what `into_parts` gives: the bytes read past the handshake.
pub mod Routes
use wrtg.Prelude.{
  ℕ, Bool, true, false, not, ◌&&◌, ◌+◌, ◌-◌, ◌==◌, Option, none, some, List, ◌++◌, if◌then◌else◌,
}
use wrtg.Prelude.Int.{ℤ, pos, negsuc}
use wrtg.Prelude.Eq.{ℤ_eq, ◌=?◌}
use wrtg.Prelude.Bytes.{Bytes, is_empty}
use wrtg.Prelude.Results.{Result, ok, err}
use wrtg.Cipher.{Cipher}
use wrtg.Mtproto.Handshake.{HandshakeInfo, Error, generate_relay_init, proto_tag_for}
use wrtg.Mtproto.Crypto.{CryptoCtx, build_direct}
use wrtg.Mtproto.Routing.{dc_from_orig_dst, ws_redirect_blacklist_warranted, ws_target_ip}
use wrtg.WsBlacklist.{blacklist_ttl, mark_ws_blacklisted}
use wrtg.DcLearn.{learn, lookup}
use wrtg.Bridge.State.{Env, Daemon, Stat}
use wrtg.Bridge.Direct
use wrtg.Bridge.Direct.{Dialer, WsBridgeResult, should_skip_ws, try_ws_bridge}
use wrtg.Bridge.Fallback.{CfDialer, CfClock, CfBridgeResult, try_cf_fallback, try_tcp_fallback}

-- How a session goes on: over a WebSocket, over TCP to an address, or as a blind relay of the given
-- bytes; `no_draw` is where the random draws given run out.
pub data Outcome (W : Type 0) : Type 0 where
  websocket : Stat → W → Bytes → Outcome W
  tcp : Bytes → Outcome W
  blind : Bytes → Outcome W
  no_draw : Outcome W

pub record Net (W : Type 0) : Type 0 where
  pub ws : Dialer W
  pub cf : CfDialer W
  pub tcp_dial : ℕ → Bytes → Option Bool

pub record Readings : Type 0 where
  pub blacklist : ℕ
  pub skip : ℕ
  pub ws : Direct.Clock
  pub redirected : ℕ
  pub cf : CfClock
  pub tcp_started : ℕ
  pub tcp_asked : ℕ → ℕ
  pub tcp_ended : ℕ → ℕ

-- `if hs.is_media { -hs.dc } else { hs.dc }`
abbrev pub dc_index : ℤ → Bool → ℤ
dc_index dc false = dc
dc_index (pos n) true = if n == 0 then pos 0 else negsuc (n - 1)
dc_index (negsuc n) true = pos (n + 1)

-- The datacenter that the session is for, and what has been learned.
unfoldable pub resolve_dc : {W : Type 0} → Daemon W → HandshakeInfo → Bytes → Daemon W × (ℤ × Bool)
resolve_dc s hs orig_ip =
    if hs.dc_in_pkt && not (is_empty orig_ip)
    then (
      record s { learned = (learn s.learned orig_ip hs.dc hs.is_media).0 },
      (hs.dc, hs.is_media),
    )
    else if is_empty orig_ip
    then (s, (hs.dc, hs.is_media))
    else (
      s,
      elim (dc_from_orig_dst orig_ip (lookup s.learned orig_ip)) [
        | none ↦ (hs.dc, hs.is_media)
        | some entry ↦ entry
      ],
    )

module _ {W : Type 0} (env : Env) (net : Net W) (t : Readings) (orig_ip : Bytes) (initial : Bytes)
    (dc : ℤ) (is_media : Bool) where
  unfoldable pub run_tcp : Daemon W → Daemon W × Outcome W
  run_tcp s =
      let (s', got) =
        try_tcp_fallback env net.tcp_dial t.tcp_asked t.tcp_ended dc s orig_ip is_media
          t.tcp_started in
      (s', elim got [ some dst ↦ tcp dst | none ↦ blind initial ])

  abbrev pub after_cf : Daemon W × CfBridgeResult W → Daemon W × Outcome W
  after_cf (s, CfBridgeResult.bridged by ws name) = (s, websocket by ws name)
  after_cf (s, CfBridgeResult.failed) = run_tcp s

  unfoldable pub run_cf : Daemon W → Daemon W × Outcome W
  run_cf s = after_cf (try_cf_fallback env net.cf t.cf dc is_media s orig_ip)

  unfoldable pub note_redirects : Daemon W → Bool → Daemon W
  note_redirects s all_blocked =
      if all_blocked
        && ws_redirect_blacklist_warranted s.routes dc (ws_target_ip s.routes dc orig_ip)
      then record s {
        ws_blacklist =
            mark_ws_blacklisted (blacklist_ttl env.ws_blacklist_ttl_sec) s.ws_blacklist dc is_media
              t.redirected;
      }
      else s

  abbrev pub after_ws : Daemon W × WsBridgeResult W → Daemon W × Outcome W
  after_ws (s, WsBridgeResult.connected by ws name) = (s, websocket by ws name)
  after_ws (s, WsBridgeResult.failed all_blocked timed_out) = run_cf (note_redirects s all_blocked)

  unfoldable pub run_rungs : Daemon W → Daemon W × Outcome W
  run_rungs s =
      let (s', skip) = should_skip_ws s dc is_media orig_ip t.blacklist t.skip in
      if skip then run_cf s' else after_ws (try_ws_bridge env net.ws t.ws s' dc is_media orig_ip)

module _ (C : Cipher) {W : Type 0} (env : Env) (net : Net W) (t : Readings) where
  -- The relay packet and the contexts; the inner result says whether both could be made.
  unfoldable pub prepare :
      HandshakeInfo → ℤ → Bool → List Bytes → Option (Result Error (CryptoCtx C))
  prepare hs dc is_media draws =
      elim (generate_relay_init C (proto_tag_for hs.proto_int) (dc_index dc is_media) draws) [
        | none ↦ none
        | some (err e) ↦ some (err e)
        | some (ok relay_init) ↦ some (build_direct C hs.handshake relay_init)
      ]

  unfoldable pub handle_handshake :
      Daemon W → HandshakeInfo → Bytes → Bytes → List Bytes → Daemon W × Outcome W
  handle_handshake s hs extra orig_ip draws =
      let (s', (dc, is_media)) = resolve_dc s hs orig_ip in
      let initial = hs.handshake ++ extra in
      if dc =? pos 0 then (s', blind initial) else (elim (prepare hs dc is_media draws) [
        | none ↦ (s', no_draw)
        | some (err e) ↦ (s', blind initial)
        | some (ok ctx) ↦ run_rungs env net t orig_ip initial dc is_media s'
      ])
