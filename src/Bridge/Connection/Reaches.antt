-- ===== src/Bridge/Connection/Reaches.antt =====
-- main.rs, handle_handshake: a session whose target answers over TCP does not end in the blind relay.
use wrtg.Prelude.{
  ℕ, suc, ◌≡◌, refl, sym, subst, inl, inr, Bool, true, false, Option, some, List, [], ◌∷◌, ◌++◌,
  Bool-cases, Option-cases, arith, if◌then◌else◌,
}
use wrtg.Prelude.Int.{ℤ, pos}
use wrtg.Prelude.Eq.{ℤ_eq, ℕ_eq, list_eq, ◌=?◌, =?_iff}
use wrtg.Prelude.Bytes.{Bytes, is_empty}
use wrtg.Prelude.Durations.{from_secs}
use wrtg.Prelude.Distinct.{elem}
use wrtg.Prelude.Results.{ok}
use wrtg.Cipher.{Cipher}
use wrtg.Mtproto.Handshake.{HandshakeInfo, valid_dc}
use wrtg.Mtproto.Crypto.{CryptoCtx}
use wrtg.Mtproto.Routing.{Routes, ws_target_ip, tcp_fallback_targets}
use wrtg.Mtproto.Routing.Targets.{tcp_fallback_targets_lem, ws_target_ip-some}
use wrtg.Media.{is_blocked_media_cdn}
use wrtg.WsBlacklist.{ws_blacklisted}
use wrtg.IpFail.{should_skip_direct_ws, mark_ip_failed}
use wrtg.Bridge.State.{Env, Daemon}
use wrtg.Bridge.Direct.{WsBridgeResult, should_skip_ws, try_ws_bridge}
use wrtg.Bridge.Fallback.{CfBridgeResult, try_cf_fallback, try_targets, try_tcp_fallback}
use wrtg.Bridge.Session.{
  Net, Readings, Outcome, websocket, tcp, blind, no_draw, run_tcp, after_cf, run_cf, after_ws,
  run_rungs, prepare, resolve_dc, handle_handshake,
}
use wrtg.Bridge.Session.Routes.{
  try_ws_bridge-routes, try_cf_fallback-routes, note_redirects-routes, should_skip_ws-routes,
}

abbrev pub is_carried : {W : Type 0} → Outcome W → Bool
is_carried (websocket by ws name) = true
is_carried (tcp dst) = true
is_carried (blind b) = false
is_carried no_draw = false

module _ {W : Type 0} (env : Env) (dial : ℕ → Bytes → Option Bool) (asked ended : ℕ → ℕ)
    (dc : ℤ) where
  Reached : Daemon W → ℕ → List Bytes → Type 0
  Reached s i targets = (d : Bytes) × ((try_targets env dial asked ended dc s i targets).1 ≡ some d)

  try_targets_self :
      (s : Daemon W) (i : ℕ) (dst : Bytes) (targets : List Bytes)
      → ((limit : ℕ) → dial limit dst ≡ some true)
      → is_empty dst ≡ false
      → Reached s i (dst ∷ targets)
  unfolding try_targets Reached
  try_targets_self s i dst targets answers full = (dst, rw (try_targets, full, answers _) refl)

  try_targets-some :
      (s : Daemon W) (i : ℕ) (dst : Bytes) (targets : List Bytes)
      → ((limit : ℕ) → dial limit dst ≡ some true)
      → is_empty dst ≡ false
      → elem dst targets ≡ true
      → Reached s i targets
  unfolding try_targets Reached
  try_targets-some s i dst [] answers full mem = cc
  try_targets-some s i dst (d ∷ targets) answers full mem = elim (Bool-cases (d =? dst)) [
    | inl same ↦
        subst (λ x. Reached s i (x ∷ targets)) (sym ((=?_iff d dst).0 same))
          (try_targets_self s i dst targets answers full)
    | inr other ↦
        let later : elem dst targets ≡ true = ground arith in
        let fails = (should_skip_direct_ws s.fails d dc (asked i)).0 in
        let s' = record s { fails = fails } in
        let s'' = record s { fails = mark_ip_failed env.ip fails d dc (ended i) } in
        let limit =
          if (should_skip_direct_ws s.fails d dc (asked i)).1 then from_secs 2 else from_secs 10 in
        elim (Bool-cases (is_empty d)) [
          | inl e ↦ rw (try_targets, e) (try_targets-some s (suc i) dst targets answers full later)
          | inr e ↦ elim (Option-cases (dial limit d)) [
            | inl q ↦
                rw (try_targets, e, q) (try_targets-some s'' (suc i) dst targets answers full later)
            | inr (true, q) ↦ (d, rw (try_targets, e, q) refl)
            | inr (false, q) ↦
                rw (try_targets, e, q) (try_targets-some s' (suc i) dst targets answers full later)
          ]
        ]
  ]

-- The address that a WebSocket to the datacenter would be dialled at.
abbrev pub Answers : {W : Type 0} → Net W → Routes → ℕ → Bytes → Type 0
Answers net r n orig_ip =
    (limit : ℕ) → net.tcp_dial limit (ws_target_ip r (pos n) orig_ip) ≡ some true

module _ {W : Type 0} (env : Env) (net : Net W) (t : Readings) (orig_ip initial : Bytes) (n : ℕ)
    (is_media : Bool) (valid : valid_dc (pos n) ≡ true) where
  run_tcp-carried :
      (s : Daemon W)
      → Answers net s.routes n orig_ip
      → is_carried (run_tcp env net t orig_ip initial (pos n) is_media s).1 ≡ true
  unfolding run_tcp try_tcp_fallback Reached
  run_tcp-carried s answers =
      let (m, blacklisted) = ws_blacklisted s.ws_blacklist (pos n) is_media t.tcp_started in
      let listed =
        tcp_fallback_targets_lem s.routes n orig_ip is_media (is_blocked_media_cdn orig_ip)
          blacklisted valid in
      let (d, e) =
        try_targets-some env net.tcp_dial t.tcp_asked t.tcp_ended (pos n)
          (record s { ws_blacklist = m }) 0 (ws_target_ip s.routes (pos n) orig_ip)
          (tcp_fallback_targets s.routes (pos n) orig_ip is_media (is_blocked_media_cdn orig_ip)
            blacklisted)
          answers (ws_target_ip-some s.routes n orig_ip valid) listed.0 in
      rw (run_tcp, try_tcp_fallback, e) refl

  run_cf-carried :
      (s : Daemon W)
      → Answers net s.routes n orig_ip
      → is_carried (run_cf env net t orig_ip initial (pos n) is_media s).1 ≡ true
  unfolding run_cf
  run_cf-carried s answers =
      by_result (try_cf_fallback env net.cf t.cf (pos n) is_media s orig_ip) (
        subst (λ r. Answers net r n orig_ip)
          (sym (try_cf_fallback-routes env net.cf t.cf (pos n) is_media s orig_ip)) answers)
    where
      by_result :
          (p : Daemon W × CfBridgeResult W)
          → Answers net p.0.routes n orig_ip
          → is_carried (after_cf env net t orig_ip initial (pos n) is_media p).1 ≡ true
      by_result (s', CfBridgeResult.bridged by ws name) a = refl
      by_result (s', CfBridgeResult.failed) a = run_tcp-carried s' a

  after_ws-carried :
      (p : Daemon W × WsBridgeResult W)
      → Answers net p.0.routes n orig_ip
      → is_carried (after_ws env net t orig_ip initial (pos n) is_media p).1 ≡ true
  after_ws-carried (s, WsBridgeResult.connected by ws name) a = refl
  after_ws-carried (s, WsBridgeResult.failed all_blocked timed_out) a = run_cf-carried _ (
      subst (λ r. Answers net r n orig_ip)
        (sym (note_redirects-routes env net t orig_ip initial (pos n) is_media s all_blocked)) a)

  run_rungs-carried :
      (s : Daemon W)
      → Answers net s.routes n orig_ip
      → is_carried (run_rungs env net t orig_ip initial (pos n) is_media s).1 ≡ true
  unfolding run_rungs
  run_rungs-carried s answers =
      let (s', skip) = should_skip_ws s (pos n) is_media orig_ip t.blacklist t.skip in
      let answers' : Answers net s'.routes n orig_ip =
        subst (λ r. Answers net r n orig_ip)
          (sym
            (should_skip_ws-routes env net t orig_ip initial (pos n) is_media s t.blacklist t.skip))
          answers in
      elim (Bool-cases skip) [
        | inl e ↦ rw (run_rungs, e) (run_cf-carried s' answers')
        | inr e ↦
            rw (run_rungs, e)
              (after_ws-carried (try_ws_bridge env net.ws t.ws s' (pos n) is_media orig_ip) (
                subst (λ r. Answers net r n orig_ip)
                  (sym (try_ws_bridge-routes env net.ws t.ws (pos n) is_media s' orig_ip))
                  answers'))
      ]

known_dc : (n : ℕ) → valid_dc (pos n) ≡ true → (pos n =? pos 0) ≡ false
unfolding valid_dc
known_dc n valid = ground arith

resolve_dc-routes :
    {W : Type 0} (s : Daemon W) (hs : HandshakeInfo) (orig_ip : Bytes)
    → (resolve_dc s hs orig_ip).0.routes ≡ s.routes
unfolding resolve_dc
resolve_dc-routes s hs orig_ip = ground arith

-- A session for a valid datacenter whose relay packet and contexts could be made never ends in the blind
-- relay while the address that its WebSocket would be aimed at, the front of the datacenter, the
-- original destination or the default address, takes a TCP connection within whichever limit:
-- whatever the pools, the WebSockets, the front, the Workers and the proxied domains do, and
-- whatever skips and cooldowns are in force, the client is carried on one of the rungs.
pub handle_handshake_reaches :
    (C : Cipher) {W : Type 0} (env : Env) (net : Net W) (t : Readings) (s : Daemon W)
    (hs : HandshakeInfo) (extra orig_ip : Bytes) (draws : List Bytes) (n : ℕ) (is_media : Bool)
    (ctx : CryptoCtx C)
    → (resolve_dc s hs orig_ip).1 ≡ (pos n, is_media)
    → valid_dc (pos n) ≡ true
    → prepare C env net t hs (pos n) is_media draws ≡ some (ok ctx)
    → Answers net s.routes n orig_ip
    → is_carried (handle_handshake C env net t s hs extra orig_ip draws).1 ≡ true
unfolding handle_handshake
handle_handshake_reaches C env net t s hs extra orig_ip draws n is_media ctx found valid ready
      answers =
    rw (handle_handshake, found, known_dc n valid, ready, found)
      (run_rungs-carried env net t orig_ip (hs.handshake ++ extra) n is_media valid
        (resolve_dc s hs orig_ip).0
        (subst (λ r. Answers net r n orig_ip) (sym (resolve_dc-routes s hs orig_ip)) answers))
