-- ===== src/Bridge/Fallback.antt =====
-- bridge.rs, `try_cf_fallback` and `try_tcp_fallback`: the Workers, the proxied domains, plain TCP.
-- The network is outside. The connections that the race makes are given in the order in which they end,
-- with the instants; those that are not in the list are aborted.
pub mod Race
use wrtg.Prelude.{
  ℕ, suc, Bool, true, false, Option, none, some, List, [], ◌∷◌, ◌++◌, ltb, if◌then◌else◌, length,
  take,
}
use wrtg.Prelude.Int.{ℤ}
use wrtg.Prelude.Bytes.{Bytes, is_empty}
use wrtg.Prelude.Durations.{from_secs, env_positive, unwrap_or}
use wrtg.Prelude.Results.{Result, ok, err}
use wrtg.Ws.Error.{WsConnectError}
use wrtg.Mtproto.Routing.{tcp_fallback_targets}
use wrtg.IpFail.{should_skip_direct_ws, mark_ip_failed}
use wrtg.WsBlacklist.{ws_blacklisted}
use wrtg.Fronting.{Attempt, out_of_time, refused, connected}
use wrtg.Cooldown429.{Settings, Cooldowns}
use wrtg.CfWorkerCooldown.{clear_worker_429, mark_worker_429_with_peers, usable_workers}
use wrtg.CfProxyCooldown.{cf_proxy_cooldown_remaining}
use wrtg.CfProxy.{try_cf_proxy_domain}
use wrtg.CfBalancer.{
  worker_domains_for_dc, proxy_domains_for_dc, update_proxy_domain_for_dc,
  advance_proxy_domains_for_dc, cf_fallback_disabled,
}
use wrtg.CfWorkerPool
use wrtg.Media.{is_blocked_media_cdn}
use wrtg.Bridge.State.{Env, Daemon, Stat, cf_worker, cf_proxy}

-- `WRTG_CFPROXY_MAX_ATTEMPTS`
unfoldable pub max_cf_proxy_attempts : Option Bytes → ℕ
max_cf_proxy_attempts env = unwrap_or (env_positive env) 3

-- The network as the proxied domains see it: whether the limit of the whole attempt runs out, the
-- connector, the resolver, and whether a socket takes the relay packet.
pub record ProxyDialer (W : Type 0) : Type 0 where
  pub late : Bytes → Bool
  pub connect : Bytes → Bytes → Result WsConnectError W
  pub resolve_doh : Bytes → Option Bytes
  pub send : W → Bool

-- The same for the Workers; `worker` is given the Worker and the address.
pub record CfDialer (W : Type 0) : Type 0 where
  pub pooled : W → Bool
  pub worker : Bytes → Bytes → Attempt W
  pub proxy : ProxyDialer W

pub data CfBridgeResult (W : Type 0) : Type 0 where
  bridged : Stat → W → Bytes → CfBridgeResult W
  failed : CfBridgeResult W

module _ {W : Type 0} (c : Settings) (net : ProxyDialer W) (dc : ℤ) (is_media : Bool) where
  -- What sending the relay packet comes to, and the socket closed where it fails.
  abbrev pub sent_over :
      Bytes → Cooldowns × Result WsConnectError W → Cooldowns × (Option (W × Bytes) × List W)
  sent_over cf_domain (m, ok ws) =
      (m, if net.send ws then (some (ws, cf_domain), []) else (none, ws ∷ []))
  sent_over cf_domain (m, err e) = (m, (none, []))

  -- An attempt that is cancelled has asked for the cooldown, and changes nothing after that.
  unfoldable pub finish_cf_proxy_connect :
      Cooldowns → Bytes → ℕ → ℕ → Cooldowns × (Option (W × Bytes) × List W)
  finish_cf_proxy_connect m cf_domain now done =
      if net.late cf_domain
      then ((cf_proxy_cooldown_remaining c m cf_domain now).0, (none, []))
      else sent_over cf_domain
          (try_cf_proxy_domain c net.connect net.resolve_doh true m cf_domain dc is_media now done)

  -- After the winner: what still ends before it is aborted, and the sockets that are closed.
  unfoldable pub drain : Cooldowns → List (Bytes × (ℕ × ℕ)) → Cooldowns × List W
  drain m [] = (m, [])
  drain m ((cf_domain, (now, done)) ∷ ended) =
      let (m', (got, own)) = finish_cf_proxy_connect m cf_domain now done in
      let (m'', closed) = drain m' ended in
      (m'', elim got [ none ↦ own ++ closed | some (ws, name) ↦ ws ∷ own ++ closed ])

  -- The first task in the order of completion that connects; the sockets closed.
  unfoldable pub race :
      Cooldowns → List (Bytes × (ℕ × ℕ)) → Cooldowns × (Option (W × Bytes) × List W)
  race m [] = (m, (none, []))
  race m ((cf_domain, (now, done)) ∷ ended) =
      let (m', (got, own)) = finish_cf_proxy_connect m cf_domain now done in
      elim got [
        | none ↦ let (m'', (winner, closed)) = race m' ended in (m'', (winner, own ++ closed))
        | some winner ↦ let (m'', closed) = drain m' ended in (m'', (some winner, own ++ closed))
      ]

-- The readings of the clock, and the tasks of the race in the order in which they end.
pub record CfClock : Type 0 where
  pub started : ℕ
  pub worker : ℕ → ℕ
  pub primary_asked : ℕ
  pub primary_done : ℕ
  pub ended : List (Bytes × (ℕ × ℕ))

module _ {W : Type 0} (env : Env) (net : CfDialer W) (t : CfClock) (dc : ℤ) (is_media : Bool) where
  -- The pool of the Workers.
  unfoldable pub try_cf_pool : Daemon W → Daemon W × Option (W × Bytes)
  try_cf_pool s =
      let (slots, (got, expired)) =
        CfWorkerPool.acquire (CfWorkerPool.pool env.cf_worker_pool_size env.cf_worker_pool_ttl_sec)
          s.cf_slots dc is_media t.started in
      (
        record s { cf_slots = slots },
        elim got [
          | none ↦ none
          | some (ws, worker) ↦ if net.pooled ws then some (ws, worker) else none
        ],
      )

  abbrev pub worker_failed : Daemon W → Bytes → WsConnectError → ℕ → Daemon W
  worker_failed s worker e now =
      let (b, peers) = worker_domains_for_dc s.balancer dc in
      record s {
        balancer = b;
        workers = mark_worker_429_with_peers env.worker s.workers worker e peers now;
      }

  -- The loop over the usable Workers, from attempt `i` on.
  unfoldable pub try_workers : Daemon W → Bytes → ℕ → List Bytes → Daemon W × Option (W × Bytes)
  try_workers s dst i [] = (s, none)
  try_workers s dst i (worker ∷ workers) = elim (net.worker worker dst) [
    | out_of_time ↦ try_workers s dst (suc i) workers
    | refused e ↦ try_workers (worker_failed s worker e (t.worker i)) dst (suc i) workers
    | connected ws sent ↦
        let rest = try_workers s dst (suc i) workers in
        if sent
        then (record s { workers = clear_worker_429 s.workers worker }, some (ws, worker))
        else rest
  ]

  unfoldable pub try_cf_workers : Daemon W → Bytes → Daemon W × Option (W × Bytes)
  try_cf_workers s orig_ip =
      let (b, ordered) = worker_domains_for_dc s.balancer dc in
      let (workers, (usable, cooling)) = usable_workers env.worker s.workers ordered t.started in
      try_workers (record s { balancer = b; workers = workers })
        (CfWorkerPool.dst_ip s.routes dc orig_ip) 0 usable

  -- The first domain of the window, alone.
  unfoldable pub try_primary : Daemon W → List Bytes → Daemon W × Option (W × Bytes)
  try_primary s [] = (s, none)
  try_primary s (primary ∷ others) =
      let (m, (got, closed)) =
        finish_cf_proxy_connect env.proxy net.proxy dc is_media s.cfproxy_429 primary
          t.primary_asked t.primary_done in
      (record s { cfproxy_429 = m }, got)

  -- The race between the others.
  unfoldable pub try_race : Daemon W → List Bytes → Daemon W × Option (W × Bytes)
  try_race s window =
      let (m, (winner, closed)) = race env.proxy net.proxy dc is_media s.cfproxy_429 t.ended in
      if ltb 1 (length window) then (record s { cfproxy_429 = m }, winner) else (s, none)

  unfoldable pub settle_proxy : Daemon W → W × Bytes → Daemon W × CfBridgeResult W
  settle_proxy s (ws, chosen) = (
    record s { balancer = update_proxy_domain_for_dc s.balancer dc chosen },
    bridged cf_proxy ws chosen,
  )

  -- After the first domain.
  unfoldable pub after_primary :
      List Bytes → Daemon W × Option (W × Bytes) → Daemon W × CfBridgeResult W
  after_primary window (s, some got) = settle_proxy s got
  after_primary window (s, none) =
      let (s', winner) = try_race s window in
      elim winner [
        | some got ↦ settle_proxy s' got
        | none ↦ (
          record s' { balancer = advance_proxy_domains_for_dc s'.balancer dc (length window) },
          failed,
        )
      ]

  unfoldable pub try_cf_proxies : Daemon W → Daemon W × CfBridgeResult W
  try_cf_proxies s =
      let (b, ordered) = proxy_domains_for_dc s.balancer dc in
      let window = take (max_cf_proxy_attempts env.cfproxy_max_attempts) ordered in
      after_primary window (try_primary (record s { balancer = b }) window)

  unfoldable pub after_workers : Daemon W × Option (W × Bytes) → Daemon W × CfBridgeResult W
  after_workers (s, some (ws, worker)) = (s, bridged cf_worker ws worker)
  after_workers (s, none) = try_cf_proxies s

  unfoldable pub after_cf_pool : Bytes → Daemon W × Option (W × Bytes) → Daemon W × CfBridgeResult W
  after_cf_pool orig_ip (s, some (ws, worker)) = (s, bridged cf_worker ws worker)
  after_cf_pool orig_ip (s, none) = after_workers (try_cf_workers s orig_ip)

  unfoldable pub try_cf_fallback : Daemon W → Bytes → Daemon W × CfBridgeResult W
  try_cf_fallback s orig_ip =
      if cf_fallback_disabled env.no_cfproxy
      then (s, failed)
      else after_cf_pool orig_ip (try_cf_pool s)

-- What a TCP connection within the limit comes to: none, or whether it takes the relay packet.
module _ {W : Type 0} (env : Env) (dial : ℕ → Bytes → Option Bool) (asked ended : ℕ → ℕ)
    (dc : ℤ) where
  -- The loop over the addresses, from attempt `i` on; the address that is connected.
  unfoldable pub try_targets : Daemon W → ℕ → List Bytes → Daemon W × Option Bytes
  try_targets s i [] = (s, none)
  try_targets s i (dst ∷ targets) =
      let (fails, skip) = should_skip_direct_ws s.fails dst dc (asked i) in
      let s' = record s { fails = fails } in
      let limit = if skip then from_secs 2 else from_secs 10 in
      elim (is_empty dst) [
        | true ↦ try_targets s (suc i) targets
        | false ↦ elim (dial limit dst) [
          | none ↦
              try_targets (record s' { fails = mark_ip_failed env.ip fails dst dc (ended i) })
                (suc i) targets
          | some sent ↦
              let rest = try_targets s' (suc i) targets in if sent then (s', some dst) else rest
        ]
      ]

  unfoldable pub try_tcp_fallback : Daemon W → Bytes → Bool → ℕ → Daemon W × Option Bytes
  try_tcp_fallback s orig_ip is_media now =
      let (blacklist, blacklisted) = ws_blacklisted s.ws_blacklist dc is_media now in
      try_targets (record s { ws_blacklist = blacklist }) 0
        (tcp_fallback_targets s.routes dc orig_ip is_media (is_blocked_media_cdn orig_ip)
          blacklisted)
