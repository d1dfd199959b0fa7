-- ===== src/Bridge/Direct.antt =====
-- bridge.rs, `try_ws_bridge`: the pool, the direct WebSocket and the front.
-- The network is outside: `pooled` says whether a pooled socket takes the relay packet, `direct` and
-- `fronted` are what an attempt comes to, given the time limit, the address and the name.
pub mod Late
pub mod Skips
use wrtg.Prelude.{ℕ, Bool, true, false, not, ◌&&◌, ◌||◌, Option, none, some, List, if◌then◌else◌}
use wrtg.Prelude.Int.{ℤ}
use wrtg.Prelude.Bytes.{Bytes, is_empty}
use wrtg.Prelude.Results.{Result, ok, err}
use wrtg.Mtproto.Routing.{ws_domains, ws_target_ip}
use wrtg.IpFail.{
  clear_ip_fail, clear_dc_fail, mark_ip_failed, mark_dc_failed, ws_connect_timeout,
  should_skip_direct_ws,
}
use wrtg.WsBlacklist.{ws_blacklisted}
use wrtg.Fronting.{
  Attempt, try_domains, try_ws_fronting, clear_fronting_fail, mark_fronting_failed,
  should_skip_fronting,
}
use wrtg.WsPool
use wrtg.Bridge.State.{Env, Daemon, Stat, ws_pool_hit, ws_direct, fronting}

-- `connected` names the counter that the session adds to, the socket and its name.
pub data WsBridgeResult (W : Type 0) : Type 0 where
  connected : Stat → W → Bytes → WsBridgeResult W
  failed : Bool → Bool → WsBridgeResult W

pub record Dialer (W : Type 0) : Type 0 where
  pub pooled : W → Bool
  pub direct : ℕ → Bytes → Bytes → Attempt W
  pub fronted : ℕ → Bytes → Bytes → Attempt W

-- The readings of the clock: at the start, before and after the front, and when the attempt is given up.
pub record Clock : Type 0 where
  pub started : ℕ
  pub gate : ℕ
  pub front_failed : ℕ
  pub given_up : ℕ

module _ {W : Type 0} (env : Env) where
  -- The three calls after a connection.
  unfoldable pub clear_skips : Daemon W → Bytes → ℤ → Bool → Daemon W
  clear_skips s target dc is_media = record s {
    fails = clear_dc_fail (clear_ip_fail s.fails target dc) dc is_media;
    fronting_fail = clear_fronting_fail s.fronting_fail target dc;
  }

  -- The end of `try_ws_bridge`, after the last attempt.
  unfoldable pub give_up :
      Daemon W → Bytes → ℤ → Bool → Bool → Bool → ℕ → Daemon W × WsBridgeResult W
  give_up s target dc is_media all_blocked timed_out now =
      let fails = if timed_out then mark_ip_failed env.ip s.fails target dc now else s.fails in
      (
        record s { fails = mark_dc_failed env.ip fails dc is_media now },
        WsBridgeResult.failed all_blocked timed_out,
      )

  unfoldable pub connect_timeout : Daemon W → ℤ → Bool → ℕ → Daemon W × ℕ
  connect_timeout s dc is_media now =
      let (fails, limit) = ws_connect_timeout env.ip s.fails dc is_media now in
      (record s { fails = fails }, limit)

  -- The loop over the names, with the two flags.
  unfoldable pub try_ws_with_domains :
      (ℕ → Bytes → Bytes → Attempt W)
      → Daemon W
      → Bytes
      → List Bytes
      → ℤ
      → Bool
      → ℕ
      → Daemon W × Result (Bool × Bool) (W × Bytes)
  try_ws_with_domains direct s target domains dc is_media now =
      let (s', limit) = connect_timeout s dc is_media now in
      (s', try_domains true false (direct limit target) domains)

module _ {W : Type 0} (env : Env) (net : Dialer W) (t : Clock) where
  -- What follows an attempt through the front, given what the direct attempt reported.
  unfoldable pub after_fronting :
      Daemon W
      → Bytes
      → ℤ
      → Bool
      → Bool
      → Bool
      → Result (Bool × Bool) (W × Bytes)
      → Daemon W × WsBridgeResult W
  after_fronting s target dc is_media all_blocked timed_out (ok (ws, domain)) =
      (clear_skips env s target dc is_media, WsBridgeResult.connected fronting ws domain)
  after_fronting s target dc is_media all_blocked timed_out (err (f_blocked, f_timed_out)) =
      give_up env
        (record s {
          fronting_fail =
              mark_fronting_failed env.fronting_cooldown_sec s.fronting_fail target dc
                t.front_failed;
        })
        target dc is_media (all_blocked && f_blocked) (timed_out || f_timed_out) t.given_up

  unfoldable pub try_front :
      ℕ → Daemon W → Bytes → ℤ → Bool → Bool → Bool → Daemon W × WsBridgeResult W
  try_front limit s target dc is_media all_blocked timed_out =
      let (m, skip) = should_skip_fronting env.fronting_sni s.fronting_fail target dc t.gate in
      let s' = record s { fronting_fail = m } in
      if skip
      then give_up env s' target dc is_media all_blocked timed_out t.given_up
      else after_fronting s' target dc is_media all_blocked timed_out
          (try_ws_fronting env.fronting_sni dc is_media (net.fronted limit target))

  unfoldable pub after_direct :
      ℕ
      → Daemon W
      → Bytes
      → ℤ
      → Bool
      → Result (Bool × Bool) (W × Bytes)
      → Daemon W × WsBridgeResult W
  after_direct limit s target dc is_media (ok (ws, domain)) =
      (clear_skips env s target dc is_media, WsBridgeResult.connected ws_direct ws domain)
  after_direct limit s target dc is_media (err (all_blocked, timed_out)) =
      try_front limit s target dc is_media all_blocked timed_out

  unfoldable pub try_direct : Daemon W → Bytes → ℤ → Bool → Daemon W × WsBridgeResult W
  try_direct s target dc is_media =
      let (s₁, limit) = connect_timeout env s dc is_media t.started in
      let (s₂, direct) =
        try_ws_with_domains env net.direct s₁ target (ws_domains dc is_media) dc is_media
          t.started in
      after_direct limit s₂ target dc is_media direct

  -- A pooled socket that takes the relay packet.
  unfoldable pub try_pooled : Daemon W → ℤ → Bool → Daemon W × Option (W × Bytes)
  try_pooled s dc is_media =
      let (slots, (got, expired)) =
        WsPool.acquire (WsPool.pool env.ws_pool_size env.ws_pool_ttl_sec) s.ws_slots dc is_media
          t.started in
      let s' = record s { ws_slots = slots } in
      if is_media then (s, none) else (elim got [
        | none ↦ (s', none)
        | some (ws, domain) ↦ (s', if net.pooled ws then some (ws, domain) else none)
      ])

  abbrev pub after_pool :
      Bytes → ℤ → Bool → Daemon W × Option (W × Bytes) → Daemon W × WsBridgeResult W
  after_pool target dc is_media (s, some (ws, domain)) =
      (clear_skips env s target dc is_media, WsBridgeResult.connected ws_pool_hit ws domain)
  after_pool target dc is_media (s, none) = try_direct s target dc is_media

  unfoldable pub try_ws_bridge : Daemon W → ℤ → Bool → Bytes → Daemon W × WsBridgeResult W
  try_ws_bridge s dc is_media orig_ip =
      let target = ws_target_ip s.routes dc orig_ip in
      if is_empty target
      then (s, WsBridgeResult.failed false false)
      else after_pool target dc is_media (try_pooled s dc is_media)

module _ {W : Type 0} where
  -- The blacklist is read at `now`, and the address's failure after it.
  unfoldable pub should_skip_ws : Daemon W → ℤ → Bool → Bytes → ℕ → ℕ → Daemon W × Bool
  should_skip_ws s dc is_media orig_ip now later =
      let (m, blacklisted) = ws_blacklisted s.ws_blacklist dc is_media now in
      let (fails, skip) =
        should_skip_direct_ws s.fails (ws_target_ip s.routes dc orig_ip) dc later in
      if blacklisted
      then (record s { ws_blacklist = m }, true)
      else (record s { ws_blacklist = m; fails = fails }, skip)
