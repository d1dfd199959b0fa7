-- ===== src/CfWorkerPool.antt =====
-- crates/wrtg/src/cf_worker_pool.rs: the pool of WebSockets through the Workers, over conn_pool.rs.
-- The connector is outside; `none` is an attempt that runs out of time. `clock` is its reading at the
-- end of each attempt.
use wrtg.Prelude.{
  ℕ, zero, suc, ◌+◌, ◌%◌, Bool, true, not, Option, none, some, List, [], if◌then◌else◌, min, max,
  length, get_or,
}
use wrtg.Prelude.Int.{ℤ, pos}
use wrtg.Prelude.Bytes.{Bytes, bytes, is_empty}
use wrtg.Prelude.Durations.{from_secs, env_secs, unwrap_or}
use wrtg.Prelude.Results.{Result, ok, err}
use wrtg.Ws.Error.{WsConnectError}
use wrtg.Mtproto.Routing.{Routes, dc_default_ip, ws_target_ip}
use wrtg.DcLearn.{Learned, observed_slots}
use wrtg.CfBalancer.{Balancer, fetch_add, worker_domains_for_dc}
use wrtg.Cooldown429.{Settings}
use wrtg.CfWorkerCooldown.{Workers, clear_worker_429, mark_worker_429_with_peers, usable_workers}
use wrtg.ConnPool
use wrtg.ConnPool.{Config, Slots, Pooled}

-- `WRTG_CF_WORKER_POOL_SIZE`, between one and four.
unfoldable pub pool_size : Option Bytes → ℕ
pool_size env = min (max (unwrap_or (env_secs env) 2) 1) 4

-- `WRTG_CF_WORKER_POOL_TTL_SEC`
unfoldable pub pool_ttl : Option Bytes → ℕ
pool_ttl env = from_secs (unwrap_or (env_secs env) 120)

-- The slots that have been seen.
unfoldable pub seeds : Learned → List (ℤ × Bool)
seeds m = observed_slots m

-- The settings of the static `POOL`.
unfoldable pub pool : Option Bytes → Option Bytes → Config
pool size ttl = record { size = pool_size size; ttl = pool_ttl ttl; serves_media = true }

unfoldable pub enabled : Balancer → Balancer × Bool
enabled b = let (b', workers) = worker_domains_for_dc b (pos 0) in (b', not (is_empty workers))

unfoldable pub dst_ip : Routes → ℤ → Bytes → Bytes
dst_ip r dc orig_hint =
    let target = ws_target_ip r dc orig_hint in
    if not (is_empty target) then target else unwrap_or (dc_default_ip dc) (bytes "149.154.167.220")

-- What one attempt on a Worker comes to.
abbrev pub Dial : Type 0 → Type 0
Dial W = Option (Result WsConnectError W)

-- What the failure of an attempt leaves behind; the siblings are those of the datacenter, in order.
abbrev pub note_failure :
    Settings → Workers → Balancer → ℤ → Bytes → WsConnectError → ℕ → Workers × Balancer
note_failure c s b dc worker e now =
    let (b', peers) = worker_domains_for_dc b dc in
    (mark_worker_429_with_peers c s worker e peers now, b')

module _ {W : Type 0} (c : Settings) (dial : Bytes → Dial W) (clock : ℕ → ℕ) (dc : ℤ) where
  -- The loop over the Workers, from attempt `i` on, with `n` to go.
  unfoldable pub connect_rotated :
      Workers → Balancer → List Bytes → ℕ → ℕ → ℕ → (Workers × Balancer) × Option (W × Bytes)
  connect_rotated s b workers start i zero = ((s, b), none)
  connect_rotated s b workers start i (suc n) =
      let worker = get_or workers ((start + i) % length workers) [] in
      elim (dial worker) [
        | none ↦ connect_rotated s b workers start (suc i) n
        | some (ok ws) ↦ ((clear_worker_429 s worker, b), some (ws, worker))
        | some (err e) ↦
            let (s', b') = note_failure c s b dc worker e (clock i) in
            connect_rotated s' b' workers start (suc i) n
      ]

  -- `rr` is the static `RR`, which is left as it is where no Worker is usable.
  unfoldable pub connect :
      Workers → Balancer → ℕ → ℕ → ℕ × ((Workers × Balancer) × Option (W × Bytes))
  connect s b rr now =
      let (b', ordered) = worker_domains_for_dc b dc in
      let (s', (workers, cooling)) = usable_workers c s ordered now in
      let (start, rr') = fetch_add rr in
      if is_empty workers
      then (rr, ((s', b'), none))
      else (rr', connect_rotated s' b' workers start 0 (length workers))

module _ {W : Type 0} where
  unfoldable pub acquire :
      Config → Slots W → ℤ → Bool → ℕ → Slots W × (Option (W × Bytes) × List (Pooled W))
  acquire c slots dc is_media now = ConnPool.acquire c slots (dc, is_media) now
