-- ===== src/WsPool.antt =====
-- crates/wrtg/src/ws_pool.rs: the pool of direct WebSockets, over conn_pool.rs.
-- The settings from the environment are arguments; the connector is outside, and gives for a name what
-- the connection attempt comes to.
use wrtg.Prelude.{
  ℕ, Bool, false, not, Option, none, some, List, [], ◌∷◌, if◌then◌else◌, min, max, any, keep, map,
}
use wrtg.Prelude.Int.{ℤ, pos}
use wrtg.Prelude.Bytes.{Bytes, is_empty}
use wrtg.Prelude.Durations.{from_secs, env_secs, unwrap_or}
use wrtg.Mtproto.Routing.{Routes, dc_front_ip, ws_domains, ws_target_ip}
use wrtg.IpFail.{Fails, clear_ip_fail, clear_dc_fail}
use wrtg.Fronting.{FrontingFail, clear_fronting_fail}
use wrtg.ConnPool
use wrtg.ConnPool.{Config, Key, Slots, Pooled}

-- `WRTG_WS_POOL_SIZE`, between one and eight.
unfoldable pub pool_size : Option Bytes → ℕ
pool_size env = min (max (unwrap_or (env_secs env) 2) 1) 8

-- `WRTG_WS_POOL_TTL_SEC`
unfoldable pub pool_ttl : Option Bytes → ℕ
pool_ttl env = from_secs (unwrap_or (env_secs env) 120)

unfoldable pub enabled : Routes → Bool
enabled r = any (λ dc. not (is_empty (dc_front_ip r dc))) (map pos (1 ∷ 2 ∷ 3 ∷ 4 ∷ 5 ∷ []))

unfoldable pub seeds : Routes → List Key
seeds r =
    map (λ dc. (dc, false))
      (keep (λ dc. not (is_empty (dc_front_ip r dc))) (map pos (1 ∷ 2 ∷ 3 ∷ 4 ∷ 5 ∷ [])))

-- The settings of the static `POOL`, which does not serve media.
unfoldable pub pool : Option Bytes → Option Bytes → Config
pool size ttl = record { size = pool_size size; ttl = pool_ttl ttl; serves_media = false }

unfoldable pub note_connect_success : Fails × FrontingFail → Bytes → ℤ → Bool → Fails × FrontingFail
note_connect_success (fails, fronting_fail) target dc is_media = (
  clear_dc_fail (clear_ip_fail fails target dc) dc is_media,
  clear_fronting_fail fronting_fail target dc,
)

module _ {W : Type 0} where
  -- The loop over the names of a datacenter.
  unfoldable pub connect_first :
      (Bytes → Option W)
      → Fails × FrontingFail
      → Bytes
      → ℤ
      → Bool
      → List Bytes
      → (Fails × FrontingFail) × Option (W × Bytes)
  connect_first dial s target dc is_media [] = (s, none)
  connect_first dial s target dc is_media (domain ∷ domains) =
      let rest = connect_first dial s target dc is_media domains in
      elim (dial domain) [
        | none ↦ rest
        | some ws ↦ (note_connect_success s target dc is_media, some (ws, domain))
      ]

  unfoldable pub connect :
      (Bytes → Bytes → Option W)
      → Routes
      → Fails × FrontingFail
      → ℤ
      → Bool
      → Bytes
      → (Fails × FrontingFail) × Option (W × Bytes)
  connect dial r s dc is_media hint =
      let target = if is_empty hint then ws_target_ip r dc [] else hint in
      if is_empty target
      then (s, none)
      else connect_first (dial target) s target dc is_media (ws_domains dc is_media)

  unfoldable pub acquire :
      Config → Slots W → ℤ → Bool → ℕ → Slots W × (Option (W × Bytes) × List (Pooled W))
  acquire c slots dc is_media now = ConnPool.acquire c slots (dc, is_media) now
