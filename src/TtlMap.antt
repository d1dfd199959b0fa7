-- ===== src/TtlMap.antt =====
-- crates/wrtg/src/ttl_map.rs: keys that stay active until their own deadline.
-- The lock is held for the whole of each method, so a method is one step on the map. Instants and
-- durations are nanosecond counts; `now` is the value of `Instant::now()` inside the method.
pub mod Laws
pub mod Refinement
mod Examples
use wrtg.Prelude.{ℕ, ◌+◌, Bool, true, false, Option, none, some, [], ltb, if◌then◌else◌}
use wrtg.Prelude.Eq.{Eq}
use wrtg.Prelude.Map
use wrtg.Prelude.Map.{Map}

-- Each key with its expiry.
abbrev pub TtlMap {ℓ} : Type ℓ → Type ℓ
TtlMap K = Map K ℕ

module _ {ℓ} {K : Type ℓ} where
  unfoldable pub new : TtlMap K
  new = []

  unfoldable pub clear_all : TtlMap K → TtlMap K
  clear_all m = []

module _ {ℓ} {K : Type ℓ} ⦃e : Eq K⦄ where
  unfoldable pub mark : TtlMap K → K → ℕ → ℕ → TtlMap K
  mark m key ttl now = Map.insert m key (now + ttl)

  unfoldable pub mark_if_absent : TtlMap K → K → ℕ → ℕ → TtlMap K × Bool
  mark_if_absent m key ttl now = elim (Map.get m key) [
    | none ↦ (Map.insert m key (now + ttl), true)
    | some expiry ↦
        if ltb now expiry then (m, false) else (Map.insert (Map.remove m key) key (now + ttl), true)
  ]

  unfoldable pub is_active : TtlMap K → K → ℕ → TtlMap K × Bool
  is_active m key now = elim (Map.get m key) [
    | none ↦ (m, false)
    | some expiry ↦ if ltb now expiry then (m, true) else (Map.remove m key, false)
  ]

  unfoldable pub clear : TtlMap K → K → TtlMap K × Bool
  clear m key = (Map.remove m key, elim (Map.get m key) [ none ↦ false | some expiry ↦ true ])
