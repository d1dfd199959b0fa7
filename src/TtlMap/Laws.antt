-- ===== src/TtlMap/Laws.antt =====
-- The methods of ttl_map.rs seen through the deadline of each key.
use wrtg.Prelude.{ℕ, ◌+◌, ◌≡◌, ◌&&◌, none, some, arith, ltb, leb, if◌then◌else◌}
use wrtg.Prelude.Eq.{Eq, ◌=?◌}
use wrtg.Prelude.Map
use wrtg.TtlMap.{TtlMap, mark, mark_if_absent, is_active, clear}

module _ {K : Type 0} ⦃e : Eq K⦄ where
  -- The deadline of a key; 0 for a key that has none.
  abbrev pub deadline : TtlMap K → K → ℕ
  deadline m k = elim (Map.get m k) [ none ↦ 0 | some expiry ↦ expiry ]

  pub deadline-mark :
      (m : TtlMap K) (k : K) (ttl now : ℕ) (j : K)
      → deadline (mark m k ttl now) j ≡ (if k =? j then now + ttl else deadline m j)
  unfolding mark
  deadline-mark m k ttl now j = ground (arith, Map.get-insert m k (now + ttl) j)

  pub mark_if_absent-out :
      (m : TtlMap K) (k : K) (ttl now : ℕ) → (mark_if_absent m k ttl now).1 ≡ leb (deadline m k) now
  unfolding mark_if_absent
  mark_if_absent-out m k ttl now = ground arith

  pub deadline-mark_if_absent :
      (m : TtlMap K) (k : K) (ttl now : ℕ) (j : K)
      → deadline (mark_if_absent m k ttl now).0 j
        ≡ (if k =? j && leb (deadline m k) now then now + ttl else deadline m j)
  unfolding mark_if_absent
  deadline-mark_if_absent m k ttl now j = ground (
    arith,
    Map.get-insert m k (now + ttl) j,
    Map.get-insert (Map.remove m k) k (now + ttl) j,
    Map.get-remove m k j,
  )

  pub is_active-out :
      (m : TtlMap K) (k : K) (now : ℕ) → (is_active m k now).1 ≡ ltb now (deadline m k)
  unfolding is_active
  is_active-out m k now = ground arith

  pub deadline-is_active :
      (m : TtlMap K) (k : K) (now : ℕ) (j : K)
      → deadline (is_active m k now).0 j
        ≡ (if k =? j && leb (deadline m k) now then 0 else deadline m j)
  unfolding is_active
  deadline-is_active m k now j = ground (arith, Map.get-remove m k j, e.eqb_iff k j)

  pub deadline-clear :
      (m : TtlMap K) (k j : K) → deadline (clear m k).0 j ≡ (if k =? j then 0 else deadline m j)
  unfolding clear
  deadline-clear m k j = ground (arith, Map.get-remove m k j)

pub ruleset ttl_laws = (
  deadline-mark, mark_if_absent-out, deadline-mark_if_absent, is_active-out, deadline-is_active,
  deadline-clear,
)
