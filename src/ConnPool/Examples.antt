-- ===== src/ConnPool/Examples.antt =====
-- conn_pool.rs: a pool of two for one datacenter.
use wrtg.Prelude.{ℕ, refl, Bool, false, List, [], ◌∷◌, ◌==◌}
use wrtg.Prelude.Int.{pos}
use wrtg.Prelude.Eq.{ℤ_eq, Bool_eq, pair_eq}
use wrtg.Prelude.Map
use wrtg.Prelude.Bytes.{bytes}
use wrtg.ConnPool.{Key, Pooled, Slot, Config, Slots, acquire}
use wrtg.ConnPool.Bounds.{Turn, acquires, pushes, touches, reaps, turns, IsBounded, turns-IsBounded}
use wrtg.ConnPool.Acquire.{Acquired, acquire_lem}

abbrev small_pool : Config
small_pool = record { size = 2; ttl = 100; serves_media = false }

abbrev dc_two : Key
dc_two = (pos 2, false)

-- Three fills race for two places, then a client comes, and the sweep.
abbrev race : List (Turn ℕ)
race =
    touches dc_two 0
    ∷ pushes dc_two 1 (bytes "a") 10
    ∷ pushes dc_two 2 (bytes "b") 20
    ∷ pushes dc_two 3 (bytes "c") 30
    ∷ acquires dc_two 40
    ∷ reaps 50
    ∷ []

turns-IsBounded_example : IsBounded small_pool (turns small_pool [] race)
turns-IsBounded_example = turns-IsBounded small_pool [] race _

-- The first connection is too old at 115.
abbrev two_ready : Slot ℕ
two_ready = record {
  conns =
      record { ws = 1; created = 10; label = bytes "a" }
      ∷ record { ws = 2; created = 20; label = bytes "b" }
      ∷ [];
  last_used = 0;
}

abbrev one_slot : Slots ℕ
one_slot = (dc_two, two_ready) ∷ []

abbrev is_first : Pooled ℕ → Bool
is_first p = p.ws == 1

acquire_lem_example :
    Acquired small_pool is_first 115 one_slot dc_two two_ready
      (pos 4, false)
      (acquire small_pool one_slot dc_two 115)
unfolding Map.get
acquire_lem_example =
    acquire_lem small_pool is_first one_slot (pos 2) false 115 two_ready (pos 4, false) refl refl
      refl
