-- ===== src/TtlMap/Examples.antt =====
-- ttl_map.rs: one key that expires and is marked again.
use wrtg.Prelude.{ℕ, ◌≡◌, List, [], ◌∷◌}
use wrtg.Prelude.Eq.{ℕ_eq}
use wrtg.TtlMap.{new}
use wrtg.TtlMap.Refinement.{Op, marks_if_absent, asks, clears, run, run_spec, run-new}

abbrev calls : List (ℕ × Op ℕ)
calls =
    (0, marks_if_absent 7 10)
    ∷ (5, asks 7)
    ∷ (5, asks 7)
    ∷ (1, marks_if_absent 7 10)
    ∷ (2, clears 7)
    ∷ (0, asks 7)
    ∷ []

run-new_example : run new 100 calls ≡ run_spec (λ k. 0) 100 calls
run-new_example = run-new 100 calls
