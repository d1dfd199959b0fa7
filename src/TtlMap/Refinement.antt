-- ===== src/TtlMap/Refinement.antt =====
-- ttl_map.rs against a map of deadlines that is never pruned.
use wrtg.Prelude.{
  ℕ, ◌+◌, ◌≤◌, ◌≡◌, refl, ◌⊎◌, inl, Bool, true, false, List, [], ◌∷◌, ◌++◌, arith, ltb,
  if◌then◌else◌, ap,
}
use wrtg.Prelude.Eq.{Eq, ◌=?◌}
use wrtg.Prelude.Map
use wrtg.TtlMap.Laws.{
  deadline, deadline-mark, mark_if_absent-out, deadline-mark_if_absent, is_active-out,
  deadline-is_active, deadline-clear,
}
use wrtg.TtlMap.{TtlMap, new, mark, mark_if_absent, is_active, clear, clear_all}

pub data Op (K : Type 0) : Type 0 where
  marks marks_if_absent : K → ℕ → Op K
  asks : K → Op K
  clears : K → Op K
  clears_all : Op K

-- Two deadlines that no later question tells apart.
abbrev Agree : ℕ → ℕ → ℕ → Type 0
Agree now a b = (a ≡ b) ⊎ ((a ≤ now) × (b ≤ now))

module _ {K : Type 0} ⦃e : Eq K⦄ where
  -- The program's answer to one call; `clear` has none, since nothing but a log line depends on it.
  unfoldable pub step : TtlMap K → ℕ → Op K → TtlMap K × List Bool
  step m now (marks k ttl) = (mark m k ttl now, [])
  step m now (marks_if_absent k ttl) = let (m', b) = mark_if_absent m k ttl now in (m', b ∷ [])
  step m now (asks k) = let (m', b) = is_active m k now in (m', b ∷ [])
  step m now (clears k) = let (m', b) = clear m k in (m', [])
  step m now clears_all = (clear_all m, [])

  unfoldable pub run : TtlMap K → ℕ → List (ℕ × Op K) → List Bool
  run m now [] = []
  run m now ((delay, op) ∷ ops) =
      let (m', out) = step m (now + delay) op in out ++ run m' (now + delay) ops

  abbrev pub put : (K → ℕ) → K → ℕ → K → ℕ
  put s k v j = if k =? j then v else s j

  unfoldable pub step_spec : (K → ℕ) → ℕ → Op K → (K → ℕ) × List Bool
  step_spec s now (marks k ttl) = (put s k (now + ttl), [])
  step_spec s now (marks_if_absent k ttl) =
      if ltb now (s k) then (s, false ∷ []) else (put s k (now + ttl), true ∷ [])
  step_spec s now (asks k) = (s, ltb now (s k) ∷ [])
  step_spec s now (clears k) = (put s k 0, [])
  step_spec s now clears_all = ((λ j. 0), [])

  unfoldable pub run_spec : (K → ℕ) → ℕ → List (ℕ × Op K) → List Bool
  run_spec s now [] = []
  run_spec s now ((delay, op) ∷ ops) =
      let (s', out) = step_spec s (now + delay) op in out ++ run_spec s' (now + delay) ops

  abbrev Agrees : ℕ → TtlMap K → (K → ℕ) → Type 0
  Agrees now m s = (k : K) → Agree now (deadline m k) (s k)

  Agrees-later : (now d : ℕ) (m : TtlMap K) (s : K → ℕ) → Agrees now m s → Agrees (now + d) m s
  Agrees-later now d m s h k = ground (arith, h k)

  step-out :
      (m : TtlMap K) (s : K → ℕ) (now : ℕ) (op : Op K)
      → Agrees now m s
      → (step m now op).1 ≡ (step_spec s now op).1
  unfolding step step_spec
  step-out m s now (marks k ttl) h = refl
  step-out m s now (marks_if_absent k ttl) h = ground (arith, h k, mark_if_absent-out m k ttl now)
  step-out m s now (asks k) h = ground (arith, h k, is_active-out m k now)
  step-out m s now (clears k) h = refl
  step-out m s now clears_all h = refl

  step-Agrees :
      (m : TtlMap K) (s : K → ℕ) (now : ℕ) (op : Op K)
      → Agrees now m s
      → Agrees now (step m now op).0 (step_spec s now op).0
  unfolding step step_spec clear_all
  step-Agrees m s now (marks k ttl) h j = ground (arith, h j, deadline-mark m k ttl now j)
  step-Agrees m s now (marks_if_absent k ttl) h j =
      ground (arith, h k, h j, deadline-mark_if_absent m k ttl now j, e.eqb_iff k j)
  step-Agrees m s now (asks k) h j =
      ground (arith, h k, h j, deadline-is_active m k now j, e.eqb_iff k j)
  step-Agrees m s now (clears k) h j = ground (arith, h j, deadline-clear m k j)
  step-Agrees m s now clears_all h j = unfold Map.get in inl refl

  run_refines :
      (m : TtlMap K) (s : K → ℕ) (now : ℕ) (ops : List (ℕ × Op K))
      → Agrees now m s
      → run m now ops ≡ run_spec s now ops
  unfolding run run_spec
  run_refines m s now [] h = refl
  run_refines m s now ((d, op) ∷ ops) h =
      let later = Agrees-later now d m s h in
      rw (step-out m s (now + d) op later) (
        ap (◌++◌ (step_spec s (now + d) op).1) (
          run_refines (step m (now + d) op).0 (step_spec s (now + d) op).0 (now + d) ops
            (step-Agrees m s (now + d) op later)))

  -- Over any sequence of calls at instants that never go back, a `TtlMap` that starts empty gives
  -- every answer of `mark_if_absent` and `is_active` that a table of deadlines gives which is never
  -- pruned: removing expired entries on access cannot be observed.
  pub run-new : (now : ℕ) (ops : List (ℕ × Op K)) → run new now ops ≡ run_spec (λ k. 0) now ops
  unfolding new
  run-new now ops = run_refines [] _ now ops (λ k. unfold Map.get in inl refl)
