-- ===== src/Bridge/Session/Routes.antt =====
-- No rung of a session touches the addresses that the next one dials.
use wrtg.Prelude.{
  ℕ, suc, ◌≡◌, refl, ◌∙◌, Bool, true, false, inl, inr, Option, none, some, List, [], ◌∷◌,
  Bool-cases, Option-cases, arith,
}
use wrtg.Prelude.Int.{ℤ}
use wrtg.Prelude.Bytes.{Bytes, is_empty}
use wrtg.Prelude.Results.{Result, ok, err}
use wrtg.Mtproto.Routing.{ws_target_ip}
use wrtg.Fronting.{should_skip_fronting}
use wrtg.Fronting.Outcome.{Attempt-cases}
use wrtg.CfBalancer.{cf_fallback_disabled}
use wrtg.Bridge.State.{Env, Daemon}
use wrtg.Bridge.Direct.{
  Dialer, Clock, clear_skips, give_up, connect_timeout, try_ws_with_domains, after_fronting,
  try_front, after_direct, try_direct, try_pooled, after_pool, try_ws_bridge, should_skip_ws,
}
use wrtg.Bridge.Fallback.{
  CfDialer, CfClock, try_cf_pool, worker_failed, try_workers, try_cf_workers, try_primary, try_race,
  settle_proxy, after_primary, try_cf_proxies, after_workers, after_cf_pool, try_cf_fallback,
}
use wrtg.Bridge.Session.{Readings, Net, note_redirects}

module _ {W : Type 0} (env : Env) (net : Dialer W) (t : Clock) (target : Bytes) (dc : ℤ)
    (is_media : Bool) where
  after_fronting-routes :
      (s : Daemon W) (all_blocked timed_out : Bool) (r : Result (Bool × Bool) (W × Bytes))
      → (after_fronting env net t s target dc is_media all_blocked timed_out r).0.routes ≡ s.routes
  unfolding after_fronting give_up clear_skips
  after_fronting-routes s all_blocked timed_out (ok (ws, domain)) = refl
  after_fronting-routes s all_blocked timed_out (err (f_blocked, f_timed_out)) = refl

  after_direct-routes :
      (limit : ℕ) (s : Daemon W) (r : Result (Bool × Bool) (W × Bytes))
      → (after_direct env net t limit s target dc is_media r).0.routes ≡ s.routes
  unfolding after_direct try_front give_up clear_skips
  after_direct-routes limit s (ok (ws, domain)) = refl
  after_direct-routes limit s (err (all_blocked, timed_out)) =
      elim (Bool-cases (should_skip_fronting env.fronting_sni s.fronting_fail target dc t.gate).1) [
        | inl q ↦ rw q refl
        | inr q ↦ rw q (after_fronting-routes _ all_blocked timed_out _)
      ]

  after_pool-routes :
      (s : Daemon W) (r : Option (W × Bytes))
      → (after_pool env net t target dc is_media (s, r)).0.routes ≡ s.routes
  unfolding try_direct connect_timeout try_ws_with_domains clear_skips
  after_pool-routes s (some (ws, domain)) = refl
  after_pool-routes s none = after_direct-routes _ _ _

  try_pooled-routes : (s : Daemon W) → (try_pooled env net t s dc is_media).0.routes ≡ s.routes
  unfolding try_pooled
  try_pooled-routes s = ground arith

module _ {W : Type 0} (env : Env) (net : Dialer W) (t : Clock) (dc : ℤ) (is_media : Bool) where
  pub try_ws_bridge-routes :
      (s : Daemon W) (orig_ip : Bytes)
      → (try_ws_bridge env net t s dc is_media orig_ip).0.routes ≡ s.routes
  unfolding try_ws_bridge
  try_ws_bridge-routes s orig_ip =
      let target = ws_target_ip s.routes dc orig_ip in
      let (s', got) = try_pooled env net t s dc is_media in
      elim (Bool-cases (is_empty target)) [
        | inl e ↦ rw e refl
        | inr e ↦ rw e (
            after_pool-routes env net t target dc is_media s' got
            ∙ try_pooled-routes env net t target dc is_media s)
      ]

module _ {W : Type 0} (env : Env) (net : CfDialer W) (t : CfClock) (dc : ℤ) (is_media : Bool) where
  try_workers-routes :
      (s : Daemon W) (dst : Bytes) (i : ℕ) (workers : List Bytes)
      → (try_workers env net t dc is_media s dst i workers).0.routes ≡ s.routes
  unfolding try_workers
  try_workers-routes s dst i [] = refl
  try_workers-routes s dst i (worker ∷ workers) = elim (Attempt-cases (net.worker worker dst)) [
    | inl q ↦ rw (try_workers, q) (try_workers-routes s dst (suc i) workers)
    | inr (inl (e, q)) ↦
        rw (try_workers, q)
          (try_workers-routes (worker_failed env net t dc is_media s worker e (t.worker i)) dst
            (suc i) workers)
    | inr (inr ((ws, true), q)) ↦ rw (try_workers, q) refl
    | inr (inr ((ws, false), q)) ↦ rw (try_workers, q) (try_workers-routes s dst (suc i) workers)
  ]

  try_race-routes :
      (s : Daemon W) (window : List Bytes)
      → (try_race env net t dc is_media s window).0.routes ≡ s.routes
  unfolding try_race
  try_race-routes s window = ground arith

  after_primary-routes :
      (window : List Bytes) (s : Daemon W) (r : Option (W × Bytes))
      → (after_primary env net t dc is_media window (s, r)).0.routes ≡ s.routes
  unfolding after_primary settle_proxy
  after_primary-routes window s (some (ws, chosen)) = refl
  after_primary-routes window s none =
      elim (Option-cases (try_race env net t dc is_media s window).1) [
        | inl e ↦ rw (after_primary, e) (try_race-routes s window)
        | inr ((ws, chosen), e) ↦ rw (after_primary, e) (try_race-routes s window)
      ]

  try_primary-routes :
      (s : Daemon W) (window : List Bytes)
      → (try_primary env net t dc is_media s window).0.routes ≡ s.routes
  unfolding try_primary
  try_primary-routes s [] = refl
  try_primary-routes s (primary ∷ others) = refl

  after_workers-routes :
      (s : Daemon W) (r : Option (W × Bytes))
      → (after_workers env net t dc is_media (s, r)).0.routes ≡ s.routes
  unfolding after_workers try_cf_proxies
  after_workers-routes s (some (ws, worker)) = refl
  after_workers-routes s none = after_primary-routes _ _ _ ∙ try_primary-routes _ _

  after_cf_pool-routes :
      (orig_ip : Bytes) (s : Daemon W) (r : Option (W × Bytes))
      → (after_cf_pool env net t dc is_media orig_ip (s, r)).0.routes ≡ s.routes
  unfolding after_cf_pool try_cf_workers
  after_cf_pool-routes orig_ip s (some (ws, worker)) = refl
  after_cf_pool-routes orig_ip s none = after_workers-routes _ _ ∙ try_workers-routes _ _ _ _

  pub try_cf_fallback-routes :
      (s : Daemon W) (orig_ip : Bytes)
      → (try_cf_fallback env net t dc is_media s orig_ip).0.routes ≡ s.routes
  unfolding try_cf_fallback try_cf_pool
  try_cf_fallback-routes s orig_ip = elim (Bool-cases (cf_fallback_disabled env.no_cfproxy)) [
    | inl e ↦ rw e refl
    | inr e ↦ rw e (after_cf_pool-routes orig_ip _ _)
  ]

module _ {W : Type 0} (env : Env) (net : Net W) (t : Readings) (orig_ip initial : Bytes) (dc : ℤ)
    (is_media : Bool) where
  pub note_redirects-routes :
      (s : Daemon W) (all_blocked : Bool)
      → (note_redirects env net t orig_ip initial dc is_media s all_blocked).routes ≡ s.routes
  unfolding note_redirects
  note_redirects-routes s all_blocked = ground arith

  pub should_skip_ws-routes :
      (s : Daemon W) (now later : ℕ)
      → (should_skip_ws s dc is_media orig_ip now later).0.routes ≡ s.routes
  unfolding should_skip_ws
  should_skip_ws-routes s now later = ground arith
