-- ===== src/Bridge/Direct/Late.antt =====
-- bridge.rs, `try_ws_bridge`: the time-out that it reports, and the attempts.
use wrtg.Prelude.{
  ℕ, ◌≡◌, refl, inl, inr, arith, Bool, true, false, not, ◌||◌, ◌&&◌, Option, none, some, any,
  Bool-cases, Option-cases,
}
use wrtg.Prelude.Int.{ℤ}
use wrtg.Prelude.Bytes.{Bytes}
use wrtg.Prelude.Results.{Result}
use wrtg.Mtproto.Routing.{ws_domains}
use wrtg.IpFail.{Fails, ws_connect_timeout}
use wrtg.Fronting.{Attempt, FrontingFail, fronting_sni, fronting_enabled, should_skip_fronting}
use wrtg.Fronting.Outcome.{ran_out, report, try_domains-report, try_ws_fronting_lem}
use wrtg.Bridge.State.{Env, Daemon}
use wrtg.Bridge.Direct.{
  WsBridgeResult, Dialer, Clock, give_up, connect_timeout, try_ws_with_domains, after_fronting,
  try_front, after_direct, try_direct, try_pooled, after_pool,
}

module _ {W : Type 0} (env : Env) (net : Dialer W) (t : Clock) (target : Bytes) (dc : ℤ)
    (is_media : Bool) where
  -- Some attempt on the address under one of the names of the datacenter runs out of time.
  abbrev pub some_late : (Bytes → Attempt W) → Bool
  some_late attempt = any (λ domain. ran_out (attempt domain)) (ws_domains dc is_media)

  -- Some direct attempt does, within the limit that it asks for, or, where the front is tried, some attempt through it.
  abbrev pub attempts_late : Fails → FrontingFail → Bool
  attempts_late fails front =
      let (fails', limit) = ws_connect_timeout env.ip fails dc is_media t.started in
      let direct_limit = (ws_connect_timeout env.ip fails' dc is_media t.started).1 in
      let skipped = (should_skip_fronting env.fronting_sni front target dc t.gate).1 in
      some_late (net.direct direct_limit target)
      || (not skipped && some_late (net.fronted limit target))

  abbrev pub Says : Bool → WsBridgeResult W → Type 0
  Says late (WsBridgeResult.connected by ws domain) = Unit {0}
  Says late (WsBridgeResult.failed all_blocked timed_out) = timed_out ≡ late

  give_up-Says :
      (s : Daemon W) (all_blocked timed_out late : Bool)
      → timed_out ≡ late
      → Says late (give_up env s target dc is_media all_blocked timed_out t.given_up).1
  unfolding give_up
  give_up-Says s all_blocked timed_out late e = e

  after_fronting-Says :
      (s : Daemon W) (all_blocked timed_out : Bool) (attempt : Bytes → Attempt W)
      (o : Option (W × Bytes))
      → Says
          (timed_out || some_late attempt)
          (after_fronting env net t s target dc is_media all_blocked timed_out
            (report true false attempt (ws_domains dc is_media) o)).1
  unfolding after_fronting
  after_fronting-Says s all_blocked timed_out attempt (some r) = tt
  after_fronting-Says s all_blocked timed_out attempt none = give_up-Says _ _ _ _ refl

  -- Where the front is not skipped, it is set.
  front_set :
      (m : FrontingFail)
      → (should_skip_fronting env.fronting_sni m target dc t.gate).1 ≡ false
      → (name : Bytes) × (fronting_sni env.fronting_sni ≡ some name)
  unfolding should_skip_fronting fronting_enabled
  front_set m e = elim (Option-cases (fronting_sni env.fronting_sni)) [
    | inr (name, q) ↦ (name, q)
    | inl q ↦ absurd (ground (arith, q, e))
  ]

  try_front-Says :
      (limit : ℕ) (s : Daemon W) (all_blocked timed_out : Bool)
      → Says
          (timed_out
            || (not (should_skip_fronting env.fronting_sni s.fronting_fail target dc t.gate).1
                && some_late (net.fronted limit target)))
          (try_front env net t limit s target dc is_media all_blocked timed_out).1
  unfolding try_front
  try_front-Says limit s all_blocked timed_out =
      elim (Bool-cases (should_skip_fronting env.fronting_sni s.fronting_fail target dc t.gate).1) [
        | inl e ↦ rw (e) (give_up-Says _ all_blocked timed_out _ (ground arith))
        | inr e ↦
            let (name, q) = front_set s.fronting_fail e in
            rw
              (
                e,
                try_ws_fronting_lem env.fronting_sni name dc is_media (net.fronted limit target) q,
              )
              (after_fronting-Says _ all_blocked timed_out (net.fronted limit target) _)
      ]

  after_direct-Says :
      (limit : ℕ) (s : Daemon W) (attempt : Bytes → Attempt W) (o : Option (W × Bytes))
      (r : Result (Bool × Bool) (W × Bytes))
      → r ≡ report true false attempt (ws_domains dc is_media) o
      → Says
          (some_late attempt
            || (not (should_skip_fronting env.fronting_sni s.fronting_fail target dc t.gate).1
                && some_late (net.fronted limit target)))
          (after_direct env net t limit s target dc is_media r).1
  unfolding after_direct
  after_direct-Says limit s attempt (some got) r e = rw e tt
  after_direct-Says limit s attempt none r e = rw e (try_front-Says limit s _ (some_late attempt))

  pub after_pool-Says :
      (s : Daemon W) (r : Option (W × Bytes))
      → Says
          (attempts_late s.fails s.fronting_fail)
          (after_pool env net t target dc is_media (s, r)).1
  unfolding try_direct connect_timeout try_ws_with_domains
  after_pool-Says s (some (ws, domain)) = tt
  after_pool-Says s none =
      let (fails, limit) = ws_connect_timeout env.ip s.fails dc is_media t.started in
      let direct_limit = (ws_connect_timeout env.ip fails dc is_media t.started).1 in
      after_direct-Says limit _ (net.direct direct_limit target) _ _
        (try_domains-report true false (net.direct direct_limit target) (ws_domains dc is_media))

  pub try_pooled_keeps :
      (s : Daemon W)
      → ((try_pooled env net t s dc is_media).0.fails ≡ s.fails)
        × ((try_pooled env net t s dc is_media).0.fronting_fail ≡ s.fronting_fail)
  unfolding try_pooled
  try_pooled_keeps s = ground arith
