-- ===== src/Bridge/Direct/Skips.antt =====
-- bridge.rs: what a WebSocket attempt leaves for the sessions after it.
use mathlib.Core.Path.{ap₂}
use wrtg.Prelude.{
  subst, not, true, ℕ, ◌+◌, ◌≤◌, ◌≡◌, ◌∙◌, ap, arith, Bool, false, ◌&&◌, ◌||◌, inl, inr, Option,
  none, some, ltb, leb, if◌then◌else◌, Bool-cases,
}
use wrtg.Prelude.Int.{ℤ}
use wrtg.Prelude.Eq.{ℕ_eq, ℤ_eq, pair_eq, list_eq, =?_refl}
use wrtg.Prelude.Bytes.{Bytes, is_empty}
use wrtg.Prelude.Results.{Result, ok, err}
use wrtg.TtlMap.Laws.{deadline, deadline-clear}
use wrtg.Mtproto.Routing.{ws_target_ip}
use wrtg.IpFail.{
  cooldown, ws_connect_timeout, mark_dc_failed, clear_ip_fail, clear_dc_fail, should_skip_direct_ws,
}
use wrtg.IpFail.Skipping.{deadline-mark_ip_failed, should_skip_direct_ws-out}
use wrtg.Fronting.{should_skip_fronting}
use wrtg.Bridge.State.{Env, Daemon}
use wrtg.Bridge.Direct.Late.{attempts_late, Says, after_pool-Says, try_pooled_keeps}
use wrtg.Bridge.Direct.{
  WsBridgeResult, Dialer, Clock, clear_skips, give_up, connect_timeout, try_ws_with_domains,
  after_fronting, try_front, after_direct, try_direct, try_pooled, after_pool, try_ws_bridge,
}

-- The instant until which the direct path to an address is skipped.
abbrev pub until : {W : Type 0} → Daemon W → Bytes → ℤ → ℕ
until s target dc = deadline s.fails.ip_fail (target, dc)

abbrev pub is_connected : {W : Type 0} → WsBridgeResult W → Bool
is_connected (WsBridgeResult.connected by ws domain) = true
is_connected (WsBridgeResult.failed all_blocked timed_out) = false

module _ {W : Type 0} (env : Env) (t : Clock) (target : Bytes) (dc : ℤ) (is_media : Bool) where
  -- The instant after an attempt, from that before it and what the attempt came to.
  abbrev then_until : ℕ → WsBridgeResult W → ℕ
  then_until u (WsBridgeResult.connected by ws domain) = 0
  then_until u (WsBridgeResult.failed all_blocked timed_out) =
      if timed_out && leb u t.given_up then t.given_up + cooldown env.ip else u

  abbrev Follows : Daemon W → Daemon W × WsBridgeResult W → Type 0
  Follows s p = until p.0 target dc ≡ then_until (until s target dc) p.1

  module _ (named : is_empty target ≡ false) where
    clear_skips-until : (s : Daemon W) → until (clear_skips env s target dc is_media) target dc ≡ 0
    unfolding clear_skips clear_ip_fail clear_dc_fail
    clear_skips-until s = ground (
      arith,
      deadline-clear s.fails.ip_fail (target, dc) (target, dc),
      =?_refl {A = Bytes × ℤ} (target, dc),
    )

    give_up-Follows :
        (s : Daemon W) (all_blocked timed_out : Bool)
        → Follows s (give_up env s target dc is_media all_blocked timed_out t.given_up)
    unfolding give_up mark_dc_failed
    give_up-Follows s all_blocked timed_out = ground (
      arith,
      deadline-mark_ip_failed env.ip s.fails target dc t.given_up (target, dc),
      =?_refl {A = Bytes × ℤ} (target, dc),
    )

    module _ (net : Dialer W) where
      after_fronting-Follows :
          (s : Daemon W) (all_blocked timed_out : Bool) (r : Result (Bool × Bool) (W × Bytes))
          → Follows s (after_fronting env net t s target dc is_media all_blocked timed_out r)
      unfolding after_fronting
      after_fronting-Follows s all_blocked timed_out (ok (ws, domain)) = clear_skips-until s
      after_fronting-Follows s all_blocked timed_out (err (f_blocked, f_timed_out)) =
          give_up-Follows _ (all_blocked && f_blocked) (timed_out || f_timed_out)

      try_front-Follows :
          (limit : ℕ) (s : Daemon W) (all_blocked timed_out : Bool)
          → Follows s (try_front env net t limit s target dc is_media all_blocked timed_out)
      unfolding try_front
      try_front-Follows limit s all_blocked timed_out =
          let gated = should_skip_fronting env.fronting_sni s.fronting_fail target dc t.gate in
          elim (Bool-cases gated.1) [
            | inl q ↦ rw q (give_up-Follows _ all_blocked timed_out)
            | inr q ↦ rw q (after_fronting-Follows _ all_blocked timed_out _)
          ]

      after_direct-Follows :
          (limit : ℕ) (s : Daemon W) (r : Result (Bool × Bool) (W × Bytes))
          → Follows s (after_direct env net t limit s target dc is_media r)
      unfolding after_direct
      after_direct-Follows limit s (ok (ws, domain)) = clear_skips-until s
      after_direct-Follows limit s (err (all_blocked, timed_out)) =
          try_front-Follows limit s all_blocked timed_out

      after_pool-Follows :
          (s : Daemon W) (r : Option (W × Bytes))
          → Follows s (after_pool env net t target dc is_media (s, r))
      unfolding try_direct connect_timeout try_ws_with_domains ws_connect_timeout
      after_pool-Follows s (some (ws, domain)) = clear_skips-until s
      after_pool-Follows s none = after_direct-Follows _ _ _

      try_pooled-until :
          (s : Daemon W)
          → until (try_pooled env net t s dc is_media).0 target dc ≡ until s target dc
      unfolding try_pooled
      try_pooled-until s = ground arith

-- A session that was let through to the WebSocket and is not connected by it keeps the sessions after it
-- off the direct path until the cooldown has passed, if an attempt on the address ran out of time
-- under some name, directly or, where the front is tried, through it; if none did, or if the pool, the
-- direct path or the front connects the session, the path stays open. `asked` is a later instant.
pub try_ws_bridge_skips :
    {W : Type 0} (env : Env) (net : Dialer W) (t : Clock) (s : Daemon W) (dc : ℤ) (is_media : Bool)
    (orig_ip : Bytes) (asked : ℕ)
    → is_empty (ws_target_ip s.routes dc orig_ip) ≡ false
    → until s (ws_target_ip s.routes dc orig_ip) dc ≤ t.given_up
    → t.given_up ≤ asked
    → (should_skip_direct_ws
        (try_ws_bridge env net t s dc is_media orig_ip).0.fails
        (ws_target_ip s.routes dc orig_ip)
        dc
        asked).1
      ≡ (not (is_connected (try_ws_bridge env net t s dc is_media orig_ip).1)
          && (attempts_late env net t
                (ws_target_ip s.routes dc orig_ip)
                dc
                is_media
                s.fails
                s.fronting_fail
              && ltb asked (t.given_up + cooldown env.ip)))
unfolding try_ws_bridge
try_ws_bridge_skips {W} env net t s dc is_media orig_ip asked named quiet h =
    rw (should_skip_direct_ws-out _ (ws_target_ip s.routes dc orig_ip) dc asked, named)
      (by_result (after_pool env net t target dc is_media tried) follows said)
  where
    target : Bytes
    target = ws_target_ip s.routes dc orig_ip

    tried : Daemon W × Option (W × Bytes)
    tried = try_pooled env net t s dc is_media

    follows : Follows env t target dc is_media s (after_pool env net t target dc is_media tried)
    follows =
        after_pool-Follows env t target dc is_media named net tried.0 tried.1
        ∙ ap
            (λ u.
              then_until env t target dc is_media u
                (after_pool env net t target dc is_media tried).1)
            (try_pooled-until env t target dc is_media named net s)

    late : Bool
    late = attempts_late env net t target dc is_media s.fails s.fronting_fail

    kept : attempts_late env net t target dc is_media tried.0.fails tried.0.fronting_fail ≡ late
    kept =
        let (e, q) = try_pooled_keeps env net t target dc is_media s in
        ap₂ (attempts_late env net t target dc is_media) e q

    said : Says env net t target dc is_media late (after_pool env net t target dc is_media tried).1
    said =
        subst
          (λ b.
            Says env net t target dc is_media b (after_pool env net t target dc is_media tried).1)
          kept (after_pool-Says env net t target dc is_media tried.0 tried.1)

    by_result :
        (p : Daemon W × WsBridgeResult W)
        → Follows env t target dc is_media s p
        → Says env net t target dc is_media late p.1
        → ltb asked (until p.0 target dc)
          ≡ (not (is_connected p.1) && (late && ltb asked (t.given_up + cooldown env.ip)))
    by_result (s', WsBridgeResult.connected by ws domain) f k = rw f (ground arith)
    by_result (s', WsBridgeResult.failed all_blocked timed_out) f k = rw (f, k) (ground arith)
