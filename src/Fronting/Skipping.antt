-- ===== src/Fronting/Skipping.antt =====
-- How long fronting.rs leaves an address alone.
use wrtg.Prelude.{
  ℕ, ◌+◌, ◌≡◌, refl, arith, true, false, not, ◌||◌, Bool, Option, ltb, if◌then◌else◌,
}
use wrtg.Prelude.Int.{ℤ}
use wrtg.Prelude.Eq.{◌=?◌, ℕ_eq, ℤ_eq, pair_eq, list_eq}
use wrtg.Prelude.Bytes.{Bytes, is_empty}
use wrtg.TtlMap.Laws.{deadline, deadline-mark, is_active-out, deadline-clear}
use wrtg.Fronting.{
  FrontingFail, fronting_cooldown, fronting_enabled, mark_fronting_failed, clear_fronting_fail,
  should_skip_fronting,
}

should_skip_fronting-out :
    (sni : Option Bytes) (m : FrontingFail) (ip : Bytes) (dc : ℤ) (now : ℕ)
    → (should_skip_fronting sni m ip dc now).1
      ≡ (is_empty ip || not (fronting_enabled sni) || ltb now (deadline m (ip, dc)))
unfolding should_skip_fronting
should_skip_fronting-out sni m ip dc now = ground (arith, is_active-out m (ip, dc) now)

deadline-mark_fronting_failed :
    (env : Option Bytes) (m : FrontingFail) (ip : Bytes) (dc : ℤ) (now : ℕ) (k : Bytes × ℤ)
    → is_empty ip ≡ false
    → deadline (mark_fronting_failed env m ip dc now) k
      ≡ (if (ip, dc) =? k then now + fronting_cooldown env else deadline m k)
unfolding mark_fronting_failed
deadline-mark_fronting_failed env m ip dc now k h =
    rw h (deadline-mark m (ip, dc) (fronting_cooldown env) now k)

deadline-clear_fronting_fail :
    (m : FrontingFail) (ip : Bytes) (dc : ℤ) (k : Bytes × ℤ)
    → is_empty ip ≡ false
    → deadline (clear_fronting_fail m ip dc) k ≡ (if (ip, dc) =? k then 0 else deadline m k)
unfolding clear_fronting_fail
deadline-clear_fronting_fail m ip dc k h = rw h (deadline-clear m (ip, dc) k)

-- With fronting enabled, an address that fails at `failed` is skipped for its datacenter until the
-- cooldown has passed since that failure, whatever was known of it before, and a success after
-- that lifts the skip at once; another address or datacenter is skipped as before. The addresses are
-- not empty.
pub should_skip_fronting_lem :
    (sni env : Option Bytes) (m : FrontingFail) (ip ip' : Bytes) (dc dc' : ℤ) (failed asked : ℕ)
    → fronting_enabled sni ≡ true
    → is_empty ip ≡ false
    → is_empty ip' ≡ false
    → let marked = mark_fronting_failed env m ip dc failed in
      ((should_skip_fronting sni marked ip' dc' asked).1 ≡ (
        if ◌=?◌ {A = Bytes × ℤ} (ip, dc) (ip', dc')
        then ltb asked (failed + fronting_cooldown env)
        else (should_skip_fronting sni m ip' dc' asked).1))
      × ((should_skip_fronting sni (clear_fronting_fail marked ip dc) ip' dc' asked).1 ≡ (
          if ◌=?◌ {A = Bytes × ℤ} (ip, dc) (ip', dc')
          then false
          else (should_skip_fronting sni m ip' dc' asked).1))
should_skip_fronting_lem sni env m ip ip' dc dc' failed asked on h h' =
    let marked = mark_fronting_failed env m ip dc failed in
    rw
      (
        should_skip_fronting-out sni marked ip' dc' asked,
        should_skip_fronting-out sni (clear_fronting_fail marked ip dc) ip' dc' asked,
        should_skip_fronting-out sni m ip' dc' asked,
        deadline-clear_fronting_fail marked ip dc (ip', dc') h,
        deadline-mark_fronting_failed env m ip dc failed (ip', dc') h,
        on,
        h',
      )
      (
        within (◌=?◌ {A = Bytes × ℤ} (ip, dc) (ip', dc')),
        lifted (◌=?◌ {A = Bytes × ℤ} (ip, dc) (ip', dc')),
      )
  where
    known : ℕ
    known = deadline m (ip', dc')

    within :
        (same : Bool)
        → ltb asked (if same then failed + fronting_cooldown env else known)
          ≡ (if same then ltb asked (failed + fronting_cooldown env) else ltb asked known)
    within true = refl
    within false = refl

    lifted :
        (same : Bool)
        → ltb asked (if same then 0 else (if same then failed + fronting_cooldown env else known))
          ≡ (if same then false else ltb asked known)
    lifted true = ground arith
    lifted false = refl
