-- ===== src/IpFail/Skipping.antt =====
-- How long ip_fail.rs skips a path, and what lifts the skip.
use wrtg.Prelude.{
  ℕ, ◌+◌, ◌≤◌, ◌<◌, ◌≡◌, refl, Bool, false, arith, ltb, leb, not, ◌&&◌, if◌then◌else◌,
}
use wrtg.Prelude.Int.{ℤ}
use wrtg.Prelude.Eq.{◌=?◌, =?_refl, =?_iff, ℕ_eq, ℤ_eq, Bool_eq, pair_eq, list_eq}
use wrtg.Prelude.Bytes.{Bytes, is_empty}
use wrtg.Prelude.Durations.{from_secs}
use wrtg.TtlMap
use wrtg.TtlMap.Laws.{deadline, deadline-mark_if_absent, is_active-out, deadline-clear}
use wrtg.WsBlacklist.{Blacklist, ws_blacklisted, clear_ws_blacklisted}
use wrtg.IpFail.{
  Env, Fails, cooldown, mark_ip_failed, should_skip_direct_ws, ws_connect_timeout, clear_ip_fail,
  clear_dc_fail, clear_ws_skip_state, ws_timeout_fast, ws_timeout_normal,
}

pub deadline-mark_ip_failed :
    (env : Env) (s : Fails) (ip : Bytes) (dc : ℤ) (now : ℕ) (k : Bytes × ℤ)
    → deadline (mark_ip_failed env s ip dc now).ip_fail k ≡ (
        if not (is_empty ip) && (ip, dc) =? k && leb (deadline s.ip_fail (ip, dc)) now
        then now + cooldown env
        else deadline s.ip_fail k)
unfolding mark_ip_failed
deadline-mark_ip_failed env s ip dc now k =
    ground (arith, deadline-mark_if_absent s.ip_fail (ip, dc) (cooldown env) now k)

pub should_skip_direct_ws-out :
    (s : Fails) (ip : Bytes) (dc : ℤ) (now : ℕ)
    → (should_skip_direct_ws s ip dc now).1
      ≡ (not (is_empty ip) && ltb now (deadline s.ip_fail (ip, dc)))
unfolding should_skip_direct_ws
should_skip_direct_ws-out s ip dc now = ground (arith, is_active-out s.ip_fail (ip, dc) now)

-- An address that was not being skipped and fails at `first` is skipped until `cooldown` has passed
-- since then: a failure reported in between does not move the end, and a failure of another
-- address or datacenter does not either.
pub should_skip_direct_ws-mark_ip_failed :
    (env : Env) (s : Fails) (ip ip' : Bytes) (dc dc' : ℤ) (first second asked : ℕ)
    → is_empty ip ≡ false
    → deadline s.ip_fail (ip, dc) ≤ first
    → second < first + cooldown env
    → (should_skip_direct_ws
        (mark_ip_failed env (mark_ip_failed env s ip dc first) ip' dc' second)
        ip
        dc
        asked).1
      ≡ ltb asked (first + cooldown env)
should_skip_direct_ws-mark_ip_failed env s ip ip' dc dc' first second asked some_ip quiet h =
    rw (should_skip_direct_ws-out _ ip dc asked, some_ip, marked) refl
  where
    key : Bytes × ℤ
    key = (ip, dc)

    once : deadline (mark_ip_failed env s ip dc first).ip_fail key ≡ first + cooldown env
    once =
        ground (arith, deadline-mark_ip_failed env s ip dc first key, =?_refl {A = Bytes × ℤ} key)

    same :
        (k : Bytes × ℤ)
        → k ≡ key
        → deadline (mark_ip_failed env s ip dc first).ip_fail k ≡ first + cooldown env
    same k p = rw p once

    marked :
        deadline (mark_ip_failed env (mark_ip_failed env s ip dc first) ip' dc' second).ip_fail key
        ≡ first + cooldown env
    marked = ground (
      arith,
      once,
      deadline-mark_ip_failed env (mark_ip_failed env s ip dc first) ip' dc' second key,
      =?_iff {A = Bytes × ℤ} (ip', dc') key,
      same (ip', dc'),
    )

-- Success on the direct path lifts every skip of that path at once: no skip of the address, no
-- blacklisting, and the full timeout, whatever was recorded before.
pub clear_ws_skip_state_lem :
    (env : Env) (s : Fails) (blacklist : Blacklist) (ip : Bytes) (dc : ℤ) (is_media : Bool)
    (now : ℕ)
    → let after = clear_ws_skip_state (s, blacklist) ip dc is_media in
      ((should_skip_direct_ws after.0 ip dc now).1 ≡ false)
      × ((ws_blacklisted after.1 dc is_media now).1 ≡ false)
      × ((ws_connect_timeout env after.0 dc is_media now).1 ≡ ws_timeout_normal env)
unfolding clear_ws_skip_state should_skip_direct_ws ws_blacklisted ws_connect_timeout clear_ip_fail
    clear_dc_fail clear_ws_blacklisted
clear_ws_skip_state_lem env s blacklist ip dc is_media now = ground (
  arith,
  is_active-out (TtlMap.clear s.ip_fail (ip, dc)).0 (ip, dc) now,
  deadline-clear s.ip_fail (ip, dc) (ip, dc),
  =?_refl {A = Bytes × ℤ} (ip, dc),
  is_active-out (TtlMap.clear s.dc_fail (dc, is_media)).0 (dc, is_media) now,
  deadline-clear s.dc_fail (dc, is_media) (dc, is_media),
  is_active-out (TtlMap.clear blacklist (dc, is_media)).0 (dc, is_media) now,
  deadline-clear blacklist (dc, is_media) (dc, is_media),
  =?_refl {A = ℤ × Bool} (dc, is_media),
)

-- The wait for a WebSocket is the short one exactly while the datacenter's failure is recent, and
-- at least a second whatever the environment says.
pub ws_connect_timeout_bounds :
    (env : Env) (s : Fails) (dc : ℤ) (is_media : Bool) (now : ℕ)
    → let t = (ws_connect_timeout env s dc is_media now).1 in
      (from_secs 1 ≤ t)
      × (t ≡ (
          if ltb now (deadline s.dc_fail (dc, is_media))
          then ws_timeout_fast env
          else ws_timeout_normal env))
unfolding ws_connect_timeout ws_timeout_fast ws_timeout_normal
ws_connect_timeout_bounds env s dc is_media now =
    ground (arith, is_active-out s.dc_fail (dc, is_media) now)
