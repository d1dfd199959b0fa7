-- ===== src/Fronting.antt =====
-- crates/wrtg/src/fronting.rs: a WebSocket under another name's certificate, and when not to try it.
-- The connector is outside: an attempt is what it gives, with what sending the relay packet gives.
pub mod Outcome
pub mod Skipping
use wrtg.Prelude.{
  ℕ, Bool, true, false, not, ◌&&◌, ◌||◌, Option, none, some, List, [], ◌∷◌, ◌==◌, if◌then◌else◌,
}
use wrtg.Prelude.Int.{ℤ}
use wrtg.Prelude.Eq.{ℕ_eq, ℤ_eq, pair_eq, list_eq}
use wrtg.Prelude.Bytes.{Bytes, is_empty, trim, trim_start, trim_end}
use wrtg.Prelude.Durations.{from_secs, env_secs, unwrap_or}
use wrtg.Prelude.Results.{Result, ok, err}
use wrtg.TtlMap
use wrtg.TtlMap.{TtlMap}
use wrtg.Ws.Error.{ErrorKind, timed_out, WsConnectError, is_ws_redirect_err, into_io}
use wrtg.Mtproto.Routing.{ws_domains}

-- `WRTG_FRONTING_COOLDOWN_SEC`.
unfoldable pub fronting_cooldown : Option Bytes → ℕ
fronting_cooldown env = from_secs (unwrap_or (env_secs env) 1800)

abbrev without_returns : Bytes → Bytes
without_returns s = trim_end (λ c. c == b'\r') (trim_start (λ c. c == b'\r') s)

-- `WRTG_FRONTING_SNI`.
unfoldable pub fronting_sni : Option Bytes → Option Bytes
fronting_sni none = none
fronting_sni (some s) =
    let name = without_returns (trim s) in if is_empty name then none else some name

unfoldable pub fronting_enabled : Option Bytes → Bool
fronting_enabled env = elim (fronting_sni env) [ none ↦ false | some name ↦ true ]

abbrev pub FrontingFail : Type 0
FrontingFail = TtlMap (Bytes × ℤ)

unfoldable pub mark_fronting_failed : Option Bytes → FrontingFail → Bytes → ℤ → ℕ → FrontingFail
mark_fronting_failed env m ip dc now =
    if is_empty ip then m else TtlMap.mark m (ip, dc) (fronting_cooldown env) now

unfoldable pub clear_fronting_fail : FrontingFail → Bytes → ℤ → FrontingFail
clear_fronting_fail m ip dc = if is_empty ip then m else (TtlMap.clear m (ip, dc)).0

unfoldable pub should_skip_fronting :
    Option Bytes → FrontingFail → Bytes → ℤ → ℕ → FrontingFail × Bool
should_skip_fronting sni m ip dc now =
    if is_empty ip || not (fronting_enabled sni) then (m, true) else TtlMap.is_active m (ip, dc) now

unfoldable pub reset_all : FrontingFail → FrontingFail
reset_all m = TtlMap.clear_all m

-- `connected` says whether the relay packet could be sent.
pub data Attempt (W : Type 0) : Type 0 where
  out_of_time : Attempt W
  refused : WsConnectError → Attempt W
  connected : W → Bool → Attempt W

abbrev pub is_timed_out : ErrorKind → Bool
is_timed_out timed_out = true
is_timed_out _ = false

module _ {W : Type 0} where
  -- The loop over the names, with the two flags.
  unfoldable pub try_domains :
      Bool → Bool → (Bytes → Attempt W) → List Bytes → Result (Bool × Bool) (W × Bytes)
  try_domains all_blocked timed_out_ attempt [] = err (all_blocked, timed_out_)
  try_domains all_blocked timed_out_ attempt (domain ∷ domains) = elim (attempt domain) [
    | out_of_time ↦ try_domains false true attempt domains
    | refused e ↦
        try_domains (all_blocked && is_ws_redirect_err e)
          (timed_out_ || is_timed_out (into_io e).kind) attempt domains
    | connected ws sent ↦
        let rest = try_domains false timed_out_ attempt domains in
        if sent then ok (ws, domain) else rest
  ]

  unfoldable pub try_ws_fronting :
      Option Bytes → ℤ → Bool → (Bytes → Attempt W) → Result (Bool × Bool) (W × Bytes)
  try_ws_fronting sni dc is_media attempt = elim (fronting_sni sni) [
    | none ↦ err (false, false)
    | some name ↦ try_domains true false attempt (ws_domains dc is_media)
  ]
