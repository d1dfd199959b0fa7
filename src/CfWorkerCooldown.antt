-- ===== src/CfWorkerCooldown.antt =====
-- crates/wrtg/src/cf_worker_cooldown.rs: which Cloudflare Workers to leave alone, and for how long.
-- The two statics are a record. Within one function the clock is read once.
pub mod Account
mod Examples
use wrtg.Prelude.{
  ℕ, ◌+◌, ◌-◌, max, Bool, true, false, not, ◌||◌, Option, none, some, List, [], ◌∷◌, ◌++◌, ◌==◌,
  if◌then◌else◌, length,
}
use wrtg.Prelude.Eq.{ℕ_eq, list_eq, ◌=?◌}
use wrtg.Prelude.Bytes.{Bytes, bytes, is_empty, trim, trim_end, lowercase, strip_suffix, split_at}
use wrtg.Prelude.Durations.{from_secs, env_positive, unwrap_or}
use wrtg.Ws.Error.{WsConnectError, http_status}
use wrtg.Cooldown429
use wrtg.Cooldown429.{Settings, Cooldowns}

-- `WRTG_CF_WORKER_429_COOLDOWN_SEC` and `WRTG_CF_WORKER_429_MAX_COOLDOWN_SEC`.
unfoldable pub base_cooldown : Option Bytes → ℕ
base_cooldown env = from_secs (unwrap_or (env_positive env) 60)

unfoldable pub max_cooldown : Option Bytes → ℕ
max_cooldown env = from_secs (unwrap_or (env_positive env) 900)

unfoldable pub settings : Option Bytes → Option Bytes → Settings
settings base max_ = record { base = base_cooldown base; max = max_cooldown max_ }

pub record Workers : Type 0 where
  pub cf_worker_429 : Cooldowns
  pub cf_worker_503 : Cooldowns

unfoldable pub worker_rate_limited : Settings → Workers → Bytes → ℕ → Workers × Bool
worker_rate_limited c s worker now =
    let (m, limited) = Cooldown429.is_active c s.cf_worker_429 worker now now in
    let (m', broken) = Cooldown429.is_active c s.cf_worker_503 worker now now in
    if limited
    then (record s { cf_worker_429 = m }, true)
    else (record { cf_worker_429 = m; cf_worker_503 = m' }, broken)

unfoldable pub worker_cooldown_remaining : Settings → Workers → Bytes → ℕ → Workers × ℕ
worker_cooldown_remaining c s worker now =
    let (m, a) = Cooldown429.remaining c s.cf_worker_429 worker now now in
    let (m', b) = Cooldown429.remaining c s.cf_worker_503 worker now now in
    (record { cf_worker_429 = m; cf_worker_503 = m' }, max a b)

abbrev pub has_status : WsConnectError → ℕ → Bool
has_status e code = elim (http_status e) [ none ↦ false | some status ↦ status == code ]

-- The log line, which is written by default, asks for what remains, and may drop a stale entry.
unfoldable pub mark_worker_429 : Settings → Workers → Bytes → WsConnectError → ℕ → Workers
mark_worker_429 c s worker e now =
    if has_status e 429
    then (worker_cooldown_remaining c
        (record s { cf_worker_429 = Cooldown429.mark c s.cf_worker_429 worker e now }) worker now).0
    else s

-- `s.rsplit('.').next()`
abbrev last_piece : List Bytes → Bytes
last_piece [] = []
last_piece (piece ∷ []) = piece
last_piece (piece ∷ next ∷ pieces) = last_piece (next ∷ pieces)

unfoldable pub account_key : Bytes → Option Bytes
account_key text =
    let host = lowercase (trim_end (λ c. c == b'.') (trim text)) in
    elim (strip_suffix host (bytes ".workers.dev")) [
      | none ↦ none
      | some rest ↦
          let account = last_piece (split_at (λ c. c == b'.') rest) in
          if is_empty account then none else some (account ++ bytes ".workers.dev")
    ]

abbrev pub same_account : Bytes → Bytes → Bool
same_account account peer = elim (account_key peer) [ none ↦ false | some other ↦ other =? account ]

-- The loop over the configured siblings.
unfoldable pub cool_peers :
    Settings → Workers → Bytes → WsConnectError → Bytes → ℕ → List Bytes → Workers
cool_peers c s worker e account now [] = s
cool_peers c s worker e account now (peer ∷ peers) =
    if lowercase peer =? lowercase worker
    then cool_peers c s worker e account now peers
    else (let (s', limited) = worker_rate_limited c s peer now in
        cool_peers c
          (if limited || not (same_account account peer)
            then s'
            else record s' { cf_worker_429 = Cooldown429.mark c s'.cf_worker_429 peer e now })
          worker e account now peers)

unfoldable pub mark_worker_429_with_peers :
    Settings → Workers → Bytes → WsConnectError → List Bytes → ℕ → Workers
mark_worker_429_with_peers c s worker e peers now =
    if has_status e 503
    then (let marked = Cooldown429.mark c s.cf_worker_503 worker e now in
        record s { cf_worker_503 = (Cooldown429.remaining c marked worker now now).0 })
    else if has_status e 429
    then (elim (account_key worker) [
      | none ↦ mark_worker_429 c s worker e now
      | some account ↦ cool_peers c (mark_worker_429 c s worker e now) worker e account now peers
    ])
    else s

unfoldable pub clear_worker_429 : Workers → Bytes → Workers
clear_worker_429 s worker = record {
  cf_worker_429 = Cooldown429.clear s.cf_worker_429 worker;
  cf_worker_503 = Cooldown429.clear s.cf_worker_503 worker;
}

-- `into_iter().filter(..)`, with the map as each test leaves it.
unfoldable pub filter_usable : Settings → Workers → List Bytes → ℕ → Workers × List Bytes
filter_usable c s [] now = (s, [])
filter_usable c s (w ∷ workers) now =
    let (s', limited) = worker_rate_limited c s w now in
    let (s'', usable) = filter_usable c s' workers now in
    (s'', if limited then usable else w ∷ usable)

unfoldable pub usable_workers : Settings → Workers → List Bytes → ℕ → Workers × (List Bytes × ℕ)
usable_workers c s workers now =
    let (s', usable) = filter_usable c s workers now in
    (s', (usable, length workers - length usable))
