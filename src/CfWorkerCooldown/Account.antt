-- ===== src/CfWorkerCooldown/Account.antt =====
-- cf_worker_cooldown.rs: a spent quota is the account's, so one refusal is enough for all its Workers.
use wrtg.Prelude.{
  ℕ, ◌+◌, ◌≤◌, ◌<◌, ◌≡◌, inl, inr, refl, sym, subst, ◌∙◌, arith, Bool, true, false, not, ◌||◌,
  Option, none, some, List, [], ◌∷◌, ltb, if◌then◌else◌, Bool-cases, any,
}
use wrtg.Prelude.Eq.{ℕ_eq, list_eq, ◌=?◌, =?_refl, =?_iff}
use wrtg.Prelude.Map
use wrtg.Prelude.Bytes.{Bytes, is_empty, lowercase}
use wrtg.Prelude.Durations.{unwrap_or}
use wrtg.Ws.Error.{WsConnectError, http_status, retry_after_from_err}
use wrtg.Cooldown429
use wrtg.Cooldown429.Backoff.{next_delay_lem, below_power}
use wrtg.Cooldown429.Escalation.{struck, get-mark_for}
use wrtg.Cooldown429.{
  CooldownState, Settings, duration_max, Cooldowns, default_state, next_delay, normalize, remaining,
  is_active, mark_for,
}
use wrtg.CfWorkerCooldown.{
  Workers, same_account, has_status, worker_rate_limited, worker_cooldown_remaining,
  mark_worker_429, account_key, cool_peers, mark_worker_429_with_peers,
}

-- The instant until which a key is to be skipped; 0 where there is none.
abbrev deadline_of : Option CooldownState → ℕ
deadline_of none = 0
deadline_of (some state) = unwrap_or state.until 0

abbrev until_of : Cooldowns → Bytes → ℕ
until_of m k = deadline_of (Map.get m k)

is_active-until :
    (c : Settings) (m : Cooldowns) (key : Bytes) (now : ℕ)
    → is_empty (normalize key) ≡ false
    → (is_active c m key now now).1 ≡ ltb now (until_of m (normalize key))
unfolding is_active remaining
is_active-until c m key now h = ground arith

-- A question drops stale entries only.
until_of-is_active :
    (c : Settings) (m : Cooldowns) (key k : Bytes) (now : ℕ)
    → ltb now (until_of (is_active c m key now now).0 k) ≡ ltb now (until_of m k)
unfolding is_active remaining
until_of-is_active c m key k now =
    ground (arith, Map.get-remove m (normalize key) k, =?_iff (normalize key) k)

-- A failure at `now` keeps its key out for longer than `now`, and every other key as it was.
until_of-mark_for :
    (c : Settings) (m : Cooldowns) (key k : Bytes) (retry_after now : ℕ)
    → is_empty (normalize key) ≡ false
    → until_of (mark_for c m key retry_after now now now) k ≡ (
        if normalize key =? k
        then now
          + next_delay c (unwrap_or (Map.get m (normalize key)) default_state) retry_after now
        else until_of m k)
until_of-mark_for c m key k retry_after now h =
    rw (get-mark_for c m key retry_after now k h) (either (normalize key =? k))
  where
    state : CooldownState
    state = struck c (unwrap_or (Map.get m (normalize key)) default_state) retry_after now

    either :
        (b : Bool)
        → deadline_of (if b then some state else Map.get m k)
          ≡ (if b then unwrap_or state.until 0 else until_of m k)
    either true = refl
    either false = refl

-- Two ways to be kept out.
abbrev limited : Workers → Bytes → ℕ → Bool
limited s worker now =
    ltb now (until_of s.cf_worker_429 (normalize worker))
    || ltb now (until_of s.cf_worker_503 (normalize worker))

worker_rate_limited-answer :
    (c : Settings) (s : Workers) (worker : Bytes) (now : ℕ)
    → is_empty (normalize worker) ≡ false
    → (worker_rate_limited c s worker now).1 ≡ limited s worker now
unfolding worker_rate_limited
worker_rate_limited-answer c s worker now h = ground (
  arith,
  is_active-until c s.cf_worker_429 worker now h,
  is_active-until c s.cf_worker_503 worker now h,
)

worker_rate_limited-limited :
    (c : Settings) (s : Workers) (worker other : Bytes) (now : ℕ)
    → limited (worker_rate_limited c s worker now).0 other now ≡ limited s other now
unfolding worker_rate_limited
worker_rate_limited-limited c s worker other now = ground (
  arith,
  until_of-is_active c s.cf_worker_429 worker (normalize other) now,
  until_of-is_active c s.cf_worker_503 worker (normalize other) now,
)

-- Settings under which a failure is felt.
abbrev pub IsPositive : Settings → Type 0
IsPositive c = (0 < c.base) × (0 < c.max) × (c.max ≤ duration_max)

next_delay-pos :
    (c : Settings) (prev : CooldownState) (retry_after now : ℕ)
    → IsPositive c
    → 0 < next_delay c prev retry_after now
next_delay-pos c prev retry_after now h =
    ground (arith, next_delay_lem c prev retry_after now h.2, below_power c.base prev.strikes)

abbrev marked : Settings → Workers → Bytes → WsConnectError → ℕ → Workers
marked c s key e now = record s { cf_worker_429 = Cooldown429.mark c s.cf_worker_429 key e now }

marked_self :
    (c : Settings) (s : Workers) (key : Bytes) (e : WsConnectError) (now : ℕ)
    → IsPositive c
    → is_empty (normalize key) ≡ false
    → limited (marked c s key e now) key now ≡ true
unfolding Cooldown429.mark
marked_self c s key e now h n = ground (
  arith,
  until_of-mark_for c s.cf_worker_429 key (normalize key) (retry_after_from_err e) now n,
  =?_refl (normalize key),
  next_delay-pos c (unwrap_or (Map.get s.cf_worker_429 (normalize key)) default_state)
      (retry_after_from_err e) now h,
)

mark_for_empty :
    (c : Settings) (m : Cooldowns) (key : Bytes) (retry_after now : ℕ)
    → is_empty (normalize key) ≡ true
    → mark_for c m key retry_after now now now ≡ m
unfolding mark_for
mark_for_empty c m key retry_after now n = rw n refl

marked-keeps :
    (c : Settings) (s : Workers) (key : Bytes) (e : WsConnectError) (now : ℕ) (other : Bytes)
    → IsPositive c
    → limited s other now ≡ true
    → limited (marked c s key e now) other now ≡ true
unfolding Cooldown429.mark
marked-keeps c s key e now other h l = elim (Bool-cases (is_empty (normalize key))) [
  | inl n ↦ rw (mark_for_empty c s.cf_worker_429 key (retry_after_from_err e) now n) l
  | inr n ↦ ground (
    arith,
    l,
    until_of-mark_for c s.cf_worker_429 key (normalize other) (retry_after_from_err e) now n,
    next_delay-pos c (unwrap_or (Map.get s.cf_worker_429 (normalize key)) default_state)
        (retry_after_from_err e) now h,
  )
]

module _ (c : Settings) (worker : Bytes) (e : WsConnectError) (account : Bytes) (now : ℕ)
    (h : IsPositive c) where
  cool_peers-keeps :
      (s : Workers) (peers : List Bytes) (other : Bytes)
      → limited s other now ≡ true
      → limited (cool_peers c s worker e account now peers) other now ≡ true
  unfolding cool_peers
  cool_peers-keeps s [] other l = l
  cool_peers-keeps s (peer ∷ peers) other l =
      elim (Bool-cases (lowercase peer =? lowercase worker)) [
        | inl q ↦ rw q (cool_peers-keeps s peers other l)
        | inr q ↦
            let s' = (worker_rate_limited c s peer now).0 in
            let l' : limited s' other now ≡ true =
              worker_rate_limited-limited c s peer other now ∙ l in
            elim (Bool-cases
              ((worker_rate_limited c s peer now).1 || not (same_account account peer))) [
                | inl r ↦ rw (q, r) (cool_peers-keeps s' peers other l')
                | inr r ↦
                    rw (q, r)
                      (cool_peers-keeps (marked c s' peer e now) peers other
                        (marked-keeps c s' peer e now other h l'))
              ]
      ]

  cool_peers-first :
      (s : Workers) (peers : List Bytes) (peer : Bytes)
      → (lowercase peer =? lowercase worker) ≡ false
      → is_empty (normalize peer) ≡ false
      → same_account account peer ≡ true
      → limited (cool_peers c s worker e account now (peer ∷ peers)) peer now ≡ true
  unfolding cool_peers
  cool_peers-first s peers peer d n a =
      let s' = (worker_rate_limited c s peer now).0 in
      let answer = worker_rate_limited-answer c s peer now n in
      let kept = worker_rate_limited-limited c s peer peer now in
      elim (Bool-cases ((worker_rate_limited c s peer now).1)) [
        | inl r ↦ rw (d, r) (cool_peers-keeps s' peers peer (kept ∙ sym answer ∙ r))
        | inr r ↦
            rw (d, r, a)
              (cool_peers-keeps (marked c s' peer e now) peers peer
                (marked_self c s' peer e now h n))
      ]

  cool_peers-sibling :
      (s : Workers) (peers : List Bytes) (peer : Bytes)
      → any (λ x. x =? peer) peers ≡ true
      → (lowercase peer =? lowercase worker) ≡ false
      → is_empty (normalize peer) ≡ false
      → same_account account peer ≡ true
      → limited (cool_peers c s worker e account now peers) peer now ≡ true
  unfolding cool_peers
  cool_peers-sibling s [] peer i d n a = ground arith
  cool_peers-sibling s (p ∷ peers) peer i d n a = elim (Bool-cases (p =? peer)) [
    | inl q ↦
        subst (λ x. limited (cool_peers c s worker e account now (x ∷ peers)) peer now ≡ true)
          (sym ((=?_iff p peer).0 q)) (cool_peers-first s peers peer d n a)
    | inr q ↦
        let i' : any (λ x. x =? peer) peers ≡ true = ground arith in
        let s' = (worker_rate_limited c s p now).0 in
        elim (Bool-cases (lowercase p =? lowercase worker)) [
          | inl t ↦ rw t (cool_peers-sibling s peers peer i' d n a)
          | inr t ↦
              elim (Bool-cases
                ((worker_rate_limited c s p now).1 || not (same_account account p))) [
                  | inl r ↦ rw (t, r) (cool_peers-sibling s' peers peer i' d n a)
                  | inr r ↦ rw (t, r) (cool_peers-sibling (marked c s' p e now) peers peer i' d n a)
                ]
        ]
  ]

  quota : http_status e ≡ some 429 → (has_status e 503 ≡ false) × (has_status e 429 ≡ true)
  quota status = (rw (has_status, status) refl, rw (has_status, status) refl)

  mark_worker_429-limited :
      (s : Workers)
      → http_status e ≡ some 429
      → is_empty (normalize worker) ≡ false
      → limited (mark_worker_429 c s worker e now) worker now ≡ true
  unfolding mark_worker_429 worker_cooldown_remaining is_active
  mark_worker_429-limited s status n =
      rw (mark_worker_429, (quota status).1)
        (ground (
          arith,
          marked_self c s worker e now h n,
          until_of-is_active c (marked c s worker e now).cf_worker_429 worker (normalize worker)
              now,
          until_of-is_active c (marked c s worker e now).cf_worker_503 worker (normalize worker)
              now,
        ))

  with_peers :
      (s : Workers) (peers : List Bytes)
      → http_status e ≡ some 429
      → account_key worker ≡ some account
      → mark_worker_429_with_peers c s worker e peers now
        ≡ cool_peers c (mark_worker_429 c s worker e now) worker e account now peers
  unfolding mark_worker_429_with_peers
  with_peers s peers status own =
      rw (mark_worker_429_with_peers, (quota status).0, (quota status).1, own) refl

  -- After one HTTP 429 from a Worker, the Worker itself and every configured sibling on the same
  -- Cloudflare account are rate-limited, the siblings without having been dialled. The settings are
  -- positive, as they are in the program, and the names are not empty.
  pub mark_worker_429_with_peers_siblings :
      (s : Workers) (peers : List Bytes) (peer : Bytes)
      → http_status e ≡ some 429
      → account_key worker ≡ some account
      → is_empty (normalize worker) ≡ false
      → any (λ x. x =? peer) peers ≡ true
      → (lowercase peer =? lowercase worker) ≡ false
      → is_empty (normalize peer) ≡ false
      → account_key peer ≡ some account
      → ((worker_rate_limited c (mark_worker_429_with_peers c s worker e peers now) worker now).1
          ≡ true)
        × ((worker_rate_limited c (mark_worker_429_with_peers c s worker e peers now) peer now).1
            ≡ true)
  mark_worker_429_with_peers_siblings s peers peer status own wn i d n other =
      let s' = mark_worker_429 c s worker e now in
      rw (with_peers s peers status own) (
        worker_rate_limited-answer c (cool_peers c s' worker e account now peers) worker now wn
            ∙ cool_peers-keeps s' peers worker (mark_worker_429-limited s status wn),
        worker_rate_limited-answer c (cool_peers c s' worker e account now peers) peer now n
            ∙ cool_peers-sibling s' peers peer i d n (rw (same_account, other) (=?_refl account)),
      )
