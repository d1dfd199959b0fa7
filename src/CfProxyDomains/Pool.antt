-- ===== src/CfProxyDomains/Pool.antt =====
-- cf_proxy_domains.rs: the pool that a refresh leaves.
use wrtg.Prelude.{
  ℕ, ◌==◌, ◌≤◌, ◌≡◌, refl, ap, ◌∙◌, arith, Bool, true, false, not, ◌&&◌, ◌||◌, ◌⊎◌, inl, inr,
  Option, List, [], ◌∷◌, ◌++◌, length, any, leb, Bool-cases, if◌then◌else◌,
}
use wrtg.Prelude.Eq.{ℕ_eq, list_eq, ◌=?◌, =?_iff}
use wrtg.Prelude.Bytes.{Bytes, trim, lowercase, split_at, starts_with, ends_with}
use wrtg.Prelude.Distinct.{elem, distinct, elem-append, distinct-snoc}
use wrtg.CfBalancer.{Balancer, cf_fallback_disabled, set_proxy_domains}
use wrtg.CfProxyDomains.{
  last_label, is_label, proxy_env_set, cfproxy_auto_decision, user_proxy_domains_configured,
  Settings, is_valid_domain, normalize_from, normalize_domain_pool, refresh_cfproxy_domains,
  fetch_cfproxy_domains, cfproxy_auto_enabled, min_valid_domains,
}

abbrev pub normal : Bytes → Bytes
normal domain = lowercase (trim domain)

normalize_from-distinct :
    (out domains : List Bytes) → distinct out ≡ true → distinct (normalize_from out domains) ≡ true
unfolding normalize_from
normalize_from-distinct out [] h = h
normalize_from-distinct out (domain ∷ domains) h = ground (
  arith,
  normalize_from-distinct out domains,
  normalize_from-distinct (out ++ (normal domain ∷ [])) domains,
  distinct-snoc out (normal domain),
)

kept_or_not :
    (valid seen same valid_d seen_d later : Bool) (d : Bytes) (skipped kept : List Bytes)
    → (same ≡ true → valid ≡ valid_d)
    → (same ≡ true → seen ≡ seen_d)
    → elem d skipped ≡ (seen_d || (valid_d && later))
    → elem d kept ≡ ((seen_d || (same || false)) || (valid_d && later))
    → elem d (if not valid || seen then skipped else kept)
      ≡ (seen_d || (valid_d && (same || later)))
kept_or_not valid seen same valid_d seen_d later d skipped kept h k p q = ground arith

-- What is in the pool: what was there, and the valid ones of those that are added.
normalize_from-elem :
    (out domains : List Bytes) (d : Bytes)
    → elem d (normalize_from out domains)
      ≡ (elem d out || (is_valid_domain d && any (λ x. normal x =? d) domains))
unfolding normalize_from
normalize_from-elem out [] d = ground arith
normalize_from-elem out (domain ∷ domains) d =
    let e : (normal domain =? d) ≡ true → normal domain ≡ d = (=?_iff (normal domain) d).0 in
    kept_or_not (is_valid_domain (normal domain)) (elem (normal domain) out) (normal domain =? d)
      (is_valid_domain d) (elem d out) (any (λ x. normal x =? d) domains) d _ _
      (λ h. ap is_valid_domain (e h)) (λ h. ap (λ x. elem x out) (e h))
      (normalize_from-elem out domains d)
      (normalize_from-elem (out ++ (normal domain ∷ [])) domains d
        ∙ ap (λ b. b || (is_valid_domain d && any (λ x. normal x =? d) domains))
            (elem-append d out (normal domain ∷ [])))

-- The pool made of a list has each of its domains once, and its domains are the valid ones of the list, trimmed
-- and in lower case.
pub normalize_domain_pool_lem :
    (domains : List Bytes)
    → (distinct (normalize_domain_pool domains) ≡ true)
      × ((d : Bytes)
          → elem d (normalize_domain_pool domains)
            ≡ (is_valid_domain d && any (λ x. lowercase (trim x) =? d) domains))
unfolding normalize_domain_pool
normalize_domain_pool_lem domains =
    (normalize_from-distinct [] domains refl, λ d. normalize_from-elem [] domains d)

-- The name of a host, after RFC 1035: labels of 1 to 63 letters, digits and hyphens, with no hyphen
-- at either end; two of them at least, and at most 253 bytes in all. The last label has two
-- characters or more and a letter among them.
abbrev is_letter : ℕ → Bool
is_letter c = (leb 97 c && leb c 122) || (leb 65 c && leb c 90)

abbrev is_host_label : Bytes → Bool
is_host_label label =
    (leb 1 (length label) && leb (length label) 63)
    && ((not (starts_with label (45 ∷ [])) && not (ends_with label (45 ∷ [])))
        && not (any (λ c. not (is_letter c || ((leb 48 c && leb c 57) || c == 45))) label))

abbrev last_of : List Bytes → Bytes
last_of [] = []
last_of (x ∷ []) = x
last_of (x ∷ (y ∷ ys)) = last_of (y ∷ ys)

abbrev pub is_host_name : Bytes → Bool
is_host_name d =
    let labels = split_at (λ c. c == 46) d in
    (leb 1 (length d) && leb (length d) 253)
    && (leb 2 (length labels)
        && (not (any (λ l. not (is_host_label l)) labels)
            && (leb 2 (length (last_of labels)) && any is_letter (last_of labels))))

is_label_lem : (l : Bytes) → is_label l ≡ is_host_label l
unfolding is_label
is_label_lem [] = refl
is_label_lem (x ∷ l) = ground arith

any_same : (p q : Bytes → Bool) (ls : List Bytes) → ((l : Bytes) → p l ≡ q l) → any p ls ≡ any q ls
any_same p q [] h = refl
any_same p q (l ∷ ls) h = rw (h l, any_same p q ls h) refl

last_label_lem : (l : Bytes) (ls : List Bytes) → last_label l ls ≡ last_of (l ∷ ls)
last_label_lem l [] = refl
last_label_lem l (x ∷ ls) = last_label_lem x ls

last_of_labels : (ls : List Bytes) → last_label [] ls ≡ last_of ls
last_of_labels [] = refl
last_of_labels (l ∷ ls) = last_label_lem l ls

is_valid_domain_lem : (d : Bytes) → is_valid_domain d ≡ true → is_host_name d ≡ true
unfolding is_valid_domain
is_valid_domain_lem [] h = absurd (ground arith)
is_valid_domain_lem (x ∷ s) h =
    let labels = split_at (λ c. c == 46) (x ∷ s) in
    ground (
      arith,
      h,
      any_same (λ l. not (is_label l)) (λ l. not (is_host_label l)) labels
          (λ l. ap not (is_label_lem l)),
      last_of_labels labels,
    )

-- A pool that the balancer may use: three domains at least, each once and each the name of a host.
abbrev pub IsUsable : List Bytes → Type 0
IsUsable pool =
    (3 ≤ length pool)
    × (distinct pool ≡ true)
    × ((d : Bytes) → (elem d pool && not (is_host_name d)) ≡ false)

-- The environment neither turns the proxied domains or the shared pool off nor names a domain.
abbrev pub IsWanted : Settings → Type 0
IsWanted env =
    (cf_fallback_disabled env.no_cfproxy ≡ false)
    × (proxy_env_set env.cf_proxy_domain ≡ false)
    × (proxy_env_set env.cf_proxy_domains ≡ false)
    × (cfproxy_auto_decision env.cfproxy_auto ≡ true)

cfproxy_auto_enabled-IsWanted : (env : Settings) → cfproxy_auto_enabled env ≡ true → IsWanted env
unfolding cfproxy_auto_enabled user_proxy_domains_configured
cfproxy_auto_enabled-IsWanted env h = (ground arith, ground arith, ground arith, ground arith)

-- A refresh either leaves the balancer as it is or replaces its list of proxied domains, and nothing else of it,
-- by three or more distinct host names: whatever the answer to the request is, an empty, short or
-- malformed list does not come into use. It leaves it as it is where the environment turns the proxied
-- domains or the shared pool off, or names a domain.
pub refresh_cfproxy_domains_safe :
    (https_get : Bytes → Bytes → Option Bytes) (env : Settings) (b : Balancer) (cache_bust : Bytes)
    → (refresh_cfproxy_domains https_get env b cache_bust ≡ b)
      ⊎ (IsWanted env
          × (pool : List Bytes) × (refresh_cfproxy_domains https_get env b cache_bust
              ≡ record b { proxy_domains = pool })
          × IsUsable pool)
unfolding refresh_cfproxy_domains set_proxy_domains
refresh_cfproxy_domains_safe https_get env b cache_bust =
    let fetched = fetch_cfproxy_domains https_get env.cfproxy_domains_url_set cache_bust in
    let pool = normalize_domain_pool fetched in
    elim (Bool-cases (cfproxy_auto_enabled env)) [
      | inr off ↦ inl (rw (off) refl)
      | inl on ↦ elim (Bool-cases (leb min_valid_domains (length pool))) [
        | inr few ↦ inl (rw (on, few) refl)
        | inl enough ↦ inr (
          cfproxy_auto_enabled-IsWanted env on,
          pool,
          rw (on, enough) refl,
          (ground arith, (normalize_domain_pool_lem fetched).0, valid fetched),
        )
      ]
    ]
  where
    valid :
        (fetched : List Bytes) (d : Bytes)
        → (elem d (normalize_domain_pool fetched) && not (is_host_name d)) ≡ false
    valid fetched d = ground (arith, (normalize_domain_pool_lem fetched).1 d, is_valid_domain_lem d)
