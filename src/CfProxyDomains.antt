-- ===== src/CfProxyDomains.antt =====
-- crates/wrtg/src/cf_proxy_domains.rs: the shared list of proxied domains and its refresh.
-- Settings are arguments; the request for the list, the resolver and the random suffix are outside. The task that
-- repeats the refresh is a sequence of calls. White space is that of ASCII.
pub mod Caesar
pub mod Pool
mod Examples
use wrtg.Prelude.{
  ℕ, zero, suc, ◌+◌, ◌-◌, ◌*◌, ◌%◌, Bool, true, false, not, ◌&&◌, ◌||◌, Option, none, some, List,
  [], ◌∷◌, ◌++◌, max, map, ltb, leb, if◌then◌else◌, length, take, drop, any, ◌==◌,
}
use wrtg.Prelude.Eq.{ℕ_eq, list_eq, ◌=?◌}
use wrtg.Prelude.Bytes.{
  Bytes, bytes, is_empty, trim, trim_start, trim_end, lowercase, split_at, starts_with, ends_with,
  strip_suffix, is_ascii_digit, parse_u64,
}
use wrtg.Prelude.Distinct.{elem}
use wrtg.Prelude.Durations.{from_secs, unwrap_or}
use wrtg.Prelude.Results.{Result, ok, err}
use wrtg.Prelude.Utf8.{from_utf8_lossy}
use wrtg.Ws.Error.{IoError}
use wrtg.CfBalancer.{Balancer, set_proxy_domains, cf_fallback_disabled}

abbrev pub cfproxy_domains_url : Bytes
cfproxy_domains_url =
    bytes "https://raw.githubusercontent.com/Flowseal/tg-ws-proxy/main/.github/cfproxy-domains.txt"

abbrev pub default_refresh_interval : ℕ
default_refresh_interval = from_secs 3600

abbrev pub min_refresh_interval : ℕ
min_refresh_interval = from_secs 300

unfoldable pub parse_refresh_interval : Option Bytes → ℕ
parse_refresh_interval none = default_refresh_interval
parse_refresh_interval (some v) = elim (parse_u64 (trim v)) [
  | none ↦ default_refresh_interval
  | some secs ↦ max (from_secs secs) min_refresh_interval
]

unfoldable pub parse_domains_url : Option Bytes → Bytes
parse_domains_url none = cfproxy_domains_url
parse_domains_url (some v) = if is_empty (trim v) then cfproxy_domains_url else trim v

abbrev pub default_host_path : Bytes × Bytes
default_host_path = (
  bytes "raw.githubusercontent.com",
  bytes "/Flowseal/tg-ws-proxy/main/.github/cfproxy-domains.txt",
)

-- `rest.split_once('/')`
unfoldable pub split_slash : Bytes → Option (Bytes × Bytes)
split_slash [] = none
split_slash (c ∷ s) =
    if c == b'/'
    then some ([], s)
    else (elim (split_slash s) [ none ↦ none | some (host, path) ↦ some (c ∷ host, path) ])

unfoldable pub split_https_url : Bytes → Bytes × Bytes
split_https_url url =
    if not (starts_with url (bytes "https://"))
    then default_host_path
    else (elim (split_slash (drop 8 url)) [
      | none ↦ default_host_path
      | some (host, path) ↦
          if not (is_empty host) && not (is_empty path)
          then (host, b'/' ∷ path)
          else default_host_path
    ])

abbrev pub min_valid_domains : ℕ
min_valid_domains = 3

abbrev pub domain_suffix : Bytes
domain_suffix = bytes ".co.uk"

abbrev pub is_ascii_lowercase : ℕ → Bool
is_ascii_lowercase c = leb b'a' c && leb c b'z'

abbrev pub is_ascii_uppercase : ℕ → Bool
is_ascii_uppercase c = leb b'A' c && leb c b'Z'

abbrev pub is_ascii_alphabetic : ℕ → Bool
is_ascii_alphabetic c = is_ascii_lowercase c || is_ascii_uppercase c

-- `chars().filter(is_ascii_alphabetic).count()`
abbrev pub letter_count : Bytes → ℕ
letter_count [] = 0
letter_count (c ∷ s) = if is_ascii_alphabetic c then suc (letter_count s) else letter_count s

-- `(off - shift).rem_euclid(26)`, where the difference may be negative.
abbrev pub shifted_back : ℕ → ℕ → ℕ → ℕ
shifted_back base shift c = base + (c - base + 25 * shift) % 26

abbrev pub decode_char : ℕ → ℕ → ℕ
decode_char shift c =
    if is_ascii_lowercase c
    then shifted_back b'a' shift c
    else if is_ascii_uppercase c
    then shifted_back b'A' shift c
    else c

unfoldable pub decode_cfproxy_domain : Bytes → Bytes
decode_cfproxy_domain s = elim (strip_suffix s (bytes ".com")) [
  | none ↦ s
  | some prefix ↦ map (decode_char (letter_count prefix)) prefix ++ domain_suffix
]

abbrev pub default_encoded : List Bytes
default_encoded =
    bytes "virkgj.com"
    ∷ bytes "vmmzovy.com"
    ∷ bytes "mkuosckvso.com"
    ∷ bytes "zaewayzmplad.com"
    ∷ bytes "twdmbzcm.com"
    ∷ bytes "awzwsldi.com"
    ∷ bytes "clngqrflngqin.com"
    ∷ bytes "tjacxbqtj.com"
    ∷ bytes "bxaxtxmrw.com"
    ∷ bytes "dmohrsgmohcrwb.com"
    ∷ bytes "vwbmtmoi.com"
    ∷ bytes "khgrre.com"
    ∷ bytes "ulihssf.com"
    ∷ bytes "tmhqsdqmfpmk.com"
    ∷ bytes "xwuwoqbm.com"
    ∷ bytes "orgcnunpj.com"
    ∷ bytes "zhkuldz.com"
    ∷ bytes "zypoljnslxa.com"
    ∷ bytes "efabnxaowuzs.com"
    ∷ bytes "zaftuzsftqdq.com"
    ∷ []

unfoldable pub default_cfproxy_domains : List Bytes
default_cfproxy_domains = map decode_cfproxy_domain default_encoded

-- `!v.trim().trim_matches('"').is_empty()`
unfoldable pub proxy_env_set : Option Bytes → Bool
proxy_env_set none = false
proxy_env_set (some v) =
    not (is_empty (trim_end (λ c. c == b'"') (trim_start (λ c. c == b'"') (trim v))))

-- `CF_PROXY_DOMAIN` and `WRTG_CF_PROXY_DOMAINS`.
unfoldable pub user_proxy_domains_configured : Option Bytes → Option Bytes → Bool
user_proxy_domains_configured domain domains = proxy_env_set domain || proxy_env_set domains

unfoldable pub cfproxy_auto_decision : Option Bytes → Bool
cfproxy_auto_decision none = true
cfproxy_auto_decision (some v) = trim v =? bytes "1" || lowercase (trim v) =? bytes "true"

-- The settings that the refresh reads.
pub record Settings : Type 0 where
  pub no_cfproxy : Option Bytes
  pub cf_proxy_domain : Option Bytes
  pub cf_proxy_domains : Option Bytes
  pub cfproxy_auto : Option Bytes
  pub cfproxy_domains_url_set : Option Bytes

unfoldable pub cfproxy_auto_enabled : Settings → Bool
cfproxy_auto_enabled env =
    not (cf_fallback_disabled env.no_cfproxy)
    && (not (user_proxy_domains_configured env.cf_proxy_domain env.cf_proxy_domains)
        && cfproxy_auto_decision env.cfproxy_auto)

abbrev pub is_label_char : ℕ → Bool
is_label_char c = is_ascii_alphabetic c || (is_ascii_digit c || c == b'-')

unfoldable pub is_label : Bytes → Bool
is_label label =
    not (is_empty label || ltb 63 (length label))
    && (not (starts_with label (bytes "-") || ends_with label (bytes "-"))
        && not (any (λ c. not (is_label_char c)) label))

abbrev pub last_label : Bytes → List Bytes → Bytes
last_label label [] = label
last_label label (next ∷ labels) = last_label next labels

unfoldable pub is_valid_domain : Bytes → Bool
is_valid_domain domain =
    let labels = split_at (λ c. c == b'.') domain in
    let tld = last_label [] labels in
    not (is_empty domain || ltb 253 (length domain))
    && (not (starts_with domain (bytes ".") || ends_with domain (bytes "."))
        && (not (ltb (length labels) 2)
            && (not (any (λ label. not (is_label label)) labels)
                && (leb 2 (length tld) && any is_ascii_alphabetic tld))))

-- The loop, with what it has kept so far, which is what it has seen.
unfoldable pub normalize_from : List Bytes → List Bytes → List Bytes
normalize_from out [] = out
normalize_from out (domain ∷ domains) =
    let item = lowercase (trim domain) in
    let kept = normalize_from (out ++ (item ∷ [])) domains in
    let skipped = normalize_from out domains in
    if not (is_valid_domain item) || elem item out then skipped else kept

unfoldable pub normalize_domain_pool : List Bytes → List Bytes
normalize_domain_pool domains = normalize_from [] domains

-- `.map(str::trim).filter(..).map(decode_cfproxy_domain)`; an end `\r` of a line is white space.
unfoldable pub listed : List Bytes → List Bytes
listed [] = []
listed (line ∷ lines) =
    let t = trim line in
    let rest = listed lines in
    if not (is_empty t) && not (starts_with t (bytes "#"))
    then decode_cfproxy_domain t ∷ rest
    else rest

-- `https_get host path` is the body of the answer, where there is one.
module _ (https_get : Bytes → Bytes → Option Bytes) where
  unfoldable pub fetch_cfproxy_domains : Option Bytes → Bytes → List Bytes
  fetch_cfproxy_domains url cache_bust =
      let (host, base_path) = split_https_url (parse_domains_url url) in
      elim (https_get host (base_path ++ (b'?' ∷ cache_bust))) [
        | none ↦ []
        | some body ↦ listed (split_at (λ c. c == 10) (from_utf8_lossy body))
      ]

  unfoldable pub refresh_cfproxy_domains : Settings → Balancer → Bytes → Balancer
  refresh_cfproxy_domains env b cache_bust =
      let pool =
        normalize_domain_pool (fetch_cfproxy_domains env.cfproxy_domains_url_set cache_bust) in
      if not (cfproxy_auto_enabled env)
      then b
      else if leb min_valid_domains (length pool)
      then set_proxy_domains b pool
      else b

unfoldable pub seed_default_cfproxy_domains : Balancer → Balancer
seed_default_cfproxy_domains b = set_proxy_domains b default_cfproxy_domains

abbrev pub github_pinned_ips : List Bytes
github_pinned_ips =
    bytes "185.199.108.133"
    ∷ bytes "185.199.109.133"
    ∷ bytes "185.199.110.133"
    ∷ bytes "185.199.111.133"
    ∷ []

unfoldable pub is_github_host : Bytes → Bool
is_github_host host =
    host =? bytes "raw.githubusercontent.com" || ends_with host (bytes ".githubusercontent.com")

-- The loop over the candidates: the one that is connected to, or the last error.
unfoldable pub first_connected {ℓ} :
    {W : Type ℓ} → (Bytes → Result IoError W) → IoError → List Bytes → Result IoError W
first_connected dial last_err [] = err last_err
first_connected dial last_err (target ∷ candidates) = elim (dial target) [
  | ok s ↦ ok s
  | err e ↦ first_connected dial e candidates
]

unfoldable pub connect_pinned {ℓ} :
    {W : Type ℓ} → (Bytes → Result IoError W) → IoError → Bytes → Result IoError W
connect_pinned dial no_target host =
    first_connected dial no_target
      ((if is_github_host host then github_pinned_ips else []) ++ (host ∷ []))
