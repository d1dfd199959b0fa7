-- ===== src/CfProxyDoh.antt =====
-- crates/wrtg/src/cf_proxy_doh.rs: addresses by DNS over HTTPS, and the cache of them.
-- The requests and the system's resolver are outside, and how an IPv6 address is written out is left open. The
-- answers of the race are given in the order in which they arrive before the deadline.
pub mod TypeA
pub mod Cached
mod Examples
use wrtg.Prelude.{
  ℕ, zero, suc, ◌+◌, Bool, true, false, not, ◌&&◌, Option, none, some, List, [], ◌∷◌, ◌++◌, ltb,
  ◌==◌, if◌then◌else◌, length, take, drop,
}
use wrtg.Prelude.Eq.{ℕ_eq, list_eq}
use wrtg.Prelude.Map
use wrtg.Prelude.Map.{Map}
use wrtg.Prelude.Bytes.{Bytes, bytes, is_empty, trim, split_at, is_ascii_digit}
use wrtg.Prelude.Durations.{from_secs, env_positive, unwrap_or}
use wrtg.Prelude.Utf8.{from_utf8_lossy}
use wrtg.ClientInit.{position}
use wrtg.DcLearn.{is_ipv4}
use wrtg.TlsSni.HttpHost.{is_ipv6}

-- `WRTG_DOH_CACHE_SEC`
unfoldable pub doh_cache_ttl : Option Bytes → ℕ
doh_cache_ttl env = elim (env_positive env) [ none ↦ from_secs 300 | some s ↦ from_secs s ]

pub record DohEndpoint : Type 0 where
  pub host : Bytes
  pub path : Bytes
  pub ips : List Bytes

abbrev endpoint : Bytes → Bytes → Bytes → DohEndpoint
endpoint host first second = record {
  host = host;
  path = bytes "/dns-query";
  ips = first ∷ second ∷ [];
}

abbrev pub doh_endpoints : List DohEndpoint
doh_endpoints =
    endpoint (bytes "cloudflare-dns.com") (bytes "1.1.1.1") (bytes "1.0.0.1")
    ∷ endpoint (bytes "dns.google") (bytes "8.8.8.8") (bytes "8.8.4.4")
    ∷ endpoint (bytes "dns.quad9.net") (bytes "9.9.9.9") (bytes "149.112.112.112")
    ∷ endpoint (bytes "dns.adguard-dns.com") (bytes "94.140.14.14") (bytes "94.140.15.15")
    ∷ []

abbrev pub first_v6 : (Bytes → Bytes) → Option Bytes → Bytes → Option Bytes
first_v6 show_v6 (some ip) c = some ip
first_v6 show_v6 none c = if is_ipv6 c then some (show_v6 c) else none

-- The loop, with the first IPv6 address so far. An IPv4 address is written out as it is read.
unfoldable pub pick_from : (Bytes → Bytes) → Option Bytes → List Bytes → Option Bytes
pick_from show_v6 fallback_v6 [] = fallback_v6
pick_from show_v6 fallback_v6 (candidate ∷ candidates) =
    let c = trim candidate in
    let next = first_v6 show_v6 fallback_v6 c in
    let rest = pick_from show_v6 next candidates in if is_ipv4 c then some c else rest

unfoldable pub pick_preferred_ip : (Bytes → Bytes) → List Bytes → Option Bytes
pick_preferred_ip show_v6 candidates = pick_from show_v6 none candidates

abbrev pub type_a : Bytes
type_a = bytes "\"type\":1"

abbrev pub digit_next : Bytes → Bool
digit_next [] = false
digit_next (c ∷ s) = is_ascii_digit c

-- The loop over the occurrences, on fuel.
unfoldable pub type_a_from : ℕ → Bytes → Bool
type_a_from zero hay = false
type_a_from (suc fuel) hay = elim (position type_a hay) [
  | none ↦ false
  | some pos ↦
      let after = drop (pos + 8) hay in
      let rest = type_a_from fuel after in if digit_next after then rest else true
]

unfoldable pub record_is_type_a : Bytes → Bool
record_is_type_a rec = type_a_from (suc (length rec)) rec

-- What stands behind the first `pat`.
abbrev pub behind : Bytes → Bytes → Option Bytes
behind pat s = elim (position pat s) [ none ↦ none | some i ↦ some (drop (i + length pat) s) ]

abbrev pub first_piece : List Bytes → Bytes
first_piece [] = []
first_piece (piece ∷ pieces) = piece

abbrev pub up_to : ℕ → Bytes → Bytes
up_to d s = first_piece (split_at (λ c. c == d) s)

-- `.split("\"data\":\"").nth(1)` ends where the pattern comes again, behind the closing quote.
unfoldable pub data_of : Bytes → Option Bytes
data_of rec = elim (behind (bytes "\"data\":\"") rec) [
  | none ↦ none
  | some d ↦ let ip = trim (up_to b'"' d) in if is_empty ip then none else some ip
]

unfoldable pub records_of : List Bytes → List Bytes
records_of [] = []
records_of (rec ∷ recs) =
    let rest = records_of recs in
    if record_is_type_a rec
    then (elim (data_of rec) [ none ↦ rest | some ip ↦ ip ∷ rest ])
    else rest

abbrev pub skip_one : List Bytes → List Bytes
skip_one [] = []
skip_one (piece ∷ pieces) = pieces

unfoldable pub parse_doh_a_records : Bytes → List Bytes
parse_doh_a_records body = elim (behind (bytes "\"Answer\"") (from_utf8_lossy body)) [
  | none ↦ []
  | some after ↦ elim (behind (bytes "[") after) [
    | none ↦ []
    | some array ↦ records_of (skip_one (split_at (λ c. c == b'{') (up_to b']' array)))
  ]
]

-- `https_get_json ip host path` is the body of the answer, where one comes in time.
module _ (show_v6 : Bytes → Bytes) (https_get_json : Bytes → Bytes → Bytes → Option Bytes) where
  unfoldable pub query_ips : Bytes → Bytes → List Bytes → Option Bytes
  query_ips host path [] = none
  query_ips host path (ip ∷ ips) = elim (https_get_json ip host path) [
    | none ↦ query_ips host path ips
    | some body ↦ elim (pick_preferred_ip show_v6 (parse_doh_a_records body)) [
      | none ↦ query_ips host path ips
      | some resolved ↦ some resolved
    ]
  ]

  unfoldable pub doh_query : DohEndpoint → Bytes → Option Bytes
  doh_query ep domain =
      query_ips ep.host (ep.path ++ (bytes "?name=" ++ (domain ++ bytes "&type=A"))) ep.ips

abbrev pub Cache : Type 0
Cache = Map Bytes (Bytes × ℕ)

-- The entry that is not out of date at `now`.
unfoldable pub cached : Cache → Bytes → ℕ → Option Bytes
cached cache domain now = elim (Map.get cache domain) [
  | none ↦ none
  | some (ip, exp) ↦ if ltb now exp then some ip else none
]

-- The first answer with an address.
unfoldable pub first_answer : List (Option Bytes) → Option Bytes
first_answer [] = none
first_answer (none ∷ answers) = first_answer answers
first_answer (some ip ∷ answers) = some ip

-- From the race on, whose answers are asked of `answers`.
unfoldable pub after_race : Option Bytes → Cache → Bytes → ℕ → Option Bytes → Cache × Option Bytes
after_race ttl cache domain done none = (cache, none)
after_race ttl cache domain done (some ip) =
    (Map.insert cache domain (ip, done + doh_cache_ttl ttl), some ip)

unfoldable pub resolve_doh :
    Option Bytes → Cache → Bytes → ℕ → (Bytes → List (Option Bytes)) → ℕ → Cache × Option Bytes
resolve_doh ttl cache name now answers done =
    let domain = trim name in
    if is_empty domain then (cache, none) else (elim (cached cache domain now) [
      | some ip ↦ (cache, some ip)
      | none ↦ after_race ttl cache domain done (first_answer (answers domain))
    ])
