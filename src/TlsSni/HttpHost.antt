-- ===== src/TlsSni/HttpHost.antt =====
-- tls_sni.rs: the Host header of an HTTP request, and the name of a TLS or HTTP client.
-- Lower case is that of ASCII; the text searched is the lossy decoding of the bytes, as in the code.
pub mod Shifted
use wrtg.Prelude.{
  ℕ, suc, ◌+◌, Bool, true, false, not, ◌&&◌, ◌||◌, Option, none, some, List, [], ◌∷◌, ltb, leb,
  ◌==◌, if◌then◌else◌, length, take, drop, any,
}
use wrtg.Prelude.Bytes.{
  Bytes, bytes, is_empty, trim, trim_start, lowercase, split_at, is_ascii_digit,
}
use wrtg.Prelude.Utf8.{from_utf8_lossy}
use wrtg.ClientInit.{position}
use wrtg.DcLearn.{is_ipv4}
use wrtg.Media.{is_blank, is_line_end}
use wrtg.TlsSni.{Scan, panicked, nothing, host, parse_tls_client_hello_sni}

abbrev is_hex : ℕ → Bool
is_hex c = is_ascii_digit c || (leb b'a' c && leb c b'f' || leb b'A' c && leb c b'F')

abbrev is_group : Bytes → Bool
is_group s = leb 1 (length s) && (leb (length s) 4 && not (any (λ c. not (is_hex c)) s))

-- How many groups the pieces make; where it is allowed, the last may be an IPv4 address, which is two.
unfoldable pub group_count : Bool → List Bytes → Option ℕ
group_count allow_ipv4 [] = some 0
group_count allow_ipv4 (p ∷ []) =
    if is_group p then some 1 else if allow_ipv4 && is_ipv4 p then some 2 else none
group_count allow_ipv4 (p ∷ q ∷ ps) = elim (group_count allow_ipv4 (q ∷ ps)) [
  | none ↦ none
  | some n ↦ if is_group p then some (suc n) else none
]

abbrev groups : Bool → Bytes → Option ℕ
groups allow_ipv4 s =
    if is_empty s then some 0 else group_count allow_ipv4 (split_at (λ c. c == b':') s)

abbrev within : Option ℕ → Option ℕ → Bool
within none tail = false
within (some h) none = false
within (some h) (some t) = leb (h + t) 7

-- `s.parse::<Ipv6Addr>()` succeeds: eight groups, or fewer round one `::`.
unfoldable pub is_ipv6 : Bytes → Bool
is_ipv6 s = elim (position (bytes "::") s) [
  | some i ↦ within (groups false (take i s)) (groups true (drop (i + 2) s))
  | none ↦ elim (groups true s) [ none ↦ false | some n ↦ n == 8 ]
]

-- `.parse::<IpAddr>().is_ok()`
unfoldable pub is_ip_addr : Bytes → Bool
is_ip_addr s = is_ipv4 s || is_ipv6 s

abbrev pub max_scan : ℕ
max_scan = 4096

abbrev pub until_line_end : Bytes → Bytes
until_line_end [] = []
until_line_end (c ∷ s) = if is_line_end c then [] else c ∷ until_line_end s

abbrev pub trimmed_host : Bytes → Scan
trimmed_host value =
    let h = trim (from_utf8_lossy value) in
    if is_empty value then nothing else if is_empty h then nothing else host h

-- `&data[i + 7..]` is out of bounds where the text is longer than the bytes it is decoded from.
unfoldable pub http_host_raw : Bytes → Scan
http_host_raw whole =
    let s = take max_scan whole in
    elim (position (13 ∷ 10 ∷ bytes "host:") (lowercase (from_utf8_lossy s))) [
      | none ↦ nothing
      | some i ↦
          if ltb (length s) (i + 7)
          then panicked
          else trimmed_host (until_line_end (trim_start is_blank (drop (i + 7) s)))
    ]

-- `host.rsplit_once(':')`, as what stands before the last colon and what behind it.
unfoldable pub rsplit_colon : Bytes → Option (Bytes × Bytes)
rsplit_colon [] = none
rsplit_colon (c ∷ s) = elim (rsplit_colon s) [
  | some (before, after) ↦ some (c ∷ before, after)
  | none ↦ if c == b':' then some ([], s) else none
]

abbrev pub without_port : Bytes → Bytes
without_port h = elim (rsplit_colon h) [
  | none ↦ h
  | some (name, port) ↦
      if not (is_empty port) && not (any (λ c. not (is_ascii_digit c)) port) then name else h
]

abbrev pub named : Scan → Scan
named panicked = panicked
named nothing = nothing
named (host h) = if is_ip_addr (without_port h) then nothing else host (without_port h)

unfoldable pub parse_http_host : Bytes → Scan
parse_http_host s = named (http_host_raw s)

-- `unwrap_or_default`, where nothing has panicked.
abbrev pub or_http : Bytes → Scan → Scan
or_http initial panicked = panicked
or_http initial (host h) = host h
or_http initial nothing = elim (parse_http_host initial) [
  | panicked ↦ panicked
  | nothing ↦ host []
  | host h ↦ host h
]

unfoldable pub passthrough_host : Bytes → Scan
passthrough_host initial = or_http initial (parse_tls_client_hello_sni initial)
