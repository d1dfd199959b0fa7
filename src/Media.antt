-- ===== src/Media.antt =====
-- crates/wrtg/src/media.rs: the addresses that serve media, and the Host header they are fronted under.
-- `learned` is what dc_learn.rs answers for the address. Text is its bytes.
use wrtg.Prelude.{
  ℕ, ◌+◌, ◌^◌, List, get_or, Bool, false, not, ◌&&◌, ◌||◌, Option, none, some, [], ◌∷◌, ◌++◌, ltb,
  leb, ◌==◌, if◌then◌else◌, take, drop,
}
use wrtg.Prelude.Int.{ℤ}
use wrtg.Prelude.Map
use wrtg.Prelude.Eq.{ℕ_eq, list_eq}
use wrtg.Prelude.Bytes.{
  Bytes, bytes, is_empty, is_whitespace, lowercase, trim_start, starts_with, split_at, parse_uint,
}
use wrtg.Prelude.Utf8.{is_utf8}
use wrtg.Ws.Answer.{words}
use wrtg.Prelude.Durations.{unwrap_or}
use wrtg.ClientInit.{position}
use wrtg.Mtproto.Routing.{dc_alt_ips, dc_from_orig_dst, decimal, folded}

unfoldable pub is_blocked_media_cdn : Bytes → Bool
is_blocked_media_cdn ip = elim (Map.get dc_alt_ips ip) [ none ↦ false | some entry ↦ entry.1 ]

unfoldable pub media_http_host : ℤ → Bytes
media_http_host dc = bytes "kws" ++ (decimal (folded dc) ++ bytes "-1.web.telegram.org")

unfoldable pub regular_http_host : ℤ → Bytes
regular_http_host dc = bytes "kws" ++ (decimal (folded dc) ++ bytes ".web.telegram.org")

abbrev pub front_host_of : Option (ℤ × Bool) → Bytes
front_host_of none = []
front_host_of (some (dc, is_media)) = if is_media then media_http_host dc else regular_http_host dc

unfoldable pub http_front_host : Bytes → Option (ℤ × Bool) → ℕ → Bytes
http_front_host orig_ip learned orig_port =
    if orig_port == 80 then front_host_of (dc_from_orig_dst orig_ip learned) else []

unfoldable pub tls_front_host : Bytes → Option (ℤ × Bool) → ℕ → Bytes
tls_front_host orig_ip learned orig_port =
    if orig_port == 443 then front_host_of (dc_from_orig_dst orig_ip learned) else []

abbrev pub is_blank : ℕ → Bool
is_blank c = c == b' ' || c == 9

abbrev pub is_line_end : ℕ → Bool
is_line_end c = c == 13 || c == 10

-- What stands from the first byte on that `p` accepts.
abbrev pub from_first : (ℕ → Bool) → Bytes → Bytes
from_first p [] = []
from_first p (c ∷ s) = if p c then c ∷ s else from_first p s

-- Where the line of the Host header starts.
unfoldable pub host_line : Bytes → Option ℕ
host_line lower = elim (position (13 ∷ 10 ∷ bytes "host:") lower) [
  | some i ↦ some (i + 2)
  | none ↦ elim (position (10 ∷ bytes "host:") lower) [ none ↦ none | some i ↦ some (i + 1) ]
]

-- `colon` is where the colon stands in the line.
abbrev pub with_host : Bytes → Bytes → ℕ → ℕ → Bytes
with_host data_ new_host line_start colon =
    let rest = drop line_start data_ in
    let value = trim_start is_blank (drop (colon + 1) rest) in
    take line_start data_
    ++ (take (colon + 1) rest ++ (b' ' ∷ (new_host ++ from_first is_line_end value)))

unfoldable pub replace_http_host : Bytes → Bytes → Option Bytes
replace_http_host data_ new_host = elim (host_line (lowercase data_)) [
  | none ↦ none
  | some line_start ↦ elim (position (b':' ∷ []) (drop line_start data_)) [
    | none ↦ none
    | some colon ↦ some (with_host data_ new_host line_start colon)
  ]
]

unfoldable pub rewrite_http_front_host : Bytes → Bytes → Option (ℤ × Bool) → ℕ → Bytes
rewrite_http_front_host data_ orig_ip learned orig_port =
    let host = http_front_host orig_ip learned orig_port in
    if is_empty host then data_ else unwrap_or (replace_http_host data_ host) data_

unfoldable pub needs_http_host_rewrite : Bytes → Option (ℤ × Bool) → Bool
needs_http_host_rewrite orig_ip learned =
    is_blocked_media_cdn orig_ip
    || (elim (dc_from_orig_dst orig_ip learned) [ none ↦ false | some entry ↦ entry.1 ])

unfoldable pub http_front_passthrough_payload : Bytes → Bytes → Option (ℤ × Bool) → ℕ → Bytes
http_front_passthrough_payload data_ orig_ip learned orig_port =
    if not (orig_port == 80) || not (needs_http_host_rewrite orig_ip learned)
    then data_
    else rewrite_http_front_host data_ orig_ip learned orig_port

unfoldable pub media_http_rejected : Option ℕ → Bool
media_http_rejected none = false
media_http_rejected (some status) = not (leb 200 status && ltb status 300)

unfoldable pub should_try_worker_passthrough : ℕ → Bool
should_try_worker_passthrough orig_port = not (orig_port == 80)

-- `s.strip_prefix("HTTP/")`
abbrev pub behind_http : Bytes → Option Bytes
behind_http s = if starts_with s (bytes "HTTP/") then some (drop 5 s) else none

abbrev pub first_line : List Bytes → Option Bytes
first_line [] = none
first_line (line ∷ lines) = behind_http line

-- A return at the end of the first line is white space behind the code; an empty text has no line, and no
-- `HTTP/` either.
unfoldable pub http_status_code : Bytes → Option ℕ
http_status_code chunk =
    if not (is_utf8 chunk) then none else (elim (first_line (split_at (λ c. c == 10) chunk)) [
      | none ↦ none
      | some rest ↦ parse_uint (2 ^ 16) (get_or (words (split_at is_whitespace rest)) 1 [])
    ])
