-- ===== src/TlsSni.antt =====
-- crates/wrtg/src/tls_sni.rs: the name that a TLS or HTTP client asks for, and where to pass it on to.
-- A position in a slice is what stands from it on, and the bytes that a loop may read are a slice of
-- their own. An index out of bounds is `panicked`. `front` is what front_ip answers.
pub mod Hello
pub mod Panics
pub mod HttpHost
pub mod Targets
mod Examples
use wrtg.Prelude.{
  ℕ, zero, suc, ◌+◌, ◌-◌, ◌*◌, ◌≤◌, Bool, true, false, not, ◌&&◌, ◌||◌, Option, none, some, List,
  [], ◌∷◌, ◌++◌, ltb, leb, ◌==◌, if◌then◌else◌, length, take, drop, get_or, any,
}
use wrtg.Prelude.Int.{ℤ}
use wrtg.Prelude.Eq.{ℕ_eq, list_eq, ◌=?◌}
use wrtg.Prelude.Bytes.{
  Bytes, bytes, is_empty, trim, trim_start, lowercase, split_at, starts_with, ends_with,
  is_ascii_digit,
}
use wrtg.Prelude.Utf8.{is_utf8, from_utf8_lossy}
use wrtg.ClientInit.{position}
use wrtg.DcLearn.{is_ipv4}
use wrtg.Media.{http_front_host, tls_front_host, is_blocked_media_cdn, is_blank, is_line_end}
use wrtg.Mtproto.Routing.{add_target}

abbrev pub web_blocked_ips : List Bytes
web_blocked_ips =
    bytes "149.154.167.99"
    ∷ bytes "149.154.175.211"
    ∷ bytes "149.154.171.255"
    ∷ bytes "149.154.162.123"
    ∷ bytes "149.154.175.204"
    ∷ bytes "149.154.175.205"
    ∷ []

abbrev pub before_colon : List Bytes → Bytes → Bytes
before_colon [] host = host
before_colon (piece ∷ pieces) host = piece

-- `host.trim().to_lowercase()`, without the port.
abbrev pub bare_host : Bytes → Bytes
bare_host host = let low = lowercase (trim host) in before_colon (split_at (λ c. c == b':') low) low

unfoldable pub is_web_telegram_host : Bytes → Bool
is_web_telegram_host host =
    let h = bare_host host in
    not (is_empty (lowercase (trim host)))
    && (h =? bytes "web.telegram.org" || ends_with h (bytes ".web.telegram.org"))

unfoldable pub is_cdn_telegram_host : Bytes → Bool
is_cdn_telegram_host host =
    let h = bare_host host in
    not (is_empty (lowercase (trim host)))
    && (h =? bytes "telesco.pe"
        || (ends_with h (bytes ".telesco.pe")
            || (starts_with h (bytes "cdn") && ends_with h (bytes ".telegram.org"))))

-- What a parser comes to.
pub data Scan : Type 0 where
  panicked nothing : Scan
  host : Bytes → Scan

-- `u16::from_be_bytes` at the start of a slice.
abbrev pub be16 : Bytes → ℕ
be16 s = get_or s 0 0 * 256 + get_or s 1 0

-- The first `n` bytes of a slice are indexed, which panics where there are fewer.
abbrev pub reading : ℕ → Bytes → Scan → Scan
reading n s scan = if ltb (length s) n then panicked else scan

-- `pos += n`, unless the slice ends before; `scan` goes on from there.
abbrev pub skip : ℕ → Bytes → (Bytes → Scan) → Scan
skip n s scan = if ltb (length s) n then nothing else scan (drop n s)

-- A block behind its length of one byte, or of two.
abbrev pub skip_block8 : Bytes → (Bytes → Scan) → Scan
skip_block8 s scan = reading 1 s (skip (get_or s 0 0) (drop 1 s) scan)

abbrev pub skip_block16 : Bytes → (Bytes → Scan) → Scan
skip_block16 s scan =
    if ltb (length s) 2 then nothing else reading 2 s (skip (be16 s) (drop 2 s) scan)

-- The loop over the names, from `pos` on, on fuel.
unfoldable pub sni_names : ℕ → Bytes → ℕ → ℕ → Scan
sni_names zero data_ list_len pos = nothing
sni_names (suc fuel) data_ list_len pos =
    let s = drop pos data_ in
    let name_len = be16 (drop 1 s) in
    let rest = sni_names fuel data_ list_len (pos + 3 + name_len) in
    let name = take name_len (drop 3 s) in
    if ltb (2 + list_len) (pos + 3)
    then nothing
    else reading (pos + 3) data_ (
        if ltb (length data_) (pos + 3 + name_len)
        then nothing
        else if get_or s 0 0 == 0
        then reading (pos + 3 + name_len) data_ (if is_utf8 name then host name else nothing)
        else rest)

unfoldable pub parse_sni_extension : Bytes → Scan
parse_sni_extension data_ =
    if ltb (length data_) 5
    then nothing
    else reading 2 data_ (
        if ltb (length data_) (be16 data_ + 2)
        then nothing
        else sni_names (length data_) data_ (be16 data_) 2)

-- A name found ends the search.
abbrev pub or_else : Scan → Scan → Scan
or_else panicked rest = panicked
or_else nothing rest = rest
or_else (host h) rest = host h

-- The loop over the extensions, on fuel.
unfoldable pub extensions : ℕ → Bytes → Scan
extensions zero s = nothing
extensions (suc fuel) s =
    let n = be16 (drop 2 s) in
    let body = drop 4 s in
    let rest = extensions fuel (drop n body) in
    let found =
      if be16 s == 0 then reading n body (parse_sni_extension (take n body)) else nothing in
    if ltb (length s) 4
    then nothing
    else reading 4 s (if ltb (length body) n then nothing else or_else found rest)

-- From the length of the extensions on; the loop indexes the bytes up to `ext_end`.
abbrev pub in_extensions : Bytes → Scan
in_extensions s =
    let exts = take (be16 s) (drop 2 s) in
    if ltb (length s) 2
    then nothing
    else reading 2 s (
        if ltb (length (drop 2 s)) (be16 s)
        then nothing
        else reading (be16 s) (drop 2 s) (extensions (length exts) exts))

-- From the compression methods on.
abbrev pub in_compression : Bytes → Scan
in_compression s = if ltb (length s) 1 then nothing else skip_block8 s in_extensions

-- From the session id on, whose length is read without a test.
abbrev pub from_session_id : Bytes → Scan
from_session_id s = skip_block8 s (λ t. skip_block16 t in_compression)

abbrev pub be24 : Bytes → ℕ
be24 s = get_or s 0 0 * 65536 + get_or s 1 0 * 256 + get_or s 2 0

unfoldable pub sni_from_client_hello : Bytes → Scan
sni_from_client_hello payload =
    let hs_len = be24 (drop 1 payload) in
    let body = take hs_len (drop 4 payload) in
    if ltb (length payload) 4
    then nothing
    else reading 4 payload (
        if not (get_or payload 0 0 == 1)
        then nothing
        else if ltb (length payload) (hs_len + 4)
        then nothing
        else reading (hs_len + 4) payload
            (if ltb (length body) 34 then nothing else from_session_id (drop 34 body)))

-- The loop over the records, on fuel.
unfoldable pub records : ℕ → Bytes → Scan
records zero s = nothing
records (suc fuel) s =
    let n = be16 (drop 3 s) in
    let starts = get_or s 0 0 == 0x16 && get_or s 1 0 == 3 in
    let rest = records fuel (drop (if starts then 5 + n else 1) s) in
    if ltb (length s) 5
    then nothing
    else reading 5 s (
        if not starts
        then rest
        else if ltb n 4 || ltb (length s) (5 + n)
        then nothing
        else reading (5 + n) s (or_else (sni_from_client_hello (take n (drop 5 s))) rest))

unfoldable pub parse_tls_client_hello_sni : Bytes → Scan
parse_tls_client_hello_sni data_ = records (length data_) data_
