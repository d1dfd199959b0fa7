-- ===== src/Ws/Answer.antt =====
-- ws.rs: the server's answer to the request for a WebSocket. Behind what the server sends a read fails with
-- `broken_off`, which may be a timeout.
use wrtg.Prelude.{
  ℕ, zero, suc, ◌+◌, ◌*◌, ◌^◌, Bool, false, not, ◌||◌, Option, none, some, List, [], ◌∷◌, ◌++◌, ltb,
  ◌==◌, if◌then◌else◌, length, any, get_or,
}
use wrtg.Prelude.Eq.{ℕ_eq, list_eq, ◌=?◌}
use wrtg.Prelude.Map
use wrtg.Prelude.Map.{Map}
use wrtg.Prelude.Bytes.{
  Bytes, bytes, is_empty, is_whitespace, trim, trim_end, lowercase, split_at, parse_uint,
}
use wrtg.Prelude.Durations.{unwrap_or}
use wrtg.Prelude.Utf8.{from_utf8_lossy}
use wrtg.Prelude.Results.{Result, ok, err}
use wrtg.Ws.Error.{IoError, WsConnectError, io, handshake, invalid_data, map_read_err}

abbrev pub max_http_line : ℕ
max_http_line = 8 * 1024

abbrev pub max_http_headers : ℕ
max_http_headers = 32 * 1024

abbrev pub crlf : Bytes
crlf = 13 ∷ 10 ∷ []

abbrev pub bad_data : Bytes → IoError
bad_data message = record { kind = invalid_data; message = message }

-- A line of the answer behind `buf`, and what stands behind it.
unfoldable pub read_line : IoError → ℕ → Bytes → Bytes → Result IoError (Bytes × Bytes)
read_line broken_off max_len buf [] = err broken_off
read_line broken_off max_len buf (c ∷ s) =
    let line = buf ++ (c ∷ []) in
    let rest = read_line broken_off max_len line s in
    if ltb max_len (length line)
    then err (bad_data (bytes "HTTP response line too long"))
    else if c == 10
    then ok (line, s)
    else rest

-- `s.split_once(':')`
unfoldable pub split_once : Bytes → Option (Bytes × Bytes)
split_once [] = none
split_once (c ∷ s) =
    if c == b':'
    then some ([], s)
    else (elim (split_once s) [ none ↦ none | some (name, value) ↦ some (c ∷ name, value) ])

-- A header that comes again is joined to the earlier ones.
unfoldable pub add_header : Map Bytes Bytes → Bytes → Bytes → Map Bytes Bytes
add_header headers name value =
    let key = lowercase (trim name) in
    elim (Map.get headers key) [
      | none ↦ Map.insert headers key (trim value)
      | some old ↦ Map.insert headers key (old ++ (b',' ∷ trim value))
    ]

-- One line of the loop: the headers with it, or that it is the blank one.
unfoldable pub take_line :
    Map Bytes Bytes → ℕ → Bytes → Result WsConnectError (Option (Map Bytes Bytes))
take_line headers headers_len line =
    if ltb max_http_headers headers_len
    then err (io (bad_data (bytes "WebSocket response headers too large")))
    else if line =? crlf || line =? 10 ∷ []
    then ok none
    else (elim (split_once (trim_end is_whitespace (from_utf8_lossy line))) [
      | none ↦ err (io (bad_data (bytes "malformed WebSocket response header")))
      | some (name, value) ↦ ok (some (add_header headers name value))
    ])

-- The loop over the headers, on fuel.
unfoldable pub read_headers :
    IoError
    → ℕ
    → Map Bytes Bytes
    → ℕ
    → Bytes
    → Option (Result WsConnectError (Map Bytes Bytes × Bytes))
read_headers broken_off zero headers headers_len stream = none
read_headers broken_off (suc fuel) headers headers_len stream =
    elim (read_line broken_off max_http_line [] stream) [
      | err e ↦ some (err (map_read_err e))
      | ok (line, rest) ↦ elim (take_line headers (headers_len + length line) line) [
        | err e ↦ some (err e)
        | ok none ↦ some (ok (headers, rest))
        | ok (some headers') ↦
            read_headers broken_off fuel headers' (headers_len + length line) rest
      ]
    ]

-- `s.split_whitespace()`
abbrev pub words : List Bytes → List Bytes
words [] = []
words (w ∷ ws) = if is_empty w then words ws else w ∷ words ws

-- The second word of the first line, as a number; 0 where it is none.
unfoldable pub status_code_of : Bytes → ℕ
status_code_of status =
    unwrap_or (parse_uint (2 ^ 16) (get_or (words (split_at is_whitespace status)) 1 [])) 0

abbrev pub eq_ignore_case : Bytes → Bytes → Bool
eq_ignore_case a b = lowercase a =? b

unfoldable pub upgrade_ok : Map Bytes Bytes → Bool
upgrade_ok headers = elim (Map.get headers (bytes "upgrade")) [
  | none ↦ false
  | some v ↦ eq_ignore_case v (bytes "websocket")
]

unfoldable pub connection_ok : Map Bytes Bytes → Bool
connection_ok headers = elim (Map.get headers (bytes "connection")) [
  | none ↦ false
  | some v ↦
      any (λ token. eq_ignore_case (trim token) (bytes "upgrade")) (split_at (λ c. c == b',') v)
]

unfoldable pub accept_ok : Bytes → Map Bytes Bytes → Bool
accept_ok expected headers = elim (Map.get headers (bytes "sec-websocket-accept")) [
  | none ↦ false
  | some v ↦ v =? expected
]

-- From the status and the headers on.
unfoldable pub judge : Bytes → Bytes → Map Bytes Bytes × Bytes → Result WsConnectError Bytes
judge expected status_line (headers, rest) =
    let status = from_utf8_lossy status_line in
    let code = status_code_of status in
    if not (code == 101)
    then err
        (handshake (record { status_code = code; status_line = trim status; headers = headers }))
    else if not (upgrade_ok headers)
        || (not (connection_ok headers) || not (accept_ok expected headers))
    then err (io (bad_data (bytes "invalid WebSocket upgrade response")))
    else ok rest

abbrev pub judged :
    Bytes
    → Bytes
    → Option (Result WsConnectError (Map Bytes Bytes × Bytes))
    → Option (Result WsConnectError Bytes)
judged expected status_line none = none
judged expected status_line (some (err e)) = some (err e)
judged expected status_line (some (ok got)) = some (judge expected status_line got)

-- The answer: what stands behind it where the socket is open.
unfoldable pub read_answer : IoError → Bytes → Bytes → Option (Result WsConnectError Bytes)
read_answer broken_off expected stream = elim (read_line broken_off max_http_line [] stream) [
  | err e ↦ some (err (map_read_err e))
  | ok (status_line, rest) ↦
      judged expected status_line
        (read_headers broken_off (suc (length rest)) [] (length status_line) rest)
]
