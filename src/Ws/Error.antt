-- ===== src/Ws/Error.antt =====
-- ws.rs: `WsConnectError` and the questions that callers ask about it.
use wrtg.Prelude.{ℕ, Bool, false, Option, none, some, [], ◌∷◌, ltb, ◌==◌, if◌then◌else◌, any, ◌++◌}
use wrtg.Prelude.Eq.{ℕ_eq, list_eq}
use wrtg.Prelude.Map
use wrtg.Prelude.Map.{Map}
use wrtg.Prelude.Bytes.{Bytes, bytes, is_empty, trim, parse_u64, contains}
use wrtg.Prelude.Durations.{from_secs, unwrap_or}

-- The kinds of `std::io::Error` that the program tells apart.
pub data ErrorKind : Type 0 where
  timed_out invalid_data broken_pipe would_block unexpected_eof other : ErrorKind

pub record IoError : Type 0 where
  pub kind : ErrorKind
  pub message : Bytes

pub record WsHandshakeError : Type 0 where
  pub status_code : ℕ
  pub status_line : Bytes
  pub headers : Map Bytes Bytes

pub data WsConnectError : Type 0 where
  io tls : IoError → WsConnectError
  handshake : WsHandshakeError → WsConnectError
  timeout : WsConnectError

unfoldable pub http_status : WsConnectError → Option ℕ
http_status (handshake h) = some h.status_code
http_status _ = none

unfoldable pub is_ws_http_status : WsConnectError → ℕ → Bool
unfolding http_status
is_ws_http_status err code = elim (http_status err) [ none ↦ false | some c ↦ c == code ]

retry_after_secs : Bytes → ℕ
retry_after_secs s =
    if is_empty s
    then 0
    else (elim (parse_u64 s) [ none ↦ 0 | some n ↦ if ltb 0 n then from_secs n else 0 ])

unfoldable pub retry_after_from_err : WsConnectError → ℕ
unfolding retry_after_secs
retry_after_from_err (handshake h) =
    retry_after_secs (trim (unwrap_or (Map.get h.headers (bytes "retry-after")) []))
retry_after_from_err _ = 0

unfoldable pub is_ws_redirect : IoError → Bool
is_ws_redirect err =
    any (contains err.message)
      (bytes " 302 " ∷ bytes " 301 " ∷ bytes " 303 " ∷ bytes " 307 " ∷ bytes " 308 " ∷ [])

unfoldable pub is_ws_redirect_err : WsConnectError → Bool
is_ws_redirect_err (handshake h) = any (◌==◌ h.status_code) (301 ∷ 302 ∷ 303 ∷ 307 ∷ 308 ∷ [])
is_ws_redirect_err (io e) = is_ws_redirect e
is_ws_redirect_err (tls e) = false
is_ws_redirect_err timeout = false

-- `into_io` keeps the error that it has, and words the two others.
unfoldable pub into_io : WsConnectError → IoError
into_io (io e) = e
into_io (tls e) = e
into_io timeout = record { kind = timed_out; message = bytes "WebSocket timeout" }
into_io (handshake h) = record {
  kind = invalid_data;
  message = bytes "WS handshake failed: " ++ trim h.status_line;
}

unfoldable pub map_read_err : IoError → WsConnectError
map_read_err e = elim e.kind [ timed_out ↦ timeout | _ ↦ io e ]
