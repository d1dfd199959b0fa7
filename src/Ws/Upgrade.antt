-- ===== src/Ws/Upgrade.antt =====
-- ws.rs: opening a WebSocket, from the TCP connection to the server's answer.
-- The network, the TLS library, SHA-1 and Base64 are outside. What the server sends is a function of the
-- request; behind it a read fails with `broken_off`, which may be a timeout. The random part of the key is
-- an argument. Options of the socket are left out.
pub mod Bounded
use wrtg.Prelude.{
  ℕ, Bool, not, ◌||◌, Option, none, some, List, [], ◌∷◌, ◌++◌, ◌==◌, if◌then◌else◌, any,
}
use wrtg.Prelude.Int.{ℤ, pos}
use wrtg.Prelude.Bytes.{Bytes, bytes, is_empty, trim}
use wrtg.Prelude.Durations.{unwrap_or}
use wrtg.Prelude.Results.{Result, ok, err, ◌>>=◌}
use wrtg.Mtproto.Routing.{decimal}
use wrtg.Ws.Error.{IoError, WsConnectError, io, tls, timeout, other, into_io}
use wrtg.Ws.Answer.{crlf, read_answer}

abbrev pub ws_guid : Bytes
ws_guid = bytes "258EAFA5-E914-47DA-95CA-C5AB0DC85B11"

abbrev is_break : ℕ → Bool
is_break c = c == 13 || c == 10

-- The lines that the caller adds to the request.
unfoldable pub push_headers : List (Bytes × Bytes) → Result WsConnectError Bytes
push_headers [] = ok []
push_headers ((name, value) ∷ more) =
    if any (λ c. is_break c || c == b':') name || any is_break value
    then err (io (record { kind = other; message = bytes "invalid WebSocket header" }))
    else (push_headers more >>= (λ lines. ok (name ++ (bytes ": " ++ (value ++ (crlf ++ lines))))))

abbrev line_of : Bytes → Bytes
line_of s = s ++ crlf

unfoldable pub request : Bytes → Bytes → Bytes → List (Bytes × Bytes) → Result WsConnectError Bytes
request path host ws_key extra_headers = push_headers extra_headers >>= (λ lines. ok (
    line_of (bytes "GET " ++ (path ++ bytes " HTTP/1.1"))
    ++ (line_of (bytes "Host: " ++ host)
        ++ (line_of (bytes "Upgrade: websocket")
            ++ (line_of (bytes "Connection: Upgrade")
                ++ (line_of (bytes "Sec-WebSocket-Key: " ++ ws_key)
                    ++ (line_of (bytes "Sec-WebSocket-Version: 13")
                        ++ (line_of (bytes "Sec-WebSocket-Protocol: binary")
                            ++ (lines ++ crlf)))))))))

-- How a step of the connection ends: done, with an error, or not in time.
pub data Step : Type 0 where
  done late : Step
  failed : IoError → Step

abbrev pub after : (IoError → WsConnectError) → Step → Result WsConnectError (Unit {0})
after wrap done = ok tt
after wrap late = err timeout
after wrap (failed e) = err (wrap e)

pub record Network : Type 0 where
  pub dial : Bytes → Step
  pub bad_name : Bytes → Option IoError
  pub secure : Bytes → Bytes → Step
  pub write : Bytes → Step
  pub answer : Bytes → Bytes
  pub broken_off : IoError
  pub sha1 : Bytes → Bytes
  pub base64 : Bytes → Bytes

module _ (net : Network) where
  unfoldable pub websocket_accept : Bytes → Bytes
  websocket_accept key = net.base64 (net.sha1 (key ++ ws_guid))

  abbrev named : Bytes → Result WsConnectError (Unit {0})
  named tls_name = elim (net.bad_name tls_name) [ none ↦ ok tt | some e ↦ err (io e) ]

  -- Up to the request, which has been sent where there is no error.
  unfoldable pub open_request :
      Bytes → Bytes → Bytes → Bytes → Bytes → List (Bytes × Bytes) → Result WsConnectError Bytes
  open_request target_ip host tls_name path ws_key extra_headers =
      after io (net.dial target_ip)
      >>= (λ d. named tls_name)
      >>= (λ n. after tls (net.secure target_ip tls_name))
      >>= (λ s. request path host ws_key extra_headers)
      >>= (λ req. after io (net.write req) >>= (λ w. ok req))

  unfoldable pub connect_ws_inner :
      Bytes
      → Bytes
      → Option Bytes
      → Bytes
      → List (Bytes × Bytes)
      → Bytes
      → Option (Result WsConnectError Bytes)
  connect_ws_inner target_ip host sni path extra_headers key =
      let ws_key = net.base64 key in
      elim (open_request target_ip host (unwrap_or sni host) path ws_key extra_headers) [
        | err e ↦ some (err e)
        | ok req ↦ read_answer net.broken_off (websocket_accept ws_key) (net.answer req)
      ]

  unfoldable pub connect_ws_with_headers :
      Bytes → Bytes → Bytes → List (Bytes × Bytes) → Bytes → Option (Result WsConnectError Bytes)
  connect_ws_with_headers target_ip domain path extra_headers key =
      connect_ws_inner target_ip domain none path extra_headers key

  unfoldable pub connect_ws_fronted :
      Bytes → Bytes → Bytes → Bytes → Bytes → Option (Result WsConnectError Bytes)
  connect_ws_fronted target_ip host sni path key =
      connect_ws_inner target_ip host (some sni) path [] key

  -- `map_err(WsConnectError::into_io)`
  unfoldable pub connect_ws : Bytes → Bytes → Bytes → Bytes → Option (Result IoError Bytes)
  connect_ws target_ip domain path key =
      elim (connect_ws_with_headers target_ip domain path [] key) [
        | none ↦ none
        | some (ok rest) ↦ some (ok rest)
        | some (err e) ↦ some (err (into_io e))
      ]

  -- `token` is the setting `WRTG_CF_WORKER_TOKEN`.
  unfoldable pub connect_cf_worker :
      Option Bytes → Bytes → Bytes → Bytes → Option (Result WsConnectError Bytes)
  connect_cf_worker token worker_domain path key =
      let t = trim (unwrap_or token []) in
      let headers = if is_empty t then [] else (bytes "X-WRTG-Token", t) ∷ [] in
      connect_ws_with_headers worker_domain worker_domain path headers key

  unfoldable pub connect_cf_worker_ws :
      Option Bytes → Bytes → Bytes → ℤ → Bytes → Option (Result WsConnectError Bytes)
  connect_cf_worker_ws token worker_domain dst_ip dc key =
      connect_cf_worker token worker_domain
        (bytes "/apiws?dst=" ++ (dst_ip ++ (bytes "&dc=" ++ decimal dc))) key

  unfoldable pub connect_cf_worker_tcp :
      Option Bytes → Bytes → Bytes → ℕ → Bytes → Option (Result WsConnectError Bytes)
  connect_cf_worker_tcp token worker_domain dst_ip dst_port key =
      connect_cf_worker token worker_domain
        (bytes "/apiws?dst=" ++ (dst_ip ++ (bytes "&dc=0&port=" ++ decimal (pos dst_port)))) key
