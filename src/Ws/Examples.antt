-- ===== src/Ws/Examples.antt =====
-- ws.rs: frames of the program, a message in fragments with a ping between them, and an upgrade.
use wrtg.Prelude.Map
use wrtg.Prelude.Utf8.{from_utf8_lossy, lossy_from, lead}
use wrtg.Ws.Answer.{
  read_answer, read_headers, read_line, take_line, split_once, add_header, judge, status_code_of,
  upgrade_ok, connection_ok, accept_ok,
}
use wrtg.Ws.Upgrade.{
  Network, done, connect_ws_inner, open_request, request, push_headers, websocket_accept,
}
use wrtg.Ws.Upgrade.Bounded.{Opens, connect_ws_inner-Ends}
use wrtg.Prelude.{ℕ, ◌≡◌, inr, refl, arith, Bool, true, false, [], ◌∷◌, ◌++◌, none, some, replicate}
use wrtg.Prelude.Bytes.{
  Bytes, bytes, trim_end, trim_start, trim, lowercase, to_ascii_lowercase, split_at, parse_uint,
  parse_digits, parse_u64,
}
use wrtg.Ws.Error.{unexpected_eof}
use wrtg.Prelude.Results.{ok}
use wrtg.Ws.Frame.{build_ws_frame}
use wrtg.Ws.Frame.RoundTrip.{frame_bytes, serve_frame, build_ws_frame_masked}
use wrtg.Ws.Recv.{recv_binary}
use wrtg.Ws.Recv.Messages.{part, ping, pong, pieces_bytes, recv_binary_message}

abbrev mask_key : Bytes
mask_key = 11 ∷ 22 ∷ 33 ∷ 44 ∷ []

build_ws_frame_masked_example :
    serve_frame (build_ws_frame 2 (replicate 130 9) (some mask_key) ++ (5 ∷ []))
    ≡ some (record { fin = true; opcode = 2; payload = replicate 130 9 }, 5 ∷ [])
build_ws_frame_masked_example =
    build_ws_frame_masked 2 (replicate 130 9) mask_key (5 ∷ []) (omega arith) (omega arith) refl

abbrev same_mask : ℕ → Bytes
same_mask n = mask_key

abbrev always : ℕ → Bool
always n = true

recv_binary_message_example :
    recv_binary same_mask always (
      frame_bytes (record { fin = false; opcode = 2; payload = 1 ∷ [] })
      ++ (pieces_bytes (ping (8 ∷ []) ∷ part (2 ∷ []) ∷ pong [] ∷ [])
          ++ (frame_bytes (record { fin = true; opcode = 0; payload = 3 ∷ [] }) ++ (77 ∷ []))))
    ≡ some (record {
      result = ok (some (1 ∷ 2 ∷ 3 ∷ []));
      pongs = build_ws_frame 0xa (8 ∷ []) (some mask_key) ∷ [];
      unread = 77 ∷ [];
    })
recv_binary_message_example =
    recv_binary_message same_mask always (λ n. refl) 2 (1 ∷ [])
      (ping (8 ∷ []) ∷ part (2 ∷ []) ∷ pong [] ∷ []) (3 ∷ []) (77 ∷ []) (inr refl)
      (omega arith, (omega arith, (omega arith, _))) (omega arith)

-- A server that accepts, with one header in two lines, and has already sent a frame.
abbrev accepts : Bytes → Bytes
accepts req =
    bytes "HTTP/1.1 101 Switching Protocols\r\nUpgrade: WebSocket\r\nConnection: keep-alive\r\n"
    ++ (bytes "connection: Upgrade\r\nSec-WebSocket-Accept: "
        ++ (bytes "k258EAFA5-E914-47DA-95CA-C5AB0DC85B11" ++ (bytes "\r\n\r\n" ++ (0x82 ∷ 0 ∷ []))))

abbrev network : Network
network = record {
  dial = λ ip. done;
  bad_name = λ name. none;
  secure = λ ip name. done;
  write = λ req. done;
  answer = accepts;
  broken_off = record { kind = unexpected_eof; message = [] };
  sha1 = λ s. s;
  base64 = λ s. s;
}

connect_ws_inner-accepts :
    connect_ws_inner network (bytes "1.2.3.4") (bytes "h") none (bytes "/apiws") [] (bytes "k")
    ≡ some (ok (0x82 ∷ 0 ∷ []))
unfolding connect_ws_inner open_request request push_headers read_answer read_headers read_line
    take_line split_once add_header judge status_code_of upgrade_ok connection_ok accept_ok
    websocket_accept to_ascii_lowercase Map.get Map.insert Map.remove trim_end trim_start trim
    lowercase from_utf8_lossy lossy_from lead split_at parse_uint parse_digits parse_u64
connect_ws_inner-accepts = refl

connect_ws_inner-Ends_example :
    Opens network
      (open_request network
        (bytes "1.2.3.4")
        (bytes "h")
        (bytes "h")
        (bytes "/apiws")
        (bytes "k")
        [])
      (connect_ws_inner network (bytes "1.2.3.4") (bytes "h") none (bytes "/apiws") [] (bytes "k"))
connect_ws_inner-Ends_example =
    connect_ws_inner-Ends network (bytes "1.2.3.4") (bytes "h") none (bytes "/apiws") [] (bytes "k")
