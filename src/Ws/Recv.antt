-- ===== src/Ws/Recv.antt =====
-- ws.rs, `WsReadHalf::recv_binary`: whole messages out of frames, with pings answered on the way.
-- The loop runs on fuel: each frame takes two bytes of the stream or more, so the length of what the
-- peer has sent is enough. The mask keys that the pongs draw are given by their number, and so is
-- whether the writer still takes what is sent to it.
pub mod Ends
pub mod Messages
use wrtg.Prelude.{
  ℕ, zero, suc, ◌+◌, Bool, Option, none, some, List, [], ◌∷◌, ◌==◌, leb, if◌then◌else◌, length,
}
use wrtg.Prelude.Bytes.{Bytes, bytes}
use wrtg.Prelude.Results.{Result, ok, err}
use wrtg.Ws.Error.{IoError, broken_pipe}
use wrtg.Ws.Frame.{Frame, ws_protocol_error, read_frame, build_ws_frame, assemble_data_message}

-- What one call leaves: the message, `none` after a close frame, or the error; the pongs sent; and
-- the stream behind the last frame.
pub record Received : Type 0 where
  pub result : Result IoError (Option Bytes)
  pub pongs : List Bytes
  pub unread : Bytes

abbrev pub answered : Bytes → Option Received → Option Received
answered pong none = none
answered pong (some r) = some (record r { pongs = pong ∷ r.pongs })

unfoldable pub closed : IoError
closed = record { kind = broken_pipe; message = bytes "WebSocket writer closed" }

module _ (mask : ℕ → Bytes) (writer_open : ℕ → Bool) where
  -- `sent` pongs have been sent before; `none` stands for fuel that did not last.
  unfoldable pub recv_loop : ℕ → ℕ → Option Bytes → Bytes → Option Received
  recv_loop zero sent fragmented stream = none
  recv_loop (suc fuel) sent fragmented stream = elim (read_frame stream) [
    | err e ↦ some (record { result = err e; pongs = []; unread = stream })
    | ok (f, rest) ↦
        if f.opcode == 8
        then some (record { result = ok none; pongs = []; unread = rest })
        else if f.opcode == 9
        then (let pong = build_ws_frame 0xa f.payload (some (mask sent)) in
            let continued = recv_loop fuel (suc sent) fragmented rest in
            if writer_open sent
            then answered pong continued
            else some (record { result = err closed; pongs = []; unread = rest }))
        else if f.opcode == 10
        then recv_loop fuel sent fragmented rest
        else if leb f.opcode 2
        then (elim (assemble_data_message f.fin f.opcode f.payload fragmented) [
          | err e ↦ some (record { result = err e; pongs = []; unread = rest })
          | ok (some message, fragmented') ↦
              some (record { result = ok (some message); pongs = []; unread = rest })
          | ok (none, fragmented') ↦ recv_loop fuel sent fragmented' rest
        ])
        else some (record {
          result = err (ws_protocol_error (bytes "unsupported WebSocket opcode"));
          pongs = [];
          unread = rest;
        })
  ]

  unfoldable pub recv_binary : Bytes → Option Received
  recv_binary stream = recv_loop (suc (length stream)) 0 none stream
