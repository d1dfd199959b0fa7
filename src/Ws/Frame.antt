-- ===== src/Ws/Frame.antt =====
-- ws.rs: frames on the wire. The mask key of a client frame, which the source draws at random, is an
-- argument. A read takes its bytes from those that the peer has sent; where there are too few, the
-- connection has ended. The texts of the errors are without the length that the source puts in them.
pub mod RoundTrip
use wrtg.Prelude.{
  ℕ, ◌+◌, ◌*◌, ◌/◌, ◌%◌, ◌^◌, suc, Bool, true, false, not, ◌&&◌, ◌||◌, Option, none, some, List, [],
  ◌∷◌, ◌++◌, ltb, leb, ◌==◌, if◌then◌else◌, length, take, drop, get_or, bit_and, bit_or, bit_xor,
}
use wrtg.Prelude.Bytes.{Bytes, bytes}
use wrtg.Prelude.Results.{Result, ok, err, ◌>>=◌}
use wrtg.Mtproto.Constants.{max_ws_payload}
use wrtg.Ws.Error.{IoError, invalid_data, unexpected_eof}

pub record Frame : Type 0 where
  pub fin : Bool
  pub opcode : ℕ
  pub payload : Bytes

unfoldable pub ws_protocol_error : Bytes → IoError
ws_protocol_error message = record { kind = invalid_data; message = message }

-- `to_be_bytes` at 16 and at 64 bits.
abbrev pub be16 : ℕ → Bytes
be16 n = n / 256 % 256 ∷ n % 256 ∷ []

abbrev pub be64 : ℕ → Bytes
be64 n =
    n / 2 ^ 56 % 256
    ∷ n / 2 ^ 48 % 256
    ∷ n / 2 ^ 40 % 256
    ∷ n / 2 ^ 32 % 256
    ∷ n / 2 ^ 24 % 256
    ∷ n / 2 ^ 16 % 256
    ∷ n / 256 % 256
    ∷ n % 256
    ∷ []

-- `from_be_bytes`, at any width.
abbrev pub from_be : ℕ → Bytes → ℕ
from_be acc [] = acc
from_be acc (b ∷ bs) = from_be (acc * 256 + b) bs

abbrev pub read_exact : ℕ → Bytes → Result IoError (Bytes × Bytes)
read_exact n stream =
    if ltb (length stream) n
    then err (record { kind = unexpected_eof; message = bytes "early eof" })
    else ok (take n stream, drop n stream)

abbrev too_large : IoError
too_large = record { kind = invalid_data; message = bytes "WS frame too large" }

-- The extended length, and what is left of the stream.
unfoldable pub read_length : ℕ → Bytes → Result IoError (ℕ × Bytes)
read_length short stream =
    if short == 126
    then (do (ext, rest) ← read_exact 2 stream; ok (from_be 0 ext, rest))
    else if short == 127
    then (do
      (ext, rest) ← read_exact 8 stream
      if ltb max_ws_payload (from_be 0 ext) then err too_large else ok (from_be 0 ext, rest))
    else ok (short, stream)

-- The tests behind the length, and the payload.
unfoldable pub read_payload : Bool → ℕ → ℕ → Bytes → Result IoError (Frame × Bytes)
unfolding ws_protocol_error
read_payload fin opcode length_ stream =
    if ltb max_ws_payload length_
    then err too_large
    else if leb 8 opcode && (not fin || ltb 125 length_)
    then err (ws_protocol_error (bytes "invalid WebSocket control frame"))
    else (do
      (payload, rest) ← read_exact length_ stream
      ok (record { fin = fin; opcode = opcode; payload = payload }, rest))

unfoldable pub read_frame : Bytes → Result IoError (Frame × Bytes)
read_frame stream = do
  (hdr, after_hdr) ← read_exact 2 stream
  let h₀ = get_or hdr 0 0
  let h₁ = get_or hdr 1 0
  if not (bit_and h₀ 0x70 == 0)
      then err (ws_protocol_error (bytes "WebSocket RSV bits are set"))
      else if not (bit_and h₁ 0x80 == 0)
      then err (ws_protocol_error (bytes "masked server WebSocket frame"))
      else (do
        (n, rest) ← read_length (bit_and h₁ 0x7f) after_hdr
        read_payload (not (bit_and h₀ 0x80 == 0)) (bit_and h₀ 0x0f) n rest)

unfoldable pub ws_header_unmasked : ℕ → ℕ → Bytes
ws_header_unmasked fb n =
    if ltb n 126 then fb ∷ n ∷ [] else if ltb n 65536 then fb ∷ 126 ∷ be16 n else fb ∷ 127 ∷ be64 n

unfoldable pub ws_header_masked : ℕ → ℕ → Bytes → Bytes
ws_header_masked fb n mask_key =
    if ltb n 126
    then fb ∷ bit_or 0x80 n ∷ mask_key
    else if ltb n 65536
    then fb ∷ bit_or 0x80 126 ∷ be16 n ++ mask_key
    else fb ∷ bit_or 0x80 127 ∷ be64 n ++ mask_key

-- `enumerate().map(|(i, b)| b ^ mask[i % 4])`, from index `i`.
unfoldable pub xor_mask : ℕ → Bytes → Bytes → Bytes
xor_mask i [] mask = []
xor_mask i (b ∷ bs) mask = bit_xor b (get_or mask (i % 4) 0) ∷ xor_mask (suc i) bs mask

-- `none` for the mask is `mask: false`.
unfoldable pub build_ws_frame : ℕ → Bytes → Option Bytes → Bytes
build_ws_frame opcode payload none =
    ws_header_unmasked (bit_or 0x80 opcode) (length payload) ++ payload
build_ws_frame opcode payload (some mask_key) =
    ws_header_masked (bit_or 0x80 opcode) (length payload) mask_key ++ xor_mask 0 payload mask_key

unfoldable pub ws_ping_frame : Bytes → Bytes
ws_ping_frame mask_key = build_ws_frame 0x9 [] (some mask_key)

-- The data of a message that is not complete yet is the state.
unfoldable pub assemble_data_message :
    Bool → ℕ → Bytes → Option Bytes → Result IoError (Option Bytes × Option Bytes)
assemble_data_message fin opcode payload fragmented =
    if opcode == 1 || opcode == 2
    then (elim fragmented [
      | some _ ↦
          err (ws_protocol_error (bytes "new WebSocket data frame during fragmented message"))
      | none ↦ if fin then ok (some payload, none) else ok (none, some payload)
    ])
    else if opcode == 0
    then (elim fragmented [
      | none ↦ err (ws_protocol_error (bytes "WebSocket continuation without initial frame"))
      | some message ↦
          if ltb max_ws_payload (length message + length payload)
          then err (ws_protocol_error (bytes "fragmented WebSocket message too large"))
          else if fin
          then ok (some (message ++ payload), none)
          else ok (none, some (message ++ payload))
    ])
    else err (ws_protocol_error (bytes "not a WebSocket data frame"))
