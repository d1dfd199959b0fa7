-- ===== src/Splitter.antt =====
-- crates/wrtg/src/splitter.rs: cuts the encrypted upstream bytes at MTProto packet boundaries.
-- `next_packet_len` returns the `i32` of the source: -1 for "wait", 0 for "give up", or a length.
-- `while offset < buf_len` is a recursion on fuel; a round takes a byte at least, so the number of
-- buffered bytes is enough.
pub mod Lengths
pub mod Frames
pub mod Growth
pub mod Chunks
pub mod Segmentation
pub mod Packets
mod Examples
use wrtg.Prelude.{
  ℕ, zero, suc, ◌+◌, ◌-◌, ◌*◌, ◌%◌, ◌^◌, Bool, true, false, ◌||◌, Option, none, some, List, [], ◌∷◌,
  ◌++◌, ltb, ◌==◌, if◌then◌else◌, length, take, drop, get_or, bit_and,
}
use wrtg.Prelude.Int.{ℤ, pos, negsuc}
use wrtg.Prelude.Bytes.{Bytes, is_empty}
use wrtg.Cipher.{Cipher}
use wrtg.Mtproto.Constants.{
  max_mtproto_packet, proto_abridged_int, proto_intermediate_int, proto_padded_intermediate_int,
}

-- `&buf[from..from + n]`, within the bounds that the callers check.
abbrev pub slice : Bytes → ℕ → ℕ → Bytes
slice buf from n = take n (drop from buf)

-- The branch that both framings share: too long, not complete, or a packet.
unfoldable pub checked_len : ℕ → ℕ → ℤ
checked_len packet_len avail =
    if ltb max_mtproto_packet packet_len
    then pos 0
    else if ltb avail packet_len
    then negsuc 0
    else pos packet_len

-- `b[0] | b[1] << 8 | b[2] << 16`: the bytes do not overlap, so the sum is the same number.
unfoldable pub next_abridged_len : Bytes → ℕ → ℕ → ℤ
next_abridged_len plain_buf offset avail =
    let first = get_or plain_buf offset 0 in
    let b = slice plain_buf (offset + 1) 3 in
    let long_len = (get_or b 0 0 + get_or b 1 0 * 256 + get_or b 2 0 * 65536) * 4 in
    let payload_len = bit_and first 0x7f * 4 in
    if first == 0x7f || first == 0xff
    then if ltb avail 4 then negsuc 0 else checked_len (4 + long_len) avail
    else if payload_len == 0
    then pos 0
    else checked_len (1 + payload_len) avail

-- `u32::from_le_bytes(..) & 0x7FFF_FFFF`
unfoldable pub next_intermediate_len : Bytes → ℕ → ℕ → ℤ
next_intermediate_len plain_buf offset avail =
    let b = slice plain_buf offset 4 in
    let word = get_or b 0 0 + get_or b 1 0 * 256 + get_or b 2 0 * 65536 + get_or b 3 0 * 16777216 in
    let payload_len = word % 2 ^ 31 in
    if ltb avail 4
    then negsuc 0
    else if payload_len == 0
    then pos 0
    else checked_len (4 + payload_len) avail

unfoldable pub next_packet_len : ℕ → Bytes → ℕ → ℕ → ℤ
next_packet_len proto plain_buf offset avail =
    if avail == 0
    then negsuc 0
    else if proto == proto_abridged_int
    then next_abridged_len plain_buf offset avail
    else if proto == proto_intermediate_int || proto == proto_padded_intermediate_int
    then next_intermediate_len plain_buf offset avail
    else pos 0

-- The loop of `split`: the parts in order, the offset behind them, and `disabled`.
unfoldable pub split_loop : ℕ → ℕ → Bytes → Bytes → ℕ → List Bytes × ℕ × Bool
split_loop zero proto cipher_buf plain_buf offset = ([], offset, false)
split_loop (suc fuel) proto cipher_buf plain_buf offset =
    let buf_len = length cipher_buf in
    if ltb offset buf_len
    then (elim (next_packet_len proto plain_buf offset (buf_len - offset)) [
      | negsuc _ ↦ ([], offset, false)
      | pos zero ↦ (drop offset cipher_buf ∷ [], buf_len, true)
      | pos (suc n) ↦
          let (parts, end, disabled) =
            split_loop fuel proto cipher_buf plain_buf (offset + suc n) in
          (slice cipher_buf offset (suc n) ∷ parts, end, disabled)
    ])
    else ([], offset, false)

module _ (C : Cipher) where
  open C use {Stream, apply_keystream}

  pub record MsgSplitter : Type 0 where
    pub dec : Stream
    pub proto : ℕ
    pub cipher_buf : Bytes
    pub plain_buf : Bytes
    pub disabled : Bool

  -- `MsgSplitter::new` on the stream that `new_relay_decrypt_stream` gives.
  unfoldable pub start : Stream → ℕ → MsgSplitter
  start dec proto_int = record {
    dec = dec;
    proto = proto_int;
    cipher_buf = [];
    plain_buf = [];
    disabled = false;
  }

  unfoldable pub split : MsgSplitter → Bytes → MsgSplitter × List Bytes
  split s chunk =
      if is_empty chunk
      then (s, [])
      else if s.disabled
      then (s, chunk ∷ [])
      else (let (plain_chunk, dec) = apply_keystream s.dec chunk in
          let cipher_buf = s.cipher_buf ++ chunk in
          let plain_buf = s.plain_buf ++ plain_chunk in
          let (parts, offset, disabled) =
            split_loop (length cipher_buf) s.proto cipher_buf plain_buf 0 in
          (
            record {
              dec = dec;
              proto = s.proto;
              cipher_buf = if ltb 0 offset then drop offset cipher_buf else cipher_buf;
              plain_buf = if ltb 0 offset then drop offset plain_buf else plain_buf;
              disabled = disabled;
            },
            parts,
          ))

  unfoldable pub flush : MsgSplitter → MsgSplitter × List Bytes
  flush s =
      if is_empty s.cipher_buf
      then (s, [])
      else (record s { cipher_buf = []; plain_buf = [] }, s.cipher_buf ∷ [])
