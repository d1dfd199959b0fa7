-- ===== src/Mtproto/Handshake.antt =====
-- mtproto.rs: `parse_direct_handshake` and `generate_relay_init`.
use wrtg.Prelude.{
  ℕ, ◌+◌, ◌-◌, ◌*◌, ◌/◌, ◌%◌, Bool, true, false, ◌&&◌, ◌||◌, Option, none, some, List, [], ◌∷◌,
  ◌++◌, ltb, leb, ◌==◌, if◌then◌else◌, length, take, drop, get_or, replicate, any, bit_xor,
}
use wrtg.Prelude.Int.{ℤ, pos, negsuc}
use wrtg.Prelude.Eq.{ℕ_eq, eq_list}
use wrtg.Prelude.Bytes.{Bytes}
use wrtg.Prelude.Results.{Result, ok, err, ok_or, ◌>>=◌}
use wrtg.Cipher.{Cipher}
use wrtg.Mtproto.Constants.{
  handshake_len, skip_len, prekey_len, iv_len, proto_tag_pos, proto_abridged_int,
  proto_intermediate_int, proto_padded_intermediate_int, proto_tag_abridged, proto_tag_intermediate,
  proto_tag_secure,
}

pub record HandshakeInfo : Type 0 where
  pub dc : ℤ
  pub is_media : Bool
  pub dc_in_pkt : Bool
  pub proto_int : ℕ
  pub handshake : Bytes

-- The messages that the source formats.
pub data Error : Type 0 where
  handshake_length : ℕ → Error
  invalid_length : Error
  unknown_proto_tag : Bytes → Error

-- `(1..=5).contains(&dc) || dc == 203`
unfoldable pub valid_dc : ℤ → Bool
valid_dc (pos n) = (leb 1 n && leb n 5) || n == 203
valid_dc (negsuc n) = false

-- `i16::from_le_bytes`, widened to `i32`.
unfoldable pub i16_from_le : ℕ → ℕ → ℤ
i16_from_le lo hi = let w = lo + hi * 256 in if ltb w 32768 then pos w else negsuc (65536 - w - 1)

-- `dc_idx as u16`
unfoldable pub i16_as_u16 : ℤ → ℕ
i16_as_u16 (pos n) = n % 65536
i16_as_u16 (negsuc n) = 65535 - n % 65536

unfoldable pub key_of : Bytes → Bytes
key_of packet = take prekey_len (drop skip_len packet)

unfoldable pub iv_of : Bytes → Bytes
iv_of packet = take iv_len (drop (skip_len + prekey_len) packet)

abbrev pub zeros : ℕ → Bytes
zeros n = replicate n 0

-- The datacenter, `is_media` and `dc_in_pkt` that an index stands for.
unfoldable pub dc_fields : ℤ → ℤ × Bool × Bool
unfolding valid_dc
dc_fields (pos n) = if valid_dc (pos n) then (pos n, false, true) else (pos 0, false, false)
dc_fields (negsuc n) =
    if valid_dc (pos (n + 1)) then (pos (n + 1), true, true) else (pos 0, false, false)

unfoldable pub proto_int_of : Bytes → ℕ
proto_int_of tag =
    if eq_list tag proto_tag_abridged
    then proto_abridged_int
    else if eq_list tag proto_tag_intermediate
    then proto_intermediate_int
    else proto_padded_intermediate_int

unfoldable pub known_tag : Bytes → Bool
known_tag tag =
    eq_list tag proto_tag_abridged
    || eq_list tag proto_tag_intermediate
    || eq_list tag proto_tag_secure

-- What the decrypted tail of a packet says.
unfoldable pub read_tail : Bytes → Bytes → Result Error HandshakeInfo
unfolding dc_fields proto_int_of known_tag i16_from_le
read_tail handshake tail =
    let tag = take 4 tail in
    let (dc, is_media, dc_in_pkt) = dc_fields (i16_from_le (get_or tail 4 0) (get_or tail 5 0)) in
    if known_tag tag
    then ok (record {
      dc = dc;
      is_media = is_media;
      dc_in_pkt = dc_in_pkt;
      proto_int = proto_int_of tag;
      handshake = handshake;
    })
    else err (unknown_proto_tag tag)

unfoldable pub proto_tag_for : ℕ → Bytes
proto_tag_for proto_int =
    if proto_int == proto_abridged_int
    then proto_tag_abridged
    else if proto_int == proto_intermediate_int
    then proto_tag_intermediate
    else proto_tag_secure

-- HEAD, POST, GET, the two tags, a TLS record and zeros.
abbrev pub reserved_starts : List Bytes
reserved_starts =
    (0x48 ∷ 0x45 ∷ 0x41 ∷ 0x44 ∷ [])
    ∷ (0x50 ∷ 0x4f ∷ 0x53 ∷ 0x54 ∷ [])
    ∷ (0x47 ∷ 0x45 ∷ 0x54 ∷ 0x20 ∷ [])
    ∷ (0xee ∷ 0xee ∷ 0xee ∷ 0xee ∷ [])
    ∷ (0xdd ∷ 0xdd ∷ 0xdd ∷ 0xdd ∷ [])
    ∷ (0x16 ∷ 0x03 ∷ 0x01 ∷ 0x02 ∷ [])
    ∷ (0 ∷ 0 ∷ 0 ∷ 0 ∷ [])
    ∷ []

-- The tests that make `generate_relay_init` draw again.
unfoldable pub is_reserved : Bytes → Bool
is_reserved rnd =
    get_or rnd 0 0 == 0xef
    || any (eq_list (take 4 rnd)) reserved_starts
    || eq_list (take 4 (drop 4 rnd)) (0 ∷ 0 ∷ 0 ∷ 0 ∷ [])

-- Byte by byte, as far as both reach.
unfoldable pub xor_bytes : Bytes → Bytes → Bytes
xor_bytes [] ys = []
xor_bytes (x ∷ xs) [] = []
xor_bytes (x ∷ xs) (y ∷ ys) = bit_xor x y ∷ xor_bytes xs ys

unfoldable pub tail_plain : Bytes → ℤ → Bytes → Bytes
unfolding i16_as_u16
tail_plain proto_tag dc_idx rnd =
    let w = i16_as_u16 dc_idx in
    proto_tag ++ (w % 256 ∷ w / 256 ∷ get_or rnd 62 0 ∷ get_or rnd 63 0 ∷ [])

module _ (C : Cipher) where
  open C use {Stream, new_ctr, apply_keystream}

  unfoldable pub parse_direct_handshake : Bytes → Result Error HandshakeInfo
  parse_direct_handshake handshake =
      if length handshake == handshake_len
      then (do
        stream ← ok_or (new_ctr (key_of handshake) (iv_of handshake)) invalid_length
        let (skip, stream') = apply_keystream stream (zeros proto_tag_pos)
        let (tail, _) = apply_keystream stream' (drop proto_tag_pos handshake)
        read_tail handshake tail)
      else err (handshake_length (length handshake))

  -- The packet made of an accepted draw.
  unfoldable pub relay_init_of : Bytes → ℤ → Bytes → Result Error Bytes
  relay_init_of proto_tag dc_idx rnd = do
    stream ← ok_or (new_ctr (key_of rnd) (iv_of rnd)) invalid_length
    let (encrypted_full, _) = apply_keystream stream rnd
    let plain = tail_plain proto_tag dc_idx rnd
    let encrypted_tail =
        xor_bytes (xor_bytes plain (drop proto_tag_pos encrypted_full)) (drop proto_tag_pos rnd)
    ok (take proto_tag_pos rnd ++ encrypted_tail)

  -- The loop over the draws of the random generator; `none` when none of those given is accepted.
  unfoldable pub generate_relay_init : Bytes → ℤ → List Bytes → Option (Result Error Bytes)
  generate_relay_init proto_tag dc_idx [] = none
  generate_relay_init proto_tag dc_idx (rnd ∷ draws) =
      let again = generate_relay_init proto_tag dc_idx draws in
      if is_reserved rnd then again else some (relay_init_of proto_tag dc_idx rnd)
