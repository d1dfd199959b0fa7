-- ===== src/Mtproto/RelayInit.antt =====
-- The packet that `generate_relay_init` makes, read back by `parse_direct_handshake`.
pub mod Tail
pub mod Front
use mathlib.Core.List.{append_assoc}
use wrtg.Mtproto.RelayInit.Tail.{
  xor_bytes-keystream, drop-xor_from, IsI16, info_of, read_tail-tail_plain,
}
use wrtg.Mtproto.RelayInit.Front.{same_key, same_iv, same_reserved}
use wrtg.Prelude.{
  ℕ, zero, suc, ◌+◌, ◌-◌, ◌*◌, ◌/◌, ◌%◌, ◌^◌, ◌≤◌, ◌<◌, ◌≡◌, ◌∙◌, refl, sym, ap, subst, Bool, true,
  false, not, ◌&&◌, ◌||◌, Option, none, some, List, [], ◌∷◌, ◌++◌, All, arith, ltb, leb, ◌==◌,
  if◌then◌else◌, length, length-append, take, drop, drop_all, take-append_le, drop-append_le,
  take-append-drop, drop-length, length-take, length-drop, get_or, replicate, any, bit_xor, ◌⊎◌,
  inl, inr,
}
use wrtg.Prelude.Int.{ℤ, pos, negsuc}
use wrtg.Prelude.Bytes.{Bytes}
use wrtg.Prelude.Results.{Result, ok, err, ok_or, ◌>>=◌}
use wrtg.Cipher.{
  Cipher, xor_from, length-xor_from, xor_from-append, xor_from_cancel, xor_from_shift,
}
use wrtg.Mtproto.Constants.{
  handshake_len, skip_len, prekey_len, iv_len, proto_tag_pos, proto_abridged_int,
  proto_intermediate_int, proto_padded_intermediate_int, proto_tag_abridged, proto_tag_intermediate,
  proto_tag_secure,
}
use wrtg.Mtproto.Handshake.{
  HandshakeInfo, Error, valid_dc, i16_from_le, i16_as_u16, key_of, iv_of, zeros, dc_fields,
  proto_int_of, known_tag, read_tail, proto_tag_for, is_reserved, xor_bytes, tail_plain,
  parse_direct_handshake, relay_init_of, generate_relay_init,
}

-- The framings, by the numbers that their tags make.
abbrev pub IsFraming : ℕ → Type 0
IsFraming proto = (proto ≡ 0xefefefef) ⊎ ((proto ≡ 0xeeeeeeee) ⊎ (proto ≡ 0xdddddddd))

abbrev pub IsDatacenter : ℕ → Type 0
IsDatacenter d = ((1 ≤ d) × (d ≤ 5)) ⊎ (d ≡ 203)

-- The index of a datacenter: negative for media.
abbrev pub signed : Bool → ℕ → ℤ
signed false d = pos d
signed true d = negsuc (d - 1)

signed-IsI16 : (is_media : Bool) (d : ℕ) → IsDatacenter d → IsI16 (signed is_media d)
signed-IsI16 true d known = ground arith
signed-IsI16 false d known = ground arith

tag_of_framing : (proto : ℕ) → IsFraming proto → proto_int_of (proto_tag_for proto) ≡ proto
unfolding proto_int_of proto_tag_for
tag_of_framing proto (inl e) = rw e refl
tag_of_framing proto (inr (inl e)) = rw e refl
tag_of_framing proto (inr (inr e)) = rw e refl

dc_fields-signed :
    (is_media : Bool) (d : ℕ)
    → IsDatacenter d
    → dc_fields (signed is_media d) ≡ (pos d, is_media, true)
unfolding dc_fields valid_dc
dc_fields-signed false d known = ground arith
dc_fields-signed true d known = rw back (ground arith)
  where
    back : d - 1 + 1 ≡ d
    back = omega arith

info_of-signed :
    (proto d : ℕ) (is_media : Bool) (packet : Bytes)
    → IsFraming proto
    → IsDatacenter d
    → info_of proto (signed is_media d) packet ≡ record {
      dc = pos d;
      is_media = is_media;
      dc_in_pkt = true;
      proto_int = proto;
      handshake = packet;
    }
info_of-signed proto d is_media packet framing known =
    rw (tag_of_framing proto framing, dc_fields-signed is_media d known) refl

length-xor_bytes : (xs ys : Bytes) → length xs ≡ length ys → length (xor_bytes xs ys) ≡ length xs
unfolding xor_bytes
length-xor_bytes [] ys h = refl
length-xor_bytes (x ∷ xs) [] h = absurd (omega arith)
length-xor_bytes (x ∷ xs) (y ∷ ys) h = ap suc (length-xor_bytes xs ys (omega arith))

length-tail_plain :
    (proto : ℕ) (dc_idx : ℤ) (rnd : Bytes)
    → length (tail_plain (proto_tag_for proto) dc_idx rnd) ≡ 8
unfolding tail_plain proto_tag_for
length-tail_plain proto dc_idx rnd = ground arith

module _ (C : Cipher) (proto : ℕ) (dc_idx : ℤ) (rnd : Bytes) (full : length rnd ≡ 64) where
  open C use {
    Stream, new_ctr, new_ctr_ok, apply_keystream, apply_lem, keystream, advance, keystream-advance,
  }

  abbrev plain : Bytes
  plain = tail_plain (proto_tag_for proto) dc_idx rnd

  -- The packet that a stream makes of the draw.
  abbrev packet_by : Stream → Bytes
  packet_by s = take 56 rnd ++ xor_from (keystream s) 56 plain

  keyed : (s : Stream) × (new_ctr (key_of rnd) (iv_of rnd) ≡ some s)
  unfolding key_of iv_of
  keyed =
      new_ctr_ok (key_of rnd) (iv_of rnd)
        (omega (arith, full, length-take 32 (drop 8 rnd), length-drop 8 rnd))
        (omega (arith, full, length-take 16 (drop 40 rnd), length-drop 40 rnd))

  made :
      (s : Stream)
      → new_ctr (key_of rnd) (iv_of rnd) ≡ some s
      → relay_init_of C (proto_tag_for proto) dc_idx rnd ≡ ok (packet_by s)
  unfolding relay_init_of
  made s e =
      rw
        (
          e,
          apply_lem s rnd,
          drop-xor_from (keystream s) 56 0 rnd,
          xor_bytes-keystream (keystream s) 56 plain (drop 56 rnd)
              (omega (arith, full, length-tail_plain proto dc_idx rnd, length-drop 56 rnd)),
        )
        refl

  head_len : length (take 56 rnd) ≡ 56
  head_len = omega (arith, full, length-take 56 rnd)

  packet_len : (s : Stream) → length (packet_by s) ≡ 64
  packet_len s = omega (
    arith,
    head_len,
    length-append (take 56 rnd) (xor_from (keystream s) 56 plain),
    length-xor_from (keystream s) 56 plain,
    length-tail_plain proto dc_idx rnd,
  )

  parse_lem :
      (s : Stream) (h : Bytes)
      → length h ≡ 64
      → new_ctr (key_of h) (iv_of h) ≡ some s
      → parse_direct_handshake C h ≡ read_tail h (xor_from (keystream s) 56 (drop 56 h))
  unfolding parse_direct_handshake
  parse_lem s h len e =
      rw
        (
          len,
          e,
          apply_lem s (zeros 56),
          apply_lem (advance s 56) (drop 56 h),
          xor_from_shift (keystream s) (keystream (advance s 56)) 56 0 (drop 56 h)
              (keystream-advance s 56),
        )
        refl

  split_draw : take 56 rnd ++ drop 56 rnd ≡ rnd
  split_draw = take-append-drop 56 rnd

  key_kept :
      (s : Stream)
      → new_ctr (key_of rnd) (iv_of rnd) ≡ some s
      → new_ctr (key_of (packet_by s)) (iv_of (packet_by s)) ≡ some s
  key_kept s e =
      rw
        (
          same_key (take 56 rnd) (xor_from (keystream s) 56 plain) (drop 56 rnd)
              (omega (arith, head_len)),
          same_iv (take 56 rnd) (xor_from (keystream s) 56 plain) (drop 56 rnd)
              (omega (arith, head_len)),
          split_draw,
        )
        e

  tail_of : (s : Stream) → xor_from (keystream s) 56 (drop 56 (packet_by s)) ≡ plain
  tail_of s =
      ap (xor_from (keystream s) 56) (
        drop-append_le 56 (take 56 rnd) (xor_from (keystream s) 56 plain) (omega (arith, head_len))
        ∙ ap (λ t. t ++ xor_from (keystream s) 56 plain)
            (drop_all 56 (take 56 rnd) (omega (arith, head_len))))
      ∙ xor_from_cancel (keystream s) 56 plain

  read :
      (s : Stream)
      → new_ctr (key_of rnd) (iv_of rnd) ≡ some s
      → IsI16 dc_idx
      → parse_direct_handshake C (packet_by s) ≡ ok (info_of proto dc_idx (packet_by s))
  read s e fits =
      parse_lem s (packet_by s) (packet_len s) (key_kept s e)
      ∙ ap (read_tail (packet_by s)) (tail_of s)
      ∙ read_tail-tail_plain dc_idx rnd (packet_by s) fits proto

  unreserved : (s : Stream) → is_reserved rnd ≡ false → is_reserved (packet_by s) ≡ false
  unreserved s h =
      same_reserved (take 56 rnd) (xor_from (keystream s) 56 plain) (drop 56 rnd)
        (omega (arith, head_len))
      ∙ ap is_reserved split_draw
      ∙ h

  -- The first draw that is accepted is the one that is used.
  first_accepted :
      (bad rest : List Bytes)
      → All (λ r. is_reserved r ≡ true) bad
      → is_reserved rnd ≡ false
      → generate_relay_init C (proto_tag_for proto) dc_idx (bad ++ rnd ∷ rest)
        ≡ some (relay_init_of C (proto_tag_for proto) dc_idx rnd)
  unfolding generate_relay_init
  first_accepted [] rest h fresh = rw fresh
  first_accepted (r ∷ bad) rest (taken, h) fresh = rw taken (first_accepted bad rest h fresh)

  -- As soon as a draw of 64 bytes is not reserved, `generate_relay_init` returns a packet of 64 bytes
  -- that is not reserved either. Where the tag is that of one of the three framings and the index is
  -- a datacenter from 1 to 5 or 203, negative for media, `parse_direct_handshake` reads from the
  -- packet just that framing, that datacenter and whether it is for media.
  pub generate_relay_init_lem :
      (bad rest : List Bytes) (d : ℕ) (is_media : Bool)
      → All (λ r. is_reserved r ≡ true) bad
      → is_reserved rnd ≡ false
      → IsFraming proto
      → IsDatacenter d
      → dc_idx ≡ signed is_media d
      → (packet : Bytes) × (generate_relay_init C (proto_tag_for proto) dc_idx (bad ++ rnd ∷ rest)
          ≡ some (ok packet))
        × (parse_direct_handshake C packet
            ≡ ok (record {
              dc = pos d;
              is_media = is_media;
              dc_in_pkt = true;
              proto_int = proto;
              handshake = packet;
            }))
        × (is_reserved packet ≡ false)
        × (length packet ≡ 64)
  generate_relay_init_lem bad rest d is_media h fresh framing known index =
      let (s, e) = keyed in
      let fits : IsI16 dc_idx = subst IsI16 (sym index) (signed-IsI16 is_media d known) in
      (
        packet_by s,
        first_accepted bad rest h fresh ∙ ap some (made s e),
        read s e fits
            ∙ ap ok (
                ap (λ i. info_of proto i (packet_by s)) index
                ∙ info_of-signed proto d is_media (packet_by s) framing known),
        unreserved s fresh,
        packet_len s,
      )
