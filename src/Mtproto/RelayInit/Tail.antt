-- ===== src/Mtproto/RelayInit/Tail.antt =====
-- The last eight bytes of a packet: enciphered by `generate_relay_init`, read by `read_tail`.
use wrtg.Prelude.{
  ℕ, zero, suc, ◌+◌, ◌/◌, ◌%◌, ◌<◌, ◌≡◌, ◌∙◌, refl, sym, ap, Bool, true, false, [], ◌∷◌, arith,
  ◌==◌, if◌then◌else◌, length, drop, bit_xor,
}
use wrtg.Prelude.Int.{ℤ, pos, negsuc}
use wrtg.Prelude.Bits.{bit_xor_assoc, bit_xor_comm, bit_xor_cancel}
use wrtg.Prelude.Bytes.{Bytes}
use wrtg.Prelude.Results.{Result, ok}
use wrtg.Cipher.{xor_from}
use wrtg.Mtproto.Constants.{
  proto_abridged_int, proto_intermediate_int, proto_padded_intermediate_int, proto_tag_abridged,
  proto_tag_intermediate, proto_tag_secure,
}
use wrtg.Mtproto.Handshake.{
  HandshakeInfo, Error, i16_from_le, i16_as_u16, dc_fields, proto_int_of, read_tail, proto_tag_for,
  xor_bytes, tail_plain,
}

-- The two exclusive ors with the draw leave the plain tail under the keystream.
pub xor_bytes-keystream :
    (k : ℕ → ℕ) (i : ℕ) (t r : Bytes)
    → length t ≡ length r
    → xor_bytes (xor_bytes t (xor_from k i r)) r ≡ xor_from k i t
unfolding xor_bytes xor_from
xor_bytes-keystream k i [] [] h = refl
xor_bytes-keystream k i [] (y ∷ r) h = absurd (omega arith)
xor_bytes-keystream k i (x ∷ t) [] h = absurd (omega arith)
xor_bytes-keystream k i (x ∷ t) (y ∷ r) h =
    rw (both, xor_bytes-keystream k (suc i) t r (omega arith)) refl
  where
    both : bit_xor (bit_xor x (bit_xor y (k i))) y ≡ bit_xor x (k i)
    both =
        ap (λ v. bit_xor (bit_xor x v) y) (bit_xor_comm y (k i))
        ∙ ap (λ v. bit_xor v y) (sym (bit_xor_assoc x (k i) y))
        ∙ bit_xor_cancel (bit_xor x (k i)) y

pub drop-xor_from :
    (k : ℕ → ℕ) (n i : ℕ) (xs : Bytes) → drop n (xor_from k i xs) ≡ xor_from k (i + n) (drop n xs)
unfolding xor_from
drop-xor_from k zero i xs = ap (λ j. xor_from k j xs) (omega arith)
drop-xor_from k (suc n) i [] = refl
drop-xor_from k (suc n) i (x ∷ xs) =
    drop-xor_from k n (suc i) xs ∙ ap (λ j. xor_from k j (drop n xs)) (omega arith)

-- The range of `i16`.
abbrev pub IsI16 : ℤ → Type 0
IsI16 (pos n) = n < 32768
IsI16 (negsuc n) = n < 32768

-- Such an index comes back from its two bytes.
i16_round_trip :
    (dc_idx : ℤ)
    → IsI16 dc_idx
    → i16_from_le (i16_as_u16 dc_idx % 256) (i16_as_u16 dc_idx / 256) ≡ dc_idx
unfolding i16_from_le i16_as_u16
i16_round_trip (pos n) h = ground arith
i16_round_trip (negsuc n) h = ground arith

abbrev pub info_of : ℕ → ℤ → Bytes → HandshakeInfo
info_of proto dc_idx packet = record {
  dc = (dc_fields dc_idx).0;
  is_media = (dc_fields dc_idx).1;
  dc_in_pkt = (dc_fields dc_idx).2;
  proto_int = proto_int_of (proto_tag_for proto);
  handshake = packet;
}

-- Any packet whose tail decrypts to the plain tail is read as meant.
module _ (dc_idx : ℤ) (rnd packet : Bytes) (fits : IsI16 dc_idx) where
  abbrev Reads : Bytes → Type 0
  Reads tag =
      read_tail packet (tail_plain tag dc_idx rnd)
      ≡ ok (record {
        dc = (dc_fields dc_idx).0;
        is_media = (dc_fields dc_idx).1;
        dc_in_pkt = (dc_fields dc_idx).2;
        proto_int = proto_int_of tag;
        handshake = packet;
      })

  abbrev read_as : ℕ → ℤ → Result Error HandshakeInfo
  read_as proto_int d = ok (record {
    dc = (dc_fields d).0;
    is_media = (dc_fields d).1;
    dc_in_pkt = (dc_fields d).2;
    proto_int = proto_int;
    handshake = packet;
  })

  by_tag :
      (b c : Bool)
      → Reads
          (if b then proto_tag_abridged else if c then proto_tag_intermediate else proto_tag_secure)
  unfolding read_tail tail_plain
  by_tag true c = ap (read_as proto_abridged_int) (i16_round_trip dc_idx fits)
  by_tag false true = ap (read_as proto_intermediate_int) (i16_round_trip dc_idx fits)
  by_tag false false = ap (read_as proto_padded_intermediate_int) (i16_round_trip dc_idx fits)

  pub read_tail-tail_plain :
      (proto : ℕ)
      → read_tail packet (tail_plain (proto_tag_for proto) dc_idx rnd)
        ≡ ok (info_of proto dc_idx packet)
  unfolding proto_tag_for
  read_tail-tail_plain proto =
      by_tag (proto == proto_abridged_int) (proto == proto_intermediate_int)
