-- ===== src/Splitter/Packets.antt =====
-- A stream of whole packets, in the framings of the transport, through `MsgSplitter`.
use wrtg.Prelude.{
  ℕ, zero, suc, ◌+◌, ◌*◌, ◌/◌, ◌%◌, ◌≡◌, ◌≤◌, ◌<◌, ◌∙◌, refl, ap, false, List, [], ◌∷◌, ◌++◌, arith,
  length, length-append, concat, All, take, drop, drop-length, length-drop, Bool-cases, inl, inr,
  ltb, lt→ltb, Bool, true, if◌then◌else◌,
}
use native.Mathlib.Decide.{dec_lt}
use wrtg.Prelude.Int.{pos}
use wrtg.Prelude.Bits.{low_seven}
use wrtg.Prelude.Bytes.{Bytes}
use wrtg.Cipher.{Cipher, length-apply}
use wrtg.Mtproto.Constants.{
  max_mtproto_packet, proto_abridged_int, proto_intermediate_int, proto_padded_intermediate_int,
}
use wrtg.Splitter.{
  start, split, next_packet_len, next_abridged_len, next_intermediate_len, checked_len,
}
use wrtg.Splitter.Lengths.{head, head-append}
use wrtg.Splitter.Frames.{cons_part, frames, frames-packet}
use wrtg.Splitter.Growth.{frames_fuel}
use wrtg.Splitter.Chunks.{start-IsValid, split_on, split_nil}
use wrtg.Splitter.Segmentation.{run, run-split, run_off_early}

-- Bytes that the framing reads as exactly one packet.
abbrev IsPacket : ℕ → Bytes → Type 0
IsPacket proto p = (head proto p ≡ pos (length p)) × (0 < length p)

-- The length header of the abridged framing, before a payload of `4 * words` bytes; `ack` asks for a
-- quick acknowledgement by the top bit.
abbrev pub abridged_header : Bool → ℕ → Bytes
abridged_header ack words =
    let top = if ack then 128 else 0 in
    if ltb words 127
    then (top + words) ∷ []
    else (top + 127) ∷ words % 256 ∷ words / 256 % 256 ∷ words / 65536 ∷ []

-- And that of the intermediate framings, before a payload of `n` bytes.
abbrev pub intermediate_header : Bool → ℕ → Bytes
intermediate_header ack n =
    let top = if ack then 128 else 0 in
    n % 256 ∷ n / 256 % 256 ∷ n / 65536 % 256 ∷ (top + n / 16777216) ∷ []

-- The packets of MTProto's transports, as its documents describe them: a header and a payload that is
-- not empty. All in all they have at most 16 MiB and four bytes.
pub data Packet : ℕ → Bytes → Type 0 where
  abridged :
      (ack : Bool) (words : ℕ) (payload : Bytes)
      → length payload ≡ words * 4
      → 0 < words
      → 4 + words * 4 ≤ 16777220
      → Packet 0xefefefef (abridged_header ack words ++ payload)
  intermediate :
      (ack : Bool) (payload : Bytes)
      → 0 < length payload
      → 4 + length payload ≤ 16777220
      → Packet 0xeeeeeeee (intermediate_header ack (length payload) ++ payload)
  padded :
      (ack : Bool) (payload : Bytes)
      → 0 < length payload
      → 4 + length payload ≤ 16777220
      → Packet 0xdddddddd (intermediate_header ack (length payload) ++ payload)

abridged_IsPacket :
    (ack : Bool) (words : ℕ) (payload : Bytes)
    → length payload ≡ words * 4
    → 0 < words
    → 4 + words * 4 ≤ max_mtproto_packet
    → IsPacket proto_abridged_int (abridged_header ack words ++ payload)
unfolding next_packet_len next_abridged_len checked_len
abridged_IsPacket ack words payload e some_words fits = elim (dec_lt words 127) [
  | yes short ↦ both ack (lt→ltb words 127 short) short
  | no long ↦ behind ack (not_below long) long
]
  where
    not_below : ¬ (words < 127) → ltb words 127 ≡ false
    not_below h = ground arith

    both :
        (a : Bool)
        → ltb words 127 ≡ true
        → words < 127
        → IsPacket proto_abridged_int (abridged_header a words ++ payload)
    both true q short = rw q (ground (arith, low_seven (128 + words)))
    both false q short = rw q (ground (arith, low_seven words))

    behind :
        (a : Bool)
        → ltb words 127 ≡ false
        → ¬ (words < 127)
        → IsPacket proto_abridged_int (abridged_header a words ++ payload)
    behind true q long = rw q (ground arith)
    behind false q long = rw q (ground arith)

intermediate_IsPacket :
    (ack : Bool) (payload : Bytes)
    → 0 < length payload
    → 4 + length payload ≤ max_mtproto_packet
    → IsPacket proto_intermediate_int (intermediate_header ack (length payload) ++ payload)
unfolding next_packet_len next_intermediate_len checked_len
intermediate_IsPacket true payload some_bytes fits = ground arith
intermediate_IsPacket false payload some_bytes fits = ground arith

padded_IsPacket :
    (ack : Bool) (payload : Bytes)
    → 0 < length payload
    → 4 + length payload ≤ max_mtproto_packet
    → IsPacket proto_padded_intermediate_int (intermediate_header ack (length payload) ++ payload)
unfolding next_packet_len next_intermediate_len checked_len
padded_IsPacket true payload some_bytes fits = ground arith
padded_IsPacket false payload some_bytes fits = ground arith

-- The splitter reads each of them as one packet.
Packet-IsPacket : (proto : ℕ) (p : Bytes) → Packet proto p → IsPacket proto p
Packet-IsPacket _ _ (abridged ack words payload e some_words fits) =
    abridged_IsPacket ack words payload e some_words fits
Packet-IsPacket _ _ (intermediate ack payload some_bytes fits) =
    intermediate_IsPacket ack payload some_bytes fits
Packet-IsPacket _ _ (padded ack payload some_bytes fits) =
    padded_IsPacket ack payload some_bytes fits

read_each : (proto : ℕ) (ps : List Bytes) → All (Packet proto) ps → All (IsPacket proto) ps
read_each proto [] h = _
read_each proto (p ∷ ps) (k, h) = (Packet-IsPacket proto p k, read_each proto ps h)

-- The ciphertext cut where the packets of the plaintext end.
unfoldable pub cut : List Bytes → Bytes → List Bytes
cut [] c = []
cut (p ∷ ps) c = take (length p) c ∷ cut ps (drop (length p) c)

frames_packets :
    (f proto : ℕ) (ps : List Bytes) (c : Bytes)
    → All (IsPacket proto) ps
    → length c ≡ length (concat ps)
    → length c ≤ f
    → frames f proto c (concat ps)
      ≡ record { parts = cut ps c; cipher = []; plain = []; disabled = false }
unfolding cut
frames_packets f proto [] [] h same enough =
    frames_fuel f 0 proto [] [] (omega arith) (omega arith) ∙ unfold frames in refl
frames_packets f proto [] (x ∷ c) h same enough = absurd (omega arith)
frames_packets f proto ([] ∷ ps) c h same enough = absurd (omega arith)
frames_packets zero proto ((b ∷ p) ∷ ps) c h same enough = absurd (omega arith)
frames_packets (suc f) proto ((b ∷ p) ∷ ps) c ((whole, _), h) same enough =
    frames-packet f proto c (b ∷ p ++ concat ps) (length p)
      (head-append proto (b ∷ p) (concat ps) (λ w. cc) ∙ whole)
    ∙ ap (cons_part (take (suc (length p)) c)) (
        rw (drop-length p (concat ps)) (
          frames_packets f proto ps (drop (suc (length p)) c) h
            (omega (arith, length-drop (suc (length p)) c, length-append p (concat ps)))
            (omega (arith, length-drop (suc (length p)) c))))

module _ (C : Cipher) where
  open C use {Stream, apply_keystream}

  at_once :
      (dec : Stream) (proto : ℕ) (ps : List Bytes) (c : Bytes)
      → All (IsPacket proto) ps
      → (apply_keystream dec c).0 ≡ concat ps
      → (split C (start C dec proto) c).1 ≡ cut ps c
        × (split C (start C dec proto) c).0.cipher_buf ≡ []
        × (split C (start C dec proto) c).0.disabled ≡ false
  at_once dec proto [] [] h e =
      rw (split_nil C (start C dec proto)) (unfold cut start in (refl, refl, refl))
  at_once dec proto ((b ∷ p) ∷ ps) [] h e =
      absurd (omega (arith, ap length e, length-apply C dec [], length-append p (concat ps)))
  at_once dec proto ([] ∷ ps) [] h e = absurd (omega arith)
  at_once dec proto ps (x ∷ c) h e =
      rw (split_on C (start C dec proto) x c (start-IsValid C dec proto).in_step opened, framed)
        (refl, refl, refl)
    where
      opened : (start C dec proto).disabled ≡ false
      opened = unfold start in refl

      framed :
          frames
            (length ((start C dec proto).cipher_buf ++ x ∷ c))
            (start C dec proto).proto
            ((start C dec proto).cipher_buf ++ x ∷ c)
            ((start C dec proto).plain_buf ++ (apply_keystream (start C dec proto).dec (x ∷ c)).0)
          ≡ record { parts = cut ps (x ∷ c); cipher = []; plain = []; disabled = false }
      framed =
          unfold start in
          rw e (
            frames_packets (length (x ∷ c)) proto ps (x ∷ c) h
              (omega (arith, ap length e, length-apply C dec (x ∷ c))) (omega arith))

  -- If what the client sends, decrypted, is a sequence of packets of one of the three framings, each
  -- of at most 16 MiB and four bytes with its header, asking for a quick acknowledgement or not, then the frames
  -- handed on are exactly the encrypted packets, one each, however the bytes are cut into reads, and
  -- nothing is left over.
  pub run_packets :
      (dec : Stream) (proto : ℕ) (ps chunks : List Bytes)
      → All (Packet proto) ps
      → (apply_keystream dec (concat chunks)).0 ≡ concat ps
      → ((run C (start C dec proto) chunks).1 ≡ cut ps (concat chunks))
        × ((run C (start C dec proto) chunks).0.cipher_buf ≡ [])
  run_packets dec proto ps chunks h e =
      let s = start C dec proto in
      let v = start-IsValid C dec proto in
      let whole = at_once dec proto ps (concat chunks) (read_each proto ps h) e in
      elim (Bool-cases (run C s chunks).0.disabled) [
        | inl off ↦ cc (run_off_early C s chunks v (unfold start in refl) off, whole.2)
        | inr still ↦ rw (run-split C s chunks v (unfold start in refl) still) (whole.0, whole.1)
      ]
