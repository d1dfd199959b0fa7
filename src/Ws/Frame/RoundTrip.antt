-- ===== src/Ws/Frame/RoundTrip.antt =====
-- ws.rs: the frames that are built and the frames that are read.
use mathlib.Core.List.{append_assoc}
use wrtg.Prelude.{
  ℕ, suc, ◌+◌, ◌-◌, ◌*◌, ◌/◌, ◌%◌, ◌≤◌, ◌<◌, ◌≡◌, ◌∙◌, bit_xor, ◌^◌, ◌⊎◌, inl, inr, refl, sym, ap,
  arith, Bool, true, false, not, Option, none, some, [], ◌∷◌, ◌++◌, ltb, leb, ◌==◌, if◌then◌else◌,
  length, take, drop, get_or, take-length, drop-length, length-append, Bool-cases,
}
use wrtg.Prelude.Bits.{low_seven, top_bit, low_four, mid_three, set_top_bit, bit_xor_cancel}
use wrtg.Prelude.Bytes.{Bytes}
use wrtg.Prelude.Results.{ok, ◌>>=◌}
use wrtg.Mtproto.Constants.{max_ws_payload}
use wrtg.Ws.Frame.{
  Frame, be16, be64, from_be, read_exact, read_length, read_payload, read_frame, ws_header_unmasked,
  ws_header_masked, xor_mask, build_ws_frame,
}

-- A frame as a server puts it on the wire.
unfoldable pub frame_bytes : Frame → Bytes
frame_bytes f =
    ws_header_unmasked ((if f.fin then 128 else 0) + f.opcode) (length f.payload) ++ f.payload

-- RFC 6455: four bits of opcode, and control frames are short and whole.
abbrev pub IsFrame : Frame → Type 0
IsFrame f =
    (f.opcode < 16)
    × (length f.payload ≤ max_ws_payload)
    × ((f.opcode < 8) ⊎ ((f.fin ≡ true) × (length f.payload ≤ 125)))

read_exact-append : (xs ys : Bytes) → read_exact (length xs) (xs ++ ys) ≡ ok (xs, ys)
read_exact-append xs ys =
    rw (take-length xs ys, drop-length xs ys) (ground (arith, length-append xs ys))

be16-from : (n : ℕ) → n < 65536 → from_be 0 (be16 n) ≡ n
be16-from n h = omega arith

be64-from : (n : ℕ) → n ≤ max_ws_payload → from_be 0 (be64 n) ≡ n
be64-from n h = omega arith

-- The header that announces `n` bytes, from its second byte on.
abbrev announced : ℕ → Bytes
announced n = if ltb n 126 then n ∷ [] else if ltb n 65536 then 126 ∷ be16 n else 127 ∷ be64 n

abbrev short : ℕ → ℕ
short n = if ltb n 126 then n else if ltb n 65536 then 126 else 127

abbrev extended : ℕ → Bytes
extended n = if ltb n 126 then [] else if ltb n 65536 then be16 n else be64 n

header_unmasked : (fb n : ℕ) → ws_header_unmasked fb n ≡ fb ∷ short n ∷ extended n
unfolding ws_header_unmasked
header_unmasked fb n = ground arith

short-lt : (n : ℕ) → short n < 128
short-lt n = ground arith

read_length-extended :
    (n : ℕ) (rest : Bytes)
    → n ≤ max_ws_payload
    → read_length (short n) (extended n ++ rest) ≡ ok (n, rest)
unfolding read_length
read_length-extended n rest h = elim (Bool-cases (ltb n 126)) [
  | inl e ↦ rw e (ground arith)
  | inr e ↦ elim (Bool-cases (ltb n 65536)) [
    | inl q ↦ rw (e, q) (ground (arith, be16-from n (ground arith)))
    | inr q ↦ rw (e, q) (ground (arith, be64-from n h))
  ]
]

-- A header without reserved bits and without a mask.
read_frame-header :
    (fb n : ℕ) (rest : Bytes)
    → fb < 256
    → fb / 16 % 8 ≡ 0
    → n < 128
    → read_frame (fb ∷ n ∷ rest)
      ≡ (read_length n rest >>= (λ r. read_payload (not (fb / 128 * 128 == 0)) (fb % 16) r.0 r.1))
unfolding read_frame
read_frame-header fb n rest hf hr hn =
    rw
      (
        read_exact-append (fb ∷ n ∷ []) rest,
        mid_three fb hf,
        top_bit fb hf,
        low_four fb hf,
        top_bit n (omega arith),
        low_seven n (omega arith),
        hr,
      )
      (rw (top, low) refl)
  where
    top : n / 128 ≡ 0
    top = omega arith

    low : n % 128 ≡ n
    low = omega arith

read_payload-frame :
    (f : Frame) (rest : Bytes)
    → IsFrame f
    → read_payload f.fin f.opcode (length f.payload) (f.payload ++ rest) ≡ ok (f, rest)
unfolding read_payload
read_payload-frame f rest h = rw (read_exact-append f.payload rest) (ground arith)

high : (opcode : ℕ) → opcode < 16 → (128 + opcode) / 128 ≡ 1
high opcode h = omega arith

low : (opcode : ℕ) → opcode < 16 → (0 + opcode) / 128 ≡ 0
low opcode h = omega arith

first_byte :
    (fin : Bool) (opcode : ℕ)
    → opcode < 16
    → (not (((if fin then 128 else 0) + opcode) / 128 * 128 == 0) ≡ fin)
      × ((((if fin then 128 else 0) + opcode) % 16 ≡ opcode)
          × ((((if fin then 128 else 0) + opcode) / 16 % 8 ≡ 0)
              × ((if fin then 128 else 0) + opcode < 256)))
first_byte true opcode h = (rw (high opcode h) refl, (omega arith, (omega arith, omega arith)))
first_byte false opcode h = (rw (low opcode h) refl, (omega arith, (omega arith, omega arith)))

-- A frame in the form that RFC 6455 asks of a server is read back as it is, and what follows it on
-- the stream stays unread.
pub read_frame-frame_bytes :
    (f : Frame) (rest : Bytes) → IsFrame f → read_frame (frame_bytes f ++ rest) ≡ ok (f, rest)
unfolding frame_bytes
read_frame-frame_bytes f rest h =
    let (fin_, (opcode_, (reserved, small))) = first_byte f.fin f.opcode h.0 in
    rw
      (
        header_unmasked ((if f.fin then 128 else 0) + f.opcode) (length f.payload),
        append_assoc (extended (length f.payload)) f.payload rest,
        read_frame-header ((if f.fin then 128 else 0) + f.opcode) (short (length f.payload))
            (extended (length f.payload) ++ (f.payload ++ rest)) small reserved
            (short-lt (length f.payload)),
        read_length-extended (length f.payload) (f.payload ++ rest) h.1,
        fin_,
        opcode_,
      )
      (read_payload-frame f rest h)

xor_mask_twice : (i : ℕ) (xs mask : Bytes) → xor_mask i (xor_mask i xs mask) mask ≡ xs
unfolding xor_mask
xor_mask_twice i [] mask = refl
xor_mask_twice i (x ∷ xs) mask =
    rw (bit_xor_cancel x (get_or mask (i % 4) 0), xor_mask_twice (suc i) xs mask) refl

length-xor_mask : (i : ℕ) (xs mask : Bytes) → length (xor_mask i xs mask) ≡ length xs
unfolding xor_mask
length-xor_mask i [] mask = refl
length-xor_mask i (x ∷ xs) mask = ap suc (length-xor_mask (suc i) xs mask)

header_masked :
    (fb n : ℕ) (mask : Bytes)
    → ws_header_masked fb n mask ≡ fb ∷ (128 + short n) ∷ (extended n ++ mask)
unfolding ws_header_masked
header_masked fb n mask =
    ground (arith, set_top_bit n, set_top_bit 126 (omega arith), set_top_bit 127 (omega arith))

-- A client's frame as RFC 6455 asks a server to read it: the mask bit must be set, the length stands in
-- seven bits, in two bytes or in eight, and the payload is unmasked with the four bytes of the key in
-- turn.
abbrev pub unmasked : ℕ → ℕ → ℕ → ℕ → Bytes → Bytes
unmasked a b c d [] = []
unmasked a b c d (x ∷ xs) = bit_xor x a ∷ unmasked b c d a xs

abbrev two_bytes : Bytes → Option (ℕ × Bytes)
two_bytes (a ∷ b ∷ s) = some (a * 256 + b, s)
two_bytes s = none

abbrev eight_bytes : Bytes → Option (ℕ × Bytes)
eight_bytes (a ∷ b ∷ c ∷ d ∷ e ∷ f ∷ g ∷ h ∷ s) =
    some (
      a * 2 ^ 56 + b * 2 ^ 48 + c * 2 ^ 40 + d * 2 ^ 32 + e * 2 ^ 24 + f * 2 ^ 16 + g * 2 ^ 8 + h,
      s,
    )
eight_bytes s = none

unfoldable pub length_in : ℕ → Bytes → Option (ℕ × Bytes)
length_in n s = if ltb n 126 then some (n, s) else if n == 126 then two_bytes s else eight_bytes s

abbrev masked_frame : ℕ → Option (ℕ × Bytes) → Option (Frame × Bytes)
masked_frame fb (some (n, a ∷ b ∷ c ∷ d ∷ rest)) =
    if ltb (length rest) n
    then none
    else some (
      record { fin = leb 128 fb; opcode = fb % 16; payload = unmasked a b c d (take n rest) },
      drop n rest,
    )
masked_frame fb o = none

unfoldable pub serve_frame : Bytes → Option (Frame × Bytes)
serve_frame [] = none
serve_frame (fb ∷ []) = none
serve_frame (fb ∷ mb ∷ stream) =
    if ltb mb 128 then none else masked_frame fb (length_in (mb - 128) stream)

-- The key by index and the key in turn.
xor_mask-unmasked :
    (i : ℕ) (xs m : Bytes)
    → xor_mask i xs m
      ≡ unmasked
          (get_or m (i % 4) 0)
          (get_or m ((i + 1) % 4) 0)
          (get_or m ((i + 2) % 4) 0)
          (get_or m ((i + 3) % 4) 0)
          xs
unfolding xor_mask
xor_mask-unmasked i [] m = refl
xor_mask-unmasked i (x ∷ xs) m =
    ap (◌∷◌ (bit_xor x (get_or m (i % 4) 0)))
      (xor_mask-unmasked (suc i) xs m ∙ rw (turn, here, next 1, next 2) refl)
  where
    here : suc i % 4 ≡ (i + 1) % 4
    here = ap (λ n. n % 4) (omega arith)

    turn : (suc i + 3) % 4 ≡ i % 4
    turn = omega arith

    next : (k : ℕ) → (suc i + k) % 4 ≡ (i + (1 + k)) % 4
    next k = ap (λ n. n % 4) (omega arith)

length_in-extended :
    (n : ℕ) (rest : Bytes)
    → n ≤ max_ws_payload
    → length_in (short n) (extended n ++ rest) ≡ some (n, rest)
unfolding length_in
length_in-extended n rest h = elim (Bool-cases (ltb n 126)) [
  | inl e ↦ rw (e, e) refl
  | inr e ↦ elim (Bool-cases (ltb n 65536)) [
    | inl q ↦ rw (e, q) (ap (λ k. some (k, rest)) (in_two (ground arith)))
    | inr q ↦ rw (e, q) (ap (λ k. some (k, rest)) (in_eight h))
  ]
]
  where
    in_two : n < 65536 → n / 256 % 256 * 256 + n % 256 ≡ n
    in_two h = omega arith

    in_eight :
        n ≤ max_ws_payload
        → n / 2 ^ 56 % 256 * 2 ^ 56
            + n / 2 ^ 48 % 256 * 2 ^ 48
            + n / 2 ^ 40 % 256 * 2 ^ 40
            + n / 2 ^ 32 % 256 * 2 ^ 32
            + n / 2 ^ 24 % 256 * 2 ^ 24
            + n / 2 ^ 16 % 256 * 2 ^ 16
            + n / 256 % 256 * 2 ^ 8
            + n % 256
          ≡ n
    in_eight h = omega arith

serve_frame-header :
    (fb n a b c d : ℕ) (payload rest : Bytes)
    → n ≡ length payload
    → n ≤ max_ws_payload
    → serve_frame (fb ∷ (128 + short n) ∷ (extended n ++ (a ∷ b ∷ c ∷ d ∷ (payload ++ rest))))
      ≡ some
          (record { fin = leb 128 fb; opcode = fb % 16; payload = unmasked a b c d payload }, rest)
unfolding serve_frame
serve_frame-header fb n a b c d payload rest e h =
    let low_part : 128 + short n - 128 ≡ short n = omega arith in
    rw
      (
        low_part,
        length_in-extended n (a ∷ b ∷ c ∷ d ∷ (payload ++ rest)) h,
        e,
        take-length payload rest,
        drop-length payload rest,
      )
      (ground (arith, length-append payload rest))

-- A masked frame is read back by a server that follows RFC 6455: it finds the final bit set, the
-- opcode and the payload as they were given, and the rest of the stream unread. The opcode has four
-- bits, the key four bytes, and the payload at most the limit of the program.
pub build_ws_frame_masked :
    (opcode : ℕ) (payload mask rest : Bytes)
    → opcode < 16
    → length payload ≤ max_ws_payload
    → length mask ≡ 4
    → serve_frame (build_ws_frame opcode payload (some mask) ++ rest)
      ≡ some (record { fin = true; opcode = opcode; payload = payload }, rest)
unfolding build_ws_frame
build_ws_frame_masked opcode payload (a ∷ b ∷ c ∷ d ∷ []) rest h fits four =
    let mask = a ∷ b ∷ c ∷ d ∷ [] in
    let low_bits : (128 + opcode) % 16 ≡ opcode = omega arith in
    let back : unmasked a b c d (xor_mask 0 payload mask) ≡ payload =
      sym (xor_mask-unmasked 0 (xor_mask 0 payload mask) mask) ∙ xor_mask_twice 0 payload mask in
    rw
      (
        set_top_bit opcode (omega arith),
        header_masked (128 + opcode) (length payload) mask,
        append_assoc (extended (length payload) ++ mask) (xor_mask 0 payload mask) rest,
        append_assoc (extended (length payload)) mask (xor_mask 0 payload mask ++ rest),
        serve_frame-header (128 + opcode) (length payload) a b c d (xor_mask 0 payload mask) rest
            (sym (length-xor_mask 0 payload mask)) fits,
        back,
        low_bits,
      )
      (ground arith)
build_ws_frame_masked opcode payload [] rest h fits four = absurd (omega arith)
build_ws_frame_masked opcode payload (a ∷ []) rest h fits four = absurd (omega arith)
build_ws_frame_masked opcode payload (a ∷ b ∷ []) rest h fits four = absurd (omega arith)
build_ws_frame_masked opcode payload (a ∷ b ∷ c ∷ []) rest h fits four = absurd (omega arith)
build_ws_frame_masked opcode payload (a ∷ b ∷ c ∷ d ∷ e ∷ m) rest h fits four = absurd (omega arith)
