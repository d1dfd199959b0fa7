-- ===== src/Ws/Recv/Messages.antt =====
-- ws.rs: a message that arrives in fragments.
use mathlib.Core.List.{append_assoc}
use wrtg.Prelude.{
  ℕ, zero, suc, ◌+◌, ◌≤◌, ◌<◌, ◌≡◌, ◌⊎◌, inl, inr, refl, arith, Bool, true, false, none, some, List,
  [], ◌∷◌, ◌++◌, leb, ◌==◌, length, length-append, All,
}
use wrtg.Prelude.Bytes.{Bytes}
use wrtg.Prelude.Results.{ok}
use wrtg.Mtproto.Constants.{max_ws_payload}
use wrtg.Ws.Frame.{Frame, build_ws_frame, assemble_data_message, ws_header_unmasked}
use wrtg.Ws.Frame.RoundTrip.{frame_bytes, read_frame-frame_bytes}
use wrtg.Ws.Recv.{recv_loop, recv_binary}

-- What may stand between the first fragment of a message and the last.
pub data Piece : Type 0 where
  part ping pong : Bytes → Piece

abbrev pub frame_of : Piece → Frame
frame_of (part p) = record { fin = false; opcode = 0; payload = p }
frame_of (ping p) = record { fin = true; opcode = 9; payload = p }
frame_of (pong p) = record { fin = true; opcode = 10; payload = p }

abbrev pub pieces_bytes : List Piece → Bytes
pieces_bytes [] = []
pieces_bytes (p ∷ ps) = frame_bytes (frame_of p) ++ pieces_bytes ps

abbrev pub text_of : List Piece → Bytes
text_of [] = []
text_of (part p ∷ ps) = p ++ text_of ps
text_of (ping p ∷ ps) = text_of ps
text_of (pong p ∷ ps) = text_of ps

-- The answers to the pings, from the `sent`-th on.
abbrev pub pongs_of : (ℕ → Bytes) → ℕ → List Piece → List Bytes
pongs_of mask sent [] = []
pongs_of mask sent (part p ∷ ps) = pongs_of mask sent ps
pongs_of mask sent (ping p ∷ ps) =
    build_ws_frame 0xa p (some (mask sent)) ∷ pongs_of mask (suc sent) ps
pongs_of mask sent (pong p ∷ ps) = pongs_of mask sent ps

abbrev pub Control : Piece → Type 0
Control (part p) = length p ≤ max_ws_payload
Control (ping p) = length p ≤ 125
Control (pong p) = length p ≤ 125

abbrev closing : ℕ → Bytes → Frame
closing opcode p = record { fin = true; opcode = opcode; payload = p }

assemble_last :
    (message p : Bytes)
    → length message + length p ≤ max_ws_payload
    → assemble_data_message true 0 p (some message) ≡ ok (some (message ++ p), none)
unfolding assemble_data_message
assemble_last message p h = ground arith

assemble_part :
    (message p : Bytes)
    → length message + length p ≤ max_ws_payload
    → assemble_data_message false 0 p (some message) ≡ ok (none, some (message ++ p))
unfolding assemble_data_message
assemble_part message p h = ground arith

assemble_first :
    (opcode : ℕ) (p : Bytes)
    → (opcode ≡ 1) ⊎ (opcode ≡ 2)
    → assemble_data_message false opcode p none ≡ ok (none, some p)
unfolding assemble_data_message
assemble_first opcode p (inl e) = rw e refl
assemble_first opcode p (inr e) = rw e refl

length-frame_bytes : (f : Frame) → 2 ≤ length (frame_bytes f)
unfolding frame_bytes ws_header_unmasked
length-frame_bytes f = ground arith

length-pieces_bytes : (ps : List Piece) → length ps ≤ length (pieces_bytes ps)
length-pieces_bytes [] = omega arith
length-pieces_bytes (p ∷ ps) = omega (
  arith,
  length-append (frame_bytes (frame_of p)) (pieces_bytes ps),
  length-frame_bytes (frame_of p),
  length-pieces_bytes ps,
)

module _ (mask : ℕ → Bytes) (writer_open : ℕ → Bool) (takes : (n : ℕ) → writer_open n ≡ true) where
  recv_loop-pieces :
      (fuel sent : ℕ) (message : Bytes) (ps : List Piece) (p rest : Bytes)
      → All Control ps
      → length message + (length (text_of ps) + length p) ≤ max_ws_payload
      → length ps < fuel
      → recv_loop mask writer_open fuel sent
          (some message)
          (pieces_bytes ps ++ (frame_bytes (closing 0 p) ++ rest))
        ≡ some (record {
          result = ok (some (message ++ (text_of ps ++ p)));
          pongs = pongs_of mask sent ps;
          unread = rest;
        })
  unfolding recv_loop
  recv_loop-pieces zero sent message ps p rest hs h enough = absurd (omega arith)
  recv_loop-pieces (suc fuel) sent message [] p rest hs h enough =
      rw
        (
          recv_loop,
          read_frame-frame_bytes (closing 0 p) rest (omega arith, omega arith, inl (omega arith)),
          assemble_last message p (omega arith),
        )
        refl
  recv_loop-pieces (suc fuel) sent message (part t ∷ ps) p rest hs h enough =
      let total = length-append t (text_of ps) in
      rw
        (
          recv_loop,
          append_assoc (frame_bytes (frame_of (part t))) (pieces_bytes ps)
              (frame_bytes (closing 0 p) ++ rest),
          read_frame-frame_bytes (frame_of (part t))
              (pieces_bytes ps ++ (frame_bytes (closing 0 p) ++ rest))
              (omega arith, hs.0, inl (omega arith)),
          assemble_part message t (omega arith),
          recv_loop-pieces fuel sent (message ++ t) ps p rest hs.1
              (omega (arith, length-append message t)) (omega arith),
          append_assoc message t (text_of ps ++ p),
          append_assoc t (text_of ps) p,
        )
        refl
  recv_loop-pieces (suc fuel) sent message (ping t ∷ ps) p rest hs h enough =
      rw
        (
          recv_loop,
          append_assoc (frame_bytes (frame_of (ping t))) (pieces_bytes ps)
              (frame_bytes (closing 0 p) ++ rest),
          read_frame-frame_bytes (frame_of (ping t))
              (pieces_bytes ps ++ (frame_bytes (closing 0 p) ++ rest))
              (omega arith, omega (arith, hs.0), inr (refl, hs.0)),
          takes sent,
          recv_loop-pieces fuel (suc sent) message ps p rest hs.1 h (omega arith),
        )
        refl
  recv_loop-pieces (suc fuel) sent message (pong t ∷ ps) p rest hs h enough =
      rw
        (
          recv_loop,
          append_assoc (frame_bytes (frame_of (pong t))) (pieces_bytes ps)
              (frame_bytes (closing 0 p) ++ rest),
          read_frame-frame_bytes (frame_of (pong t))
              (pieces_bytes ps ++ (frame_bytes (closing 0 p) ++ rest))
              (omega arith, omega (arith, hs.0), inr (refl, hs.0)),
          recv_loop-pieces fuel sent message ps p rest hs.1 h (omega arith),
        )
        refl

  -- A text or binary message in fragments, with pings and pongs between them, is returned whole by
  -- one call; every ping is answered with its own payload, in order; and what follows the message
  -- stays unread. The writer takes what is sent to it, control frames carry at most 125 bytes, and
  -- the message as a whole is within the limit for a payload.
  pub recv_binary_message :
      (opcode : ℕ) (first : Bytes) (ps : List Piece) (last rest : Bytes)
      → (opcode ≡ 1) ⊎ (opcode ≡ 2)
      → All Control ps
      → length first + (length (text_of ps) + length last) ≤ max_ws_payload
      → recv_binary mask writer_open (
          frame_bytes (record { fin = false; opcode = opcode; payload = first })
          ++ (pieces_bytes ps ++ (frame_bytes (closing 0 last) ++ rest)))
        ≡ some (record {
          result = ok (some (first ++ (text_of ps ++ last)));
          pongs = pongs_of mask 0 ps;
          unread = rest;
        })
  unfolding recv_binary recv_loop
  recv_binary_message opcode first ps last rest o hs h = elim o [
    | inl e ↦ rw e (
        from_first 1 (omega arith) (omega arith) (assemble_first 1 first (inl refl)) refl refl refl
          refl)
    | inr e ↦ rw e (
        from_first 2 (omega arith) (omega arith) (assemble_first 2 first (inr refl)) refl refl refl
          refl)
  ]
    where
      opening : ℕ → Frame
      opening op = record { fin = false; opcode = op; payload = first }

      stream : Bytes
      stream = pieces_bytes ps ++ (frame_bytes (closing 0 last) ++ rest)

      enough : (op : ℕ) → length ps < length (frame_bytes (opening op) ++ stream)
      enough op = omega (
        arith,
        length-append (frame_bytes (opening op)) stream,
        length-append (pieces_bytes ps) (frame_bytes (closing 0 last) ++ rest),
        length-frame_bytes (opening op),
        length-pieces_bytes ps,
      )

      from_first :
          (op : ℕ)
          → op < 16
          → op < 8
          → assemble_data_message false op first none ≡ ok (none, some first)
          → (op == 8) ≡ false
          → (op == 9) ≡ false
          → (op == 10) ≡ false
          → leb op 2 ≡ true
          → recv_loop mask writer_open
              (suc (length (frame_bytes (opening op) ++ stream)))
              0
              none
              (frame_bytes (opening op) ++ stream)
            ≡ some (record {
              result = ok (some (first ++ (text_of ps ++ last)));
              pongs = pongs_of mask 0 ps;
              unread = rest;
            })
      from_first op small low a e8 e9 e10 e2 =
          rw
            (
              recv_loop,
              read_frame-frame_bytes (opening op) stream (small, omega arith, inl low),
              e8,
              e9,
              e10,
              e2,
              a,
            )
            (recv_loop-pieces (length (frame_bytes (opening op) ++ stream)) 0 first ps last rest hs
              h (enough op))
