-- ===== src/Ws/Recv/Ends.antt =====
-- ws.rs: every round of `recv_binary` takes bytes off the stream, so the loop comes to an end.
use wrtg.Prelude.{
  ℕ, zero, suc, ◌-◌, ◌≤◌, ◌<◌, ◌≡◌, ◌⊎◌, inl, inr, refl, ap, arith, Bool, true, false, not, Option,
  none, some, [], ◌∷◌, leb, ◌==◌, if◌then◌else◌, length, length-drop, take, drop, get_or, bit_and,
}
use wrtg.Prelude.Bytes.{Bytes}
use wrtg.Prelude.Results.{Result, Result-cases, ok, err, ◌>>=◌}
use wrtg.Ws.Error.{IoError}
use wrtg.Ws.Frame.{
  Frame, read_exact, read_length, read_payload, read_frame, build_ws_frame, assemble_data_message,
}
use wrtg.Ws.Recv.{Received, answered, recv_loop, recv_binary}

-- How much of the stream is left; nothing, after an error.
abbrev left {ℓ} : {A : Type ℓ} → Result IoError (A × Bytes) → ℕ
left (ok (a, rest)) = length rest
left (err e) = 0

left-bind {ℓ κ} :
    {A : Type ℓ} {B : Type κ} (m : Result IoError (A × Bytes))
    (f : A × Bytes → Result IoError (B × Bytes))
    → ((a : A) (rest : Bytes) → left (f (a, rest)) ≤ length rest)
    → left (m >>= f) ≤ left m
left-bind (ok (a, rest)) f h = h a rest
left-bind (err e) f h = omega arith

left-read_exact : (n : ℕ) (stream : Bytes) → left (read_exact n stream) ≤ length stream - n
left-read_exact n stream = ground (arith, length-drop n stream)

left-read_length : (short : ℕ) (stream : Bytes) → left (read_length short stream) ≤ length stream
unfolding read_length
left-read_length short stream = ground (arith, length-drop 2 stream, length-drop 8 stream)

left-read_payload :
    (fin : Bool) (opcode n : ℕ) (stream : Bytes)
    → left (read_payload fin opcode n stream) ≤ length stream
unfolding read_payload
left-read_payload fin opcode n stream = ground (arith, length-drop n stream)

left-read_frame : (stream : Bytes) → left (read_frame stream) ≤ length stream - 2
unfolding read_frame
left-read_frame stream =
    let h₀ = get_or (take 2 stream) 0 0 in
    let h₁ = get_or (take 2 stream) 1 0 in
    ground (
      arith,
      length-drop 2 stream,
      left-bind (read_length (bit_and h₁ 0x7f) (drop 2 stream))
          (λ r. read_payload (not (bit_and h₀ 0x80 == 0)) (bit_and h₀ 0x0f) r.0 r.1)
          (left-read_payload (not (bit_and h₀ 0x80 == 0)) (bit_and h₀ 0x0f)),
      left-read_length (bit_and h₁ 0x7f) (drop 2 stream),
    )

read_frame-shorter :
    (stream rest : Bytes) (f : Frame)
    → read_frame stream ≡ ok (f, rest)
    → length rest < length stream
unfolding read_frame
read_frame-shorter [] rest f e = ground arith
read_frame-shorter (b ∷ stream) rest f e = omega (arith, left-read_frame (b ∷ stream), ap left e)

Assembled-cases :
    (m : Result IoError (Option Bytes × Option Bytes))
    → ((e : IoError) × (m ≡ err e))
      ⊎ (((r : Bytes × Option Bytes) × (m ≡ ok (some r.0, r.1)))
          ⊎ ((r : Option Bytes) × (m ≡ ok (none, r))))
Assembled-cases (err e) = inl (e, refl)
Assembled-cases (ok (some a, r)) = inr (inl ((a, r), refl))
Assembled-cases (ok (none, r)) = inr (inr (r, refl))

abbrev pub Returns : Option Received → Type 0
Returns o = (r : Received) × (o ≡ some r)

Returns-if :
    (b : Bool) {x y : Option Received} → Returns x → Returns y → Returns (if b then x else y)
Returns-if true hx hy = hx
Returns-if false hx hy = hy

Returns-answered : (pong : Bytes) {x : Option Received} → Returns x → Returns (answered pong x)
Returns-answered pong {x = x} (r, e) = rw e (_, refl)

module _ (mask : ℕ → Bytes) (writer_open : ℕ → Bool) where
  recv_loop-Returns :
      (fuel sent : ℕ) (fragmented : Option Bytes) (stream : Bytes)
      → length stream < fuel
      → Returns (recv_loop mask writer_open fuel sent fragmented stream)
  unfolding recv_loop
  recv_loop-Returns zero sent fragmented stream h = absurd (omega arith)
  recv_loop-Returns (suc fuel) sent fragmented stream h = elim (Result-cases (read_frame stream)) [
    | inl (e, q) ↦ rw (recv_loop, q) (_, refl)
    | inr ((f, rest), q) ↦
        let lt : length rest < fuel = omega (arith, read_frame-shorter stream rest f q) in
        rw (recv_loop, q)
          (Returns-if (f.opcode == 8) (_, refl)
            (Returns-if (f.opcode == 9)
              (Returns-if (writer_open sent)
                (Returns-answered (build_ws_frame 0xa f.payload (some (mask sent)))
                  (recv_loop-Returns fuel (suc sent) fragmented rest lt))
                (_, refl))
              (Returns-if (f.opcode == 10) (recv_loop-Returns fuel sent fragmented rest lt) (
                Returns-if (leb f.opcode 2)
                  (elim (Assembled-cases
                    (assemble_data_message f.fin f.opcode f.payload fragmented)) [
                      | inl (e, a) ↦ rw a (_, refl)
                      | inr (inl (message, a)) ↦ rw a (_, refl)
                      | inr (inr (fragmented', a)) ↦
                          rw a (recv_loop-Returns fuel sent fragmented' rest lt)
                    ])
                  (_, refl)))))
  ]

  -- A call always comes to an end, whatever the peer has sent: with a message, with the peer's close
  -- frame or with an error.
  pub recv_binary-Returns : (stream : Bytes) → Returns (recv_binary mask writer_open stream)
  unfolding recv_binary
  recv_binary-Returns stream = recv_loop-Returns (suc (length stream)) 0 none stream (omega arith)
