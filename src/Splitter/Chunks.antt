-- ===== src/Splitter/Chunks.antt =====
-- One chunk handed to `MsgSplitter`: the invariant, and the chunk as a cut of the buffers.
use mathlib.Core.List.{append-nil}
use wrtg.Prelude.{
  ℕ, zero, suc, ◌≡◌, ◌∙◌, refl, sym, ap, true, false, List, [], ◌∷◌, ◌++◌, arith, length,
  length-append, drop, concat, ltb, if◌then◌else◌, ◌⊎◌, inl, inr, Bool-cases,
}
use wrtg.Prelude.Int.{negsuc}
use wrtg.Prelude.Bytes.{Bytes}
use wrtg.Cipher.{Cipher, length-apply}
use wrtg.Splitter.{MsgSplitter, start, split}
use wrtg.Splitter.Lengths.{head}
use wrtg.Splitter.Frames.{Cut, frames, split_loop-frames, head-nil}
use wrtg.Splitter.Growth.{frames_conserve, frames_ends}

module _ (C : Cipher) where
  open C use {Stream, apply_keystream}

  -- The two buffers run in step; either the splitter waits for more bytes of a packet, or it has
  -- given up and holds nothing back.
  pub record IsValid (s : MsgSplitter C) : Type 0 where
    pub in_step : length s.cipher_buf ≡ length s.plain_buf
    pub settled :
        ((s.disabled ≡ false) × (head s.proto s.plain_buf ≡ negsuc 0))
        ⊎ ((s.disabled ≡ true) × (s.cipher_buf ≡ []))

  pub start-IsValid : (dec : Stream) (proto : ℕ) → IsValid (start C dec proto)
  unfolding start
  start-IsValid dec proto = record { in_step = refl; settled = inl (refl, head-nil proto) }

  -- The buffers that a chunk makes, cut into packets.
  abbrev pub cut_chunk : MsgSplitter C → Bytes → Cut
  cut_chunk s chunk =
      frames (length (s.cipher_buf ++ chunk)) s.proto (s.cipher_buf ++ chunk)
        (s.plain_buf ++ (apply_keystream s.dec chunk).0)

  abbrev pub after_cut : MsgSplitter C → Bytes → Cut → MsgSplitter C × List Bytes
  after_cut s chunk r = (
    record {
      dec = (apply_keystream s.dec chunk).1;
      proto = s.proto;
      cipher_buf = r.cipher;
      plain_buf = r.plain;
      disabled = r.disabled;
    },
    r.parts,
  )

  drop_if : (n : ℕ) (xs : Bytes) → (if ltb 0 n then drop n xs else xs) ≡ drop n xs
  drop_if zero xs = refl
  drop_if (suc n) xs = ground arith

  pub in_step_chunk :
      (s : MsgSplitter C) (chunk : Bytes)
      → length s.cipher_buf ≡ length s.plain_buf
      → length (s.cipher_buf ++ chunk) ≡ length (s.plain_buf ++ (apply_keystream s.dec chunk).0)
  in_step_chunk s chunk h = omega (
    arith,
    h,
    length-append s.cipher_buf chunk,
    length-append s.plain_buf (apply_keystream s.dec chunk).0,
    length-apply C s.dec chunk,
  )

  pub split_on :
      (s : MsgSplitter C) (b : ℕ) (chunk : Bytes)
      → length s.cipher_buf ≡ length s.plain_buf
      → s.disabled ≡ false
      → split C s (b ∷ chunk) ≡ after_cut s (b ∷ chunk) (cut_chunk s (b ∷ chunk))
  unfolding split
  split_on s b chunk h on =
      rw
        (
          on,
          drop_if _ (s.cipher_buf ++ b ∷ chunk),
          drop_if _ (s.plain_buf ++ (apply_keystream s.dec (b ∷ chunk)).0),
        )
        (ap (after_cut s (b ∷ chunk)) (
          split_loop-frames (length (s.cipher_buf ++ b ∷ chunk)) s.proto (s.cipher_buf ++ b ∷ chunk)
            (s.plain_buf ++ (apply_keystream s.dec (b ∷ chunk)).0) 0 (in_step_chunk s (b ∷ chunk) h)
            (omega arith)))

  pub split_off :
      (s : MsgSplitter C) (b : ℕ) (chunk : Bytes)
      → s.disabled ≡ true
      → split C s (b ∷ chunk) ≡ (s, (b ∷ chunk) ∷ [])
  unfolding split
  split_off s b chunk off = rw off

  pub split_nil : (s : MsgSplitter C) → split C s [] ≡ (s, [])
  unfolding split
  split_nil s = refl

  -- A chunk keeps the invariant, and what it sends on with what it keeps back is what was kept back
  -- before it with the chunk.
  pub split-IsValid :
      (s : MsgSplitter C) (chunk : Bytes)
      → IsValid s
      → IsValid (split C s chunk).0
        × (concat (split C s chunk).1 ++ (split C s chunk).0.cipher_buf ≡ s.cipher_buf ++ chunk)
  split-IsValid s [] v = rw split_nil (v, sym (append-nil s.cipher_buf))
  split-IsValid s (b ∷ chunk) v = elim v.settled [
    | inl (on, w) ↦
        let c = s.cipher_buf ++ b ∷ chunk in
        let p = s.plain_buf ++ (apply_keystream s.dec (b ∷ chunk)).0 in
        let same = in_step_chunk s (b ∷ chunk) v.in_step in
        let kept = frames_conserve (length c) s.proto c p same in
        let ends = frames_ends (length c) s.proto c p (omega (arith, same)) in
        rw (split_on s b chunk v.in_step on) (
          record {
            in_step = kept.1;
            settled = elim (Bool-cases (frames (length c) s.proto c p).disabled) [
              | inl off ↦ inr (off, ends.1 off)
              | inr still ↦ inl (still, ends.0 still)
            ];
          },
          kept.0,
        )
    | inr (off, nothing) ↦
        rw (split_off s b chunk off)
          (v, rw nothing (append-nil ((b ∷ chunk) ++ []) ∙ append-nil (b ∷ chunk)))
  ]
