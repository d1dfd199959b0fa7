-- ===== src/Splitter/Frames.antt =====
-- The loop of `split` as a recursion on what is left of the two buffers.
use wrtg.Prelude.{
  ℕ, zero, suc, ◌+◌, ◌-◌, ◌≤◌, ◌<◌, ◌≡◌, ◌∙◌, refl, ap, Bool, true, false, List, [], ◌∷◌, arith,
  length, drop, take, length-drop, drop-drop, lt→ltb,
}
use native.Mathlib.Decide.{dec_lt}
use wrtg.Prelude.Int.{ℤ, pos, negsuc}
use wrtg.Prelude.Bytes.{Bytes}
use wrtg.Splitter.{split_loop, next_packet_len, slice}
use wrtg.Splitter.Lengths.{head, next_packet_len-drop, head-le, head-negsuc}

-- The parts, what is left of each buffer, and whether the splitter gave up.
pub record Cut : Type 0 where
  pub parts : List Bytes
  pub cipher : Bytes
  pub plain : Bytes
  pub disabled : Bool

abbrev pub cons_part : Bytes → Cut → Cut
cons_part part r = record r { parts = part ∷ r.parts }

-- One step for each packet that stands whole at the front.
unfoldable pub frames : ℕ → ℕ → Bytes → Bytes → Cut
frames zero proto c p = record { parts = []; cipher = c; plain = p; disabled = false }
frames (suc fuel) proto c p = elim (head proto p) [
  | negsuc _ ↦ record { parts = []; cipher = c; plain = p; disabled = false }
  | pos zero ↦ record { parts = c ∷ []; cipher = []; plain = []; disabled = true }
  | pos (suc n) ↦ cons_part (take (suc n) c) (frames fuel proto (drop (suc n) c) (drop (suc n) p))
]

abbrev pub cut_of : Bytes → Bytes → List Bytes × ℕ × Bool → Cut
cut_of c p (parts, offset, disabled) = record {
  parts = parts;
  cipher = drop offset c;
  plain = drop offset p;
  disabled = disabled;
}

drop_all : (xs : Bytes) → drop (length xs) xs ≡ []
drop_all [] = refl
drop_all (x ∷ xs) = drop_all xs

pub head-nil : (proto : ℕ) → head proto [] ≡ negsuc 0
unfolding next_packet_len
head-nil proto = refl

-- What one step does, for each answer.
module _ (fuel proto : ℕ) (c p : Bytes) where
  pub frames-wait :
      head proto p ≡ negsuc 0
      → frames (suc fuel) proto c p ≡ record { parts = []; cipher = c; plain = p; disabled = false }
  unfolding frames
  frames-wait e = rw (e, frames)

  pub frames-give_up :
      head proto p ≡ pos 0
      → frames (suc fuel) proto c p
        ≡ record { parts = c ∷ []; cipher = []; plain = []; disabled = true }
  unfolding frames
  frames-give_up e = rw (e, frames)

  pub frames-packet :
      (n : ℕ)
      → head proto p ≡ pos (suc n)
      → frames (suc fuel) proto c p
        ≡ cons_part (take (suc n) c) (frames fuel proto (drop (suc n) c) (drop (suc n) p))
  unfolding frames
  frames-packet n e = rw (e, frames)

module _ (fuel proto : ℕ) (c p : Bytes) (offset : ℕ) (same : length c ≡ length p) where
  head_at :
      (x : ℤ)
      → head proto (drop offset p) ≡ x
      → next_packet_len proto p offset (length c - offset) ≡ x
  head_at x e =
      next_packet_len-drop proto p offset (length c - offset)
      ∙ ap (next_packet_len proto (drop offset p) 0) (omega (arith, length-drop offset p))
      ∙ e

  abbrev Step : Type 0
  Step =
      cut_of c p (split_loop (suc fuel) proto c p offset)
      ≡ frames (suc fuel) proto (drop offset c) (drop offset p)

  loop_step :
      (x : ℤ)
      → head proto (drop offset p) ≡ x
      → offset < length c
      → ((n : ℕ)
          → offset + suc n ≤ length c
          → cut_of c p (split_loop fuel proto c p (offset + suc n))
            ≡ frames fuel proto (drop (offset + suc n) c) (drop (offset + suc n) p))
      → Step
  unfolding split_loop
  loop_step (negsuc n) e h ih =
      let waits = e ∙ ap negsuc (head-negsuc proto (drop offset p) n e) in
      rw (
        frames-wait fuel proto (drop offset c) (drop offset p) waits,
        lt→ltb offset (length c) h,
        head_at (negsuc 0) waits,
        split_loop,
      )
  loop_step (pos zero) e h ih =
      rw
        (
          frames-give_up fuel proto (drop offset c) (drop offset p) e,
          lt→ltb offset (length c) h,
          head_at (pos 0) e,
          split_loop,
          drop_all c,
        )
        (rw (same, drop_all p))
  loop_step (pos (suc n)) e h ih =
      rw
        (
          frames-packet fuel proto (drop offset c) (drop offset p) n e,
          lt→ltb offset (length c) h,
          head_at (pos (suc n)) e,
          split_loop,
          drop-drop offset (suc n) c,
          drop-drop offset (suc n) p,
        )
        (ap (cons_part (slice c offset (suc n)))
          (ih n (omega (arith, head-le proto (drop offset p) (suc n) e, length-drop offset p))))

  at_end : offset ≡ length c → Step
  unfolding split_loop
  at_end e =
      rw
        (frames-wait fuel proto (drop offset c) (drop offset p)
          (rw (e, same, drop_all p) (head-nil proto)))
        (ground (arith, e))

-- The loop from an offset is the recursion on the buffers from there on.
pub split_loop-frames :
    (fuel proto : ℕ) (c p : Bytes) (offset : ℕ)
    → length c ≡ length p
    → offset ≤ length c
    → cut_of c p (split_loop fuel proto c p offset)
      ≡ frames fuel proto (drop offset c) (drop offset p)
split_loop-frames zero proto c p offset e h = unfold split_loop frames in refl
split_loop-frames (suc fuel) proto c p offset e h = elim (dec_lt offset (length c)) [
  | yes more ↦
      loop_step fuel proto c p offset e _ refl more
        (λ n room. split_loop-frames fuel proto c p (offset + suc n) e room)
  | no done ↦ at_end fuel proto c p offset e (omega arith)
]
