-- ===== src/Splitter/Segmentation.antt =====
-- `MsgSplitter` over a whole session: nothing is lost, and the cuts of the TCP stream do not matter.
use mathlib.Core.List.{append_assoc, append-nil}
use wrtg.Prelude.{
  ℕ, ◌≡◌, ◌≤◌, ◌∙◌, refl, sym, ap, true, false, List, [], ◌∷◌, ◌++◌, arith, length, length-append,
  concat, concat-append, inl, inr, Bool-cases,
}
use wrtg.Prelude.Bytes.{Bytes}
use wrtg.Cipher.{Cipher, length-apply, apply-append}
use wrtg.Splitter.{MsgSplitter, start, split, flush}
use wrtg.Splitter.Frames.{Cut, frames}
use wrtg.Splitter.Growth.{
  frames_conserve, frames_fuel, frames-append, frames-append_disabled, prepend,
}
use wrtg.Splitter.Chunks.{
  IsValid, start-IsValid, split-IsValid, split_on, split_off, split_nil, after_cut, cut_chunk,
  in_step_chunk,
}

module _ (C : Cipher) where
  open C use {Stream, apply_keystream}

  -- A session: the chunks as they are read.
  unfoldable pub run : MsgSplitter C → List Bytes → MsgSplitter C × List Bytes
  run s [] = (s, [])
  run s (chunk ∷ chunks) =
      let (s', parts) = split C s chunk in let (s'', more) = run s' chunks in (s'', parts ++ more)

  run_conserves :
      (s : MsgSplitter C) (chunks : List Bytes)
      → IsValid C s
      → IsValid C (run s chunks).0
        × (concat (run s chunks).1 ++ (run s chunks).0.cipher_buf ≡ s.cipher_buf ++ concat chunks)
  unfolding run
  run_conserves s [] v = (v, sym (append-nil s.cipher_buf))
  run_conserves s (chunk ∷ chunks) v =
      let first = split-IsValid C s chunk v in
      let s' = (split C s chunk).0 in
      let parts = (split C s chunk).1 in
      let rest = run_conserves s' chunks first.0 in
      (
        rest.0,
        rw (concat-append parts (run s' chunks).1) (
            append_assoc (concat parts) (concat (run s' chunks).1) (run s' chunks).0.cipher_buf
            ∙ ap (◌++◌ (concat parts)) rest.1
            ∙ sym (append_assoc (concat parts) s'.cipher_buf (concat chunks))
            ∙ ap (λ t. t ++ concat chunks) first.1
            ∙ append_assoc s.cipher_buf chunk (concat chunks)),
      )

  flushed : (s : MsgSplitter C) → concat (flush C s).1 ≡ s.cipher_buf
  unfolding flush
  flushed s = by_buffer s.cipher_buf refl
    where
      by_buffer : (buf : Bytes) → s.cipher_buf ≡ buf → concat (flush C s).1 ≡ s.cipher_buf
      by_buffer [] e = rw (e, flush) refl
      by_buffer (b ∷ buf) e = rw (e, flush) (append-nil (b ∷ buf))

  -- Whatever the bytes are and however they are read, the frames that the splitter hands on during a
  -- session and when it is flushed at the end are together exactly the bytes that went in, in order:
  -- also where it gives up on the framing. At every point it either waits for the rest of a packet
  -- or has given up and holds nothing back.
  pub run-flush :
      (dec : Stream) (proto : ℕ) (chunks : List Bytes)
      → let (s, parts) = run (start C dec proto) chunks in
        (concat parts ++ concat (flush C s).1 ≡ concat chunks) × IsValid C s
  run-flush dec proto chunks =
      let all = run_conserves (start C dec proto) chunks (start-IsValid C dec proto) in
      (
        ap (◌++◌ (concat (run (start C dec proto) chunks).1)) (flushed _)
            ∙ all.1
            ∙ unfold start in refl,
        all.0,
      )

  module _ (s : MsgSplitter C) (x y : ℕ) (a b : Bytes) (v : IsValid C s)
      (on : s.disabled ≡ false) where
    abbrev c₁ : Bytes
    c₁ = s.cipher_buf ++ x ∷ a

    abbrev p₁ : Bytes
    p₁ = s.plain_buf ++ (apply_keystream s.dec (x ∷ a)).0

    abbrev k₂ : Bytes
    k₂ = (apply_keystream (apply_keystream s.dec (x ∷ a)).1 (y ∷ b)).0

    abbrev both : ℕ
    both = length (c₁ ++ y ∷ b)

    abbrev r₁ : Cut
    r₁ = frames (length c₁) s.proto c₁ p₁

    same₁ : length c₁ ≡ length p₁
    same₁ = in_step_chunk C s (x ∷ a) v.in_step

    enough : length (p₁ ++ k₂) ≡ both
    enough = omega (
      arith,
      same₁,
      length-append p₁ k₂,
      length-append c₁ (y ∷ b),
      length-apply C (apply_keystream s.dec (x ∷ a)).1 (y ∷ b),
    )

    at_once :
        split C s (x ∷ a ++ y ∷ b)
        ≡ after_cut C s (x ∷ a ++ y ∷ b) (frames both s.proto (c₁ ++ y ∷ b) (p₁ ++ k₂))
    at_once = split_on C s x (a ++ y ∷ b) v.in_step on ∙ ap (after_cut C s (x ∷ a ++ y ∷ b)) joined
      where
        joined : cut_chunk C s (x ∷ a ++ y ∷ b) ≡ frames both s.proto (c₁ ++ y ∷ b) (p₁ ++ k₂)
        joined =
            rw
              (
                ap (λ t. t.0) (apply-append C s.dec (x ∷ a) (y ∷ b)),
                append_assoc s.cipher_buf (x ∷ a) (y ∷ b),
                append_assoc s.plain_buf (apply_keystream s.dec (x ∷ a)).0 k₂,
              )
              refl

    grown :
        r₁.disabled ≡ false
        → frames both s.proto (c₁ ++ y ∷ b) (p₁ ++ k₂)
          ≡ prepend r₁.parts
              (frames (length (r₁.cipher ++ y ∷ b)) s.proto (r₁.cipher ++ y ∷ b) (r₁.plain ++ k₂))
    grown still =
        frames-append (length c₁) both s.proto c₁ p₁ (y ∷ b) k₂ same₁ (omega (arith, same₁))
          (omega (arith, enough)) still
        ∙ ap (prepend r₁.parts)
            (frames_fuel both _ s.proto (r₁.cipher ++ y ∷ b) (r₁.plain ++ k₂) shorter as_long)
      where
        kept : (concat r₁.parts ++ r₁.cipher ≡ c₁) × (length r₁.cipher ≡ length r₁.plain)
        kept = frames_conserve (length c₁) s.proto c₁ p₁ same₁

        as_long : length (r₁.plain ++ k₂) ≤ length (r₁.cipher ++ y ∷ b)
        as_long = omega (
          arith,
          kept.1,
          length-append r₁.plain k₂,
          length-append r₁.cipher (y ∷ b),
          length-apply C (apply_keystream s.dec (x ∷ a)).1 (y ∷ b),
        )

        shorter : length (r₁.plain ++ k₂) ≤ both
        shorter = omega (
          arith,
          kept.1,
          ap length kept.0,
          length-append (concat r₁.parts) r₁.cipher,
          length-append r₁.plain k₂,
          length-append c₁ (y ∷ b),
          length-apply C (apply_keystream s.dec (x ∷ a)).1 (y ∷ b),
        )

    in_two :
        r₁.disabled ≡ false
        → split C s (x ∷ a ++ y ∷ b) ≡ (
          (split C (split C s (x ∷ a)).0 (y ∷ b)).0,
          (split C s (x ∷ a)).1 ++ (split C (split C s (x ∷ a)).0 (y ∷ b)).1,
        )
    in_two still =
        rw
          (
            split_on C s x a v.in_step on,
            split_on C (after_cut C s (x ∷ a) r₁).0 y b
                (frames_conserve (length c₁) s.proto c₁ p₁ same₁).1 still,
          )
          (at_once ∙ rw (grown still, ap (λ t. t.1) (apply-append C s.dec (x ∷ a) (y ∷ b))) refl)

    off_early : r₁.disabled ≡ true → (split C s (x ∷ a ++ y ∷ b)).0.disabled ≡ true
    off_early off = rw at_once (
        frames-append_disabled (length c₁) both s.proto c₁ p₁ (y ∷ b) k₂ same₁
          (omega (arith, same₁)) (omega (arith, enough)) off)

  split-append :
      (s : MsgSplitter C) (a b : Bytes)
      → IsValid C s
      → s.disabled ≡ false
      → (split C s a).0.disabled ≡ false
      → split C s (a ++ b)
        ≡ ((split C (split C s a).0 b).0, (split C s a).1 ++ (split C (split C s a).0 b).1)
  split-append s [] b v on still = rw split_nil refl
  split-append s (x ∷ a) [] v on still =
      rw (append-nil (x ∷ a), split_nil C (split C s (x ∷ a)).0, append-nil (split C s (x ∷ a)).1)
        refl
  split-append s (x ∷ a) (y ∷ b) v on still =
      in_two s x y a b v on (rw (split_on C s x a v.in_step on) at still)

  split-append_off :
      (s : MsgSplitter C) (a b : Bytes)
      → IsValid C s
      → s.disabled ≡ false
      → (split C s a).0.disabled ≡ true
      → (split C s (a ++ b)).0.disabled ≡ true
  split-append_off s [] b v on off = cc (ap (λ t. t.0.disabled) (split_nil C s))
  split-append_off s (x ∷ a) [] v on off = rw (append-nil (x ∷ a)) off
  split-append_off s (x ∷ a) (y ∷ b) v on off =
      off_early s x y a b v on (rw (split_on C s x a v.in_step on) at off)

  run_off :
      (s : MsgSplitter C) (chunks : List Bytes)
      → s.disabled ≡ true
      → (run s chunks).0.disabled ≡ true
  unfolding run
  run_off s [] off = off
  run_off s ([] ∷ chunks) off = rw split_nil (run_off s chunks off)
  run_off s ((x ∷ a) ∷ chunks) off = rw (split_off C s x a off) (run_off s chunks off)

  pub run_off_early :
      (s : MsgSplitter C) (chunks : List Bytes)
      → IsValid C s
      → s.disabled ≡ false
      → (run s chunks).0.disabled ≡ true
      → (split C s (concat chunks)).0.disabled ≡ true
  unfolding run
  run_off_early s [] v on off = cc
  run_off_early s (a ∷ chunks) v on off = elim (Bool-cases (split C s a).0.disabled) [
    | inl gone ↦ split-append_off s a (concat chunks) v on gone
    | inr still ↦
        rw (split-append s a (concat chunks) v on still)
          (run_off_early (split C s a).0 chunks (split-IsValid C s a v).0 still off)
  ]

  -- However the stream is cut into reads, a session in which the splitter does not give up hands on
  -- the same frames, and ends in the same state, as one read of everything at once.
  pub run-split :
      (s : MsgSplitter C) (chunks : List Bytes)
      → IsValid C s
      → s.disabled ≡ false
      → (run s chunks).0.disabled ≡ false
      → run s chunks ≡ split C s (concat chunks)
  unfolding run
  run-split s [] v on still = rw split_nil refl
  run-split s (a ∷ chunks) v on still = elim (Bool-cases (split C s a).0.disabled) [
    | inl gone ↦ cc (run_off (split C s a).0 chunks gone)
    | inr going ↦
        rw (run-split (split C s a).0 chunks (split-IsValid C s a v).0 going still)
          (sym (split-append s a (concat chunks) v on going))
  ]
