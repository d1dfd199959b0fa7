-- ===== src/Splitter/Growth.antt =====
-- `frames` on buffers of one length: nothing is lost, fuel does not matter, and more bytes only add.
use mathlib.Core.List.{append_assoc, append-nil}
use wrtg.Prelude.{
  ℕ, zero, suc, ◌≤◌, ◌≡◌, ◌∙◌, refl, sym, ap, true, false, List, [], ◌∷◌, ◌++◌, arith, length,
  length-append, drop, take, length-drop, concat, take-append-drop, take-append_le, drop-append_le,
}
use wrtg.Prelude.Int.{ℤ, pos, negsuc}
use wrtg.Prelude.Bytes.{Bytes}
use wrtg.Splitter.Lengths.{head, head-le, head-negsuc, head-append}
use wrtg.Splitter.Frames.{
  Cut, cons_part, frames, frames-wait, frames-give_up, frames-packet, head-nil,
}

-- The three answers.
pub data Answer (proto : ℕ) (p : Bytes) : Type 0 where
  waits : head proto p ≡ negsuc 0 → Answer proto p
  gives_up : head proto p ≡ pos 0 → Answer proto p
  packet : (n : ℕ) → head proto p ≡ pos (suc n) → suc n ≤ length p → Answer proto p

Answer-at : (proto : ℕ) (p : Bytes) (x : ℤ) → head proto p ≡ x → Answer proto p
Answer-at proto p (negsuc n) e = waits (e ∙ ap negsuc (head-negsuc proto p n e))
Answer-at proto p (pos zero) e = gives_up e
Answer-at proto p (pos (suc n)) e = packet n e (head-le proto p (suc n) e)

pub answer : (proto : ℕ) (p : Bytes) → Answer proto p
answer proto p = Answer-at proto p (head proto p) refl

-- With no fuel the buffer must be empty.
no_fuel : (proto : ℕ) (c p : Bytes) (g : ℕ) → length p ≤ 0 → frames g proto c p ≡ frames 0 proto c p
no_fuel proto c [] zero h = refl
no_fuel proto c [] (suc g) h = frames-wait g proto c [] (head-nil proto) ∙ unfold frames in refl
no_fuel proto c (x ∷ p) g h = absurd (omega arith)

pub frames_fuel :
    (f g proto : ℕ) (c p : Bytes)
    → length p ≤ f
    → length p ≤ g
    → frames f proto c p ≡ frames g proto c p
frames_fuel zero g proto c p hf hg = sym (no_fuel proto c p g hf)
frames_fuel (suc f) zero proto c p hf hg = no_fuel proto c p (suc f) hg
frames_fuel (suc f) (suc g) proto c p hf hg = elim (answer proto p) [
  | waits e ↦ frames-wait f proto c p e ∙ sym (frames-wait g proto c p e)
  | gives_up e ↦ frames-give_up f proto c p e ∙ sym (frames-give_up g proto c p e)
  | packet n e room ↦
      frames-packet f proto c p n e
      ∙ ap (cons_part (take (suc n) c)) (
          frames_fuel f g proto (drop (suc n) c) (drop (suc n) p)
            (omega (arith, length-drop (suc n) p)) (omega (arith, length-drop (suc n) p)))
      ∙ sym (frames-packet g proto c p n e)
]

-- The parts and what is left are the buffer, and what is left of the two buffers is as long.
pub frames_conserve :
    (f proto : ℕ) (c p : Bytes)
    → length c ≡ length p
    → (concat (frames f proto c p).parts ++ (frames f proto c p).cipher ≡ c)
      × (length (frames f proto c p).cipher ≡ length (frames f proto c p).plain)
frames_conserve zero proto c p h = unfold frames in (refl, h)
frames_conserve (suc f) proto c p h = elim (answer proto p) [
  | waits e ↦ rw (frames-wait f proto c p e) (refl, h)
  | gives_up e ↦ rw (frames-give_up f proto c p e) (append-nil (c ++ []) ∙ append-nil c, refl)
  | packet n e room ↦
      let rest =
        frames_conserve f proto (drop (suc n) c) (drop (suc n) p)
          (omega (arith, length-drop (suc n) c, length-drop (suc n) p)) in
      rw (frames-packet f proto c p n e) (
        append_assoc (take (suc n) c) _ _
            ∙ ap (◌++◌ (take (suc n) c)) rest.0
            ∙ take-append-drop (suc n) c,
        rest.1,
      )
]

-- With enough fuel the recursion ends because it must wait for more bytes, or gives up with nothing
-- left.
pub frames_ends :
    (f proto : ℕ) (c p : Bytes)
    → length p ≤ f
    → ((frames f proto c p).disabled ≡ false → head proto (frames f proto c p).plain ≡ negsuc 0)
      × ((frames f proto c p).disabled ≡ true → (frames f proto c p).cipher ≡ [])
frames_ends zero proto c [] h = unfold frames in ((λ e. head-nil proto), λ e. cc)
frames_ends zero proto c (x ∷ p) h = absurd (omega arith)
frames_ends (suc f) proto c p h = elim (answer proto p) [
  | waits e ↦ rw (frames-wait f proto c p e) ((λ _. e), λ x. cc)
  | gives_up e ↦ rw (frames-give_up f proto c p e) ((λ x. cc), λ _. refl)
  | packet n e room ↦
      rw (frames-packet f proto c p n e) (
        frames_ends f proto (drop (suc n) c) (drop (suc n) p)
          (omega (arith, length-drop (suc n) p)))
]

abbrev pub prepend : List Bytes → Cut → Cut
prepend ps r = record r { parts = ps ++ r.parts }

-- A packet at the front is the same with more bytes behind it.
packet_grows :
    (f proto : ℕ) (c p c' p' : Bytes) (n : ℕ)
    → length c ≡ length p
    → head proto p ≡ pos (suc n)
    → suc n ≤ length p
    → frames (suc f) proto (c ++ c') (p ++ p')
      ≡ cons_part (take (suc n) c) (frames f proto (drop (suc n) c ++ c') (drop (suc n) p ++ p'))
packet_grows f proto c p c' p' n same e room =
    frames-packet f proto (c ++ c') (p ++ p') n (head-append proto p p' (λ w. cc) ∙ e)
    ∙ rw (
      take-append_le (suc n) c c' (omega arith),
      drop-append_le (suc n) c c' (omega arith),
      drop-append_le (suc n) p p' room,
    )

-- More bytes behind buffers on which the splitter did not give up continue from what was left.
pub frames-append :
    (f g proto : ℕ) (c p c' p' : Bytes)
    → length c ≡ length p
    → length p ≤ f
    → length (p ++ p') ≤ g
    → (frames f proto c p).disabled ≡ false
    → frames g proto (c ++ c') (p ++ p')
      ≡ prepend
          (frames f proto c p).parts
          (frames g proto ((frames f proto c p).cipher ++ c') ((frames f proto c p).plain ++ p'))
frames-append zero g proto c p c' p' same hf hg on = unfold frames in refl
frames-append (suc f) zero proto c p c' p' same hf hg on = elim (answer proto p) [
  | waits e ↦ rw (frames-wait f proto c p e) refl
  | gives_up e ↦ absurd (not_on (on_at e))
  | packet n e room ↦ absurd (omega (arith, length-append p p'))
]
  where
    on_at : head proto p ≡ pos 0 → true ≡ false
    on_at e = rw (frames-give_up f proto c p e) at on

    not_on : true ≡ false → ⊥
    not_on e = cc
frames-append (suc f) (suc g) proto c p c' p' same hf hg on = elim (answer proto p) [
  | waits e ↦ rw (frames-wait f proto c p e) refl
  | gives_up e ↦ absurd (not_on (on_at e))
  | packet n e room ↦
      let c₁ = drop (suc n) c in
      let p₁ = drop (suc n) p in
      let r : Cut = frames f proto c₁ p₁ in
      let same₁ : length c₁ ≡ length p₁ =
        omega (arith, length-drop (suc n) c, length-drop (suc n) p) in
      let kept = frames_conserve f proto c₁ p₁ same₁ in
      let room₁ : length (p₁ ++ p') ≤ g =
        omega (arith, length-append p p', length-append p₁ p', length-drop (suc n) p) in
      let room₂ : length (r.plain ++ p') ≤ g = omega (
        arith,
        room₁,
        length-append p₁ p',
        length-append r.plain p',
        ap length kept.0,
        length-append (concat r.parts) r.cipher,
        kept.1,
        same₁,
      ) in
      packet_grows g proto c p c' p' n same e room
      ∙ ap (cons_part (take (suc n) c)) (
          frames-append f g proto c₁ p₁ c' p' same₁ (omega (arith, length-drop (suc n) p)) room₁
            (rw (frames-packet f proto c p n e) at on)
          ∙ ap (prepend r.parts)
              (frames_fuel g (suc g) proto (r.cipher ++ c') (r.plain ++ p') room₂ (omega arith)))
      ∙ rw (frames-packet f proto c p n e) refl
]
  where
    on_at : head proto p ≡ pos 0 → true ≡ false
    on_at e = rw (frames-give_up f proto c p e) at on

    not_on : true ≡ false → ⊥
    not_on e = cc

-- Nor do more bytes make it resume.
pub frames-append_disabled :
    (f g proto : ℕ) (c p c' p' : Bytes)
    → length c ≡ length p
    → length p ≤ f
    → length (p ++ p') ≤ g
    → (frames f proto c p).disabled ≡ true
    → (frames g proto (c ++ c') (p ++ p')).disabled ≡ true
frames-append_disabled zero g proto c p c' p' same hf hg off = unfold frames in cc
frames-append_disabled (suc f) zero proto c p c' p' same hf hg off = elim (answer proto p) [
  | waits e ↦ absurd (impossible (rw (frames-wait f proto c p e) at off))
  | gives_up e ↦ absurd (no_room e)
  | packet n e room ↦ absurd (omega (arith, length-append p p'))
]
  where
    impossible : false ≡ true → ⊥
    impossible e = cc

    nothing : (q : Bytes) → length q ≡ 0 → head proto q ≡ pos 0 → ⊥
    nothing [] h e = cc (head-nil proto)
    nothing (x ∷ q) h e = omega arith

    no_room : head proto p ≡ pos 0 → ⊥
    no_room e = nothing p (omega (arith, length-append p p')) e
frames-append_disabled (suc f) (suc g) proto c p c' p' same hf hg off = elim (answer proto p) [
  | waits e ↦ absurd (impossible (rw (frames-wait f proto c p e) at off))
  | gives_up e ↦
      rw (frames-give_up g proto (c ++ c') (p ++ p') (head-append proto p p' (λ w. cc) ∙ e)) refl
  | packet n e room ↦ rw (packet_grows g proto c p c' p' n same e room) (
      frames-append_disabled f g proto (drop (suc n) c) (drop (suc n) p) c' p'
        (omega (arith, length-drop (suc n) c, length-drop (suc n) p))
        (omega (arith, length-drop (suc n) p))
        (omega
          (arith, length-append p p', length-append (drop (suc n) p) p', length-drop (suc n) p))
        (rw (frames-packet f proto c p n e) at off))
]
  where
    impossible : false ≡ true → ⊥
    impossible e = cc
