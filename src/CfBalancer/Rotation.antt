-- ===== src/CfBalancer/Rotation.antt =====
-- cf_balancer.rs, `ordered_domains`: the order is the list, turned to start at the cursor.
use native.Mathlib.Nat.{mod-eq_of_lt, mod-eq-sub-mod, mod-lt, mod-one, mod-mod}
use wrtg.Prelude.{
  ℕ, zero, suc, ◌+◌, ◌-◌, ◌%◌, ◌^◌, ◌≤◌, ◌<◌, ◌≡◌, inl, inr, refl, ap, ◌∙◌, arith, false, none,
  some, List, [], ◌∷◌, ◌++◌, ◌==◌, length, get_or, take, drop, length-drop, Option-cases,
}
use wrtg.Prelude.Int.{ℤ}
use wrtg.Prelude.Eq.{ℤ_eq}
use wrtg.Prelude.Map
use wrtg.Prelude.Map.{Map}
use wrtg.Prelude.Bytes.{Bytes}
use wrtg.CfBalancer.{cursor, push_from, ordered_domains}

take-suc-drop :
    (k n : ℕ) (xs : List Bytes)
    → k < length xs
    → take (suc n) (drop k xs) ≡ get_or xs k [] ∷ take n (drop (suc k) xs)
take-suc-drop k n [] h = absurd (omega arith)
take-suc-drop zero n (x ∷ xs) h = refl
take-suc-drop (suc k) n (x ∷ xs) h = take-suc-drop k n xs (omega arith)

take_all : (n : ℕ) (xs : List Bytes) → length xs ≤ n → take n xs ≡ xs
take_all zero [] h = refl
take_all (suc n) [] h = refl
take_all zero (x ∷ xs) h = absurd (omega arith)
take_all (suc n) (x ∷ xs) h = ap (◌∷◌ x) (take_all n xs (omega arith))

-- Up to the end of the list.
push_from-front :
    (xs : List Bytes) (start i n : ℕ)
    → start + i + n ≤ length xs
    → push_from xs start i n ≡ take n (drop (start + i) xs)
unfolding push_from
push_from-front xs start i zero h = refl
push_from-front xs start i (suc n) h =
    let next : start + suc i ≡ suc (start + i) = omega arith in
    let here : start + i < length xs = omega arith in
    rw
      (
        mod-eq_of_lt here,
        take-suc-drop (start + i) n xs here,
        push_from-front xs start (suc i) n (omega arith),
        next,
      )
      refl

-- From its head on again.
push_from-back :
    (xs : List Bytes) (start i n : ℕ)
    → length xs ≤ start + i
    → start + i + n ≤ length xs + length xs
    → push_from xs start i n ≡ take n (drop (start + i - length xs) xs)
unfolding push_from
push_from-back xs start i zero h fits = refl
push_from-back xs start i (suc n) h fits =
    let next : start + suc i - length xs ≡ suc (start + i - length xs) = omega arith in
    let here : start + i - length xs < length xs = omega arith in
    rw
      (
        mod-eq-sub-mod h,
        mod-eq_of_lt here,
        take-suc-drop (start + i - length xs) n xs here,
        push_from-back xs start (suc i) n (omega arith) (omega arith),
        next,
      )
      refl

push_from-add :
    (xs : List Bytes) (start i m n : ℕ)
    → push_from xs start i (m + n) ≡ push_from xs start i m ++ push_from xs start (i + m) n
unfolding push_from
push_from-add xs start i zero n =
    let none_ : 0 + n ≡ n = omega arith in
    let same : i + 0 ≡ i = omega arith in rw (none_, same) refl
push_from-add xs start i (suc m) n =
    let one : suc m + n ≡ suc (m + n) = omega arith in
    let next : i + suc m ≡ suc i + m = omega arith in
    rw (one, next, push_from-add xs start (suc i) m n) refl

push_from-rotation :
    (xs : List Bytes) (start : ℕ)
    → start < length xs
    → push_from xs start 0 (length xs) ≡ drop start xs ++ take start xs
push_from-rotation xs start h =
    let parts : length xs ≡ (length xs - start) + start = omega arith in
    let zero_ : start + 0 ≡ start = omega arith in
    let back : start + (0 + (length xs - start)) - length xs ≡ 0 = omega arith in
    ap (push_from xs start 0) parts
    ∙ push_from-add xs start 0 (length xs - start) start
    ∙ rw
        (
          push_from-front xs start 0 (length xs - start) (omega arith),
          push_from-back xs start (0 + (length xs - start)) start (omega arith) (omega arith),
          zero_,
          take_all (length xs - start) (drop start xs) (omega (arith, length-drop start xs)),
          back,
        )
        refl

cursor-none :
    (dc : ℤ) (len : ℕ) (dc_map : Map ℤ ℕ) (rr : ℕ)
    → Map.get dc_map dc ≡ none
    → cursor dc len dc_map rr ≡ (rr % len, (Map.insert dc_map dc (rr % len), (rr + 1) % 2 ^ 64))
unfolding cursor
cursor-none dc len dc_map rr e = rw (cursor, e) refl

cursor-some :
    (dc : ℤ) (len : ℕ) (dc_map : Map ℤ ℕ) (rr idx : ℕ)
    → Map.get dc_map dc ≡ some idx
    → cursor dc len dc_map rr ≡ (idx, (dc_map, rr))
unfolding cursor
cursor-some dc len dc_map rr idx e = rw (cursor, e) refl

-- The cursor of a datacenter that has one, and the next number of the counter otherwise.
abbrev pub turn_of : ℤ → ℕ → Map ℤ ℕ → ℕ → ℕ
turn_of dc len dc_map rr = elim (Map.get dc_map dc) [ none ↦ rr % len | some idx ↦ idx % len ]

-- A datacenter tries every domain of the list once, in the order of the list, from its own cursor on
-- and round the end; a datacenter that asks for the first time takes the next number of the counter;
-- and the cursor that is left gives the same order again, whatever the counter is by then.
pub ordered_domains_lem :
    (domains : List Bytes) (dc : ℤ) (dc_map : Map ℤ ℕ) (rr later : ℕ)
    → 0 < length domains
    → let start = turn_of dc (length domains) dc_map rr in
      ((ordered_domains domains dc dc_map rr).0 ≡ drop start domains ++ take start domains)
      × ((ordered_domains domains dc (ordered_domains domains dc dc_map rr).1.0 later).0
          ≡ (ordered_domains domains dc dc_map rr).0)
unfolding ordered_domains
ordered_domains_lem [] dc dc_map rr later h = absurd (omega arith)
ordered_domains_lem (d ∷ []) dc dc_map rr later h = elim (Option-cases (Map.get dc_map dc)) [
  | inl e ↦ rw (turn_of, e, mod-one rr) (refl, refl)
  | inr (idx, e) ↦ rw (turn_of, e, mod-one idx) (refl, refl)
]
ordered_domains_lem (d ∷ d' ∷ ds) dc dc_map rr later h =
    let len = length (d ∷ d' ∷ ds) in
    let many : (len == 1) ≡ false = ground arith in
    elim (Option-cases (Map.get dc_map dc)) [
      | inl e ↦
          let turned = push_from-rotation (d ∷ d' ∷ ds) (rr % len) (mod-lt rr h) in
          rw
            (
              many,
              turn_of,
              e,
              cursor-none dc len dc_map rr e,
              cursor-some dc len (Map.insert dc_map dc (rr % len)) later (rr % len)
                  (Map.get-insert_self dc_map dc (rr % len)),
              mod-mod rr len,
            )
            (turned, refl)
      | inr (idx, e) ↦
          let turned = push_from-rotation (d ∷ d' ∷ ds) (idx % len) (mod-lt idx h) in
          rw
            (
              many,
              turn_of,
              e,
              cursor-some dc len dc_map rr idx e,
              cursor-some dc len dc_map later idx e,
            )
            (turned, refl)
    ]
