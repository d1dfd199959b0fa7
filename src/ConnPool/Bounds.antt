-- ===== src/ConnPool/Bounds.antt =====
-- conn_pool.rs: how many connections a slot holds.
use wrtg.Prelude.{
  ℕ, ◌≤◌, ◌≡◌, ◌⊎◌, inl, inr, refl, ap, arith, Bool, true, false, not, ◌&&◌, Bool-cases,
  Option-cases, Option, none, some, List, [], ◌∷◌, ◌++◌, leb, if◌then◌else◌, length, length-append,
  length-keep-le, keep, All,
}
use wrtg.Prelude.Eq.{ℤ_eq, Bool_eq, pair_eq, ◌=?◌}
use wrtg.Prelude.Map
use wrtg.Prelude.Map.{Map}
use wrtg.Prelude.Bytes.{Bytes}
use wrtg.Prelude.Durations.{unwrap_or}
use wrtg.ConnPool.{
  Key, Pooled, Slot, Config, Slots, pop, is_fresh, default_slot, take_expired, acquire, fill_push,
  fill, refill_touch, refill_one, active_slots,
}

-- The stretches of code that run under the lock, in any order in which the tasks get it. The
-- connectors of two fills may take turns, so a fill is as many pushes here as it has connections.
pub data Turn (W : Type 0) : Type 0 where
  acquires : Key → ℕ → Turn W
  pushes : Key → W → Bytes → ℕ → Turn W
  touches : Key → ℕ → Turn W
  reaps : ℕ → Turn W

module _ {W : Type 0} where
  unfoldable pub turn : Config → Slots W → Turn W → Slots W
  turn c slots (acquires key now) = (acquire c slots key now).0
  turn c slots (pushes key ws label now) = (fill_push c slots key ws label now).0
  turn c slots (touches key now) = (refill_touch slots key now).0
  turn c slots (reaps now) = (active_slots c slots now).0

  unfoldable pub turns : Config → Slots W → List (Turn W) → Slots W
  turns c slots [] = slots
  turns c slots (t ∷ ts) = turns c (turn c slots t) ts

  -- No slot holds more than the size of the pool.
  abbrev pub IsBounded : Config → Slots W → Type 0
  IsBounded c = All (λ e. length e.1.conns ≤ c.size)

  one_or_both :
      (c : Config) (key : Key) (slot : Slot W) (rest : Slots W) (b : Bool)
      → length slot.conns ≤ c.size
      → IsBounded c rest
      → IsBounded c (if b then rest else (key, slot) ∷ rest)
  one_or_both c key slot rest true h hs = hs
  one_or_both c key slot rest false h hs = (h, hs)

  IsBounded-remove :
      (c : Config) (slots : Slots W) (key : Key)
      → IsBounded c slots
      → IsBounded c (Map.remove slots key)
  unfolding Map.remove
  IsBounded-remove c [] key h = h
  IsBounded-remove c ((k, s) ∷ slots) key h =
      one_or_both c k s (Map.remove slots key) (k =? key) h.0 (IsBounded-remove c slots key h.1)

  IsBounded-insert :
      (c : Config) (slots : Slots W) (key : Key) (s : Slot W)
      → IsBounded c slots
      → length s.conns ≤ c.size
      → IsBounded c (Map.insert slots key s)
  unfolding Map.insert
  IsBounded-insert c slots key s h hs = (hs, IsBounded-remove c slots key h)

  slot-le :
      (c : Config) (slots : Slots W) (key : Key) (now : ℕ)
      → IsBounded c slots
      → length (unwrap_or (Map.get slots key) (default_slot now)).conns ≤ c.size
  unfolding Map.get default_slot
  slot-le c [] key now h = omega arith
  slot-le c ((k, s) ∷ slots) key now h = either (k =? key) h.0 (slot-le c slots key now h.1)
    where
      either :
          (b : Bool)
          → length s.conns ≤ c.size
          → length (unwrap_or (Map.get slots key) (default_slot now)).conns ≤ c.size
          → length (unwrap_or (if b then some s else Map.get slots key) (default_slot now)).conns
            ≤ c.size
      either true h hs = h
      either false h hs = hs

  pub pop-cases :
      (xs : List (Pooled W))
      → ((xs ≡ []) × (pop xs ≡ none))
        ⊎ ((r : List (Pooled W) × Pooled W) × ((pop xs ≡ some r) × (xs ≡ r.0 ++ (r.1 ∷ []))))
  pop-cases [] = inl (refl, refl)
  pop-cases (x ∷ xs) = elim (pop-cases xs) [
    | inl (e, q) ↦ inr (([], x), (rw q refl, rw e refl))
    | inr ((ys, y), (q, e)) ↦ inr ((x ∷ ys, y), (rw q refl, ap (◌∷◌ x) e))
  ]

  acquire-IsBounded :
      (c : Config) (slots : Slots W) (key : Key) (now : ℕ)
      → IsBounded c slots
      → IsBounded c (acquire c slots key now).0
  unfolding acquire take_expired
  acquire-IsBounded c slots (dc, is_media) now h =
      elim (Bool-cases (is_media && not c.serves_media)) [
        | inl e ↦ rw e h
        | inr e ↦ elim (Option-cases (Map.get slots (dc, is_media))) [
          | inl q ↦ rw (e, q) h
          | inr (s, q) ↦ elim (pop-cases (keep (is_fresh c.ttl now) s.conns)) [
            | inl (n, p) ↦ rw (e, q, p) (IsBounded-insert c slots (dc, is_media) _ h (omega arith))
            | inr (r, (p, n)) ↦
                let held = slot-le c slots (dc, is_media) now h in
                let had : length s.conns ≤ c.size = rw q at held in
                rw (e, q, p)
                  (IsBounded-insert c slots (dc, is_media) _ h
                    (omega (
                      arith,
                      had,
                      length-keep-le (is_fresh c.ttl now) s.conns,
                      ap length n,
                      length-append r.0 (r.1 ∷ []),
                    )))
          ]
        ]
      ]

  fill_push-IsBounded :
      (c : Config) (slots : Slots W) (key : Key) (ws : W) (label : Bytes) (now : ℕ)
      → IsBounded c slots
      → IsBounded c (fill_push c slots key ws label now).0
  unfolding fill_push take_expired
  fill_push-IsBounded c slots key ws label now h =
      let slot : Slot W = unwrap_or (Map.get slots key) (default_slot now) in
      let kept : List (Pooled W) = keep (is_fresh c.ttl now) slot.conns in
      let had : length kept ≤ c.size =
        omega (arith, slot-le c slots key now h, length-keep-le (is_fresh c.ttl now) slot.conns) in
      elim (Bool-cases (leb c.size (length kept))) [
        | inl e ↦ rw e (IsBounded-insert c slots key _ h had)
        | inr e ↦ rw e (
            IsBounded-insert c slots key _ h (
              ground (
                arith,
                length-append kept (record { ws = ws; created = now; label = label } ∷ []),
              )))
      ]

  fill-IsBounded :
      (c : Config) (slots : Slots W) (key : Key) (outcomes : List (Option (W × Bytes) × ℕ))
      → IsBounded c slots
      → IsBounded c (fill c slots key outcomes).0
  unfolding fill
  fill-IsBounded c slots key [] h = h
  fill-IsBounded c slots key ((none, now) ∷ outcomes) h = fill-IsBounded c slots key outcomes h
  fill-IsBounded c slots key ((some (ws, label), now) ∷ outcomes) h =
      let pushed = fill_push-IsBounded c slots key ws label now h in
      elim (Option-cases (fill_push c slots key ws label now).1.0) [
        | inl e ↦
            rw (fill, e)
              (fill-IsBounded c (fill_push c slots key ws label now).0 key outcomes pushed)
        | inr (extra, e) ↦ rw (fill, e) pushed
      ]

  refill_one-IsBounded :
      (c : Config) (slots : Slots W) (key : Key) (now : ℕ)
      (outcomes : List (Option (W × Bytes) × ℕ))
      → IsBounded c slots
      → IsBounded c (refill_one c slots key now outcomes).0
  unfolding refill_one refill_touch
  refill_one-IsBounded c slots key now outcomes h =
      fill-IsBounded c _ key _ (IsBounded-insert c slots key _ h (slot-le c slots key now h))

  active_slots-IsBounded :
      (c : Config) (slots : Slots W) (now : ℕ)
      → IsBounded c slots
      → IsBounded c (active_slots c slots now).0
  unfolding active_slots take_expired
  active_slots-IsBounded c [] now h = h
  active_slots-IsBounded c ((key, slot) ∷ slots) now h = (
    omega (arith, length-keep-le (is_fresh c.ttl now) slot.conns),
    active_slots-IsBounded c slots now h.1,
  )

  turn-IsBounded :
      (c : Config) (slots : Slots W) (t : Turn W) → IsBounded c slots → IsBounded c (turn c slots t)
  unfolding turn refill_touch
  turn-IsBounded c slots (acquires key now) h = acquire-IsBounded c slots key now h
  turn-IsBounded c slots (pushes key ws label now) h =
      fill_push-IsBounded c slots key ws label now h
  turn-IsBounded c slots (touches key now) h =
      IsBounded-insert c slots key _ h (slot-le c slots key now h)
  turn-IsBounded c slots (reaps now) h = active_slots-IsBounded c slots now h

  -- However the tasks take turns at the lock, and however many fills race for one slot, no slot ever
  -- holds more connections than the size of the pool.
  pub turns-IsBounded :
      (c : Config) (slots : Slots W) (ts : List (Turn W))
      → IsBounded c slots
      → IsBounded c (turns c slots ts)
  unfolding turns
  turns-IsBounded c slots [] h = h
  turns-IsBounded c slots (t ∷ ts) h =
      turns-IsBounded c (turn c slots t) ts (turn-IsBounded c slots t h)
