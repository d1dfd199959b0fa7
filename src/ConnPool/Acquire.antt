-- ===== src/ConnPool/Acquire.antt =====
-- conn_pool.rs: what `acquire` hands out, closes and keeps.
use wrtg.Prelude.{
  ℕ, ◌+◌, ◌≤◌, ◌<◌, ◌≡◌, ◌⊎◌, inl, inr, refl, ap, subst, arith, Bool, true, false, not, ◌&&◌,
  Bool-cases, Option, none, some, List, [], ◌∷◌, ◌++◌, length, keep, All,
}
use wrtg.Prelude.Int.{ℤ}
use wrtg.Prelude.Eq.{ℤ_eq, Bool_eq, pair_eq, ◌=?◌}
use wrtg.Prelude.Map
use wrtg.Prelude.Bytes.{Bytes}
use wrtg.ConnPool.{Key, Pooled, Slot, Config, Slots, is_fresh, take_expired, acquire}
use wrtg.ConnPool.Bounds.{pop-cases}

module _ {W : Type 0} where
  -- How many connections pass a test.
  abbrev pub count : (Pooled W → Bool) → List (Pooled W) → ℕ
  count p xs = length (keep p xs)

  abbrev pub IsFresh : Config → ℕ → Pooled W → Type 0
  IsFresh c now p = now ≤ p.created + c.ttl

  -- One that has been held for longer than the time to live.
  abbrev pub IsExpired : Config → ℕ → Pooled W → Type 0
  IsExpired c now p = p.created + c.ttl < now

  drop-IsExpired :
      (c : Config) (now : ℕ) (xs : List (Pooled W))
      → All (IsExpired c now) (keep (λ p. not (is_fresh c.ttl now p)) xs)
  drop-IsExpired c now [] = _
  drop-IsExpired c now (x ∷ xs) = elim (Bool-cases (is_fresh c.ttl now x)) [
    | inl e ↦ rw e (drop-IsExpired c now xs)
    | inr e ↦ rw e (old e, drop-IsExpired c now xs)
  ]
    where
      old : is_fresh c.ttl now x ≡ false → IsExpired c now x
      old e = ground arith

  keep-IsFresh :
      (c : Config) (now : ℕ) (xs : List (Pooled W))
      → All (IsFresh c now) (keep (is_fresh c.ttl now) xs)
  keep-IsFresh c now [] = _
  keep-IsFresh c now (x ∷ xs) = elim (Bool-cases (is_fresh c.ttl now x)) [
    | inl e ↦ rw e (young e, keep-IsFresh c now xs)
    | inr e ↦ rw e (keep-IsFresh c now xs)
  ]
    where
      young : is_fresh c.ttl now x ≡ true → IsFresh c now x
      young e = ground arith

  count-partition :
      (p q : Pooled W → Bool) (xs : List (Pooled W))
      → count p (keep q xs) + count p (keep (λ x. not (q x)) xs) ≡ count p xs
  count-partition p q [] = omega arith
  count-partition p q (x ∷ xs) = ground (arith, count-partition p q xs)

  count-append :
      (p : Pooled W → Bool) (xs ys : List (Pooled W)) → count p (xs ++ ys) ≡ count p xs + count p ys
  count-append p [] ys = omega arith
  count-append p (x ∷ xs) ys = ground (arith, count-append p xs ys)

  All-append :
      (c : Config) (now : ℕ) (xs ys : List (Pooled W))
      → All (IsFresh c now) (xs ++ ys)
      → All (IsFresh c now) xs × All (IsFresh c now) ys
  All-append c now [] ys h = (_, h)
  All-append c now (x ∷ xs) ys h = let (hx, hy) = All-append c now xs ys h.1 in ((h.0, hx), hy)

  -- A connection was handed out, or the slot is empty. `p` stands for any test: what is handed out,
  -- closed and kept is what the slot held before.
  abbrev pub Taken :
      Config
      → (Pooled W → Bool)
      → ℕ
      → List (Pooled W)
      → Option (W × Bytes)
      → List (Pooled W)
      → List (Pooled W)
      → Type 0
  Taken c p now before ready closed left =
      ((ready ≡ none) × ((left ≡ []) × (count p closed ≡ count p before)))
      ⊎ ((conn : Pooled W) × ((ready ≡ some (conn.ws, conn.label))
            × (IsFresh c now conn
                × (All (IsFresh c now) left
                    × (count p left + count p (conn ∷ []) + count p closed ≡ count p before)))))

  abbrev pub Acquired :
      Config
      → (Pooled W → Bool)
      → ℕ
      → Slots W
      → Key
      → Slot W
      → Key
      → Slots W × (Option (W × Bytes) × List (Pooled W))
      → Type 0
  Acquired c p now slots key slot other (slots', (ready, closed)) =
      ((left : List (Pooled W)) × ((Map.get slots' key
            ≡ some (record { conns = left; last_used = now }))
          × Taken c p now slot.conns ready closed left))
      × ((Map.get slots' other ≡ Map.get slots other) × All (IsExpired c now) closed)

  -- For a slot of the pool, `acquire` hands out a connection no older than the time to live, or none
  -- only where none is left; every connection of the slot is handed out, closed or kept, exactly one
  -- of these; those kept are no older, and those closed are older; the slot counts as used now, and every other slot is as it
  -- was. The slot is a normal one, or the pool serves media.
  pub acquire_lem :
      (c : Config) (p : Pooled W → Bool) (slots : Slots W) (dc : ℤ) (is_media : Bool) (now : ℕ)
      (slot : Slot W) (other : Key)
      → (is_media && not c.serves_media) ≡ false
      → Map.get slots (dc, is_media) ≡ some slot
      → ((dc, is_media) =? other) ≡ false
      → Acquired c p now slots (dc, is_media) slot other (acquire c slots (dc, is_media) now)
  unfolding acquire take_expired
  acquire_lem c p slots dc is_media now slot other served found ne =
      let kept = keep (is_fresh c.ttl now) slot.conns in
      let whole = count-partition p (is_fresh c.ttl now) slot.conns in
      elim (pop-cases kept) [
        | inl (n, q) ↦
            rw
              (
                served,
                found,
                q,
                Map.get-insert slots (dc, is_media) (record { conns = []; last_used = now }) other,
                ne,
              )
              (
                (
                  [],
                  (
                    Map.get-insert_self slots (dc, is_media) _,
                    inl (refl, (refl, omega (arith, whole, ap (count p) n))),
                  ),
                ),
                (refl, drop-IsExpired c now slot.conns),
              )
        | inr ((left, conn), (q, n)) ↦
            let fresh : All (IsFresh c now) (left ++ (conn ∷ [])) =
              subst (All (IsFresh c now)) n (keep-IsFresh c now slot.conns) in
            let (hl, hc) = All-append c now left (conn ∷ []) fresh in
            rw
              (
                served,
                found,
                q,
                Map.get-insert slots (dc, is_media) (record { conns = left; last_used = now })
                    other,
                ne,
              )
              (
                (
                  left,
                  (
                    Map.get-insert_self slots (dc, is_media) _,
                    inr (
                      conn,
                      (
                        refl,
                        (
                          hc.0,
                          (
                            hl,
                            omega (arith, whole, ap (count p) n, count-append p left (conn ∷ [])),
                          ),
                        ),
                      ),
                    ),
                  ),
                ),
                (refl, drop-IsExpired c now slot.conns),
              )
      ]
