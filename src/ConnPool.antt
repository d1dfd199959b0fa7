-- ===== src/ConnPool.antt =====
-- crates/wrtg/src/conn_pool.rs: a pool of ready WebSockets for each datacenter, normal and media.
-- The map behind the lock is an argument; a function here is what runs under one hold of the lock,
-- or several of them in the order of the code. The connector is not under src/: its outcomes are a
-- list, with the time of each. A socket is a value of any type `W`. Connections that are closed are
-- returned. Within one hold of the lock the clock is read once.
pub mod Bounds
pub mod Acquire
mod Examples
use wrtg.Prelude.{
  ℕ, ◌-◌, Bool, true, false, not, ◌&&◌, Option, none, some, List, [], ◌∷◌, ◌++◌, leb, if◌then◌else◌,
  length, take, keep, map,
}
use wrtg.Prelude.Int.{ℤ}
use wrtg.Prelude.Eq.{ℤ_eq, Bool_eq, pair_eq}
use wrtg.Prelude.Map
use wrtg.Prelude.Map.{Map}
use wrtg.Prelude.Bytes.{Bytes}
use wrtg.Prelude.Durations.{from_secs, unwrap_or}

abbrev pub Key : Type 0
Key = ℤ × Bool

abbrev pub slot_idle_after : ℕ
slot_idle_after = from_secs 600

pub record Pooled (W : Type 0) : Type 0 where
  pub ws : W
  pub created : ℕ
  pub label : Bytes

pub record Slot (W : Type 0) : Type 0 where
  pub conns : List (Pooled W)
  pub last_used : ℕ

-- The settings of a pool that its operations read.
pub record Config : Type 0 where
  pub size : ℕ
  pub ttl : ℕ
  pub serves_media : Bool

-- `Vec::pop`.
abbrev pub pop {ℓ} : {A : Type ℓ} → List A → Option (List A × A)
pop [] = none
pop (x ∷ xs) = elim (pop xs) [ none ↦ some ([], x) | some (ys, y) ↦ some (x ∷ ys, y) ]

abbrev pub Slots : Type 0 → Type 0
Slots W = Map Key (Slot W)

module _ {W : Type 0} where
  -- `Slot::default()`.
  unfoldable pub default_slot : ℕ → Slot W
  default_slot now = record { conns = []; last_used = now }

  abbrev pub is_fresh : ℕ → ℕ → Pooled W → Bool
  is_fresh ttl now p = leb (now - p.created) ttl

  -- The connections kept, and those that are too old.
  unfoldable pub take_expired : ℕ → ℕ → List (Pooled W) → List (Pooled W) × List (Pooled W)
  take_expired ttl now v = (keep (is_fresh ttl now) v, keep (λ p. not (is_fresh ttl now p)) v)

  unfoldable pub acquire :
      Config → Slots W → Key → ℕ → Slots W × (Option (W × Bytes) × List (Pooled W))
  acquire c slots (dc, is_media) now =
      if is_media && not c.serves_media
      then (slots, (none, []))
      else (elim (Map.get slots (dc, is_media)) [
        | none ↦ (slots, (none, []))
        | some slot ↦
            let (fresh, expired) = take_expired c.ttl now slot.conns in
            elim (pop fresh) [
              | none ↦ (
                Map.insert slots (dc, is_media) (record { conns = []; last_used = now }),
                (none, expired),
              )
              | some (left, conn) ↦ (
                Map.insert slots (dc, is_media) (record { conns = left; last_used = now }),
                (some (conn.ws, conn.label), expired),
              )
            ]
      ])

  -- What `fill` does with a connection that has been made: the pool, the socket to spare, and the
  -- connections found expired.
  unfoldable pub fill_push :
      Config → Slots W → Key → W → Bytes → ℕ → Slots W × (Option W × List (Pooled W))
  fill_push c slots key ws label now =
      let slot = unwrap_or (Map.get slots key) (default_slot now) in
      let (fresh, expired) = take_expired c.ttl now slot.conns in
      if leb c.size (length fresh)
      then (Map.insert slots key (record slot { conns = fresh }), (some ws, expired))
      else (
        Map.insert slots key (record slot {
          conns = fresh ++ (record { ws = ws; created = now; label = label } ∷ []);
        }),
        (none, expired),
      )

  abbrev sockets : List (Pooled W) → List W
  sockets = map (λ p. p.ws)

  -- One outcome of the connector for each of the attempts; the sockets closed.
  unfoldable pub fill : Config → Slots W → Key → List (Option (W × Bytes) × ℕ) → Slots W × List W
  fill c slots key [] = (slots, [])
  fill c slots key ((none, now) ∷ outcomes) = fill c slots key outcomes
  fill c slots key ((some (ws, label), now) ∷ outcomes) =
      let (slots', (spare, expired)) = fill_push c slots key ws label now in
      elim spare [
        | some extra ↦ (slots', sockets expired ++ (extra ∷ []))
        | none ↦
            let (slots'', closed) = fill c slots' key outcomes in
            (slots'', sockets expired ++ closed)
      ]

  unfoldable pub refill_touch : Slots W → Key → ℕ → Slots W × ℕ
  refill_touch slots key now =
      let slot = unwrap_or (Map.get slots key) (default_slot now) in
      (Map.insert slots key (record slot { last_used = now }), length slot.conns)

  -- `outcomes` are those of the connector, as many as there may be; the loop takes what it needs.
  unfoldable pub refill_one :
      Config → Slots W → Key → ℕ → List (Option (W × Bytes) × ℕ) → Slots W × List W
  refill_one c slots key now outcomes =
      let (slots', have) = refill_touch slots key now in
      fill c slots' key (take (c.size - have) outcomes)

  abbrev reap : ℕ → ℕ → Slot W → Slot W
  reap ttl now slot = record slot { conns = (take_expired ttl now slot.conns).0 }

  -- The pool without its expired connections, those connections, and the slots in use.
  unfoldable pub active_slots : Config → Slots W → ℕ → Slots W × (List (Pooled W) × List Key)
  active_slots c [] now = ([], ([], []))
  active_slots c ((key, slot) ∷ slots) now =
      let (slots', (expired, active)) = active_slots c slots now in
      (
        (key, reap c.ttl now slot) ∷ slots',
        (
          (take_expired c.ttl now slot.conns).1 ++ expired,
          if leb (now - slot.last_used) slot_idle_after then key ∷ active else active,
        ),
      )

  unfoldable pub depths : Slots W → List (Key × ℕ)
  depths slots = map (λ e. (e.0, length e.1.conns)) slots
