-- ===== src/Bridge/Passthrough/Dials.antt =====
-- bridge.rs: what a blind relay dials.
use wrtg.Prelude.{
  ℕ, ◌<◌, ap, ◌≡◌, refl, Bool, true, false, inl, inr, Option, none, some, List, [], ◌∷◌, ◌++◌, ◌==◌,
  All, Bool-cases, Option-cases,
}
use wrtg.Prelude.Int.{ℤ}
use wrtg.Prelude.Bytes.{Bytes}
use wrtg.DcLearn.{lookup}
use wrtg.Fronting.{Attempt}
use wrtg.Media.{http_front_passthrough_payload, should_try_worker_passthrough}
use wrtg.TlsSni.{Scan, panicked, nothing, host}
use wrtg.TlsSni.HttpHost.{passthrough_host, http_host_raw}
use wrtg.Bridge.State.{Env, Daemon}
use wrtg.Bridge.Connection.{SocketAddr, is_self_target}
use wrtg.Bridge.Passthrough.Own.{is_own, not_own}
use wrtg.Bridge.Passthrough.{
  Target, try_ports, try_targets, Relay, via_worker, to_target, unreached, crashed, host_or_front,
  wire_host_read, reached_or_not, to_front, note_unreached, after_worker, try_worker_passthrough,
  blind_relay, passthrough_ports,
}

module _ (a b c d port : ℕ) (ha : a < 256) (hb : b < 256) (hc : c < 256) (hd : d < 256)
    (reach : Bytes → ℕ → Bool) where
  -- The connection's own socket.
  abbrev pub own_addr : Option SocketAddr
  own_addr = some (some (a ∷ b ∷ c ∷ d ∷ []), port)

  abbrev pub IsOther : Target → Type 0
  IsOther t = is_own a b c d ha hb hc hd port t ≡ false

  abbrev pub Failed : Target → Type 0
  Failed t = IsOther t × (reach t.0 t.1 ≡ false)

  -- All that is dialled fails, or all but the last, which answers; none of it is the own socket.
  abbrev pub Dialled : List Target → Option Target → Type 0
  Dialled tried none = All Failed tried
  Dialled tried (some t) =
      (failed : List Target) × ((tried ≡ failed ++ (t ∷ []))
        × (All Failed failed × (IsOther t × (reach t.0 t.1 ≡ true))))

  more_tried :
      (xs : List Target) (p : List Target × Option Target)
      → All Failed xs
      → Dialled p.0 p.1
      → Dialled (xs ++ p.0) p.1
  more_tried [] p h k = k
  more_tried (x ∷ xs) (tried, none) (hx, h) k = (hx, more_tried xs (tried, none) h k)
  more_tried (x ∷ xs) (tried, some t) (hx, h) k =
      let (failed, (e, (all, last))) = more_tried xs (tried, some t) h k in
      (x ∷ failed, (ap (◌∷◌ x) e, ((hx, all), last)))

  try_ports-Dialled :
      (ip : Bytes) (ports : List ℕ)
      → Dialled (try_ports own_addr reach ip ports).0 (try_ports own_addr reach ip ports).1
  unfolding try_ports
  try_ports-Dialled ip [] = tt
  try_ports-Dialled ip (p ∷ ports) =
      let rest = try_ports-Dialled ip ports in
      elim (Bool-cases (is_self_target own_addr ip p)) [
        | inl s ↦ rw (try_ports, s) rest
        | inr s ↦
            let other = not_own a b c d ha hb hc hd port ip p s in
            elim (Bool-cases (reach ip p)) [
              | inl r ↦ rw (try_ports, s, r) ([], (refl, (tt, (other, r))))
              | inr r ↦
                  rw (try_ports, s, r)
                    (more_tried ((ip, p) ∷ []) (try_ports own_addr reach ip ports) ((other, r), tt)
                      rest)
            ]
      ]

  joined :
      (p q : List Target × Option Target)
      → Dialled p.0 p.1
      → Dialled q.0 q.1
      → (r : List Target × Option Target)
      → r ≡ elim p.1 [ some target ↦ (p.0, some target) | none ↦ (p.0 ++ q.0, q.1) ]
      → Dialled r.0 r.1
  joined (tried, some t) q h k r e = rw e h
  joined (tried, none) q h k r e = rw e (more_tried tried q h k)

  try_targets-Dialled :
      (ports : List ℕ) (targets : List Bytes)
      → Dialled
          (try_targets own_addr reach ports targets).0
          (try_targets own_addr reach ports targets).1
  unfolding try_targets
  try_targets-Dialled ports [] = tt
  try_targets-Dialled ports (ip ∷ targets) =
      joined (try_ports own_addr reach ip ports) (try_targets own_addr reach ports targets)
        (try_ports-Dialled ip ports) (try_targets-Dialled ports targets) _ refl

  -- Where a relay goes, given the first bytes of the client and the payload made of them.
  abbrev pub IsSafe : ℕ → Bytes → Bytes → Relay → Type 0
  IsSafe orig_port initial payload (via_worker worker sent) =
      (sent ≡ initial) × ((orig_port == 80) ≡ false)
  IsSafe orig_port initial payload (to_target tried t sent) =
      (sent ≡ payload) × Dialled tried (some t)
  IsSafe orig_port initial payload (unreached tried) = Dialled tried none
  IsSafe orig_port initial payload crashed = Unit {0}

  reached-IsSafe :
      (orig_port : ℕ) (initial payload : Bytes) (wire : Scan) (p : List Target × Option Target)
      → Dialled p.0 p.1
      → IsSafe orig_port initial payload (wire_host_read wire (reached_or_not payload p))
  reached-IsSafe orig_port initial payload panicked p h = tt
  reached-IsSafe orig_port initial payload nothing (tried, none) h = h
  reached-IsSafe orig_port initial payload nothing (tried, some t) h = (refl, h)
  reached-IsSafe orig_port initial payload (host name) (tried, none) h = h
  reached-IsSafe orig_port initial payload (host name) (tried, some t) h = (refl, h)

  module _ {W : Type 0} (env : Env) (tunnel : Bytes → ℕ → Bytes → Attempt W) (asked : ℕ)
      (ended : ℕ → ℕ) (warned : ℕ) (orig_ip : Bytes) (orig_port : ℕ) (initial payload : Bytes) where
    noted-IsSafe :
        (s : Daemon W) (h : Bytes) (r : Relay)
        → IsSafe orig_port initial payload r
        → IsSafe orig_port initial payload
            (note_unreached env tunnel reach asked ended warned s h r).1
    noted-IsSafe s h (via_worker worker sent) k = k
    noted-IsSafe s h (to_target tried t sent) k = k
    noted-IsSafe s h (unreached tried) k = k
    noted-IsSafe s h crashed k = k

    front-IsSafe :
        (s : Daemon W)
        → IsSafe orig_port initial payload
            (after_worker env tunnel reach asked ended warned s own_addr orig_ip orig_port payload
              initial none).1
    unfolding after_worker to_front
    front-IsSafe s =
        elim (Option-cases
          (host_or_front (passthrough_host initial) orig_ip (lookup s.learned orig_ip) orig_port)) [
            | inl e ↦ rw (after_worker, e) tt
            | inr (h, e) ↦
                rw (after_worker, e)
                  (noted-IsSafe s h _ (
                    reached-IsSafe orig_port initial payload (http_host_raw payload) _
                      (try_targets-Dialled (passthrough_ports orig_port) _)))
          ]

-- Away from port 80 the first bytes go on as they are.
payload_of :
    (initial orig_ip : Bytes) (learned : Option (ℤ × Bool)) (orig_port : ℕ)
    → (orig_port == 80) ≡ false
    → http_front_passthrough_payload initial orig_ip learned orig_port ≡ initial
unfolding http_front_passthrough_payload
payload_of initial orig_ip learned orig_port h = rw h refl

-- A blind relay never dials the socket that its own connection came in on, which would loop the daemon
-- into itself: of all the targets that it dials, in order, none is the IPv4 address and the port of
-- that socket, and all fail but the last, if it is reached. The first bytes of the client go to the
-- target that is reached with the payload made for it; they go through a Worker only away from port
-- 80, and then unchanged.
pub blind_relay-IsSafe :
    {W : Type 0} (env : Env) (tunnel : Bytes → ℕ → Bytes → Attempt W) (reach : Bytes → ℕ → Bool)
    (asked : ℕ) (ended : ℕ → ℕ) (warned : ℕ) (s : Daemon W) (a b c d port : ℕ) (ha : a < 256)
    (hb : b < 256) (hc : c < 256) (hd : d < 256) (orig_ip : Bytes) (orig_port : ℕ) (initial : Bytes)
    → IsSafe a b c d port ha hb hc hd reach orig_port initial
        (http_front_passthrough_payload initial orig_ip (lookup s.learned orig_ip) orig_port)
        (blind_relay env tunnel reach asked ended warned s
          (some (some (a ∷ b ∷ c ∷ d ∷ []), port))
          orig_ip
          orig_port
          initial).1
unfolding blind_relay should_try_worker_passthrough after_worker
blind_relay-IsSafe env tunnel reach asked ended warned s a b c d port ha hb hc hd orig_ip orig_port
      initial =
    let payload =
      http_front_passthrough_payload initial orig_ip (lookup s.learned orig_ip) orig_port in
    let (s', worker) = try_worker_passthrough env tunnel asked ended s orig_ip orig_port in
    elim (Bool-cases (orig_port == 80)) [
      | inl e ↦
          rw (blind_relay, e)
            (front-IsSafe a b c d port ha hb hc hd reach env tunnel asked ended warned orig_ip
              orig_port initial payload s)
      | inr e ↦ elim (Option-cases worker) [
        | inl q ↦
            rw (blind_relay, e, q)
              (front-IsSafe a b c d port ha hb hc hd reach env tunnel asked ended warned orig_ip
                orig_port initial payload s')
        | inr (w, q) ↦
            rw (blind_relay, e, q, after_worker)
              (payload_of initial orig_ip (lookup s.learned orig_ip) orig_port e, e)
      ]
    ]
