-- ===== src/Bridge/Fallback/Race.antt =====
-- bridge.rs: the sockets of the race between proxied domains.
use wrtg.Prelude.{
  ℕ, ◌+◌, ◌≡◌, ◌∙◌, ap, refl, Bool, true, false, Option, none, some, List, [], ◌∷◌, ◌++◌, ◌⊎◌, inl,
  inr, keep, take, length, if◌then◌else◌, Bool-cases, arith,
}
use wrtg.Prelude.Int.{ℤ}
use wrtg.Prelude.Bytes.{Bytes}
use wrtg.Prelude.Results.{Result, ok, err}
use wrtg.Ws.Error.{WsConnectError}
use wrtg.Cooldown429.{Settings, Cooldowns}
use wrtg.CfProxyCooldown.{cf_proxy_cooldown_remaining}
use wrtg.CfProxy.{try_cf_proxy_domain}
use wrtg.Bridge.Fallback.{ProxyDialer, finish_cf_proxy_connect, sent_over, drain, race}

abbrev pub socket_of : {W : Type 0} → Option (W × Bytes) → List W
socket_of none = []
socket_of (some (ws, name)) = ws ∷ []

-- How many sockets pass a test.
abbrev pub count : {W : Type 0} → (W → Bool) → List W → ℕ
count p xs = length (keep p xs)

module _ {W : Type 0} (c : Settings) (net : ProxyDialer W) (dc : ℤ) (is_media : Bool) where
  abbrev connected : Cooldowns × Result WsConnectError W → Cooldowns × List W
  connected (m, ok ws) = (m, ws ∷ [])
  connected (m, err e) = (m, [])

  -- The socket that one attempt opens, whether or not it then takes the relay packet, and the cooldowns.
  abbrev pub opens : Cooldowns → Bytes → ℕ → ℕ → Cooldowns × List W
  opens m cf_domain now done =
      if net.late cf_domain
      then ((cf_proxy_cooldown_remaining c m cf_domain now).0, [])
      else connected
          (try_cf_proxy_domain c net.connect net.resolve_doh true m cf_domain dc is_media now done)

  -- Those of all the attempts, one after the other.
  abbrev pub opened : Cooldowns → List (Bytes × (ℕ × ℕ)) → Cooldowns × List W
  opened m [] = (m, [])
  opened m ((cf_domain, (now, done)) ∷ ended) =
      let (m', socket) = opens m cf_domain now done in
      let (m'', sockets) = opened m' ended in (m'', socket ++ sockets)

  -- An attempt opens no socket, or one that is closed, or one that is handed on.
  abbrev Ended : Cooldowns × (Option (W × Bytes) × List W) → Cooldowns × List W → Type 0
  Ended r o =
      ((r ≡ (o.0, (none, []))) × (o.1 ≡ []))
      ⊎ ((ws : W) × ((o.1 ≡ ws ∷ [])
            × (((r ≡ (o.0, (none, ws ∷ []))) × (net.send ws ≡ false))
                ⊎ ((name : Bytes) × ((r ≡ (o.0, (some (ws, name), []))) × (net.send ws ≡ true))))))

  finish_cf_proxy_connect-Ended :
      (m : Cooldowns) (cf_domain : Bytes) (now done : ℕ)
      → Ended
          (finish_cf_proxy_connect c net dc is_media m cf_domain now done)
          (opens m cf_domain now done)
  unfolding finish_cf_proxy_connect
  finish_cf_proxy_connect-Ended m cf_domain now done = elim (Bool-cases (net.late cf_domain)) [
    | inl e ↦ rw (e) (inl (refl, refl))
    | inr e ↦ rw (e) (
        over
          (try_cf_proxy_domain c net.connect net.resolve_doh true m cf_domain dc is_media now done))
  ]
    where
      over :
          (r : Cooldowns × Result WsConnectError W)
          → Ended (sent_over c net dc is_media cf_domain r) (connected r)
      over (m', err e) = inl (refl, refl)
      over (m', ok ws) = elim (Bool-cases (net.send ws)) [
        | inl q ↦ rw q (inr (ws, (refl, inr (cf_domain, (refl, q)))))
        | inr q ↦ rw q (inr (ws, (refl, inl (refl, q))))
      ]

  -- One attempt more, in the drain, in the race, and in the list of what is opened.
  abbrev drain_on :
      Cooldowns × (Option (W × Bytes) × List W)
      → (Cooldowns → Cooldowns × List W)
      → Cooldowns × List W
  drain_on r rest =
      let (m, (got, own)) = r in
      let (m', closed) = rest m in
      (m', elim got [ none ↦ own ++ closed | some (ws, name) ↦ ws ∷ own ++ closed ])

  abbrev race_on :
      Cooldowns × (Option (W × Bytes) × List W)
      → (Cooldowns → Cooldowns × (Option (W × Bytes) × List W))
      → (Cooldowns → Cooldowns × List W)
      → Cooldowns × (Option (W × Bytes) × List W)
  race_on r rest drained =
      let (m, (got, own)) = r in
      elim got [
        | none ↦ let (m', (winner, closed)) = rest m in (m', (winner, own ++ closed))
        | some winner ↦ let (m', closed) = drained m in (m', (some winner, own ++ closed))
      ]

  abbrev open_on : Cooldowns × List W → (Cooldowns → Cooldowns × List W) → Cooldowns × List W
  open_on o rest = let (m, socket) = o in let (m', sockets) = rest m in (m', socket ++ sockets)

  drain_step :
      (r : Cooldowns × (Option (W × Bytes) × List W)) (o : Cooldowns × List W)
      (rest rest' : Cooldowns → Cooldowns × List W)
      → Ended r o
      → ((m : Cooldowns) → rest m ≡ rest' m)
      → drain_on r rest ≡ open_on o rest'
  drain_step r o rest rest' (inl (e, q)) h = ap (λ x. drain_on x rest) e ∙ rw (q, h o.0) refl
  drain_step r o rest rest' (inr (ws, (q, inl (e, bad)))) h =
      ap (λ x. drain_on x rest) e ∙ rw (q, h o.0) refl
  drain_step r o rest rest' (inr (ws, (q, inr (name, (e, good))))) h =
      ap (λ x. drain_on x rest) e ∙ rw (q, h o.0) refl

  drain_all :
      (m : Cooldowns) (ended : List (Bytes × (ℕ × ℕ)))
      → drain c net dc is_media m ended ≡ opened m ended
  unfolding drain
  drain_all m [] = refl
  drain_all m ((cf_domain, (now, done)) ∷ ended) =
      drain_step (finish_cf_proxy_connect c net dc is_media m cf_domain now done)
        (opens m cf_domain now done) (λ m'. drain c net dc is_media m' ended)
        (λ m'. opened m' ended) (finish_cf_proxy_connect-Ended m cf_domain now done)
        (λ m'. drain_all m' ended)

  -- The winner is the first socket that takes the relay packet, and all others are closed.
  abbrev pub Won :
      (W → Bool) → Cooldowns × (Option (W × Bytes) × List W) → Cooldowns × List W → Type 0
  Won p r o =
      (socket_of r.1.0 ≡ take 1 (keep net.send o.1))
      × ((count p (socket_of r.1.0) + count p r.1.1 ≡ count p o.1) × (r.0 ≡ o.0))

  race_step :
      (p : W → Bool) (r : Cooldowns × (Option (W × Bytes) × List W)) (o : Cooldowns × List W)
      (rest : Cooldowns → Cooldowns × (Option (W × Bytes) × List W))
      (drained rest' : Cooldowns → Cooldowns × List W)
      → Ended r o
      → ((m : Cooldowns) → drained m ≡ rest' m)
      → Won p (rest o.0) (rest' o.0)
      → Won p (race_on r rest drained) (open_on o rest')
  race_step p r o rest drained rest' (inl (e, q)) h k = rw (e, q) k
  race_step p r o rest drained rest' (inr (ws, (q, inl (e, bad)))) h (first, (others, same)) =
      rw (e, q, bad) (first, (ground arith, same))
  race_step p r o rest drained rest' (inr (ws, (q, inr (name, (e, good))))) h k =
      rw (e, q, good, h o.0) (refl, (ground arith, refl))

  -- In whatever order the attempts of the race end, its socket is the first of those opened that takes
  -- the relay packet, and every other socket that is opened is closed, whether the relay packet fails
  -- on it or it comes after the winner: none is left open and none is closed twice. `p` stands for any
  -- test of a socket. The cooldowns are those of all the attempts.
  pub race_lem :
      (p : W → Bool) (m : Cooldowns) (ended : List (Bytes × (ℕ × ℕ)))
      → Won p (race c net dc is_media m ended) (opened m ended)
  unfolding race
  race_lem p m [] = (refl, (refl, refl))
  race_lem p m ((cf_domain, (now, done)) ∷ ended) =
      race_step p (finish_cf_proxy_connect c net dc is_media m cf_domain now done)
        (opens m cf_domain now done) (λ m'. race c net dc is_media m' ended)
        (λ m'. drain c net dc is_media m' ended) (λ m'. opened m' ended)
        (finish_cf_proxy_connect-Ended m cf_domain now done) (λ m'. drain_all m' ended)
        (race_lem p (opens m cf_domain now done).0 ended)
