-- ===== src/Fronting/Outcome.antt =====
-- fronting.rs: what the loop over the names reports.
use mathlib.Core.Path.{ap₂}
use wrtg.Prelude.{
  ◌⊎◌, inl, inr, ◌≡◌, ◌∙◌, refl, arith, Bool, true, false, not, ◌&&◌, ◌||◌, Option, none, some,
  List, [], ◌∷◌, if◌then◌else◌, any,
}
use wrtg.Prelude.Int.{ℤ}
use wrtg.Prelude.Bytes.{Bytes}
use wrtg.Prelude.Results.{Result, ok, err}
use wrtg.Ws.Error.{ErrorKind, timed_out, WsConnectError, is_ws_redirect_err, into_io}
use wrtg.Mtproto.Routing.{ws_domains}
use wrtg.Fronting.{
  Attempt, out_of_time, refused, connected, is_timed_out, fronting_sni, try_domains,
  try_ws_fronting,
}

abbrev is_time_out : ErrorKind → Bool
is_time_out timed_out = true
is_time_out _ = false

module _ {W : Type 0} where
  abbrev pub success : Bytes → Attempt W → Option (W × Bytes)
  success domain out_of_time = none
  success domain (refused e) = none
  success domain (connected ws sent) = if sent then some (ws, domain) else none

  -- The first name under which a connection takes the relay packet.
  abbrev pub first_success : (Bytes → Attempt W) → List Bytes → Option (W × Bytes)
  first_success attempt [] = none
  first_success attempt (domain ∷ domains) = elim (success domain (attempt domain)) [
    | some r ↦ some r
    | none ↦ first_success attempt domains
  ]

  abbrev pub not_redirected : Attempt W → Bool
  not_redirected out_of_time = true
  not_redirected (refused e) = not (is_ws_redirect_err e)
  not_redirected (connected ws sent) = true

  -- The time limit of the attempt, or an error of the kind `TimedOut`.
  abbrev pub ran_out : Attempt W → Bool
  ran_out out_of_time = true
  ran_out (refused e) = is_time_out (into_io e).kind
  ran_out (connected ws sent) = false

  abbrev pub report :
      Bool
      → Bool
      → (Bytes → Attempt W)
      → List Bytes
      → Option (W × Bytes)
      → Result (Bool × Bool) (W × Bytes)
  report blocked late attempt domains (some r) = ok r
  report blocked late attempt domains none = err (
    blocked && not (any (λ d. not_redirected (attempt d)) domains),
    late || any (λ d. ran_out (attempt d)) domains,
  )

  pub Attempt-cases :
      (a : Attempt W)
      → (a ≡ out_of_time)
        ⊎ (((e : WsConnectError) × (a ≡ refused e)) ⊎ ((r : W × Bool) × (a ≡ connected r.0 r.1)))
  Attempt-cases out_of_time = inl refl
  Attempt-cases (refused e) = inr (inl (e, refl))
  Attempt-cases (connected ws sent) = inr (inr ((ws, sent), refl))

  -- One name more.
  report-next :
      (blocked late blocked' late' : Bool) (attempt : Bytes → Attempt W) (d : Bytes)
      (ds : List Bytes) (o : Option (W × Bytes))
      → blocked' ≡ (blocked && not (not_redirected (attempt d)))
      → late' ≡ (late || ran_out (attempt d))
      → report blocked' late' attempt ds o ≡ report blocked late attempt (d ∷ ds) o
  report-next blocked late blocked' late' attempt d ds (some r) hb hl = refl
  report-next blocked late blocked' late' attempt d ds none hb hl =
      rw (hb, hl)
        (ap₂ (λ x y. err (x, y))
          (both blocked (not_redirected (attempt d)) (any (λ x. not_redirected (attempt x)) ds))
          (either late (ran_out (attempt d)) (any (λ x. ran_out (attempt x)) ds)))
    where
      both : (x y z : Bool) → ((x && not y) && not z) ≡ (x && not (y || z))
      both x y z = ground arith

      either : (x y z : Bool) → ((x || y) || z) ≡ (x || (y || z))
      either x y z = ground arith

  pub try_domains-report :
      (blocked late : Bool) (attempt : Bytes → Attempt W) (domains : List Bytes)
      → try_domains blocked late attempt domains
        ≡ report blocked late attempt domains (first_success attempt domains)
  unfolding try_domains
  try_domains-report blocked late attempt [] = ground arith
  try_domains-report blocked late attempt (d ∷ ds) = elim (Attempt-cases (attempt d)) [
    | inl q ↦
        rw (try_domains, first_success, q)
          (try_domains-report false true attempt ds
            ∙ report-next blocked late false true attempt d ds (first_success attempt ds)
                (rw q (ground arith)) (rw q (ground arith)))
    | inr (inl (e, q)) ↦
        let blocked' = blocked && is_ws_redirect_err e in
        let late' = late || is_timed_out (into_io e).kind in
        rw (try_domains, first_success, q)
          (try_domains-report blocked' late' attempt ds
            ∙ report-next blocked late blocked' late' attempt d ds (first_success attempt ds)
                (rw q (ground arith)) (rw q refl))
    | inr (inr ((ws, true), q)) ↦ rw (try_domains, first_success, q) refl
    | inr (inr ((ws, false), q)) ↦
        rw (try_domains, first_success, q)
          (try_domains-report false late attempt ds
            ∙ report-next blocked late false late attempt d ds (first_success attempt ds)
                (rw q (ground arith)) (rw q (ground arith)))
  ]

  -- With fronting enabled, the attempts end with the first name under which a connection takes the relay
  -- packet; and where there is none, the first flag says that every attempt was answered by a redirect,
  -- the second that some attempt ran out of time.
  pub try_ws_fronting_lem :
      (sni : Option Bytes) (name : Bytes) (dc : ℤ) (is_media : Bool) (attempt : Bytes → Attempt W)
      → fronting_sni sni ≡ some name
      → try_ws_fronting sni dc is_media attempt
        ≡ report true false attempt
            (ws_domains dc is_media)
            (first_success attempt (ws_domains dc is_media))
  unfolding try_ws_fronting
  try_ws_fronting_lem sni name dc is_media attempt e =
      rw (try_ws_fronting, e) (try_domains-report true false attempt (ws_domains dc is_media))
