-- ===== src/ClientInit/Keeps.antt =====
-- handshake.rs: no byte of the client is lost while its first bytes are classified.
use mathlib.Core.List.{append_assoc, append-nil}
use wrtg.Prelude.{
  ℕ, zero, suc, ◌+◌, ◌-◌, ◌≤◌, ◌<◌, ◌≡◌, inl, inr, refl, sym, ap, subst, ◌∙◌, arith, Bool, true,
  false, ◌&&◌, none, some, min, ◌^◌, List, [], ◌∷◌, ◌++◌, ltb, leb, if◌then◌else◌, length, take,
  drop, take-append-drop, drop-drop, length-take, length-drop, Bool-cases, Option-cases,
}
use wrtg.Prelude.Bytes.{Bytes, is_empty}
use wrtg.Prelude.Results.{Result-cases, ok}
use wrtg.Cipher.{Cipher}
use wrtg.Mtproto.Constants.{handshake_len}
use wrtg.Mtproto.Handshake.{parse_direct_handshake}
use wrtg.ClientInit.{
  position, header_end_mark, parse_http_content_length, http_passthrough, io, tls_passthrough, Read,
  got, failed, ended, Reason, Init, parsed, passthrough, panics, init_read_max, is_http_transport,
  has_complete_http_headers, looks_like_tls_stream, read_body, read_full_http_request, give_up,
  window, parses, find_from, find_handshake_offset, init_at, read_init_buffer, read_client_init,
}

-- What the first reads of a list have brought.
abbrev pub brought : List Read → Bytes
brought [] = []
brought (got chunk ∷ reads) = chunk ++ brought reads
brought (failed e ∷ reads) = brought reads
brought (ended ∷ reads) = brought reads

module _ (C : Cipher) where
  -- `held` is all that has been taken off the socket.
  abbrev pub Keeps : Bytes → Init → Type 0
  Keeps held (passthrough buf reason) = buf ≡ held
  Keeps held (parsed info prefix) =
      (junk : Bytes) × (h : Bytes) × ((held ≡ junk ++ (h ++ prefix))
        × ((length h ≡ handshake_len) × (parse_direct_handshake C h ≡ ok info)))
  Keeps held panics = ⊥

  -- The reads that have been made are those that are not left, and they have brought what is held.
  abbrev pub Accounts : Bytes → List Read → Init × List Read → Type 0
  Accounts buf reads (init, left) =
      (made : List Read) × ((reads ≡ made ++ left) × Keeps (buf ++ brought made) init)

  -- No read has been made.
  stay :
      (buf : Bytes) (reads : List Read) (reason : Reason)
      → Accounts buf reads (passthrough buf reason, reads)
  stay buf reads reason = ([], (refl, sym (append-nil buf)))

  -- A read has been made that has brought nothing.
  idle :
      (buf : Bytes) (read : Read) (reads : List Read) (init : Init)
      → brought (read ∷ []) ≡ []
      → Keeps buf init
      → Accounts buf (read ∷ reads) (init, reads)
  idle buf read reads init e k = (
    read ∷ [],
    (refl, subst (λ held. Keeps held init) (sym (append-nil buf) ∙ ap (◌++◌ buf) (sym e)) k),
  )

  nothing : (chunk : Bytes) → is_empty chunk ≡ true → chunk ++ [] ≡ []
  nothing [] e = refl
  nothing (x ∷ chunk) e = absurd (ground arith)

  -- One read more has been made.
  later :
      (buf chunk : Bytes) (reads : List Read) (r : Init × List Read)
      → Accounts (buf ++ chunk) reads r
      → Accounts buf (got chunk ∷ reads) r
  later buf chunk reads (init, left) (made, (e, k)) = (
    got chunk ∷ made,
    (
      ap (◌∷◌ (got chunk)) e,
      subst (λ held. Keeps held init) (append_assoc buf chunk (brought made)) k,
    ),
  )

  Accounts-if :
      (b : Bool) (buf : Bytes) (reads : List Read) (x y : Init × List Read)
      → (b ≡ true → Accounts buf reads x)
      → Accounts buf reads y
      → Accounts buf reads (if b then x else y)
  Accounts-if true buf reads x y hx hy = hx refl
  Accounts-if false buf reads x y hx hy = hy

  read_body-Accounts :
      (total : ℕ) (buf : Bytes) (reads : List Read) → Accounts buf reads (read_body total buf reads)
  unfolding read_body
  read_body-Accounts total buf [] = stay buf [] http_passthrough
  read_body-Accounts total buf (ended ∷ reads) =
      Accounts-if (ltb (length buf) total && ltb (length buf) init_read_max) buf (ended ∷ reads) _ _
        (λ e. idle buf ended reads (passthrough buf http_passthrough) refl refl)
        (stay buf (ended ∷ reads) http_passthrough)
  read_body-Accounts total buf (failed x ∷ reads) =
      Accounts-if (ltb (length buf) total && ltb (length buf) init_read_max) buf (failed x ∷ reads)
        _ _ (λ e. idle buf (failed x) reads (passthrough buf (io x)) refl refl)
        (stay buf (failed x ∷ reads) http_passthrough)
  read_body-Accounts total buf (got chunk ∷ reads) =
      Accounts-if (ltb (length buf) total && ltb (length buf) init_read_max) buf (got chunk ∷ reads)
        _ _
        (λ e.
          Accounts-if (is_empty chunk) buf (got chunk ∷ reads) _ _
            (λ q.
              idle buf (got chunk) reads (passthrough buf http_passthrough) (nothing chunk q) refl)
            (later buf chunk reads _ (read_body-Accounts total (buf ++ chunk) reads)))
        (stay buf (got chunk ∷ reads) http_passthrough)

  read_full_http_request-Accounts :
      (buf : Bytes) (reads : List Read) → Accounts buf reads (read_full_http_request buf reads)
  unfolding read_full_http_request
  read_full_http_request-Accounts buf reads = elim (Option-cases (position header_end_mark buf)) [
    | inl e ↦ rw (read_full_http_request, e) (stay buf reads http_passthrough)
    | inr (i, e) ↦ elim (Option-cases (parse_http_content_length (take (i + 4) buf))) [
      | inl q ↦ rw (read_full_http_request, e, q) (stay buf reads http_passthrough)
      | inr (n, q) ↦
          rw (read_full_http_request, e, q)
            (read_body-Accounts (min (i + 4 + n) (2 ^ 64 - 1)) buf reads)
    ]
  ]

  give_up-Keeps : (buf : Bytes) → Keeps buf (give_up buf)
  unfolding give_up
  give_up-Keeps [] = refl
  give_up-Keeps (b ∷ buf) = elim (Bool-cases (ltb (length (b ∷ buf)) handshake_len)) [
    | inl e ↦ rw (give_up, e) refl
    | inr e ↦ rw (give_up, e) refl
  ]

  -- The offset that is found is that of a handshake, whole and valid.
  find_from-parses :
      (buf : Bytes) (off n i : ℕ)
      → find_from C buf off n ≡ some i
      → (parses C (window C buf i) ≡ true) × (i < off + n)
  unfolding find_from
  find_from-parses buf off zero i e = ground arith
  find_from-parses buf off (suc n) i e = elim (Bool-cases (parses C (window C buf off))) [
    | inl q ↦ let here : i ≡ off = ground (arith, q, e) in rw here (q, omega arith)
    | inr q ↦
        let rest : find_from C buf (suc off) n ≡ some i = ground (arith, q, e) in
        let (p, lt) = find_from-parses buf (suc off) n i rest in (p, omega arith)
  ]

  init_at-Keeps :
      (buf : Bytes) (off : ℕ)
      → parses C (window C buf off) ≡ true
      → off + handshake_len ≤ length buf
      → Keeps buf (init_at C buf off)
  unfolding init_at
  init_at-Keeps buf off p fits = elim (Result-cases (parse_direct_handshake C (window C buf off))) [
    | inl (e, q) ↦ absurd (ground (arith, q, p))
    | inr (info, q) ↦ rw (init_at, q) (take off buf, window C buf off, (parts, (whole, q)))
  ]
    where
      parts : buf ≡ take off buf ++ (window C buf off ++ drop (off + handshake_len) buf)
      parts =
          sym (take-append-drop off buf)
          ∙ ap (λ t. take off buf ++ t)
              (sym (take-append-drop handshake_len (drop off buf))
                ∙ ap (λ t. window C buf off ++ t) (drop-drop off handshake_len buf))

      whole : length (window C buf off) ≡ handshake_len
      whole = omega (arith, length-take handshake_len (drop off buf), length-drop off buf)

  find_handshake_offset-parses :
      (buf : Bytes) (off : ℕ)
      → find_handshake_offset C buf ≡ some off
      → (parses C (window C buf off) ≡ true) × (off + handshake_len ≤ length buf)
  unfolding find_handshake_offset
  find_handshake_offset-parses buf off e = elim (Bool-cases (ltb (length buf) handshake_len)) [
    | inl q ↦ absurd (ground (arith, q, e))
    | inr q ↦
        let e' : find_from C buf 0 (length buf - handshake_len + 1) ≡ some off =
          ground (arith, q, e) in
        let (p, lt) = find_from-parses buf 0 (length buf - handshake_len + 1) off e' in
        (p, ground arith)
  ]

  -- A chunk that has just been read, whatever it shows.
  classified :
      (slice : Bytes) (reads : List Read) (rest : Init × List Read)
      → Accounts slice reads rest
      → Accounts slice reads (elim (find_handshake_offset C slice) [
        | some off ↦ (init_at C slice off, reads)
        | none ↦ rest
      ])
  classified slice reads rest h = elim (Option-cases (find_handshake_offset C slice)) [
    | inl e ↦ rw e h
    | inr (off, e) ↦
        let (p, fits) = find_handshake_offset-parses slice off e in
        rw e ([], (refl, rw (append-nil slice) (init_at-Keeps slice off p fits)))
  ]

  -- The buffer is full: no read has been made.
  stopped : (buf : Bytes) (reads : List Read) → Accounts buf reads (give_up buf, reads)
  stopped buf reads = ([], (refl, rw (append-nil buf) (give_up-Keeps buf)))

  read_init_buffer-Accounts :
      (buf : Bytes) (reads : List Read) → Accounts buf reads (read_init_buffer C buf reads)
  unfolding read_init_buffer
  read_init_buffer-Accounts buf [] = ([], (refl, rw (append-nil buf) (give_up-Keeps buf)))
  read_init_buffer-Accounts buf (ended ∷ reads) =
      Accounts-if (leb init_read_max (length buf)) buf (ended ∷ reads) _ _
        (λ e. stopped buf (ended ∷ reads))
        (idle buf ended reads (give_up buf) refl (give_up-Keeps buf))
  read_init_buffer-Accounts buf (failed x ∷ reads) =
      Accounts-if (leb init_read_max (length buf)) buf (failed x ∷ reads) _ _
        (λ e. stopped buf (failed x ∷ reads))
        (idle buf (failed x) reads (passthrough buf (io x)) refl refl)
  read_init_buffer-Accounts buf (got chunk ∷ reads) =
      let slice = buf ++ chunk in
      Accounts-if (leb init_read_max (length buf)) buf (got chunk ∷ reads) _ _
        (λ e. stopped buf (got chunk ∷ reads))
        (Accounts-if (is_empty chunk) buf (got chunk ∷ reads) _ _
          (λ q. idle buf (got chunk) reads (give_up buf) (nothing chunk q) (give_up-Keeps buf))
          (later buf chunk reads _ (
            Accounts-if (is_http_transport slice && has_complete_http_headers slice) slice reads _ _
              (λ e. read_full_http_request-Accounts slice reads)
              (Accounts-if (looks_like_tls_stream slice) slice reads _ _
                (λ e. stay slice reads tls_passthrough)
                (classified slice reads _ (read_init_buffer-Accounts slice reads))))))

  -- Whatever the client sends first, and however it arrives, the program neither panics nor loses a
  -- byte of it. The reads it leaves are the end of those of the client, and what the ones before have
  -- brought is exactly what is passed on; or, where an obfuscated handshake is found, its 64 bytes are
  -- valid, and the bytes behind it are kept as the prefix of the stream: only what stands before the
  -- handshake is dropped.
  pub read_client_init_keeps : (reads : List Read) → Accounts [] reads (read_client_init C reads)
  unfolding read_client_init
  read_client_init_keeps reads = read_init_buffer-Accounts [] reads
