-- ===== src/DcLearn/Precedence.antt =====
-- dc_learn.rs: which of several observations counts.
use wrtg.Prelude.{
  ◌≡◌, ◌∙◌, inl, inr, refl, ap, arith, Bool, true, false, not, ◌||◌, Option, none, some, List, [],
  ◌∷◌, ◌==◌, if◌then◌else◌, Bool-cases, Option-cases,
}
use wrtg.Prelude.Int.{ℤ}
use wrtg.Prelude.Eq.{ℕ_eq, list_eq, ◌=?◌, =?_iff}
use wrtg.Prelude.Map
use wrtg.Prelude.Bytes.{Bytes, is_empty, split_at}
use wrtg.Mtproto.Handshake.{valid_dc}
use wrtg.Mtproto.Routing.{dc_from_hardcoded, dc_from_orig_dst}
use wrtg.DcLearn.{Learned, parse_line, load_lines, load_file, load, lookup, learn}

abbrev pub or_else : Option (ℤ × Bool) → Option (ℤ × Bool) → Option (ℤ × Bool)
or_else (some a) b = some a
or_else none b = b

abbrev pub entry_for : Bytes → Option (Bytes × (ℤ × Bool)) → Option (ℤ × Bool)
entry_for ip none = none
entry_for ip (some (ip', entry)) = if ip' =? ip then some entry else none

-- The last line that names an address.
abbrev pub last_of : List Bytes → Bytes → Option (ℤ × Bool)
last_of [] ip = none
last_of (line ∷ lines) ip = or_else (last_of lines ip) (entry_for ip (parse_line line))

abbrev pub lines_of : Option Bytes → List Bytes
lines_of none = []
lines_of (some content) = split_at (λ c. c == b'\n') content

get-load_lines :
    (m : Learned) (lines : List Bytes) (ip : Bytes)
    → Map.get (load_lines m lines) ip ≡ or_else (last_of lines ip) (Map.get m ip)
unfolding load_lines
get-load_lines m [] ip = refl
get-load_lines m (line ∷ lines) ip = elim (Option-cases (parse_line line)) [
  | inl e ↦ elim (Option-cases (last_of lines ip)) [
    | inl q ↦
        rw (load_lines, e, q) (get-load_lines m lines ip ∙ ap (λ o. or_else o (Map.get m ip)) q)
    | inr (entry, q) ↦
        rw (load_lines, e, q) (get-load_lines m lines ip ∙ ap (λ o. or_else o (Map.get m ip)) q)
  ]
  | inr ((ip', entry), e) ↦
      let m' = Map.insert m ip' entry in
      elim (Option-cases (last_of lines ip)) [
        | inl q ↦
            rw (load_lines, e, q)
              (get-load_lines m' lines ip
                ∙ ap (λ o. or_else o (Map.get m' ip)) q
                ∙ Map.get-insert m ip' entry ip
                ∙ either (ip' =? ip) entry (Map.get m ip))
        | inr (later, q) ↦
            rw (load_lines, e, q)
              (get-load_lines m' lines ip ∙ ap (λ o. or_else o (Map.get m' ip)) q)
      ]
]
  where
    either :
        (b : Bool) (entry : ℤ × Bool) (old : Option (ℤ × Bool))
        → (if b then some entry else old) ≡ or_else (if b then some entry else none) old
    either true entry old = refl
    either false entry old = refl

get-load_file :
    (m : Learned) (content : Option Bytes) (ip : Bytes)
    → Map.get (load_file m content) ip ≡ or_else (last_of (lines_of content) ip) (Map.get m ip)
unfolding load_file
get-load_file m none ip = refl
get-load_file m (some content) ip = get-load_lines m (lines_of (some content)) ip

-- After a load the answer for an address is the last line of the administrator's file that names it,
-- or else the last such line of the learned file: the administrator's file wins, and nothing that was
-- in memory before is left.
pub load_lem :
    (m : Learned) (learn_file manual_file : Option Bytes) (ip : Bytes)
    → lookup (load m learn_file manual_file) ip
      ≡ or_else
          (last_of (lines_of manual_file) ip)
          (or_else (last_of (lines_of learn_file) ip) none)
unfolding load lookup Map.get
load_lem m learn_file manual_file ip =
    get-load_file (load_file [] learn_file) manual_file ip
    ∙ ap (or_else (last_of (lines_of manual_file) ip)) (get-load_file [] learn_file ip)

-- Whether `learn` has nothing to do with an address.
abbrev refused : Bytes → ℤ → Bool
refused ip dc =
    is_empty ip
    || (not (valid_dc dc) || (elim (dc_from_hardcoded ip) [ none ↦ false | some known ↦ true ]))

learn_new :
    (m : Learned) (ip : Bytes) (dc : ℤ) (is_media : Bool)
    → refused ip dc ≡ false
    → Map.get m ip ≡ none
    → learn m ip dc is_media ≡ (Map.insert m ip (dc, is_media), some (ip, (dc, is_media)))
unfolding learn
learn_new m ip dc is_media r new = rw (learn, r, new) refl

learn_keeps :
    (m : Learned) (ip other : Bytes) (dc : ℤ) (is_media : Bool) (entry : ℤ × Bool)
    → Map.get m ip ≡ some entry
    → Map.get (learn m other dc is_media).0 ip ≡ some entry
unfolding learn
learn_keeps m ip other dc is_media entry known = elim (Bool-cases (refused other dc)) [
  | inl r ↦ rw (learn, r) known
  | inr r ↦ elim (Option-cases (Map.get m other)) [
    | inl new ↦
        rw (learn, r, new)
          (ground (arith, Map.get-insert m other (dc, is_media) ip, =?_iff other ip, known, new))
    | inr (old, q) ↦ rw (learn, r, q) known
  ]
]

learn_again :
    (m : Learned) (ip : Bytes) (dc : ℤ) (is_media : Bool) (entry : ℤ × Bool)
    → Map.get m ip ≡ some entry
    → (learn m ip dc is_media).1 ≡ none
unfolding learn
learn_again m ip dc is_media entry known = elim (Bool-cases (refused ip dc)) [
  | inl r ↦ rw (learn, r) refl
  | inr r ↦ rw (learn, r, known) refl
]

-- The first observation of an address stands: once an address that is not in the tables has been
-- learned with a valid datacenter, it resolves to what was learned, no later observation of any
-- address changes that, and a second observation of it is not written to the file.
pub learn_first :
    (m : Learned) (ip other : Bytes) (dc dc' dc'' : ℤ) (is_media is_media' is_media'' : Bool)
    → is_empty ip ≡ false
    → valid_dc dc ≡ true
    → dc_from_hardcoded ip ≡ none
    → Map.get m ip ≡ none
    → let m' = (learn m ip dc is_media).0 in
      (dc_from_orig_dst ip (lookup (learn m' other dc' is_media').0 ip) ≡ some (dc, is_media))
      × ((learn m' ip dc'' is_media'').1 ≡ none)
unfolding lookup dc_from_orig_dst
learn_first m ip other dc dc' dc'' is_media is_media' is_media'' full valid fresh new =
    let accepted : refused ip dc ≡ false = rw (full, valid, fresh) refl in
    let known = Map.get-insert_self m ip (dc, is_media) in
    let m' = Map.insert m ip (dc, is_media) in
    rw (dc_from_orig_dst, fresh, lookup, learn_new m ip dc is_media accepted new)
      (
        learn_keeps m' ip other dc' is_media' (dc, is_media) known,
        learn_again m' ip dc'' is_media'' (dc, is_media) known,
      )
