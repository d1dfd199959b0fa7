-- ===== src/Ws/Upgrade/Bounded.antt =====
-- ws.rs: how much of a server's answer is read.
use mathlib.Core.List.{append_assoc}
use wrtg.Prelude.{
  ℕ, zero, suc, ◌+◌, ◌≤◌, ◌<◌, ◌≡◌, refl, sym, ap, ◌∙◌, arith, inl, inr, Option, none, some, List,
  [], ◌∷◌, ◌++◌, Bool, true, false, any, ltb, ◌==◌, length, length-append, Bool-cases, Option-cases,
  not, subst, ◌||◌,
}
use wrtg.Prelude.Map.{Map}
use wrtg.Prelude.Bytes.{Bytes, trim_end, is_whitespace}
use wrtg.Prelude.Utf8.{from_utf8_lossy}
use wrtg.Prelude.Eq.{ℕ_eq, list_eq, ◌=?◌}
use wrtg.Prelude.Results.{Result, ok, err, Result-cases}
use wrtg.Ws.Error.{IoError, WsConnectError}
use wrtg.Prelude.Durations.{unwrap_or}
use wrtg.Ws.Answer.{
  read_line, take_line, split_once, crlf, judge, judged, read_answer, status_code_of, upgrade_ok,
  connection_ok, accept_ok, read_headers, max_http_line, max_http_headers,
}
use wrtg.Ws.Upgrade.{Network, open_request, connect_ws_inner, websocket_accept}

-- A line ends with its first line feed.
abbrev pub IsLine : Bytes → Type 0
IsLine line = (body : Bytes) × ((line ≡ body ++ (10 ∷ [])) × (any (λ c. c == 10) body ≡ false))

abbrev pub is_blank : Bytes → Bool
is_blank line = line =? (13 ∷ 10 ∷ []) || line =? (10 ∷ [])

-- The headers of an answer: lines that are not blank, and the blank line that ends them.
pub data Head : Bytes → Type 0 where
  last_line : (line : Bytes) → is_blank line ≡ true → Head line
  more_lines :
      (line head : Bytes) → IsLine line → is_blank line ≡ false → Head head → Head (line ++ head)

abbrev pub IsRead : Bytes → Bytes → Result IoError (Bytes × Bytes) → Type 0
IsRead buf s (err e) = Unit {0}
IsRead buf s (ok (line, rest)) =
    (line ++ rest ≡ buf ++ s)
    × ((length rest < length s)
        × ((body : Bytes) × ((line ≡ buf ++ (body ++ (10 ∷ [])))
              × (any (λ c. c == 10) body ≡ false))))

read_line-IsRead :
    (broken_off : IoError) (max_len : ℕ) (buf s : Bytes)
    → IsRead buf s (read_line broken_off max_len buf s)
unfolding read_line
read_line-IsRead broken_off max_len buf [] = tt
read_line-IsRead broken_off max_len buf (c ∷ s) =
    elim (Bool-cases (ltb max_len (length (buf ++ (c ∷ []))))) [
      | inl long ↦ rw (read_line, long) tt
      | inr short ↦ elim (Bool-cases (c == 10)) [
        | inl e ↦
            rw (read_line, short, e)
              (append_assoc buf (c ∷ []) s, (omega arith, ([], (line_feed e, refl))))
        | inr e ↦
            rw (read_line, short, e)
              (deeper e (read_line broken_off max_len (buf ++ (c ∷ [])) s)
                (read_line-IsRead broken_off max_len (buf ++ (c ∷ [])) s))
      ]
    ]
  where
    line_feed : (c == 10) ≡ true → buf ++ (c ∷ []) ≡ buf ++ (10 ∷ [])
    line_feed e = ap (λ x. buf ++ (x ∷ [])) (ground arith)

    deeper :
        (c == 10) ≡ false
        → (r : Result IoError (Bytes × Bytes)) → IsRead (buf ++ (c ∷ [])) s r
        → IsRead buf (c ∷ s) r
    deeper other (err e) k = tt
    deeper other (ok (line, rest)) (k, (l, (body, (e, plain)))) = (
      k ∙ append_assoc buf (c ∷ []) s,
      (omega arith, (c ∷ body, (e ∙ append_assoc buf (c ∷ []) (body ++ (10 ∷ [])), ground arith))),
    )

abbrev Fits : ℕ → Bytes → Result WsConnectError (Option (Map Bytes Bytes)) → Type 0
Fits n line (err e) = Unit {0}
Fits n line (ok none) = (n ≤ 32768) × (is_blank line ≡ true)
Fits n line (ok (some headers)) = is_blank line ≡ false

take_line-Fits :
    (headers : Map Bytes Bytes) (n : ℕ) (line : Bytes) → Fits n line (take_line headers n line)
unfolding take_line
take_line-Fits headers n line = elim (Bool-cases (ltb max_http_headers n)) [
  | inl long ↦ rw (take_line, long) tt
  | inr short ↦ elim (Bool-cases (line =? crlf || line =? 10 ∷ [])) [
    | inl e ↦ rw (take_line, short, e) (ground arith, e)
    | inr e ↦ elim (Option-cases (split_once (trim_end is_whitespace (from_utf8_lossy line)))) [
      | inl q ↦ rw (take_line, short, e, q) tt
      | inr (p, q) ↦ rw (take_line, short, e, q) e
    ]
  ]
]

-- What the loop over the headers has read, where it ends well.
abbrev pub IsHeaders : ℕ → Bytes → Option (Result WsConnectError (Map Bytes Bytes × Bytes)) → Type 0
IsHeaders headers_len s none = ⊥
IsHeaders headers_len s (some (err e)) = Unit {0}
IsHeaders headers_len s (some (ok (headers, rest))) =
    (head : Bytes) × (s ≡ head ++ rest) × (headers_len + length head ≤ 32768) × Head head

read_headers-IsHeaders :
    (broken_off : IoError) (fuel : ℕ) (headers : Map Bytes Bytes) (headers_len : ℕ) (s : Bytes)
    → length s < fuel
    → IsHeaders headers_len s (read_headers broken_off fuel headers headers_len s)
unfolding read_headers
read_headers-IsHeaders broken_off zero headers headers_len s h = absurd (omega arith)
read_headers-IsHeaders broken_off (suc fuel) headers headers_len s h =
    elim (Result-cases (read_line broken_off max_http_line [] s)) [
      | inl (e, q) ↦ rw (read_headers, q) tt
      | inr ((line, rest), q) ↦
          let read = subst (IsRead [] s) q (read_line-IsRead broken_off max_http_line [] s) in
          let n = headers_len + length line in
          elim (Result-cases (take_line headers n line)) [
            | inl (e, q2) ↦ rw (read_headers, q, q2) tt
            | inr (none, q2) ↦
                rw (read_headers, q, q2)
                  (
                    line,
                    sym read.0,
                    (subst (Fits n line) q2 (take_line-Fits headers n line)).0,
                    last_line line (subst (Fits n line) q2 (take_line-Fits headers n line)).1,
                  )
            | inr (some headers', q2) ↦
                rw (read_headers, q, q2)
                  (one_more line rest (sym read.0) read.1.1
                    (subst (Fits n line) q2 (take_line-Fits headers n line))
                    (read_headers broken_off fuel headers' n rest)
                    (read_headers-IsHeaders broken_off fuel headers' n rest
                      (omega (arith, read.1.0))))
          ]
    ]
  where
    one_more :
        (line rest : Bytes)
        → s ≡ line ++ rest
        → IsLine line
        → is_blank line ≡ false
        → (r : Option (Result WsConnectError (Map Bytes Bytes × Bytes)))
        → IsHeaders (headers_len + length line) rest r
        → IsHeaders headers_len s r
    one_more line rest e whole full none k = k
    one_more line rest e whole full (some (err x)) k = tt
    one_more line rest e whole full (some (ok (m, left))) (head, split, bound, h) = (
      line ++ head,
      e ∙ ap (◌++◌ line) split ∙ sym (append_assoc line head left),
      ground (arith, length-append line head),
      more_lines line head whole full h,
    )

-- What a connection comes to, given the server's answer.
abbrev pub IsBounded : Bytes → Option (Result WsConnectError Bytes) → Type 0
IsBounded answer none = ⊥
IsBounded answer (some (err e)) = Unit {0}
IsBounded answer (some (ok rest)) =
    (status_line : Bytes) × (head : Bytes) × (answer ≡ (status_line ++ head) ++ rest)
    × (length (status_line ++ head) ≤ 32768)
    × IsLine status_line
    × Head head

judge-IsBounded :
    (expected status_line answer : Bytes) (headers : Map Bytes Bytes) (rest : Bytes)
    → IsBounded answer (some (ok rest))
    → IsBounded answer (some (judge expected status_line (headers, rest)))
unfolding judge
judge-IsBounded expected status_line answer headers rest k =
    let status = from_utf8_lossy status_line in
    elim (Bool-cases (status_code_of status == 101)) [
      | inr other_code ↦ rw (judge, other_code) tt
      | inl is_101 ↦
          elim (Bool-cases (
            not (upgrade_ok headers)
            || (not (connection_ok headers) || not (accept_ok expected headers)))) [
              | inl bad ↦ rw (judge, is_101, bad) tt
              | inr good ↦ rw (judge, is_101, good) k
            ]
    ]

-- An error before the answer is passed on; otherwise the answer to the request is read.
abbrev pub Opens :
    Network → Result WsConnectError Bytes → Option (Result WsConnectError Bytes) → Type 0
Opens net (err e) r = r ≡ some (err e)
Opens net (ok req) r = IsBounded (net.answer req) r

judged-IsBounded :
    (expected status_line answer rest : Bytes)
    → answer ≡ status_line ++ rest
    → IsLine status_line
    → (r : Option (Result WsConnectError (Map Bytes Bytes × Bytes)))
    → IsHeaders (length status_line) rest r
    → IsBounded answer (judged expected status_line r)
judged-IsBounded expected status_line answer rest e whole none k = k
judged-IsBounded expected status_line answer rest e whole (some (err x)) k = tt
judged-IsBounded expected status_line answer rest e whole (some (ok (m, left)))
      (head, split, bound, h) =
    judge-IsBounded expected status_line answer m left (
      status_line,
      head,
      e ∙ ap (◌++◌ status_line) split ∙ sym (append_assoc status_line head left),
      omega (arith, length-append status_line head, bound),
      whole,
      h,
    )

read_answer-IsBounded :
    (broken_off : IoError) (expected answer : Bytes)
    → IsBounded answer (read_answer broken_off expected answer)
unfolding read_answer
read_answer-IsBounded broken_off expected answer =
    elim (Result-cases (read_line broken_off max_http_line [] answer)) [
      | inl (e, q) ↦ rw (read_answer, q) tt
      | inr ((line, rest), q) ↦
          let read =
            subst (IsRead [] answer) q (read_line-IsRead broken_off max_http_line [] answer) in
          rw (read_answer, q)
            (judged-IsBounded expected line answer rest (sym read.0) read.1.1
              (read_headers broken_off (suc (length rest)) [] (length line) rest)
              (read_headers-IsHeaders broken_off (suc (length rest)) [] (length line) rest
                (omega arith)))
    ]

-- Opening a WebSocket ends, with an error or with a socket, whatever the server sends and wherever it breaks
-- off. Where it ends with a socket, what has been read of the answer is at most 32 KiB: a first line, and
-- the lines after it up to the first blank one; and all that the server has sent behind that line is
-- still to be read.
pub connect_ws_inner-Ends :
    (net : Network) (target_ip host : Bytes) (sni : Option Bytes) (path : Bytes)
    (extra_headers : List (Bytes × Bytes)) (key : Bytes)
    → Opens net
        (open_request net target_ip host (unwrap_or sni host) path (net.base64 key) extra_headers)
        (connect_ws_inner net target_ip host sni path extra_headers key)
unfolding connect_ws_inner
connect_ws_inner-Ends net target_ip host sni path extra_headers key =
    elim (Result-cases
      (open_request net target_ip host (unwrap_or sni host) path (net.base64 key) extra_headers)) [
        | inl (e, q) ↦ rw (connect_ws_inner, q) refl
        | inr (req, q) ↦
            rw (connect_ws_inner, q)
              (read_answer-IsBounded net.broken_off (websocket_accept net (net.base64 key))
                (net.answer req))
      ]
