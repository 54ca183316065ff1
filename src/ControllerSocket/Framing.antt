-- ===== src/ControllerSocket/Framing.antt =====
-- How src/scheduling_util/_controller_socket.py cuts the bytes of a connection into messages.
use mathlib.Core.List.{append_assoc, append-nil}
use scheduling_util_py.Prelude.{
  ℕ, ◌≤◌, ◌<◌, ◌≡◌, refl, sym, ap, ◌∙◌, ◌≢◌, true, false, Bool-cases, inl, inr, none, List, [], ◌∷◌,
  ◌++◌, length, length-append, ltb, ◌==◌, Exception, Result, return, raise, arith, All, String,
}
use scheduling_util_py.Controller.{ControllerRequest}
use scheduling_util_py.ControllerSocket.{
  max_message_bytes, newline, has_newline, first_line, receive, request_too_large, read_request,
  line_or_empty, failed,
}

-- All bytes of a connection.
abbrev pub joined : List (List ℕ) → List ℕ
joined [] = []
joined (chunk ∷ chunks) = chunk ++ joined chunks

first_line-append : (xs ys : List ℕ) → has_newline xs ≡ true → first_line (xs ++ ys) ≡ first_line xs
unfolding first_line has_newline
first_line-append [] ys h = cc
first_line-append (x ∷ xs) ys h = elim (Bool-cases (x == newline)) [
  | inl e ↦ rw e refl
  | inr e ↦ rw e (ap (λ l. x ∷ l) (first_line-append xs ys (rw e at h)))
]

pub receive-first_line :
    (e : Exception) (chunks : List (List ℕ)) (bytes : List ℕ)
    → All (λ c. c ≢ []) chunks
    → length (bytes ++ joined chunks) ≤ max_message_bytes
    → (d : List ℕ) × (receive e none chunks bytes ≡ return d)
      × (first_line d ≡ first_line (bytes ++ joined chunks))
unfolding receive
receive-first_line e [] bytes full short =
    (bytes, ground arith, ap first_line (sym (append-nil bytes)))
receive-first_line e ([] ∷ chunks) bytes (n, full) short = absurd (n refl)
receive-first_line e ((b ∷ bs) ∷ chunks) bytes (n, full) short =
    let chunk = b ∷ bs in
    let rest : length ((bytes ++ chunk) ++ joined chunks) ≤ max_message_bytes =
      rw (append_assoc bytes chunk (joined chunks)) short in
    elim (Bool-cases (has_newline bytes)) [
      | inl found ↦
          rw found (bytes, refl, sym (first_line-append bytes (chunk ++ joined chunks) found))
      | inr more ↦
          let fits : ltb max_message_bytes (length (bytes ++ chunk)) ≡ false =
            ground (arith, length-append (bytes ++ chunk) (joined chunks), rest) in
          let (d, got, same) = receive-first_line e chunks (bytes ++ chunk) full rest in
          rw (more, fits) (d, got, same ∙ ap first_line (append_assoc bytes chunk (joined chunks)))
    ]

receive-too_large :
    (e : Exception) (chunks : List (List ℕ)) (bytes : List ℕ)
    → All (λ c. c ≢ []) chunks
    → has_newline (bytes ++ joined chunks) ≡ false
    → length bytes ≤ max_message_bytes
    → max_message_bytes < length (bytes ++ joined chunks)
    → receive e none chunks bytes ≡ raise e
unfolding receive
receive-too_large e [] bytes full bare short long =
    absurd (omega (arith, rw (append-nil bytes) at long, short))
receive-too_large e ([] ∷ chunks) bytes (n, full) bare short long = absurd (n refl)
receive-too_large e ((b ∷ bs) ∷ chunks) bytes (n, full) bare short long =
    let chunk = b ∷ bs in
    let same = append_assoc bytes chunk (joined chunks) in
    let more = no_newline bytes (chunk ++ joined chunks) bare in
    elim (Bool-cases (ltb max_message_bytes (length (bytes ++ chunk)))) [
      | inl over ↦ rw (more, over) refl
      | inr fits ↦
          rw (more, fits)
            (receive-too_large e chunks (bytes ++ chunk) full (ap has_newline same ∙ bare)
              (ground (arith, fits)) (rw same long))
    ]
  where
    no_newline : (xs ys : List ℕ) → has_newline (xs ++ ys) ≡ false → has_newline xs ≡ false
    no_newline [] ys h = refl
    no_newline (x ∷ xs) ys h = ground (arith, no_newline xs ys)

module _ (strip : List ℕ → List ℕ) (parse : List ℕ → Result ControllerRequest)
    (describe : Exception → String) where
  -- However the bytes of a connection that is closed are cut into chunks: if they are at most 65536, the request is
  -- their first line, stripped, or all of them without a newline; an empty one counts as no request.
  read_request-first_line :
      (chunks : List (List ℕ))
      → All (λ c. c ≢ []) chunks
      → length (joined chunks) ≤ max_message_bytes
      → read_request strip parse describe none chunks
        ≡ line_or_empty strip parse describe (strip (first_line (joined chunks)))
  unfolding read_request
  read_request-first_line chunks full short =
      let (d, got, same) = receive-first_line request_too_large chunks [] full short in
      rw (got, same) refl

  -- More bytes without a newline are refused as too large.
  read_request_too_large :
      (chunks : List (List ℕ))
      → All (λ c. c ≢ []) chunks
      → has_newline (joined chunks) ≡ false
      → max_message_bytes < length (joined chunks)
      → read_request strip parse describe none chunks ≡ failed request_too_large
  unfolding read_request
  read_request_too_large chunks full bare long =
      rw (receive-too_large request_too_large chunks [] full bare (omega arith) long) refl
