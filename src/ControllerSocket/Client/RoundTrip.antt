-- ===== src/ControllerSocket/Client/RoundTrip.antt =====
-- A response on its way from the server to the client of src/scheduling_util/_controller_socket.py.
use scheduling_util_py.Prelude.{
  ℕ, ◌≤◌, ◌≡◌, refl, ap, ◌∙◌, ◌≢◌, false, Bool-cases, inl, inr, none, List, [], ◌∷◌, ◌++◌, length,
  ◌==◌, return, arith, All,
}
use scheduling_util_py.Controller.{ControllerResponse}
use scheduling_util_py.ControllerSocket.{
  max_message_bytes, newline, has_newline, first_line, response_too_large,
}
use scheduling_util_py.ControllerSocket.Framing.{joined, receive-first_line}
use scheduling_util_py.ControllerSocket.Client.{
  ResponseCodec, Parses, serialize_socket_message, parse_line, read_response,
}

pub first_line-message :
    (text rest : List ℕ) → has_newline text ≡ false → first_line (text ++ newline ∷ rest) ≡ text
unfolding first_line has_newline
first_line-message [] rest h = refl
first_line-message (b ∷ bs) rest h = elim (Bool-cases (b == newline)) [
  | inl e ↦ absurd (ground arith)
  | inr e ↦ rw e (ap (λ l. b ∷ l) (first_line-message bs rest (rw e at h)))
]

module _ (codec : ResponseCodec) where
  open codec use {dump, parse}

  parse_line-full : (text : List ℕ) → text ≢ [] → parse_line codec text ≡ parse text
  unfolding parse_line
  parse_line-full [] h = absurd (h refl)
  parse_line-full (b ∷ bs) h = refl

  -- A response whose JSON is one full line that is parsed back, in a message of at most 65536 bytes:
  -- however these are cut into chunks, the client gets the response back.
  pub read_response-serialize :
      (r : ControllerResponse) (chunks : List (List ℕ))
      → Parses codec r
      → All (λ c. c ≢ []) chunks
      → joined chunks ≡ serialize_socket_message codec r
      → length (serialize_socket_message codec r) ≤ max_message_bytes
      → read_response codec none chunks ≡ return r
  unfolding read_response serialize_socket_message
  read_response-serialize r chunks (one_line, strip-dump, dump-full, parse-dump) full all short =
      let (d, got, same) = receive-first_line response_too_large chunks [] full (rw all short) in
      let text : first_line d ≡ dump r =
        same ∙ ap first_line all ∙ first_line-message (dump r) [] one_line in
      rw (got, text, strip-dump) (parse_line-full (dump r) dump-full ∙ parse-dump)
