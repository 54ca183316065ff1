-- ===== src/ScheduleCli/Answered.antt =====
-- A control command of src/scheduling_util/_schedule_cli.py against the server of
-- src/scheduling_util/_controller_socket.py.
use scheduling_util_py.Prelude.{
  if◌then◌else◌, Action, inl, inr, ◌⊎◌, All, ap, ◌∙◌, return, raise, ℕ, ◌≤◌, String, ◌≡◌, refl, ap,
  ◌∙◌, ◌≢◌, ◌⊎◌, inl, inr, true, false, none, List, [], ◌∷◌, if◌then◌else◌, length, Exception,
  Result, Action,
}
use scheduling_util_py.Controller.{
  ControllerRequest, ControllerResponse, ScheduleController, handle_request,
}
use scheduling_util_py.Controller.Requests.{Grants, handle_request-Grants}
use scheduling_util_py.ControllerSocket.{
  max_message_bytes, has_newline, first_line, request_too_large, Connection, Server, line_or_empty,
  read_request, serve_connection, line, sent,
}
use scheduling_util_py.ControllerSocket.Framing.{joined, receive-first_line}
use scheduling_util_py.ControllerSocket.Client.{
  ResponseCodec, Parses, serialize_socket_message, read_response, Peer, serialize_request,
  send_controller_socket_request,
}
use scheduling_util_py.ControllerSocket.Client.RoundTrip.{
  first_line-message, read_response-serialize,
}
use scheduling_util_py.ScheduleCli.ControlCommands.{
  status_command, wake_command, run_now_command, quit_command, Subcommand, request_of,
  run_subcommand, exit_two,
}

-- The JSON of the requests: `dump_request` is that of `model_dump_json`, `parse_request` is
-- `parse_controller_request`, and `describe` is the server's message for an exception.
pub record RequestCodec : Type 0 where
  pub dump_request : ControllerRequest → List ℕ
  pub parse_request : List ℕ → Result ControllerRequest
  pub describe : Exception → String

module _ (codec : ResponseCodec) (requests : RequestCodec) where
  open codec use {strip}
  open requests use {dump_request, parse_request, describe}

  -- What the two sides rely on for one request: its JSON is one full line, which `strip` leaves alone
  -- and which is parsed back.
  abbrev pub RequestParses : ControllerRequest → Type 0
  RequestParses r =
      (has_newline (dump_request r) ≡ false)
      × (strip (dump_request r) ≡ dump_request r)
      × (dump_request r ≢ [])
      × (parse_request (dump_request r) ≡ return r)

  -- The chunks of one message of at most 65536 bytes.
  abbrev pub Carries : List (List ℕ) → List ℕ → Type 0
  Carries chunks message =
      All (λ c. c ≢ []) chunks × (joined chunks ≡ message) × (length message ≤ max_message_bytes)

  abbrev pub connection_of : List (List ℕ) → Connection
  connection_of chunks = record { chunks = chunks; recv_end = none; send_end = sent }

  abbrev pub served : ControllerRequest → ScheduleController → Server
  served r c =
      let (c', response) = handle_request r c in
      record { controller = c'; responses = response ∷ [] }

  line-full :
      (text : List ℕ) → text ≢ [] → line_or_empty strip parse_request describe text ≡ line text
  line-full [] h = absurd (h refl)
  line-full (b ∷ bs) h = refl

  serves :
      (r : ControllerRequest) (c : ScheduleController) (chunks : List (List ℕ))
      → RequestParses r
      → Carries chunks (serialize_request codec dump_request r)
      → serve_connection strip parse_request describe
          (connection_of chunks)
          (record { controller = c; responses = [] })
        ≡ (return tt, served r c)
  unfolding serve_connection read_request
  serves r c chunks (one_line, strip-dump, dump-full, parse-dump) (full, all, short) =
      let (d, got, same) = receive-first_line request_too_large chunks [] full (rw all short) in
      let text : first_line d ≡ dump_request r =
        same ∙ ap first_line all ∙ first_line-message (dump_request r) [] one_line in
      rw (got, text, strip-dump, line-full (dump_request r) dump-full, parse-dump) refl

  -- A server that answers, on its own connections, with these chunks.
  abbrev pub answers : List (List ℕ) → Peer
  answers chunks = record {
    has_unix = true;
    connect_end = none;
    sendall = λ _. none;
    answer = λ _. (chunks, none);
  }

  abbrev pub command : List (List ℕ) → Subcommand → Action (List ControllerResponse) (Unit {0})
  command chunks =
      run_subcommand (send_controller_socket_request codec dump_request (answers chunks))

  -- How the subcommand ends against a server whose controller is `c`.
  abbrev pub CommandEnds :
      Subcommand → ScheduleController → List (List ℕ) → List ControllerResponse → Type 0
  CommandEnds k c chunks printed =
      let r = request_of k in
      let response = (handle_request r c).1 in
      (Grants r c × (command chunks k printed ≡ (return tt, response ∷ printed)))
      ⊎ (¬ Grants r c) × (command chunks k printed ≡ (raise exit_two, response ∷ printed))

  abbrev End : Subcommand → ControllerResponse → List ControllerResponse → List (List ℕ) → Type 0
  End k response printed chunks =
      command chunks k printed
      ≡ (if response.ok then return tt else raise exit_two, response ∷ printed)

  ends :
      (k : Subcommand) (response : ControllerResponse) (printed : List ControllerResponse)
      → (chunks : List (List ℕ)) → read_response codec none chunks ≡ return response
      → End k response printed chunks
  unfolding run_subcommand send_controller_socket_request
  ends status_command response printed chunks e = rw e refl
  ends wake_command response printed chunks e = rw e refl
  ends run_now_command response printed chunks e = rw e refl
  ends quit_command response printed chunks e = rw e refl

  -- For a control command whose request and response are, in JSON, one full line that is parsed back,
  -- in messages of at most 65536 bytes: however both messages are cut into chunks, the server handles
  -- the request once and sends the response, and the command prints it and returns if the protocol
  -- grants the request, and else exits with code 2.
  pub control_command-answered :
      (k : Subcommand) (c : ScheduleController) (asked answered : List (List ℕ))
      (printed : List ControllerResponse)
      → RequestParses (request_of k)
      → Parses codec (handle_request (request_of k) c).1
      → Carries asked (serialize_request codec dump_request (request_of k))
      → Carries answered (serialize_socket_message codec (handle_request (request_of k) c).1)
      → (serve_connection strip parse_request describe
            (connection_of asked)
            (record { controller = c; responses = [] })
          ≡ (return tt, served (request_of k) c))
        × CommandEnds k c answered printed
  control_command-answered k c asked answered printed request_ok response_ok there back =
      let response = (handle_request (request_of k) c).1 in
      let got = read_response-serialize codec response answered response_ok back.0 back.1 back.2 in
      let ended = ends k response printed answered got in
      (
        serves (request_of k) c asked request_ok there,
        elim (handle_request-Grants (request_of k) c).0 [
          | inl granted ↦ inl (granted.0, rw granted.1 at ended)
          | inr refused ↦ inr (refused.0, rw refused.1 at ended)
        ],
      )
