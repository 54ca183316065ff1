-- ===== src/ControllerSocket/Client.antt =====
-- `send_controller_socket_request` of src/scheduling_util/_controller_socket.py, behind the sending of
-- the request, and the messages that the server serializes.
pub mod RoundTrip
use scheduling_util_py.Prelude.{
  ℕ, ◌≡◌, ◌≢◌, false, Option, Exception, List, [], ◌∷◌, ◌++◌, Result, return, raise, error,
  keyboard_interrupt, system_exit, no_code, int_code, text_code, zero, suc, ◌+◌, ◌-◌, ◌*◌, ◌≤◌, ◌<◌,
  min, String, refl, sym, ap, ◌∙◌, ◌↔◌, ◌⊎◌, inl, inr, Bool, true, not, ◌&&◌, ◌||◌, none, some, map,
  reverse, arith, ltb, leb, ◌==◌, if◌then◌else◌, is_some, ltb→lt, Bool-cases, length, drop, All,
  length-append, length-drop, All-append, All-every, ExitCode, Action, is_exception, pure, throw,
  and_then, ◌>>=◌, ◌>>◌,
}
use scheduling_util_py.Controller.{
  ControllerResponse, SchedulerState, ResponseStatus, ControllerRequest, SchedulerStatus,
  protocol_version, Waiter, ScheduleController, RunMode, new_controller, notify_all, status,
  error_response, handle_request, mark_running, mark_stopped, update_run_count, take_next_run_mode,
  has_pending_work, wait_for_work, starting, sleeping, running, stopping, stopped, ok, accepted,
  busy, status_request, wake_request, run_now_request, quit_request, not_waiting, waiting, notified,
  normal, run_now,
}
use scheduling_util_py.ControllerSocket.{
  newline, has_newline, first_line, receive, response_too_large, empty_response, max_message_bytes,
  request_too_large, Reading, SendEnd, Connection, Server, line_or_empty, as_request, read_request,
  send_error, handle, answer_reading, serve_connection, serve_forever, line, empty_request, failed,
  sent, broken_pipe, send_failed, received, is_empty, at_end, send,
}

-- The JSON of pydantic: `dump` is `model_dump_json().encode("utf-8")` and `parse` is
-- `parse_controller_response`; `strip` is `bytes.strip`.
pub record ResponseCodec : Type 0 where
  pub dump : ControllerResponse → List ℕ
  pub parse : List ℕ → Result ControllerResponse
  pub strip : List ℕ → List ℕ

-- What the two sides rely on for one response: its JSON is one full line, which `strip` leaves alone
-- and which is parsed back.
abbrev pub Parses : ResponseCodec → ControllerResponse → Type 0
Parses codec r =
    (has_newline (codec.dump r) ≡ false)
    × (codec.strip (codec.dump r) ≡ codec.dump r)
    × (codec.dump r ≢ [])
    × (codec.parse (codec.dump r) ≡ return r)

module _ (codec : ResponseCodec) where
  open codec use {dump, parse, strip}

  -- `serialize_socket_message`
  unfoldable pub serialize_socket_message : ControllerResponse → List ℕ
  serialize_socket_message r = dump r ++ newline ∷ []

  parse_line : List ℕ → Result ControllerResponse
  parse_line [] = raise empty_response
  parse_line (b ∷ bs) = parse (b ∷ bs)

  abbrev parse_response : Result (List ℕ) → Result ControllerResponse
  parse_response (raise e) = raise e
  parse_response (return bytes) = parse_line (strip (first_line bytes))

  -- The chunks and the end of the connection, as `recv` gives them.
  pub read_response : Option Exception → List (List ℕ) → Result ControllerResponse
  unfolding parse_line receive first_line
  read_response end chunks = parse_response (receive response_too_large end chunks [])

-- The other end of a connection: whether the platform has `AF_UNIX`, how `connect` and `sendall` end,
-- and what `recv` gives after what was sent.
pub record Peer : Type 0 where
  pub has_unix : Bool
  pub connect_end : Option Exception
  pub sendall : List ℕ → Option Exception
  pub answer : List ℕ → List (List ℕ) × Option Exception

abbrev no_unix : Exception
no_unix = error "RuntimeError" "Unix domain sockets are not supported on this platform."

module _ (codec : ResponseCodec) (dump_request : ControllerRequest → List ℕ) where
  abbrev pub serialize_request : ControllerRequest → List ℕ
  serialize_request request = dump_request request ++ newline ∷ []

  abbrev unless_raised : Option Exception → Result ControllerResponse → Result ControllerResponse
  unless_raised none result = result
  unless_raised (some e) result = raise e

  unfoldable pub send_controller_socket_request :
      Peer → ControllerRequest → Result ControllerResponse
  unfolding read_response
  send_controller_socket_request peer request =
      let message = serialize_request request in
      let (chunks, end) = peer.answer message in
      if peer.has_unix
      then unless_raised peer.connect_end
          (unless_raised (peer.sendall message) (read_response codec end chunks))
      else raise no_unix
