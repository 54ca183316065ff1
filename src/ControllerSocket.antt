-- ===== src/ControllerSocket.antt =====
-- src/scheduling_util/_controller_socket.py: newline-delimited JSON over a local socket. A connection
-- is the list of chunks that `recv` returns, in their order; at an empty chunk it is closed, and behind
-- the last one it is closed or `recv` raises, as at a timeout. Bytes are natural numbers.
pub mod Framing
pub mod Serving
pub mod Client
pub mod Lifecycle
pub mod Starting
use scheduling_util_py.Prelude.{
  ℕ, zero, suc, Bool, true, false, not, String, Option, none, some, List, [], ◌∷◌, ◌++◌, length,
  ltb, ◌==◌, if◌then◌else◌, Exception, error, is_exception, Result, return, raise, Action, pure,
  ◌>>=◌, ◌>>◌,
}
use scheduling_util_py.Controller.{
  ScheduleController, ControllerRequest, ControllerResponse, handle_request, error_response,
}

abbrev pub max_message_bytes : ℕ
max_message_bytes = 65536

abbrev pub newline : ℕ
newline = 10

-- `b"\n" in data`
unfoldable pub has_newline : List ℕ → Bool
has_newline [] = false
has_newline (b ∷ bs) = let rest = has_newline bs in if b == newline then true else rest

-- `data.split(b"\n", 1)[0]`
pub first_line : List ℕ → List ℕ
first_line [] = []
first_line (b ∷ bs) = let rest = first_line bs in if b == newline then [] else b ∷ rest

-- The loop of `read_request` and of `send_controller_socket_request`.
abbrev received :
    Exception
    → (rest : Result (List ℕ)) → (closed : Bool) → (bytes longer : List ℕ) → Result (List ℕ)
received too_large rest true bytes longer = return bytes
received too_large rest false bytes longer =
    if ltb max_message_bytes (length longer) then raise too_large else rest

abbrev is_empty : List ℕ → Bool
is_empty [] = true
is_empty (_ ∷ _) = false

abbrev at_end : Option Exception → List ℕ → Result (List ℕ)
at_end none bytes = return bytes
at_end (some e) bytes = raise e

pub receive : Exception → Option Exception → List (List ℕ) → List ℕ → Result (List ℕ)
unfolding has_newline
receive too_large end [] bytes = if has_newline bytes then return bytes else at_end end bytes
receive too_large end (chunk ∷ chunks) bytes =
    let rest = receive too_large end chunks (bytes ++ chunk) in
    if has_newline bytes
    then return bytes
    else received too_large rest (is_empty chunk) bytes (bytes ++ chunk)

abbrev pub request_too_large : Exception
request_too_large = error "ValueError" "Controller request is too large."

abbrev pub response_too_large : Exception
response_too_large = error "ValueError" "Controller response is too large."

abbrev pub empty_response : Exception
empty_response = error "ValueError" "Controller response is empty."

-- What reading a request gives: a line, nothing (`EmptySocketRequest`), or another exception.
pub data Reading : Type 0 where
  line : List ℕ → Reading
  empty_request : Reading
  failed : Exception → Reading

-- How `sendall` ends.
pub data SendEnd : Type 0 where
  sent broken_pipe : SendEnd
  send_failed : Exception → SendEnd

-- A connection: its chunks, the exception of `recv` behind them, if any, and how sending will end.
pub record Connection : Type 0 where
  pub chunks : List (List ℕ)
  pub recv_end : Option Exception
  pub send_end : SendEnd

-- The controller, and the responses that were sent, the latest first.
pub record Server : Type 0 where
  pub controller : ScheduleController
  pub responses : List ControllerResponse

-- `strip` is `bytes.strip`; `parse` is `parse_controller_request`, whose validation of JSON is that of
-- pydantic; and `describe` is the message that the server makes of an exception.
module _ (strip : List ℕ → List ℕ) (parse : List ℕ → Result ControllerRequest)
    (describe : Exception → String) where
  abbrev pub line_or_empty : List ℕ → Reading
  line_or_empty [] = empty_request
  line_or_empty (b ∷ bs) = line (b ∷ bs)

  abbrev pub as_request : Result (List ℕ) → Reading
  as_request (raise e) = failed e
  as_request (return bytes) = line_or_empty (strip (first_line bytes))

  unfoldable pub read_request : Option Exception → List (List ℕ) → Reading
  unfolding receive first_line
  read_request end chunks = as_request (receive request_too_large end chunks [])

  -- `connection.sendall(…)`, with `except BrokenPipeError` around it.
  abbrev send : SendEnd → ControllerResponse → Action Server (Unit {0})
  send sent r s = (return tt, record s { responses = r ∷ s.responses })
  send broken_pipe r s = (return tt, s)
  send (send_failed e) r s = (raise e, s)

  -- `except ValidationError` and `except Exception`.
  abbrev pub send_error : SendEnd → Exception → Action Server (Unit {0})
  send_error end e s =
      if is_exception e then send end (error_response (describe e)) s else (raise e, s)

  abbrev pub handle : SendEnd → Result ControllerRequest → Action Server (Unit {0})
  handle end (return request) s =
      let (c, response) = handle_request request s.controller in
      send end response (record s { controller = c })
  handle end (raise e) s = send_error end e s

  abbrev pub answer_reading : SendEnd → Reading → Action Server (Unit {0})
  answer_reading end (line bytes) = handle end (parse bytes)
  answer_reading end empty_request = pure tt
  answer_reading end (failed e) = send_error end e

  unfoldable pub serve_connection : Connection → Action Server (Unit {0})
  unfolding read_request handle_request
  serve_connection connection =
      answer_reading connection.send_end (read_request connection.recv_end connection.chunks)

  -- `_serve_forever`, over the connections that it accepts until it is stopped. An exception of
  -- `_serve_connection` ends it, and with it the thread.
  pub serve_forever : List Connection → Action Server (Unit {0})
  unfolding serve_connection
  serve_forever [] = pure tt
  serve_forever (connection ∷ connections) =
      let rest = serve_forever connections in serve_connection connection >> rest
