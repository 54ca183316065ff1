-- ===== src/Tests/Sockets.antt =====
-- Runs of the socket's framing and of its server.
use scheduling_util_py.Prelude.{
  ℕ, ◌≡◌, refl, none, some, List, [], ◌∷◌, String, Exception, error, Result, return, raise, arith,
  ◌==◌, if◌then◌else◌,
}
use scheduling_util_py.Controller.{
  ControllerRequest, wake_request, quit_request, new_controller, error_response,
}
use scheduling_util_py.ControllerSocket.{
  newline, has_newline, line, read_request, Connection, Server, sent, broken_pipe, serve_forever,
}
use scheduling_util_py.ControllerSocket.Serving.{ParsesOrErrors, handle_all, serve_forever-handles}
use scheduling_util_py.ControllerSocket.Client.{
  ResponseCodec, serialize_socket_message, read_response,
}
use scheduling_util_py.ControllerSocket.Client.RoundTrip.{read_response-serialize}

abbrev strip : List ℕ → List ℕ
strip bytes = bytes

abbrev describe : Exception → String
describe e = "error"

abbrev bad_request : Exception
bad_request = error "ValidationError" "bad request"

-- A parser of one-letter requests.
abbrev parse : List ℕ → Result ControllerRequest
parse (b ∷ []) =
    if b == b'w'
    then return wake_request
    else if b == b'q'
    then return quit_request
    else raise bad_request
parse _ = raise bad_request

parse-ParsesOrErrors : ParsesOrErrors strip parse describe
parse-ParsesOrErrors [] e h = ground arith
parse-ParsesOrErrors (b ∷ []) e h = ground arith
parse-ParsesOrErrors (b ∷ c ∷ bs) e h = ground arith

-- The request `w`, in two chunks, with more behind its line.
abbrev cut : List (List ℕ)
cut = (b'w' ∷ []) ∷ (newline ∷ b'q' ∷ []) ∷ []

cut_read : read_request strip parse describe none cut ≡ line (b'w' ∷ [])
unfolding read_request
cut_read = refl

-- A wake, a bad request of a client that hangs up, a timeout, and a quit.
abbrev visits : List Connection
visits =
    record { chunks = cut; recv_end = none; send_end = sent }
    ∷ record { chunks = (b'x' ∷ newline ∷ []) ∷ []; recv_end = none; send_end = broken_pipe }
    ∷ record { chunks = []; recv_end = some (error "TimeoutError" "timed out"); send_end = sent }
    ∷ record { chunks = (b'q' ∷ newline ∷ []) ∷ []; recv_end = none; send_end = sent }
    ∷ []

abbrev idle : Server
idle = record { controller = new_controller; responses = [] }

serve_forever-handles_example :
    ((serve_forever strip parse describe visits idle).0 ≡ return tt)
    × ((serve_forever strip parse describe visits idle).1.controller
        ≡ handle_all strip parse describe (wake_request ∷ quit_request ∷ []) new_controller)
unfolding read_request
serve_forever-handles_example =
    serve_forever-handles strip parse describe visits idle parse-ParsesOrErrors
      ((tt, tt), ((tt, tt), ((refl, tt), ((tt, tt), tt))))

abbrev letters : ResponseCodec
letters = record {
  dump = λ r. b'r' ∷ [];
  parse = λ bytes. return (error_response "no");
  strip = strip;
}

read_response-serialize_example :
    read_response letters none ((b'r' ∷ []) ∷ (newline ∷ []) ∷ []) ≡ return (error_response "no")
unfolding serialize_socket_message has_newline
read_response-serialize_example =
    read_response-serialize letters (error_response "no") ((b'r' ∷ []) ∷ (newline ∷ []) ∷ [])
      (refl, refl, (λ e. cc), refl) ((λ e. cc), ((λ e. cc), tt)) refl (omega arith)
