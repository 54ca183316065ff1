-- ===== src/Tests/Controls.antt =====
-- The command `control quit` against a server (src/scheduling_util/_schedule_cli.py).
use scheduling_util_py.Prelude.{return, ℕ, ◌≡◌, refl, List, [], ◌∷◌, arith}
use scheduling_util_py.Controller.{ControllerResponse, new_controller, handle_request, quit_request}
use scheduling_util_py.ControllerSocket.{newline, has_newline, serve_connection}
use scheduling_util_py.ControllerSocket.Client.{ResponseCodec, serialize_socket_message}
use scheduling_util_py.ScheduleCli.ControlCommands.{quit_command}
use scheduling_util_py.ScheduleCli.Answered.{
  RequestCodec, connection_of, served, CommandEnds, control_command-answered,
}

abbrev quitting : ControllerResponse
quitting = (handle_request quit_request new_controller).1

abbrev letter_responses : ResponseCodec
letter_responses = record {
  dump = λ r. 114 ∷ [];
  parse = λ bytes. return quitting;
  strip = λ bytes. bytes;
}

abbrev letter_requests : RequestCodec
letter_requests = record {
  dump_request = λ r. 113 ∷ [];
  parse_request = λ bytes. return quit_request;
  describe = λ e. "error";
}

abbrev asked : List (List ℕ)
asked = (113 ∷ []) ∷ (newline ∷ []) ∷ []

abbrev answered : List (List ℕ)
answered = (114 ∷ newline ∷ []) ∷ []

control_command-answered_example :
    (serve_connection
        (λ bytes. bytes)
        (λ bytes. return quit_request)
        (λ e. "error")
        (connection_of letter_responses letter_requests asked)
        (record { controller = new_controller; responses = [] })
      ≡ (return tt, served letter_responses letter_requests quit_request new_controller))
    × CommandEnds letter_responses letter_requests quit_command new_controller answered []
unfolding has_newline serialize_socket_message
control_command-answered_example =
    control_command-answered letter_responses letter_requests quit_command new_controller asked
      answered [] (refl, refl, (λ e. cc), refl) (refl, refl, (λ e. cc), refl)
      (((λ e. cc), ((λ e. cc), tt)), refl, omega arith) (((λ e. cc), tt), refl, omega arith)
