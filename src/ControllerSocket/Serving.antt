-- ===== src/ControllerSocket/Serving.antt =====
-- The connections that the server thread of src/scheduling_util/_controller_socket.py serves.
use scheduling_util_py.Prelude.{
  ℕ, ◌≡◌, refl, sym, Option, none, some, ap, ◌∙◌, true, List, [], ◌∷◌, ◌++◌, String, Exception,
  is_exception, Result, return, raise, arith, All, ◌>>=◌, ◌>>◌,
}
use scheduling_util_py.Controller.{ScheduleController, ControllerRequest, handle_request}
use scheduling_util_py.ControllerSocket.{
  Reading, line, empty_request, failed, SendEnd, sent, broken_pipe, send_failed, Connection, Server,
  read_request, serve_connection, serve_forever, answer_reading, handle, send_error, as_request,
  receive, request_too_large, line_or_empty, first_line,
}

module _ (strip : List ℕ → List ℕ) (parse : List ℕ → Result ControllerRequest)
    (describe : Exception → String) where
  abbrev with_request : Result ControllerRequest → List ControllerRequest → List ControllerRequest
  with_request (return r) rest = r ∷ rest
  with_request (raise e) rest = rest

  -- The requests on the connections, in their order: the first lines that the parser accepts.
  abbrev accepted_request : Reading → List ControllerRequest → List ControllerRequest
  accepted_request (line bytes) rest = with_request (parse bytes) rest
  accepted_request _ rest = rest

  abbrev pub requests : List Connection → List ControllerRequest
  requests [] = []
  requests (c ∷ cs) =
      accepted_request (read_request strip parse describe c.recv_end c.chunks) (requests cs)

  abbrev pub handle_all : List ControllerRequest → ScheduleController → ScheduleController
  handle_all [] c = c
  handle_all (r ∷ rs) c = handle_all rs (handle_request r c).0

  -- Sockets and the parser raise only what `except Exception` catches.
  abbrev pub ParsesOrErrors : Type 0
  ParsesOrErrors = (bytes : List ℕ) (e : Exception) → parse bytes ≡ raise e → is_exception e ≡ true

  -- `recv` does too, and a response is sent or meets a broken pipe.
  abbrev pub Sends : SendEnd → Type 0
  Sends (send_failed _) = ⊥
  Sends _ = Unit

  abbrev pub RecvErrors : Option Exception → Type 0
  RecvErrors none = Unit
  RecvErrors (some e) = is_exception e ≡ true

  abbrev ReadsOrErrors : Reading → Type 0
  ReadsOrErrors (failed e) = is_exception e ≡ true
  ReadsOrErrors _ = Unit

  receive-errors :
      (end : Option Exception) (chunks : List (List ℕ)) (bytes : List ℕ)
      → RecvErrors end
      → (e : Exception) → receive request_too_large end chunks bytes ≡ raise e
      → is_exception e ≡ true
  unfolding receive
  receive-errors none [] bytes ok e h = ground arith
  receive-errors (some x) [] bytes ok e h = ground arith
  receive-errors end (chunk ∷ chunks) bytes ok e h =
      ground (arith, receive-errors end chunks (bytes ++ chunk) ok e)

  error-handles :
      (end : SendEnd) (e : Exception) (s : Server)
      → Sends end
      → is_exception e ≡ true
      → ((send_error strip parse describe end e s).0 ≡ return tt)
        × ((send_error strip parse describe end e s).1.controller ≡ s.controller)
  error-handles sent e s ok x = rw x (refl, refl)
  error-handles broken_pipe e s ok x = rw x (refl, refl)
  error-handles (send_failed _) e s ok x = absurd ok

  handle-handles :
      (end : SendEnd) (r : Result ControllerRequest) (s : Server) (rest : List ControllerRequest)
      → Sends end
      → ((e : Exception) → r ≡ raise e → is_exception e ≡ true)
      → ((handle strip parse describe end r s).0 ≡ return tt)
        × (handle_all (with_request r rest) s.controller
            ≡ handle_all rest (handle strip parse describe end r s).1.controller)
  handle-handles sent (return r) s rest ok x = (refl, refl)
  handle-handles broken_pipe (return r) s rest ok x = (refl, refl)
  handle-handles (send_failed _) (return r) s rest ok x = absurd ok
  handle-handles end (raise e) s rest ok x =
      let (ends, same) = error-handles end e s ok (x e refl) in
      (ends, ap (λ c. handle_all rest c) (sym same))

  reading-handles :
      ParsesOrErrors
      → (end : SendEnd) (reading : Reading) (s : Server) (rest : List ControllerRequest) → Sends end
      → ReadsOrErrors reading
      → ((answer_reading strip parse describe end reading s).0 ≡ return tt)
        × (handle_all (accepted_request reading rest) s.controller
            ≡ handle_all rest (answer_reading strip parse describe end reading s).1.controller)
  reading-handles parses end (line bytes) s rest ok x =
      handle-handles end (parse bytes) s rest ok (parses bytes)
  reading-handles parses end empty_request s rest ok x = (refl, refl)
  reading-handles parses end (failed e) s rest ok x =
      let (ends, same) = error-handles end e s ok x in
      (ends, ap (λ c. handle_all rest c) (sym same))

  reads :
      (r : Result (List ℕ))
      → ((e : Exception) → r ≡ raise e → is_exception e ≡ true)
      → ReadsOrErrors (as_request strip parse describe r)
  reads (raise e) x = x e refl
  reads (return bytes) x = reads_line (strip (first_line bytes))
    where
      reads_line : (l : List ℕ) → ReadsOrErrors (line_or_empty strip parse describe l)
      reads_line [] = tt
      reads_line (b ∷ bs) = tt

  reads_request :
      (c : Connection)
      → RecvErrors c.recv_end
      → ReadsOrErrors (read_request strip parse describe c.recv_end c.chunks)
  unfolding read_request
  reads_request c ok =
      reads (receive request_too_large c.recv_end c.chunks [])
        (receive-errors c.recv_end c.chunks [] ok)

  abbrev pub Serves : List Connection → Type 0
  Serves cs = All (λ c. RecvErrors c.recv_end × Sends c.send_end) cs

  -- If the parser and `recv` raise only errors, and sending only a broken pipe, the server thread
  -- survives all connections, and the controller handles exactly the valid requests among their first
  -- lines, in the order of the connections; a bad request, a timeout or a client that hangs up changes
  -- nothing.
  pub serve_forever-handles :
      (connections : List Connection) (s : Server)
      → ParsesOrErrors
      → Serves connections
      → ((serve_forever strip parse describe connections s).0 ≡ return tt)
        × ((serve_forever strip parse describe connections s).1.controller
            ≡ handle_all (requests connections) s.controller)
  unfolding serve_forever serve_connection
  serve_forever-handles [] s parses ok = (refl, refl)
  serve_forever-handles (c ∷ cs) s parses ((recv, send), ok) =
      let reading = read_request strip parse describe c.recv_end c.chunks in
      let served = serve_connection strip parse describe c s in
      let (ends, same) =
        reading-handles parses c.send_end reading s (requests cs) send (reads_request c recv) in
      let (rest, then_same) = serve_forever-handles cs served.1 parses ok in
      rw (◌>>◌, ◌>>=◌, ends) (rest, then_same ∙ sym same)
