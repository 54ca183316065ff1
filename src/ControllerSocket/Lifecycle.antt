-- ===== src/ControllerSocket/Lifecycle.antt =====
-- The start and the stop of `ScheduleControllerSocketServer` in
-- src/scheduling_util/_controller_socket.py, with the path of its socket.
pub mod Ends
use scheduling_util_py.Prelude.{
  return, raise, error, keyboard_interrupt, system_exit, no_code, int_code, text_code, ℕ, zero, suc,
  ◌+◌, ◌-◌, ◌*◌, ◌≤◌, ◌<◌, min, String, ◌≡◌, refl, sym, ap, ◌∙◌, ◌≢◌, ◌↔◌, ◌⊎◌, inl, inr, Bool,
  true, false, not, ◌&&◌, ◌||◌, Option, none, some, List, [], ◌∷◌, ◌++◌, map, reverse, arith, ltb,
  leb, ◌==◌, if◌then◌else◌, is_some, ltb→lt, Bool-cases, length, drop, All, length-append,
  length-drop, All-append, All-every, ExitCode, Exception, Result, Action, is_exception, pure,
  throw, and_then, ◌>>=◌, ◌>>◌, finally,
}

-- What is at the path: nothing, a socket that accepts connections, one that does not, or another file.
pub data PathEntry : Type 0 where
  absent live_socket stale_socket other_file : PathEntry

-- `_socket`, `_thread` and `_stop_event`, and the path; `errors` counts the lines that `stop` logs.
pub record SocketServer : Type 0 where
  pub entry : PathEntry
  pub socket : Bool
  pub thread : Bool
  pub stop_event : Bool
  pub errors : ℕ

-- What the platform does: whether it has `AF_UNIX`, and how `bind`, `chmod` and `listen` end.
pub record System : Type 0 where
  pub has_unix : Bool
  pub bind_end : Option Exception
  pub chmod_end : Option Exception
  pub listen_end : Option Exception

abbrev pub refused_platform : Exception
refused_platform = error "RuntimeError" "Unix domain sockets are not supported on this platform."

abbrev pub no_socket : Exception
no_socket = error "FileExistsError" "The path exists but is not a socket."

abbrev pub already_accepting : Exception
already_accepting =
    error "RuntimeError"
      "The path is already accepting connections. Another scheduler may already be running."

abbrev set_entry : PathEntry → Action SocketServer (Unit {0})
set_entry e s = (return tt, record s { entry = e })

-- `socket_path_accepts_connections`
abbrev accepts : PathEntry → Bool
accepts live_socket = true
accepts _ = false

abbrev prepare_at : PathEntry → Action SocketServer (Unit {0})
prepare_at absent = pure tt
prepare_at other_file = throw no_socket
prepare_at e = if accepts e then throw already_accepting else set_entry absent

-- `_prepare_socket_path`
prepare_socket_path : Action SocketServer (Unit {0})
prepare_socket_path s = prepare_at s.entry s

abbrev ended : Option Exception → Action SocketServer (Unit {0})
ended none = pure tt
ended (some e) = throw e

-- `bind`, `chmod` and `listen`. Until `listen`, nobody can connect; a socket that is closed on an
-- exception leaves its path behind.
abbrev open_socket : System → Action SocketServer (Unit {0})
open_socket y =
    ended y.bind_end
    >> set_entry stale_socket
    >> ended y.chmod_end
    >> ended y.listen_end
    >> set_entry live_socket

abbrev serve : Action SocketServer (Unit {0})
serve s = (return tt, record s { socket = true; thread = true })

pub start : System → Action SocketServer (Unit {0})
unfolding prepare_socket_path
start y =
    if y.has_unix then prepare_socket_path >> open_socket y >> serve else throw refused_platform

-- Closing the socket ends its connections.
abbrev close_entry : Bool → PathEntry → PathEntry
close_entry true live_socket = stale_socket
close_entry _ e = e

-- `if self._path.exists() and stat.S_ISSOCK(…): self._path.unlink()`
abbrev unlink_socket : PathEntry → PathEntry
unlink_socket other_file = other_file
unlink_socket _ = absent

abbrev set_stop_event : SocketServer → SocketServer
set_stop_event s = record s { stop_event = true }

abbrev close_socket : SocketServer → SocketServer
close_socket s = record s { entry = close_entry s.socket s.entry; socket = false }

abbrev join_thread : (own_thread in_time : Bool) → SocketServer → SocketServer
join_thread own_thread in_time s = record s {
  thread = false;
  errors = if s.thread && not own_thread && not in_time then s.errors + 1 else s.errors;
}

abbrev unlink_path : SocketServer → SocketServer
unlink_path s = record s { entry = unlink_socket s.entry }

abbrev run_steps : ℕ → List (SocketServer → SocketServer) → SocketServer → SocketServer
run_steps zero fs s = s
run_steps (suc n) [] s = s
run_steps (suc n) (f ∷ fs) s = run_steps n fs (f s)

-- What `stop` does before an exception leaves it behind `n` of its steps.
pub stop_until : (own_thread in_time : Bool) → ℕ → SocketServer → SocketServer
stop_until own_thread in_time n s =
    run_steps n (set_stop_event ∷ close_socket ∷ join_thread own_thread in_time ∷ unlink_path ∷ [])
      s

-- `stop`; `own_thread` is whether the server thread itself calls it, and `in_time` whether the thread
-- ends within the timeout of the join.
unfoldable pub stop : (own_thread in_time : Bool) → SocketServer → SocketServer
stop own_thread in_time s = record {
  entry = unlink_socket (close_entry s.socket s.entry);
  socket = false;
  thread = false;
  stop_event = true;
  errors = if s.thread && not own_thread && not in_time then s.errors + 1 else s.errors;
}
