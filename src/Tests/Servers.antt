-- ===== src/Tests/Servers.antt =====
-- A start of the socket server on a path that an earlier one left behind
-- (src/scheduling_util/_controller_socket.py).
use scheduling_util_py.Prelude.{ℕ, ◌≡◌, refl, true, false, none, some, arith}
use scheduling_util_py.ControllerSocket.Lifecycle.{SocketServer, System, stale_socket}
use scheduling_util_py.ControllerSocket.Starting.{
  System as Processes, Step, Steps, start_system, outside, checking, probing, unlinking, binding,
  bound, ready, serving, call, socket_there, refused, unlink, bind, chmod, listen, run, stay, step,
}
use scheduling_util_py.ControllerSocket.Starting.Race.{starts_exclude, starts_race}
use scheduling_util_py.ControllerSocket.Lifecycle.Ends.{StartEnds, start_lem}

abbrev left_behind : SocketServer
left_behind = record {
  entry = stale_socket;
  socket = false;
  thread = false;
  stop_event = false;
  errors = 0;
}

abbrev working : System
working = record { has_unix = true; bind_end = none; chmod_end = none; listen_end = none }

start_lem_example : StartEnds working left_behind
start_lem_example = start_lem working left_behind

infixl 4 ◌▸◌
abbrev ◌▸◌ : {s t u : Processes} → Steps false s t → Step false t u → Steps false s u
r ▸ st = step r st

one_started : (s : Processes) × Steps false (start_system (some 7)) s × (s.stages 0 ≡ serving)
one_started = (
  _,
  stay
      ▸ run 0 {p = outside} refl call (λ _ _ _ j ne. refl)
      ▸ run 0 {p = checking} refl (socket_there {k = 7} refl) (λ _ f. absurd (ground arith))
      ▸ run 0 {p = probing} refl (refused {k = 7} refl refl) (λ _ f. absurd (ground arith))
      ▸ run 0 {p = unlinking} refl (unlink {k = 7} refl) (λ _ f. absurd (ground arith))
      ▸ run 0 {p = binding} refl (bind refl) (λ _ f. absurd (ground arith))
      ▸ run 0 {p = bound} refl (chmod {k = 0} refl) (λ _ f. absurd (ground arith))
      ▸ run 0 {p = ready} refl listen (λ _ f. absurd (ground arith)),
  refl,
)

starts_exclude_example :
    (one_started.0.network.entry ≡ some 0)
    × (one_started.0.network.listening 0 ≡ true)
    × ((j : ℕ) → one_started.0.stages j ≡ serving → 0 ≡ j)
starts_exclude_example = starts_exclude (some 7) one_started.1 0 one_started.2

starts_race_example :
    (s : Processes) × Steps true (start_system none) s
    × (s.stages 0 ≡ serving)
    × (s.stages 1 ≡ serving)
    × (s.network.entry ≡ some 1)
starts_race_example = starts_race 0 1 λ e. absurd (omega (arith, e))
