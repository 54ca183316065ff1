-- ===== src/ControllerSocket/Lifecycle/Ends.antt =====
-- How starting and stopping the socket server ends
-- (src/scheduling_util/_controller_socket.py).
use scheduling_util_py.Prelude.{
  return, ◌+◌, ◌≡◌, ◌≢◌, ◌↔◌, Bool, true, false, Option, none, some, arith, Exception, refl,
}
use scheduling_util_py.ControllerSocket.Lifecycle.{
  PathEntry, SocketServer, System, start, stop, absent, live_socket, stale_socket, other_file,
  stop_until,
}

-- The path can be taken: nothing is there, or a socket that nobody serves.
abbrev pub IsAvailable : PathEntry → Type 0
IsAvailable absent = Unit
IsAvailable stale_socket = Unit
IsAvailable _ = ⊥

abbrev pub Opens : System → Type 0
Opens y = (y.has_unix ≡ true) × (y.bind_end ≡ none) × (y.chmod_end ≡ none) × (y.listen_end ≡ none)

-- How starting ends, and the server then.
abbrev pub StartEnds : System → SocketServer → Type 0
StartEnds y s =
    let (r, s') = start y s in
    ((r ≡ return tt) ↔ Opens y × IsAvailable s.entry)
    × ((r ≡ return tt) → (s' ≡ record s { entry = live_socket; socket = true; thread = true }))
    × ((r ≢ return tt)
        → (s' ≡ record s { entry = s'.entry })
          × (IsAvailable s.entry ↔ IsAvailable s'.entry)
          × ((¬ IsAvailable s.entry) → s' ≡ s))

start_cases :
    (u : Bool) (b c l : Option Exception) (e : PathEntry) (s : SocketServer)
    → StartEnds
        (record { has_unix = u; bind_end = b; chmod_end = c; listen_end = l })
        (record s { entry = e })
unfolding start
start_cases false b c l e s = ground arith
start_cases true b c l live_socket s = ground arith
start_cases true b c l other_file s = ground arith
start_cases true (some x) c l absent s = ground arith
start_cases true none (some x) l absent s = ground arith
start_cases true none none (some x) absent s = ground arith
start_cases true none none none absent s = ground arith
start_cases true (some x) c l stale_socket s = ground arith
start_cases true none (some x) l stale_socket s = ground arith
start_cases true none none (some x) stale_socket s = ground arith
start_cases true none none none stale_socket s = ground arith

-- Starting returns just when the platform opens the socket and the path is available; then the path
-- accepts connections and the thread serves it. Where it raises, all but the
-- path is as it was, a path that is not available is too, and one that is available stays available.
pub start_lem : (y : System) (s : SocketServer) → StartEnds y s
start_lem y s = start_cases y.has_unix y.bind_end y.chmod_end y.listen_end s.entry s

-- What a started server leaves behind when it is stopped: no socket at its path, so that the path is
-- available again, no thread, and an error in the log just when the thread was joined and did not end
-- in time.
start-stop :
    (y : System) (s : SocketServer) (own_thread in_time : Bool)
    → (start y s).0 ≡ return tt
    → let s' = stop own_thread in_time (start y s).1 in
      (s'.entry ≡ absent)
      × (s'.socket ≡ false)
      × (s'.thread ≡ false)
      × ((s'.errors ≡ s.errors + 1) ↔ (own_thread ≡ false) × (in_time ≡ false))
unfolding stop
start-stop y s own_thread in_time e = rw ((start_lem y s).1 e) (ground arith)

-- All steps of the stop together are the stop.
stop_until-stop :
    (own_thread in_time : Bool) (s : SocketServer)
    → stop_until own_thread in_time 4 s ≡ stop own_thread in_time s
unfolding stop_until stop
stop_until-stop own_thread in_time s = refl
