-- ===== src/Schedule/Whole/Closes.antt =====
-- How a call of `schedule` in src/scheduling_util/_schedule.py ends, and what it leaves behind.
use mathlib.Core.Path.{subst}
use scheduling_util_py.Prelude.{
  return, raise, keyboard_interrupt, ℕ, String, ◌≡◌, refl, sym, ◌≢◌, ◌↔◌, ◌⊎◌, Bool, true, false,
  Option, none, some, List, [], arith, is_some, Exception, Result, Action,
}
use scheduling_util_py.LastRunHistory.{Platform, Disk}
use scheduling_util_py.World.{World, CheckClient}
use scheduling_util_py.Controller.{stopping, stopped}
use scheduling_util_py.ControllerSocket.Lifecycle.{
  SocketServer, System, absent, live_socket, start as start_server, stop as stop_server,
}
use scheduling_util_py.ControllerSocket.Lifecycle.Ends.{IsAvailable, start_lem}
use scheduling_util_py.SlackErrors.{SlackState, SlackClient}
use scheduling_util_py.Schedule.Attempt.{Returned}
use scheduling_util_py.Schedule.Loop.{
  LoopConfig, LoopState, Move, new_loop, run, done, raised, unmarked,
}
use scheduling_util_py.Schedule.Loop.Invariant.{new_loop-Inv}
use scheduling_util_py.Schedule.Loop.Service.{run_done-Ended}
use scheduling_util_py.Schedule.SetUp.{set_up as run_set_up, SetUp, ManageClient, HcCall, can_ping}
use scheduling_util_py.Schedule.Prepare.{prepare}
use scheduling_util_py.Schedule.SetUp.{can_ping}
use scheduling_util_py.RunPredicate.{RunPredicate}
use scheduling_util_py.Schedule.Whole.{Event, Service, serve_events}
use scheduling_util_py.Schedule.Whole.Call.{
  Arguments, Scheduled, settings_of, result_of, at_done, start_control, new_service, finish,
  schedule, serve, begin, after_set_up,
}
use scheduling_util_py.Schedule.Whole.Refines.{serve_events-run}
use scheduling_util_py.Schedule.Whole.Errors.{is_raised, HasError, serve_events-HasError}

abbrev Told : LoopState → Type 0
Told l = (l.exit ≡ unmarked) ⊎ (l.controller.state ≡ stopped) ⊎ (l.controller.state ≡ stopping)

module _ (platform : Platform) where
  -- What a call that was refused leaves, and one that came to its loop: the server `v` from before.
  abbrev Refused : SocketServer → Scheduled platform → Type 0
  Refused v o =
      ((e : Exception) × (o.result ≡ some (raise e)))
      × (o.server ≡ record v { entry = o.server.entry })
      × (IsAvailable v.entry ↔ IsAvailable o.server.entry)

  -- How the call ended once the loop did: `cut` is a `KeyboardInterrupt` in the stop of the server.
  abbrev Ended : Bool → Option ℕ → Scheduled platform → Option Exception → Type 0
  Ended true (some n) o left_by = o.result ≡ some (raise keyboard_interrupt)
  Ended true none o left_by =
      (o.result ≡ some (result_of left_by))
      × (o.server.entry ≡ absent)
      × (o.server.socket ≡ false)
      × (o.server.thread ≡ false)
  Ended false cut o left_by = o.result ≡ some (result_of left_by)

  abbrev Entered : Bool → Option ℕ → SocketServer → Scheduled platform → Service platform → Type 0
  Entered ipc cut v o s =
      ((s.loop.point ≡ done) ↔ (is_some o.result ≡ true))
      × (s.loop.point ≡ done
          → Ended ipc cut o s.left_by
            × ((s.left_by ≡ none) ↔ (s.loop.exit ≢ raised) × (s.loop.exit ≢ unmarked))
            × Told s.loop)
      × (s.loop.point ≢ done
          → ipc ≡ true
          → (o.server ≡ record v { entry = live_socket; socket = true; thread = true }))
      × (ipc ≡ false → o.server ≡ v)

  -- How the control server was started.
  abbrev Started : Bool → SocketServer → Result (Unit {0}) × SocketServer → Type 0
  Started ipc v (raise e, v') =
      (v' ≡ record v { entry = v'.entry }) × (IsAvailable v.entry ↔ IsAvailable v'.entry)
  Started false v (return _, v') = v' ≡ v
  Started true v (return _, v') =
      v' ≡ record v { entry = live_socket; socket = true; thread = true }

  abbrev pub Closes :
      Bool → Option ℕ → SocketServer → Scheduled platform → Option (Service platform) → Type 0
  Closes ipc cut v o none = Refused v o
  Closes ipc cut v o (some s) = Entered ipc cut v o s

  module _ (client : CheckClient) (slack : SlackClient) (unexpected : String → String)
      (describe : Exception → String) (func : Action (World platform) Returned)
      (manage : ManageClient) (is_directory : String → Bool) (system : System) (in_time : Bool)
      (cut : Option ℕ) where
    ended-Started :
        (v : SocketServer) (x : Result (Unit {0}) × SocketServer)
        → (x.0 ≡ return tt → x.1 ≡ record v { entry = live_socket; socket = true; thread = true })
        → (x.0 ≢ return tt
            → (x.1 ≡ record v { entry = x.1.entry })
              × (IsAvailable v.entry ↔ IsAvailable x.1.entry))
        → Started true v x
    ended-Started v (return _, v') opened bad = opened refl
    ended-Started v (raise e, v') opened bad = bad (ground arith)

    new_exit : is_raised (new_loop.exit) ≡ false
    unfolding new_loop
    new_exit = refl

    start_control-Started :
        (ipc : Bool) (v : SocketServer) → Started ipc v (start_control system ipc v)
    start_control-Started false v = refl
    start_control-Started true v =
        let (_, opened, bad) = start_lem system v in
        ended-Started v (start_server system v) opened λ ne. ((bad ne).0, (bad ne).1)

    abbrev ended_schedule :
        Arguments
        → String
        → Disk (Platform.Json platform)
        → SlackState
        → SocketServer
        → List Event
        → Scheduled platform
    ended_schedule =
        schedule platform client slack unexpected describe func manage is_directory system in_time
          cut

    run-Told :
        (cfg : LoopConfig) (ms : List Move)
        → (run cfg ms new_loop).point ≡ done
        → Told (run cfg ms new_loop)
    run-Told cfg ms e = let reported = (run_done-Ended cfg ms e).reported in ground arith

    finish-Entered :
        (ipc : Bool) (calls : List HcCall) (v v' : SocketServer) (s : Service platform) (b : Bool)
        → at_done s.loop.point ≡ b
        → HasError platform client slack unexpected describe func s
        → (s.loop.point ≡ done → Told s.loop)
        → Started ipc v (return tt, v')
        → Entered ipc cut v
            (finish platform client slack unexpected describe func manage is_directory system
              in_time cut ipc calls v' s)
            s
    unfolding stop_server
    finish-Entered false calls v v' s true at errs told up = ground arith
    finish-Entered false calls v v' s false at errs told up = ground arith
    finish-Entered true calls v v' s true at errs told up = elim cut [
      | none ↦ ground arith
      | some n ↦ ground arith
    ]
    finish-Entered true calls v v' s false at errs told up = ground arith

    serve-Closes :
        (a : Arguments) (k : SlackState) (es : List Event) (calls : List HcCall) (p : RunPredicate)
        (w : World platform) (v : SocketServer) (x : Result (Unit {0}) × SocketServer)
        → Started a.ipc v x
        → let o =
            serve platform client slack unexpected describe func manage is_directory system in_time
              cut a k es calls p w x in
          Closes a.ipc cut v o o.service
    serve-Closes a k es calls p w v (raise e, v') up = ((e, refl), up.0, up.1)
    serve-Closes a k es calls p w v (return x, v') up =
        let s =
          serve_events platform client slack unexpected describe func (settings_of a p) es
            (new_service platform w k) in
        finish-Entered a.ipc calls v v' s (at_done s.loop.point) refl
          (serve_events-HasError platform client slack unexpected describe func (settings_of a p) es
            (new_service platform w k) (new_loop-Inv (settings_of a p).loop_config) (sym new_exit))
          (subst (λ (l : LoopState). l.point ≡ done → Told l)
            (sym (
              serve_events-run platform client slack unexpected describe func (settings_of a p) es
                (new_service platform w k)))
            (run-Told (settings_of a p).loop_config _))
          up

    begin-Closes :
        (a : Arguments) (k : SlackState) (v : SocketServer) (es : List Event) (calls : List HcCall)
        (r : Result (RunPredicate × World platform))
        → let o =
            begin platform client slack unexpected describe func manage is_directory system in_time
              cut a k v es calls r in
          Closes a.ipc cut v o o.service
    begin-Closes a k v es calls (raise e) = ((e, refl), refl, ground arith)
    begin-Closes a k v es calls (return (p, w)) =
        serve-Closes a k es calls p w v (start_control system a.ipc v)
          (start_control-Started a.ipc v)

    set_up-Closes :
        (a : Arguments) (uuid : String) (disk : Disk (Platform.Json platform)) (k : SlackState)
        (v : SocketServer) (es : List Event) (r : Result (Unit {0}) × SetUp)
        → let o =
            after_set_up platform client slack unexpected describe func manage is_directory system
              in_time cut a uuid disk k v es r in
          Closes a.ipc cut v o o.service
    set_up-Closes a uuid disk k v es (raise e, u) = ((e, refl), refl, ground arith)
    set_up-Closes a uuid disk k v es (return x, u) =
        begin-Closes a k v es u.calls
          (prepare platform is_directory a.runs a.hc.name (can_ping a.hc) uuid disk)

    -- A call of `schedule` that does not come to its loop ends by an exception, with the control server
    -- as it was but for the path, which can be taken just if it could before. One that comes to its loop
    -- ends just when the loop does: by a `KeyboardInterrupt` if one cut the stop of a control server
    -- short; otherwise by the exception that left the loop, if one did, and by returning if not, and then
    -- a control server is stopped and its socket gone. The controller says that it is stopped or
    -- stopping, unless a `KeyboardInterrupt` in the `finally` block kept `mark_stopped` from being
    -- called. Until the loop ends nobody stops the control server: it is as its start left it, with its
    -- socket open at the path. Without a path there is no server to start or to stop.
    pub schedule-Closes :
        (a : Arguments) (uuid : String) (disk : Disk (Platform.Json platform)) (k : SlackState)
        (v : SocketServer) (es : List Event)
        → let o = ended_schedule a uuid disk k v es in Closes a.ipc cut v o o.service
    unfolding schedule
    schedule-Closes a uuid disk k v es =
        set_up-Closes a uuid disk k v es
          (run_set_up manage a.hc (record { check_uuid = none; calls = [] }))
