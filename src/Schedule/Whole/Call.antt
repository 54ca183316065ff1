-- ===== src/Schedule/Whole/Call.antt =====
-- `schedule` of src/scheduling_util/_schedule.py from its start to its end: the set-up, the run
-- predicate and the history, the control server, and the loop.
use scheduling_util_py.Prelude.{
  return, raise, keyboard_interrupt, ℕ, String, Bool, true, false, Option, none, some, List, [],
  if◌then◌else◌, Exception, Result, Action, pure,
}
use scheduling_util_py.Prelude.Int.{ℤ}
use scheduling_util_py.LastRunHistory.{Platform, Disk}
use scheduling_util_py.World.{World, CheckClient}
use scheduling_util_py.ControllerSocket.Lifecycle.{
  SocketServer, System, start as start_server, stop as stop_server, stop_until,
}
use scheduling_util_py.SlackErrors.{SlackState, SlackClient}
use scheduling_util_py.RunPredicate.{RunPredicate}
use scheduling_util_py.Schedule.SetUp.{HcArguments, ManageClient, SetUp, set_up, can_ping, HcCall}
use scheduling_util_py.Schedule.Prepare.{RunArguments, prepare}
use scheduling_util_py.Schedule.Attempt.{Returned}
use scheduling_util_py.Schedule.Loop.{LoopPoint, new_loop, done}
use scheduling_util_py.Schedule.Whole.{Event, Service, Settings, serve_events}

-- The arguments of `schedule` but for the function and the limiter; `ipc` is whether there is an
-- `ipc_socket_path`, and `heartbeat` whether there is a `heartbeat_path`.
pub record Arguments : Type 0 where
  pub hc : HcArguments
  pub runs : RunArguments
  pub max_runs : Option ℤ
  pub interval : ℤ
  pub ipc : Bool
  pub heartbeat : Bool
  pub slack_webhook : Option String

module _ (platform : Platform) where
  -- How far a call of `schedule` came: the requests of the set-up, the control server, the loop if it
  -- was entered, and how the call ended, if it did.
  pub record Scheduled : Type 0 where
    pub calls : List HcCall
    pub server : SocketServer
    pub service : Option (Service platform)
    pub result : Option (Result (Unit {0}))

  abbrev pub new_service : World platform → SlackState → Service platform
  new_service w k = record { loop = new_loop; world = w; slack = k; left_by = none }

abbrev pub settings_of : Arguments → RunPredicate → Settings
settings_of a p = record {
  predicate = p;
  loop_config = record { max_runs = a.max_runs; interval = some a.interval };
  slack_webhook = a.slack_webhook;
  heartbeat = a.heartbeat;
}

abbrev pub result_of : Option Exception → Result (Unit {0})
result_of none = return tt
result_of (some e) = raise e

abbrev pub at_done : LoopPoint → Bool
at_done done = true
at_done _ = false

-- `with control_server:`, where the server is a `nullcontext` without a path
abbrev pub start_control : System → Bool → Action SocketServer (Unit {0})
start_control y false = pure tt
start_control y true = start_server y

-- A `KeyboardInterrupt` may come behind some steps of the stop, and is then passed on.
abbrev pub stop_control : (ipc in_time : Bool) → Option ℕ → SocketServer → SocketServer
stop_control false in_time cut v = v
stop_control true in_time none v = stop_server false in_time v
stop_control true in_time (some n) v = stop_until false in_time n v

abbrev pub stop_error : (ipc : Bool) → Option ℕ → Option Exception → Option Exception
stop_error true (some n) old = some keyboard_interrupt
stop_error _ _ old = old

module _ (platform : Platform) (client : CheckClient) (slack : SlackClient)
    (unexpected : String → String) (describe : Exception → String)
    (func : Action (World platform) Returned) (manage : ManageClient) (is_directory : String → Bool)
    (system : System) (in_time : Bool) (cut : Option ℕ) where
  -- The control server outlives the loop. `in_time` and `cut` say how its stop goes.
  abbrev pub finish : Bool → List HcCall → SocketServer → Service platform → Scheduled platform
  finish ipc calls v s =
      let ended = at_done s.loop.point in
      record {
        calls = calls;
        server = if ended then stop_control ipc in_time cut v else v;
        service = some s;
        result = if ended then some (result_of (stop_error ipc cut s.left_by)) else none;
      }

  abbrev pub refused : List HcCall → SocketServer → Exception → Scheduled platform
  refused calls v e = record { calls = calls; server = v; service = none; result = some (raise e) }

  abbrev pub serve :
      Arguments
      → SlackState
      → List Event
      → List HcCall
      → RunPredicate
      → World platform
      → Result (Unit {0}) × SocketServer
      → Scheduled platform
  serve a k es calls p w (raise e, v) = refused calls v e
  serve a k es calls p w (return _, v) = finish a.ipc calls v (
      serve_events platform client slack unexpected describe func (settings_of a p) es
        (new_service platform w k))

  abbrev pub begin :
      Arguments
      → SlackState
      → SocketServer
      → List Event
      → List HcCall
      → Result (RunPredicate × World platform)
      → Scheduled platform
  begin a k v es calls (raise e) = refused calls v e
  begin a k v es calls (return (p, w)) = serve a k es calls p w (start_control system a.ipc v)

  abbrev pub after_set_up :
      Arguments
      → String
      → Disk (Platform.Json platform)
      → SlackState
      → SocketServer
      → List Event
      → Result (Unit {0}) × SetUp
      → Scheduled platform
  after_set_up a uuid disk k v es (raise e, u) = refused u.calls v e
  after_set_up a uuid disk k v es (return _, u) =
      begin a k v es u.calls
        (prepare platform is_directory a.runs a.hc.name (can_ping a.hc) uuid disk)

  -- `uuid` names the history of a task without a name.
  unfoldable pub schedule :
      Arguments
      → String
      → Disk (Platform.Json platform)
      → SlackState
      → SocketServer
      → List Event
      → Scheduled platform
  schedule a uuid disk k v es =
      after_set_up a uuid disk k v es
        (set_up manage a.hc (record { check_uuid = none; calls = [] }))
