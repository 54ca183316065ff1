-- ===== src/Controller.antt =====
-- src/scheduling_util/_controller.py: the control state machine of a scheduler. Each method holds
-- the condition's lock from its first read to its last write, so a method is one function here.
pub mod Requests
use scheduling_util_py.Prelude.{
  ℕ, String, Bool, true, false, ◌||◌, Option, none, some, if◌then◌else◌,
}

pub data SchedulerState : Type 0 where
  starting sleeping running stopping stopped : SchedulerState

pub data ResponseStatus : Type 0 where
  ok accepted busy error : ResponseStatus

-- The validated requests; all have `version` 1.
pub data ControllerRequest : Type 0 where
  status_request wake_request run_now_request quit_request : ControllerRequest

pub record SchedulerStatus : Type 0 where
  pub state : SchedulerState
  pub pending_wake : Bool
  pub pending_run_now : Bool
  pub quit_requested : Bool
  pub run_count : ℕ

pub record ControllerResponse : Type 0 where
  pub version : ℕ
  pub ok : Bool
  pub status : ResponseStatus
  pub message : String
  pub scheduler : Option SchedulerStatus

abbrev pub protocol_version : ℕ
protocol_version = 1

-- The scheduler thread and the condition variable: only this thread ever waits on it.
pub data Waiter : Type 0 where
  not_waiting waiting notified : Waiter

pub record ScheduleController : Type 0 where
  pub waiter : Waiter
  pub state : SchedulerState
  pub pending_wake : Bool
  pub pending_run_now : Bool
  pub quit_requested : Bool
  pub run_count : ℕ

pub data RunMode : Type 0 where
  normal run_now : RunMode

unfoldable pub new_controller : ScheduleController
new_controller = record {
  waiter = not_waiting;
  state = starting;
  pending_wake = false;
  pending_run_now = false;
  quit_requested = false;
  run_count = 0;
}

abbrev notified_waiter : Waiter → Waiter
notified_waiter waiting = notified
notified_waiter w = w

-- `self._condition.notify_all()`
abbrev pub notify_all : ScheduleController → ScheduleController
notify_all c = record c { waiter = notified_waiter c.waiter }

pub status : ScheduleController → SchedulerStatus
status c = record {
  state = c.state;
  pending_wake = c.pending_wake;
  pending_run_now = c.pending_run_now;
  quit_requested = c.quit_requested;
  run_count = c.run_count;
}

pub error_response : String → ControllerResponse
error_response message = record {
  version = protocol_version;
  ok = false;
  status = error;
  message = message;
  scheduler = none;
}

-- A response that carries the status of the state in which the request is answered.
abbrev respond :
    Bool → ResponseStatus → String → ScheduleController → ScheduleController × ControllerResponse
respond success kind text c = (
  c,
  record {
    version = protocol_version;
    ok = success;
    status = kind;
    message = text;
    scheduler = some (status c);
  },
)

abbrev is_running : SchedulerState → Bool
is_running running = true
is_running _ = false

request_wake : ScheduleController → ScheduleController × ControllerResponse
request_wake c =
    if c.quit_requested
    then respond false error "Scheduler is quitting." c
    else respond true accepted "Wake requested." (notify_all (record c { pending_wake = true }))

request_run_now : ScheduleController → ScheduleController × ControllerResponse
request_run_now c =
    if is_running c.state
    then respond false busy "Scheduler is already running the job." c
    else if c.quit_requested
    then respond false error "Scheduler is quitting." c
    else respond true accepted "Run requested." (notify_all (record c { pending_run_now = true }))

request_quit : ScheduleController → ScheduleController × ControllerResponse
request_quit c =
    let asked = record c { quit_requested = true } in
    let marked = if is_running c.state then asked else record asked { state = stopping } in
    respond true accepted "Quit requested." (notify_all marked)

unfoldable pub handle_request :
    ControllerRequest → ScheduleController → ScheduleController × ControllerResponse
unfolding request_wake request_run_now request_quit
handle_request status_request c = respond true ok "Scheduler status." c
handle_request wake_request c = request_wake c
handle_request run_now_request c = request_run_now c
handle_request quit_request c = request_quit c

unfoldable pub mark_running : ScheduleController → ScheduleController
mark_running c = notify_all (record c { state = running })

unfoldable pub mark_stopped : ScheduleController → ScheduleController
mark_stopped c = notify_all (record c { state = stopped })

unfoldable pub update_run_count : ℕ → ScheduleController → ScheduleController
update_run_count n c = notify_all (record c { run_count = n })

unfoldable pub take_next_run_mode : ScheduleController → ScheduleController × RunMode
take_next_run_mode c =
    if c.pending_run_now
    then (record c { pending_run_now = false; pending_wake = false }, run_now)
    else (record c { pending_wake = false }, normal)

unfoldable pub has_pending_work : ScheduleController → Bool
has_pending_work c = c.pending_wake || c.pending_run_now || c.quit_requested

-- Up to the call of `self._condition.wait`: with `waiter ≡ waiting` the call blocks.
unfoldable pub wait_for_work : ScheduleController → ScheduleController
wait_for_work c =
    if c.quit_requested
    then record c { state = stopping }
    else let asleep = notify_all (record c { state = sleeping }) in
      if c.pending_wake || c.pending_run_now then asleep else record asleep { waiter = waiting }
