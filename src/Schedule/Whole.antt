-- ===== src/Schedule/Whole.antt =====
-- The loop of `schedule` of src/scheduling_util/_schedule.py with its real attempts; its child module
-- Call has the whole call around it.
pub mod Call
pub mod Refines
pub mod Errors
pub mod Closes
pub mod Quits
use scheduling_util_py.Prelude.{
  return, raise, keyboard_interrupt, system_exit, no_code, int_code, text_code, ℕ, zero, suc, ◌+◌,
  ◌-◌, ◌*◌, ◌≤◌, ◌<◌, min, String, ◌≡◌, refl, sym, ap, ◌∙◌, ◌≢◌, ◌↔◌, ◌⊎◌, inl, inr, Bool, true,
  false, not, ◌&&◌, ◌||◌, Option, none, some, List, [], ◌∷◌, ◌++◌, map, reverse, arith, ltb, leb,
  ◌==◌, if◌then◌else◌, is_some, ltb→lt, Bool-cases, length, drop, All, length-append, length-drop,
  All-append, All-every, ExitCode, Exception, Result, Action, is_exception, pure, throw, and_then,
  ◌>>=◌, ◌>>◌, finally, error,
}
use scheduling_util_py.Prelude.Int.{
  ℤ, pos_part, neg_part, sub_ℕ, ◌-ℤ◌, ◌≤ℤ◌, ◌<ℤ◌, ltb_ℤ, leb_ℤ, -ℤ_parts, int_laws, pos, negsuc,
}
use scheduling_util_py.LastRunHistory.{
  Platform, Disk, LastRunAttemptStarted, LastRunAttemptFinished, LastRunHistoryEntry, FileContent,
  write_file, LastRunHistory, discard_old_entries, EntryFilter, is_started, entry_at, no_filter,
  load_history_entries_from_file, refresh_from_file, persist_to_file, append, new_history,
  n_failures_since_last_success, find_last_entry, last_success, last_neutral, last_failure,
  last_finished, last_started, undecodable, no_list, json_list, begin_persist,
}
use scheduling_util_py.World.{
  World, CheckClient, Message, CheckCall, call_check, ask_history, append_history, stalled_message,
  unexpected_message, ping_success, ping_failure, ping_log, enter_check, exit_check,
}
use scheduling_util_py.Controller.{
  SchedulerState, ResponseStatus, ControllerRequest, SchedulerStatus, ControllerResponse,
  protocol_version, Waiter, ScheduleController, RunMode, new_controller, notify_all, status,
  error_response, handle_request, mark_running, mark_stopped, update_run_count, take_next_run_mode,
  has_pending_work, wait_for_work, starting, sleeping, running, stopping, stopped, ok, accepted,
  busy, status_request, wake_request, run_now_request, quit_request, not_waiting, waiting, notified,
  normal, run_now,
}
use scheduling_util_py.ControllerSocket.Lifecycle.{
  SocketServer, System, start as start_server, stop as stop_server, PathEntry, refused_platform,
  no_socket, already_accepting, absent, live_socket, stale_socket, other_file, stop_until,
}
use scheduling_util_py.SlackErrors.{
  SlackState, SlackClient, SlackBoundary, LogLine, handle_error, send_errors_to_slack, error_line,
  posting_line, limited_line,
}
use scheduling_util_py.RunPredicate.{
  RunPredicate, force_next_return_value, OnMaxFailures, elapsed, report_error, should_run, ignore,
  stall, success_schedule, other_policy,
}
use scheduling_util_py.Schedule.SetUp.{
  HcArguments, ManageClient, SetUp, set_up, can_ping, ConfigFailure, given, lasts, whole_seconds,
  configure_routing, known_choice, check_arguments, drop_managed, Metadata, configuration,
  wants_metadata, Stage, HcCall, Answer, raise_failure, warn_failure, other_choice, check_creation,
  metadata_configuration, routing_configuration, create_or_update, update_metadata, update_routing,
  answered, request_exception, value_exception, other_exception,
}
use scheduling_util_py.Schedule.Prepare.{RunArguments, prepare, create_run_predicate, last_run_path}
use scheduling_util_py.Schedule.Attempt.{
  Returned, wrapped_function, attempt as attempt_once, assess_return_value, assess_result,
  has_raised, with_check, report_outcome, report_block, hc_func, dropped, in_block, boundary,
  no_value, outcome_value, other_value,
}
use scheduling_util_py.Schedule.Loop.{
  LoopConfig, LoopPoint, AttemptEnd, LoopExit, LoopState, Move, new_loop, runs_exhausted,
  should_stop_loop, has_interval, step, run, enter, take, mark, attempt, count, recheck, pending,
  wait, blocked, leave, done, returned, interrupted, escaped, looping, broken, raised, client,
  scheduler, interrupt, unmarked,
}

-- The readings of the clock in one attempt: by the run predicate, by the wrapper, and by the limiter.
pub record Clock : Type 0 where
  pub asked : ℤ
  pub started : ℤ
  pub finished : ℤ
  pub limited : ℤ
  pub touched : ℤ

-- What happens while the loop runs: a request of a client, a step of the scheduler thread, and a
-- `KeyboardInterrupt` outside `attempt()`.
pub data Event : Type 0 where
  request : ControllerRequest → Event
  tick : Clock → (heartbeat_end : Option Exception) → (timed_out : Bool) → Event
  interruption : Event

module _ (platform : Platform) where
  -- The loop, what its attempts work on, and the exception that leaves it.
  pub record Service : Type 0 where
    pub loop : LoopState
    pub world : World platform
    pub slack : SlackState
    pub left_by : Option Exception

-- What the loop and its attempts are given.
pub record Settings : Type 0 where
  pub predicate : RunPredicate
  pub loop_config : LoopConfig
  pub slack_webhook : Option String
  pub heartbeat : Bool

-- The predicate was asked if it holds no forced value any more.
abbrev pub attempt_end : Result (Unit {0}) → Option Bool → AttemptEnd
attempt_end (return _) forced = returned
attempt_end (raise keyboard_interrupt) forced = interrupted (not (is_some forced))
attempt_end (raise e) forced = escaped (not (is_some forced))

abbrev pub error_of : Result (Unit {0}) → Option Exception → Option Exception
error_of (return _) old = old
error_of (raise keyboard_interrupt) old = old
error_of (raise e) old = some e

-- A `KeyboardInterrupt` leaves `schedule`, in place of an exception that is on its way out, unless the
-- inner `try` block catches it.
abbrev pub interrupt_error : LoopPoint → Option Exception → Option Exception
interrupt_error (mark _) old = old
interrupt_error attempt old = old
interrupt_error count old = old
interrupt_error _ old = some keyboard_interrupt

module _ (platform : Platform) (client : CheckClient) (slack : SlackClient)
    (unexpected : String → String) (describe : Exception → String)
    (func : Action (World platform) Returned) where
  -- `heartbeat_path.touch()` after the `mkdir`
  abbrev beat : Bool → Option Exception → Action (World platform × SlackState) (Unit {0})
  beat true (some e) = throw e
  beat _ _ = pure tt

  abbrev pub attempt_with :
      Settings → Clock → Option Exception → Action (World platform × SlackState) (Unit {0})
  attempt_with g c heartbeat_end =
      attempt_once platform client slack g.slack_webhook c.limited c.touched
        (beat g.heartbeat heartbeat_end)
        (wrapped_function platform client unexpected describe g.predicate c.asked c.started
          c.finished func)

  tick_at :
      Settings → Clock → Option Exception → Bool → LoopPoint → Service platform → Service platform
  tick_at g c heartbeat_end timed_out attempt s =
      let (r, (w, k)) = attempt_with g c heartbeat_end (s.world, s.slack) in
      record {
        loop = step g.loop_config (scheduler (attempt_end r w.forced) timed_out) s.loop;
        world = w;
        slack = k;
        left_by = error_of r s.left_by;
      }
  tick_at g c heartbeat_end timed_out (mark run_now) s = record s {
    loop = step g.loop_config (scheduler returned timed_out) s.loop;
    world = force_next_return_value platform true s.world;
  }
  tick_at g c heartbeat_end timed_out _ s = record s {
    loop = step g.loop_config (scheduler returned timed_out) s.loop;
  }

  pub serve_event : Settings → Event → Service platform → Service platform
  unfolding tick_at
  serve_event g (request r) s = record s { loop = step g.loop_config (Move.client r) s.loop }
  serve_event g (tick c heartbeat_end timed_out) s =
      tick_at g c heartbeat_end timed_out s.loop.point s
  serve_event g interruption s = record s {
    loop = step g.loop_config interrupt s.loop;
    left_by = interrupt_error s.loop.point s.left_by;
  }

  pub serve_events : Settings → List Event → Service platform → Service platform
  serve_events g [] s = s
  serve_events g (e ∷ es) s = serve_events g es (serve_event g e s)
