-- ===== src/Tests/Wholes.antt =====
-- Whole calls of `schedule`, and servers that start at the same time.
use scheduling_util_py.Prelude.{
  raise, error, String, ◌≡◌, refl, Bool, true, false, Option, none, some, List, [], ◌∷◌, ◌++◌,
  arith, is_some, Exception, Action,
}
use scheduling_util_py.Prelude.Int.{ℤ, pos}
use scheduling_util_py.LastRunHistory.{Disk, LastRunHistoryEntry}
use scheduling_util_py.World.{World}
use scheduling_util_py.Controller.{quit_request}
use scheduling_util_py.ControllerSocket.Lifecycle.{SocketServer, System, absent}
use scheduling_util_py.SlackErrors.{SlackState, SlackClient}
use scheduling_util_py.RunPredicate.{stall}
use scheduling_util_py.Schedule.SetUp.{raise_failure, ManageClient, answered}
use scheduling_util_py.Schedule.Attempt.{Returned}
use scheduling_util_py.Schedule.Loop.{Move, new_loop, run}
use scheduling_util_py.Schedule.Loop.Progress.{ticks}
use scheduling_util_py.Schedule.Whole.{Clock, Event, Service, Settings, serve_events, request, tick}
use scheduling_util_py.Schedule.Whole.Call.{Arguments, Scheduled, settings_of, schedule}
use scheduling_util_py.Schedule.Whole.Refines.{serve_events-Refines}
use scheduling_util_py.Schedule.Whole.Closes.{Closes, schedule-Closes}
use scheduling_util_py.Schedule.Whole.Quits.{schedule-quit_ends}
use scheduling_util_py.Tests.Samples.{utc, world_with, quiet_client, policy}

abbrev silent_slack : SlackClient
silent_slack posts = none

abbrev slack_state : SlackState
slack_state = record {
  limiter = record { minimum_period = pos 3600; path = none; timestamp = pos 0 };
  files = λ p. none;
  posts = [];
  log = [];
}

abbrev same_text : String → String
same_text s = s

abbrev raised_text : Exception → String
raised_text e = "raised"

abbrev failing_job : Action (World utc) Returned
failing_job w = (raise (error "ValueError" "mistake"), w)

abbrev no_directory : String → Bool
no_directory p = false

abbrev giving_uuid : ManageClient
giving_uuid calls = answered (some "u")

abbrev platform_works : System
platform_works = record { has_unix = true; bind_end = none; chmod_end = none; listen_end = none }

abbrev no_server : SocketServer
no_server = record {
  entry = absent;
  socket = false;
  thread = false;
  stop_event = false;
  errors = 0;
}

abbrev empty_disk : Disk (Option LastRunHistoryEntry)
empty_disk p = none

abbrev call_arguments : Arguments
call_arguments = record {
  hc = record {
    ping_key = some "p";
    manage_key = none;
    name = some "job";
    uuid = none;
    description = none;
    timeout = none;
    grace = none;
    channels = none;
    tags = none;
    config_failure = raise_failure;
  };
  runs = record {
    last_run_dir = "last_run";
    last_run_reset = false;
    success_period = pos 60;
    neutral_period = pos 60;
    failure_period = pos 60;
    max_failures = pos 3;
    on_max_failures = stall;
    max_history_entries = pos 1000;
  };
  max_runs = none;
  interval = pos 1000000;
  ipc = true;
  heartbeat = true;
  slack_webhook = none;
}

abbrev clock_at : ℤ → Clock
clock_at t = record { asked = t; started = t; finished = t; limited = t; touched = t }

abbrev tick_at_100 : Event
tick_at_100 = tick (clock_at (pos 100)) none false

abbrev six_ticks : List Event
six_ticks = tick_at_100 ∷ tick_at_100 ∷ tick_at_100 ∷ tick_at_100 ∷ tick_at_100 ∷ tick_at_100 ∷ []

abbrev two_ticks : List Event
two_ticks = tick_at_100 ∷ tick_at_100 ∷ []

abbrev whole : List Event → Scheduled utc
whole =
    schedule utc quiet_client silent_slack same_text raised_text failing_job giving_uuid
      no_directory platform_works true none call_arguments "id" empty_disk slack_state no_server

schedule-quit_ends_example :
    is_some (whole (two_ticks ++ request quit_request ∷ six_ticks)).result ≡ true
schedule-quit_ends_example =
    schedule-quit_ends utc quiet_client silent_slack same_text raised_text failing_job giving_uuid
      no_directory platform_works true none call_arguments "id" empty_disk slack_state no_server
      two_ticks six_ticks (omega arith)

schedule-Closes_example : Closes utc true none no_server (whole two_ticks) (whole two_ticks).service
schedule-Closes_example =
    schedule-Closes utc quiet_client silent_slack same_text raised_text failing_job giving_uuid
      no_directory platform_works true none call_arguments "id" empty_disk slack_state no_server
      two_ticks

abbrev job_settings : Settings
job_settings = settings_of call_arguments (policy stall)

abbrev job_run : Service utc
job_run =
    serve_events utc quiet_client silent_slack same_text raised_text failing_job job_settings
      six_ticks
      (record { loop = new_loop; world = world_with []; slack = slack_state; left_by = none })

serve_events-Refines_example :
    (ms : List Move) × (job_run.loop ≡ run job_settings.loop_config ms new_loop)
    × (ticks ms ≡ 6)
    × (job_run.world.forced ≡ job_run.loop.forced)
serve_events-Refines_example =
    serve_events-Refines utc quiet_client silent_slack same_text raised_text failing_job
      job_settings six_ticks (world_with []) slack_state (λ w. refl) refl
