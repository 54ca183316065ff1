-- ===== src/ScheduleCli/Start.antt =====
-- `schedule_cli__on_result` of src/scheduling_util/_schedule_cli.py: from the options of the command
-- line to the call of `schedule`.
pub mod Checked
use Prim.Native.String.{◌++◌ as join}
use scheduling_util_py.Prelude.{
  return, raise, error, keyboard_interrupt, system_exit, no_code, int_code, text_code, ℕ, zero, suc,
  ◌+◌, ◌-◌, ◌*◌, ◌≤◌, ◌<◌, min, String, ◌≡◌, refl, sym, ap, ◌∙◌, ◌≢◌, ◌↔◌, ◌⊎◌, inl, inr, Bool,
  true, false, not, ◌&&◌, ◌||◌, Option, none, some, List, [], ◌∷◌, ◌++◌, map, reverse, arith, ltb,
  leb, ◌==◌, if◌then◌else◌, is_some, ltb→lt, Bool-cases, length, drop, All, length-append,
  length-drop, All-append, All-every, ExitCode, Exception, Result, Action, is_exception, pure,
  throw, and_then, ◌>>=◌, ◌>>◌,
}
use scheduling_util_py.Prelude.Int.{
  ℤ, pos_part, neg_part, sub_ℕ, ◌-ℤ◌, ◌≤ℤ◌, ◌<ℤ◌, ltb_ℤ, leb_ℤ, -ℤ_parts, int_laws, pos, negsuc,
}
use scheduling_util_py.RunPredicate.{
  OnMaxFailures, RunPredicate, force_next_return_value, elapsed, report_error, predicate,
  should_run, ignore, stall, success_schedule, other_policy,
}
use scheduling_util_py.Schedule.SetUp.{
  HcArguments, ConfigFailure, given, can_ping, lasts, whole_seconds, configure_routing,
  known_choice, check_arguments, drop_managed, Metadata, configuration, wants_metadata, Stage,
  HcCall, Answer, ManageClient, SetUp, set_up, raise_failure, warn_failure, other_choice,
  check_creation, metadata_configuration, routing_configuration, create_or_update, update_metadata,
  update_routing, ping_log, answered, request_exception, value_exception, other_exception,
}
use scheduling_util_py.Schedule.Prepare.{RunArguments, create_run_predicate, last_run_path, prepare}

-- The options for the runs; durations are in microseconds.
pub record RunOptions : Type 0 where
  pub cache_dir : String
  pub reset : Bool
  pub success_period : ℤ
  pub neutral_period : ℤ
  pub failure_period : ℤ
  pub max_failures : ℤ
  pub on_max_failures : OnMaxFailures

-- The other options. `hc` has those of the health check but for the channels, which are a tuple that
-- is empty when the option is not given; `hc.channels` is not read.
pub record CliOptions : Type 0 where
  pub ping_base_url : String
  pub manage_base_url : String
  pub hc : HcArguments
  pub hc_channel : List String
  pub interval : ℤ
  pub ipc_socket_path : Option String
  pub max_runs : Option ℤ
  pub heartbeat_path : Option String
  pub runs : RunOptions
  pub slack_webhook : Option String
  pub slack_rate_limit : ℤ

-- The call of `schedule`, but for the function, with the arguments of the rate limiter for Slack.
pub record ScheduleCall : Type 0 where
  pub ping_base_url : String
  pub manage_base_url : String
  pub hc : HcArguments
  pub interval : ℤ
  pub ipc_socket_path : Option String
  pub max_runs : Option ℤ
  pub heartbeat_path : Option String
  pub runs : RunArguments
  pub slack_webhook : Option String
  pub limiter_period : ℤ
  pub limiter_path : String

-- `hc_channel or None`
abbrev pub channels_or_none : List String → Option (List String)
channels_or_none [] = none
channels_or_none (c ∷ cs) = some (c ∷ cs)

abbrev pub routing_wanted : CliOptions → Bool
routing_wanted o = is_some (channels_or_none o.hc_channel) || is_some o.hc.tags

abbrev pub usage_error : String → Exception
usage_error message = error "UsageError" message

-- The default of `max_history_entries`, which the command line leaves alone
abbrev pub default_history_entries : ℤ
default_history_entries = pos 1000

abbrev pub schedule_call : CliOptions → ScheduleCall
schedule_call o = record {
  ping_base_url = o.ping_base_url;
  manage_base_url = o.manage_base_url;
  hc = record o.hc { channels = channels_or_none o.hc_channel };
  interval = o.interval;
  ipc_socket_path = o.ipc_socket_path;
  max_runs = o.max_runs;
  heartbeat_path = o.heartbeat_path;
  runs = record {
    last_run_dir = join o.runs.cache_dir "/last_run";
    last_run_reset = o.runs.reset;
    success_period = o.runs.success_period;
    neutral_period = o.runs.neutral_period;
    failure_period = o.runs.failure_period;
    max_failures = o.runs.max_failures;
    on_max_failures = o.runs.on_max_failures;
    max_history_entries = default_history_entries;
  };
  slack_webhook = o.slack_webhook;
  limiter_period = o.slack_rate_limit;
  limiter_path = join o.runs.cache_dir "/rate_limiter/slack_errors";
}

-- `func` is what the command returned; a command of the group `control` returns None. The result is
-- the function and the call that schedules it, if there is one.
unfoldable pub on_result : {F : Type 0} → Option F → CliOptions → Result (Option (F × ScheduleCall))
on_result none o = return none
on_result (some func) o =
    if routing_wanted o && not (given o.hc.manage_key)
    then raise (usage_error "--hc-manage-key is required with --hc-channel or --hc-tags.")
    else if routing_wanted o && not (can_ping o.hc)
    then raise (
        usage_error
          "--hc-channel and --hc-tags require --hc-uuid or both --hc-ping-key and --name.")
    else return (some (func, schedule_call o))
