-- ===== src/ScheduleCli/Options.antt =====
-- The options of the group `schedule_cli` in src/scheduling_util/_schedule_cli.py, without their help
-- texts, and the values that `schedule_cli__on_result` gets of them.
pub mod Accepted
use text.Mathlib.Text.{◌==◌ as str_eq}
use scheduling_util_py.Prelude.{
  ℕ, Exception, error, Result, return, raise, String, Option, none, some, List, [], ◌∷◌, Bool, true,
  false, if◌then◌else◌, keyboard_interrupt, system_exit, no_code, int_code, text_code, zero, suc,
  ◌+◌, ◌-◌, ◌*◌, ◌≤◌, ◌<◌, min, ◌≡◌, refl, sym, ap, ◌∙◌, ◌≢◌, ◌↔◌, ◌⊎◌, inl, inr, not, ◌&&◌, ◌||◌,
  ◌++◌, map, reverse, arith, ltb, leb, ◌==◌, is_some, ltb→lt, Bool-cases, length, drop, All,
  length-append, length-drop, All-append, All-every, ExitCode, Action, is_exception, pure, throw,
  and_then, ◌>>◌, finally,
}
use scheduling_util_py.Prelude.Int.{
  ℤ, pos_part, neg_part, sub_ℕ, ◌-ℤ◌, ◌≤ℤ◌, ◌<ℤ◌, ltb_ℤ, leb_ℤ, -ℤ_parts, int_laws, pos, negsuc,
}
use scheduling_util_py.RunPredicate.{
  OnMaxFailures, ignore, stall, success_schedule, other_policy, RunPredicate,
  force_next_return_value, elapsed, report_error, predicate, should_run,
}
use scheduling_util_py.Schedule.SetUp.{
  HcArguments, ConfigFailure, raise_failure, warn_failure, other_choice, HcArguments, given, lasts,
  whole_seconds, configure_routing, can_ping, known_choice, check_arguments, drop_managed, Metadata,
  configuration, wants_metadata, Stage, HcCall, Answer, ManageClient, SetUp, set_up, check_creation,
  metadata_configuration, routing_configuration, create_or_update, update_metadata, update_routing,
  ping_log, answered, request_exception, value_exception, other_exception,
}
use scheduling_util_py.ClickOptions.Declared.{
  OptionType, ClickOption, plain, with_default, level_names, click_type__log_level,
  click_option__log_level, get_default_cache_dir, click_option__cache_dir,
  click_option__hc_ping_base_url, click_option__hc_manage_base_url, click_option__hc_ping_key,
  click_option__hc_manage_key, click_option__hc_timeout, click_option__hc_grace,
  click_option__hc_uuid, click_option__heartbeat_path, click_option__hc_channel,
  click_option__hc_tags, Click, split_envvar_value, In, IsClick, text_type, integer_type,
  duration_type, file_type, directory_type, choice_type, flag_type, channel_type,
}
use scheduling_util_py.ScheduleCli.Start.{
  RunOptions, CliOptions, ScheduleCall, usage_error, on_result, RunOptions, channels_or_none,
  routing_wanted, default_history_entries, schedule_call,
}

abbrev pub hc_config_failure : ClickOption
hc_config_failure =
    with_default "--hc-config-failure" (choice_type ("raise" ∷ "warn" ∷ []) true) "raise"

abbrev pub interval : ClickOption
interval = with_default "--interval" duration_type "1m"

abbrev pub ipc_socket : ClickOption
ipc_socket = plain "--ipc-socket" file_type

abbrev pub max_runs : ClickOption
max_runs = plain "--max-runs" integer_type

abbrev pub task_name : ClickOption
task_name = plain "--name" text_type

abbrev pub description : ClickOption
description = plain "--description" text_type

abbrev pub success_period : ClickOption
success_period = with_default "--success-period" duration_type "1d"

abbrev pub neutral_period : ClickOption
neutral_period = with_default "--neutral-period" duration_type "1d"

abbrev pub failure_period : ClickOption
failure_period = with_default "--failure-period" duration_type "1d"

abbrev pub max_failures : ClickOption
max_failures = with_default "--max-failures" integer_type "3"

abbrev pub on_max_failures : ClickOption
on_max_failures =
    with_default "--on-max-failures"
      (choice_type ("ignore" ∷ "stall" ∷ "success_schedule" ∷ []) true) "stall"

abbrev pub slack_webhook : ClickOption
slack_webhook = plain "--slack-webhook" text_type

abbrev pub slack_rate_limit : ClickOption
slack_rate_limit = with_default "--slack-rate-limit" duration_type "1h"

abbrev pub reset : ClickOption
reset = plain "--reset" flag_type

-- The choices as the parameters of `schedule` take them.
abbrev pub config_failure_of : String → ConfigFailure
config_failure_of value =
    if str_eq value "raise"
    then raise_failure
    else if str_eq value "warn"
    then warn_failure
    else other_choice value

abbrev pub policy_of : String → OnMaxFailures
policy_of value =
    if str_eq value "ignore"
    then ignore
    else if str_eq value "stall"
    then stall
    else if str_eq value "success_schedule"
    then success_schedule
    else other_policy value

module _ {A B : Type 0} where
  infixl 5 ◌>>=◌
  abbrev pub ◌>>=◌ : Result A → (A → Result B) → Result B
  return a >>= f = f a
  raise e >>= f = raise e

module _ (click : Click) where
  open click use {CommandLine, text, texts, integer, duration, is_set}

  abbrev the : ClickOption → Option String → Result String
  the o (some value) = return value
  the o none = raise (usage_error o.flag)

  abbrev text_of : ClickOption → CommandLine → Result String
  text_of o line = text o line >>= the o

  abbrev optional : {A : Type 0} → (String → Result A) → Option String → Result (Option A)
  optional convert none = return none
  optional convert (some value) = convert value >>= λ a. return (some a)

  abbrev integer_of : ClickOption → CommandLine → Result ℤ
  integer_of o line = text_of o line >>= integer

  abbrev duration_of : ClickOption → CommandLine → Result ℤ
  duration_of o line = text_of o line >>= duration

  abbrev pub config_failure : CommandLine → Result ConfigFailure
  config_failure line = text_of hc_config_failure line >>= λ value. return (config_failure_of value)

  abbrev pub policy : CommandLine → Result OnMaxFailures
  policy line = text_of on_max_failures line >>= λ value. return (policy_of value)

  -- The keyword arguments of `schedule_cli__on_result`, in three groups.
  hc_rest : CommandLine → ConfigFailure → Result HcArguments
  hc_rest line failure = do
    ping_key ← text click_option__hc_ping_key line
    manage_key ← text click_option__hc_manage_key line
    uuid ← text click_option__hc_uuid line
    timeout ← text click_option__hc_timeout line >>= optional duration
    grace ← text click_option__hc_grace line >>= optional duration
    tags ← text click_option__hc_tags line
    named ← text task_name line
    described ← text description line
    return (record {
      ping_key = ping_key;
      manage_key = manage_key;
      name = named;
      uuid = uuid;
      description = described;
      timeout = timeout;
      grace = grace;
      channels = none;
      tags = tags;
      config_failure = failure;
    })

  hc_options : CommandLine → Result HcArguments
  unfolding hc_rest
  hc_options line = config_failure line >>= hc_rest line

  run_rest : (platform home : String) → CommandLine → OnMaxFailures → Result RunOptions
  run_rest platform home line failing = do
    cache ← text_of (click_option__cache_dir platform home) line
    succeeded ← duration_of success_period line
    neutral ← duration_of neutral_period line
    failed ← duration_of failure_period line
    failures ← integer_of max_failures line
    return (record {
      cache_dir = cache;
      reset = is_set reset line;
      success_period = succeeded;
      neutral_period = neutral;
      failure_period = failed;
      max_failures = failures;
      on_max_failures = failing;
    })

  run_options : (platform home : String) → CommandLine → Result RunOptions
  unfolding run_rest
  run_options platform home line = policy line >>= run_rest platform home line

  cli_rest : CommandLine → HcArguments → RunOptions → Result CliOptions
  cli_rest line checked scheduled = do
    channels ← texts click_option__hc_channel line
    ping_base_url ← text_of click_option__hc_ping_base_url line
    manage_base_url ← text_of click_option__hc_manage_base_url line
    pause ← duration_of interval line
    socket ← text ipc_socket line
    runs ← text max_runs line >>= optional integer
    heartbeat ← text click_option__heartbeat_path line
    webhook ← text slack_webhook line
    limit ← duration_of slack_rate_limit line
    return (record {
      ping_base_url = ping_base_url;
      manage_base_url = manage_base_url;
      hc = checked;
      hc_channel = channels;
      interval = pause;
      ipc_socket_path = socket;
      max_runs = runs;
      heartbeat_path = heartbeat;
      runs = scheduled;
      slack_webhook = webhook;
      slack_rate_limit = limit;
    })

  unfoldable pub cli_options : (platform home : String) → CommandLine → Result CliOptions
  unfolding hc_options run_options cli_rest
  cli_options platform home line =
      hc_options line >>= λ checked. run_options platform home line >>= cli_rest line checked

  -- A command line of `schedule_cli` whose command returned `func`, up to the call of `schedule`.
  unfoldable pub run_command_line :
      {F : Type 0}
      → (platform home : String) → Option F
      → CommandLine
      → Result (Option (F × ScheduleCall))
  run_command_line platform home func line = cli_options platform home line >>= on_result func
