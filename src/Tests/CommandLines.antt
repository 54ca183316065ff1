-- ===== src/Tests/CommandLines.antt =====
-- A command line of the scheduler, with a small click.
use text.Mathlib.Text.{◌==◌ as str_eq}
use text.Mathlib.TextEquality.{eq_iff}
use scheduling_util_py.Prelude.{
  return, raise, error, String, ◌≡◌, refl, Bool, true, false, ◌||◌, Option, none, some, List, [],
  ◌∷◌, arith, if◌then◌else◌, is_some, Result,
}
use scheduling_util_py.Prelude.Int.{ℤ, pos}
use scheduling_util_py.RunPredicate.{stall}
use scheduling_util_py.Schedule.SetUp.{warn_failure, check_arguments, given, warn_failure}
use scheduling_util_py.ClickOptions.Declared.{
  OptionType, get_default_cache_dir, Click, In, IsClick, choice_type,
}
use scheduling_util_py.ScheduleCli.Start.{schedule_call, CliOptions, on_result}
use scheduling_util_py.ScheduleCli.Options.{cli_options, run_command_line}
use scheduling_util_py.ScheduleCli.Options.Accepted.{known_policy, run_command_line-accepted}

abbrev given_in : String → List (String × String) → Option String
given_in flag [] = none
given_in flag ((name, value) ∷ rest) = if str_eq name flag then some value else given_in flag rest

abbrev member : String → List String → Bool
member x [] = false
member x (y ∷ ys) = str_eq x y || member x ys

abbrev or_default : Option String → Option String → Option String
or_default none default = default
or_default (some value) default = some value

abbrev accept : OptionType → Option String → Result (Option String)
accept (choice_type choices case_sensitive) (some value) =
    if member value choices then return (some value) else raise (error "UsageError" value)
accept _ value = return value

abbrev minutes_of : String → Result ℤ
minutes_of s =
    if str_eq s "1m"
    then return (pos 60000000)
    else if str_eq s "1h"
    then return (pos 3600000000)
    else if str_eq s "1d"
    then return (pos 86400000000)
    else raise (error "UsageError" s)

abbrev three_or_error : String → Result ℤ
three_or_error s = if str_eq s "3" then return (pos 3) else raise (error "UsageError" s)

abbrev small_click : Click
small_click = record {
  CommandLine = List (String × String);
  text = λ o line. accept o.type (or_default (given_in o.flag line) o.default);
  texts = λ o line. return [];
  integer = three_or_error;
  duration = minutes_of;
  is_set = λ o line. is_some (given_in o.flag line);
}

member-In : (x : String) (ys : List String) → member x ys ≡ true → In x ys
member-In x [] e = absurd (ground arith)
member-In x (y ∷ ys) e = ground (arith, eq_iff x y, member-In x ys)

accepted-In :
    (type : OptionType) (given : Option String) (choices : List String) (case_sensitive : Bool)
    (value : String)
    → type ≡ choice_type choices case_sensitive
    → accept type given ≡ return (some value)
    → In value choices
accepted-In (choice_type cs b) none choices case_sensitive value kind e = absurd (ground arith)
accepted-In (choice_type cs b) (some v) choices case_sensitive value kind e =
    member-In value choices (ground arith)
accepted-In type given choices case_sensitive value kind e = absurd (ground arith)

small_click-IsClick : IsClick small_click
small_click-IsClick = record {
  choice-In = λ o choices case_sensitive value line kind e.
      accepted-In o.type (or_default (given_in o.flag line) o.default) choices case_sensitive value
        kind e;
}

abbrev named_line : List (String × String)
named_line = ("--name", "job") ∷ ("--hc-config-failure", "warn") ∷ []

abbrev job_options : CliOptions
job_options = record {
  ping_base_url = "https://hc-ping.com/";
  manage_base_url = "https://healthchecks.io/api/v3/";
  hc = record {
    ping_key = none;
    manage_key = none;
    name = some "job";
    uuid = none;
    description = none;
    timeout = none;
    grace = none;
    channels = none;
    tags = none;
    config_failure = warn_failure;
  };
  hc_channel = [];
  interval = pos 60000000;
  ipc_socket_path = none;
  max_runs = none;
  heartbeat_path = none;
  runs = record {
    cache_dir = "/root/.cache/scheduling_util";
    reset = false;
    success_period = pos 86400000000;
    neutral_period = pos 86400000000;
    failure_period = pos 86400000000;
    max_failures = pos 3;
    on_max_failures = stall;
  };
  slack_webhook = none;
  slack_rate_limit = pos 3600000000;
}

-- The defaults of the options
run_named :
    run_command_line small_click "linux" "/root" (some tt) named_line
    ≡ return (some (tt, schedule_call job_options))
unfolding run_command_line cli_options on_result get_default_cache_dir
run_named = refl

run_command_line-accepted_example :
    (check_arguments (schedule_call job_options).hc ≡ return tt)
    × (known_policy (schedule_call job_options).runs.on_max_failures ≡ true)
run_command_line-accepted_example =
    run_command_line-accepted small_click "linux" "/root" tt named_line (schedule_call job_options)
      small_click-IsClick run_named
