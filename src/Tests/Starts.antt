-- ===== src/Tests/Starts.antt =====
-- Options of the command line, and the start of a scheduler that they lead to
-- (src/scheduling_util/_schedule_cli.py and src/scheduling_util/_schedule.py).
use scheduling_util_py.Prelude.{
  return, raise, error, String, ◌≡◌, refl, ◌⊎◌, Bool, true, false, Option, none, some, [], ◌∷◌,
  arith, inr,
}
use scheduling_util_py.Prelude.Int.{pos}
use scheduling_util_py.Outcome.{failure}
use scheduling_util_py.LastRunHistory.{
  LastRunHistoryEntry, Disk, LastRunHistoryEntry, LastRunHistory, begin_persist,
}
use scheduling_util_py.World.{World}
use scheduling_util_py.RunPredicate.{RunPredicate, stall}
use scheduling_util_py.Schedule.SetUp.{check_arguments, raise_failure}
use scheduling_util_py.Schedule.Prepare.{prepare, RunArguments, last_run_path}
use scheduling_util_py.Schedule.Prepare.Reset.{Fresh, prepare-Fresh}
use scheduling_util_py.ScheduleCli.Start.{CliOptions, usage_error, schedule_call, on_result}
use scheduling_util_py.ScheduleCli.Start.Checked.{on_result-checked}
use scheduling_util_py.Tests.Samples.{utc, finished_at, holding}

abbrev tagged : CliOptions
tagged = record {
  ping_base_url = "https://hc-ping.com/";
  manage_base_url = "https://healthchecks.io/api/v3/";
  hc = record {
    ping_key = some "p";
    manage_key = some "m";
    name = some "job";
    uuid = none;
    description = none;
    timeout = none;
    grace = none;
    channels = none;
    tags = some "prod";
    config_failure = raise_failure;
  };
  hc_channel = [];
  interval = pos 60000000;
  ipc_socket_path = none;
  max_runs = none;
  heartbeat_path = none;
  runs = record {
    cache_dir = "cache";
    reset = true;
    success_period = pos 1;
    neutral_period = pos 1;
    failure_period = pos 1;
    max_failures = pos 3;
    on_max_failures = stall;
  };
  slack_webhook = none;
  slack_rate_limit = pos 1;
}

on_result-checked_example :
    ((on_result (some tt) tagged ≡ return (some (tt, schedule_call tagged)))
      × (check_arguments (schedule_call tagged).hc ≡ return tt))
    ⊎ (message refused : String) × (on_result (some tt) tagged ≡ raise (usage_error message))
      × (check_arguments (schedule_call tagged).hc ≡ raise (error "ValueError" refused))
on_result-checked_example = on_result-checked tt tagged refl

-- The command line's own path, on a disk where every file holds three failures.
abbrev held : Disk (Option LastRunHistoryEntry)
held =
    holding
      (finished_at (pos 1) failure ∷ finished_at (pos 2) failure ∷ finished_at (pos 3) failure ∷ [])

abbrev no_directory : String → Bool
no_directory path = false

abbrev unreset : RunArguments
unreset = record (schedule_call tagged).runs { last_run_reset = false }

-- The scheduler of this job died while it recorded an attempt.
abbrev job_history : LastRunHistory
job_history = record {
  entries = finished_at (pos 4) failure ∷ [];
  max_entries = 5;
  path = some (last_run_path unreset (some "job") "u");
}

abbrev torn : Disk (Option LastRunHistoryEntry)
torn = begin_persist utc job_history held

prepare-Fresh_example :
    (p : RunPredicate) × (w : World utc) × (prepare utc no_directory unreset
        (some "job")
        true
        "u"
        torn
      ≡ return (p, w))
    × Fresh utc no_directory p w
prepare-Fresh_example =
    prepare-Fresh utc no_directory unreset (some "job") true "u" torn refl (omega arith)
      (inr (job_history, held, refl, refl))
