-- ===== src/Tests/Samples.antt =====
-- Small inputs for the tests.
use scheduling_util_py.Prelude.{true, Option, none, some, List, [], ◌∷◌, refl}
use scheduling_util_py.Prelude.Int.{ℤ, pos}
use scheduling_util_py.Outcome.{Outcome}
use scheduling_util_py.LastRunHistory.{
  Platform, Disk, json_list, LastRunHistory, LastRunHistoryEntry, started, finished,
}
use scheduling_util_py.World.{World, CheckClient}
use scheduling_util_py.RunPredicate.{RunPredicate, OnMaxFailures}

-- JSON values that are entries, and one that is not; local time is UTC.
abbrev pub utc : Platform
utc = record {
  Json = Option LastRunHistoryEntry;
  validate_python = λ j. j;
  dump_json = λ e. some e;
  from_timestamp = λ t. t;
  validate-dump = λ e. refl;
}

abbrev pub started_at : ℤ → LastRunHistoryEntry
started_at t = started (record { at = t })

abbrev pub finished_at : ℤ → Outcome → LastRunHistoryEntry
finished_at t o = finished (record { at = t; outcome = o; details = "" })

-- A disk where every file holds these entries, and one item that does not validate.
abbrev pub holding : List LastRunHistoryEntry → Disk (Option LastRunHistoryEntry)
holding es path = some (json_list (none ∷ items es))
  where
    items : List LastRunHistoryEntry → List (Option LastRunHistoryEntry)
    items [] = []
    items (e ∷ es) = some e ∷ items es

abbrev pub history_at : LastRunHistory
history_at = record { entries = []; max_entries = 3; path = some "job.json" }

abbrev pub world_with : List LastRunHistoryEntry → World utc
world_with es = record { history = history_at; disk = holding es; forced = none; calls = [] }

abbrev pub quiet_client : CheckClient
quiet_client calls = none

abbrev pub policy : OnMaxFailures → RunPredicate
policy on_max = record {
  success_period = pos 60;
  neutral_period = pos 30;
  failure_period = pos 10;
  max_failures = pos 2;
  on_max_failures = on_max;
  check = true;
}
