-- ===== src/Schedule/Prepare.antt =====
-- What `schedule` of src/scheduling_util/_schedule.py builds between the set-up of the health check
-- and the loop: the run predicate and the `LastRun` of src/scheduling_util/_last_run.py.
pub mod Reset
use text.Mathlib.Text.{◌==◌ as str_eq}
use Prim.Native.String.{◌++◌ as join}
use scheduling_util_py.Prelude.{
  return, raise, error, keyboard_interrupt, system_exit, no_code, int_code, text_code, ℕ, zero, suc,
  ◌+◌, ◌-◌, ◌*◌, ◌≤◌, ◌<◌, min, String, ◌≡◌, refl, sym, ap, ◌∙◌, ◌≢◌, ◌↔◌, ◌⊎◌, inl, inr, Bool,
  true, false, not, ◌&&◌, ◌||◌, Option, none, some, List, [], ◌∷◌, ◌++◌, map, reverse, arith, ltb,
  leb, ◌==◌, if◌then◌else◌, is_some, ltb→lt, Bool-cases, length, drop, All, length-append,
  length-drop, All-append, All-every, ExitCode, Exception, Result, Action, is_exception, pure,
  throw, and_then, ◌>>=◌, ◌>>◌,
}
use scheduling_util_py.Prelude.Int.{
  ℤ, pos_part, neg_part, sub_ℕ, ◌-ℤ◌, ◌≤ℤ◌, ◌<ℤ◌, ltb_ℤ, leb_ℤ, -ℤ_parts, int_laws, pos, negsuc,
}
use scheduling_util_py.LastRunHistory.{
  Platform, Disk, LastRunHistory, new_history, LastRunAttemptStarted, LastRunAttemptFinished,
  LastRunHistoryEntry, FileContent, write_file, discard_old_entries, EntryFilter, is_started,
  entry_at, no_filter, load_history_entries_from_file, refresh_from_file, persist_to_file, append,
  n_failures_since_last_success, find_last_entry, last_success, last_neutral, last_failure,
  last_finished, last_started, started, finished, undecodable, no_list, json_list,
}
use scheduling_util_py.World.{
  World, Message, CheckCall, CheckClient, call_check, ask_history, append_history, stalled_message,
  unexpected_message, ping_success, ping_failure, ping_log, enter_check, exit_check,
}
use scheduling_util_py.RunPredicate.{
  RunPredicate, OnMaxFailures, force_next_return_value, elapsed, report_error, predicate,
  should_run, ignore, stall, success_schedule, other_policy,
}

-- The arguments of `schedule` for the runs and their history, beside those for the health check.
-- Durations are in microseconds.
pub record RunArguments : Type 0 where
  pub last_run_dir : String
  pub last_run_reset : Bool
  pub success_period : ℤ
  pub neutral_period : ℤ
  pub failure_period : ℤ
  pub max_failures : ℤ
  pub on_max_failures : OnMaxFailures
  pub max_history_entries : ℤ

-- `create_run_predicate`, and the same call in `schedule`
abbrev pub create_run_predicate : RunArguments → Bool → RunPredicate
create_run_predicate a check = record {
  success_period = a.success_period;
  neutral_period = a.neutral_period;
  failure_period = a.failure_period;
  max_failures = a.max_failures;
  on_max_failures = a.on_max_failures;
  check = check;
}

abbrev name_or : Option String → String → String
name_or none uuid = uuid
name_or (some name) uuid = if str_eq name "" then uuid else name

-- `last_run_dir / f"{name or uuid4()}.json"`
abbrev pub last_run_path : RunArguments → Option String → String → String
last_run_path a name uuid = join (join a.last_run_dir "/") (join (name_or name uuid) ".json")

abbrev not_a_file : String → Exception
not_a_file path = error "ValueError" (join path " exists but is not a file.")

-- `is_directory` says which paths are there and are no files.
module _ (platform : Platform) (is_directory : String → Bool) where
  open platform use {Json}

  -- `unlink(missing_ok=True)`
  unlink : String → Disk Json → Result (Disk Json)
  unlink path disk =
      if is_directory path
      then raise (error "IsADirectoryError" path)
      else return (λ p. if str_eq p path then none else disk p)

  -- `LastRun.__init__`
  new_last_run : String → ℤ → Disk Json → Result LastRunHistory
  new_last_run path max_entries disk =
      if is_directory path
      then raise (not_a_file path)
      else new_history platform max_entries (some path) none disk

  abbrev with_history :
      RunPredicate → Disk Json → Result LastRunHistory → Result (RunPredicate × World platform)
  with_history p disk (raise e) = raise e
  with_history p disk (return h) =
      return (p, record { history = h; disk = disk; forced = none; calls = [] })

  abbrev build :
      RunArguments
      → RunPredicate
      → String
      → Result (Disk Json)
      → Result (RunPredicate × World platform)
  build a p path (raise e) = raise e
  build a p path (return disk) = with_history p disk (new_last_run path a.max_history_entries disk)

  -- The predicate and what the attempts work on, for a health check that is there or not.
  pub prepare :
      RunArguments
      → Option String
      → Bool
      → String
      → Disk Json
      → Result (RunPredicate × World platform)
  unfolding unlink new_last_run
  prepare a name check uuid disk =
      let path = last_run_path a name uuid in
      build a (create_run_predicate a check) path
        (if a.last_run_reset then unlink path disk else return disk)
