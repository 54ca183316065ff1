-- ===== src/ScheduleCli/Commands.antt =====
-- The commands `subprocess`, `py-exec` and `click-invoke` of
-- src/scheduling_util/_schedule_cli.py: the checks that they make, and the functions that they
-- schedule. What these run is a parameter; `S` is the state of the process.
use scheduling_util_py.Prelude.{
  ℕ, Bool, true, false, ◌&&◌, not, Option, none, some, List, [], ◌∷◌, if◌then◌else◌, String,
  Exception, error, system_exit, Result, return, raise, Action, pure, ◌>>=◌, ◌==◌, is_exception,
}
use scheduling_util_py.Prelude.Int.{ℤ, pos}
use scheduling_util_py.Outcome.{Outcome, success, failure, neutral}
use scheduling_util_py.ScheduleCli.OrderedSet.{OrderedSet}
use scheduling_util_py.ScheduleCli.ExitCodes.{validate_exit_code_sets, map_exit_code_to_outcome}

-- The `args` of `subprocess.run`: one command line, or a tuple.
pub data RunArgs : Type 0 where
  command_line : String → RunArgs
  arguments : List String → RunArgs

-- `windows` is `os.name == "nt"`; the two joins are those of the standard library.
args_for_subprocess_run :
    (list2cmdline shlex_join : List String → String)
    → (windows shell : Bool) → List String
    → RunArgs
args_for_subprocess_run list2cmdline shlex_join windows false args = arguments args
args_for_subprocess_run list2cmdline shlex_join windows true [] =
    command_line (if windows then list2cmdline [] else shlex_join [])
args_for_subprocess_run list2cmdline shlex_join windows true (arg ∷ []) = command_line arg
args_for_subprocess_run list2cmdline shlex_join windows true (arg ∷ more ∷ args) =
    command_line
      (if windows then list2cmdline (arg ∷ more ∷ args) else shlex_join (arg ∷ more ∷ args))

abbrev pub check_success_error : Exception
check_success_error = error "UsageError" "Do not use `--check` and `--exit-codes-success` together."

abbrev pub check_neutral_error : Exception
check_neutral_error = error "UsageError" "Do not use `--check` and `--exit-codes-neutral` together."

abbrev pub no_colon_error : Exception
no_colon_error = error "ValueError" "Command string must be in format 'module.path:function_name'"

abbrev pub not_found_error : Exception
not_found_error = error "ValueError" "Failed to find Click command"

abbrev pub not_command_error : Exception
not_command_error = error "TypeError" "not a Click command"

-- The text before the last colon and the text behind it: `command_str.rsplit(":", 1)`.
abbrev pub keep_or_split : ℕ → List ℕ → Option (List ℕ × List ℕ) → Option (List ℕ × List ℕ)
keep_or_split c rest none = if c == b':' then some ([], rest) else none
keep_or_split c rest (some (before, after)) = some (c ∷ before, after)

unfoldable pub rsplit_colon : List ℕ → Option (List ℕ × List ℕ)
rsplit_colon [] = none
rsplit_colon (c ∷ cs) = keep_or_split c cs (rsplit_colon cs)

-- An exception that `except Exception` catches becomes `ValueError`; another passes.
abbrev pub or_not_found : {A : Type 0} → Result A → Result A
or_not_found (return a) = return a
or_not_found (raise e) = raise (if is_exception e then not_found_error else e)

abbrev pub must_be_command : {C : Type 0} → Result (Option C) → Result C
must_be_command (return (some command)) = return command
must_be_command (return none) = raise not_command_error
must_be_command (raise e) = raise e

abbrev pub resolve_split :
    {C : Type 0} → (List ℕ → List ℕ → Result (Option C)) → Option (List ℕ × List ℕ) → Result C
resolve_split import none = raise no_colon_error
resolve_split import (some (module_path, function_name)) =
    must_be_command (or_not_found (import module_path function_name))

-- The lookup of `click_invoke`: `import` imports the module and reads the attribute, and gives
-- `none` for an object that is not a `click.Command`.
unfoldable pub resolve_command :
    {C : Type 0} → (import : List ℕ → List ℕ → Result (Option C)) → List ℕ → Result C
resolve_command import command_str = resolve_split import (rsplit_colon command_str)

module _ (set : OrderedSet) where
  open set use {Codes, contains, equals, is_empty}

  -- `except SystemExit as e: return map_exit_code_to_outcome(…)`, and else "success"
  abbrev pub outcome_of_call :
      (success_codes neutral_codes : Codes) → Result (Unit {0}) → Result Outcome
  outcome_of_call success_codes neutral_codes (return _) = return success
  outcome_of_call success_codes neutral_codes (raise (system_exit code)) =
      return (map_exit_code_to_outcome set success_codes neutral_codes code)
  outcome_of_call success_codes neutral_codes (raise e) = raise e

  -- The function that `py_exec` schedules; `exec` runs the code.
  unfoldable pub py_exec_func :
      {S : Type 0} (success_codes neutral_codes : Codes) (exec : Action S (Unit {0}))
      → Action S Outcome
  py_exec_func success_codes neutral_codes exec s =
      let (result, after) = exec s in (outcome_of_call success_codes neutral_codes result, after)

  -- The function that `click_invoke` schedules. `make_context` parses the arguments, outside the
  -- `try`; `invoke` runs the command; `close` is the exit of the context, which raises nothing.
  unfoldable pub click_invoke_func :
      {S : Type 0} (success_codes neutral_codes : Codes) (make_context invoke : Action S (Unit {0}))
      (close : S → S)
      → Action S Outcome
  click_invoke_func success_codes neutral_codes make_context invoke close = make_context >>= λ _ s.
      let (result, after) = invoke s in
      (outcome_of_call success_codes neutral_codes result, close after)

  -- The effective value of `--check`.
  abbrev default_check : Option Bool → (success_codes neutral_codes : Codes) → Bool
  default_check none success_codes neutral_codes =
      equals success_codes (pos 0 ∷ []) && is_empty neutral_codes
  default_check (some check) success_codes neutral_codes = check

  abbrev check_options : Bool → (success_codes neutral_codes : Codes) → Result Bool
  check_options check success_codes neutral_codes =
      if check && not (equals success_codes (pos 0 ∷ []))
      then raise check_success_error
      else if check && not (is_empty neutral_codes)
      then raise check_neutral_error
      else return check

  abbrev check_after : Result (Unit {0}) → Result Bool → Result Bool
  check_after (return _) check = check
  check_after (raise e) check = raise e

  -- The checks of `subprocess`: the value of `check` with which the function runs.
  unfoldable pub subprocess_check :
      Option Bool → (success_codes neutral_codes : Codes) → Result Bool
  subprocess_check check success_codes neutral_codes =
      check_after (validate_exit_code_sets set success_codes neutral_codes) (
        check_options (default_check check success_codes neutral_codes) success_codes neutral_codes)

  -- The function that `subprocess` schedules; `run_with_logger` runs the process with a value for
  -- `check` and gives its return code.
  unfoldable pub subprocess_func :
      {S : Type 0} (success_codes neutral_codes : Codes) (run_with_logger : Bool → Action S ℤ)
      (check : Bool)
      → Action S Outcome
  subprocess_func success_codes neutral_codes run_with_logger check =
      run_with_logger check >>= λ returncode. pure (
        if contains returncode neutral_codes
        then neutral
        else if contains returncode success_codes
        then success
        else failure)
