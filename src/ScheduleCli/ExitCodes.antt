-- ===== src/ScheduleCli/ExitCodes.antt =====
-- Exit codes in src/scheduling_util/_schedule_cli.py: their validation and their outcomes.
use scheduling_util_py.Prelude.{
  List, [], ◌∷◌, if◌then◌else◌, Exception, error, Result, return, raise, ExitCode, no_code,
  int_code, text_code,
}
use scheduling_util_py.Prelude.Int.{ℤ, pos}
use scheduling_util_py.Outcome.{Outcome, success, failure, neutral}
use scheduling_util_py.ScheduleCli.OrderedSet.{OrderedSet}

abbrev pub overlap_error : Exception
overlap_error = error "UsageError" "Exit codes cannot be both successful and neutral."

module _ (set : OrderedSet) where
  open set use {Codes, to_list, contains, equals, is_empty}

  -- `[code for code in exit_codes_success if code in exit_codes_neutral]`
  unfoldable pub overlap_in : Codes → List ℤ → List ℤ
  overlap_in neutral_codes [] = []
  overlap_in neutral_codes (code ∷ codes) =
      let rest = overlap_in neutral_codes codes in
      if contains code neutral_codes then code ∷ rest else rest

  abbrev pub usage : List ℤ → Result (Unit {0})
  usage [] = return tt
  usage (_ ∷ _) = raise overlap_error

  unfoldable pub validate_exit_code_sets : (success_codes neutral_codes : Codes) → Result (Unit {0})
  unfolding overlap_in
  validate_exit_code_sets success_codes neutral_codes =
      usage (overlap_in neutral_codes (to_list success_codes))

  -- `map_exit_code_to_outcome`, behind the replacement of a missing code by 0.
  abbrev outcome_of_code : (success_codes neutral_codes : Codes) → ExitCode → Outcome
  outcome_of_code success_codes neutral_codes no_code = failure
  outcome_of_code success_codes neutral_codes (text_code _) = failure
  outcome_of_code success_codes neutral_codes (int_code code) =
      if contains code neutral_codes
      then neutral
      else if contains code success_codes
      then success
      else failure

  abbrev zero_if_missing : ExitCode → ExitCode
  zero_if_missing no_code = int_code (pos 0)
  zero_if_missing code = code

  unfoldable pub map_exit_code_to_outcome :
      (success_codes neutral_codes : Codes) → ExitCode → Outcome
  map_exit_code_to_outcome success_codes neutral_codes code =
      outcome_of_code success_codes neutral_codes (zero_if_missing code)
