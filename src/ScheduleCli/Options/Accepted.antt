-- ===== src/ScheduleCli/Options/Accepted.antt =====
-- What a command line that reaches `schedule` asks of it (src/scheduling_util/_schedule_cli.py).
use mathlib.Core.Path.{subst}
use text.Mathlib.TextEquality.{eq_iff}
use scheduling_util_py.Prelude.{
  return, raise, error, String, ◌≡◌, refl, ap, ◌∙◌, ◌⊎◌, inl, inr, Bool, true, false, Option, none,
  some, List, [], ◌∷◌, arith, Result,
}
use scheduling_util_py.RunPredicate.{OnMaxFailures, other_policy}
use scheduling_util_py.Schedule.SetUp.{
  HcArguments, check_arguments, known_choice, ConfigFailure, given,
}
use scheduling_util_py.ClickOptions.Declared.{ClickOption, Click, In, IsClick, choice_type}
use scheduling_util_py.ScheduleCli.Start.{
  RunOptions, CliOptions, ScheduleCall, usage_error, schedule_call, on_result,
}
use scheduling_util_py.ScheduleCli.Start.Checked.{on_result-checked}
use scheduling_util_py.ScheduleCli.Options.{
  hc_config_failure, on_max_failures, config_failure_of, policy_of, config_failure, policy,
  cli_options, run_command_line, the, text_of, hc_options, run_options, ◌>>=◌, hc_rest, run_rest,
  cli_rest,
}

abbrev pub known_policy : OnMaxFailures → Bool
known_policy (other_policy _) = false
known_policy _ = true

known_config_failure :
    (value : String)
    → In value ("raise" ∷ "warn" ∷ [])
    → known_choice (config_failure_of value) ≡ true
known_config_failure value h = ground (arith, eq_iff value "raise", eq_iff value "warn")

known_policy_of :
    (value : String)
    → In value ("ignore" ∷ "stall" ∷ "success_schedule" ∷ [])
    → known_policy (policy_of value) ≡ true
known_policy_of value h =
    ground (arith, eq_iff value "ignore", eq_iff value "stall", eq_iff value "success_schedule")

-- A result that is returned behind another was returned by it.
bind_returned :
    {A B : Type 0} (r : Result A) (f : A → Result B) (b : B)
    → (r >>= f) ≡ return b
    → (a : A) × (r ≡ return a) × (f a ≡ return b)
bind_returned (return a) f b e = (a, refl, e)
bind_returned (raise x) f b e = absurd (ground arith)

module _ (click : Click) (law : IsClick click) where
  abbrev Line : Type 0
  Line = Click.CommandLine click

  chosen-In :
      (o : ClickOption) (choices : List String) (case_sensitive : Bool) (value : String)
      (line : Line)
      → o.type ≡ choice_type choices case_sensitive
      → text_of click o line ≡ return value
      → In value choices
  chosen-In o choices case_sensitive value line kind e =
      let (given, was, is) = bind_returned (Click.text click o line) (the click o) value e in
      law.choice-In o choices case_sensitive value line kind (the_some given was is)
    where
      the_some :
          (given : Option String)
          → Click.text click o line ≡ return given
          → the click o given ≡ return value
          → Click.text click o line ≡ return (some value)
      the_some none was is = absurd (ground arith)
      the_some (some v) was is = ground arith

  config_failure-known :
      (line : Line) (c : ConfigFailure)
      → config_failure click line ≡ return c
      → known_choice c ≡ true
  config_failure-known line c e =
      let (value, was, is) =
        bind_returned (text_of click hc_config_failure line) (λ v. return (config_failure_of v)) c
          e in
      ground (
        arith,
        known_config_failure value
            (chosen-In hc_config_failure ("raise" ∷ "warn" ∷ []) true value line refl was),
      )

  policy-known :
      (line : Line) (p : OnMaxFailures) → policy click line ≡ return p → known_policy p ≡ true
  policy-known line p e =
      let (value, was, is) =
        bind_returned (text_of click on_max_failures line) (λ v. return (policy_of v)) p e in
      ground (
        arith,
        known_policy_of value (
            chosen-In on_max_failures ("ignore" ∷ "stall" ∷ "success_schedule" ∷ []) true value line
              refl was),
      )

  hc_rest-failure :
      (line : Line) (c : ConfigFailure) (h : HcArguments)
      → hc_rest click line c ≡ return h
      → h.config_failure ≡ c
  unfolding hc_rest
  hc_rest-failure line c h e = ground arith

  run_rest-policy :
      (platform home : String) (line : Line) (p : OnMaxFailures) (r : RunOptions)
      → run_rest click platform home line p ≡ return r
      → r.on_max_failures ≡ p
  unfolding run_rest
  run_rest-policy platform home line p r e = ground arith

  cli_rest-groups :
      (line : Line) (h : HcArguments) (r : RunOptions) (o : CliOptions)
      → cli_rest click line h r ≡ return o
      → (o.hc ≡ h) × (o.runs ≡ r)
  unfolding cli_rest
  cli_rest-groups line h r o e = ground arith

  hc_options-known :
      (line : Line) (h : HcArguments)
      → hc_options click line ≡ return h
      → known_choice h.config_failure ≡ true
  unfolding hc_options
  hc_options-known line h e =
      let (c, was, is) = bind_returned (config_failure click line) (hc_rest click line) h e in
      ap known_choice (hc_rest-failure line c h is) ∙ config_failure-known line c was

  run_options-known :
      (platform home : String) (line : Line) (r : RunOptions)
      → run_options click platform home line ≡ return r
      → known_policy r.on_max_failures ≡ true
  unfolding run_options
  run_options-known platform home line r e =
      let (p, was, is) =
        bind_returned (policy click line) (run_rest click platform home line) r e in
      ap known_policy (run_rest-policy platform home line p r is) ∙ policy-known line p was

  cli_options-known :
      (platform home : String) (line : Line) (o : CliOptions)
      → cli_options click platform home line ≡ return o
      → (known_choice o.hc.config_failure ≡ true) × (known_policy o.runs.on_max_failures ≡ true)
  unfolding cli_options
  cli_options-known platform home line o e =
      let (h, was, rest) =
        bind_returned (hc_options click line)
          (λ checked. run_options click platform home line >>= cli_rest click line checked) o e in
      let (r, ran, is) =
        bind_returned (run_options click platform home line) (cli_rest click line h) o rest in
      let (hc, runs) = cli_rest-groups line h r o is in
      (
        ap (λ (a : HcArguments). known_choice a.config_failure) hc ∙ hc_options-known line h was,
        ap (λ (a : RunOptions). known_policy a.on_max_failures) runs
            ∙ run_options-known platform home line r ran,
      )

passed_on :
    {F : Type 0} (func : F) (call : ScheduleCall) (o : CliOptions)
    → on_result (some func) o ≡ return (some (func, call))
    → known_policy o.runs.on_max_failures ≡ true
    → ((on_result (some func) o ≡ return (some (func, schedule_call o)))
        × (check_arguments (schedule_call o).hc ≡ return tt))
      ⊎ (message refused : String) × (on_result (some func) o ≡ raise (usage_error message))
        × (check_arguments (schedule_call o).hc ≡ raise (error "ValueError" refused))
    → (check_arguments call.hc ≡ return tt) × (known_policy call.runs.on_max_failures ≡ true)
passed_on func call o is policy (inl (accepts, passes)) =
    let same : schedule_call o ≡ call = ground (arith, is, accepts) in
    (
      subst (λ (c : ScheduleCall). check_arguments c.hc ≡ return tt) same passes,
      subst (λ (c : ScheduleCall). known_policy c.runs.on_max_failures ≡ true) same policy,
    )
passed_on func call o is policy (inr (message, refused, denies, fails)) = absurd (ground arith)

-- If click gives a choice only the values that are listed, then a command line that comes to a call of
-- `schedule` makes it with arguments that pass the checks of `schedule`, and with a policy on failures
-- that the run predicate knows.
pub run_command_line-accepted :
    (click : Click) {F : Type 0} (platform home : String) (func : F)
    (line : Click.CommandLine click) (call : ScheduleCall)
    → IsClick click
    → run_command_line click platform home (some func) line ≡ return (some (func, call))
    → (check_arguments call.hc ≡ return tt) × (known_policy call.runs.on_max_failures ≡ true)
unfolding run_command_line
run_command_line-accepted click platform home func line call law e =
    let (o, was, is) =
      bind_returned (cli_options click platform home line) (on_result (some func))
        (some (func, call)) e in
    let (choice, policy) = cli_options-known click law platform home line o was in
    passed_on func call o is policy (on_result-checked func o choice)
