-- ===== src/ScheduleCli/Calls.antt =====
-- What the commands `py-exec` and `click-invoke` of src/scheduling_util/_schedule_cli.py make of the
-- code that they call, and how `click-invoke` finds its command.
use scheduling_util_py.Prelude.{
  ◌≡◌, refl, ◌≢◌, ◌↔◌, inl, inr, true, false, Bool-cases, Option, none, some, List, [], ◌∷◌, ◌++◌,
  error, system_exit, keyboard_interrupt, ap, Result, return, raise, ExitCode, Action, arith, ℕ,
  and_then, ◌==◌, All,
}
use scheduling_util_py.Outcome.{Outcome, success}
use scheduling_util_py.ScheduleCli.OrderedSet.{OrderedSet}
use scheduling_util_py.ScheduleCli.ExitCodes.{map_exit_code_to_outcome}
use scheduling_util_py.ScheduleCli.Outcomes.{HasOutcome, map_exit_code-HasOutcome}
use scheduling_util_py.ScheduleCli.Commands.{
  rsplit_colon, keep_or_split, resolve_command, resolve_split, must_be_command, or_not_found,
  py_exec_func, click_invoke_func, outcome_of_call,
}

module _ (set : OrderedSet) where
  open set use {Codes}

  -- How the call of foreign code ends for the scheduler: a return is a success, `sys.exit` has the
  -- outcome of its exit code, and any other exception passes.
  abbrev pub Passes :
      (success_codes neutral_codes : Codes) → Result (Unit {0}) → Result Outcome → Type 0
  Passes success_codes neutral_codes (return _) o = o ≡ return success
  Passes success_codes neutral_codes (raise (system_exit code)) o =
      (x : Outcome) × (o ≡ return x) × HasOutcome set success_codes neutral_codes code x
  Passes success_codes neutral_codes (raise e) o = o ≡ raise e

  outcome_of_call-Passes :
      (success_codes neutral_codes : Codes) (r : Result (Unit {0}))
      → Passes success_codes neutral_codes r (outcome_of_call set success_codes neutral_codes r)
  outcome_of_call-Passes success_codes neutral_codes (return _) = refl
  outcome_of_call-Passes success_codes neutral_codes (raise (system_exit code)) = (
    map_exit_code_to_outcome set success_codes neutral_codes code,
    refl,
    map_exit_code-HasOutcome set success_codes neutral_codes code,
  )
  outcome_of_call-Passes success_codes neutral_codes (raise keyboard_interrupt) = refl
  outcome_of_call-Passes success_codes neutral_codes (raise (error _ _)) = refl

  call-contained :
      (success_codes neutral_codes : Codes) (r : Result (Unit {0})) (code : ExitCode)
      → outcome_of_call set success_codes neutral_codes r ≢ raise (system_exit code)
  call-contained success_codes neutral_codes (return _) code = λ h. cc
  call-contained success_codes neutral_codes (raise (system_exit _)) code = λ h. cc
  call-contained success_codes neutral_codes (raise keyboard_interrupt) code = λ h. cc
  call-contained success_codes neutral_codes (raise (error _ _)) code = λ h. cc

  -- The function of `py-exec` returns `success` if the code returns, and the outcome of the exit code
  -- if the code calls `sys.exit`; any other exception passes. `SystemExit` never leaves it.
  py_exec_func-Passes :
      {S : Type 0} (success_codes neutral_codes : Codes) (exec : Action S (Unit {0})) (s : S)
      → let (r, after) = exec s in
        let (o, after') = py_exec_func set success_codes neutral_codes exec s in
        Passes success_codes neutral_codes r o
        × (after' ≡ after)
        × ((code : ExitCode) → o ≢ raise (system_exit code))
  unfolding py_exec_func
  py_exec_func-Passes success_codes neutral_codes exec s = (
    outcome_of_call-Passes success_codes neutral_codes (exec s).0,
    refl,
    call-contained success_codes neutral_codes (exec s).0,
  )

  -- How the function of `click-invoke` ends, from what making the context does.
  abbrev pub Invokes :
      {S : Type 0} (success_codes neutral_codes : Codes) (invoke : Action S (Unit {0}))
      (close : S → S)
      → Result (Unit {0}) × S
      → Result Outcome × S
      → Type 0
  Invokes success_codes neutral_codes invoke close (raise e, s₁) end = end ≡ (raise e, s₁)
  Invokes success_codes neutral_codes invoke close (return _, s₁) end =
      Passes success_codes neutral_codes (invoke s₁).0 end.0
      × (end.1 ≡ close (invoke s₁).1)
      × ((code : ExitCode) → end.0 ≢ raise (system_exit code))

  -- The function of `click-invoke` passes on what making the context raises, and invokes nothing
  -- then. Otherwise it closes the context behind the invoked command, however the command ends,
  -- returns what `py-exec` would for that end, and lets no `SystemExit` through.
  click_invoke_func-Invokes :
      {S : Type 0} (success_codes neutral_codes : Codes) (make_context invoke : Action S (Unit {0}))
      (close : S → S) (s : S)
      → Invokes success_codes neutral_codes invoke close
          (make_context s)
          (click_invoke_func set success_codes neutral_codes make_context invoke close s)
  unfolding click_invoke_func
  click_invoke_func-Invokes {S} success_codes neutral_codes make_context invoke close s =
      invokes (make_context s)
    where
      invokes :
          (r : Result (Unit {0}) × S)
          → Invokes success_codes neutral_codes invoke close r (
              let (result, after) = r in
              and_then result
                (λ _ s'.
                  let (ended, left) = invoke s' in
                  (outcome_of_call set success_codes neutral_codes ended, close left))
                after)
      invokes (raise e, s₁) = refl
      invokes (return _, s₁) = (
        outcome_of_call-Passes success_codes neutral_codes (invoke s₁).0,
        refl,
        call-contained success_codes neutral_codes (invoke s₁).0,
      )

-- The split at the last colon: nothing behind it is a colon, and without a colon there is none.
abbrev pub NoColon : List ℕ → Type 0
NoColon text = All (λ c. (c == b':') ≡ false) text

abbrev IsSplit : List ℕ → Option (List ℕ × List ℕ) → Type 0
IsSplit text none = NoColon text
IsSplit text (some (before, after)) = (text ≡ before ++ b':' ∷ after) × NoColon after

colon : (c : ℕ) → (c == b':') ≡ true → c ≡ b':'
colon c h = ground arith

keep_or_split-IsSplit :
    (c : ℕ) (cs : List ℕ) (o : Option (List ℕ × List ℕ))
    → IsSplit cs o
    → IsSplit (c ∷ cs) (keep_or_split c cs o)
keep_or_split-IsSplit c cs none h = elim (Bool-cases (c == b':')) [
  | inl e ↦ rw e (ap (λ d. d ∷ cs) (colon c e), h)
  | inr e ↦ rw e (e, h)
]
keep_or_split-IsSplit c cs (some (before, after)) (e, h) = (ap (λ xs. c ∷ xs) e, h)

rsplit_colon-IsSplit : (text : List ℕ) → IsSplit text (rsplit_colon text)
unfolding rsplit_colon
rsplit_colon-IsSplit [] = tt
rsplit_colon-IsSplit (c ∷ cs) =
    keep_or_split-IsSplit c cs (rsplit_colon cs) (rsplit_colon-IsSplit cs)

rsplit_colon-none : (text : List ℕ) → NoColon text → rsplit_colon text ≡ none
unfolding rsplit_colon
rsplit_colon-none [] h = refl
rsplit_colon-none (c ∷ cs) (e, h) = rw (rsplit_colon-none cs h, e)

rsplit_colon-append :
    (before after : List ℕ)
    → NoColon after
    → rsplit_colon (before ++ b':' ∷ after) ≡ some (before, after)
unfolding rsplit_colon
rsplit_colon-append [] after h = rw (rsplit_colon-none after h)
rsplit_colon-append (c ∷ cs) after h = rw (rsplit_colon-append cs after h)

must_be_command-return :
    {C : Type 0} (r : Result (Option C)) (command : C)
    → must_be_command (or_not_found r) ≡ return command
    → r ≡ return (some command)
must_be_command-return (return (some c)) command h = cc
must_be_command-return (return none) command h = cc
must_be_command-return (raise e) command h = cc

resolve_split-found :
    {C : Type 0} (import : List ℕ → List ℕ → Result (Option C)) (text : List ℕ) (command : C)
    (split : Option (List ℕ × List ℕ))
    → IsSplit text split
    → resolve_split import split ≡ return command
    → (before : List ℕ) × (after : List ℕ) × (text ≡ before ++ b':' ∷ after)
      × NoColon after
      × (import before after ≡ return (some command))
resolve_split-found import text command none i h = cc
resolve_split-found import text command (some (before, after)) (e, n) h =
    (before, after, e, n, must_be_command-return (import before after) command h)

-- `click-invoke` finds a command exactly if its text has a colon and the import of what stands before
-- the last one, with the name behind it, gives that command.
resolve_command-found :
    {C : Type 0} (import : List ℕ → List ℕ → Result (Option C)) (text : List ℕ) (command : C)
    → (resolve_command import text ≡ return command) ↔ (
        (before : List ℕ) × (after : List ℕ) × (text ≡ before ++ b':' ∷ after)
        × NoColon after
        × (import before after ≡ return (some command)))
unfolding resolve_command
resolve_command-found import text command = (
  resolve_split-found import text command (rsplit_colon text) (rsplit_colon-IsSplit text),
  λ (before, after, e, n, h). rw (e, rsplit_colon-append before after n, h),
)
