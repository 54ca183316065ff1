-- ===== src/LastRun.antt =====
-- `LastRun.wrap` of src/scheduling_util/_last_run.py: a function that only runs if it has not run
-- too recently, and that records each attempt in the history.
pub mod Records
pub mod Forced
pub mod Waits
use scheduling_util_py.Prelude.{
  Bool, true, false, String, Option, none, some, if◌then◌else◌, Exception, Result, return, raise,
  Action, pure, ◌>>=◌, ◌>>◌,
}
use scheduling_util_py.Prelude.Int.{ℤ}
use scheduling_util_py.Outcome.{Outcome, success, failure, same_outcome}
use scheduling_util_py.LastRunHistory.{
  Platform, LastRunHistoryEntry, LastRunAttemptStarted, LastRunAttemptFinished, started, finished,
}
use scheduling_util_py.World.{World, append_history}

-- `assess_result(returned=…, raised=…)`: exactly one of the two is given.
abbrev pub AssessResult : Type 0 → Type 0
AssessResult R = Result R → Outcome × String

-- `describe` is the text that Python makes of an exception, "Raised `…`: …".
unfoldable pub default_assess_result :
    {R : Type 0} → (describe : Exception → String) → AssessResult R
default_assess_result describe (raise e) = (failure, describe e)
default_assess_result describe (return v) = (success, "")

-- What the wrapper does with the result of the function, behind the `finally` block: a failure
-- raises the exception again, and any other outcome suppresses it.
abbrev conclude : {R : Type 0} → Outcome → Result R → Result (Option R)
conclude outcome (return v) = return (some v)
conclude outcome (raise e) = if same_outcome outcome failure then raise e else return none

abbrev pub started_entry : ℤ → LastRunHistoryEntry
started_entry at = started (record { at = at })

module _ (platform : Platform) {R : Type 0} where
  abbrev pub finished_entry : AssessResult R → Result R → ℤ → LastRunHistoryEntry
  finished_entry assess_result result at =
      let (outcome, details) = assess_result result in
      finished (record { at = at; outcome = outcome; details = details })

  -- The `try` statement: call the function, assess what it did, and record it in any case.
  attempt : AssessResult R → Action (World platform) R → ℤ → Action (World platform) (Option R)
  attempt assess_result f finished_at w =
      let (result, after) = f w in
      let (_, recorded) =
        append_history platform (finished_entry assess_result result finished_at) after in
      (conclude (assess_result result).0 result, recorded)

  -- The inner function of `wrap`; `started_at` and `finished_at` are its two readings of the clock.
  pub wrapper :
      AssessResult R
      → (should_run : Action (World platform) Bool) → Action (World platform) R
      → (started_at finished_at : ℤ) → Action (World platform) (Option R)
  unfolding attempt
  wrapper assess_result should_run f started_at finished_at = do
    allowed ← should_run
    if allowed
        then append_history platform (started_entry started_at)
          >> attempt assess_result f finished_at
        else pure none
