-- ===== src/Schedule/Attempt/Ends.antt =====
-- A whole attempt of `schedule` in src/scheduling_util/_schedule.py: how it ends, what it records,
-- what the check hears, and what is posted.
use scheduling_util_py.Prelude.{◌≡◌, String, Option, some, Exception, Result, return, raise, Action}
use scheduling_util_py.Prelude.Int.{ℤ}
use scheduling_util_py.LastRunHistory.{Platform}
use scheduling_util_py.World.{World, CheckClient}
use scheduling_util_py.RunPredicate.{RunPredicate, should_run}
use scheduling_util_py.LastRun.Records.{begun}
use scheduling_util_py.Schedule.Attempt.{Returned, assess_result, hc_func, wrapped_function}
use scheduling_util_py.Schedule.Attempt.Reports.{entered}

module _ (platform : Platform) (client : CheckClient) (unexpected : String → String)
    (describe : Exception → String) where
  -- The scheduled function leaves the history and the disk alone.
  abbrev pub LeavesHistory : Action (World platform) Returned → Type 0
  LeavesHistory func =
      (w : World platform) → ((func w).1.history ≡ w.history) × ((func w).1.disk ≡ w.disk)

  module _ (p : RunPredicate) (now t₀ t₁ : ℤ) (func : Action (World platform) Returned) where
    abbrev wrapped : Action (World platform) (Option Returned)
    wrapped = wrapped_function platform client unexpected describe p now t₀ t₁ func

    abbrev hc : Action (World platform) Returned
    hc = hc_func platform client unexpected p.check func

    -- The world in which the scheduled function is called: its attempt is recorded as started, and the
    -- check was entered.
    abbrev pub called : World platform → World platform
    called w = entered platform client unexpected p.check (
        begun platform (assess_result unexpected describe) (should_run platform client p now) hc t₀
          t₁ w)

    abbrev passed : Result Returned → Result (Option Returned)
    passed (return v) = return (some v)
    passed (raise e) = raise e
