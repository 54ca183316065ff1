-- ===== src/Schedule/Attempt/Reports.antt =====
-- What an attempt of `schedule` in src/scheduling_util/_schedule.py tells the health check, and what
-- it records.
use scheduling_util_py.Prelude.{
  ◌≡◌, refl, Bool, true, false, List, ◌∷◌, String, Result, return, raise, Action, and_then, ◌>>◌,
  pure, if◌then◌else◌,
}
use scheduling_util_py.Outcome.{Outcome, success, failure, neutral}
use scheduling_util_py.LastRunHistory.{Platform}
use scheduling_util_py.World.{
  World, CheckCall, CheckClient, ping_success, ping_failure, enter_check, exit_check,
}
use scheduling_util_py.RunPredicate.Decision.{Answers}
use scheduling_util_py.Schedule.Attempt.{
  Returned, assess_return_value, has_raised, hc_func, report_outcome, report_block,
}

-- The ping for an outcome, the latest call first.
abbrev pub with_ping : Outcome → List CheckCall → List CheckCall
with_ping success calls = ping_success ∷ calls
with_ping failure calls = ping_failure ∷ calls
with_ping neutral calls = calls

-- What the check hears behind the scheduled function.
abbrev pub reports :
    (unexpected : String → String) → Bool → Result Returned → List CheckCall → List CheckCall
reports unexpected false r calls = calls
reports unexpected true (return v) calls =
    exit_check false ∷ with_ping (assess_return_value unexpected v).0 calls
reports unexpected true (raise e) calls = exit_check true ∷ calls

module _ (platform : Platform) (client : CheckClient) (unexpected : String → String) where
  -- The world in which the scheduled function is called.
  abbrev pub entered : Bool → World platform → World platform
  entered check w = record w { calls = if check then enter_check ∷ w.calls else w.calls }

  report_outcome_lem :
      (o : Outcome) (w : World platform)
      → Answers platform client
      → report_outcome platform client true o w
        ≡ (return tt, record w { calls = with_ping o w.calls })
  report_outcome_lem success w answers = rw (answers (ping_success ∷ w.calls))
  report_outcome_lem failure w answers = rw (answers (ping_failure ∷ w.calls))
  report_outcome_lem neutral w answers = refl

  -- The calls between the scheduled function and the exit.
  abbrev pings : Result Returned → List CheckCall → List CheckCall
  pings (return v) calls = with_ping (assess_return_value unexpected v).0 calls
  pings (raise e) calls = calls

  block_lem :
      (func : Action (World platform) Returned) (w : World platform)
      → Answers platform client
      → report_block platform client unexpected true func w
        ≡ ((func w).0, record ((func w).1) { calls = pings (func w).0 (func w).1.calls })
  block_lem func w answers = ends (func w).0 (func w).1
    where
      ends :
          (r : Result Returned) (left : World platform)
          → and_then r
              (λ v.
                report_outcome platform client true (assess_return_value unexpected v).0 >> pure v)
              left
            ≡ (r, record left { calls = pings r left.calls })
      ends (raise e) left = refl
      ends (return v) left =
          rw (report_outcome_lem (assess_return_value unexpected v).0 left answers)

  plain_block_lem :
      (func : Action (World platform) Returned) (w : World platform)
      → report_block platform client unexpected false func w ≡ func w
  plain_block_lem func w = ends (func w).0 (func w).1
    where
      ends :
          (r : Result Returned) (left : World platform)
          → and_then r
              (λ v.
                report_outcome platform client false (assess_return_value unexpected v).0 >> pure v)
              left
            ≡ (r, left)
      ends (raise e) left = refl
      ends (return v) left = refl

  exit-calls :
      (r : Result Returned) (calls : List CheckCall)
      → exit_check (has_raised r) ∷ pings r calls ≡ reports unexpected true r calls
  exit-calls (return v) calls = refl
  exit-calls (raise e) calls = refl

  -- With a client that answers: `hc_func` ends as the scheduled function does. A check hears the entry
  -- before it, and behind it a success or failure ping for that outcome, none for a neutral one or an
  -- exception, and the exit, which is told whether there was an exception.
  pub hc_func-reports :
      (check : Bool) (func : Action (World platform) Returned) (w : World platform)
      → Answers platform client
      → let (r, left) = func (entered check w) in
        hc_func platform client unexpected check func w
        ≡ (r, record left { calls = reports unexpected check r left.calls })
  unfolding hc_func
  hc_func-reports false func w answers = plain_block_lem func w
  hc_func-reports true func w answers =
      let w₀ = entered true w in
      let (r, left) = func w₀ in
      rw (
        answers (enter_check ∷ w.calls),
        block_lem func w₀ answers,
        answers (exit_check (has_raised r) ∷ pings r left.calls),
        exit-calls r left.calls,
      )
