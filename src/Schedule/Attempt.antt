-- ===== src/Schedule/Attempt.antt =====
-- One attempt of `schedule` in src/scheduling_util/_schedule.py: the heartbeat, the Slack boundary,
-- the wrapper of `LastRun`, the `with` block of the check, and the scheduled function.
pub mod Reports
pub mod Forced
pub mod Ends
use scheduling_util_py.Prelude.{
  Bool, true, false, String, Option, none, some, Exception, Result, return, raise, Action, pure,
  ◌>>=◌, ◌>>◌,
}
use scheduling_util_py.Prelude.Int.{ℤ}
use scheduling_util_py.Outcome.{Outcome, success, failure, neutral}
use scheduling_util_py.LastRunHistory.{Platform}
use scheduling_util_py.World.{
  World, CheckClient, ping_success, ping_failure, enter_check, exit_check, call_check,
}
use scheduling_util_py.RunPredicate.{RunPredicate, should_run}
use scheduling_util_py.LastRun.{AssessResult, wrapper}
use scheduling_util_py.SlackErrors.{SlackBoundary, SlackState, SlackClient, send_errors_to_slack}

-- What the scheduled function returned: `None`, an outcome, or anything else.
pub data Returned : Type 0 where
  no_value : Returned
  outcome_value : Outcome → Returned
  other_value : String → Returned

-- `unexpected` and `describe` are the texts "Unexpected result from …" and "Raised `…`: …".
abbrev pub assess_return_value : (unexpected : String → String) → Returned → Outcome × String
assess_return_value unexpected no_value = (success, "")
assess_return_value unexpected (outcome_value o) = (o, "")
assess_return_value unexpected (other_value s) = (failure, unexpected s)

abbrev pub assess_result :
    (unexpected : String → String) (describe : Exception → String) → AssessResult Returned
assess_result unexpected describe (raise e) = (failure, describe e)
assess_result unexpected describe (return v) = assess_return_value unexpected v

abbrev pub has_raised : {A : Type 0} → Result A → Bool
has_raised (return _) = false
has_raised (raise _) = true

-- An exception of the exit replaces what the block did; the exit suppresses none.
abbrev after_exit : {A : Type 0} → Result (Unit {0}) → Result A → Result A
after_exit (return _) r = r
after_exit (raise e) r = raise e

module _ (platform : Platform) (client : CheckClient) where
  -- `with check or nullcontext():`
  abbrev pub with_check :
      {A : Type 0} → Bool → Action (World platform) A → Action (World platform) A
  with_check false block = block
  with_check true block = call_check platform client enter_check >> λ w.
      let (r, left) = block w in
      let (x, left') = call_check platform client (exit_check (has_raised r)) left in
      (after_exit x r, left')

  abbrev pub report_outcome : Bool → Outcome → Action (World platform) (Unit {0})
  report_outcome false _ = pure tt
  report_outcome true success = call_check platform client ping_success
  report_outcome true failure = call_check platform client ping_failure
  report_outcome true neutral = pure tt

  -- The block: call the function, and ping the check for its outcome.
  abbrev pub report_block :
      (unexpected : String → String)
      → Bool
      → Action (World platform) Returned
      → Action (World platform) Returned
  report_block unexpected check func =
      func >>= λ v. report_outcome check (assess_return_value unexpected v).0 >> pure v

  -- `check` is whether there is a health check; `func` is the scheduled function.
  pub hc_func :
      (unexpected : String → String) (check : Bool) (func : Action (World platform) Returned)
      → Action (World platform) Returned
  hc_func unexpected check func = with_check check (report_block unexpected check func)

  -- `wrapped_function`: its predicate reads the clock at `now`, and the wrapper at `t₀` and `t₁`.
  pub wrapped_function :
      (unexpected : String → String) (describe : Exception → String) (p : RunPredicate)
      (now t₀ t₁ : ℤ) (func : Action (World platform) Returned)
      → Action (World platform) (Option Returned)
  wrapped_function unexpected describe p now t₀ t₁ func =
      wrapper platform (assess_result unexpected describe) (should_run platform client p now)
        (hc_func unexpected p.check func) t₀ t₁

  abbrev pub dropped : {A : Type 0} → Result A → Result (Unit {0})
  dropped (return _) = return tt
  dropped (raise e) = raise e

  -- The wrapped function leaves Slack and its limiter alone, and its value is dropped.
  abbrev pub in_block :
      Action (World platform) (Option Returned) → Action (World platform × SlackState) (Unit {0})
  in_block f (w, k) = let (r, w') = f w in (dropped r, (w', k))

  abbrev pub boundary : Option String → SlackBoundary
  boundary slack_webhook = record {
    slack_webhook = slack_webhook;
    reraise = false;
    log_error = true;
  }

  -- `attempt`; `heartbeat` touches the heartbeat file, if there is one. `s₀` and `s₁` are the readings
  -- of the clock by the limiter.
  pub attempt :
      (slack : SlackClient) (slack_webhook : Option String) (s₀ s₁ : ℤ)
      (heartbeat : Action (World platform × SlackState) (Unit {0}))
      (wrapped : Action (World platform) (Option Returned))
      → Action (World platform × SlackState) (Unit {0})
  attempt slack slack_webhook s₀ s₁ heartbeat wrapped =
      heartbeat
      >> send_errors_to_slack slack (platform.from_timestamp) (boundary slack_webhook) s₀ s₁
          (in_block wrapped)
