-- ===== src/Schedule/Attempt/Forced.antt =====
-- The forced value of the run predicate over an attempt of `schedule`
-- (src/scheduling_util/_schedule.py).
use scheduling_util_py.Prelude.{
  raise, String, ◌≡◌, refl, ap, ◌∙◌, Bool, true, false, Option, none, Exception, Action, pure,
  throw, ◌>>◌,
}
use scheduling_util_py.Prelude.Int.{ℤ}
use scheduling_util_py.Outcome.{Outcome, success, failure, neutral}
use scheduling_util_py.LastRunHistory.{Platform}
use scheduling_util_py.World.{CheckClient, World, call_check, enter_check}
use scheduling_util_py.SlackErrors.{SlackState, SlackClient}
use scheduling_util_py.RunPredicate.{RunPredicate, should_run}
use scheduling_util_py.RunPredicate.Forced.{KeepsForced, bind-KeepsForced, should_run_forced_none}
use scheduling_util_py.LastRun.Forced.{wrapper_forced_none}
use scheduling_util_py.SlackErrors.Boundary.{send_errors-state}
use scheduling_util_py.Schedule.Attempt.{
  Returned, assess_return_value, assess_result, with_check, report_outcome, report_block, hc_func,
  wrapped_function, in_block, boundary, attempt,
}

module _ (platform : Platform) (client : CheckClient) (unexpected : String → String)
    (describe : Exception → String) (func : Action (World platform) Returned)
    (keeps : KeepsForced platform func) where
  report_outcome-KeepsForced :
      (check : Bool) (o : Outcome) → KeepsForced platform (report_outcome platform client check o)
  report_outcome-KeepsForced false o w = refl
  report_outcome-KeepsForced true success w = refl
  report_outcome-KeepsForced true failure w = refl
  report_outcome-KeepsForced true neutral w = refl

  report_block-KeepsForced :
      (check : Bool) → KeepsForced platform (report_block platform client unexpected check func)
  report_block-KeepsForced check =
      bind-KeepsForced platform func
        (λ v. report_outcome platform client check (assess_return_value unexpected v).0 >> pure v)
        keeps
        λ v.
          bind-KeepsForced platform
            (report_outcome platform client check (assess_return_value unexpected v).0)
            (λ _. pure v) (report_outcome-KeepsForced check (assess_return_value unexpected v).0)
            λ _ w. refl

  with_check-KeepsForced :
      (check : Bool) (block : Action (World platform) Returned)
      → KeepsForced platform block
      → KeepsForced platform (with_check platform client check block)
  with_check-KeepsForced false block h = h
  with_check-KeepsForced true block h =
      bind-KeepsForced platform (call_check platform client enter_check) _ (λ w. refl) λ _. h

  hc_func-KeepsForced :
      (check : Bool) → KeepsForced platform (hc_func platform client unexpected check func)
  unfolding hc_func
  hc_func-KeepsForced check =
      with_check-KeepsForced check (report_block platform client unexpected check func)
        (report_block-KeepsForced check)

  wrapped_forced_none :
      (p : RunPredicate) (now t₀ t₁ : ℤ) (w : World platform)
      → (wrapped_function platform client unexpected describe p now t₀ t₁ func w).1.forced ≡ none
  unfolding wrapped_function
  wrapped_forced_none p now t₀ t₁ =
      wrapper_forced_none platform (assess_result unexpected describe)
        (should_run platform client p now) (hc_func platform client unexpected p.check func) t₀ t₁
        (should_run_forced_none platform client p now) (hc_func-KeepsForced p.check)

  -- What comes behind the heartbeat leaves no forced value.
  pub attempt_forced_none :
      (slack : SlackClient) (slack_webhook : Option String) (s₀ s₁ : ℤ) (p : RunPredicate)
      (now t₀ t₁ : ℤ) (s : World platform × SlackState)
      → (attempt platform client slack slack_webhook s₀ s₁
          (pure tt)
          (wrapped_function platform client unexpected describe p now t₀ t₁ func)
          s).1.0.forced
        ≡ none
  unfolding attempt
  attempt_forced_none slack slack_webhook s₀ s₁ p now t₀ t₁ (w, k) =
      ap (λ (v : World platform). v.forced)
        (send_errors-state slack platform.from_timestamp (boundary platform client slack_webhook) s₀
          s₁
          (in_block platform client
            (wrapped_function platform client unexpected describe p now t₀ t₁ func))
          (w, k))
      ∙ wrapped_forced_none p now t₀ t₁ w

  -- A heartbeat that raises leaves everything as it was.
  pub attempt_raised :
      (slack : SlackClient) (slack_webhook : Option String) (s₀ s₁ : ℤ) (e : Exception)
      (wrapped : Action (World platform) (Option Returned)) (s : World platform × SlackState)
      → attempt platform client slack slack_webhook s₀ s₁ (throw e) wrapped s ≡ (raise e, s)
  unfolding attempt
  attempt_raised slack slack_webhook s₀ s₁ e wrapped s = refl
