-- ===== src/RunPredicate.antt =====
-- `RunPredicate` of src/scheduling_util/_last_run.py: may the job run now?
pub mod Decision
pub mod Forced
pub mod Stall
use scheduling_util_py.Prelude.{
  ℕ, Bool, true, false, ◌||◌, String, Option, none, some, if◌then◌else◌, Action, pure, return,
  ◌>>=◌, ◌>>◌,
}
use scheduling_util_py.Prelude.Int.{ℤ, pos, ◌-ℤ◌, ltb_ℤ}
use scheduling_util_py.Outcome.{success, failure, neutral}
use scheduling_util_py.LastRunHistory.{
  Platform, LastRunAttemptFinished, last_finished, last_success, n_failures_since_last_success,
}
use scheduling_util_py.World.{
  World, Message, stalled_message, unexpected_message, CheckClient, ping_log, ping_failure,
  call_check, ask_history,
}

-- `other_policy` is a string that the type annotation does not allow.
pub data OnMaxFailures : Type 0 where
  ignore stall success_schedule : OnMaxFailures
  other_policy : String → OnMaxFailures

-- The periods are in microseconds; `check` is whether there is a health check.
pub record RunPredicate : Type 0 where
  pub success_period : ℤ
  pub neutral_period : ℤ
  pub failure_period : ℤ
  pub max_failures : ℤ
  pub on_max_failures : OnMaxFailures
  pub check : Bool

abbrev is_ignore : OnMaxFailures → Bool
is_ignore ignore = true
is_ignore _ = false

module _ (platform : Platform) where
  unfoldable pub force_next_return_value : Bool → World platform → World platform
  force_next_return_value value w = record w { forced = some value }

  unset_next_return_value : World platform → World platform
  unset_next_return_value w = record w { forced = none }

module _ (platform : Platform) (client : CheckClient) where
  open platform use {from_timestamp}

  -- `now - attempt.datetime > period`
  unfoldable pub elapsed : ℤ → LastRunAttemptFinished → ℤ → Bool
  elapsed now attempt period = ltb_ℤ period (now -ℤ from_timestamp attempt.at)

  unfoldable pub report_error : RunPredicate → Message → Action (World platform) (Unit {0})
  report_error p message =
      if p.check
      then call_check platform client (ping_log message) >> call_check platform client ping_failure
      else pure tt

  -- Behind the test of the number of failures.
  too_many :
      RunPredicate
      → ℤ
      → LastRunAttemptFinished
      → OnMaxFailures
      → Option LastRunAttemptFinished
      → Action (World platform) Bool
  too_many p now last stall found =
      report_error p (stalled_message p.max_failures last) >> pure false
  too_many p now last success_schedule none =
      report_error p (stalled_message p.max_failures last) >> pure false
  too_many p now last success_schedule (some a) = pure (elapsed now a p.success_period)
  too_many p now last ignore none =
      report_error p (stalled_message p.max_failures last) >> pure false
  too_many p now last ignore (some a) = report_error p unexpected_message >> pure false
  too_many p now last (other_policy s) none =
      report_error p (stalled_message p.max_failures last) >> pure false
  too_many p now last (other_policy s) (some a) = report_error p unexpected_message >> pure false

  abbrev count_failures_now : Action (World platform) ℕ
  count_failures_now =
      ask_history platform
        λ h disk. let (h', n) = n_failures_since_last_success platform h disk in (h', return n)

  after_failure : RunPredicate → ℤ → LastRunAttemptFinished → Action (World platform) Bool
  unfolding too_many
  after_failure p now last = do
    n ← count_failures_now
    if ltb_ℤ (pos n) p.max_failures || is_ignore p.on_max_failures
        then pure (elapsed now last p.failure_period)
        else ask_history platform (last_success platform) >>= too_many p now last p.on_max_failures

  after_attempt : RunPredicate → ℤ → Option LastRunAttemptFinished → Action (World platform) Bool
  unfolding after_failure
  after_attempt p now none = pure true
  after_attempt p now (some last) = elim (last.outcome) [
    | success ↦ pure (elapsed now last p.success_period)
    | neutral ↦ pure (elapsed now last p.neutral_period)
    | failure ↦ after_failure p now last
  ]

  -- `_predicate`
  unfoldable pub predicate : RunPredicate → ℤ → Action (World platform) Bool
  unfolding after_attempt
  predicate p now = do
    last ← ask_history platform (last_finished platform)
    after_attempt p now last

  abbrev call_at : RunPredicate → ℤ → Option Bool → Action (World platform) Bool
  call_at p now none = predicate p now
  call_at p now (some value) = λ w. (return value, record w { forced = none })

  -- `__call__`
  unfoldable pub should_run : RunPredicate → ℤ → Action (World platform) Bool
  should_run p now w = call_at p now w.forced w
