-- ===== src/RunPredicate/Forced.antt =====
-- The forced value of a run predicate (src/scheduling_util/_last_run.py), in the world that an attempt
-- works on.
use scheduling_util_py.Prelude.{
  return, raise, ◌≡◌, refl, ◌∙◌, Bool, true, false, ◌||◌, Option, none, some, arith, if◌then◌else◌,
  Result, Action, pure, and_then, ◌>>=◌, ◌>>◌,
}
use scheduling_util_py.Prelude.Int.{ℤ, ltb_ℤ, pos}
use scheduling_util_py.LastRunHistory.{
  LastRunAttemptFinished, Platform, last_success, last_finished,
}
use scheduling_util_py.World.{Message, CheckClient, World, ask_history}
use scheduling_util_py.RunPredicate.{
  OnMaxFailures, RunPredicate, elapsed, report_error, predicate, should_run, ignore, stall,
  success_schedule, other_policy, is_ignore, too_many, count_failures_now, after_failure,
  after_attempt,
}

module _ (platform : Platform) where
  -- The forced value stays as it is.
  abbrev pub KeepsForced : {A : Type 0} → Action (World platform) A → Type 0
  KeepsForced m = (w : World platform) → (m w).1.forced ≡ w.forced

  module _ {A B : Type 0} where
    and_then_forced :
        (w : World platform) (r : Result A × World platform) (f : A → Action (World platform) B)
        → r.1.forced ≡ w.forced
        → ((a : A) → KeepsForced (f a))
        → (and_then r.0 f r.1).1.forced ≡ w.forced
    and_then_forced w (return a, v) f e k = k a v ∙ e
    and_then_forced w (raise x, v) f e k = e

    pub bind-KeepsForced :
        (m : Action (World platform) A) (f : A → Action (World platform) B)
        → KeepsForced m
        → ((a : A) → KeepsForced (f a))
        → KeepsForced (m >>= f)
    bind-KeepsForced m f h k w = and_then_forced w (m w) f (h w) k

  module _ (client : CheckClient) where
    report_error-KeepsForced :
        (p : RunPredicate) (m : Message) → KeepsForced (report_error platform client p m)
    unfolding report_error
    report_error-KeepsForced p m w = ground arith

    reported-KeepsForced :
        (p : RunPredicate) (m : Message) (b : Bool)
        → KeepsForced (report_error platform client p m >> pure b)
    reported-KeepsForced p m b =
        bind-KeepsForced (report_error platform client p m) (λ _. pure b)
          (report_error-KeepsForced p m) λ _ w. refl

    too_many-KeepsForced :
        (p : RunPredicate) (now : ℤ) (last : LastRunAttemptFinished) (policy : OnMaxFailures)
        (found : Option LastRunAttemptFinished)
        → KeepsForced (too_many platform client p now last policy found)
    unfolding too_many
    too_many-KeepsForced p now last stall found = reported-KeepsForced p _ _
    too_many-KeepsForced p now last success_schedule none = reported-KeepsForced p _ _
    too_many-KeepsForced p now last success_schedule (some a) = λ w. refl
    too_many-KeepsForced p now last ignore none = reported-KeepsForced p _ _
    too_many-KeepsForced p now last ignore (some a) = reported-KeepsForced p _ _
    too_many-KeepsForced p now last (other_policy s) none = reported-KeepsForced p _ _
    too_many-KeepsForced p now last (other_policy s) (some a) = reported-KeepsForced p _ _

    if-KeepsForced :
        (b : Bool) (m n : Action (World platform) Bool)
        → KeepsForced m
        → KeepsForced n
        → KeepsForced (if b then m else n)
    if-KeepsForced true m n h k = h
    if-KeepsForced false m n h k = k

    after_failure-KeepsForced :
        (p : RunPredicate) (now : ℤ) (last : LastRunAttemptFinished)
        → KeepsForced (after_failure platform client p now last)
    unfolding after_failure
    after_failure-KeepsForced p now last =
        bind-KeepsForced {B = Bool} (count_failures_now platform client)
          (λ n.
            if ltb_ℤ (pos n) p.max_failures || is_ignore p.on_max_failures
            then pure (elapsed platform client now last p.failure_period)
            else ask_history platform (last_success platform)
              >>= too_many platform client p now last p.on_max_failures)
          (λ w. refl)
          λ n.
            if-KeepsForced (ltb_ℤ (pos n) p.max_failures || is_ignore p.on_max_failures)
              (pure (elapsed platform client now last p.failure_period))
              (ask_history platform (last_success platform)
                >>= too_many platform client p now last p.on_max_failures)
              (λ w. refl)
              (bind-KeepsForced (ask_history platform (last_success platform))
                (too_many platform client p now last p.on_max_failures) (λ w. refl)
                λ found. too_many-KeepsForced p now last p.on_max_failures found)

    after_attempt-KeepsForced :
        (p : RunPredicate) (now : ℤ) (found : Option LastRunAttemptFinished)
        → KeepsForced (after_attempt platform client p now found)
    unfolding after_attempt
    after_attempt-KeepsForced p now none w = refl
    after_attempt-KeepsForced p now (some last) w =
        ground (arith, after_failure-KeepsForced p now last w)

    predicate-KeepsForced :
        (p : RunPredicate) (now : ℤ) → KeepsForced (predicate platform client p now)
    unfolding predicate
    predicate-KeepsForced p now =
        bind-KeepsForced (ask_history platform (last_finished platform))
          (after_attempt platform client p now) (λ w. refl) (after_attempt-KeepsForced p now)

    -- Whoever asks the run predicate takes its forced value.
    pub should_run_forced_none :
        (p : RunPredicate) (now : ℤ) (w : World platform)
        → (should_run platform client p now w).1.forced ≡ none
    unfolding should_run
    should_run_forced_none p now w = ground (arith, predicate-KeepsForced p now w)
