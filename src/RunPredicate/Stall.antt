-- ===== src/RunPredicate/Stall.antt =====
-- When the run predicate of src/scheduling_util/_last_run.py gives a job up, and what it reports.
use scheduling_util_py.Prelude.{String, ◌≡◌, ◌≢◌, ◌⊎◌, Bool, false, none, some, List, return, arith}
use scheduling_util_py.Prelude.Int.{ℤ}
use scheduling_util_py.Outcome.{failure}
use scheduling_util_py.LastRunHistory.{Platform, LastRunHistoryEntry, LastRunAttemptFinished}
use scheduling_util_py.LastRunHistory.Latest.{latest_finished, latest_success}
use scheduling_util_py.World.{World, CheckClient, stalled_message, unexpected_message}
use scheduling_util_py.RunPredicate.{
  RunPredicate, stall, other_policy, predicate, elapsed, should_run, force_next_return_value,
}
use scheduling_util_py.RunPredicate.Decision.{
  MayRetry, Answers, reported, report_error_lem, history_facts,
}

-- The last attempt of the job is a failure, and there were too many since the last success.
abbrev pub GaveUp : RunPredicate → List LastRunHistoryEntry → LastRunAttemptFinished → Type 0
GaveUp p es a = (latest_finished es ≡ some a) × (a.outcome ≡ failure) × (¬ MayRetry p es)

module _ (platform : Platform) (client : CheckClient) where
  -- With a client that answers: a job with too many failures, under the policy `stall` or with no
  -- success in its history, does not run, and the predicate reports its last failure to the check.
  pub predicate_stalls :
      (p : RunPredicate) (now : ℤ) (w : World platform) (a : LastRunAttemptFinished)
      → Answers platform client
      → let (r, w') = predicate platform client p now w in
        GaveUp p w'.history.entries a
        → (p.on_max_failures ≡ stall) ⊎ (latest_success w'.history.entries ≡ none)
        → (r ≡ return false)
          × (w'.calls ≡ reported platform client p (stalled_message p.max_failures a) w.calls)
  unfolding predicate elapsed
  predicate_stalls p now w a answers gave_up policy =
      grind (arith, history_facts platform w.history w.disk, report_error_lem platform client)

  -- With a client that answers and a policy that the annotation allows, the check is called only for
  -- a job that was given up, under the policy `stall` or with no success in its history.
  predicate_quiet :
      (p : RunPredicate) (now : ℤ) (w : World platform)
      → Answers platform client
      → ((s : String) → p.on_max_failures ≢ other_policy s)
      → let (r, w') = predicate platform client p now w in
        (w'.calls ≡ w.calls)
        ⊎ ((a : LastRunAttemptFinished) × GaveUp p w'.history.entries a)
          × ((p.on_max_failures ≡ stall) ⊎ (latest_success w'.history.entries ≡ none))
  unfolding predicate elapsed
  predicate_quiet p now w answers allowed =
      grind (arith, history_facts platform w.history w.disk, report_error_lem platform client)

  -- With a client that answers: a policy other than `ignore`, `stall` and `success_schedule`, such as
  -- `success_period`, which the docstring of `schedule` names, refuses a job with too many failures
  -- and a success in its history, and reports an unexpected state.
  predicate_other_policy :
      (p : RunPredicate) (now : ℤ) (w : World platform) (a b : LastRunAttemptFinished) (s : String)
      → Answers platform client
      → p.on_max_failures ≡ other_policy s
      → let (r, w') = predicate platform client p now w in
        GaveUp p w'.history.entries a
        → latest_success w'.history.entries ≡ some b
        → (r ≡ return false) × (w'.calls ≡ reported platform client p unexpected_message w.calls)
  unfolding predicate elapsed
  predicate_other_policy p now w a b s answers o g l =
      grind (arith, history_facts platform w.history w.disk, report_error_lem platform client)

  -- A forced value is returned by the next call alone, which asks neither the history nor the check;
  -- the call after it decides as if nothing had been forced.
  should_run_forced :
      (p : RunPredicate) (now later : ℤ) (value : Bool) (w : World platform)
      → w.forced ≡ none
      → (should_run platform client p now (force_next_return_value platform value w)
          ≡ (return value, w))
        × (should_run platform client p later
              (should_run platform client p now (force_next_return_value platform value w)).1
            ≡ predicate platform client p later w)
  unfolding should_run force_next_return_value
  should_run_forced p now later value w h = ground arith
