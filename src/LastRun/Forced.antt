-- ===== src/LastRun/Forced.antt =====
-- The forced value of the run predicate over the wrapper of `LastRun.wrap`
-- (src/scheduling_util/_last_run.py).
use scheduling_util_py.Prelude.{
  return, raise, ◌≡◌, ◌∙◌, Bool, true, false, none, if◌then◌else◌, Result, Action, pure, and_then,
  ◌>>◌,
}
use scheduling_util_py.Prelude.Int.{ℤ}
use scheduling_util_py.LastRunHistory.{Platform}
use scheduling_util_py.World.{World, append_history}
use scheduling_util_py.RunPredicate.Forced.{KeepsForced}
use scheduling_util_py.LastRun.{AssessResult, started_entry, wrapper, attempt}

module _ (platform : Platform) {R : Type 0} where
  attempt-KeepsForced :
      (assess : AssessResult R) (f : Action (World platform) R) (t : ℤ)
      → KeepsForced platform f
      → KeepsForced platform (attempt platform assess f t)
  unfolding attempt
  attempt-KeepsForced assess f t keeps w = keeps w

  -- What the wrapper leaves is what the run predicate leaves.
  pub wrapper_forced_none :
      (assess : AssessResult R) (ask : Action (World platform) Bool) (f : Action (World platform) R)
      (t₀ t₁ : ℤ)
      → ((w : World platform) → (ask w).1.forced ≡ none)
      → KeepsForced platform f
      → (w : World platform) → (wrapper platform assess ask f t₀ t₁ w).1.forced ≡ none
  unfolding wrapper
  wrapper_forced_none assess ask f t₀ t₁ taken keeps w = go (ask w) (taken w)
    where
      go :
          (r : Result Bool × World platform)
          → r.1.forced ≡ none
          → (and_then r.0
              (λ allowed.
                if allowed
                then append_history platform (started_entry t₀) >> attempt platform assess f t₁
                else pure none)
              r.1).1.forced
            ≡ none
      go (raise e, v) h = h
      go (return false, v) h = h
      go (return true, v) h = keeps _ ∙ h
