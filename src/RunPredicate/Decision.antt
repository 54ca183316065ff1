-- ===== src/RunPredicate/Decision.antt =====
-- The decision of the run predicate of src/scheduling_util/_last_run.py, against a description over
-- the plain list of the history's entries.
use scheduling_util_py.Prelude.{
  ◌≡◌, ◌↔◌, ◌⊎◌, true, false, Option, none, some, List, ◌∷◌, return, arith, if◌then◌else◌,
}
use scheduling_util_py.Prelude.Int.{ℤ, pos, ◌-ℤ◌, ◌<ℤ◌}
use scheduling_util_py.Outcome.{success, failure, neutral}
use scheduling_util_py.LastRunHistory.{
  Platform, Disk, LastRunHistory, LastRunHistoryEntry, LastRunAttemptFinished, refresh_from_file,
  last_finished, last_success, n_failures_since_last_success,
}
use scheduling_util_py.LastRunHistory.Failures.{tally_all, n_failures-tally}
use scheduling_util_py.LastRunHistory.Latest.{
  latest_finished, latest_success, last_finished-latest, refresh-refresh,
}
use scheduling_util_py.World.{World, CheckClient, CheckCall, Message, ping_log, ping_failure}
use scheduling_util_py.RunPredicate.{
  RunPredicate, ignore, success_schedule, predicate, report_error, elapsed,
}

-- The job may fail again: too few failures since the last success, or any number is ignored.
abbrev pub MayRetry : RunPredicate → List LastRunHistoryEntry → Type 0
MayRetry p es = (pos (tally_all 0 es) <ℤ p.max_failures) ⊎ (p.on_max_failures ≡ ignore)

module _ (platform : Platform) where
  open platform use {Json, from_timestamp}

  abbrev pub Elapsed : ℤ → LastRunAttemptFinished → ℤ → Type 0
  Elapsed now a period = period <ℤ now -ℤ from_timestamp a.at

  abbrev SuccessElapsed : RunPredicate → ℤ → Option LastRunAttemptFinished → Type 0
  SuccessElapsed p now none = ⊥
  SuccessElapsed p now (some a) = Elapsed now a p.success_period

  abbrev MayRunAfter :
      RunPredicate → ℤ → List LastRunHistoryEntry → Option LastRunAttemptFinished → Type 0
  MayRunAfter p now es none = Unit
  MayRunAfter p now es (some a) = elim (a.outcome) [
    | success ↦ Elapsed now a p.success_period
    | neutral ↦ Elapsed now a p.neutral_period
    | failure ↦
        MayRetry p es × Elapsed now a p.failure_period
        ⊎ (¬ MayRetry p es)
          × (p.on_max_failures ≡ success_schedule)
          × SuccessElapsed p now (latest_success es)
  ]

  -- The documented policy: the first run is always allowed; later ones when the period of the last
  -- outcome has passed since then, except that a job with too many failures waits for the success
  -- period since its last success, if the policy is `success_schedule`, and else never runs.
  abbrev pub MayRun : RunPredicate → ℤ → List LastRunHistoryEntry → Type 0
  MayRun p now es = MayRunAfter p now es (latest_finished es)

  pub history_facts :
      (h : LastRunHistory) (disk : Disk Json)
      → let fresh = refresh_from_file platform h disk in
        (last_finished platform h disk ≡ (fresh, return (latest_finished fresh.entries)))
        × (last_success platform fresh disk ≡ (fresh, return (latest_success fresh.entries)))
        × (n_failures_since_last_success platform fresh disk ≡ (fresh, tally_all 0 fresh.entries))
  history_facts h disk =
      let fresh = refresh_from_file platform h disk in
      let again = refresh-refresh platform h disk in
      (
        (last_finished-latest platform h disk).0,
        rw again at (last_finished-latest platform fresh disk).1,
        rw again at (n_failures-tally platform fresh disk),
      )

  module _ (client : CheckClient) where
    -- The calls of an error report.
    abbrev pub reported : RunPredicate → Message → List CheckCall → List CheckCall
    reported p m calls = if p.check then ping_failure ∷ ping_log m ∷ calls else calls

    abbrev pub Answers : Type 0
    Answers = (calls : List CheckCall) → client calls ≡ none

    pub report_error_lem :
        (p : RunPredicate) (m : Message) (w : World platform)
        → Answers
        → report_error platform client p m w
          ≡ (return tt, record w { calls = reported p m w.calls })
    unfolding report_error
    report_error_lem p m w answers =
        ground
          (arith, answers (ping_log m ∷ w.calls), answers (ping_failure ∷ ping_log m ∷ w.calls))

    -- With a client that answers, the predicate returns true exactly when the policy allows the run,
    -- and otherwise false. It leaves the disk and the forced value alone, and refreshes the history.
    pub predicate-MayRun :
        (p : RunPredicate) (now : ℤ) (w : World platform)
        → Answers
        → let (r, w') = predicate platform client p now w in
          ((r ≡ return true) ↔ MayRun p now w'.history.entries)
          × ((r ≡ return true) ⊎ (r ≡ return false))
          × (w'.history ≡ refresh_from_file platform w.history w.disk)
          × (w'.disk ≡ w.disk)
          × (w'.forced ≡ w.forced)
    unfolding predicate elapsed
    predicate-MayRun p now w answers =
        grind (arith, history_facts w.history w.disk, report_error_lem)
