-- ===== src/LastRun/Waits.antt =====
-- The wrapper and the run predicate of src/scheduling_util/_last_run.py together.
use mathlib.Core.List.{append_assoc}
use scheduling_util_py.Prelude.{
  ◌≤◌, ◌≡◌, sym, ◌∙◌, ap, ◌≢◌, ◌⊎◌, Bool, true, false, String, none, some, List, [], ◌∷◌, ◌++◌,
  is_some, Result, return, Action, arith, inl, inr,
}
use scheduling_util_py.Prelude.Int.{ℤ}
use scheduling_util_py.Outcome.{Outcome, success, failure, neutral}
use scheduling_util_py.LastRunHistory.{
  Platform, LastRunHistoryEntry, LastRunAttemptFinished, LastRunHistory, finished,
}
use scheduling_util_py.LastRunHistory.Discard.{keep_last}
use scheduling_util_py.LastRunHistory.Append.{stored, known-file}
use scheduling_util_py.LastRunHistory.Latest.{latest_finished, latest_finished-keep_last}
use scheduling_util_py.World.{World, CheckClient}
use scheduling_util_py.RunPredicate.{RunPredicate, success_schedule, predicate, should_run}
use scheduling_util_py.RunPredicate.Decision.{Elapsed, MayRun, Answers, predicate-MayRun}
use scheduling_util_py.LastRun.{AssessResult, started_entry, wrapper}
use scheduling_util_py.LastRun.Records.{KeepsHistory, begun, wrapper_records, wrapper_file_stays}

abbrev pub period_after : RunPredicate → Outcome → ℤ
period_after p success = p.success_period
period_after p failure = p.failure_period
period_after p neutral = p.neutral_period

module _ (platform : Platform) (client : CheckClient) where
  not-MayRun :
      (p : RunPredicate) (now : ℤ) (es : List LastRunHistoryEntry) (a : LastRunAttemptFinished)
      → latest_finished es ≡ some a
      → ¬ Elapsed platform now a (period_after p a.outcome)
      → (a.outcome ≢ failure) ⊎ (p.on_max_failures ≢ success_schedule)
      → ¬ MayRun platform p now es
  not-MayRun p now es a latest early other may = ground arith

  should_run-unforced :
      (p : RunPredicate) (now : ℤ) (v : World platform)
      → v.forced ≡ none
      → should_run platform client p now v ≡ predicate platform client p now v
  unfolding should_run
  should_run-unforced p now v h = rw h

  refuses :
      (r : Result Bool)
      → (r ≡ return true) ⊎ (r ≡ return false)
      → r ≢ return true
      → r ≡ return false
  refuses r (inl yes_run) no_run = absurd (no_run yes_run)
  refuses r (inr no_run) _ = no_run

  -- The predicate refuses in every world on a file whose last finished attempt is recent.
  should_run-recent :
      (p : RunPredicate) (now : ℤ) (v : World platform) (path : String)
      (es : List LastRunHistoryEntry) (a : LastRunAttemptFinished)
      → Answers platform client
      → v.forced ≡ none
      → v.history.path ≡ some path
      → is_some (v.disk path) ≡ true
      → 1 ≤ v.history.max_entries
      → keep_last v.history.max_entries (stored platform v.disk path)
        ≡ keep_last v.history.max_entries (es ++ finished a ∷ [])
      → ¬ Elapsed platform now a (period_after p a.outcome)
      → (a.outcome ≢ failure) ⊎ (p.on_max_failures ≢ success_schedule)
      → ((should_run platform client p now v).0 ≡ return false)
        × ((should_run platform client p now v).1.disk ≡ v.disk)
  should_run-recent p now v path es a answers unforced at file room holds early other =
      let (allowed, decided, refreshed, disk, _) =
        predicate-MayRun platform client p now v answers in
      let n = v.history.max_entries in
      let seen =
        ap (λ (h : LastRunHistory). h.entries) refreshed
        ∙ known-file platform v.history v.disk path at file
        ∙ holds in
      let latest = ap latest_finished seen ∙ latest_finished-keep_last n es a room in
      let never =
        not-MayRun p now (predicate platform client p now v).1.history.entries a latest early
          other in
      rw (should_run-unforced p now v unforced)
        (refuses (predicate platform client p now v).0 decided (λ e. never (allowed.0 e)), disk)

  skipped :
      {R : Type 0} (p : RunPredicate) (now : ℤ) (assess : AssessResult R)
      (f : Action (World platform) R) (t₂ t₃ : ℤ) (v : World platform)
      → (should_run platform client p now v).0 ≡ return false
      → (should_run platform client p now v).1.disk ≡ v.disk
      → ((wrapper platform assess (should_run platform client p now) f t₂ t₃ v).0 ≡ return none)
        × ((wrapper platform assess (should_run platform client p now) f t₂ t₃ v).1.disk ≡ v.disk)
  unfolding wrapper
  skipped p now assess f t₂ t₃ v refused disk = ground arith

  module _ {R : Type 0} (assess : AssessResult R) (f : Action (World platform) R) (t₀ t₁ : ℤ) where
    -- After an attempt whose outcome is `o`, by a function that leaves the history alone, with an
    -- existing history file and a client that answers: while the period of `o` has not passed since
    -- the attempt ended, a scheduler on the same file, with the same limit of at least one entry and
    -- no forced value, skips its function, whatever that is, and leaves the disk as it is. (A failure
    -- under the policy `success_schedule` is left out: there the last success decides.)
    pub wrapper_waits :
        (ask : Action (World platform) Bool) (w w₁ v : World platform) (path : String)
        → ask w ≡ (return true, w₁)
        → w₁.history.path ≡ some path
        → is_some (w₁.disk path) ≡ true
        → KeepsHistory platform assess ask f t₀ t₁
        → Answers platform client
        → v.disk ≡ (wrapper platform assess ask f t₀ t₁ w).1.disk
        → v.history.path ≡ some path
        → v.history.max_entries ≡ w₁.history.max_entries
        → 1 ≤ v.history.max_entries
        → v.forced ≡ none
        → (p : RunPredicate) (now : ℤ)
        → let (o, details) = assess (f (begun platform assess ask f t₀ t₁ w₁)).0 in
          ¬ Elapsed platform now
            (record { at = t₁; outcome = o; details = details })
            (period_after p o)
          → (o ≢ failure) ⊎ (p.on_max_failures ≢ success_schedule)
          → (assess' : AssessResult R) (f' : Action (World platform) R) (t₂ t₃ : ℤ)
          → ((wrapper platform assess' (should_run platform client p now) f' t₂ t₃ v).0
              ≡ return none)
            × ((wrapper platform assess' (should_run platform client p now) f' t₂ t₃ v).1.disk
                ≡ v.disk)
    wrapper_waits ask w w₁ v path allowed at file keeps answers same v_path limit room unforced p
          now early other assess' f' t₂ t₃ =
        let (result, _) = f (begun platform assess ask f t₀ t₁ w₁) in
        let (o, details) = assess result in
        let a : LastRunAttemptFinished = record { at = t₁; outcome = o; details = details } in
        let n = v.history.max_entries in
        let es = stored platform w₁.disk path ++ started_entry t₀ ∷ [] in
        let disk' = (wrapper platform assess ask f t₀ t₁ w).1.disk in
        let (recorded, _) =
          wrapper_records platform assess ask f t₀ t₁ w w₁ path allowed at file keeps in
        let regrouped =
          append_assoc (stored platform w₁.disk path) (started_entry t₀ ∷ []) (finished a ∷ []) in
        let holds : keep_last n (stored platform v.disk path)
            ≡ keep_last n (es ++ finished a ∷ []) =
          rw (same, limit) (recorded ∙ ap (keep_last w₁.history.max_entries) (sym regrouped)) in
        let there : is_some (v.disk path) ≡ true =
          rw same (wrapper_file_stays platform assess ask f t₀ t₁ w w₁ path allowed at keeps) in
        let (refused, disk) =
          should_run-recent p now v path es a answers unforced v_path there room holds early
            other in
        skipped p now assess' f' t₂ t₃ v refused disk
