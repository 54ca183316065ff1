-- ===== src/Tests/Histories.antt =====
-- Runs of the history file and of the run predicate.
use scheduling_util_py.Prelude.{◌≡◌, refl, List, [], ◌∷◌}
use scheduling_util_py.Prelude.Int.{pos}
use scheduling_util_py.Outcome.{success, failure}
use scheduling_util_py.LastRunHistory.{
  LastRunHistory, LastRunHistoryEntry, append, n_failures_since_last_success, refresh_from_file,
  discard_old_entries, persist_to_file,
}
use scheduling_util_py.Tests.Samples.{utc, started_at, finished_at, holding, history_at}

abbrev old : List LastRunHistoryEntry
old = started_at (pos 1) ∷ finished_at (pos 2) success ∷ finished_at (pos 3) failure ∷ []

abbrev new_entry : LastRunHistoryEntry
new_entry = finished_at (pos 9) failure

append_trims :
    (append utc new_entry history_at (holding old)).0.entries
    ≡ finished_at (pos 2) success ∷ finished_at (pos 3) failure ∷ new_entry ∷ []
unfolding append refresh_from_file discard_old_entries
append_trims = refl

two_failures :
    (n_failures_since_last_success utc history_at
      (append utc new_entry history_at (holding old)).1).1
    ≡ 2
unfolding n_failures_since_last_success append refresh_from_file persist_to_file
two_failures = refl

abbrev two_appends : List (LastRunHistory × LastRunHistoryEntry)
two_appends = (history_at, new_entry) ∷ (history_at, started_at (pos 20)) ∷ []
