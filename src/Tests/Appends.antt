-- ===== src/Tests/Appends.antt =====
-- Two processes that append to one history file
-- (src/scheduling_util/_last_run_history.py).
use scheduling_util_py.Prelude.{ℕ, ◌≡◌, refl, Option, [], ◌∷◌, ◌++◌}
use scheduling_util_py.Prelude.Int.{pos}
use scheduling_util_py.Outcome.{success, failure}
use scheduling_util_py.LastRunHistory.{Disk, LastRunHistory, LastRunHistoryEntry}
use scheduling_util_py.LastRunHistory.Discard.{keep_last}
use scheduling_util_py.LastRunHistory.Append.{stored}
use scheduling_util_py.LastRunHistory.Concurrent.{Appending, logged_entries, appends_interleaved}
use scheduling_util_py.UnderLock.{System, begin, next, call, lock, read, write, unlock}
use scheduling_util_py.Tests.Samples.{utc, started_at, finished_at, holding, history_at}

abbrev kept : Disk (Option LastRunHistoryEntry)
kept = holding (started_at (pos 1) ∷ finished_at (pos 2) success ∷ [])

abbrev objects_of : ℕ → LastRunHistory
objects_of i = history_at

abbrev first_entry : LastRunHistoryEntry
first_entry = started_at (pos 8)

abbrev second_entry : LastRunHistoryEntry
second_entry = finished_at (pos 9) failure

-- Process 1 calls while process 0 has the lock, and appends behind it.
abbrev both_appended :
    (s : System (Disk (Option LastRunHistoryEntry)) LastRunHistory LastRunHistoryEntry) × Appending
      utc kept objects_of s
both_appended = (
  _,
  next
      (next
        (next
          (next
            (next
              (next
                (next (next (next begin (call 0 first_entry refl)) (lock 0 first_entry refl refl))
                  (call 1 second_entry refl))
                (read 0 first_entry refl))
              (write 0 history_at first_entry refl))
            (unlock 0 refl))
          (lock 1 second_entry refl refl))
        (read 1 second_entry refl))
      (write 1 history_at second_entry refl),
)

both_logged : logged_entries utc both_appended.0.log ≡ first_entry ∷ second_entry ∷ []
both_logged = refl

appends_interleaved_example :
    keep_last 3 (stored utc both_appended.0.disk "job.json")
    ≡ keep_last 3 (stored utc kept "job.json" ++ logged_entries utc both_appended.0.log)
appends_interleaved_example =
    appends_interleaved utc "job.json" 3 kept objects_of both_appended.0 (λ i. (refl, refl)) refl
      both_appended.1
