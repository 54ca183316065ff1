-- ===== src/LastRunHistory/Accessors.antt =====
-- The properties `last_success`, …, `last_started` of src/scheduling_util/_last_run_history.py.
use mathlib.Core.Option
use scheduling_util_py.Prelude.{
  ◌≡◌, refl, true, ◌||◌, is_some, Option, none, some, List, Result, return, arith,
}
use scheduling_util_py.Outcome.{success, failure, neutral}
use scheduling_util_py.LastRunHistory.{
  Platform, Disk, LastRunHistory, LastRunHistoryEntry, LastRunAttemptFinished,
  LastRunAttemptStarted, EntryFilter, no_filter, started, finished, as_finished, as_started,
  find_last_entry, refresh_from_file, last_success, last_neutral, last_failure, last_finished,
  last_started,
}
use scheduling_util_py.LastRunHistory.Search.{LastFit, find_last_entry-LastFit}

module _ (platform : Platform) where
  open platform use {Json}

  -- The accessor refreshes the object, passes its assertion, and returns the last attempt that fits.
  abbrev pub FindsFinished :
      EntryFilter
      → LastRunHistory
      → Disk Json
      → LastRunHistory × Result (Option LastRunAttemptFinished)
      → Type 0
  FindsFinished f h disk answer =
      (answer.0 ≡ refresh_from_file platform h disk)
      × ((r : Option LastRunAttemptFinished) × (answer.1 ≡ return r)
          × LastFit platform f answer.0.entries (Option.map finished r))

  abbrev pub FindsStarted :
      EntryFilter
      → LastRunHistory
      → Disk Json
      → LastRunHistory × Result (Option LastRunAttemptStarted)
      → Type 0
  FindsStarted f h disk answer =
      (answer.0 ≡ refresh_from_file platform h disk)
      × ((r : Option LastRunAttemptStarted) × (answer.1 ≡ return r)
          × LastFit platform f answer.0.entries (Option.map started r))

  as_finished-LastFit :
      (f : EntryFilter) (es : List LastRunHistoryEntry) (found : Option LastRunHistoryEntry)
      → (f.finished_only || is_some f.outcome) ≡ true
      → LastFit platform f es found
      → (r : Option LastRunAttemptFinished) × (as_finished found ≡ return r)
        × LastFit platform f es (Option.map finished r)
  as_finished-LastFit f es none k h = (none, refl, h)
  as_finished-LastFit f es (some (finished a)) k h = (some a, refl, h)
  as_finished-LastFit f es (some (started a)) k (older, newer, split, fits, rest) =
      absurd (ground arith)

  as_started-LastFit :
      (f : EntryFilter) (es : List LastRunHistoryEntry) (found : Option LastRunHistoryEntry)
      → f.started_only ≡ true
      → LastFit platform f es found
      → (r : Option LastRunAttemptStarted) × (as_started found ≡ return r)
        × LastFit platform f es (Option.map started r)
  as_started-LastFit f es none k h = (none, refl, h)
  as_started-LastFit f es (some (started a)) k h = (some a, refl, h)
  as_started-LastFit f es (some (finished a)) k (older, newer, split, fits, rest) =
      absurd (ground arith)

  finds_finished :
      (f : EntryFilter) (h : LastRunHistory) (disk : Disk Json)
      → (f.finished_only || is_some f.outcome) ≡ true
      → FindsFinished f h disk
          ((find_last_entry platform f h disk).0, as_finished (find_last_entry platform f h disk).1)
  unfolding find_last_entry
  finds_finished f h disk k = (
    refl,
    as_finished-LastFit f (refresh_from_file platform h disk).entries
        (find_last_entry platform f h disk).1 k (find_last_entry-LastFit platform f h disk),
  )

  -- `last_success`, `last_neutral`, `last_failure`, `last_finished` and `last_started` return the last
  -- attempt of the kind that they are named after, or `None` if there is none; no assertion fails.
  last_finished-FindsFinished :
      (h : LastRunHistory) (disk : Disk Json)
      → FindsFinished
          (record no_filter { outcome = some success })
          h
          disk
          (last_success platform h disk)
        × FindsFinished
            (record no_filter { outcome = some neutral })
            h
            disk
            (last_neutral platform h disk)
        × FindsFinished
            (record no_filter { outcome = some failure })
            h
            disk
            (last_failure platform h disk)
        × FindsFinished
            (record no_filter { finished_only = true })
            h
            disk
            (last_finished platform h disk)
        × FindsStarted
            (record no_filter { started_only = true })
            h
            disk
            (last_started platform h disk)
  unfolding last_success last_neutral last_failure last_finished last_started find_last_entry
  last_finished-FindsFinished h disk =
      let f = record no_filter { started_only = true } in
      (
        finds_finished (record no_filter { outcome = some success }) h disk refl,
        finds_finished (record no_filter { outcome = some neutral }) h disk refl,
        finds_finished (record no_filter { outcome = some failure }) h disk refl,
        finds_finished (record no_filter { finished_only = true }) h disk refl,
        (
          refl,
          as_started-LastFit f (refresh_from_file platform h disk).entries
              (find_last_entry platform f h disk).1 refl
              (find_last_entry-LastFit platform f h disk),
        ),
      )
