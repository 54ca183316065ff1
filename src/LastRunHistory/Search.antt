-- ===== src/LastRunHistory/Search.antt =====
-- The search for the last entry, of src/scheduling_util/_last_run_history.py.
use mathlib.Core.List.{reverse-cons, reverse-reverse, append_assoc}
use scheduling_util_py.Prelude.{
  ◌≡◌, inl, inr, true, false, Bool-cases, Option, none, some, List, [], ◌∷◌, ◌++◌, reverse, All,
  All-append, arith,
}
use scheduling_util_py.Prelude.Int.{ℤ, ◌<ℤ◌}
use scheduling_util_py.Outcome.{Outcome}
use scheduling_util_py.LastRunHistory.{
  Platform, Disk, LastRunHistory, LastRunHistoryEntry, EntryFilter, started, finished, entry_at,
  skips, find_loop, find_last_entry, refresh_from_file,
}

abbrev After : Option ℤ → ℤ → Type 0
After none t = Unit
After (some after) t = after <ℤ t

abbrev Before : Option ℤ → ℤ → Type 0
Before none t = Unit
Before (some before) t = t <ℤ before

abbrev HasOutcome : Option Outcome → Outcome → Type 0
HasOutcome none actual = Unit
HasOutcome (some wanted) actual = actual ≡ wanted

-- A started attempt has no outcome; asking for both kinds finds nothing.
abbrev OfKind : EntryFilter → LastRunHistoryEntry → Type 0
OfKind f (started a) = (f.finished_only ≡ false) × (f.outcome ≡ none)
OfKind f (finished a) = (f.started_only ≡ false) × HasOutcome f.outcome a.outcome

module _ (platform : Platform) where
  open platform use {Json, from_timestamp}

  -- The entry passes every filter that is given.
  abbrev pub Fits : EntryFilter → LastRunHistoryEntry → Type 0
  Fits f e =
      After f.after (from_timestamp (entry_at e))
      × Before f.before (from_timestamp (entry_at e))
      × OfKind f e

  -- `found` is the last entry that fits, and `none` only if no entry does.
  abbrev pub LastFit : EntryFilter → List LastRunHistoryEntry → Option LastRunHistoryEntry → Type 0
  LastFit f es none = All (λ e. ¬ Fits f e) es
  LastFit f es (some found) =
      (older newer : List LastRunHistoryEntry) × (es ≡ older ++ found ∷ newer)
      × Fits f found
      × All (λ e. ¬ Fits f e) newer

  skips-Fits : (f : EntryFilter) (e : LastRunHistoryEntry) → skips platform f e ≡ false → Fits f e
  skips-Fits f (started a) h = ground arith
  skips-Fits f (finished a) h = ground arith

  skips-not_Fits :
      (f : EntryFilter) (e : LastRunHistoryEntry) → skips platform f e ≡ true → ¬ Fits f e
  skips-not_Fits f (started a) h k = ground arith
  skips-not_Fits f (finished a) h k = ground arith

  LastFit-snoc :
      (f : EntryFilter) (es : List LastRunHistoryEntry) (e : LastRunHistoryEntry)
      (found : Option LastRunHistoryEntry)
      → ¬ Fits f e
      → LastFit f es found
      → LastFit f (es ++ e ∷ []) found
  LastFit-snoc f es e none out h = All-append (λ x. ¬ Fits f x) es (e ∷ []) h (out, tt)
  LastFit-snoc f es e (some found) out (older, newer, split, fits, none_newer) = (
    older,
    newer ++ e ∷ [],
    rw split (append_assoc older (found ∷ newer) (e ∷ [])),
    fits,
    All-append (λ x. ¬ Fits f x) newer (e ∷ []) none_newer (out, tt),
  )

  find_loop-LastFit :
      (f : EntryFilter) (es : List LastRunHistoryEntry)
      → LastFit f (reverse es) (find_loop platform f es)
  unfolding find_loop
  find_loop-LastFit f [] = tt
  find_loop-LastFit f (e ∷ es) = elim (Bool-cases (skips platform f e)) [
    | inl out ↦
        rw (out, reverse-cons)
          (LastFit-snoc f (reverse es) e (find_loop platform f es) (skips-not_Fits f e out)
            (find_loop-LastFit f es))
    | inr fits ↦ rw fits (reverse es, [], reverse-cons e es, skips-Fits f e fits, tt)
  ]

  -- `find_last_entry` returns the last of the refreshed entries that passes every given filter, and
  -- `None` exactly if no entry does.
  pub find_last_entry-LastFit :
      (f : EntryFilter) (h : LastRunHistory) (disk : Disk Json)
      → LastFit f
          (find_last_entry platform f h disk).0.entries
          (find_last_entry platform f h disk).1
  unfolding find_last_entry
  find_last_entry-LastFit f h disk =
      let es = (refresh_from_file platform h disk).entries in
      rw reverse-reverse at (find_loop-LastFit f (reverse es))
