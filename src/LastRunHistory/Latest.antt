-- ===== src/LastRunHistory/Latest.antt =====
-- The last attempts of a history by a pass from its start, for the searches of
-- src/scheduling_util/_last_run_history.py from its end.
use mathlib.Core.List.{reverse-cons, reverse-reverse}
use mathlib.Core.Option
use scheduling_util_py.LastRunHistory.Discard.{keep_last, drop-append_le}
use scheduling_util_py.Prelude.{
  ℕ, ◌≤◌, ◌-◌, length, length-append, drop, ◌≡◌, refl, ◌∙◌, ap, Option, none, some, List, [], ◌∷◌,
  ◌++◌, reverse, true, Result, return, arith,
}
use scheduling_util_py.Outcome.{success, failure, neutral}
use scheduling_util_py.LastRunHistory.{
  Platform, Disk, LastRunHistory, LastRunHistoryEntry, LastRunAttemptFinished, no_filter, started,
  finished, as_finished, find_loop, find_last_entry, refresh_from_file, last_finished, last_success,
}

abbrev newer_finished :
    Option LastRunAttemptFinished → LastRunHistoryEntry → Option LastRunAttemptFinished
newer_finished found (started _) = found
newer_finished found (finished a) = some a

abbrev newer_success :
    Option LastRunAttemptFinished → LastRunHistoryEntry → Option LastRunAttemptFinished
newer_success found (started _) = found
newer_success found (finished a) = elim (a.outcome) [
  | success ↦ some a
  | failure ↦ found
  | neutral ↦ found
]

abbrev scan :
    (Option LastRunAttemptFinished → LastRunHistoryEntry → Option LastRunAttemptFinished)
    → Option LastRunAttemptFinished
    → List LastRunHistoryEntry
    → Option LastRunAttemptFinished
scan newer found [] = found
scan newer found (e ∷ es) = scan newer (newer found e) es

-- The last finished attempt, and the last successful one.
abbrev pub latest_finished : List LastRunHistoryEntry → Option LastRunAttemptFinished
latest_finished = scan newer_finished none

abbrev pub latest_success : List LastRunHistoryEntry → Option LastRunAttemptFinished
latest_success = scan newer_success none

scan-snoc :
    (newer : Option LastRunAttemptFinished → LastRunHistoryEntry → Option LastRunAttemptFinished)
    (e : LastRunHistoryEntry) (found : Option LastRunAttemptFinished)
    (es : List LastRunHistoryEntry)
    → scan newer found (es ++ e ∷ []) ≡ newer (scan newer found es) e
scan-snoc newer e found [] = refl
scan-snoc newer e found (x ∷ xs) = scan-snoc newer e (newer found x) xs

scan-reverse :
    (newer : Option LastRunAttemptFinished → LastRunHistoryEntry → Option LastRunAttemptFinished)
    (e : LastRunHistoryEntry) (es : List LastRunHistoryEntry)
    → scan newer none (reverse (e ∷ es)) ≡ newer (scan newer none (reverse es)) e
scan-reverse newer e es = rw (reverse-cons e es) (scan-snoc newer e none (reverse es))

-- The newest of at least one kept entry is the last one.
pub latest_finished-keep_last :
    (n : ℕ) (es : List LastRunHistoryEntry) (a : LastRunAttemptFinished)
    → 1 ≤ n
    → latest_finished (keep_last n (es ++ finished a ∷ [])) ≡ some a
latest_finished-keep_last n es a h =
    let k = length (es ++ finished a ∷ []) - n in
    rw (drop-append_le k es (finished a ∷ []) (omega (arith, length-append es (finished a ∷ []))))
      (scan-snoc newer_finished (finished a) none (drop k es))

module _ (platform : Platform) where
  open platform use {Json}

  find_loop-finished :
      (es : List LastRunHistoryEntry)
      → find_loop platform (record no_filter { finished_only = true }) es
        ≡ Option.map finished (latest_finished (reverse es))
  unfolding find_loop
  find_loop-finished [] = refl
  find_loop-finished (started a ∷ es) =
      rw (scan-reverse newer_finished (started a) es) (find_loop-finished es)
  find_loop-finished (finished a ∷ es) = rw (scan-reverse newer_finished (finished a) es)

  find_loop-success :
      (es : List LastRunHistoryEntry)
      → find_loop platform (record no_filter { outcome = some success }) es
        ≡ Option.map finished (latest_success (reverse es))
  unfolding find_loop
  find_loop-success [] = refl
  find_loop-success (started a ∷ es) =
      rw (scan-reverse newer_success (started a) es) (find_loop-success es)
  find_loop-success (finished a ∷ es) =
      rw (scan-reverse newer_success (finished a) es) (ground (arith, find_loop-success es))

  as_finished-map :
      (o : Option LastRunAttemptFinished) → as_finished (Option.map finished o) ≡ return o
  as_finished-map none = refl
  as_finished-map (some a) = refl

  -- The backward searches behind `last_finished` and `last_success` find what the forward passes
  -- over the refreshed entries find.
  pub last_finished-latest :
      (h : LastRunHistory) (disk : Disk Json)
      → let fresh = refresh_from_file platform h disk in
        (last_finished platform h disk ≡ (fresh, return (latest_finished fresh.entries)))
        × (last_success platform h disk ≡ (fresh, return (latest_success fresh.entries)))
  unfolding last_finished last_success find_last_entry
  last_finished-latest h disk =
      let fresh = refresh_from_file platform h disk in
      let es = fresh.entries in
      let outcome : (o : Option LastRunHistoryEntry) (a : Option LastRunAttemptFinished)
          → o ≡ Option.map finished a
          → ◌≡◌ {A = LastRunHistory × Result (Option LastRunAttemptFinished)} (fresh, as_finished o)
              (fresh, return a) =
        λ o a e. ap (λ r. (fresh, as_finished r)) e ∙ ap (λ r. (fresh, r)) (as_finished-map a) in
      (
        outcome _ (latest_finished es) (
            find_loop-finished (reverse es)
            ∙ ap (λ xs. Option.map finished (latest_finished xs)) (reverse-reverse es)),
        outcome _ (latest_success es) (
            find_loop-success (reverse es)
            ∙ ap (λ xs. Option.map finished (latest_success xs)) (reverse-reverse es)),
      )

  pub refresh-refresh :
      (h : LastRunHistory) (disk : Disk Json)
      → refresh_from_file platform (refresh_from_file platform h disk) disk
        ≡ refresh_from_file platform h disk
  unfolding refresh_from_file
  refresh-refresh h disk = ground arith
