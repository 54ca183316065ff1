-- ===== src/Schedule/Prepare/Reset.antt =====
-- The first decision with an empty or a broken history (src/scheduling_util/_schedule.py,
-- src/scheduling_util/_last_run_history.py).
use text.Mathlib.Text.{◌==◌ as str_eq}
use text.Mathlib.TextPositions.{eq_refl}
use scheduling_util_py.Prelude.{
  ap, ◌∙◌, ◌⊎◌, inl, inr, Bool-cases, return, String, ◌≡◌, refl, Bool, true, false, Option, none,
  some, [], arith, if◌then◌else◌,
}
use scheduling_util_py.Prelude.Int.{ℤ, pos_part, ◌≤ℤ◌, ltb_ℤ, pos}
use scheduling_util_py.LastRunHistory.{
  Platform, Disk, LastRunHistory, refresh_from_file, new_history, find_last_entry, last_finished,
  begin_persist, undecodable,
}
use scheduling_util_py.World.{World, CheckClient}
use scheduling_util_py.RunPredicate.{RunPredicate, predicate}
use scheduling_util_py.Schedule.Prepare.{RunArguments, create_run_predicate, last_run_path, prepare}

module _ (platform : Platform) (is_directory : String → Bool) where
  open platform use {Json}

  -- A predicate and an attempt state from which the first run is allowed at any time.
  abbrev pub Fresh : RunPredicate → World platform → Type 0
  Fresh p w =
      (w.history.entries ≡ [])
      × ((client : CheckClient) (now : ℤ) → (predicate platform client p now w).0 ≡ return true)

  -- A process died while it wrote a history to this path.
  abbrev pub HalfWritten : String → Disk Json → Type 0
  HalfWritten path disk =
      (h : LastRunHistory) × (before : Disk Json) × (h.path ≡ some path)
      × (disk ≡ begin_persist platform h before)

  start_of : RunArguments → String → LastRunHistory
  start_of a path = record {
    entries = [];
    max_entries = pos_part a.max_history_entries;
    path = some path;
  }

  reset-Fresh :
      (a : RunArguments) (name : Option String) (check : Bool) (uuid : String) (disk : Disk Json)
      → is_directory (last_run_path a name uuid) ≡ false
      → pos 0 ≤ℤ a.max_history_entries
      → a.last_run_reset ≡ true
      → (p : RunPredicate) × (w : World platform) × (prepare platform is_directory a name check uuid
            disk
          ≡ return (p, w))
        × Fresh p w
  unfolding prepare new_history predicate last_finished find_last_entry refresh_from_file start_of
  reset-Fresh a name check uuid disk file limit reset =
      let fits : ltb_ℤ a.max_history_entries (pos 0) ≡ false = ground (arith, limit) in
      let cleared : Disk Json =
        λ p. if str_eq p (last_run_path a name uuid) then none else disk p in
      (
        create_run_predicate a check,
        record {
          history = start_of a (last_run_path a name uuid);
          disk = cleared;
          forced = none;
          calls = [];
        },
        rw (reset, file, fits, eq_refl (last_run_path a name uuid), file) refl,
        (refl, λ client now. rw (eq_refl (last_run_path a name uuid)) refl),
      )

  half_written-Fresh :
      (a : RunArguments) (name : Option String) (check : Bool) (uuid : String) (disk : Disk Json)
      → is_directory (last_run_path a name uuid) ≡ false
      → pos 0 ≤ℤ a.max_history_entries
      → a.last_run_reset ≡ false
      → disk (last_run_path a name uuid) ≡ some undecodable
      → (p : RunPredicate) × (w : World platform) × (prepare platform is_directory a name check uuid
            disk
          ≡ return (p, w))
        × Fresh p w
  unfolding prepare new_history predicate last_finished find_last_entry refresh_from_file start_of
  half_written-Fresh a name check uuid disk file limit kept broken =
      let fits : ltb_ℤ a.max_history_entries (pos 0) ≡ false = ground (arith, limit) in
      (
        create_run_predicate a check,
        record {
          history = start_of a (last_run_path a name uuid);
          disk = disk;
          forced = none;
          calls = [];
        },
        rw (kept, file, fits, broken) refl,
        (refl, λ client now. rw broken refl),
      )

  undecodable_at :
      (path : String) (disk : Disk Json) → HalfWritten path disk → disk path ≡ some undecodable
  unfolding begin_persist
  undecodable_at path disk (h, before, at, left) =
      ap (λ (d : Disk Json). d path) left ∙ rw (at, eq_refl path) refl

  -- With `last_run_reset`, or after a process died while it wrote the history, `schedule` starts with an
  -- empty history, whatever attempts were in it, and the run predicate allows the first run whatever
  -- the time is. The path is no directory and the limit of entries is not negative.
  pub prepare-Fresh :
      (a : RunArguments) (name : Option String) (check : Bool) (uuid : String) (disk : Disk Json)
      → is_directory (last_run_path a name uuid) ≡ false
      → pos 0 ≤ℤ a.max_history_entries
      → (a.last_run_reset ≡ true) ⊎ HalfWritten (last_run_path a name uuid) disk
      → (p : RunPredicate) × (w : World platform) × (prepare platform is_directory a name check uuid
            disk
          ≡ return (p, w))
        × Fresh p w
  prepare-Fresh a name check uuid disk file limit (inl reset) =
      reset-Fresh a name check uuid disk file limit reset
  prepare-Fresh a name check uuid disk file limit (inr left) = elim (Bool-cases a.last_run_reset) [
    | inl reset ↦ reset-Fresh a name check uuid disk file limit reset
    | inr kept ↦
        half_written-Fresh a name check uuid disk file limit kept (undecodable_at _ disk left)
  ]
