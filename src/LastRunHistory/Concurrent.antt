-- ===== src/LastRunHistory/Concurrent.antt =====
-- `LastRunHistory.append` of src/scheduling_util/_last_run_history.py by several processes at once,
-- each with its own object for one file, under the lock of that file.
use scheduling_util_py.Prelude.{
  ℕ, String, ◌≡◌, refl, ap, ◌∙◌, true, some, List, [], ◌∷◌, ◌++◌, is_some, All,
}
use scheduling_util_py.LastRunHistory.{
  LastRunHistory, LastRunHistoryEntry, Platform, Disk, append, refresh_from_file, persist_to_file,
  discard_old_entries,
}
use scheduling_util_py.LastRunHistory.Append.{
  stored, append_all, Shares, appended, append_all-stored, refresh_frame,
}
use scheduling_util_py.LastRunHistory.Discard.{keep_last}
use scheduling_util_py.UnderLock.{System, Reach, in_turn}
use scheduling_util_py.UnderLock.Order.{Reach-in_turn}

module _ (platform : Platform) where
  open platform use {Json}

  -- The part of `append` behind `_refresh_from_file_without_lock`.
  abbrev pub add_and_persist :
      LastRunHistoryEntry → LastRunHistory → Disk Json → LastRunHistory × Disk Json
  add_and_persist e fresh disk =
      let kept = discard_old_entries (record fresh { entries = fresh.entries ++ e ∷ [] }) in
      (kept, persist_to_file platform kept disk)

  abbrev pub Appending :
      Disk Json
      → (ℕ → LastRunHistory)
      → System (Disk Json) LastRunHistory LastRunHistoryEntry
      → Type 0
  Appending = Reach (refresh_from_file platform) add_and_persist

  -- An object for the file, with the limit.
  abbrev pub HasFile : String → ℕ → LastRunHistory → Type 0
  HasFile path n h = (h.path ≡ some path) × (h.max_entries ≡ n)

  abbrev pub logged_entries : List (LastRunHistory × LastRunHistoryEntry) → List LastRunHistoryEntry
  logged_entries = appended platform

  in_turn-append_all :
      (ops : List (LastRunHistory × LastRunHistoryEntry)) (disk : Disk Json)
      → in_turn (refresh_from_file platform) add_and_persist ops disk ≡ append_all platform ops disk
  unfolding append
  in_turn-append_all [] disk = refl
  in_turn-append_all ((h, e) ∷ ops) disk = in_turn-append_all ops (append platform e h disk).1

  All-Shares :
      (path : String) (n : ℕ) (ops : List (LastRunHistory × LastRunHistoryEntry))
      → All (λ op. HasFile path n op.0) ops
      → Shares platform path n ops
  All-Shares path n [] all = tt
  All-Shares path n ((h, e) ∷ ops) (own, rest) = (own.0, own.1, All-Shares path n ops rest)

  refresh-HasFile :
      (path : String) (n : ℕ) (h : LastRunHistory) (disk : Disk Json)
      → HasFile path n h
      → HasFile path n (refresh_from_file platform h disk)
  refresh-HasFile path n h disk own =
      let (limit, file) = refresh_frame platform h disk in (file ∙ own.0, limit ∙ own.1)

  -- However the steps of processes that append to one existing file are interleaved, at every moment a
  -- reader with their limit sees the last of the old entries followed by all entries written since, in
  -- the order of the writes: none is lost to an append by another process.
  pub appends_interleaved :
      (path : String) (n : ℕ) (disk : Disk Json) (objects : ℕ → LastRunHistory)
      (s : System (Disk Json) LastRunHistory LastRunHistoryEntry)
      → ((i : ℕ) → HasFile path n (objects i))
      → is_some (disk path) ≡ true
      → Appending disk objects s
      → keep_last n (stored platform s.disk path)
        ≡ keep_last n (stored platform disk path ++ logged_entries s.log)
  unfolding discard_old_entries
  appends_interleaved path n disk objects s own exists reach =
      let (same, fit) =
        Reach-in_turn (refresh_from_file platform) add_and_persist (HasFile path n)
          (refresh-HasFile path n) (λ e h disk own. own) disk objects own reach in
      ap (λ d. keep_last n (stored platform d path)) (same ∙ in_turn-append_all s.log disk)
      ∙ append_all-stored platform path n s.log disk (All-Shares path n s.log fit) exists
