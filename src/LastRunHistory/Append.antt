-- ===== src/LastRunHistory/Append.antt =====
-- `LastRunHistory.append` of src/scheduling_util/_last_run_history.py on a disk that several
-- objects share.
use mathlib.Core.List.{append-nil, append_assoc}
use text.Mathlib.TextEquality.{eq_iff}
use text.Mathlib.TextPositions.{eq_refl}
use scheduling_util_py.Prelude.{
  ℕ, ◌≤◌, ◌≡◌, refl, ◌∙◌, ap, ◌≢◌, true, some, List, [], ◌∷◌, ◌++◌, map, length, is_some, String,
  arith,
}
use scheduling_util_py.LastRunHistory.{
  Platform, Disk, json_list, LastRunHistory, LastRunHistoryEntry, load_items,
  load_history_entries_from_file, refresh_from_file, persist_to_file, append,
}
use scheduling_util_py.LastRunHistory.Discard.{
  keep_last, discard_old_entries-eq, length-keep_last, keep_last-append,
}

module _ (platform : Platform) where
  open platform use {Json, validate_python, dump_json, validate-dump}

  load_items-map : (es : List LastRunHistoryEntry) → load_items platform (map dump_json es) ≡ es
  unfolding load_items
  load_items-map [] = refl
  load_items-map (e ∷ es) = rw (validate-dump e, load_items-map es)

  -- What another object would read from a path: all entries of its file that validate.
  abbrev pub stored : Disk Json → String → List LastRunHistoryEntry
  stored disk path = load_history_entries_from_file platform (disk path)

  -- What `append` starts from: the file's last entries, or the object's own without a file.
  abbrev pub known : LastRunHistory → Disk Json → List LastRunHistoryEntry
  known h disk = (refresh_from_file platform h disk).entries

  pub refresh_frame :
      (h : LastRunHistory) (disk : Disk Json)
      → ((refresh_from_file platform h disk).max_entries ≡ h.max_entries)
        × ((refresh_from_file platform h disk).path ≡ h.path)
  unfolding refresh_from_file
  refresh_frame h disk = ground arith

  append-entries :
      (e : LastRunHistoryEntry) (h : LastRunHistory) (disk : Disk Json)
      → (append platform e h disk).0
        ≡ record h { entries = keep_last h.max_entries (known h disk ++ e ∷ []) }
  unfolding append
  append-entries e h disk =
      let fresh = refresh_from_file platform h disk in
      discard_old_entries-eq (record fresh { entries = fresh.entries ++ e ∷ [] })
      ∙ ground (arith, refresh_frame h disk)

  pub known-file :
      (h : LastRunHistory) (disk : Disk Json) (path : String)
      → h.path ≡ some path
      → is_some (disk path) ≡ true
      → known h disk ≡ keep_last h.max_entries (stored disk path)
  unfolding refresh_from_file
  known-file h disk path e f =
      ground (arith, discard_old_entries-eq (record h { entries = stored disk path }))

  persist-stored :
      (h : LastRunHistory) (disk : Disk Json) (path : String)
      → h.path ≡ some path
      → persist_to_file platform h disk path ≡ some (json_list (map dump_json h.entries))
  unfolding persist_to_file
  persist-stored h disk path p = rw (p, eq_refl)

  persist_frame :
      (h : LastRunHistory) (disk : Disk Json) (path other : String)
      → h.path ≡ some path
      → other ≢ path
      → persist_to_file platform h disk other ≡ disk other
  unfolding persist_to_file
  persist_frame h disk path other p n = rw p (ground (arith, eq_iff other path))

  append-stored :
      (e : LastRunHistoryEntry) (h : LastRunHistory) (disk : Disk Json) (path : String)
      → h.path ≡ some path
      → stored (append platform e h disk).1 path ≡ (append platform e h disk).0.entries
  unfolding append load_history_entries_from_file
  append-stored e h disk path p =
      let kept = (append platform e h disk).0 in
      let kept_path : kept.path ≡ some path = (refresh_frame h disk).1 ∙ p in
      rw (persist-stored kept disk path kept_path) (load_items-map kept.entries)

  append_frame :
      (e : LastRunHistoryEntry) (h : LastRunHistory) (disk : Disk Json) (path other : String)
      → h.path ≡ some path
      → other ≢ path
      → (append platform e h disk).1 other ≡ disk other
  unfolding append
  append_frame e h disk path other p n =
      persist_frame (append platform e h disk).0 disk path other ((refresh_frame h disk).1 ∙ p) n

  -- After `append` to a history whose file exists, the object and the file hold the same entries: the
  -- last `max_entries` of the entries that were in the file before, with the new one behind them. No
  -- other file changes.
  append_lem :
      (e : LastRunHistoryEntry) (h : LastRunHistory) (disk : Disk Json) (path : String)
      → h.path ≡ some path
      → is_some (disk path) ≡ true
      → let (h', disk') = append platform e h disk in
        (h'.entries ≡ keep_last h.max_entries (stored disk path ++ e ∷ []))
        × (stored disk' path ≡ h'.entries)
        × (length h'.entries ≤ h.max_entries)
        × ((other : String) → other ≢ path → disk' other ≡ disk other)
  append_lem e h disk path p f =
      let kept =
        ap (λ (k : LastRunHistory). k.entries) (append-entries e h disk)
        ∙ ap (λ es. keep_last h.max_entries (es ++ e ∷ [])) (known-file h disk path p f)
        ∙ keep_last-append h.max_entries (stored disk path) (e ∷ []) in
      (
        kept,
        append-stored e h disk path p,
        rw kept (omega (arith, length-keep_last h.max_entries (stored disk path ++ e ∷ []))),
        λ other n. append_frame e h disk path other p n,
      )

  -- `append` changes the entries of the object alone.
  pub append_config :
      (e : LastRunHistoryEntry) (h : LastRunHistory) (disk : Disk Json)
      → ((append platform e h disk).0.max_entries ≡ h.max_entries)
        × ((append platform e h disk).0.path ≡ h.path)
  append_config e h disk = rw (append-entries e h disk) (refl, refl)

  -- Objects that share one file, each appending an entry in turn.
  abbrev pub append_all : List (LastRunHistory × LastRunHistoryEntry) → Disk Json → Disk Json
  append_all [] disk = disk
  append_all ((h, e) ∷ ops) disk = append_all ops (append platform e h disk).1

  abbrev pub Shares : String → ℕ → List (LastRunHistory × LastRunHistoryEntry) → Type 0
  Shares path n [] = Unit
  Shares path n ((h, e) ∷ ops) = (h.path ≡ some path) × (h.max_entries ≡ n) × Shares path n ops

  abbrev pub appended : List (LastRunHistory × LastRunHistoryEntry) → List LastRunHistoryEntry
  appended [] = []
  appended ((h, e) ∷ ops) = e ∷ appended ops

  pub append_file_stays :
      (e : LastRunHistoryEntry) (h : LastRunHistory) (disk : Disk Json) (path : String)
      → h.path ≡ some path
      → is_some ((append platform e h disk).1 path) ≡ true
  unfolding append
  append_file_stays e h disk path p =
      rw (persist-stored (append platform e h disk).0 disk path ((refresh_frame h disk).1 ∙ p))

  -- An existing file is one bounded log, shared by the objects with its path and one limit: after any
  -- number of appends, by objects whose own entries may be out of date, a reader with that limit sees
  -- the last of the old entries followed by all that were appended, in the order of the appends.
  pub append_all-stored :
      (path : String) (n : ℕ) (ops : List (LastRunHistory × LastRunHistoryEntry)) (disk : Disk Json)
      → Shares path n ops
      → is_some (disk path) ≡ true
      → keep_last n (stored (append_all ops disk) path)
        ≡ keep_last n (stored disk path ++ appended ops)
  append_all-stored path n [] disk s f = rw append-nil
  append_all-stored path n ((h, e) ∷ ops) disk (p, m, s) f =
      let (kept, written, _, _) = append_lem e h disk path p f in
      let disk' = (append platform e h disk).1 in
      append_all-stored path n ops disk' s (append_file_stays e h disk path p)
      ∙ ap (λ es. keep_last n (es ++ appended ops)) (written ∙ kept)
      ∙ rw m (keep_last-append n (stored disk path ++ e ∷ []) (appended ops))
      ∙ ap (λ es. keep_last n es) (append_assoc (stored disk path) (e ∷ []) (appended ops))
