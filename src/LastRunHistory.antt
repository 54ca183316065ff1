-- ===== src/LastRunHistory.antt =====
-- src/scheduling_util/_last_run_history.py: the history of attempts in a JSON file. The lock
-- around each operation makes it one function of the object and of the disk.
pub mod Discard
pub mod Failures
pub mod Search
pub mod Accessors
pub mod Append
pub mod Concurrent
pub mod Latest
use text.Mathlib.Text.{◌==◌ as str_eq}
use scheduling_util_py.Prelude.{
  ℕ, ◌+◌, String, ◌≡◌, Bool, true, false, ◌&&◌, ◌||◌, not, Option, none, some, List, [], ◌∷◌, ◌++◌,
  map, reverse, length, ltb, is_some, if◌then◌else◌, Result, return, raise, error,
  keyboard_interrupt, system_exit, no_code, int_code, text_code, zero, suc, ◌-◌, ◌*◌, ◌≤◌, ◌<◌, min,
  refl, sym, ap, ◌∙◌, ◌≢◌, ◌↔◌, ◌⊎◌, inl, inr, arith, leb, ◌==◌, ltb→lt, Bool-cases, drop, All,
  length-append, length-drop, All-append, All-every, ExitCode, Exception, Action, is_exception,
  pure, throw, and_then, ◌>>=◌, ◌>>◌, finally,
}
use scheduling_util_py.Prelude.Int.{
  ℤ, pos, pos_part, ltb_ℤ, leb_ℤ, neg_part, sub_ℕ, ◌-ℤ◌, ◌≤ℤ◌, ◌<ℤ◌, -ℤ_parts, int_laws, negsuc,
}
use scheduling_util_py.Outcome.{Outcome, success, failure, neutral, same_outcome}

-- `at` is a Unix timestamp in microseconds.
pub record LastRunAttemptStarted : Type 0 where
  pub at : ℤ

pub record LastRunAttemptFinished : Type 0 where
  pub at : ℤ
  pub outcome : Outcome
  pub details : String

pub data LastRunHistoryEntry : Type 0 where
  started : LastRunAttemptStarted → LastRunHistoryEntry
  finished : LastRunAttemptFinished → LastRunHistoryEntry

-- What the host and pydantic provide: JSON values, the validation and the dump of an entry, of which
-- the code relies on this round trip, and the conversion of a Unix timestamp to local time.
pub record Platform : Type 1 where
  pub Json : Type 0
  pub validate_python : Json → Option LastRunHistoryEntry
  pub dump_json : LastRunHistoryEntry → Json
  pub from_timestamp : ℤ → ℤ
  pub validate-dump : (e : LastRunHistoryEntry) → validate_python (dump_json e) ≡ some e

-- What `json.load` makes of a file: an error of decoding, a value that is no list, or a list.
pub data FileContent (J : Type 0) : Type 0 where
  undecodable no_list : FileContent J
  json_list : List J → FileContent J

-- The files of the disk by their paths.
abbrev pub Disk : Type 0 → Type 0
Disk J = String → Option (FileContent J)

abbrev pub write_file : {J : Type 0} → String → FileContent J → Disk J → Disk J
write_file path content disk p = if str_eq p path then some content else disk p

pub record LastRunHistory : Type 0 where
  pub entries : List LastRunHistoryEntry
  pub max_entries : ℕ
  pub path : Option String

-- `while len(self._entries) > self._max_entries: self._entries.pop(0)`
discard_old : ℕ → List LastRunHistoryEntry → List LastRunHistoryEntry
discard_old max_entries [] = []
discard_old max_entries (e ∷ es) =
    if ltb max_entries (length (e ∷ es)) then discard_old max_entries es else e ∷ es

unfoldable pub discard_old_entries : LastRunHistory → LastRunHistory
unfolding discard_old
discard_old_entries h = record h { entries = discard_old h.max_entries h.entries }

-- The filters of `find_last_entry`; the times are local.
pub record EntryFilter : Type 0 where
  pub before : Option ℤ
  pub after : Option ℤ
  pub started_only : Bool
  pub finished_only : Bool
  pub outcome : Option Outcome

abbrev pub is_started : LastRunHistoryEntry → Bool
is_started (started _) = true
is_started (finished _) = false

abbrev pub entry_at : LastRunHistoryEntry → ℤ
entry_at (started a) = a.at
entry_at (finished a) = a.at

-- The loop of `n_failures_since_last_success`, over the reversed entries.
count_failures : ℕ → List LastRunHistoryEntry → ℕ
count_failures n [] = n
count_failures n (started _ ∷ es) = count_failures n es
count_failures n (finished a ∷ es) = elim (a.outcome) [
  | success ↦ n
  | failure ↦ count_failures (n + 1) es
  | neutral ↦ count_failures n es
]

-- `entry.outcome != outcome`, for an outcome that is given
abbrev wrong_outcome : Option Outcome → Outcome → Bool
wrong_outcome none actual = false
wrong_outcome (some wanted) actual = not (same_outcome actual wanted)

abbrev wrong_kind : EntryFilter → LastRunHistoryEntry → Bool
wrong_kind f (started _) = f.finished_only || is_some f.outcome
wrong_kind f (finished a) = f.started_only || wrong_outcome f.outcome a.outcome

abbrev too_early : Option ℤ → ℤ → Bool
too_early none t = false
too_early (some after) t = leb_ℤ t after

abbrev too_late : Option ℤ → ℤ → Bool
too_late none t = false
too_late (some before) t = leb_ℤ before t

-- `assert isinstance(result, LastRunAttemptFinished)`, and the same for a started attempt
abbrev as_finished : Option LastRunHistoryEntry → Result (Option LastRunAttemptFinished)
as_finished none = return none
as_finished (some (finished a)) = return (some a)
as_finished (some (started _)) = raise (error "AssertionError" "")

abbrev as_started : Option LastRunHistoryEntry → Result (Option LastRunAttemptStarted)
as_started none = return none
as_started (some (started a)) = return (some a)
as_started (some (finished _)) = raise (error "AssertionError" "")

abbrev pub no_filter : EntryFilter
no_filter = record {
  before = none;
  after = none;
  started_only = false;
  finished_only = false;
  outcome = none;
}

module _ (platform : Platform) where
  open platform use {Json, validate_python, dump_json, from_timestamp}

  -- The loop of `load_history_entries_from_file`: an item that does not validate is skipped.
  load_items : List Json → List LastRunHistoryEntry
  load_items [] = []
  load_items (j ∷ js) =
      let rest = load_items js in elim (validate_python j) [ none ↦ rest | some e ↦ e ∷ rest ]

  pub load_history_entries_from_file : Option (FileContent Json) → List LastRunHistoryEntry
  unfolding load_items
  load_history_entries_from_file none = []
  load_history_entries_from_file (some undecodable) = []
  load_history_entries_from_file (some no_list) = []
  load_history_entries_from_file (some (json_list js)) = load_items js

  load_at : Option String → LastRunHistory → Disk Json → LastRunHistory
  unfolding discard_old_entries load_history_entries_from_file
  load_at none h disk = h
  load_at (some path) h disk =
      discard_old_entries (record h { entries = load_history_entries_from_file (disk path) })

  -- `_load_from_file_without_lock`
  load_from_file : LastRunHistory → Disk Json → LastRunHistory
  unfolding load_at
  load_from_file h disk = load_at h.path h disk

  refresh_at : Option String → LastRunHistory → Disk Json → LastRunHistory
  unfolding load_at
  refresh_at none h disk = h
  refresh_at (some path) h disk = if is_some (disk path) then load_at (some path) h disk else h

  -- `_refresh_from_file_without_lock`
  unfoldable pub refresh_from_file : LastRunHistory → Disk Json → LastRunHistory
  unfolding refresh_at
  refresh_from_file h disk = refresh_at h.path h disk

  persist_at : Option String → LastRunHistory → Disk Json → Disk Json
  persist_at none h disk = disk
  persist_at (some path) h disk = write_file path (json_list (map dump_json h.entries)) disk

  -- `_persist_to_file_without_lock`
  unfoldable pub persist_to_file : LastRunHistory → Disk Json → Disk Json
  unfolding persist_at
  persist_to_file h disk = persist_at h.path h disk

  begin_at : Option String → Disk Json → Disk Json
  begin_at none disk = disk
  begin_at (some path) disk = write_file path undecodable disk

  -- The same while `write_bytes`, which empties the file first, has not written all of the text.
  unfoldable pub begin_persist : LastRunHistory → Disk Json → Disk Json
  unfolding begin_at
  begin_persist h disk = begin_at h.path disk

  unfoldable pub append :
      LastRunHistoryEntry → LastRunHistory → Disk Json → LastRunHistory × Disk Json
  unfolding discard_old_entries
  append e h disk =
      let fresh = refresh_from_file h disk in
      let longer = record fresh { entries = fresh.entries ++ e ∷ [] } in
      let kept = discard_old_entries longer in (kept, persist_to_file kept disk)

  abbrev initial_entries : Option (List LastRunHistoryEntry) → List LastRunHistoryEntry
  initial_entries none = []
  initial_entries (some es) = es

  -- `__init__`; without a path `load_from_file` is not called, and would change nothing.
  unfoldable pub new_history :
      ℤ → Option String → Option (List LastRunHistoryEntry) → Disk Json → Result LastRunHistory
  unfolding load_from_file
  new_history max_entries path given disk =
      let start : LastRunHistory = record {
        entries = initial_entries given;
        max_entries = pos_part max_entries;
        path = path;
      } in
      if ltb_ℤ max_entries (pos 0)
      then raise (error "ValueError" "max_entries must be non-negative.")
      else return (if is_some given then start else load_from_file start disk)

  -- The property `entries`, and the properties and the method below, return the refreshed object too.
  entries : LastRunHistory → Disk Json → LastRunHistory × List LastRunHistoryEntry
  entries h disk = let fresh = refresh_from_file h disk in (fresh, fresh.entries)

  unfoldable pub n_failures_since_last_success : LastRunHistory → Disk Json → LastRunHistory × ℕ
  unfolding count_failures
  n_failures_since_last_success h disk =
      let fresh = refresh_from_file h disk in (fresh, count_failures 0 (reverse fresh.entries))

  -- Does the loop of `find_last_entry` pass over this entry?
  abbrev skips : EntryFilter → LastRunHistoryEntry → Bool
  skips f e =
      too_early f.after (from_timestamp (entry_at e))
      || too_late f.before (from_timestamp (entry_at e))
      || wrong_kind f e

  find_loop : EntryFilter → List LastRunHistoryEntry → Option LastRunHistoryEntry
  find_loop f [] = none
  find_loop f (e ∷ es) = if skips f e then find_loop f es else some e

  unfoldable pub find_last_entry :
      EntryFilter → LastRunHistory → Disk Json → LastRunHistory × Option LastRunHistoryEntry
  unfolding find_loop
  find_last_entry f h disk =
      let fresh = refresh_from_file h disk in (fresh, find_loop f (reverse fresh.entries))

  abbrev find_finished :
      EntryFilter
      → LastRunHistory
      → Disk Json
      → LastRunHistory × Result (Option LastRunAttemptFinished)
  find_finished f h disk =
      let (fresh, found) = find_last_entry f h disk in (fresh, as_finished found)

  unfoldable pub last_success :
      LastRunHistory → Disk Json → LastRunHistory × Result (Option LastRunAttemptFinished)
  last_success = find_finished (record no_filter { outcome = some success })

  pub last_neutral :
      LastRunHistory → Disk Json → LastRunHistory × Result (Option LastRunAttemptFinished)
  last_neutral = find_finished (record no_filter { outcome = some neutral })

  pub last_failure :
      LastRunHistory → Disk Json → LastRunHistory × Result (Option LastRunAttemptFinished)
  last_failure = find_finished (record no_filter { outcome = some failure })

  unfoldable pub last_finished :
      LastRunHistory → Disk Json → LastRunHistory × Result (Option LastRunAttemptFinished)
  last_finished = find_finished (record no_filter { finished_only = true })

  pub last_started :
      LastRunHistory → Disk Json → LastRunHistory × Result (Option LastRunAttemptStarted)
  last_started h disk =
      let (fresh, found) = find_last_entry (record no_filter { started_only = true }) h disk in
      (fresh, as_started found)
