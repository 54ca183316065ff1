-- ===== src/RollingWindowRateLimiter.antt =====
-- `RollingWindowRateLimiter` of src/scheduling_util/_rate_limiter.py. Times are local times in
-- microseconds. The lock around each operation makes it one function of the object and the disk.
pub mod Window
pub mod Write
use text.Mathlib.Text.{◌==◌ as str_eq}
use scheduling_util_py.Prelude.{
  ℕ, ◌≡◌, Bool, true, false, String, Option, none, some, List, [], ◌∷◌, ◌++◌, map, length, ltb,
  if◌then◌else◌, Exception, error, Result, return, raise,
}
use scheduling_util_py.Prelude.Int.{ℤ, pos, pos_part, ◌-ℤ◌, ltb_ℤ}

-- The items of the state file: `read_item` is `datetime.fromtimestamp(float(item))`, which may
-- raise, and `write_item` the JSON of `timestamp.timestamp()`. Local times are taken to come back
-- from the file as they were.
pub record TimestampCodec : Type 1 where
  pub Json : Type 0
  pub read_item : Json → Option ℤ
  pub write_item : ℤ → Json
  pub read-write : (t : ℤ) → read_item (write_item t) ≡ some t

-- The text of a state file: only white space, no JSON, no list, or a list.
pub data StateText (J : Type 0) : Type 0 where
  blank no_json no_list : StateText J
  json_list : List J → StateText J

abbrev pub StateDisk : Type 0 → Type 0
StateDisk J = String → Option (StateText J)

pub record RollingWindowRateLimiter : Type 0 where
  pub max_events : ℕ
  pub window : ℤ
  pub path : Option String
  pub timestamps : List ℤ

abbrev pub value_error : Exception
value_error = error "ValueError" "Invalid rolling rate limiter state"

prune : ℤ → List ℤ → List ℤ
prune cutoff [] = []
prune cutoff (t ∷ ts) = let rest = prune cutoff ts in if ltb_ℤ cutoff t then t ∷ rest else rest

unfoldable pub prune_timestamps : ℤ → RollingWindowRateLimiter → RollingWindowRateLimiter
unfolding prune
prune_timestamps now l = record l { timestamps = prune (now -ℤ l.window) l.timestamps }

-- `_is_ready_at`, which prunes the object.
unfoldable pub is_ready_at : ℤ → RollingWindowRateLimiter → Bool × RollingWindowRateLimiter
is_ready_at now l =
    let pruned = prune_timestamps now l in
    (ltb (length pruned.timestamps) pruned.max_events, pruned)

module _ (codec : TimestampCodec) where
  open codec use {Json, read_item, write_item}

  abbrev cons_item : Option ℤ → Option (List ℤ) → Option (List ℤ)
  cons_item (some t) (some ts) = some (t ∷ ts)
  cons_item _ _ = none

  read_items : List Json → Option (List ℤ)
  read_items [] = some []
  read_items (j ∷ js) = cons_item (read_item j) (read_items js)

  abbrev or_value_error : Option (List ℤ) → Result (List ℤ)
  or_value_error none = raise value_error
  or_value_error (some ts) = return ts

  -- What the state file of a limiter stands for.
  unfoldable pub read_state : Option (StateText Json) → Result (List ℤ)
  unfolding read_items
  read_state none = return []
  read_state (some blank) = return []
  read_state (some no_json) = raise value_error
  read_state (some no_list) = raise value_error
  read_state (some (json_list js)) = or_value_error (read_items js)

  abbrev with_timestamps :
      RollingWindowRateLimiter → Result (List ℤ) → Result RollingWindowRateLimiter
  with_timestamps l (return ts) = return (record l { timestamps = ts })
  with_timestamps l (raise e) = raise e

  refresh_at :
      Option String → RollingWindowRateLimiter → StateDisk Json → Result RollingWindowRateLimiter
  unfolding read_state
  refresh_at none l disk = return l
  refresh_at (some path) l disk = with_timestamps l (read_state (disk path))

  -- `_refresh_timestamps_from_disk`
  unfoldable pub refresh_timestamps :
      RollingWindowRateLimiter → StateDisk Json → Result RollingWindowRateLimiter
  unfolding refresh_at
  refresh_timestamps l disk = refresh_at l.path l disk

  write_at : Option String → RollingWindowRateLimiter → StateDisk Json → StateDisk Json
  write_at none l disk = disk
  write_at (some path) l disk =
      λ p. if str_eq p path then some (json_list (map write_item l.timestamps)) else disk p

  -- `_write_timestamps_to_disk`: the file is replaced as a whole.
  unfoldable pub write_timestamps : RollingWindowRateLimiter → StateDisk Json → StateDisk Json
  unfolding write_at
  write_timestamps l disk = write_at l.path l disk

  -- An operation's result, or the exception that it raised, with the object and the disk behind it.
  abbrev pub Answer : Type 0 → Type 0
  Answer A = Result A × RollingWindowRateLimiter × StateDisk Json

  abbrev push_timestamp : ℤ → RollingWindowRateLimiter → RollingWindowRateLimiter
  push_timestamp now l = record l { timestamps = l.timestamps ++ now ∷ [] }

  abbrev ping_fresh :
      ℤ
      → RollingWindowRateLimiter
      → StateDisk Json
      → Result RollingWindowRateLimiter
      → Answer (Unit {0})
  ping_fresh now l disk (raise e) = (raise e, l, disk)
  ping_fresh now l disk (return fresh) =
      let pinged = push_timestamp now (prune_timestamps now fresh) in
      (return tt, pinged, write_timestamps pinged disk)

  pub ping : ℤ → RollingWindowRateLimiter → StateDisk Json → Answer (Unit {0})
  ping now l disk = ping_fresh now l disk (refresh_timestamps l disk)

  abbrev ping_ready : ℤ → Bool × RollingWindowRateLimiter → StateDisk Json → Answer Bool
  ping_ready now (false, pruned) disk = (return false, pruned, disk)
  ping_ready now (true, pruned) disk =
      let pinged = push_timestamp now pruned in (return true, pinged, write_timestamps pinged disk)

  abbrev ping_if_ready_fresh :
      ℤ → RollingWindowRateLimiter → StateDisk Json → Result RollingWindowRateLimiter → Answer Bool
  ping_if_ready_fresh now l disk (raise e) = (raise e, l, disk)
  ping_if_ready_fresh now l disk (return fresh) = ping_ready now (is_ready_at now fresh) disk

  unfoldable pub ping_if_ready : ℤ → RollingWindowRateLimiter → StateDisk Json → Answer Bool
  ping_if_ready now l disk = ping_if_ready_fresh now l disk (refresh_timestamps l disk)

  abbrev is_ready_fresh :
      ℤ
      → RollingWindowRateLimiter
      → Result RollingWindowRateLimiter
      → Result Bool × RollingWindowRateLimiter
  is_ready_fresh now l (raise e) = (raise e, l)
  is_ready_fresh now l (return fresh) =
      let (ready, pruned) = is_ready_at now fresh in (return ready, pruned)

  pub is_ready :
      ℤ → RollingWindowRateLimiter → StateDisk Json → Result Bool × RollingWindowRateLimiter
  is_ready now l disk = is_ready_fresh now l (refresh_timestamps l disk)

  -- The constructor with `__post_init__`.
  new_rolling_limiter :
      (max_events window : ℤ) → Option String → StateDisk Json → Result RollingWindowRateLimiter
  new_rolling_limiter max_events window path disk =
      if ltb_ℤ max_events (pos 1)
      then raise (error "ValueError" "max_events must be at least 1")
      else if ltb_ℤ window (pos 0)
      then raise (error "ValueError" "window must not be negative")
      else refresh_timestamps
          (record {
            max_events = pos_part max_events;
            window = window;
            path = path;
            timestamps = [];
          })
          disk
