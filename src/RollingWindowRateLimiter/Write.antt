-- ===== src/RollingWindowRateLimiter/Write.antt =====
-- `_write_timestamps_to_disk` and `_fsync_parent_directory` of `RollingWindowRateLimiter` in
-- src/scheduling_util/_rate_limiter.py, call by call, on a file system that may lose power. The lock
-- keeps other processes from the directory's entries for the state file and its temporary file.
pub mod States
pub mod Phases
pub mod Triples
pub mod Crash
use text.Mathlib.Text.{◌==◌ as str_eq}
use mathlib.Core.Option
use scheduling_util_py.Prelude.{
  finally, return, raise, error, keyboard_interrupt, system_exit, no_code, int_code, text_code, ℕ,
  zero, suc, ◌+◌, ◌-◌, ◌*◌, ◌≤◌, ◌<◌, min, String, ◌≡◌, refl, sym, ap, ◌∙◌, ◌≢◌, ◌↔◌, ◌⊎◌, inl, inr,
  Bool, true, false, not, ◌&&◌, ◌||◌, Option, none, some, List, [], ◌∷◌, ◌++◌, map, reverse, arith,
  ltb, leb, ◌==◌, if◌then◌else◌, is_some, ltb→lt, Bool-cases, length, drop, All, length-append,
  length-drop, All-append, All-every, ExitCode, Exception, Result, Action, is_exception, pure,
  throw, and_then, ◌>>=◌, ◌>>◌,
}
use scheduling_util_py.Prelude.Families.{
  update, sum_below, sum_below-update, sum_below-part, sum_below-zero, positive_part, update_here,
  update_other, at_update,
}
use scheduling_util_py.RollingWindowRateLimiter.{
  TimestampCodec, StateText, StateDisk, RollingWindowRateLimiter, value_error, prune_timestamps,
  is_ready_at, read_state, refresh_timestamps, write_timestamps, Answer, ping, ping_if_ready,
  is_ready, blank, no_json, no_list, json_list, prune, cons_item, read_items, or_value_error,
  with_timestamps, refresh_at, push_timestamp, ping_fresh, ping_ready, ping_if_ready_fresh,
  is_ready_fresh, new_rolling_limiter, write_at,
}

-- The directory as processes see it and as the disk has it; for an inode, its content and what of it
-- an `fsync` has saved; and the next inode.
pub record Files (J : Type 0) : Type 0 where
  pub names : String → Option ℕ
  pub saved_names : String → Option ℕ
  pub content : ℕ → StateText J
  pub saved_content : ℕ → Option (StateText J)
  pub next : ℕ

-- How the calls end: none where one succeeds. `left_over` is what a block that raises leaves in the
-- temporary file, once that is closed.
pub record Calls (J : Type 0) : Type 0 where
  pub posix : Bool
  pub mkdir_end : Option Exception
  pub create_end : Option Exception
  pub write_end : Option Exception
  pub flush_end : Option Exception
  pub fsync_end : Option Exception
  pub close_end : Option Exception
  pub replace_end : Option Exception
  pub open_directory_end : Option Exception
  pub fsync_directory_end : Option Exception
  pub close_directory_end : Option Exception
  pub unlink_end : Option Exception
  pub left_over : StateText J

-- The file system, and the states that it went through, the latest first.
pub record Writing (J : Type 0) : Type 0 where
  pub files : Files J
  pub past : List (Files J)

abbrev pub set_name : String → Option ℕ → (String → Option ℕ) → String → Option ℕ
set_name p entry names q = if str_eq q p then entry else names q

module _ {J : Type 0} where
  -- What a process reads at a path.
  abbrev pub read_path : Files J → String → Option (StateText J)
  read_path d p = Option.map d.content (d.names p)

  abbrev or_garbage : StateText J → Option (StateText J) → StateText J
  or_garbage garbage none = garbage
  or_garbage garbage (some t) = t

  -- What is at a path after a loss of power: a change of the directory that was not saved may be lost
  -- or `kept`, and content that was not saved is garbage.
  abbrev pub survivor :
      (kept : Bool) (garbage : StateText J) → Files J → String → Option (StateText J)
  survivor kept garbage d p =
      Option.map (λ k. or_garbage garbage (d.saved_content k))
        (if kept then d.names p else d.saved_names p)

  abbrev pub create_inode : String → Files J → Files J
  create_inode p d = record d {
    names = set_name p (some d.next) d.names;
    content = update d.content d.next blank;
    saved_content = update d.saved_content d.next none;
    next = d.next + 1;
  }

  abbrev pub set_content : ℕ → StateText J → Files J → Files J
  set_content k t d = record d {
    content = update d.content k t;
    saved_content = update d.saved_content k none;
  }

  abbrev pub sync_content : ℕ → Files J → Files J
  sync_content k d = record d { saved_content = update d.saved_content k (some (d.content k)) }

  abbrev pub rename : String → String → Files J → Files J
  rename from to d = record d { names = set_name from none (set_name to (d.names from) d.names) }

  abbrev pub sync_names : Files J → Files J
  sync_names d = record d { saved_names = d.names }

  abbrev pub remove_name : String → Files J → Files J
  remove_name p d = record d { names = set_name p none d.names }

  abbrev change : (Files J → Files J) → Writing J → Writing J
  change f w = record { files = f w.files; past = w.files ∷ w.past }

  -- A call that changes the file system, unless it raises.
  abbrev call : Option Exception → (Files J → Files J) → Action (Writing J) (Unit {0})
  call none f w = (return tt, change f w)
  call (some e) f w = (raise e, w)

  abbrev unchanged : Files J → Files J
  unchanged d = d

  module _ (c : Calls J) where
    open c use {
      posix, mkdir_end, create_end, write_end, flush_end, fsync_end, close_end, replace_end,
      open_directory_end, fsync_directory_end, close_directory_end, unlink_end, left_over,
    }

    -- The block of the `with` on the temporary file, inode `k`. Written text is in a buffer until the
    -- flush.
    abbrev pub fill_temp : ℕ → StateText J → Action (Writing J) (Unit {0})
    fill_temp k text =
        call write_end unchanged
        >> call flush_end (set_content k text)
        >> call fsync_end (sync_content k)

    abbrev pub close_temp : ℕ → Result (Unit {0}) → Action (Writing J) (Unit {0})
    close_temp k (return _) = call close_end unchanged
    close_temp k (raise e) = call close_end (set_content k left_over) >> throw e

    abbrev pub with_temp : ℕ → StateText J → Action (Writing J) (Unit {0})
    with_temp k text w = let (result, after) = fill_temp k text w in close_temp k result after

    abbrev pub fsync_directory : Bool → Action (Writing J) (Unit {0})
    fsync_directory false = pure tt
    fsync_directory true =
        call open_directory_end unchanged
        >> finally (call fsync_directory_end sync_names) (call close_directory_end unchanged)

    -- `_fsync_parent_directory`
    pub fsync_parent_directory : Action (Writing J) (Unit {0})
    fsync_parent_directory = fsync_directory posix

    abbrev pub unlink_known : Option ℕ → String → Action (Writing J) (Unit {0})
    unlink_known none temp = pure tt
    unlink_known (some k) temp = call unlink_end (remove_name temp)

    -- `temp_path.unlink()`, with a `FileNotFoundError` passed over
    pub unlink_temp : String → Action (Writing J) (Unit {0})
    unlink_temp temp w = unlink_known (w.files.names temp) temp w

    -- What follows the creation of the temporary file, inode `k`.
    pub fill_and_replace : ℕ → (path temp : String) → StateText J → Action (Writing J) (Unit {0})
    unfolding fsync_parent_directory
    fill_and_replace k path temp text =
        with_temp k text >> call replace_end (rename temp path) >> fsync_parent_directory

    abbrev pub write_through : (path temp : String) → StateText J → Action (Writing J) (Unit {0})
    write_through path temp text w =
        fill_and_replace w.files.next path temp text (change (create_inode temp) w)

    abbrev pub create_temp :
        Option Exception → (path temp : String) → StateText J → Action (Writing J) (Unit {0})
    create_temp (some e) path temp text = throw e
    create_temp none path temp text = finally (write_through path temp text) (unlink_temp temp)

    abbrev pub write_to : Option String → String → StateText J → Action (Writing J) (Unit {0})
    write_to none temp text = pure tt
    write_to (some path) temp text =
        call mkdir_end unchanged >> create_temp create_end path temp text

-- `_write_timestamps_to_disk`; `temp` is the name that `tempfile` chooses.
unfoldable pub write_timestamps_to_disk :
    (codec : TimestampCodec)
    → Calls (TimestampCodec.Json codec)
    → String
    → RollingWindowRateLimiter
    → Action (Writing (TimestampCodec.Json codec)) (Unit {0})
unfolding fill_and_replace unlink_temp
write_timestamps_to_disk codec c temp l =
    write_to c l.path temp (json_list (map (TimestampCodec.write_item codec) l.timestamps))
