-- ===== src/RateLimiter.antt =====
-- `RateLimiter` of src/scheduling_util/_rate_limiter.py, which keeps the time of the last action as
-- the modification time of a file. Times are Unix times in microseconds, except for `timestamp` and
-- what is compared with it, which are local; `from_timestamp` is `datetime.fromtimestamp`.
pub mod Spacing
use text.Mathlib.Text.{◌==◌ as str_eq}
use scheduling_util_py.Prelude.{
  Bool, true, false, String, Option, none, some, if◌then◌else◌, return, raise, error,
  keyboard_interrupt, system_exit, no_code, int_code, text_code, ℕ, zero, suc, ◌+◌, ◌-◌, ◌*◌, ◌≤◌,
  ◌<◌, min, ◌≡◌, refl, sym, ap, ◌∙◌, ◌≢◌, ◌↔◌, ◌⊎◌, inl, inr, not, ◌&&◌, ◌||◌, List, [], ◌∷◌, ◌++◌,
  map, reverse, arith, ltb, leb, ◌==◌, is_some, ltb→lt, Bool-cases, length, drop, All,
  length-append, length-drop, All-append, All-every, ExitCode, Exception, Result, Action,
  is_exception, pure, throw, and_then, ◌>>=◌, ◌>>◌, finally,
}
use scheduling_util_py.Prelude.Families.{update}
use scheduling_util_py.Prelude.Int.{
  ℤ, pos, ◌-ℤ◌, leb_ℤ, pos_part, neg_part, sub_ℕ, ◌≤ℤ◌, ◌<ℤ◌, ltb_ℤ, -ℤ_parts, int_laws, negsuc,
}

pub record RateLimiter : Type 0 where
  pub minimum_period : ℤ
  pub path : Option String
  pub timestamp : ℤ

-- The modification times of the files that exist.
abbrev pub Mtimes : Type 0
Mtimes = String → Option ℤ

abbrev pub set_mtime : String → ℤ → Mtimes → Mtimes
set_mtime path t files p = if str_eq p path then some t else files p

abbrev pub mtime_or_epoch : Option ℤ → ℤ
mtime_or_epoch none = pos 0
mtime_or_epoch (some t) = t

abbrev open_file : String → ℤ → Option ℤ → Mtimes → Bool × Mtimes
open_file path now none files = (true, set_mtime path now files)
open_file path now (some t) files = (false, files)

-- `exclusive_path_lock` on the file itself, up to its `flock`: it opens the file, or creates it, which
-- is remembered.
abbrev pub open_at : Option String → ℤ → Mtimes → Bool × Mtimes
open_at none now files = (false, files)
open_at (some path) now files = open_file path now (files path) files

-- Behind the `flock`: the file gets the modification time 0 if this process created it.
abbrev pub reset_created : Option String → (created : Bool) → Mtimes → Mtimes
reset_created (some path) true files = set_mtime path (pos 0) files
reset_created _ _ files = files

-- The modification times, and which processes created the file and have not taken the lock since.
pub record Sharing : Type 0 where
  pub files : Mtimes
  pub created : ℕ → Bool

-- A step of process `i` in a call of `ping_if_ready`: it opens the file, or, with the lock, it does the
-- rest, with two readings of the clock.
pub data Turn : Type 0 where
  opens : (i : ℕ) (l : RateLimiter) (now : ℤ) → Turn
  pings : (i : ℕ) (l : RateLimiter) (now touched : ℤ) → Turn

abbrev pub after_open : ℕ → RateLimiter → ℤ → Sharing → Sharing
after_open i l now s =
    let (created, opened) = open_at l.path now s.files in
    record { files = opened; created = update s.created i created }

module _ (from_timestamp : ℤ → ℤ) where
  refresh_at : Option String → RateLimiter → Mtimes → RateLimiter
  refresh_at none l files = l
  refresh_at (some path) l files = record l {
    timestamp = from_timestamp (mtime_or_epoch (files path));
  }

  -- `_refresh_timestamp_from_disk`
  unfoldable pub refresh_timestamp : RateLimiter → Mtimes → RateLimiter
  unfolding refresh_at
  refresh_timestamp l files = refresh_at l.path l files

  touch_at : Option String → ℤ → RateLimiter → Mtimes → RateLimiter × Mtimes
  unfolding refresh_at
  touch_at none now l files = (record l { timestamp = from_timestamp now }, files)
  touch_at (some path) now l files =
      let touched = set_mtime path now files in (refresh_at (some path) l touched, touched)

  -- `_touch_persistent_timestamp`
  unfoldable pub touch_timestamp : ℤ → RateLimiter → Mtimes → RateLimiter × Mtimes
  unfolding touch_at
  touch_timestamp now l files = touch_at l.path now l files

  -- The constructor with `__post_init__`.
  new_rate_limiter : ℤ → Option String → Mtimes → RateLimiter
  new_rate_limiter minimum_period path files =
      refresh_timestamp
        (record {
          minimum_period = minimum_period;
          path = path;
          timestamp = from_timestamp (pos 0);
        })
        files

  is_ready_at : ℤ → RateLimiter → Bool
  is_ready_at now l = leb_ℤ l.minimum_period (from_timestamp now -ℤ l.timestamp)

  -- `ping` when no other process comes between the opening of the file and the `flock`.
  ping : ℤ → RateLimiter → Mtimes → RateLimiter × Mtimes
  ping now l files =
      let (created, opened) = open_at l.path now files in
      touch_timestamp now l (reset_created l.path created opened)

  -- `ping_if_ready` behind the `flock`, where no other process is. `now` is the clock at the test, and
  -- `touched` the clock at the touch.
  unfoldable pub ping_if_ready_locked :
      (created : Bool) (now touched : ℤ) → RateLimiter → Mtimes → Bool × RateLimiter × Mtimes
  unfolding is_ready_at
  ping_if_ready_locked created now touched l files =
      let locked = reset_created l.path created files in
      let fresh = refresh_timestamp l locked in
      let (pinged, after) = touch_timestamp touched fresh locked in
      if is_ready_at now fresh then (true, pinged, after) else (false, fresh, locked)

  -- `ping_if_ready` when no other process comes between the opening and the `flock`.
  unfoldable pub ping_if_ready :
      (now touched : ℤ) → RateLimiter → Mtimes → Bool × RateLimiter × Mtimes
  unfolding ping_if_ready_locked
  ping_if_ready now touched l files =
      let (created, opened) = open_at l.path now files in
      ping_if_ready_locked created now touched l opened

  pub is_ready : ℤ → RateLimiter → Mtimes → Bool × RateLimiter
  unfolding is_ready_at
  is_ready now l files = let fresh = refresh_timestamp l files in (is_ready_at now fresh, fresh)
