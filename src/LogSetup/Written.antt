-- ===== src/LogSetup/Written.antt =====
-- Which records `stream_logs_to_stderr` (src/scheduling_util/_logging_util.py) writes.
use Prim.Native.Nat.{max}
use scheduling_util_py.Prelude.{
  return, raise, error, ℕ, String, ◌≡◌, refl, ap, ◌∙◌, inl, inr, Bool, true, false, ◌||◌, Option,
  none, some, [], ◌∷◌, ◌++◌, arith, leb, if◌then◌else◌, is_some, Bool-cases, Exception, sym,
}
use scheduling_util_py.LogSetup.{
  LoggerName, same_name, Handler, LogTree, debug_level, info_level, level_names, level_in,
  LevelArgument, check_level, set_level, effective_level, writes, urllib3_pool, paramiko_transport,
  invoke_logger, cap_levels, log_level_number, stream_logs_to_stderr, to_stderr, level_number,
  level_name, or_raise, stream_logs_to_jsonl_file, to_jsonl_file,
}

-- The loggers as Python starts with them: the root has WARNING, and no other has a level.
abbrev pub root_only : LoggerName → ℕ
root_only [] = 30
root_only (part ∷ parent) = 0

abbrev is_noisy : LoggerName → Bool
is_noisy name =
    same_name name invoke_logger || same_name name paramiko_transport || same_name name urllib3_pool

-- Is this a noisy logger, or one below it?
abbrev pub below_noisy : LoggerName → Bool
below_noisy [] = false
below_noisy (part ∷ parent) = is_noisy (part ∷ parent) || below_noisy parent

-- The level from which a record is written.
abbrev pub written_from : LoggerName → ℕ → ℕ
written_from name n = if below_noisy name then max info_level n else max debug_level n

abbrev pub set_up : ℕ → LogTree → LogTree
set_up n t = cap_levels n (set_level [] debug_level t)

effective_level-set_up :
    (t : LogTree) (n : ℕ) (name : LoggerName)
    → t.levels ≡ root_only
    → effective_level (set_up n t) name
      ≡ (if below_noisy name then max info_level n else debug_level)
effective_level-set_up t n [] e = refl
effective_level-set_up t n (part ∷ parent) e =
    ground (arith, effective_level-set_up t n parent e, ap (λ f. f (part ∷ parent)) e)

returned_some : (x : Exception) (o : Option ℕ) (n : ℕ) → or_raise x o ≡ return n → o ≡ some n
returned_some x none n e = absurd (ground arith)
returned_some x (some m) n e = ground arith

module _ (upper : String → String) where
  -- `str.upper` leaves the names of the levels alone.
  abbrev pub KeepsNames : Type 0
  KeepsNames = (s : String) → is_some (level_in s level_names) ≡ true → upper s ≡ s

  abbrev pub stderr_handler : ℕ → Handler
  stderr_handler n = record { level = n; target = to_stderr }

  both_levels :
      (level : LevelArgument) (n : ℕ)
      → KeepsNames
      → check_level level ≡ return n
      → log_level_number upper level ≡ return n
  both_levels (level_number k) n keeps e = e
  both_levels (level_name s) n keeps e =
      let found = returned_some (error "ValueError" "Unknown level") (level_in s level_names) n e in
      ap (or_raise (error "KeyError" (upper s)))
        (ap (λ u. level_in u level_names) (keeps s (ap is_some found)) ∙ found)

  written :
      (t : LogTree) (n l : ℕ) (name : LoggerName)
      → t.levels ≡ root_only
      → writes (set_up n t) name l (stderr_handler n) ≡ leb (written_from name n) l
  written t n l name e =
      rw (effective_level-set_up t n name e) (elim (Bool-cases (below_noisy name)) [
        | inl b ↦ rw b (ground arith)
        | inr b ↦ rw b (ground arith)
      ])

  -- Called first in a program, with a number or with a name that is spelled as logging spells it,
  -- `stream_logs_to_stderr` returns and adds one handler. It writes a record just when its level is at
  -- least the one that was asked for and at least INFO for a noisy logger or one below it, DEBUG for any
  -- other.
  pub stream_logs_to_stderr-written :
      (level : LevelArgument) (n : ℕ) (t : LogTree)
      → KeepsNames
      → check_level level ≡ return n
      → t.levels ≡ root_only
      → let (r, after) = stream_logs_to_stderr upper level t in
        (r ≡ return tt)
        × (after.handlers ≡ t.handlers ++ stderr_handler n ∷ [])
        × ((name : LoggerName) (l : ℕ)
            → writes after name l (stderr_handler n) ≡ leb (written_from name n) l)
  unfolding stream_logs_to_stderr
  stream_logs_to_stderr-written level n t keeps e fresh =
      rw (both_levels level n keeps e, e) (refl, refl, λ name l. written t n l name fresh)

  -- A name of a level that only `upper` makes one of logging: `stream_logs_to_stderr` looks it up, sets
  -- the levels of the loggers, and then raises without a handler.
  pub stream_logs_to_stderr_spelled :
      (s : String) (n : ℕ) (t : LogTree)
      → level_in s level_names ≡ none
      → level_in (upper s) level_names ≡ some n
      → let (r, after) = stream_logs_to_stderr upper (level_name s) t in
        (r ≡ raise (error "ValueError" "Unknown level")) × (after ≡ set_up n t)
  unfolding stream_logs_to_stderr
  stream_logs_to_stderr_spelled s n t unknown known = rw (known, unknown) (refl, refl)

abbrev pub jsonl_handler : String → ℕ → Handler
jsonl_handler path n = record { level = n; target = to_jsonl_file path }

-- The root is opened once more.
effective_level-set_level :
    (t : LogTree) (name : LoggerName)
    → t.levels [] ≡ debug_level
    → effective_level (set_level [] debug_level t) name ≡ effective_level t name
effective_level-set_level t [] e = sym e
effective_level-set_level t (part ∷ parent) e = ground (arith, effective_level-set_level t parent e)

-- A JSON Lines file that is added to the stream to stderr writes a record just when its level is at
-- least the one asked for the file, and at least the cap for a noisy logger, whose level is the one of
-- the stream to stderr.
file_written :
    (path : String) (t : LogTree) (n k l : ℕ) (name : LoggerName)
    → t.levels ≡ root_only
    → let (r, after) = stream_logs_to_jsonl_file path (level_number k) (set_up n t) in
      (r ≡ return tt)
      × (writes after name l (jsonl_handler path k)
          ≡ leb (if below_noisy name then max (max info_level n) k else max debug_level k) l)
unfolding stream_logs_to_jsonl_file
file_written path t n k l name e = (
  refl,
  rw (effective_level-set_level (set_up n t) name refl, effective_level-set_up t n name e)
      (elim (Bool-cases (below_noisy name)) [
        | inl b ↦ rw b (ground arith)
        | inr b ↦ rw b (ground arith)
      ]),
)
