-- ===== src/LogSetup.antt =====
-- `stream_logs_to_stderr`, `stream_logs_to_jsonl_file` and `JsonLogEncoder` of
-- src/scheduling_util/_logging_util.py, with what they use of the standard library's logging: the levels
-- of loggers and handlers. Levels are natural numbers.
pub mod Written
use text.Mathlib.Text.{◌==◌ as str_eq}
use Prim.Native.Nat.{max}
use scheduling_util_py.Prelude.{
  return, raise, error, keyboard_interrupt, system_exit, no_code, int_code, text_code, ℕ, zero, suc,
  ◌+◌, ◌-◌, ◌*◌, ◌≤◌, ◌<◌, min, String, ◌≡◌, refl, sym, ap, ◌∙◌, ◌≢◌, ◌↔◌, ◌⊎◌, inl, inr, Bool,
  true, false, not, ◌&&◌, ◌||◌, Option, none, some, List, [], ◌∷◌, ◌++◌, map, reverse, arith, ltb,
  leb, ◌==◌, if◌then◌else◌, is_some, ltb→lt, Bool-cases, length, drop, All, length-append,
  length-drop, All-append, All-every, ExitCode, Exception, Result, Action, is_exception, pure,
  throw, and_then, ◌>>=◌, ◌>>◌, finally,
}

-- The name of a logger, split at its dots, the last part first; the root has none.
abbrev pub LoggerName : Type 0
LoggerName = List String

abbrev pub same_name : LoggerName → LoggerName → Bool
same_name [] [] = true
same_name (x ∷ xs) (y ∷ ys) = str_eq x y && same_name xs ys
same_name _ _ = false

pub data Target : Type 0 where
  to_stderr : Target
  to_jsonl_file : (path : String) → Target

pub record Handler : Type 0 where
  pub level : ℕ
  pub target : Target

-- The levels of the loggers, 0 where none is set, and the handlers of the root.
pub record LogTree : Type 0 where
  pub levels : LoggerName → ℕ
  pub handlers : List Handler

abbrev pub debug_level : ℕ
debug_level = 10

abbrev pub info_level : ℕ
info_level = 20

-- `logging.getLevelNamesMapping()`
abbrev pub level_names : List (String × ℕ)
level_names =
    ("CRITICAL", 50)
    ∷ ("FATAL", 50)
    ∷ ("ERROR", 40)
    ∷ ("WARNING", 30)
    ∷ ("WARN", 30)
    ∷ ("INFO", 20)
    ∷ ("DEBUG", 10)
    ∷ ("NOTSET", 0)
    ∷ []

abbrev pub level_in : String → List (String × ℕ) → Option ℕ
level_in s [] = none
level_in s ((name, level) ∷ names) = if str_eq name s then some level else level_in s names

pub data LevelArgument : Type 0 where
  level_number : ℕ → LevelArgument
  level_name : String → LevelArgument

abbrev or_raise : Exception → Option ℕ → Result ℕ
or_raise e none = raise e
or_raise e (some level) = return level

-- What `setLevel` makes of its argument: it reads a name as it stands.
abbrev pub check_level : LevelArgument → Result ℕ
check_level (level_number n) = return n
check_level (level_name s) = or_raise (error "ValueError" "Unknown level") (level_in s level_names)

abbrev pub set_level : LoggerName → ℕ → LogTree → LogTree
set_level name level t = record t {
  levels = λ other. if same_name other name then level else t.levels other;
}

-- A logger without a level has the level of its parent.
abbrev pub effective_level : LogTree → LoggerName → ℕ
effective_level t [] = t.levels []
effective_level t (part ∷ parent) =
    if t.levels (part ∷ parent) == 0 then effective_level t parent else t.levels (part ∷ parent)

-- Does a handler of the root write a record of this logger, with this level?
abbrev pub writes : LogTree → LoggerName → (level : ℕ) → Handler → Bool
writes t name level h = leb (effective_level t name) level && leb h.level level

-- The noisy loggers.
abbrev pub urllib3_pool : LoggerName
urllib3_pool = "connectionpool" ∷ "urllib3" ∷ []

abbrev pub paramiko_transport : LoggerName
paramiko_transport = "transport" ∷ "paramiko" ∷ []

abbrev pub invoke_logger : LoggerName
invoke_logger = "invoke" ∷ []

abbrev pub cap_levels : ℕ → LogTree → LogTree
cap_levels n t =
    set_level invoke_logger (max info_level n) (
      set_level paramiko_transport (max info_level n) (set_level urllib3_pool (max info_level n) t))

abbrev with_tree : Result ℕ → (ℕ → LogTree → LogTree) → Action LogTree ℕ
with_tree (raise e) f t = (raise e, t)
with_tree (return n) f t = (return n, f n t)

abbrev add_handler : Target → ℕ → LogTree → LogTree
add_handler target level t = record t {
  handlers = t.handlers ++ record { level = level; target = target } ∷ [];
}

-- `root_logger.setLevel(DEBUG)`
abbrev open_root : Action LogTree (Unit {0})
open_root t = (return tt, set_level [] debug_level t)

-- `upper` is `str.upper`.
module _ (upper : String → String) where
  -- `log_level_number`
  abbrev pub log_level_number : LevelArgument → Result ℕ
  log_level_number (level_number n) = return n
  log_level_number (level_name s) =
      or_raise (error "KeyError" (upper s)) (level_in (upper s) level_names)

  pub stream_logs_to_stderr : LevelArgument → Action LogTree (Unit {0})
  stream_logs_to_stderr level =
      open_root
      >> with_tree (log_level_number level) cap_levels
      >> with_tree (check_level level) (add_handler to_stderr)
      >> pure tt

-- The directory and the file are there.
pub stream_logs_to_jsonl_file : String → LevelArgument → Action LogTree (Unit {0})
stream_logs_to_jsonl_file path level =
    open_root >> with_tree (check_level level) (add_handler (to_jsonl_file path)) >> pure tt

-- `JsonLogEncoder.default`: `encoded` is how the method of the base class ends, `shown` how `repr` ends,
-- and `failed` the text for an exception of `repr`.
abbrev encode_repr :
    {J : Type 0} → (text : String → J) (failed : Exception → String) → Result String → J
encode_repr text failed (return s) = text s
encode_repr text failed (raise e) = text (failed e)

unfoldable pub default :
    {J : Type 0} (text : String → J) (failed : Exception → String) (shown : Result String)
    → Result J
    → Result J
default text failed shown (return j) = return j
default text failed shown (raise keyboard_interrupt) = raise keyboard_interrupt
default text failed shown (raise (system_exit c)) = raise (system_exit c)
default text failed shown (raise (error kind message)) =
    if str_eq kind "TypeError"
    then return (encode_repr text failed shown)
    else raise (error kind message)
