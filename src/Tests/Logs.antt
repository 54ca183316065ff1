-- ===== src/Tests/Logs.antt =====
-- Levels of loggers.
use text.Mathlib.Text.{◌==◌ as str_eq}
use text.Mathlib.TextEquality.{eq_iff}
use scheduling_util_py.Prelude.{
  return, raise, error, ℕ, String, ◌≡◌, refl, sym, ap, ◌∙◌, inl, inr, true, [], ◌∷◌, arith, leb,
  if◌then◌else◌, is_some, Bool-cases, keyboard_interrupt, Exception,
}
use scheduling_util_py.LogSetup.{
  LoggerName, LogTree, level_names, level_in, writes, stream_logs_to_stderr, level_name, default,
}
use scheduling_util_py.LogSetup.Written.{
  root_only, below_noisy, written_from, set_up, KeepsNames, stderr_handler,
  stream_logs_to_stderr-written, stream_logs_to_stderr_spelled,
}

abbrev new_tree : LogTree
new_tree = record { levels = root_only; handlers = [] }

-- An `upper` that is enough for these names
abbrev upper_info : String → String
upper_info s = if str_eq s "info" then "INFO" else s

upper_info-KeepsNames : KeepsNames upper_info
upper_info-KeepsNames s known = elim (Bool-cases (str_eq s "info")) [
  | inl e ↦
      let same : s ≡ "info" = ground (arith, eq_iff s "info") in
      let listed = sym (ap (λ u. is_some (level_in u level_names)) same) ∙ known in
      absurd (ground arith)
  | inr e ↦ rw e refl
]

stream_logs_to_stderr-written_example :
    let (r, after) = stream_logs_to_stderr upper_info (level_name "DEBUG") new_tree in
    (r ≡ return tt)
    × (after.handlers ≡ stderr_handler upper_info 10 ∷ [])
    × ((name : LoggerName) (l : ℕ)
        → writes after name l (stderr_handler upper_info 10) ≡ leb (written_from name 10) l)
stream_logs_to_stderr-written_example =
    stream_logs_to_stderr-written upper_info (level_name "DEBUG") 10 new_tree upper_info-KeepsNames
      refl refl

stream_logs_to_stderr_spelled_example :
    let (r, after) = stream_logs_to_stderr upper_info (level_name "info") new_tree in
    (r ≡ raise (error "ValueError" "Unknown level")) × (after ≡ set_up 20 new_tree)
stream_logs_to_stderr_spelled_example =
    stream_logs_to_stderr_spelled upper_info "info" 20 new_tree refl refl

pool_quiet : below_noisy ("retry" ∷ "connectionpool" ∷ "urllib3" ∷ []) ≡ true
pool_quiet = refl

-- A `repr` that raises is written too.
hidden : Exception → String
hidden e = "Failed to serialize object"

object_encoded :
    default
      (λ s. s)
      hidden
      (raise keyboard_interrupt)
      (raise (error "TypeError" "not serializable"))
    ≡ return "Failed to serialize object"
unfolding default hidden
object_encoded = refl
