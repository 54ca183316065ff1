-- ===== src/LogRedactor.antt =====
-- `LogRedactor` and `attach_extra_callbacks_to_log_formatter` of src/scheduling_util/_logging_util.py:
-- the removal of secrets from log records and from formatted lines. A text is the list of its
-- characters, as natural numbers.
pub mod Removal
pub mod Records
use scheduling_util_py.Prelude.{
  return, raise, error, ℕ, zero, suc, ◌+◌, ◌-◌, ◌*◌, ◌≤◌, ◌<◌, min, String, ◌≡◌, refl, sym, ap, ◌∙◌,
  ◌≢◌, ◌↔◌, ◌⊎◌, inl, inr, Bool, true, false, not, ◌&&◌, ◌||◌, Option, none, some, List, [], ◌∷◌,
  ◌++◌, map, reverse, arith, ltb, leb, ◌==◌, if◌then◌else◌, is_some, ltb→lt, Bool-cases, length,
  drop, All, length-append, length-drop, All-append, ExitCode, Exception, Result, Action,
  is_exception, pure, throw, and_then, ◌>>=◌, ◌>>◌, keyboard_interrupt, system_exit, no_code,
  int_code, text_code,
}

abbrev pub Text : Type 0
Text = List ℕ

abbrev pub star : ℕ
star = 42

-- `text.startswith(pattern)`
unfoldable pub starts_with : Text → Text → Bool
starts_with [] text = true
starts_with (p ∷ ps) [] = false
starts_with (p ∷ ps) (c ∷ cs) = p == c && starts_with ps cs

-- `pattern in text`
unfoldable pub contains : Text → Text → Bool
unfolding starts_with
contains pattern [] = starts_with pattern []
contains pattern (c ∷ cs) = starts_with pattern (c ∷ cs) || contains pattern cs

-- `text.replace(pattern, "***")` for a pattern that is not empty, past `skip` characters: the
-- occurrences that are replaced are found from the left and do not overlap.
unfoldable pub replace_from : ℕ → Text → Text → Text
unfolding starts_with
replace_from skip pattern [] = []
replace_from (suc skip) pattern (c ∷ cs) = replace_from skip pattern cs
replace_from zero pattern (c ∷ cs) = elim (starts_with pattern (c ∷ cs)) [
  | true ↦ star ∷ star ∷ star ∷ replace_from (length pattern - 1) pattern cs
  | false ↦ c ∷ replace_from zero pattern cs
]

-- The empty pattern occurs before each character and at the end.
between : Text → Text
between [] = star ∷ star ∷ star ∷ []
between (c ∷ cs) = star ∷ star ∷ star ∷ c ∷ between cs

unfoldable pub replace : Text → Text → Text
unfolding replace_from between
replace [] text = between text
replace (p ∷ ps) text = replace_from zero (p ∷ ps) text

-- `if redaction in text: text = text.replace(redaction, "***")`
unfoldable pub redact : Text → Text → Text
unfolding contains replace
redact redaction text = if contains redaction text then replace redaction text else text

-- An attribute or an argument of a record.
pub data Value : Type 0 where
  str : Text → Value
  other_value : ℕ → Value

-- `record.args`
pub data Args : Type 0 where
  dict_args : List (Value × Value) → Args
  tuple_args : List Value → Args
  no_args : Args
  other_args : String → Args

-- `LogRecord`; `message` is there once the record was formatted.
pub record LogRecord : Type 0 where
  pub msg : Value
  pub message : Option Value
  pub args : Args

pub redact_value : Text → Value → Value
unfolding redact
redact_value redaction (str text) = str (redact redaction text)
redact_value redaction (other_value v) = other_value v

redact_items : Text → List (Value × Value) → List (Value × Value)
unfolding redact_value
redact_items redaction [] = []
redact_items redaction (item ∷ items) =
    (item.0, redact_value redaction item.1) ∷ redact_items redaction items

redact_values : Text → List Value → List Value
unfolding redact_value
redact_values redaction [] = []
redact_values redaction (v ∷ vs) = redact_value redaction v ∷ redact_values redaction vs

abbrev redact_option : Text → Option Value → Option Value
redact_option redaction none = none
redact_option redaction (some v) = some (redact_value redaction v)

redact_args : Text → Args → Result Args
unfolding redact_items redact_values
redact_args redaction (dict_args items) = return (dict_args (redact_items redaction items))
redact_args redaction (tuple_args vs) = return (tuple_args (redact_values redaction vs))
redact_args redaction no_args = return no_args
redact_args redaction (other_args kind) = raise (error "NotImplementedError" kind)

-- What comes behind code that may raise.
abbrev pub on_return {ℓ} : {A B : Type ℓ} → Result A → (A → Result B) → Result B
on_return (return a) f = f a
on_return (raise e) f = raise e

abbrev with_args : Text → LogRecord → Args → Result LogRecord
with_args redaction r args = return (record {
  msg = redact_value redaction r.msg;
  message = redact_option redaction r.message;
  args = args;
})

-- The body of the loop of `process_log_record`.
unfoldable redact_record : Text → LogRecord → Result LogRecord
unfolding redact_args redact_value
redact_record redaction r = on_return (redact_args redaction r.args) (with_args redaction r)

-- `LogRedactor.process_log_record`
pub process_log_record : List Text → LogRecord → Result LogRecord
unfolding redact_record
process_log_record [] r = return r
process_log_record (redaction ∷ redactions) r =
    on_return (redact_record redaction r) (process_log_record redactions)

-- `LogRedactor.process_log_message`
unfoldable pub process_log_message : List Text → Text → Text
unfolding redact
process_log_message [] text = text
process_log_message (redaction ∷ redactions) text =
    process_log_message redactions (redact redaction text)

-- `new_format_function` of `attach_extra_callbacks_to_log_formatter`: `format` is the method of the
-- formatter before, and an absent callback is not called.
abbrev pre : Option (LogRecord → Result LogRecord) → LogRecord → Result LogRecord
pre none r = return r
pre (some pre_format) r = pre_format r

abbrev post : Option (Text → Text) → Text → Result Text
post none text = return text
post (some post_format) text = return (post_format text)

pub attach_extra_callbacks :
    Option (LogRecord → Result LogRecord)
    → Option (Text → Text)
    → (LogRecord → Result Text)
    → LogRecord
    → Result Text
attach_extra_callbacks pre_format post_format format r =
    on_return (on_return (pre pre_format r) format) (post post_format)
