-- ===== src/LogRedactor/Records.antt =====
-- The strings of a log record behind `LogRedactor` (src/scheduling_util/_logging_util.py), and the
-- formatter with its callbacks.
use scheduling_util_py.Prelude.{
  return, raise, ◌≡◌, refl, sym, ap, ◌∙◌, false, Option, none, some, List, [], ◌∷◌, All, Result,
  All-every,
}
use mathlib.Core.Path.{subst}
use scheduling_util_py.LogRedactor.{
  Text, Value, str, other_value, Args, dict_args, tuple_args, no_args, other_args, LogRecord,
  redact_value, redact_items, redact_values, redact_option, redact_args, redact_record,
  process_log_record, process_log_message, attach_extra_callbacks, contains, redact, on_return,
  with_args,
}
use scheduling_util_py.LogRedactor.Removal.{
  IsSecret, IsClean, redact-keeps, redact-removes, process_log_message-IsClean,
}

-- The statement `P` of every string of a record that `LogRedactor` looks at.
module _ (P : Text → Type 0) where
  abbrev pub ValueText : Value → Type 0
  ValueText (str text) = P text
  ValueText (other_value v) = Unit

  abbrev pub ArgsTexts : Args → Type 0
  ArgsTexts (dict_args items) = All (λ item. ValueText item.1) items
  ArgsTexts (tuple_args vs) = All ValueText vs
  ArgsTexts _ = Unit

  abbrev pub MessageText : Option Value → Type 0
  MessageText none = Unit
  MessageText (some v) = ValueText v

  abbrev pub Texts : LogRecord → Type 0
  Texts r = ValueText r.msg × MessageText r.message × ArgsTexts r.args

-- `args` of the kinds that the redactor knows.
abbrev pub IsKnown : Args → Type 0
IsKnown (other_args kind) = ⊥
IsKnown _ = Unit

module _ (P Q : Text → Type 0) (r : Text) (redacted : (s : Text) → P s → Q (redact r s)) where
  value_texts : (v : Value) → ValueText P v → ValueText Q (redact_value r v)
  unfolding redact_value
  value_texts (str text) h = redacted text h
  value_texts (other_value v) h = tt

  items_texts :
      (items : List (Value × Value))
      → All (λ item. ValueText P item.1) items
      → All (λ item. ValueText Q item.1) (redact_items r items)
  unfolding redact_items
  items_texts [] h = tt
  items_texts (item ∷ items) h = (value_texts item.1 h.0, items_texts items h.1)

  values_texts : (vs : List Value) → All (ValueText P) vs → All (ValueText Q) (redact_values r vs)
  unfolding redact_values
  values_texts [] h = tt
  values_texts (v ∷ vs) h = (value_texts v h.0, values_texts vs h.1)

  message_text : (v : Option Value) → MessageText P v → MessageText Q (redact_option r v)
  message_text none h = tt
  message_text (some v) h = value_texts v h

  args_texts :
      (args : Args)
      → IsKnown args
      → ArgsTexts P args
      → (next : Args) × (redact_args r args ≡ return next) × IsKnown next × ArgsTexts Q next
  unfolding redact_args
  args_texts (dict_args items) known h = (_, refl, tt, items_texts items h)
  args_texts (tuple_args vs) known h = (_, refl, tt, values_texts vs h)
  args_texts no_args known h = (_, refl, tt, tt)
  args_texts (other_args _) known h = elim known [ ]

  record-Texts :
      (x : LogRecord)
      → IsKnown x.args
      → Texts P x
      → (next : LogRecord) × (redact_record r x ≡ return next) × IsKnown next.args × Texts Q next
  unfolding redact_record
  record-Texts x known h =
      let (args, e, still, texts) = args_texts x.args known h.2 in
      (
        record { msg = redact_value r x.msg; message = redact_option r x.message; args = args },
        ap (λ y. on_return y (with_args r x)) e,
        still,
        (value_texts x.msg h.0, message_text x.message h.1, texts),
      )

abbrev AnyText : Text → Type 0
AnyText _ = Unit

any_value : (v : Value) → ValueText AnyText v
any_value (str text) = tt
any_value (other_value v) = tt

any_args : (args : Args) → ArgsTexts AnyText args
any_args (dict_args items) =
    All-every (λ item. ValueText AnyText item.1) (λ item. any_value item.1) items
any_args (tuple_args vs) = All-every (ValueText AnyText) any_value vs
any_args no_args = tt
any_args (other_args _) = tt

any_message : (v : Option Value) → MessageText AnyText v
any_message none = tt
any_message (some v) = any_value v

-- The pattern is in no string of the record.
abbrev pub IsWithout : Text → LogRecord → Type 0
IsWithout q = Texts (λ s. contains q s ≡ false)

abbrev value_or : LogRecord → Result LogRecord → LogRecord
value_or x (return y) = y
value_or x (raise _) = x

-- The record that `process_log_record` returns.
abbrev pub Redacted : List Text → LogRecord → LogRecord → Type 0
Redacted rs x out = process_log_record rs x ≡ return out

stays-IsWithout :
    (q : Text)
    → IsSecret q
    → (rs : List Text) (x : LogRecord) → All IsSecret rs
    → IsKnown x.args
    → IsWithout q x
    → (out : LogRecord) × Redacted rs x out × IsWithout q out
unfolding process_log_record
stays-IsWithout q secret [] x secrets known clean = (x, refl, clean)
stays-IsWithout q secret (r ∷ rs) x secrets known clean =
    let Clean : Text → Type 0 = λ s. contains q s ≡ false in
    let (next, e, still, texts) =
      record-Texts Clean Clean r (λ s. redact-keeps q r s secret secrets.0) x known clean in
    let (out, rest, end) = stays-IsWithout q secret rs next secrets.1 still texts in
    (out, ap (λ y. on_return y (process_log_record rs)) e ∙ rest, end)

-- When no redaction is empty or has a `*`, and `args` is a dict, a tuple or None, then
-- `process_log_record` returns a record, and none of the redactions is left in a string of it: in
-- `msg`, in `message`, or in a value of `args`.
process_log_record-IsWithout :
    (redactions : List Text) (x : LogRecord)
    → All IsSecret redactions
    → IsKnown x.args
    → (out : LogRecord) × Redacted redactions x out × All (λ q. IsWithout q out) redactions
unfolding process_log_record
process_log_record-IsWithout [] x secrets known = (x, refl, tt)
process_log_record-IsWithout (q ∷ rs) x secrets known =
    let (next, e, still, texts) =
      record-Texts AnyText (λ s. contains q s ≡ false) q (λ s _. redact-removes q s secrets.0) x
        known (any_value x.msg, any_message x.message, any_args x.args) in
    let (out, rest, clean) = process_log_record-IsWithout rs next secrets.1 still in
    let (out', rest', end) = stays-IsWithout q secrets.0 rs next secrets.1 still texts in
    let same : out' ≡ out = ap (value_or out) (sym rest' ∙ rest) in
    (
      out,
      ap (λ y. on_return y (process_log_record rs)) e ∙ rest,
      (subst (IsWithout q) same end, clean),
    )

-- When no redaction is empty or has a `*`, and `args` is a dict, a tuple or None: with the redactor on
-- both sides of a formatter that returns, the formatter is given the record that `process_log_record`
-- returns, which has none of the redactions in a string of `msg`, of `message` or of a value of `args`;
-- and the line that is returned, which is what `process_log_message` makes of the formatter's line,
-- has none of them either, whatever the formatter does.
pub attach_extra_callbacks-IsClean :
    (redactions : List Text) (format : LogRecord → Text) (x : LogRecord)
    → All IsSecret redactions
    → IsKnown x.args
    → (out : LogRecord) × Redacted redactions x out
      × All (λ q. IsWithout q out) redactions
      × (attach_extra_callbacks
            (some (process_log_record redactions))
            (some (process_log_message redactions))
            (λ r. return (format r))
            x
          ≡ return (process_log_message redactions (format out)))
      × IsClean redactions (process_log_message redactions (format out))
unfolding attach_extra_callbacks
attach_extra_callbacks-IsClean redactions format x secrets known =
    let (out, e, clean) = process_log_record-IsWithout redactions x secrets known in
    (
      out,
      e,
      clean,
      ap
          (λ y.
            on_return (on_return y (λ r. return (format r)))
              (λ t. return (process_log_message redactions t)))
          e,
      process_log_message-IsClean redactions (format out) secrets,
    )
