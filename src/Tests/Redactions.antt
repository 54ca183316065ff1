-- ===== src/Tests/Redactions.antt =====
-- A log record with two secrets (src/scheduling_util/_logging_util.py).
use scheduling_util_py.Prelude.{return, ◌≡◌, refl, none, some, List, [], ◌∷◌, arith, All}
use scheduling_util_py.LogRedactor.{
  Text, starts_with, contains, replace_from, replace, redact, LogRecord, process_log_record,
  process_log_message, attach_extra_callbacks, str, other_value, tuple_args,
}
use scheduling_util_py.LogRedactor.Removal.{IsSecret, IsClean}
use scheduling_util_py.LogRedactor.Records.{IsWithout, Redacted, attach_extra_callbacks-IsClean}

-- The secrets "ab" and "bc", which overlap in the message "abcab".
abbrev secrets : List Text
secrets = (97 ∷ 98 ∷ []) ∷ (98 ∷ 99 ∷ []) ∷ []

abbrev spoken : Text
spoken = 97 ∷ 98 ∷ 99 ∷ 97 ∷ 98 ∷ []

abbrev spoken_record : LogRecord
spoken_record = record {
  msg = str spoken;
  message = none;
  args = tuple_args (str spoken ∷ other_value 3 ∷ []);
}

secrets-IsSecret : All IsSecret secrets
secrets-IsSecret = ((refl, ground arith), ((refl, ground arith), tt))

spoken_redacted : process_log_message secrets spoken ≡ 42 ∷ 42 ∷ 42 ∷ 99 ∷ 42 ∷ 42 ∷ 42 ∷ []
unfolding process_log_message redact contains replace replace_from starts_with
spoken_redacted = refl

attach_extra_callbacks-IsClean_example :
    (out : LogRecord) × Redacted secrets spoken_record out
    × All (λ q. IsWithout q out) secrets
    × (attach_extra_callbacks
          (some (process_log_record secrets))
          (some (process_log_message secrets))
          (λ r. return spoken)
          spoken_record
        ≡ return (process_log_message secrets spoken))
    × IsClean secrets (process_log_message secrets spoken)
attach_extra_callbacks-IsClean_example =
    attach_extra_callbacks-IsClean secrets (λ r. spoken) spoken_record secrets-IsSecret tt
