-- ===== src/LogRedactor/Removal.antt =====
-- What `str.replace` leaves of a text (src/scheduling_util/_logging_util.py).
use scheduling_util_py.Prelude.{
  zero, ◌≡◌, refl, ◌≢◌, Bool, true, false, not, ◌&&◌, [], ◌∷◌, arith, ◌==◌, ℕ, suc, ◌-◌, length, ap,
  ◌∙◌, List, All,
}
use scheduling_util_py.LogRedactor.{
  Text, star, starts_with, replace_from, contains, replace, redact, process_log_message,
}

-- A redaction that is not empty and has no `*`.
abbrev pub starless : Text → Bool
starless [] = true
starless (c ∷ cs) = not (c == star) && starless cs

abbrev pub IsSecret : Text → Type 0
IsSecret r = (starless r ≡ true) × (r ≢ [])

starts_with-replace :
    (q r s : Text)
    → starless q ≡ true
    → starts_with q (replace_from zero r s) ≡ true
    → starts_with q s ≡ true
unfolding starts_with replace_from
starts_with-replace [] r s h e = refl
starts_with-replace (a ∷ q) r [] h e = ground arith
starts_with-replace (a ∷ q) r (c ∷ s) h e =
    elim (starts_with r (c ∷ s))
        as (λ b. starts_with r (c ∷ s) ≡ b → starts_with (a ∷ q) (c ∷ s) ≡ true) [
          | true ↦ λ b. ground (arith, b)
          | false ↦ λ b. ground (arith, b, starts_with-replace q r s)
        ]
      refl

contains-longer :
    (q : Text) (c : ℕ) (cs : Text) → contains q (c ∷ cs) ≡ false → contains q cs ≡ false
unfolding contains starts_with
contains-longer q c cs h = ground arith

-- A pattern without `*` that is not in a text is not in what a replacement makes of it.
replace_from-keeps :
    (q r : Text)
    → IsSecret q
    → (k : ℕ) (s : Text) → contains q s ≡ false
    → contains q (replace_from k r s) ≡ false
unfolding contains starts_with replace_from
replace_from-keeps [] r secret k s h = absurd (secret.1 refl)
replace_from-keeps (a ∷ q) r secret k [] h = h
replace_from-keeps (a ∷ q) r secret (suc k) (c ∷ s) h =
    replace_from-keeps (a ∷ q) r secret k s (contains-longer (a ∷ q) c s h)
replace_from-keeps (a ∷ q) r secret zero (c ∷ s) h =
    elim (starts_with r (c ∷ s))
        as (λ b.
          starts_with r (c ∷ s) ≡ b → contains (a ∷ q) (replace_from zero r (c ∷ s)) ≡ false) [
            | true ↦ λ b. ground (
              arith,
              b,
              secret,
              replace_from-keeps (a ∷ q) r secret (length r - 1) s (contains-longer (a ∷ q) c s h),
            )
            | false ↦ λ b. ground (
              arith,
              b,
              secret,
              h,
              replace_from-keeps (a ∷ q) r secret zero s (contains-longer (a ∷ q) c s h),
              starts_with-replace (a ∷ q) r (c ∷ s),
            )
          ]
      refl

replace_from-removes :
    (r : Text) → IsSecret r → (k : ℕ) (s : Text) → contains r (replace_from k r s) ≡ false
unfolding contains starts_with replace_from
replace_from-removes [] secret k s = absurd (secret.1 refl)
replace_from-removes (a ∷ r) secret k [] = refl
replace_from-removes (a ∷ r) secret (suc k) (c ∷ s) = replace_from-removes (a ∷ r) secret k s
replace_from-removes (a ∷ r) secret zero (c ∷ s) =
    elim (starts_with (a ∷ r) (c ∷ s))
        as (λ b.
          starts_with (a ∷ r) (c ∷ s) ≡ b
          → contains (a ∷ r) (replace_from zero (a ∷ r) (c ∷ s)) ≡ false) [
            | true ↦ λ b.
                ground
                  (arith, b, secret, replace_from-removes (a ∷ r) secret (length (a ∷ r) - 1) s)
            | false ↦ λ b. ground (
              arith,
              b,
              secret,
              replace_from-removes (a ∷ r) secret zero s,
              starts_with-replace (a ∷ r) (a ∷ r) (c ∷ s),
            )
          ]
      refl

pub redact-keeps :
    (q r s : Text)
    → IsSecret q
    → IsSecret r
    → contains q s ≡ false
    → contains q (redact r s) ≡ false
unfolding redact replace
redact-keeps q [] s secret other h = absurd (other.1 refl)
redact-keeps q (a ∷ r) s secret other h =
    ground (arith, h, replace_from-keeps q (a ∷ r) secret zero s h)

pub redact-removes : (r s : Text) → IsSecret r → contains r (redact r s) ≡ false
unfolding redact replace
redact-removes [] s secret = absurd (secret.1 refl)
redact-removes (a ∷ r) s secret = ground (arith, replace_from-removes (a ∷ r) secret zero s)

-- None of the patterns is in the text.
abbrev pub IsClean : List Text → Text → Type 0
IsClean rs s = All (λ r. contains r s ≡ false) rs

redact-IsClean :
    (rs : List Text) (r s : Text)
    → All IsSecret rs
    → IsSecret r
    → IsClean rs s
    → IsClean rs (redact r s)
redact-IsClean [] r s secrets secret clean = tt
redact-IsClean (q ∷ rs) r s secrets secret clean =
    (redact-keeps q r s secrets.0 secret clean.0, redact-IsClean rs r s secrets.1 secret clean.1)

message-IsClean :
    (done rs : List Text) (s : Text)
    → All IsSecret done
    → All IsSecret rs
    → IsClean done s
    → IsClean done (process_log_message rs s) × IsClean rs (process_log_message rs s)
unfolding process_log_message
message-IsClean done [] s old new clean = (clean, tt)
message-IsClean done (r ∷ rs) s old new clean =
    let (before, after) =
      message-IsClean (r ∷ done) rs (redact r s) (new.0, old) new.1
        (redact-removes r s new.0, redact-IsClean done r s old new.0 clean) in
    (before.1, (before.0, after))

-- When no redaction is empty or has a `*`, none of the redactions is left in a message that
-- `process_log_message` returns: neither one behind another, nor one that a replacement put together.
pub process_log_message-IsClean :
    (redactions : List Text) (message : Text)
    → All IsSecret redactions
    → IsClean redactions (process_log_message redactions message)
process_log_message-IsClean redactions message secrets =
    (message-IsClean [] redactions message tt secrets tt).1

clean_message : (rs : List Text) (s : Text) → IsClean rs s → process_log_message rs s ≡ s
unfolding process_log_message redact
clean_message [] s clean = refl
clean_message (r ∷ rs) s clean =
    let kept : redact r s ≡ s = ground (arith, clean.0) in
    ap (process_log_message rs) kept ∙ clean_message rs s clean.1

-- When no redaction is empty or has a `*`, a message that `process_log_message` returned is not
-- changed by it again.
process_log_message-idempotent :
    (redactions : List Text) (message : Text)
    → All IsSecret redactions
    → process_log_message redactions (process_log_message redactions message)
      ≡ process_log_message redactions message
process_log_message-idempotent redactions message secrets =
    clean_message redactions (process_log_message redactions message)
      (process_log_message-IsClean redactions message secrets)
