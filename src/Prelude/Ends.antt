-- ===== src/Prelude/Ends.antt =====
-- What holds of the state behind an action: one statement where it returns, one where it raises.
use scheduling_util_py.Prelude.{◌≡◌, arith, Exception, Result, Action, return, raise, and_then}

module _ {ℓ κ} {S : Type ℓ} where
  abbrev pub Ends : {A : Type ℓ} → (Q E : S → Type κ) → Result A × S → Type κ
  Ends Q E (return _, s) = Q s
  Ends Q E (raise _, s) = E s

  module _ {A : Type ℓ} (Q E : S → Type κ) where
    pub Ends_any :
        (P : S → Type κ) (r : Result A × S)
        → Ends Q E r
        → ((s : S) → Q s → P s)
        → ((s : S) → E s → P s)
        → P r.1
    Ends_any P (return _, s) h q e = q s h
    Ends_any P (raise _, s) h q e = e s h

    pub Ends_returned : (r : Result A × S) (a : A) → Ends Q E r → r.0 ≡ return a → Q r.1
    Ends_returned (return b, s) a h e = h
    Ends_returned (raise x, s) a h e = absurd (ground arith)

  module _ {A B : Type ℓ} (Q E R : S → Type κ) where
    pub and_then-Ends :
        (r : Result A × S) (f : A → Action S B)
        → Ends Q E r
        → ((a : A) (s : S) → Q s → Ends R E (f a s))
        → Ends R E (and_then r.0 f r.1)
    and_then-Ends (return a, s) f h k = k a s h
    and_then-Ends (raise e, s) f h k = h

  raised-Ends :
      (A : Type ℓ) {B : Type ℓ} (R F : S → Type κ) (x : Exception) (c : Result B × S)
      → Ends F F c
      → Ends R F (and_then {A = B} {B = A} c.0 (λ _ t. (raise x, t)) c.1)
  raised-Ends A R F x (return b, t) h = h
  raised-Ends A R F x (raise e, t) h = h

  module _ {A B : Type ℓ} (R F : S → Type κ) where
    returned-Ends :
        (a : A) (c : Result B × S)
        → Ends R F c
        → Ends R F (and_then {A = B} {B = A} c.0 (λ _ t. (return a, t)) c.1)
    returned-Ends a (return b, t) h = h
    returned-Ends a (raise e, t) h = h

    pub finally-Ends :
        (Q E : S → Type κ) (r : Result A × S) (cleanup : Action S B)
        → Ends Q E r
        → ((t : S) → Q t → Ends R F (cleanup t))
        → ((t : S) → E t → Ends F F (cleanup t))
        → Ends R F (and_then (cleanup r.1).0 (λ _ t. (r.0, t)) (cleanup r.1).1)
    finally-Ends Q E (return a, t) cleanup h q e = returned-Ends a (cleanup t) (q t h)
    finally-Ends Q E (raise x, t) cleanup h q e = raised-Ends A R F x (cleanup t) (e t h)
