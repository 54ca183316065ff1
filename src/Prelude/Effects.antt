-- ===== src/Prelude/Effects.antt =====
-- Python code that mutates a state and may raise. The state outlives an exception.
use Prim.Native.String.{String}
use mathlib.Core.Bool.{Bool, true, false}
use scheduling_util_py.Prelude.Int.{ℤ}

-- The argument of `sys.exit`: `SystemExit.code`.
pub data ExitCode : Type 0 where
  no_code : ExitCode
  int_code : ℤ → ExitCode
  text_code : String → ExitCode

-- `error` is any subclass of `Exception`; the others are only under `BaseException`.
pub data Exception : Type 0 where
  keyboard_interrupt : Exception
  system_exit : ExitCode → Exception
  error : (kind message : String) → Exception

pub data Result {ℓ} (A : Type ℓ) : Type ℓ where
  return : A → Result A
  raise : Exception → Result A

-- A method with a state `S`.
abbrev pub Action {ℓ} : Type ℓ → Type ℓ → Type ℓ
Action S A = S → Result A × S

-- Is this exception caught by `except Exception`?
abbrev pub is_exception : Exception → Bool
is_exception (error _ _) = true
is_exception _ = false

module _ {ℓ} {S A : Type ℓ} where
  abbrev pub pure : A → Action S A
  pure a s = (return a, s)

  abbrev pub throw : Exception → Action S A
  throw e s = (raise e, s)

module _ {ℓ} {S A B : Type ℓ} where
  abbrev pub and_then : Result A → (A → Action S B) → Action S B
  and_then (return a) f = f a
  and_then (raise e) f = throw e

  infixl 5 ◌>>=◌ ◌>>◌
  abbrev pub ◌>>=◌ : Action S A → (A → Action S B) → Action S B
  m >>= f = λ s. let (result, after) = m s in and_then result f after

  abbrev pub ◌>>◌ : Action S A → Action S B → Action S B
  m >> n = m >>= λ _. n

module _ {ℓ} {S A B : Type ℓ} where
  abbrev after_cleanup : Result A → Action S B → Action S A
  after_cleanup result cleanup = cleanup >>= λ _ s. (result, s)

  -- `try: … finally: …`; an exception of the clean-up takes the place of the result.
  abbrev pub finally : Action S A → Action S B → Action S A
  finally body cleanup s = let (result, after) = body s in after_cleanup result cleanup after
