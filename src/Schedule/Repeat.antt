-- ===== src/Schedule/Repeat.antt =====
-- `repeat` of src/scheduling_util/_schedule.py.
pub mod Completes
use scheduling_util_py.Prelude.{
  ℕ, suc, ◌+◌, ◌≤◌, ◌≡◌, refl, ◌⊎◌, inl, inr, Bool, true, false, Bool-cases, ◌&&◌, not, Option,
  none, some, List, [], ◌∷◌, length, if◌then◌else◌, arith, ◌↔◌, ◌≢◌, return, raise, error,
  keyboard_interrupt, system_exit, no_code, int_code, text_code, zero, ◌-◌, ◌*◌, ◌<◌, min, String,
  sym, ap, ◌∙◌, ◌||◌, ◌++◌, map, reverse, ltb, leb, ◌==◌, is_some, ltb→lt, drop, All, length-append,
  length-drop, All-append, All-every, ExitCode, Exception, Result, Action, is_exception, pure,
  throw, and_then, ◌>>=◌, ◌>>◌, finally,
}
use scheduling_util_py.Prelude.Int.{
  ℤ, pos, leb_ℤ, ltb_ℤ, pos_part, neg_part, sub_ℕ, ◌-ℤ◌, ◌≤ℤ◌, ◌<ℤ◌, -ℤ_parts, int_laws, negsuc,
}

-- How a call of `func()` or of `sleep` ends: it returns, it raises `KeyboardInterrupt`, or it raises
-- anything else.
pub data CallEnd : Type 0 where
  returned interrupted escaped : CallEnd

-- `repeating` is a loop that still runs; `broken` is the `break` on `KeyboardInterrupt`; `raised` is
-- an exception that `repeat` passes on.
pub data RepeatExit : Type 0 where
  repeating finished broken raised : RepeatExit

-- A call of `func()` or of `sleep`.
pub data RepeatCall : Type 0 where
  func_call sleep_call : RepeatCall

-- `trace` has the calls that were made, the latest first.
pub record RepeatState : Type 0 where
  pub n_runs : ℕ
  pub trace : List RepeatCall
  pub exit : RepeatExit

-- The sleep duration is in microseconds.
module _ (max_runs sleep_duration : Option ℤ) where
  -- `should_run()`
  abbrev pub should_run : ℕ → Bool
  should_run n_runs = below max_runs
    where
      below : Option ℤ → Bool
      below none = true
      below (some m) = ltb_ℤ (pos n_runs) m

  abbrev pub may_sleep : Bool
  may_sleep = lasts sleep_duration
    where
      lasts : Option ℤ → Bool
      lasts none = false
      lasts (some d) = ltb_ℤ (pos 0) d

  abbrev after_sleep : CallEnd → RepeatState → RepeatState
  after_sleep returned s = record s { trace = sleep_call ∷ s.trace }
  after_sleep _ s = record s { trace = sleep_call ∷ s.trace; exit = raised }

  abbrev pub sleep_or_not : CallEnd → RepeatState → RepeatState
  sleep_or_not slept s = if should_run s.n_runs && may_sleep then after_sleep slept s else s

  -- The body of the loop, with the ends of its calls of `func()` and of `sleep`.
  round : CallEnd × CallEnd → RepeatState → RepeatState
  round (returned, slept) s =
      sleep_or_not slept (record s { trace = func_call ∷ s.trace; n_runs = s.n_runs + 1 })
  round (interrupted, slept) s = record s { trace = func_call ∷ s.trace; exit = broken }
  round (escaped, slept) s = record s { trace = func_call ∷ s.trace; exit = raised }

  abbrev while_running : RepeatExit → Bool → RepeatState → RepeatState → RepeatState
  while_running repeating true s next = next
  while_running repeating false s next = record s { exit = finished }
  while_running _ _ s next = s

  -- The loop, for as many tests of its condition as there are ends.
  repeat_from : List (CallEnd × CallEnd) → RepeatState → RepeatState
  unfolding round
  repeat_from [] s = s
  repeat_from (ends ∷ more) s =
      let next = repeat_from more (round ends s) in
      while_running s.exit (should_run s.n_runs) s next

  abbrev pub start : RepeatState
  start = record { n_runs = 0; trace = []; exit = repeating }

  pub repeat : List (CallEnd × CallEnd) → RepeatState
  unfolding repeat_from
  repeat ends = repeat_from ends start
