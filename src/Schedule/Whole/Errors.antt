-- ===== src/Schedule/Whole/Errors.antt =====
-- The exception that leaves the loop of `schedule` in src/scheduling_util/_schedule.py.
use mathlib.Core.Path.{subst}
use scheduling_util_py.Prelude.{
  return, raise, error, keyboard_interrupt, system_exit, String, ◌≡◌, refl, sym, ◌∙◌, ◌≢◌, Bool,
  true, false, Option, List, [], ◌∷◌, arith, is_some, Exception, Result, Action,
}
use scheduling_util_py.LastRunHistory.{Platform}
use scheduling_util_py.World.{World, CheckClient}
use scheduling_util_py.Controller.{run_now}
use scheduling_util_py.SlackErrors.{SlackClient}
use scheduling_util_py.Schedule.Attempt.{Returned}
use scheduling_util_py.Schedule.Loop.{
  LoopConfig, LoopPoint, AttemptEnd, LoopExit, LoopState, step, mark, attempt, returned, escaped,
  raised, unmarked, scheduler, interrupt,
}
use scheduling_util_py.Schedule.Loop.Invariant.{Inv, step-Inv}
use scheduling_util_py.Schedule.Whole.{
  Clock, Event, Service, Settings, attempt_with, attempt_end, error_of, serve_event, serve_events,
  request, tick, interruption, tick_at, interrupt_error,
}
use scheduling_util_py.Schedule.Whole.Refines.{serve-step}

abbrev pub is_raised : LoopExit → Bool
is_raised raised = true
is_raised unmarked = true
is_raised _ = false

abbrev exit_by : AttemptEnd → Bool
exit_by (escaped _) = true
exit_by _ = false

attempt_raised_exit :
    (cfg : LoopConfig) (end : AttemptEnd) (timed_out : Bool) (s : LoopState)
    → s.point ≡ attempt
    → Inv cfg s
    → (is_raised s.exit ≡ false)
      × (is_raised (step cfg (scheduler end timed_out) s).exit ≡ exit_by end)
unfolding step
attempt_raised_exit cfg end timed_out s e h = ground arith

scheduler_raised_exit :
    (cfg : LoopConfig) (timed_out : Bool) (p : LoopPoint) (s : LoopState)
    → s.point ≡ p
    → p ≢ attempt
    → Inv cfg s
    → is_raised (step cfg (scheduler returned timed_out) s).exit ≡ is_raised s.exit
unfolding step
scheduler_raised_exit cfg timed_out p s e ne h = ground arith

interrupt_raised_exit :
    (cfg : LoopConfig) (p : LoopPoint) (s : LoopState) (old : Option Exception)
    → s.point ≡ p
    → Inv cfg s
    → is_some old ≡ is_raised s.exit
    → is_some (interrupt_error p old) ≡ is_raised (step cfg interrupt s).exit
unfolding step
interrupt_raised_exit cfg p s old e h same = ground arith

module _ (platform : Platform) (client : CheckClient) (slack : SlackClient)
    (unexpected : String → String) (describe : Exception → String)
    (func : Action (World platform) Returned) where
  -- The exception that leaves the loop is there just when the loop was left by one.
  abbrev pub HasError : Service platform → Type 0
  HasError s = is_some s.left_by ≡ is_raised s.loop.exit

  error_of-exit :
      (r : Result (Unit {0})) (forced : Option Bool) (old : Option Exception)
      → is_some old ≡ false
      → is_some (error_of r old) ≡ exit_by (attempt_end r forced)
  error_of-exit (return x) forced old h = h
  error_of-exit (raise keyboard_interrupt) forced old h = h
  error_of-exit (raise (system_exit c)) forced old h = refl
  error_of-exit (raise (error k m)) forced old h = refl

  tick-HasError :
      (g : Settings) (c : Clock) (h : Option Exception) (timed_out : Bool) (p : LoopPoint)
      (s : Service platform)
      → s.loop.point ≡ p
      → Inv g.loop_config s.loop
      → HasError s
      → HasError (tick_at platform client slack unexpected describe func g c h timed_out p s)
  unfolding tick_at
  tick-HasError g c h timed_out attempt s e inv same =
      let (r, after) =
        attempt_with platform client slack unexpected describe func g c h (s.world, s.slack) in
      let (before, now) =
        attempt_raised_exit g.loop_config (attempt_end r after.0.forced) timed_out s.loop e inv in
      error_of-exit r after.0.forced s.left_by (same ∙ before) ∙ sym now
  tick-HasError g c h timed_out (mark run_now) s e inv same =
      same
      ∙ sym
          (scheduler_raised_exit g.loop_config timed_out (mark run_now) s.loop e (ground arith) inv)
  tick-HasError g c h timed_out p s e inv same =
      same ∙ sym (scheduler_raised_exit g.loop_config timed_out p s.loop e (ground arith) inv)

  serve-HasError :
      (g : Settings) (e : Event) (s : Service platform)
      → Inv g.loop_config s.loop
      → HasError s
      → HasError (serve_event platform client slack unexpected describe func g e s)
  unfolding serve_event step
  serve-HasError g (request r) s inv same = same
  serve-HasError g (tick c h timed_out) s inv same =
      tick-HasError g c h timed_out s.loop.point s refl inv same
  serve-HasError g interruption s inv same =
      interrupt_raised_exit g.loop_config s.loop.point s.loop s.left_by refl inv same

  pub serve_events-HasError :
      (g : Settings) (es : List Event) (s : Service platform)
      → Inv g.loop_config s.loop
      → HasError s
      → HasError (serve_events platform client slack unexpected describe func g es s)
  unfolding serve_events
  serve_events-HasError g [] s inv same = same
  serve_events-HasError g (e ∷ es) s inv same =
      serve_events-HasError g es (serve_event platform client slack unexpected describe func g e s)
        (subst (Inv g.loop_config)
          (sym (serve-step platform client slack unexpected describe func g e s))
          (step-Inv g.loop_config _ s.loop inv))
        (serve-HasError g e s inv same)
