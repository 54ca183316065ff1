-- ===== src/Schedule/Whole/Refines.antt =====
-- The loop of `schedule` with its real attempts (src/scheduling_util/_schedule.py), as one in which
-- only the end of each attempt is known.
use scheduling_util_py.Prelude.{
  return, raise, error, keyboard_interrupt, system_exit, ℕ, suc, String, ◌≡◌, refl, sym, ap, ◌∙◌,
  ◌⊎◌, inl, inr, Bool, true, false, Option, none, some, List, [], ◌∷◌, arith, if◌then◌else◌,
  Exception, Result, Action, pure,
}
use scheduling_util_py.LastRunHistory.{Platform}
use scheduling_util_py.World.{World, CheckClient}
use scheduling_util_py.Controller.{ControllerRequest, normal, run_now}
use scheduling_util_py.SlackErrors.{SlackState, SlackClient}
use scheduling_util_py.RunPredicate.{force_next_return_value}
use scheduling_util_py.RunPredicate.Forced.{KeepsForced}
use scheduling_util_py.Schedule.Attempt.{attempt as attempt_once, Returned, wrapped_function}
use scheduling_util_py.Schedule.Attempt.Forced.{attempt_forced_none, attempt_raised}
use scheduling_util_py.Schedule.Loop.{
  LoopConfig, LoopPoint, AttemptEnd, LoopState, Move, new_loop, step, run, mark, returned,
  interrupted, escaped, scheduler, interrupt, attempt,
}
use scheduling_util_py.Schedule.Loop.Progress.{ticks}
use scheduling_util_py.Schedule.Whole.{
  Clock, Event, Service, Settings, attempt_with, attempt_end, serve_event, serve_events, request,
  tick, interruption, beat, tick_at,
}

-- The steps of the scheduler thread among the events.
abbrev pub ticks_of : List Event → ℕ
ticks_of [] = 0
ticks_of (tick _ _ _ ∷ es) = suc (ticks_of es)
ticks_of (request _ ∷ es) = ticks_of es
ticks_of (interruption ∷ es) = ticks_of es

module _ (platform : Platform) (client : CheckClient) (slack : SlackClient)
    (unexpected : String → String) (describe : Exception → String)
    (func : Action (World platform) Returned) where
  abbrev serve : Settings → Event → Service platform → Service platform
  serve = serve_event platform client slack unexpected describe func

  -- The predicate of the real attempts and the loop agree on the forced value.
  abbrev pub SameForced : Service platform → Type 0
  SameForced s = s.world.forced ≡ s.loop.forced

  abbrev tick_end : Settings → Clock → Option Exception → LoopPoint → Service platform → AttemptEnd
  tick_end g c h attempt s =
      let (r, after) =
        attempt_with platform client slack unexpected describe func g c h (s.world, s.slack) in
      attempt_end r after.0.forced
  tick_end g c h _ s = returned

  abbrev move_of : Settings → Event → Service platform → Move
  move_of g (request r) s = Move.client r
  move_of g (tick c h timed_out) s = scheduler (tick_end g c h s.loop.point s) timed_out
  move_of g interruption s = interrupt

  abbrev pub moves_of : Settings → List Event → Service platform → List Move
  moves_of g [] s = []
  moves_of g (e ∷ es) s = move_of g e s ∷ moves_of g es (serve g e s)

  tick_at-step :
      (g : Settings) (c : Clock) (h : Option Exception) (timed_out : Bool) (p : LoopPoint)
      (s : Service platform)
      → (tick_at platform client slack unexpected describe func g c h timed_out p s).loop
        ≡ step g.loop_config (scheduler (tick_end g c h p s) timed_out) s.loop
  unfolding tick_at
  tick_at-step g c h timed_out attempt s = refl
  tick_at-step g c h timed_out (mark run_now) s = refl
  tick_at-step g c h timed_out p s = refl

  pub serve-step :
      (g : Settings) (e : Event) (s : Service platform)
      → (serve g e s).loop ≡ step g.loop_config (move_of g e s) s.loop
  unfolding serve_event
  serve-step g (request r) s = refl
  serve-step g (tick c h timed_out) s = tick_at-step g c h timed_out s.loop.point s
  serve-step g interruption s = refl

  pub ticks-moves :
      (g : Settings) (es : List Event) (s : Service platform)
      → ticks (moves_of g es s) ≡ ticks_of es
  ticks-moves g [] s = refl
  ticks-moves g (request r ∷ es) s = ticks-moves g es (serve g (request r) s)
  ticks-moves g (tick c h out ∷ es) s = ap suc (ticks-moves g es (serve g (tick c h out) s))
  ticks-moves g (interruption ∷ es) s = ticks-moves g es (serve g interruption s)

  abbrev asked_end : AttemptEnd → Bool
  asked_end returned = true
  asked_end (interrupted asked) = asked
  asked_end (escaped asked) = asked

  asked_forced :
      (r : Result (Unit {0})) (forced old : Option Bool)
      → (forced ≡ none) ⊎ ((e : Exception) × (r ≡ raise e) × (forced ≡ old))
      → forced ≡ (if asked_end (attempt_end r forced) then none else old)
  asked_forced (return x) forced old (inl e) = e
  asked_forced (return x) forced old (inr (e, q, f)) = absurd (ground arith)
  asked_forced (raise keyboard_interrupt) forced old h = ground arith
  asked_forced (raise (system_exit c)) forced old h = ground arith
  asked_forced (raise (error k m)) forced old h = ground arith

  step_forced :
      (cfg : LoopConfig) (end : AttemptEnd) (timed_out : Bool) (s : LoopState)
      → s.point ≡ attempt
      → (step cfg (scheduler end timed_out) s).forced ≡ (if asked_end end then none else s.forced)
  unfolding step
  step_forced cfg end timed_out s e = ground arith

  client_forced :
      (cfg : LoopConfig) (r : ControllerRequest) (s : LoopState)
      → s.forced ≡ (step cfg (Move.client r) s).forced
  unfolding step
  client_forced cfg r s = refl

  interrupt_forced :
      (cfg : LoopConfig) (p : LoopPoint) (s : LoopState)
      → s.point ≡ p
      → s.forced ≡ (step cfg interrupt s).forced
  unfolding step
  interrupt_forced cfg p s e = ground arith

  new_forced : none ≡ new_loop.forced
  unfolding new_loop
  new_forced = refl

  pub serve_events-run :
      (g : Settings) (es : List Event) (s : Service platform)
      → (serve_events platform client slack unexpected describe func g es s).loop
        ≡ run g.loop_config (moves_of g es s) s.loop
  unfolding serve_events run
  serve_events-run g [] s = refl
  serve_events-run g (e ∷ es) s =
      serve_events-run g es (serve g e s)
      ∙ ap (run g.loop_config (moves_of g es (serve g e s))) (serve-step g e s)

  module _ (keeps : KeepsForced platform func) where
    -- The heartbeat raises, or the predicate was asked.
    tried :
        (g : Settings) (c : Clock) (h : Option Exception) (s : World platform × SlackState)
        → let (r, after) = attempt_with platform client slack unexpected describe func g c h s in
          (after.0.forced ≡ none)
          ⊎ ((e : Exception) × (r ≡ raise e) × (after.0.forced ≡ s.0.forced))
    tried g c h s = beaten g.heartbeat h
      where
        wrapped : Action (World platform) (Option Returned)
        wrapped =
            wrapped_function platform client unexpected describe g.predicate c.asked c.started
              c.finished func

        tries :
            Action (World platform × SlackState) (Unit {0})
            → Result (Unit {0}) × (World platform × SlackState)
        tries b = attempt_once platform client slack g.slack_webhook c.limited c.touched b wrapped s

        asks : ((tries (pure tt)).1.0.forced) ≡ none
        asks =
            attempt_forced_none platform client unexpected describe func keeps slack g.slack_webhook
              c.limited c.touched g.predicate c.asked c.started c.finished s

        beaten :
            (b : Bool) (h : Option Exception)
            → let (r, after) = tries (beat platform client slack unexpected describe func b h) in
              (after.0.forced ≡ none)
              ⊎ ((e : Exception) × (r ≡ raise e) × (after.0.forced ≡ s.0.forced))
        beaten false h = inl asks
        beaten true none = inl asks
        beaten true (some e) =
            let raised =
              attempt_raised platform client unexpected describe func keeps slack g.slack_webhook
                c.limited c.touched e wrapped s in
            inr (
              e,
              ap (λ (o : Result (Unit {0}) × (World platform × SlackState)). o.0) raised,
              ap (λ (o : Result (Unit {0}) × (World platform × SlackState)). o.1.0.forced) raised,
            )

    attempt-SameForced :
        (g : Settings) (c : Clock) (h : Option Exception) (timed_out : Bool) (s : Service platform)
        → s.loop.point ≡ attempt
        → SameForced s
        → SameForced
            (tick_at platform client slack unexpected describe func g c h timed_out attempt s)
    unfolding tick_at
    attempt-SameForced g c h timed_out s e same =
        let (r, after) =
          attempt_with platform client slack unexpected describe func g c h (s.world, s.slack) in
        asked_forced r after.0.forced s.world.forced (tried g c h (s.world, s.slack))
        ∙ ap (λ old. if asked_end (attempt_end r after.0.forced) then none else old) same
        ∙ sym (step_forced g.loop_config (attempt_end r after.0.forced) timed_out s.loop e)

    tick-SameForced :
        (g : Settings) (c : Clock) (h : Option Exception) (timed_out : Bool) (p : LoopPoint)
        (s : Service platform)
        → s.loop.point ≡ p
        → SameForced s
        → SameForced (tick_at platform client slack unexpected describe func g c h timed_out p s)
    unfolding tick_at step force_next_return_value
    tick-SameForced g c h timed_out attempt s e same = attempt-SameForced g c h timed_out s e same
    tick-SameForced g c h timed_out (mark run_now) s e same = ground arith
    tick-SameForced g c h timed_out (mark normal) s e same = ground arith
    tick-SameForced g c h timed_out p s e same = ground arith

    serve-SameForced :
        (g : Settings) (e : Event) (s : Service platform) → SameForced s → SameForced (serve g e s)
    unfolding serve_event
    serve-SameForced g (request r) s same = same ∙ client_forced g.loop_config r s.loop
    serve-SameForced g (tick c h timed_out) s same =
        tick-SameForced g c h timed_out s.loop.point s refl same
    serve-SameForced g interruption s same =
        same ∙ interrupt_forced g.loop_config s.loop.point s.loop refl

    serve_events-SameForced :
        (g : Settings) (es : List Event) (s : Service platform)
        → SameForced s
        → SameForced (serve_events platform client slack unexpected describe func g es s)
    unfolding serve_events
    serve_events-SameForced g [] s same = same
    serve_events-SameForced g (e ∷ es) s same =
        serve_events-SameForced g es (serve g e s) (serve-SameForced g e s same)

  -- On any events, if the function leaves the forced value alone and there is none at first, the loop
  -- of `schedule` with its real attempts comes to where the loop that knows only how attempts end comes
  -- on some moves, with as many steps of the scheduler thread, and the forced value of the run predicate
  -- is the one of that loop.
  pub serve_events-Refines :
      (g : Settings) (es : List Event) (w : World platform) (k : SlackState)
      → KeepsForced platform func
      → w.forced ≡ none
      → let s =
          serve_events platform client slack unexpected describe func g es
            (record { loop = new_loop; world = w; slack = k; left_by = none }) in
        (ms : List Move) × (s.loop ≡ run g.loop_config ms new_loop)
        × (ticks ms ≡ ticks_of es)
        × (s.world.forced ≡ s.loop.forced)
  serve_events-Refines g es w k keeps unforced =
      let s : Service platform = record { loop = new_loop; world = w; slack = k; left_by = none } in
      (
        moves_of g es s,
        serve_events-run g es s,
        ticks-moves g es s,
        serve_events-SameForced keeps g es s (unforced ∙ new_forced),
      )
