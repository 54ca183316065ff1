-- ===== src/Schedule/Whole/Quits.antt =====
-- A call of `schedule` in src/scheduling_util/_schedule.py whose clients ask it to quit.
use scheduling_util_py.Prelude.{
  return, raise, ◌≤◌, String, ◌≡◌, refl, sym, ap, ◌∙◌, Bool, true, none, List, [], ◌∷◌, ◌++◌, arith,
  is_some, Exception, Result, Action, ℕ, Option,
}
use scheduling_util_py.LastRunHistory.{Platform, Disk}
use scheduling_util_py.World.{World, CheckClient}
use scheduling_util_py.Controller.{quit_request}
use scheduling_util_py.ControllerSocket.Lifecycle.{SocketServer, System}
use scheduling_util_py.SlackErrors.{SlackState, SlackClient}
use scheduling_util_py.Schedule.Attempt.{Returned}
use scheduling_util_py.Schedule.Loop.{LoopConfig, LoopState, Move, new_loop, step, run, done}
use scheduling_util_py.Schedule.Loop.Progress.{run-quit_done}
use scheduling_util_py.Schedule.SetUp.{set_up as run_set_up, SetUp, ManageClient, HcCall, can_ping}
use scheduling_util_py.Schedule.Prepare.{prepare}
use scheduling_util_py.Schedule.SetUp.{can_ping}
use scheduling_util_py.RunPredicate.{RunPredicate}
use scheduling_util_py.Schedule.Whole.{Event, Service, Settings, serve_event, serve_events, request}
use scheduling_util_py.Schedule.Whole.Call.{
  Arguments, settings_of, start_control, new_service, schedule, serve, begin, after_set_up,
}
use scheduling_util_py.Schedule.Whole.Refines.{ticks-moves, ticks_of, serve_events-run, moves_of}

module _ (platform : Platform) (client : CheckClient) (slack : SlackClient)
    (unexpected : String → String) (describe : Exception → String)
    (func : Action (World platform) Returned) where
  abbrev serve_all : Settings → List Event → Service platform → Service platform
  serve_all = serve_events platform client slack unexpected describe func

  serve_events-append :
      (g : Settings) (es fs : List Event) (s : Service platform)
      → serve_all g (es ++ fs) s ≡ serve_all g fs (serve_all g es s)
  unfolding serve_events
  serve_events-append g [] fs s = refl
  serve_events-append g (e ∷ es) fs s =
      serve_events-append g es fs (serve_event platform client slack unexpected describe func g e s)

  run-append :
      (cfg : LoopConfig) (ms ns : List Move) (s : LoopState)
      → run cfg ns (run cfg ms s) ≡ run cfg (ms ++ ns) s
  unfolding run
  run-append cfg [] ns s = refl
  run-append cfg (m ∷ ms) ns s = run-append cfg ms ns (step cfg m s)

  quit_asked :
      (cfg : LoopConfig) (s : LoopState)
      → (step cfg (Move.client quit_request) s).controller.quit_requested ≡ true
  unfolding step
  quit_asked cfg s = ground arith

  served_first :
      (g : Settings) (e : Event) (es : List Event) (s : Service platform)
      → serve_all g (e ∷ es) s
        ≡ serve_all g es (serve_event platform client slack unexpected describe func g e s)
  unfolding serve_events
  served_first g e es s = refl

  quit_served :
      (g : Settings) (s : Service platform)
      → (serve_event platform client slack unexpected describe func g
          (request quit_request)
          s).loop.controller.quit_requested
        ≡ true
  unfolding serve_event
  quit_served g s = quit_asked g.loop_config s.loop

  asked_run :
      (g : Settings) (es : List Event) (s : Service platform)
      → (serve_event platform client slack unexpected describe func g
          (request quit_request)
          (serve_all g es s)).loop
        ≡ run g.loop_config
            (moves_of platform client slack unexpected describe func g es s
              ++ Move.client quit_request ∷ [])
            s.loop
  unfolding serve_event run
  asked_run g es s =
      ap (step g.loop_config (Move.client quit_request))
        (serve_events-run platform client slack unexpected describe func g es s)
      ∙ run-append g.loop_config (moves_of platform client slack unexpected describe func g es s)
          (Move.client quit_request ∷ []) s.loop

  loop_done :
      (g : Settings) (before after : List Event) (w : World platform) (k : SlackState)
      → 6 ≤ ticks_of after
      → (serve_all g (before ++ request quit_request ∷ after) (new_service platform w k)).loop.point
        ≡ done
  loop_done g before after w k many =
      let s₀ = new_service platform w k in
      let s₁ = serve_all g before s₀ in
      let s₂ =
        serve_event platform client slack unexpected describe func g (request quit_request) s₁ in
      let asked = asked_run g before s₀ in
      let at_quit : run g.loop_config
            (moves_of platform client slack unexpected describe func g before s₀
              ++ Move.client quit_request ∷ [])
            new_loop
          ≡ s₂.loop =
        sym asked in
      let ended =
        run-quit_done g.loop_config
          (moves_of platform client slack unexpected describe func g before s₀
            ++ Move.client quit_request ∷ [])
          (moves_of platform client slack unexpected describe func g after s₂)
          (ap (λ (l : LoopState). l.controller.quit_requested) at_quit ∙ quit_served g s₁)
          (omega (arith, ticks-moves platform client slack unexpected describe func g after s₂)) in
      ap (λ (s : Service platform). s.loop.point)
        (serve_events-append g before (request quit_request ∷ after) s₀)
      ∙ ap (λ (s : Service platform). s.loop.point) (served_first g (request quit_request) after s₁)
      ∙ ap (λ (l : LoopState). l.point)
          (serve_events-run platform client slack unexpected describe func g after s₂)
      ∙ ap
          (λ (l : LoopState).
            (run g.loop_config (moves_of platform client slack unexpected describe func g after s₂)
              l).point)
          asked
      ∙ ended.0

  module _ (manage : ManageClient) (is_directory : String → Bool) (system : System) (in_time : Bool)
      (cut : Option ℕ) where
    serve_ends :
        (a : Arguments) (k : SlackState) (before after : List Event) (calls : List HcCall)
        (p : RunPredicate) (w : World platform) (x : Result (Unit {0}) × SocketServer)
        → 6 ≤ ticks_of after
        → is_some
            (serve platform client slack unexpected describe func manage is_directory system in_time
              cut a k
              (before ++ request quit_request ∷ after)
              calls
              p
              w
              x).result
          ≡ true
    serve_ends a k before after calls p w (raise e, v) many = refl
    serve_ends a k before after calls p w (return x, v) many =
        rw (loop_done (settings_of a p) before after w k many) refl

    begin_ends :
        (a : Arguments) (k : SlackState) (v : SocketServer) (before after : List Event)
        (calls : List HcCall) (r : Result (RunPredicate × World platform))
        → 6 ≤ ticks_of after
        → is_some
            (begin platform client slack unexpected describe func manage is_directory system in_time
              cut a k v
              (before ++ request quit_request ∷ after)
              calls
              r).result
          ≡ true
    begin_ends a k v before after calls (raise e) many = refl
    begin_ends a k v before after calls (return (p, w)) many =
        serve_ends a k before after calls p w (start_control system a.ipc v) many

    set_up_ends :
        (a : Arguments) (uuid : String) (disk : Disk (Platform.Json platform)) (k : SlackState)
        (v : SocketServer) (before after : List Event) (r : Result (Unit {0}) × SetUp)
        → 6 ≤ ticks_of after
        → is_some
            (after_set_up platform client slack unexpected describe func manage is_directory system
              in_time cut a uuid disk k v
              (before ++ request quit_request ∷ after)
              r).result
          ≡ true
    set_up_ends a uuid disk k v before after (raise e, u) many = refl
    set_up_ends a uuid disk k v before after (return x, u) many =
        begin_ends a k v before after u.calls
          (prepare platform is_directory a.runs a.hc.name (can_ping a.hc) uuid disk) many

    -- A call of `schedule` ends if, while its loop runs, a client asks it to quit, and the scheduler
    -- thread then takes six steps, whatever else happens before and after: requests, interruptions, and
    -- attempts that end in any way.
    pub schedule-quit_ends :
        (a : Arguments) (uuid : String) (disk : Disk (Platform.Json platform)) (k : SlackState)
        (v : SocketServer) (before after : List Event)
        → 6 ≤ ticks_of after
        → is_some
            (schedule platform client slack unexpected describe func manage is_directory system
              in_time cut a uuid disk k v
              (before ++ request quit_request ∷ after)).result
          ≡ true
    unfolding schedule
    schedule-quit_ends a uuid disk k v before after many =
        set_up_ends a uuid disk k v before after
          (run_set_up manage a.hc (record { check_uuid = none; calls = [] })) many
