-- ===== src/Schedule/Loop/Invariant.antt =====
-- What holds between two moves of the loop of `schedule` and its clients, in every interleaving.
use scheduling_util_py.Prelude.{
  ℕ, ◌+◌, ◌≤◌, ◌≡◌, refl, ◌≢◌, ◌⊎◌, Bool, true, false, Option, none, some, List, [], ◌∷◌, arith,
}
use scheduling_util_py.Prelude.Int.{ℤ, pos, ◌≤ℤ◌}
use scheduling_util_py.Controller.{
  ScheduleController, ControllerRequest, status_request, wake_request, run_now_request,
  quit_request, not_waiting, waiting, notified, running, sleeping, stopping, stopped,
}
use scheduling_util_py.Schedule.Loop.{
  LoopConfig, LoopPoint, enter, take, mark, attempt, count, recheck, pending, wait, blocked, leave,
  done, AttemptEnd, looping, finished, unmarked, LoopState, Move, client, scheduler, interrupt,
  new_loop, runs_exhausted, step, run,
}

-- The number of attempts stays within `max_runs`; a limit below 1 allows none.
abbrev pub Within : Option ℤ → ℕ → Type 0
Within none n = Unit
Within (some max_runs) n = (n ≡ 0) ⊎ (pos n ≤ℤ max_runs)

abbrev Idle : ScheduleController → Type 0
Idle c = (c.pending_wake ≡ false) × (c.pending_run_now ≡ false) × (c.quit_requested ≡ false)

abbrev Unexhausted : LoopConfig → LoopState → Type 0
Unexhausted cfg s = runs_exhausted cfg.max_runs s.n_runs ≡ false

-- Between two attempts.
abbrev Settled : LoopState → Type 0
Settled s =
    (s.controller.waiter ≡ not_waiting)
    × (s.attempts ≡ s.n_runs)
    × (s.forced ≡ none)
    × (s.exit ≡ looping)

-- Behind the loop.
abbrev Left : LoopConfig → LoopState → Type 0
Left cfg s =
    (s.controller.waiter ≡ not_waiting)
    × (s.n_runs ≤ s.attempts)
    × (s.attempts ≤ s.n_runs + 1)
    × (s.exit ≢ looping)
    × (s.exit ≡ finished
        → (s.controller.quit_requested ≡ true) ⊎ (runs_exhausted cfg.max_runs s.n_runs ≡ true))

abbrev AtPoint : LoopConfig → LoopState → LoopPoint → Type 0
AtPoint cfg s enter = Settled s
AtPoint cfg s take = Settled s × Unexhausted cfg s
AtPoint cfg s (mark mode) = Settled s × Unexhausted cfg s
AtPoint cfg s attempt =
    (s.controller.waiter ≡ not_waiting)
    × (s.attempts ≡ s.n_runs)
    × (s.exit ≡ looping)
    × Unexhausted cfg s
    × (s.controller.state ≡ running)
    × ((s.forced ≡ none) ⊎ (s.forced ≡ some true))
AtPoint cfg s count =
    (s.controller.waiter ≡ not_waiting)
    × (s.attempts ≡ s.n_runs + 1)
    × (s.exit ≡ looping)
    × Unexhausted cfg s
    × (s.controller.state ≡ running)
    × (s.forced ≡ none)
AtPoint cfg s recheck = Settled s × (s.controller.state ≡ running)
AtPoint cfg s pending = Settled s × (s.controller.state ≡ running)
AtPoint cfg s wait = Settled s × (s.controller.state ≡ running)
AtPoint cfg s blocked =
    (s.attempts ≡ s.n_runs)
    × (s.forced ≡ none)
    × (s.exit ≡ looping)
    × ((s.controller.waiter ≡ waiting) × Idle s.controller × (s.controller.state ≡ sleeping)
        ⊎ (s.controller.waiter ≡ notified))
AtPoint cfg s leave = Left cfg s
AtPoint cfg s done =
    Left cfg s
    × ((s.exit ≡ unmarked)
        ⊎ (s.controller.state ≡ stopped)
        ⊎ (s.controller.state ≡ stopping) × (s.controller.quit_requested ≡ true))

pub record Inv (cfg : LoopConfig) (s : LoopState) : Type 0 where
  pub counted : s.controller.run_count ≡ s.n_runs
  pub within : Within cfg.max_runs s.attempts
  pub at_point : AtPoint cfg s s.point

pub new_loop-Inv : (cfg : LoopConfig) → Inv cfg new_loop
unfolding new_loop
new_loop-Inv cfg = ground arith

client-Inv :
    (cfg : LoopConfig) (r : ControllerRequest) (p : LoopPoint) (s : LoopState)
    → s.point ≡ p
    → Inv cfg s
    → Inv cfg (step cfg (client r) s)
unfolding step
client-Inv cfg status_request p s e h = ground arith
client-Inv cfg wake_request p s e h = ground arith
client-Inv cfg run_now_request p s e h = ground arith
client-Inv cfg quit_request p s e h = ground arith

interrupt-Inv :
    (cfg : LoopConfig) (p : LoopPoint) (s : LoopState)
    → s.point ≡ p
    → Inv cfg s
    → Inv cfg (step cfg interrupt s)
unfolding step
interrupt-Inv cfg p s e h = ground arith

scheduler-Inv :
    (cfg : LoopConfig) (end : AttemptEnd) (timed_out : Bool) (p : LoopPoint) (s : LoopState)
    → s.point ≡ p
    → Inv cfg s
    → Inv cfg (step cfg (scheduler end timed_out) s)
unfolding step
scheduler-Inv cfg end timed_out enter s e h = ground arith
scheduler-Inv cfg end timed_out p s e h = ground arith

pub step-Inv : (cfg : LoopConfig) (m : Move) (s : LoopState) → Inv cfg s → Inv cfg (step cfg m s)
step-Inv cfg (client r) s h = client-Inv cfg r s.point s refl h
step-Inv cfg (scheduler end timed_out) s h = scheduler-Inv cfg end timed_out s.point s refl h
step-Inv cfg interrupt s h = interrupt-Inv cfg s.point s refl h

pub run-Inv :
    (cfg : LoopConfig) (ms : List Move) (s : LoopState) → Inv cfg s → Inv cfg (run cfg ms s)
unfolding run
run-Inv cfg [] s h = h
run-Inv cfg (m ∷ ms) s h = run-Inv cfg ms (step cfg m s) (step-Inv cfg m s h)
