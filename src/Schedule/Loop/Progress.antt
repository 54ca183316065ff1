-- ===== src/Schedule/Loop/Progress.antt =====
-- The loop of `schedule` in src/scheduling_util/_schedule.py: its end, its sleep and its bound.
use scheduling_util_py.Prelude.{ℕ, suc, ◌+◌, ◌≤◌, ◌≡◌, refl, ◌⊎◌, true, false, List, [], ◌∷◌, arith}
use scheduling_util_py.Controller.{
  status_request, wake_request, run_now_request, quit_request, waiting,
}
use scheduling_util_py.Schedule.Loop.{
  LoopConfig, LoopPoint, enter, take, mark, attempt, count, recheck, pending, wait, blocked, leave,
  done, LoopState, Move, client, scheduler, interrupt, new_loop, step, run,
}
use scheduling_util_py.Schedule.Loop.Invariant.{Inv, Within, new_loop-Inv, step-Inv, run-Inv}

-- The steps that the scheduler thread takes in a run.
abbrev pub ticks : List Move → ℕ
ticks [] = 0
ticks (scheduler _ _ ∷ ms) = suc (ticks ms)
ticks (client _ ∷ ms) = ticks ms
ticks (interrupt ∷ ms) = ticks ms

-- How many steps are left to `done` once a quit was requested.
abbrev quit_rank : LoopPoint → ℕ
quit_rank done = 0
quit_rank leave = 1
quit_rank enter = 2
quit_rank recheck = 2
quit_rank blocked = 3
quit_rank wait = 3
quit_rank pending = 3
quit_rank count = 3
quit_rank attempt = 4
quit_rank (mark _) = 5
quit_rank take = 6

-- The attempts that a scheduler at this point may still make once a quit was requested.
abbrev pub last_attempts : LoopPoint → ℕ
last_attempts take = 1
last_attempts (mark _) = 1
last_attempts attempt = 1
last_attempts _ = 0

Quits : LoopConfig → Move → LoopState → Type 0
Quits cfg m s =
    (((step cfg m s).controller.quit_requested ≡ true)
      × (quit_rank (step cfg m s).point + ticks (m ∷ []) ≤ quit_rank s.point
          ⊎ (quit_rank (step cfg m s).point ≡ 0))
      × ((step cfg m s).attempts + last_attempts (step cfg m s).point
          ≤ s.attempts + last_attempts s.point))

step-Quits :
    (cfg : LoopConfig) (m : Move) (p : LoopPoint) (s : LoopState)
    → s.point ≡ p
    → Inv cfg s
    → s.controller.quit_requested ≡ true
    → Quits cfg m s
unfolding step Quits
step-Quits cfg (client status_request) p s e h q = ground arith
step-Quits cfg (client wake_request) p s e h q = ground arith
step-Quits cfg (client run_now_request) p s e h q = ground arith
step-Quits cfg (client quit_request) p s e h q = ground arith
step-Quits cfg interrupt p s e h q = ground arith
step-Quits cfg (scheduler end timed_out) p s e h q = ground arith

quit_rank-done : (p : LoopPoint) → quit_rank p ≡ 0 → p ≡ done
quit_rank-done done h = refl
quit_rank-done p h = ground arith

run-quit :
    (cfg : LoopConfig) (ms : List Move) (s : LoopState)
    → Inv cfg s
    → s.controller.quit_requested ≡ true
    → (quit_rank s.point ≤ ticks ms → (run cfg ms s).point ≡ done)
      × ((run cfg ms s).attempts ≤ s.attempts + last_attempts s.point)
unfolding run Quits
run-quit cfg [] s h q = (λ r. quit_rank-done s.point (omega arith), omega arith)
run-quit cfg (m ∷ ms) s h q =
    let (q', rank, few) = step-Quits cfg m s.point s refl h q in
    let (ends, fewer) = run-quit cfg ms (step cfg m s) (step-Inv cfg m s h) q' in
    (λ r. ends (rank_left m rank r), omega arith)
  where
    rank_left :
        (m : Move)
        → (quit_rank (step cfg m s).point + ticks (m ∷ []) ≤ quit_rank s.point
            ⊎ (quit_rank (step cfg m s).point ≡ 0))
        → quit_rank s.point ≤ ticks (m ∷ ms)
        → quit_rank (step cfg m s).point ≤ ticks ms
    rank_left (client r) h k = omega arith
    rank_left interrupt h k = omega arith
    rank_left (scheduler end timed_out) h k = omega arith

-- Once a quit was requested, six steps of the scheduler thread end the loop, whatever the clients
-- do in between, and at most one more attempt is made: none if the loop's test or the sleep is next.
pub run-quit_done :
    (cfg : LoopConfig) (before after : List Move)
    → let s = run cfg before new_loop in
      s.controller.quit_requested ≡ true
      → 6 ≤ ticks after
      → ((run cfg after s).point ≡ done)
        × ((run cfg after s).attempts ≤ s.attempts + last_attempts s.point)
run-quit_done cfg before after q k =
    let s = run cfg before new_loop in
    let (ends, few) = run-quit cfg after s (run-Inv cfg before new_loop (new_loop-Inv cfg)) q in
    (ends (omega (arith, quit_rank_bound s.point)), few)
  where
    quit_rank_bound : (p : LoopPoint) → quit_rank p ≤ 6
    quit_rank_bound done = omega arith
    quit_rank_bound p = ground arith

-- The scheduler never sleeps, waiting to be notified, on a pending request: a wake, a run-now or a
-- quit that arrives before the sleep prevents it, and one that arrives later ends it.
pub run_no_lost_wake :
    (cfg : LoopConfig) (ms : List Move)
    → let c = (run cfg ms new_loop).controller in
      c.waiter ≡ waiting
      → (c.pending_wake ≡ false) × (c.pending_run_now ≡ false) × (c.quit_requested ≡ false)
run_no_lost_wake cfg ms w =
    let s = run cfg ms new_loop in
    asleep s s.point refl (run-Inv cfg ms new_loop (new_loop-Inv cfg)) w
  where
    asleep :
        (s : LoopState) (p : LoopPoint)
        → s.point ≡ p
        → Inv cfg s
        → s.controller.waiter ≡ waiting
        → (s.controller.pending_wake ≡ false)
          × (s.controller.pending_run_now ≡ false)
          × (s.controller.quit_requested ≡ false)
    asleep s enter e h w = ground arith
    asleep s p e h w = ground arith

-- In every interleaving the number of attempts stays within `max_runs`; a limit of 0 or less allows
-- none.
pub run-Within :
    (cfg : LoopConfig) (ms : List Move) → Within cfg.max_runs (run cfg ms new_loop).attempts
run-Within cfg ms = (run-Inv cfg ms new_loop (new_loop-Inv cfg)).within
