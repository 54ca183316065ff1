-- ===== src/Schedule/Loop/Service.antt =====
-- The loop of `schedule` in src/scheduling_util/_schedule.py: wakes and forced runs.
use scheduling_util_py.Prelude.{
  ℕ, ◌+◌, ◌≤◌, ◌<◌, ◌≡◌, refl, ◌≢◌, ◌⊎◌, inl, inr, true, some, List, [], ◌∷◌, arith,
}
use scheduling_util_py.Controller.{
  status_request, wake_request, run_now_request, quit_request, run_now, normal, stopped, stopping,
  accepted, handle_request,
}
use scheduling_util_py.Schedule.Loop.{
  LoopConfig, LoopPoint, enter, take, mark, attempt, count, recheck, pending, wait, blocked, leave,
  done, looping, finished, unmarked, LoopState, Move, client, scheduler, interrupt, runs_exhausted,
  new_loop, step, run,
}
use scheduling_util_py.Schedule.Loop.Invariant.{Inv, new_loop-Inv, step-Inv, run-Inv}
use scheduling_util_py.Schedule.Loop.Progress.{ticks}

-- A forced run was accepted and not made yet: the request is pending, was just taken, or is held by
-- the run predicate.
abbrev pub Owed : LoopState → Type 0
Owed s =
    (s.controller.pending_run_now ≡ true)
    ⊎ (s.point ≡ mark run_now)
    ⊎ (s.point ≡ attempt) × (s.forced ≡ some true)

step-Owed :
    (cfg : LoopConfig) (m : Move) (p : LoopPoint) (s : LoopState)
    → s.point ≡ p
    → Inv cfg s
    → Owed s
    → Owed (step cfg m s)
      ⊎ (s.forced_runs < (step cfg m s).forced_runs)
      ⊎ ((step cfg m s).exit ≢ looping)
unfolding step
step-Owed cfg (client status_request) p s e h o = ground arith
step-Owed cfg (client wake_request) p s e h o = ground arith
step-Owed cfg (client run_now_request) p s e h o = ground arith
step-Owed cfg (client quit_request) p s e h o = ground arith
step-Owed cfg interrupt p s e h o = ground arith
step-Owed cfg (scheduler end timed_out) p s e h o = ground arith

-- Neither count falls, and a loop that was left stays left.
step_monotone :
    (cfg : LoopConfig) (m : Move) (p : LoopPoint) (s : LoopState)
    → s.point ≡ p
    → Inv cfg s
    → (s.forced_runs ≤ (step cfg m s).forced_runs)
      × (s.attempts ≤ (step cfg m s).attempts)
      × (s.exit ≢ looping → (step cfg m s).exit ≢ looping)
unfolding step
step_monotone cfg (client status_request) p s e h = ground arith
step_monotone cfg (client wake_request) p s e h = ground arith
step_monotone cfg (client run_now_request) p s e h = ground arith
step_monotone cfg (client quit_request) p s e h = ground arith
step_monotone cfg interrupt p s e h = ground arith
step_monotone cfg (scheduler end timed_out) p s e h = ground arith

run_monotone :
    (cfg : LoopConfig) (ms : List Move) (s : LoopState)
    → Inv cfg s
    → (s.forced_runs ≤ (run cfg ms s).forced_runs)
      × (s.attempts ≤ (run cfg ms s).attempts)
      × (s.exit ≢ looping → (run cfg ms s).exit ≢ looping)
unfolding run
run_monotone cfg [] s h = (omega arith, omega arith, λ x. x)
run_monotone cfg (m ∷ ms) s h =
    let (forced, tried, left) = step_monotone cfg m s.point s refl h in
    let (forced', tried', left') = run_monotone cfg ms (step cfg m s) (step-Inv cfg m s h) in
    (omega arith, omega arith, λ x. left' (left x))

run-Owed :
    (cfg : LoopConfig) (ms : List Move) (s : LoopState)
    → Inv cfg s
    → Owed s
    → Owed (run cfg ms s)
      ⊎ (s.forced_runs < (run cfg ms s).forced_runs)
      ⊎ ((run cfg ms s).exit ≢ looping)
unfolding run
run-Owed cfg [] s h o = inl o
run-Owed cfg (m ∷ ms) s h o =
    let h' = step-Inv cfg m s h in
    let (forced, _, left) = run_monotone cfg ms (step cfg m s) h' in
    elim (step-Owed cfg m s.point s refl h o) [
      | inl still ↦ elim (run-Owed cfg ms (step cfg m s) h' still) [
        | inl owed ↦ inl owed
        | inr (inl more) ↦ inr (inl (omega (arith, step_monotone cfg m s.point s refl h)))
        | inr (inr gone) ↦ inr (inr gone)
      ]
      | inr (inl more) ↦ inr (inl (omega arith))
      | inr (inr gone) ↦ inr (inr (left gone))
    ]

-- A forced run that was accepted is not lost while the loop goes on: it stays pending, taken or held
-- by the run predicate until an attempt was made with it.
pub run_forced_kept :
    (cfg : LoopConfig) (before after : List Move)
    → let s = run cfg before new_loop in
      let s' = run cfg after s in
      s.controller.pending_run_now ≡ true
      → s'.exit ≡ looping
      → Owed s' ⊎ (s.forced_runs < s'.forced_runs)
run_forced_kept cfg before after asked going =
    let s = run cfg before new_loop in
    elim (run-Owed cfg after s (run-Inv cfg before new_loop (new_loop-Inv cfg)) (inl asked)) [
      | inl owed ↦ inl owed
      | inr (inl more) ↦ inr more
      | inr (inr gone) ↦ absurd (gone going)
    ]

-- An attempt is due: a wake or a forced run is pending, or the scheduler is about to attempt.
abbrev Due : LoopState → Type 0
Due s =
    (s.controller.pending_wake ≡ true)
    ⊎ (s.controller.pending_run_now ≡ true)
    ⊎ (s.point ≡ take)
    ⊎ (s.point ≡ attempt)
    ⊎ (s.point ≡ mark run_now)
    ⊎ (s.point ≡ mark normal)

abbrev due_rank : LoopPoint → ℕ
due_rank attempt = 1
due_rank (mark _) = 2
due_rank take = 3
due_rank enter = 4
due_rank blocked = 5
due_rank wait = 5
due_rank pending = 6
due_rank recheck = 7
due_rank count = 8
due_rank leave = 0
due_rank done = 0

step-Due :
    (cfg : LoopConfig) (m : Move) (p : LoopPoint) (s : LoopState)
    → s.point ≡ p
    → Inv cfg s
    → Due s
    → Due (step cfg m s) × (due_rank (step cfg m s).point + ticks (m ∷ []) ≤ due_rank s.point)
      ⊎ (s.attempts < (step cfg m s).attempts)
      ⊎ ((step cfg m s).exit ≢ looping)
unfolding step
step-Due cfg (client status_request) p s e h o = ground arith
step-Due cfg (client wake_request) p s e h o = ground arith
step-Due cfg (client run_now_request) p s e h o = ground arith
step-Due cfg (client quit_request) p s e h o = ground arith
step-Due cfg interrupt p s e h o = ground arith
step-Due cfg (scheduler end timed_out) p s e h o = ground arith

due_rank_zero :
    (cfg : LoopConfig) (p : LoopPoint) (s : LoopState)
    → s.point ≡ p
    → Inv cfg s
    → due_rank s.point ≤ 0
    → s.exit ≢ looping
due_rank_zero cfg leave s e h r = ground arith
due_rank_zero cfg p s e h r = ground arith

run-Due :
    (cfg : LoopConfig) (ms : List Move) (s : LoopState)
    → Inv cfg s
    → Due s
    → due_rank s.point ≤ ticks ms
    → (s.attempts < (run cfg ms s).attempts) ⊎ ((run cfg ms s).exit ≢ looping)
unfolding run
run-Due cfg [] s h due r = inr (due_rank_zero cfg s.point s refl h r)
run-Due cfg (m ∷ ms) s h due r =
    let h' = step-Inv cfg m s h in
    let (_, tried, left) = run_monotone cfg ms (step cfg m s) h' in
    elim (step-Due cfg m s.point s refl h due) [
      | inl (due', rank) ↦ elim (run-Due cfg ms (step cfg m s) h' due' (rank_left m rank r)) [
        | inl more ↦ inl (omega (arith, step_monotone cfg m s.point s refl h))
        | inr gone ↦ inr gone
      ]
      | inr (inl more) ↦ inl (omega arith)
      | inr (inr gone) ↦ inr (left gone)
    ]
  where
    rank_left :
        (m : Move)
        → due_rank (step cfg m s).point + ticks (m ∷ []) ≤ due_rank s.point
        → due_rank s.point ≤ ticks (m ∷ ms)
        → due_rank (step cfg m s).point ≤ ticks ms
    rank_left (client q) k r = omega arith
    rank_left interrupt k r = omega arith
    rank_left (scheduler end timed_out) k r = omega arith

-- A pending wake or forced run is served: after eight steps of the scheduler thread, whatever the
-- clients do in between, another attempt was made or the loop was left.
pub run_due_served :
    (cfg : LoopConfig) (before after : List Move)
    → let s = run cfg before new_loop in
      (s.controller.pending_wake ≡ true) ⊎ (s.controller.pending_run_now ≡ true)
      → 8 ≤ ticks after
      → (s.attempts < (run cfg after s).attempts) ⊎ ((run cfg after s).exit ≢ looping)
run_due_served cfg before after asked k =
    let s = run cfg before new_loop in
    run-Due cfg after s (run-Inv cfg before new_loop (new_loop-Inv cfg)) (due asked)
      (omega (arith, due_rank_bound s.point))
  where
    due_rank_bound : (p : LoopPoint) → due_rank p ≤ 8
    due_rank_bound attempt = omega arith
    due_rank_bound p = ground arith

    due :
        (run cfg before new_loop).controller.pending_wake ≡ true
          ⊎ ((run cfg before new_loop).controller.pending_run_now ≡ true)
        → Due (run cfg before new_loop)
    due (inl w) = inl w
    due (inr f) = inr (inl f)

-- The state of a scheduler that is behind the `finally` block.
pub record Ended (cfg : LoopConfig) (s : LoopState) : Type 0 where
  pub by_test :
      s.exit ≡ finished
      → (s.controller.quit_requested ≡ true) ⊎ (runs_exhausted cfg.max_runs s.n_runs ≡ true)
  pub counted : s.controller.run_count ≡ s.n_runs
  pub completed : s.n_runs ≤ s.attempts
  pub last_attempt : s.attempts ≤ s.n_runs + 1
  pub reported :
      (s.exit ≡ unmarked)
      ⊎ (s.controller.state ≡ stopped)
      ⊎ (s.controller.state ≡ stopping) × (s.controller.quit_requested ≡ true)

done-Ended : (cfg : LoopConfig) (s : LoopState) → s.point ≡ done → Inv cfg s → Ended cfg s
done-Ended cfg s e h = ground arith

-- When the loop was left by its own test, a quit was requested or the completed runs reached
-- `max_runs`; the run count that the controller reports is the number of completed runs, and at most
-- one attempt more was made. Behind the `finally` block the state is `stopped`, unless a quit was
-- requested and it is `stopping`, or a `KeyboardInterrupt` in that block kept `mark_stopped` from being
-- called.
pub run_done-Ended :
    (cfg : LoopConfig) (ms : List Move)
    → (run cfg ms new_loop).point ≡ done
    → Ended cfg (run cfg ms new_loop)
run_done-Ended cfg ms e =
    done-Ended cfg (run cfg ms new_loop) e (run-Inv cfg ms new_loop (new_loop-Inv cfg))

-- A quit that arrives once `mark_stopped` was called, while requests are still served, is accepted
-- and leaves the reported state at `stopping`.
pub run_late_quit :
    (cfg : LoopConfig) (ms : List Move)
    → let s = run cfg ms new_loop in
      s.point ≡ done
      → s.exit ≢ unmarked
      → ((handle_request quit_request s.controller).1.status ≡ accepted)
        × ((handle_request quit_request s.controller).0.state ≡ stopping)
unfolding handle_request
run_late_quit cfg ms e marked = let ended = (run_done-Ended cfg ms e).reported in ground arith
