-- ===== src/Tests/LoopRuns.antt =====
-- Runs of the loop of `schedule` and of its controller.
use scheduling_util_py.Prelude.{
  ◌≤◌, ◌≡◌, refl, ◌≢◌, ◌⊎◌, inr, ◌<◌, false, none, some, List, [], ◌∷◌, arith, ◌+◌,
}
use scheduling_util_py.Prelude.Int.{pos}
use scheduling_util_py.Controller.{
  ControllerRequest, status_request, run_now_request, quit_request, handle_request, stopping,
  accepted,
}
use scheduling_util_py.Schedule.Loop.{
  LoopConfig, LoopState, Move, client, scheduler, returned, done, looping, new_loop, run, step,
  blocked, unmarked, interrupt,
}
use scheduling_util_py.Schedule.Loop.Invariant.{Within}
use scheduling_util_py.Schedule.Loop.Progress.{
  last_attempts, run-quit_done, run_no_lost_wake, run-Within,
}
use scheduling_util_py.Schedule.Loop.Service.{
  Owed, Ended, run_forced_kept, run_due_served, run_done-Ended, run_late_quit,
}
use scheduling_util_py.Schedule.Repeat.{
  CallEnd, returned as comes_back, finished, repeat, func_call, sleep_call,
}
use scheduling_util_py.Schedule.Repeat.Completes.{repeat_completes}

abbrev thrice : LoopConfig
thrice = record { max_runs = some (pos 3); interval = some (pos 1000) }

abbrev tick : Move
tick = scheduler returned false

-- One attempt, up to the sleep.
abbrev to_sleep : List Move
to_sleep = tick ∷ tick ∷ tick ∷ tick ∷ tick ∷ tick ∷ tick ∷ tick ∷ []

abbrev six_ticks : List Move
six_ticks = tick ∷ tick ∷ tick ∷ tick ∷ tick ∷ tick ∷ []

abbrev then_request : ControllerRequest → List Move
then_request r = tick ∷ tick ∷ tick ∷ tick ∷ tick ∷ tick ∷ tick ∷ tick ∷ client r ∷ []

asleep :
    ((run thrice to_sleep new_loop).point ≡ blocked) × ((run thrice to_sleep new_loop).attempts ≡ 1)
unfolding run step new_loop
asleep = (refl, refl)

run-quit_done_example :
    let s = run thrice (then_request quit_request) new_loop in
    ((run thrice six_ticks s).point ≡ done)
    × ((run thrice six_ticks s).attempts ≤ s.attempts + last_attempts s.point)
unfolding run step new_loop
run-quit_done_example =
    run-quit_done thrice (then_request quit_request) six_ticks refl (omega arith)

run_no_lost_wake_example :
    let c = (run thrice to_sleep new_loop).controller in
    (c.pending_wake ≡ false) × (c.pending_run_now ≡ false) × (c.quit_requested ≡ false)
unfolding run step new_loop
run_no_lost_wake_example = run_no_lost_wake thrice to_sleep refl

run-Within_example : Within (some (pos 3)) (run thrice to_sleep new_loop).attempts
run-Within_example = run-Within thrice to_sleep

abbrev forced_wait : LoopState
forced_wait = run thrice (then_request run_now_request) new_loop

run_forced_kept_example :
    Owed (run thrice (tick ∷ tick ∷ tick ∷ []) forced_wait)
    ⊎ (forced_wait.forced_runs < (run thrice (tick ∷ tick ∷ tick ∷ []) forced_wait).forced_runs)
unfolding run step new_loop
run_forced_kept_example =
    run_forced_kept thrice (then_request run_now_request) (tick ∷ tick ∷ tick ∷ []) refl refl

run_due_served_example :
    (forced_wait.attempts < (run thrice to_sleep forced_wait).attempts)
    ⊎ ((run thrice to_sleep forced_wait).exit ≢ looping)
unfolding run step new_loop
run_due_served_example =
    run_due_served thrice (then_request run_now_request) to_sleep (inr refl) (omega arith)

abbrev quit_run : List Move
quit_run = client quit_request ∷ tick ∷ tick ∷ client status_request ∷ []

run_done-Ended_example : Ended thrice (run thrice quit_run new_loop)
unfolding run step new_loop
run_done-Ended_example = run_done-Ended thrice quit_run refl

-- No run is allowed, so that the loop ends at once.
abbrev once_ended : LoopConfig
once_ended = record { max_runs = some (pos 0); interval = none }

abbrev stopped_run : List Move
stopped_run = tick ∷ tick ∷ []

run_late_quit_example :
    ((handle_request quit_request (run once_ended stopped_run new_loop).controller).1.status
      ≡ accepted)
    × ((handle_request quit_request (run once_ended stopped_run new_loop).controller).0.state
        ≡ stopping)
unfolding run step new_loop
run_late_quit_example = run_late_quit once_ended stopped_run refl (ground arith)

-- A `KeyboardInterrupt` in the `finally` block: `mark_stopped` is not called.
never_marked :
    ((run once_ended (tick ∷ interrupt ∷ []) new_loop).point ≡ done)
    × ((run once_ended (tick ∷ interrupt ∷ []) new_loop).exit ≡ unmarked)
unfolding run step new_loop
never_marked = (refl, refl)

abbrev thrice_asleep : List (CallEnd × CallEnd)
thrice_asleep =
    (comes_back, comes_back)
    ∷ (comes_back, comes_back)
    ∷ (comes_back, comes_back)
    ∷ (comes_back, comes_back)
    ∷ []

repeat_completes_example : repeat (some (pos 3)) (some (pos 1000)) thrice_asleep ≡ record {
  n_runs = 3;
  trace = func_call ∷ sleep_call ∷ func_call ∷ sleep_call ∷ func_call ∷ [];
  exit = finished;
}
repeat_completes_example =
    repeat_completes (pos 3) (some (pos 1000)) thrice_asleep
      ((refl, refl), ((refl, refl), ((refl, refl), ((refl, refl), tt)))) (omega arith)
