-- ===== src/Schedule/Loop.antt =====
-- The `while` loop of `schedule` in src/scheduling_util/_schedule.py, with the threads that serve
-- control requests. Each access to the controller holds its lock, so the threads interleave between
-- such accesses: the loop is cut into one step for each, and a run is a list of moves of the
-- scheduler thread and of clients, in any order.
pub mod Invariant
pub mod Progress
pub mod Service
use scheduling_util_py.Prelude.{
  ℕ, suc, ◌+◌, Bool, true, false, ◌&&◌, ◌||◌, not, Option, none, some, List, [], ◌∷◌, if◌then◌else◌,
}
use scheduling_util_py.Prelude.Int.{ℤ, pos, leb_ℤ, ltb_ℤ}
use scheduling_util_py.Controller.{
  ScheduleController, ControllerRequest, Waiter, not_waiting, waiting, RunMode, normal, run_now,
  new_controller, handle_request, mark_running, mark_stopped, update_run_count, take_next_run_mode,
  has_pending_work, wait_for_work,
}

-- The arguments of `schedule` that the loop reads; the interval is in microseconds.
pub record LoopConfig : Type 0 where
  pub max_runs : Option ℤ
  pub interval : Option ℤ

-- Where the scheduler thread stands: before each access to the controller, before `attempt()`,
-- inside `Condition.wait`, in the `finally` block, and behind it.
pub data LoopPoint : Type 0 where
  enter take : LoopPoint
  mark : RunMode → LoopPoint
  attempt count recheck pending wait blocked leave done : LoopPoint

-- How `attempt()` ends: it returns, it raises `KeyboardInterrupt`, which the loop catches, or it
-- raises anything else, which leaves `schedule`. An exception comes before or after the run
-- predicate was asked.
pub data AttemptEnd : Type 0 where
  returned : AttemptEnd
  interrupted escaped : (asked : Bool) → AttemptEnd

-- Whether the loop was left, and how: by its test, by the `break` on `KeyboardInterrupt`, or by an
-- exception that `schedule` passes on. `unmarked` is a `KeyboardInterrupt` in the `finally` block, which
-- keeps `mark_stopped` from being called and is passed on too.
pub data LoopExit : Type 0 where
  looping finished broken raised unmarked : LoopExit

-- `forced` is the forced value that the run predicate holds; `forced_runs` counts the attempts that
-- were made with one.
pub record LoopState : Type 0 where
  pub controller : ScheduleController
  pub point : LoopPoint
  pub n_runs : ℕ
  pub attempts : ℕ
  pub forced : Option Bool
  pub forced_runs : ℕ
  pub exit : LoopExit

-- A client's request is served, the scheduler thread takes a step, or it is interrupted by
-- `KeyboardInterrupt` outside `attempt()`.
pub data Move : Type 0 where
  client : ControllerRequest → Move
  scheduler : AttemptEnd → (timed_out : Bool) → Move
  interrupt : Move

unfoldable pub new_loop : LoopState
unfolding new_controller
new_loop = record {
  controller = new_controller;
  point = enter;
  n_runs = 0;
  attempts = 0;
  forced = none;
  forced_runs = 0;
  exit = looping;
}

abbrev pub runs_exhausted : Option ℤ → ℕ → Bool
runs_exhausted none n_runs = false
runs_exhausted (some max_runs) n_runs = leb_ℤ max_runs (pos n_runs)

-- `should_stop_loop()`
abbrev pub should_stop_loop : LoopConfig → LoopState → Bool
should_stop_loop cfg s = s.controller.quit_requested || runs_exhausted cfg.max_runs s.n_runs

-- `interval is not None and interval.total_seconds() > 0`
abbrev pub has_interval : Option ℤ → Bool
has_interval none = false
has_interval (some interval) = ltb_ℤ (pos 0) interval

abbrev after_wait : Waiter → LoopPoint
after_wait waiting = blocked
after_wait _ = enter

-- `Condition.wait` returns when it was notified or when its timeout elapsed.
abbrev wakes : Waiter → Bool → Bool
wakes waiting timed_out = timed_out
wakes _ timed_out = true

abbrev forced_by : RunMode → Option Bool → Option Bool
forced_by normal forced = forced
forced_by run_now forced = some true

abbrev count_forced : Option Bool → ℕ → ℕ
count_forced none n = n
count_forced (some _) n = suc n

-- Was the run predicate asked? A normal return comes after that.
abbrev asked_predicate : AttemptEnd → Bool
asked_predicate returned = true
asked_predicate (interrupted asked) = asked
asked_predicate (escaped asked) = asked

abbrev after_attempt : AttemptEnd → LoopState → LoopState
after_attempt returned s = record s { point = count }
after_attempt (interrupted _) s = record s { point = leave; exit = broken }
after_attempt (escaped _) s = record s { point = leave; exit = raised }

-- The predicate uses up its forced value.
abbrev ask_predicate : Bool → LoopState → LoopState
ask_predicate true s = record s { forced = none; forced_runs = count_forced s.forced s.forced_runs }
ask_predicate false s = s

-- `if should_stop_loop(): break`, or the `while` test
abbrev stop_or : LoopConfig → LoopPoint → LoopState → LoopState
stop_or cfg next s =
    if should_stop_loop cfg s
    then record s { point = leave; exit = finished }
    else record s { point = next }

step_at : LoopConfig → AttemptEnd → Bool → LoopPoint → LoopState → LoopState
unfolding mark_running mark_stopped update_run_count take_next_run_mode has_pending_work
    wait_for_work
step_at cfg end timed_out enter s = stop_or cfg take s
step_at cfg end timed_out take s =
    let (c, mode) = take_next_run_mode s.controller in
    record s { controller = c; point = mark mode }
step_at cfg end timed_out (mark mode) s = record s {
  controller = mark_running s.controller;
  forced = forced_by mode s.forced;
  point = attempt;
}
step_at cfg end timed_out attempt s =
    let tried = record s { attempts = s.attempts + 1 } in
    after_attempt end (ask_predicate (asked_predicate end) tried)
step_at cfg end timed_out count s = record s {
  n_runs = s.n_runs + 1;
  controller = update_run_count (s.n_runs + 1) s.controller;
  point = recheck;
}
step_at cfg end timed_out recheck s = stop_or cfg pending s
step_at cfg end timed_out pending s = record s {
  point = if has_interval cfg.interval && not (has_pending_work s.controller) then wait else enter;
}
step_at cfg end timed_out wait s =
    let c = wait_for_work s.controller in record s { controller = c; point = after_wait c.waiter }
step_at cfg end timed_out blocked s =
    if wakes s.controller.waiter timed_out
    then record s { controller = record (s.controller) { waiter = not_waiting }; point = enter }
    else s
step_at cfg end timed_out leave s = record s {
  controller = mark_stopped s.controller;
  point = done;
}
step_at cfg end timed_out done s = s

-- Behind the `finally` block, a `KeyboardInterrupt` is passed on however the loop was left.
abbrev passed_on : LoopExit → LoopExit
passed_on unmarked = unmarked
passed_on _ = raised

-- `KeyboardInterrupt` between two steps. The inner `try` block holds `mark`, `attempt` and `count`;
-- from anywhere else in the loop it leaves `schedule`, by way of the `finally` block. In that block it
-- comes before `mark_stopped`; at `done` the call of `schedule` has not ended yet.
interrupt_at : LoopPoint → LoopState → LoopState
interrupt_at leave s = record s { point = done; exit = unmarked }
interrupt_at done s = record s { exit = passed_on s.exit }
interrupt_at (mark _) s = record s { point = leave; exit = broken }
interrupt_at attempt s = record s { point = leave; exit = broken }
interrupt_at count s = record s { point = leave; exit = broken }
interrupt_at _ s = record s {
  controller = record (s.controller) { waiter = not_waiting };
  point = leave;
  exit = raised;
}

unfoldable pub step : LoopConfig → Move → LoopState → LoopState
unfolding step_at interrupt_at handle_request
step cfg (client r) s = record s { controller = (handle_request r s.controller).0 }
step cfg (scheduler end timed_out) s = step_at cfg end timed_out s.point s
step cfg interrupt s = interrupt_at s.point s

unfoldable pub run : LoopConfig → List Move → LoopState → LoopState
run cfg [] s = s
run cfg (m ∷ ms) s = run cfg ms (step cfg m s)
