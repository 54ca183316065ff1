-- ===== src/Tests/Jobs.antt =====
-- Runs of the run predicate and of the wrapped function.
use scheduling_util_py.Prelude.{
  ◌≡◌, refl, ◌↔◌, ◌⊎◌, inl, Bool, true, false, Option, none, [], ◌∷◌, ◌++◌, arith, Result, return,
  raise, keyboard_interrupt, Action,
}
use scheduling_util_py.Prelude.Int.{pos, ◌-ℤ◌}
use scheduling_util_py.Outcome.{success, failure}
use scheduling_util_py.LastRunHistory.{
  LastRunAttemptFinished, refresh_from_file, last_success, last_finished,
  n_failures_since_last_success, find_last_entry, append,
}
use scheduling_util_py.LastRunHistory.Discard.{keep_last}
use scheduling_util_py.LastRunHistory.Append.{stored}
use scheduling_util_py.World.{World, stalled_message}
use scheduling_util_py.RunPredicate.{
  stall, ignore, success_schedule, predicate, should_run, elapsed, report_error,
}
use scheduling_util_py.RunPredicate.Decision.{MayRun, predicate-MayRun, reported}
use scheduling_util_py.RunPredicate.Stall.{predicate_stalls}
use scheduling_util_py.LastRun.{
  AssessResult, default_assess_result, finished_entry, started_entry, wrapper,
}
use scheduling_util_py.LastRun.Records.{Concludes, wrapper_records}
use scheduling_util_py.LastRun.Waits.{wrapper_waits}
use scheduling_util_py.Tests.Samples.{utc, finished_at, world_with, quiet_client, policy}

-- One success and two failures, the limit of the sample policy.
abbrev stuck : World utc
stuck =
    world_with
      (finished_at (pos 1) success ∷ finished_at (pos 5) failure ∷ finished_at (pos 9) failure ∷ [])

abbrev last_failed : LastRunAttemptFinished
last_failed = record { at = pos 9; outcome = failure; details = "" }

abbrev first_succeeded : LastRunAttemptFinished
first_succeeded = record { at = pos 1; outcome = success; details = "" }

program : Unit {0}
unfolding predicate elapsed report_error last_finished last_success n_failures_since_last_success
    find_last_entry refresh_from_file ◌-ℤ◌ append
program = tt

stall_refuses : (predicate utc quiet_client (policy stall) (pos 1000) stuck).0 ≡ return false
unfolding program
stall_refuses = refl

ignore_allows : (predicate utc quiet_client (policy ignore) (pos 1000) stuck).0 ≡ return true
unfolding program
ignore_allows = refl

success_schedule_waits :
    ((predicate utc quiet_client (policy success_schedule) (pos 61) stuck).0 ≡ return false)
    × ((predicate utc quiet_client (policy success_schedule) (pos 62) stuck).0 ≡ return true)
unfolding program
success_schedule_waits = (refl, refl)

predicate-MayRun_example :
    let (r, w') = predicate utc quiet_client (policy stall) (pos 1000) stuck in
    ((r ≡ return true) ↔ MayRun utc (policy stall) (pos 1000) w'.history.entries)
    × ((r ≡ return true) ⊎ (r ≡ return false))
    × (w'.history ≡ refresh_from_file utc stuck.history stuck.disk)
    × (w'.disk ≡ stuck.disk)
    × (w'.forced ≡ none)
predicate-MayRun_example =
    predicate-MayRun utc quiet_client (policy stall) (pos 1000) stuck (λ calls. refl)

abbrev stall_answer : Result Bool × World utc
stall_answer = predicate utc quiet_client (policy stall) (pos 1000) stuck

predicate_stalls_example :
    (stall_answer.0 ≡ return false)
    × (stall_answer.1.calls
        ≡ reported utc quiet_client (policy stall) (stalled_message (pos 2) last_failed) [])
unfolding program
predicate_stalls_example =
    predicate_stalls utc quiet_client (policy stall) (pos 1000) stuck last_failed (λ calls. refl)
      (refl, refl, ground arith) (inl refl)

-- A job that is interrupted, and one that returns.
abbrev interrupted_job : Action (World utc) Bool
interrupted_job w = (raise keyboard_interrupt, w)

abbrev steady_job : Action (World utc) Bool
steady_job w = (return true, w)

abbrev always : Action (World utc) Bool
always w = (return true, w)

abbrev assess : AssessResult Bool
assess = default_assess_result (λ e. "raised")

abbrev one_success : World utc
one_success = world_with (finished_at (pos 1) success ∷ [])

abbrev interrupted_answer : Result (Option Bool) × World utc
interrupted_answer = wrapper utc assess always interrupted_job (pos 100) (pos 105) one_success

wrapper_records_example :
    (keep_last 3 (stored utc interrupted_answer.1.disk "job.json")
      ≡ keep_last 3 (
          stored utc one_success.disk "job.json"
          ++ started_entry (pos 100)
            ∷ finished_entry utc assess (raise keyboard_interrupt) (pos 105)
            ∷ []))
    × Concludes utc assess always interrupted_job
        (pos 100)
        (pos 105)
        (raise keyboard_interrupt)
        interrupted_answer.0
wrapper_records_example =
    wrapper_records utc assess always interrupted_job (pos 100) (pos 105) one_success one_success
      "job.json" refl refl refl (λ w. (refl, refl))

abbrev steady_answer : Result (Option Bool) × World utc
steady_answer = wrapper utc assess always steady_job (pos 100) (pos 105) one_success

-- Another scheduler on the same file, 55 microseconds after the end of the attempt.
abbrev other_scheduler : World utc
other_scheduler = record one_success { disk = steady_answer.1.disk }

abbrev other_answer : Result (Option Bool) × World utc
other_answer =
    wrapper utc assess (should_run utc quiet_client (policy stall) (pos 160)) interrupted_job
      (pos 160) (pos 161) other_scheduler

wrapper_waits_example :
    (other_answer.0 ≡ return none) × (other_answer.1.disk ≡ other_scheduler.disk)
unfolding default_assess_result ◌-ℤ◌
wrapper_waits_example =
    wrapper_waits utc quiet_client assess steady_job (pos 100) (pos 105) always one_success
      one_success other_scheduler "job.json" refl refl refl (λ w. (refl, refl)) (λ calls. refl) refl
      refl refl (omega arith) refl (policy stall) (pos 160) (omega arith) (inl (ground arith))
      assess interrupted_job (pos 160) (pos 161)
