-- ===== src/Tests/Attempts.antt =====
-- Runs of whole attempts, and of the Slack boundary.
use scheduling_util_py.Prelude.{
  ◌≡◌, refl, Bool, true, false, [], ◌∷◌, String, Option, some, none, Exception, error, Result,
  return, raise, Action,
}
use scheduling_util_py.Prelude.Int.{ℤ, pos, ◌-ℤ◌}
use scheduling_util_py.Outcome.{success}
use scheduling_util_py.World.{World}
use scheduling_util_py.RateLimiter.{RateLimiter, ping_if_ready, refresh_timestamp, touch_timestamp}
use scheduling_util_py.RunPredicate.{stall, should_run}
use scheduling_util_py.SlackErrors.{SlackBoundary, SlackState, SlackClient, send_errors_to_slack}
use scheduling_util_py.Schedule.Attempt.{Returned, wrapped_function}
use scheduling_util_py.Tests.Samples.{utc, finished_at, world_with, quiet_client, policy}

abbrev local : ℤ → ℤ
local t = t

-- Slack refuses every post.
abbrev offline : SlackClient
offline posts = some (error "ConnectionError" "offline")

abbrev hourly : RateLimiter
hourly = record { minimum_period = pos 3600; path = some "slack"; timestamp = pos 0 }

abbrev quiet_slack : SlackState
quiet_slack = record { limiter = hourly; files = λ p. none; posts = []; log = [] }

abbrev mistake : Exception
mistake = error "ValueError" "mistake"

abbrev raising_block : Action (Bool × SlackState) (Unit {0})
raising_block s = (raise mistake, s)

abbrev swallowing : SlackBoundary
swallowing = record { slack_webhook = some "hook"; reraise = false; log_error = true }

abbrev blocked_end : Result (Unit {0}) × (Bool × SlackState)
blocked_end =
    send_errors_to_slack offline local swallowing (pos 9000) (pos 9001) raising_block
      (true, quiet_slack)

posts_once : (blocked_end.0 ≡ return tt) × (blocked_end.1.1.posts ≡ ("hook", mistake) ∷ [])
unfolding send_errors_to_slack ping_if_ready refresh_timestamp touch_timestamp ◌-ℤ◌
posts_once = (refl, refl)

abbrev unexpected : String → String
unexpected s = s

abbrev describe : Exception → String
describe e = "raised"

abbrev raising_job : Action (World utc) Returned
raising_job w = (raise mistake, w)

abbrev one_success : World utc
one_success = world_with (finished_at (pos 1) success ∷ [])

abbrev asked : World utc
asked = (should_run utc quiet_client (policy stall) (pos 100) one_success).1

abbrev job : Action (World utc) (Option Returned)
job =
    wrapped_function utc quiet_client unexpected describe (policy stall) (pos 100) (pos 101)
      (pos 102) raising_job

abbrev heartbeat : Action (World utc × SlackState) (Unit {0})
heartbeat s = (return tt, s)
