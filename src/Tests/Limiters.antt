-- ===== src/Tests/Limiters.antt =====
-- Runs of the rate limiters.
use scheduling_util_py.Prelude.{false, ◌≡◌, refl, ◌+◌, Option, none, some, List, [], ◌∷◌, arith}
use scheduling_util_py.Prelude.Int.{ℤ, pos, negsuc, ◌-ℤ◌}
use scheduling_util_py.RateLimiter.{
  Sharing, Turn, opens, pings, RateLimiter, Mtimes, set_mtime, ping_if_ready_locked,
  refresh_timestamp, touch_timestamp,
}
use scheduling_util_py.RateLimiter.Spacing.{
  granted_pings as touch_granted, Spaced, granted_pings-Spaced,
}
use scheduling_util_py.RollingWindowRateLimiter.{
  TimestampCodec, StateDisk, json_list, RollingWindowRateLimiter, ping_if_ready, refresh_timestamps,
  is_ready_at, prune_timestamps, write_timestamps, read_state,
}
use scheduling_util_py.RollingWindowRateLimiter.Window.{
  granted_pings, Limited, granted_pings-Limited,
}

-- Local time is an hour ahead.
abbrev hour_ahead : ℤ → ℤ
hour_ahead (pos n) = pos (n + 3600)
hour_ahead (negsuc n) = pos 0

abbrev ten_apart : RateLimiter
ten_apart = record { minimum_period = pos 10; path = some "mail.touch"; timestamp = pos 0 }

abbrev mailed : Mtimes
mailed = set_mtime "mail.touch" (pos 100) (λ p. none)

-- Process 1 opens the file while process 0 is between its opening and its test.
abbrev turns : List Turn
turns =
    opens 0 ten_apart (pos 104)
    ∷ opens 1 ten_apart (pos 104)
    ∷ pings 0 ten_apart (pos 105) (pos 105)
    ∷ pings 1 ten_apart (pos 110) (pos 111)
    ∷ opens 0 ten_apart (pos 120)
    ∷ pings 0 ten_apart (pos 120) (pos 120)
    ∷ opens 1 ten_apart (pos 121)
    ∷ pings 1 ten_apart (pos 121) (pos 122)
    ∷ []

abbrev none_opened : Mtimes → Sharing
none_opened files = record { files = files; created = λ i. false }

only_apart :
    touch_granted hour_ahead turns (none_opened mailed)
    ≡ (pos 110, pos 111) ∷ (pos 121, pos 122) ∷ []
unfolding ping_if_ready_locked ◌-ℤ◌ refresh_timestamp touch_timestamp
only_apart = refl

granted_pings-Spaced_example :
    Spaced hour_ahead (pos 10) (pos 100) (touch_granted hour_ahead turns (none_opened mailed))
granted_pings-Spaced_example =
    granted_pings-Spaced hour_ahead "mail.touch" (pos 10) turns mailed (pos 100)
      (
        (refl, refl),
        (
          (refl, refl),
          (
            (refl, refl),
            ((refl, refl), ((refl, refl), ((refl, refl), ((refl, refl), ((refl, refl), tt))))),
          ),
        ),
      )
      refl

-- Without the file: process 0 creates it and sets its time back behind the action of process 1.
overtaken :
    touch_granted hour_ahead
      (opens 0 ten_apart (pos 100)
        ∷ opens 1 ten_apart (pos 111)
        ∷ pings 1 ten_apart (pos 111) (pos 111)
        ∷ pings 0 ten_apart (pos 112) (pos 112)
        ∷ [])
      (none_opened λ p. none)
    ≡ (pos 111, pos 111) ∷ (pos 112, pos 112) ∷ []
unfolding ping_if_ready_locked ◌-ℤ◌ refresh_timestamp touch_timestamp
overtaken = refl

-- JSON numbers, and items that are none.
abbrev numbers : TimestampCodec
numbers = record {
  Json = Option ℤ;
  read_item = λ j. j;
  write_item = λ t. some t;
  read-write = λ t. refl;
}

abbrev two_in_ten : RollingWindowRateLimiter
two_in_ten = record { max_events = 2; window = pos 10; path = some "mail.json"; timestamps = [] }

abbrev holding : List (Option ℤ) → StateDisk (Option ℤ)
holding js p = some (json_list js)

abbrev window_calls : List (RollingWindowRateLimiter × ℤ)
window_calls =
    (two_in_ten, pos 101)
    ∷ (two_in_ten, pos 102)
    ∷ (two_in_ten, pos 105)
    ∷ (two_in_ten, pos 111)
    ∷ []

two_per_window :
    granted_pings numbers window_calls (holding (some (pos 91) ∷ some (pos 100) ∷ []))
    ≡ pos 101 ∷ pos 111 ∷ []
unfolding ping_if_ready ◌-ℤ◌ refresh_timestamps is_ready_at prune_timestamps write_timestamps
two_per_window = refl

granted_pings-Limited_example :
    Limited numbers 2
      (pos 10)
      (pos 91 ∷ pos 100 ∷ [])
      (granted_pings numbers window_calls (holding (some (pos 91) ∷ some (pos 100) ∷ [])))
unfolding read_state
granted_pings-Limited_example =
    granted_pings-Limited numbers "mail.json" 2 (pos 10) (pos 100) window_calls
      (holding (some (pos 91) ∷ some (pos 100) ∷ [])) (pos 91 ∷ pos 100 ∷ [])
      (
        refl,
        refl,
        refl,
        omega arith,
        (
          refl,
          refl,
          refl,
          omega arith,
          (refl, refl, refl, omega arith, (refl, refl, refl, omega arith, tt)),
        ),
      )
      refl
