-- ===== src/Schedule/Repeat/Completes.antt =====
-- How often `repeat` of src/scheduling_util/_schedule.py calls its function, and how often it sleeps.
use scheduling_util_py.Prelude.{
  ℕ, zero, suc, true, false, Bool, ◌+◌, ◌≤◌, ◌<◌, ◌≡◌, ap, inl, inr, Bool-cases, Option, some, List,
  [], ◌∷◌, length, if◌then◌else◌, arith, ltb, ltb→lt, All,
}
use scheduling_util_py.Prelude.Int.{ℤ, pos, negsuc, pos_part, ltb_ℤ}
use scheduling_util_py.Schedule.Repeat.{
  CallEnd, returned, RepeatCall, func_call, sleep_call, RepeatExit, repeating, finished,
  RepeatState, may_sleep, round, repeat_from, repeat, start,
}

-- Every call of the function and of `sleep` returns.
abbrev pub AllReturn : List (CallEnd × CallEnd) → Type 0
AllReturn ends = All (λ e. (e.0 ≡ returned) × (e.1 ≡ returned)) ends

-- `n` calls of the function, each with a sleep behind it if `sleepy`.
abbrev pub paused : (sleepy : Bool) → ℕ → List RepeatCall
paused sleepy zero = []
paused true (suc n) = sleep_call ∷ func_call ∷ paused true n
paused false (suc n) = func_call ∷ paused false n

-- `n` calls of the function, with a sleep between each two if `sleepy`.
abbrev pub between : (sleepy : Bool) → ℕ → List RepeatCall
between sleepy zero = []
between sleepy (suc n) = func_call ∷ paused sleepy n

below_limit : (m : ℤ) (n : ℕ) → ltb_ℤ (pos n) m ≡ ltb n (pos_part m)
below_limit (pos k) n = ground arith
below_limit (negsuc k) n = ground arith

module _ (m : ℤ) (sleep_duration : Option ℤ) where
  abbrev sleepy : Bool
  sleepy = may_sleep (some m) sleep_duration

  abbrev behind : ℕ → RepeatExit → RepeatState
  behind n exit = record {
    n_runs = n;
    trace = if ltb n (pos_part m) then paused sleepy n else between sleepy n;
    exit = exit;
  }

  round_lem :
      (n : ℕ)
      → n < pos_part m
      → round (some m) sleep_duration (returned, returned) (behind n repeating)
        ≡ behind (n + 1) repeating
  unfolding round
  round_lem n h = let again = below_limit m (n + 1) in ground arith

  completes_from :
      (ends : List (CallEnd × CallEnd)) (n : ℕ)
      → AllReturn ends
      → n ≤ pos_part m
      → pos_part m < n + length ends
      → repeat_from (some m) sleep_duration ends (behind n repeating) ≡ behind (pos_part m) finished
  unfolding repeat_from
  completes_from [] n r le long = absurd (omega (arith, long, le))
  completes_from ((f, g) ∷ ends) n ((ef, eg), r) le long =
      let test = below_limit m n in
      elim (Bool-cases (ltb n (pos_part m))) [
        | inl more ↦
            rw (ef, eg, round_lem n (omega (arith, ltb→lt n (pos_part m) more)), test, more)
              (completes_from ends (n + 1) r (omega (arith, ltb→lt n (pos_part m) more))
                (omega (arith, long)))
        | inr last ↦
            let same : n ≡ pos_part m = ground arith in
            rw (test, last) (rw last at (ap (λ k. behind k finished) same))
      ]

  -- With a limit, and calls that all return: the function is called exactly as often as the limit says,
  -- never for a limit below 1, and `repeat` ends. With a positive duration it sleeps once between each
  -- two calls, and neither before the first nor behind the last; otherwise it never sleeps.
  pub repeat_completes :
      (ends : List (CallEnd × CallEnd))
      → AllReturn ends
      → pos_part m < length ends
      → repeat (some m) sleep_duration ends ≡ record {
        n_runs = pos_part m;
        trace = between (may_sleep (some m) sleep_duration) (pos_part m);
        exit = finished;
      }
  unfolding repeat
  repeat_completes ends r long =
      let first : behind 0 repeating ≡ start (some m) sleep_duration = ground arith in
      let last : (behind (pos_part m) finished).trace ≡ between sleepy (pos_part m) =
        ground arith in
      rw (← first, ← last) (completes_from ends 0 r (omega arith) (omega (arith, long)))
