-- ===== src/RollingWindowRateLimiter/Window.antt =====
-- The events that a `RollingWindowRateLimiter` of src/scheduling_util/_rate_limiter.py grants, one
-- by one and to several processes.
use text.Mathlib.TextPositions.{eq_refl}
use scheduling_util_py.Prelude.{
  ℕ, ◌+◌, ◌<◌, ◌≡◌, refl, ◌∙◌, ap, Bool, false, Bool-cases, inl, inr, String, Option, none, some,
  List, [], ◌∷◌, ◌++◌, map, length, arith, if◌then◌else◌, ltb, Result, return, raise, ltb→lt,
}
use scheduling_util_py.Prelude.Int.{ℤ, ◌-ℤ◌, ◌≤ℤ◌, ltb_ℤ, int_laws}
use scheduling_util_py.RollingWindowRateLimiter.{
  TimestampCodec, StateDisk, RollingWindowRateLimiter, value_error, prune, prune_timestamps,
  is_ready_at, read_items, read_state, refresh_at, refresh_timestamps, write_timestamps, ping,
  ping_if_ready, is_ready,
}

-- The number of times behind `t`.
abbrev pub count_after : ℤ → List ℤ → ℕ
count_after t [] = 0
count_after t (x ∷ xs) = let rest = count_after t xs in if ltb_ℤ t x then rest + 1 else rest

count_after-append :
    (t : ℤ) (xs ys : List ℤ) → count_after t (xs ++ ys) ≡ count_after t xs + count_after t ys
count_after-append t [] ys = omega arith
count_after-append t (x ∷ xs) ys = ground (arith, count_after-append t xs ys)

length-prune : (t : ℤ) (xs : List ℤ) → length (prune t xs) ≡ count_after t xs
unfolding prune
length-prune t [] = refl
length-prune t (x ∷ xs) = ground (arith, length-prune t xs)

count_after-prune :
    (t cutoff : ℤ) (xs : List ℤ) → cutoff ≤ℤ t → count_after t (prune cutoff xs) ≡ count_after t xs
unfolding prune
count_after-prune t cutoff [] h = refl
count_after-prune t cutoff (x ∷ xs) h = ground (arith, count_after-prune t cutoff xs h)

module _ (codec : TimestampCodec) where
  open codec use {Json, read_item, write_item, read-write}

  read_items-map : (ts : List ℤ) → read_items codec (map write_item ts) ≡ some ts
  unfolding read_items
  read_items-map [] = refl
  read_items-map (t ∷ ts) = rw (read-write t, read_items-map ts)

  -- The events in the state file, or those of the object if it has no file; `none` is a bad file.
  abbrev pub events : Option String → RollingWindowRateLimiter → StateDisk Json → Result (List ℤ)
  events none l disk = return l.timestamps
  events (some path) l disk = read_state codec (disk path)

  refresh_at-events :
      (path : Option String) (l : RollingWindowRateLimiter) (disk : StateDisk Json) (ts : List ℤ)
      → events path l disk ≡ return ts
      → refresh_at codec path l disk ≡ return (record l { timestamps = ts })
  unfolding refresh_at
  refresh_at-events none l disk ts h = ground arith
  refresh_at-events (some path) l disk ts h = rw h

  refreshed :
      (l : RollingWindowRateLimiter) (disk : StateDisk Json) (ts : List ℤ)
      → events l.path l disk ≡ return ts
      → refresh_timestamps codec l disk ≡ return (record l { timestamps = ts })
  unfolding refresh_timestamps
  refreshed l disk ts h = refresh_at-events l.path l disk ts h

  -- With a readable state, `ping_if_ready` grants exactly if fewer than `max_events` events lie in
  -- the window before now, and otherwise refuses; `is_ready` answers the same.
  ping_if_ready-count :
      (now : ℤ) (l : RollingWindowRateLimiter) (disk : StateDisk Json) (ts : List ℤ)
      → events l.path l disk ≡ return ts
      → let free = ltb (count_after (now -ℤ l.window) ts) l.max_events in
        ((ping_if_ready codec now l disk).0 ≡ return free)
        × ((is_ready codec now l disk).0 ≡ return free)
  unfolding ping_if_ready is_ready is_ready_at prune_timestamps
  ping_if_ready-count now l disk ts h =
      ground (arith, refreshed l disk ts h, length-prune (now -ℤ l.window) ts)

  -- A state file that cannot be read makes every operation raise `ValueError`, and stays as it is.
  ping-corrupt :
      (now : ℤ) (l : RollingWindowRateLimiter) (disk : StateDisk Json) (path : String)
      → l.path ≡ some path
      → read_state codec (disk path) ≡ raise value_error
      → (ping codec now l disk ≡ (raise value_error, l, disk))
        × (ping_if_ready codec now l disk ≡ (raise value_error, l, disk))
        × (is_ready codec now l disk ≡ (raise value_error, l))
  unfolding ping ping_if_ready is_ready refresh_timestamps
  ping-corrupt now l disk path p bad = ground arith

  written :
      (l : RollingWindowRateLimiter) (disk : StateDisk Json) (path : String)
      → l.path ≡ some path
      → read_state codec (write_timestamps codec l disk path) ≡ return l.timestamps
  unfolding write_timestamps read_state
  written l disk path p = rw (p, eq_refl, read_items-map l.timestamps)

  -- What a call of `ping_if_ready` on a readable file leaves in it.
  ping_if_ready-events :
      (now : ℤ) (l : RollingWindowRateLimiter) (disk : StateDisk Json) (path : String) (ts : List ℤ)
      → l.path ≡ some path
      → read_state codec (disk path) ≡ return ts
      → let cutoff = now -ℤ l.window in
        let free = ltb (count_after cutoff ts) l.max_events in
        read_state codec ((ping_if_ready codec now l disk).2 path)
        ≡ return (if free then prune cutoff ts ++ now ∷ [] else ts)
  unfolding ping_if_ready is_ready_at prune_timestamps
  ping_if_ready-events now l disk path ts p h =
      let cutoff = now -ℤ l.window in
      let kept : RollingWindowRateLimiter = record l { timestamps = prune cutoff ts ++ now ∷ [] } in
      ground (
        arith,
        refreshed l disk ts (ap (λ q. events q l disk) p ∙ h),
        length-prune cutoff ts,
        written kept disk path p,
      )

  ping_if_ready-effect :
      (now : ℤ) (l : RollingWindowRateLimiter) (disk : StateDisk Json) (path : String) (ts : List ℤ)
      (n : ℕ) (window : ℤ)
      → l.path ≡ some path
      → l.max_events ≡ n
      → l.window ≡ window
      → read_state codec (disk path) ≡ return ts
      → let cutoff = now -ℤ window in
        let free = ltb (count_after cutoff ts) n in
        ((ping_if_ready codec now l disk).0 ≡ return free)
        × (read_state codec ((ping_if_ready codec now l disk).2 path)
            ≡ return (if free then prune cutoff ts ++ now ∷ [] else ts))
  ping_if_ready-effect now l disk path ts n window p m w h =
      rw (← m, ← w)
        (
          (ping_if_ready-count now l disk ts (ap (λ q. events q l disk) p ∙ h)).0,
          ping_if_ready-events now l disk path ts p h,
        )

  -- Calls of `ping_if_ready` by objects in any processes, in the order in which they take the lock,
  -- each with its clock reading. The result lists the readings of the granted calls.
  abbrev was_granted : Result Bool → Bool
  was_granted (return granted) = granted
  was_granted (raise _) = false

  abbrev pub granted_pings : List (RollingWindowRateLimiter × ℤ) → StateDisk Json → List ℤ
  granted_pings [] disk = []
  granted_pings ((l, now) ∷ calls) disk =
      let (r, _, disk') = ping_if_ready codec now l disk in
      let rest = granted_pings calls disk' in if was_granted r then now ∷ rest else rest

  -- The calls go to one file with one configuration, and the clock never goes back.
  abbrev pub OnFile : String → ℕ → ℤ → ℤ → List (RollingWindowRateLimiter × ℤ) → Type 0
  OnFile path n window last [] = Unit
  OnFile path n window last ((l, now) ∷ calls) =
      (l.path ≡ some path)
      × (l.max_events ≡ n)
      × (l.window ≡ window)
      × (last ≤ℤ now)
      × OnFile path n window now calls

  -- Each granted event has fewer than `n` events before it in its window.
  abbrev pub Limited : ℕ → ℤ → List ℤ → List ℤ → Type 0
  Limited n window past [] = Unit
  Limited n window past (now ∷ rest) =
      (count_after (now -ℤ window) past < n) × Limited n window (past ++ now ∷ []) rest

  -- The file agrees with all past events on what lies in any window from now on.
  Agrees : ℤ → List ℤ → List ℤ → Type 0
  Agrees cutoff past ts = (t : ℤ) → cutoff ≤ℤ t → count_after t past ≡ count_after t ts

  Agrees-push :
      (cutoff now : ℤ) (past ts : List ℤ)
      → Agrees cutoff past ts
      → Agrees cutoff (past ++ now ∷ []) (prune cutoff ts ++ now ∷ [])
  unfolding Agrees
  Agrees-push cutoff now past ts h t le = omega (
    arith,
    count_after-append t past (now ∷ []),
    count_after-append t (prune cutoff ts) (now ∷ []),
    count_after-prune t cutoff ts le,
    h t le,
  )

  granted-Limited :
      (path : String) (n : ℕ) (window last : ℤ) (calls : List (RollingWindowRateLimiter × ℤ))
      (disk : StateDisk Json) (past ts : List ℤ)
      → OnFile path n window last calls
      → read_state codec (disk path) ≡ return ts
      → Agrees (last -ℤ window) past ts
      → Limited n window past (granted_pings calls disk)
  unfolding Agrees
  granted-Limited path n window last [] disk past ts on h agrees = tt
  granted-Limited path n window last ((l, now) ∷ calls) disk past ts (p, m, w, later, on) h agrees =
      let cutoff = now -ℤ window in
      let free = ltb (count_after cutoff ts) n in
      let (answered, left) = ping_if_ready-effect now l disk path ts n window p m w h in
      let disk' = (ping_if_ready codec now l disk).2 in
      let sooner : (t : ℤ) → cutoff ≤ℤ t → last -ℤ window ≤ℤ t = λ t le. omega int_laws in
      let agrees' : Agrees cutoff past ts = λ t le. agrees t (sooner t le) in
      elim (Bool-cases free) [
        | inl granted ↦
            rw (answered, granted)
              (
                omega
                    (arith, agrees' cutoff (omega arith), ltb→lt (count_after cutoff ts) n granted),
                granted-Limited path n window now calls disk' (past ++ now ∷ [])
                    (prune cutoff ts ++ now ∷ []) on (rw granted at left)
                    (Agrees-push cutoff now past ts agrees'),
              )
        | inr refused ↦
            rw (answered, refused)
              (granted-Limited path n window now calls disk' past ts on (rw refused at left)
                agrees')
      ]

  -- Processes that share a readable state file and one configuration, calling `ping_if_ready` in any
  -- order while the clock never goes back, are granted events such that before each of them fewer than
  -- `max_events` events lie in its window, those of the file at the start included.
  pub granted_pings-Limited :
      (path : String) (n : ℕ) (window last : ℤ) (calls : List (RollingWindowRateLimiter × ℤ))
      (disk : StateDisk Json) (ts : List ℤ)
      → OnFile path n window last calls
      → read_state codec (disk path) ≡ return ts
      → Limited n window ts (granted_pings calls disk)
  unfolding Agrees
  granted_pings-Limited path n window last calls disk ts on h =
      granted-Limited path n window last calls disk ts ts on h (λ t le. refl)
