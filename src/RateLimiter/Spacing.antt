-- ===== src/RateLimiter/Spacing.antt =====
-- The actions that a `RateLimiter` of src/scheduling_util/_rate_limiter.py grants, one by one and
-- to several processes.
use text.Mathlib.TextPositions.{eq_refl}
use scheduling_util_py.Prelude.{
  ℕ, Bool, false, ◌≡◌, refl, ◌↔◌, true, Bool-cases, inl, inr, String, Option, none, some, List, [],
  ◌∷◌, arith, if◌then◌else◌,
}
use scheduling_util_py.Prelude.Int.{ℤ, ◌-ℤ◌, ◌≤ℤ◌}
use scheduling_util_py.Prelude.Families.{update}
use scheduling_util_py.RateLimiter.{
  Sharing, Turn, opens, pings, after_open, RateLimiter, Mtimes, mtime_or_epoch, open_at,
  reset_created, ping_if_ready_locked, refresh_at, refresh_timestamp, touch_timestamp,
  ping_if_ready, is_ready,
}

module _ (from_timestamp : ℤ → ℤ) where
  -- The local time of the last action: that of the file, or the object's own if it has no file.
  abbrev last_action : Option String → RateLimiter → Mtimes → ℤ
  last_action none l files = l.timestamp
  last_action (some path) l files = from_timestamp (mtime_or_epoch (files path))

  -- Enough time has passed since the last action.
  abbrev pub Ready : ℤ → RateLimiter → Mtimes → Type 0
  Ready now l files = l.minimum_period ≤ℤ from_timestamp now -ℤ last_action l.path l files

  abbrev opened_and_reset : Option String → ℤ → Mtimes → Mtimes
  opened_and_reset path now files =
      let (created, opened) = open_at path now files in reset_created path created opened

  -- Both a plain refresh and one behind the lock read the time of the last action.
  refresh_at-last_action :
      (path : Option String) (l : RateLimiter) (now : ℤ) (files : Mtimes)
      → (refresh_at from_timestamp path l (opened_and_reset path now files)
          ≡ record l { timestamp = last_action path l files })
        × (refresh_at from_timestamp path l files
            ≡ record l { timestamp = last_action path l files })
  unfolding refresh_at
  refresh_at-last_action none l now files = (refl, refl)
  refresh_at-last_action (some path) l now files = (ground (arith, eq_refl path), refl)

  refreshed-last_action :
      (l : RateLimiter) (now : ℤ) (files : Mtimes)
      → (refresh_timestamp from_timestamp l (opened_and_reset l.path now files)
          ≡ record l { timestamp = last_action l.path l files })
        × (refresh_timestamp from_timestamp l files
            ≡ record l { timestamp = last_action l.path l files })
  unfolding refresh_timestamp
  refreshed-last_action l now files = refresh_at-last_action l.path l now files

  -- `ping_if_ready` and `is_ready` answer true exactly if enough time has passed, for an object with
  -- and without a file, and whatever the object itself remembers if it has one.
  pub ping_if_ready-Ready :
      (now touched : ℤ) (l : RateLimiter) (files : Mtimes)
      → (((ping_if_ready from_timestamp now touched l files).0 ≡ true) ↔ Ready now l files)
        × (((is_ready from_timestamp now l files).0 ≡ true) ↔ Ready now l files)
  unfolding ping_if_ready is_ready
  ping_if_ready-Ready now touched l files = ground (arith, refreshed-last_action l now files)

  -- Behind the lock of a file that is there: `ping_if_ready` grants the action exactly if enough time has
  -- passed; it then sets the modification time, and otherwise leaves it.
  locked-file :
      (now touched : ℤ) (l : RateLimiter) (files : Mtimes) (path : String) (t : ℤ)
      → l.path ≡ some path
      → files path ≡ some t
      → let (granted, l', files') = ping_if_ready_locked from_timestamp false now touched l files in
        ((granted ≡ true) → l.minimum_period ≤ℤ from_timestamp now -ℤ from_timestamp t)
        × (files' path ≡ some (if granted then touched else t))
  unfolding ping_if_ready_locked touch_timestamp
  locked-file now touched l files path t p e = (
    ground (arith, refreshed-last_action l now files),
    ground (arith, eq_refl path, refreshed-last_action l now files),
  )

  -- The turns of any processes in any order. The result lists the readings of the granted calls.
  abbrev pub granted_pings : List Turn → Sharing → List (ℤ × ℤ)
  granted_pings [] s = []
  granted_pings (opens i l now ∷ turns) s = granted_pings turns (after_open i l now s)
  granted_pings (pings i l now touched ∷ turns) s =
      let (granted, _, files') =
        ping_if_ready_locked from_timestamp (s.created i) now touched l s.files in
      let rest =
        granted_pings turns (record { files = files'; created = update s.created i false }) in
      if granted then (now, touched) ∷ rest else rest

  abbrev UsesFile : String → ℤ → RateLimiter → Type 0
  UsesFile path period l = (l.path ≡ some path) × (l.minimum_period ≡ period)

  abbrev pub OnFile : String → ℤ → List Turn → Type 0
  OnFile path period [] = Unit
  OnFile path period (opens i l now ∷ turns) = UsesFile path period l × OnFile path period turns
  OnFile path period (pings i l now touched ∷ turns) =
      UsesFile path period l × OnFile path period turns

  -- Each granted call comes at least the period after the touch of the one before it.
  abbrev pub Spaced : ℤ → ℤ → List (ℤ × ℤ) → Type 0
  Spaced period last [] = Unit
  Spaced period last ((now, touched) ∷ rest) =
      (period ≤ℤ from_timestamp now -ℤ from_timestamp last) × Spaced period touched rest

  Spaced-step :
      (path : String) (period : ℤ) (l : RateLimiter) (now touched t : ℤ) (files : Mtimes)
      (rest : List (ℤ × ℤ))
      → UsesFile path period l
      → files path ≡ some t
      → let (granted, _, files') = ping_if_ready_locked from_timestamp false now touched l files in
        ((t' : ℤ) → files' path ≡ some t' → Spaced period t' rest)
        → Spaced period t (if granted then (now, touched) ∷ rest else rest)
  Spaced-step path period l now touched t files rest (p, m) e h =
      let (ready, set) = locked-file now touched l files path t p e in
      elim (Bool-cases (ping_if_ready_locked from_timestamp false now touched l files).0) [
        | inl granted ↦ rw granted (rw m at (ready granted), h touched (rw granted at set))
        | inr refused ↦ rw refused (h t (rw refused at set))
      ]

  opened-there :
      (path : String) (t : ℤ) (i : ℕ) (l : RateLimiter) (now : ℤ) (s : Sharing)
      → l.path ≡ some path
      → s.files path ≡ some t
      → after_open i l now s ≡ record s { created = update s.created i false }
  opened-there path t i l now s p e = rw (p, e) refl

  none_created :
      (i : ℕ) (f : ℕ → Bool) → ((j : ℕ) → f j ≡ false) → (j : ℕ) → update f i false j ≡ false
  none_created i f idle j = ground (arith, idle j)

  shared-Spaced :
      (path : String) (period : ℤ) (turns : List Turn) (t : ℤ) (s : Sharing)
      → OnFile path period turns
      → s.files path ≡ some t
      → ((j : ℕ) → s.created j ≡ false)
      → Spaced period t (granted_pings turns s)
  shared-Spaced path period [] t s on e idle = tt
  shared-Spaced path period (opens i l now ∷ turns) t s ((p, m), on) e idle =
      rw (opened-there path t i l now s p e) (
        shared-Spaced path period turns t (record s { created = update s.created i false }) on e
          (none_created i s.created idle))
  shared-Spaced path period (pings i l now touched ∷ turns) t s (own, on) e idle = rw (idle i) (
      Spaced-step path period l now touched t s.files _ own e
        λ t' e'. shared-Spaced path period turns t' _ on e' (none_created i s.created idle))

  -- Processes that share a file, which is there, and a minimum period, and call `ping_if_ready` with
  -- their steps in any order, are granted actions that lie at least that period apart, and the first
  -- lies that far behind the last action before them.
  pub granted_pings-Spaced :
      (path : String) (period : ℤ) (turns : List Turn) (files : Mtimes) (t : ℤ)
      → OnFile path period turns
      → files path ≡ some t
      → Spaced period t (granted_pings turns (record { files = files; created = λ i. false }))
  granted_pings-Spaced path period turns files t on e =
      shared-Spaced path period turns t (record { files = files; created = λ i. false }) on e
        λ j. refl
