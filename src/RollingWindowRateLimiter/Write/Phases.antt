-- ===== src/RollingWindowRateLimiter/Write/Phases.antt =====
-- The phases of a write of the state file of a `RollingWindowRateLimiter`
-- (src/scheduling_util/_rate_limiter.py).
use text.Mathlib.Text.{◌==◌ as str_eq}
use text.Mathlib.TextEquality.{eq_iff}
use text.Mathlib.TextPositions.{eq_refl}
use mathlib.Core.Path.{subst}
use scheduling_util_py.Prelude.{
  ℕ, ◌+◌, ◌<◌, String, ◌≡◌, refl, sym, ◌≢◌, ◌⊎◌, inl, Bool, true, false, Option, none, some, arith,
  All, Exception, inr, if◌then◌else◌,
}
use scheduling_util_py.RollingWindowRateLimiter.{StateText}
use scheduling_util_py.RollingWindowRateLimiter.Write.{
  Files, Writing, set_name, create_inode, set_content, sync_content, rename, sync_names,
  remove_name, change, read_path,
}
use scheduling_util_py.RollingWindowRateLimiter.Write.States.{
  set_name_here, set_name_other, Holds, Settled, Shown, Settled-Shown, Replaced-Shown, Holds-frame,
  Holds-read,
}

module _ {J : Type 0} (path temp : String) (old : Option (StateText J)) (text : StateText J)
    (begun : Files J) where
  abbrev pub Past : Writing J → Type 0
  Past w = All (Shown path old (some text)) w.past

  -- The other files are as they were.
  abbrev pub Same : Files J → Type 0
  Same d =
      ((q : String) → q ≢ path → q ≢ temp → d.names q ≡ begun.names q)
      × ((k : ℕ) → k < begun.next → d.content k ≡ begun.content k)

  abbrev pub Unreplaced : (next : ℕ) → Option ℕ → Writing J → Type 0
  Unreplaced next entry w =
      Settled begun.next path old w.files
      × Same w.files
      × Past w
      × (w.files.names temp ≡ entry)
      × (w.files.next ≡ next)

  abbrev pub Filling : Writing J → Type 0
  Filling = Unreplaced (begun.next + 1) (some begun.next)

  abbrev pub Flushed : Writing J → Type 0
  Flushed w = Filling w × (w.files.content begun.next ≡ text)

  abbrev pub Filled : Writing J → Type 0
  Filled w = Flushed w × (w.files.saved_content begun.next ≡ some text)

  -- The entry of the path is replaced; on the disk it stands for `saved`, in an inode below `n`.
  abbrev pub Replaced : ℕ → Option (StateText J) → Writing J → Type 0
  Replaced n saved w =
      Holds (begun.next + 1) w.files (w.files.names path) (some text)
      × Holds n w.files (w.files.saved_names path) saved
      × Same w.files
      × Past w
      × (w.files.names temp ≡ none)
      × (w.files.next ≡ begun.next + 1)

  abbrev pub Done : Bool → Writing J → Type 0
  Done true = Replaced (begun.next + 1) (some text)
  Done false = Replaced begun.next old

  -- What is left of the block that raises, and of the clean-up.
  abbrev pub Failed : Writing J → Type 0
  Failed w = Shown path old (some text) w.files × Past w

  abbrev pub Cleaned : Option Exception → Writing J → Type 0
  Cleaned unlink_end w = Failed w × (unlink_end ≡ none → w.files.names temp ≡ none)

  pub Unreplaced-Failed : (n : ℕ) (e : Option ℕ) (w : Writing J) → Unreplaced n e w → Failed w
  Unreplaced-Failed n e w (settled, same, past, entry, next) =
      (Settled-Shown begun.next path old (some text) w.files settled, past)

  pub Replaced-Failed :
      (n : ℕ) (saved : Option (StateText J)) (w : Writing J)
      → (saved ≡ old) ⊎ (saved ≡ some text)
      → Replaced n saved w
      → Failed w
  Replaced-Failed n saved w either (a, b, same, past, entry, next) =
      (Replaced-Shown (begun.next + 1) n path old (some text) saved w.files either a b, past)

  Replaced-read :
      (n : ℕ) (saved : Option (StateText J)) (w : Writing J)
      → Replaced n saved w
      → begun.names temp ≡ none
      → ((q : String) (k : ℕ) → begun.names q ≡ some k → k < begun.next)
      → (q : String)
      → read_path w.files q ≡ (if str_eq q path then some text else read_path begun q)
  Replaced-read n saved w (a, b, (same, content), past, absent, next) fresh bound q =
      let here = Holds-read (begun.next + 1) w.files (w.files.names path) (some text) a in
      let elsewhere : q ≢ path → read_path w.files q ≡ read_path begun q =
        λ ne. other q ne (begun.names q) refl in
      ground (arith, eq_iff q path, here, elsewhere)
    where
      other :
          (q : String)
          → q ≢ path
          → (e : Option ℕ) → begun.names q ≡ e
          → read_path w.files q ≡ read_path begun q
      other q ne none e = ground (arith, eq_iff q temp, same q ne)
      other q ne (some k) e =
          ground (arith, eq_iff q temp, same q ne, bound q k e, content k (bound q k e))

  pub Done-Failed : (p : Bool) (w : Writing J) → Done p w → Failed w
  Done-Failed true w = Replaced-Failed (begun.next + 1) (some text) w (inr refl)
  Done-Failed false w = Replaced-Failed begun.next old w (inl refl)

  pub Done-absent : (p : Bool) (w : Writing J) → Done p w → w.files.names temp ≡ none
  Done-absent true w h = h.4
  Done-absent false w h = h.4

  -- What a process reads after the replacement.
  pub Done-read :
      (p : Bool) (w : Writing J)
      → Done p w
      → begun.names temp ≡ none
      → ((q : String) (k : ℕ) → begun.names q ≡ some k → k < begun.next)
      → (q : String)
      → read_path w.files q ≡ (if str_eq q path then some text else read_path begun q)
  Done-read true w h fresh bound q = Replaced-read (begun.next + 1) (some text) w h fresh bound q
  Done-read false w h fresh bound q = Replaced-read begun.next old w h fresh bound q

  module _ (apart : path ≢ temp) where
    pub created-Filling :
        (w : Writing J) → Unreplaced begun.next none w → Filling (change (create_inode temp) w)
    created-Filling w ((a, b), (same, content), past, absent, next) =
        let keep = Holds-frame begun.next w.files (create_inode temp w.files) in
        let other = set_name_other temp path (some w.files.next) w.files.names apart in
        (
          (
            subst (λ e. Holds begun.next (create_inode temp w.files) e old) (sym other)
                (keep (w.files.names path) old (λ k lt. ground arith) a),
            keep (w.files.saved_names path) old (λ k lt. ground arith) b,
          ),
          (λ q n m. ground (arith, same q, eq_iff q temp), λ k lt. ground (arith, content k)),
          Unreplaced-Failed begun.next none w ((a, b), (same, content), past, absent, next),
          ground (arith, set_name_here temp (some w.files.next) w.files.names),
          ground arith,
        )

    pub rename-Replaced :
        (w : Writing J) → Filled w → Replaced begun.next old (change (rename temp path) w)
    rename-Replaced w ((((a, b), (same, content), past, here, next), c), s) =
        let renamed : some begun.next ≡ (rename temp path w.files).names path =
          ground (arith, eq_iff path temp, eq_refl path, here) in
        (
          subst (λ e. Holds (begun.next + 1) (rename temp path w.files) e (some text)) renamed
              (ground arith, s, ground arith),
          Holds-frame begun.next w.files (rename temp path w.files) (w.files.saved_names path) old
              (λ k lt. ground arith) b,
          (λ q n m. ground (arith, same q, eq_iff q temp, eq_iff q path), content),
          Unreplaced-Failed (begun.next + 1) (some begun.next) w
              ((a, b), (same, content), past, here, next),
          set_name_here temp none (set_name path (w.files.names temp) w.files.names),
          next,
        )

    pub remove-Cleaned : (w : Writing J) → Failed w → Failed (change (remove_name temp) w)
    remove-Cleaned w ((now, later), past) =
        let other = set_name_other temp path none w.files.names apart in
        ((ground arith, λ kept garbage. ground (arith, later kept garbage)), ((now, later), past))

  pub set-Filling :
      (t : StateText J) (w : Writing J) → Filling w → Filling (change (set_content begun.next t) w)
  set-Filling t w ((a, b), (same, content), past, here, next) =
      let keep = Holds-frame begun.next w.files (set_content begun.next t w.files) in
      (
        (
          keep (w.files.names path) old (λ k lt. ground arith) a,
          keep (w.files.saved_names path) old (λ k lt. ground arith) b,
        ),
        (same, λ k lt. ground (arith, content k)),
        Unreplaced-Failed (begun.next + 1) (some begun.next) w
            ((a, b), (same, content), past, here, next),
        here,
        next,
      )

  pub sync-Filled : (w : Writing J) → Flushed w → Filled (change (sync_content begun.next) w)
  sync-Filled w (((a, b), (same, content), past, here, next), c) =
      let keep = Holds-frame begun.next w.files (sync_content begun.next w.files) in
      (
        (
          (
            (
              keep (w.files.names path) old (λ k lt. ground arith) a,
              keep (w.files.saved_names path) old (λ k lt. ground arith) b,
            ),
            (same, content),
            Unreplaced-Failed (begun.next + 1) (some begun.next) w
                ((a, b), (same, content), past, here, next),
            here,
            next,
          ),
          c,
        ),
        ground arith,
      )

  pub sync-Done : (w : Writing J) → Replaced begun.next old w → Done true (change sync_names w)
  sync-Done w (a, b, same, past, entry, next) = (
    Holds-frame (begun.next + 1) w.files (sync_names w.files) (w.files.names path) (some text)
        (λ k lt. ground arith) a,
    Holds-frame (begun.next + 1) w.files (sync_names w.files) (w.files.names path) (some text)
        (λ k lt. ground arith) a,
    same,
    Replaced-Failed begun.next old w (inl refl) (a, b, same, past, entry, next),
    entry,
    next,
  )
