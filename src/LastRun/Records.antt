-- ===== src/LastRun/Records.antt =====
-- What the wrapper of src/scheduling_util/_last_run.py records of an attempt.
use scheduling_util_py.Prelude.{
  ◌≡◌, refl, ◌∙◌, ap, ◌≢◌, Bool, true, String, Option, none, some, [], ◌∷◌, ◌++◌, is_some, Result,
  return, raise, Action, ◌>>=◌, arith,
}
use scheduling_util_py.Prelude.Int.{ℤ}
use scheduling_util_py.Outcome.{failure}
use scheduling_util_py.LastRunHistory.{Platform, LastRunHistory, append}
use scheduling_util_py.LastRunHistory.Discard.{keep_last}
use scheduling_util_py.LastRunHistory.Append.{
  stored, append_config, append_file_stays, append_all-stored,
}
use scheduling_util_py.World.{World}
use scheduling_util_py.LastRun.{AssessResult, finished_entry, started_entry, wrapper, conclude}

module _ (platform : Platform) {R : Type 0} (assess : AssessResult R)
    (should_run : Action (World platform) Bool) (f : Action (World platform) R) (t₀ t₁ : ℤ) where
  -- The wrapped function leaves the history object and the disk alone.
  abbrev pub KeepsHistory : Type 0
  KeepsHistory = (w : World platform) → ((f w).1.history ≡ w.history) × ((f w).1.disk ≡ w.disk)

  abbrev wrapped : Action (World platform) (Option R)
  wrapped = wrapper platform assess should_run f t₀ t₁

  -- The world in which the function is called: the attempt is recorded as started.
  abbrev pub begun : World platform → World platform
  begun w =
      let (h, disk) = append platform (started_entry t₀) w.history w.disk in
      record w { history = h; disk = disk }

  pub wrapper-run :
      (w w₁ : World platform)
      → should_run w ≡ (return true, w₁)
      → let (result, after) = f (begun w₁) in
        let e = finished_entry platform assess result t₁ in
        ((wrapped w).1.disk ≡ (append platform e after.history after.disk).1)
        × ((wrapped w).1.history ≡ (append platform e after.history after.disk).0)
        × (wrapped w ≡ (
          (wrapped w).0,
          record after { history = (wrapped w).1.history; disk = (wrapped w).1.disk },
        ))
  unfolding wrapper
  wrapper-run w w₁ h = rw h (refl, refl, refl)

  after_path :
      (w₁ : World platform) (path : String)
      → w₁.history.path ≡ some path
      → KeepsHistory
      → (f (begun w₁)).1.history.path ≡ some path
  after_path w₁ path p keeps =
      ap (λ (h : LastRunHistory). h.path) (keeps (begun w₁)).0
      ∙ (append_config platform (started_entry t₀) w₁.history w₁.disk).1
      ∙ p

  pub wrapper_file_stays :
      (w w₁ : World platform) (path : String)
      → should_run w ≡ (return true, w₁)
      → w₁.history.path ≡ some path
      → KeepsHistory
      → is_some ((wrapped w).1.disk path) ≡ true
  wrapper_file_stays w w₁ path allowed p keeps =
      let after = (f (begun w₁)).1 in
      ap (λ disk. is_some (disk path)) (wrapper-run w w₁ allowed).0
      ∙ append_file_stays platform (finished_entry platform assess (f (begun w₁)).0 t₁)
          after.history after.disk path (after_path w₁ path p keeps)

  wrapper-file :
      (w w₁ : World platform) (path : String)
      → should_run w ≡ (return true, w₁)
      → w₁.history.path ≡ some path
      → is_some (w₁.disk path) ≡ true
      → KeepsHistory
      → let n = w₁.history.max_entries in
        keep_last n (stored platform (wrapped w).1.disk path)
        ≡ keep_last n (
            stored platform w₁.disk path
            ++ started_entry t₀ ∷ finished_entry platform assess (f (begun w₁)).0 t₁ ∷ [])
  wrapper-file w w₁ path allowed p file keeps =
      let n = w₁.history.max_entries in
      let after = (f (begun w₁)).1 in
      let e = finished_entry platform assess (f (begun w₁)).0 t₁ in
      let (kept, kept_disk) = keeps (begun w₁) in
      let same = (append_config platform (started_entry t₀) w₁.history w₁.disk).0 in
      let ops = (w₁.history, started_entry t₀) ∷ (after.history, e) ∷ [] in
      ap (λ d. keep_last n (stored platform d path)) (wrapper-run w w₁ allowed).0
      ∙ ap (λ d. keep_last n (stored platform (append platform e after.history d).1 path)) kept_disk
      ∙ append_all-stored platform path n ops w₁.disk
          (
            p,
            refl,
            (
              after_path w₁ path p keeps,
              ap (λ (h : LastRunHistory). h.max_entries) kept ∙ same,
              tt,
            ),
          )
          file

  -- A returned value is passed on; an exception is raised again exactly if it was assessed as a
  -- failure, and suppressed otherwise.
  abbrev pub Concludes : Result R → Result (Option R) → Type 0
  Concludes (return v) answer = answer ≡ return (some v)
  Concludes (raise e) answer =
      ((assess (raise e)).0 ≡ failure → answer ≡ raise e)
      × ((assess (raise e)).0 ≢ failure → answer ≡ return none)

  conclude-Concludes : (r : Result R) → Concludes r (conclude (assess r).0 r)
  conclude-Concludes (return v) = refl
  conclude-Concludes (raise e) = ground arith

  wrapper-Concludes :
      (w w₁ : World platform)
      → should_run w ≡ (return true, w₁)
      → Concludes (f (begun w₁)).0 (wrapped w).0
  unfolding wrapper
  wrapper-Concludes w w₁ h = rw (h, ◌>>=◌) (conclude-Concludes (f (begun w₁)).0)

  -- When the predicate allows the run, the history file exists and the function leaves the history
  -- alone: whatever the function returns or raises, a reader of the file with the same limit sees the
  -- last of the old entries followed by one started entry and one finished entry with the assessed
  -- outcome. A returned value is passed on; an exception is raised again exactly if it was assessed as
  -- a failure, and suppressed otherwise.
  pub wrapper_records :
      (w w₁ : World platform) (path : String)
      → should_run w ≡ (return true, w₁)
      → w₁.history.path ≡ some path
      → is_some (w₁.disk path) ≡ true
      → KeepsHistory
      → let n = w₁.history.max_entries in
        let result = (f (begun w₁)).0 in
        (keep_last n (stored platform (wrapped w).1.disk path)
          ≡ keep_last n (
              stored platform w₁.disk path
              ++ started_entry t₀ ∷ finished_entry platform assess result t₁ ∷ []))
        × Concludes result (wrapped w).0
  wrapper_records w w₁ path allowed p file keeps =
      (wrapper-file w w₁ path allowed p file keeps, wrapper-Concludes w w₁ allowed)
