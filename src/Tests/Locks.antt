-- ===== src/Tests/Locks.antt =====
-- Two threads at the registry of path locks, and two processes at a lock file
-- (src/scheduling_util/_lock.py).
use scheduling_util_py.Prelude.{ℕ, ◌≡◌, refl, inl, false, arith}
use scheduling_util_py.PathLock.{
  System, Reach, stay, step, run, fetch, acquire, open_outer, take_flock, ours,
}
use scheduling_util_py.PathLock.Safety.{blocks_exclude, registry-Tracks, Tracks}
use scheduling_util_py.PathLock.Refinement.{LockStep, seen, Step-LockStep}
use scheduling_util_py.PathLock.Release.{Ending, threads_drain, Drained}
use scheduling_util_py.LockFile.{
  System as Files, Reach as FileReach, Steps as FileSteps, stay as unmoved, step as move_on,
  run as move, call, create, exists, open_existing, flock, keep_time, in_block, outside,
}
use scheduling_util_py.LockFile.Exclusion.{lock_file_excludes, late_reset_forgets}

-- Thread 0 is in a block, and thread 1 waits for the `RLock`.
abbrev entered_once : (s : System) × Reach 2 s
entered_once = (
  _,
  step
      (step
        (step
          (step (step stay (run 0 (omega arith) (fetch refl)))
            (run 0 (omega arith) (acquire (inl refl))))
          (run 1 (omega arith) (fetch refl)))
        (run 0 (omega arith) (open_outer refl)))
      (run 0 (omega arith) (take_flock refl)),
)

-- Thread 0 starts a context in its block.
abbrev entering_again : (s : System) × Reach 2 s
entering_again = (_, step entered_once.1 (run 0 (omega arith) (fetch refl)))

blocks_exclude_example : (◌≡◌ {A = ℕ} 0 0) × (entered_once.0.memory.file ≡ ours 0)
blocks_exclude_example = blocks_exclude entered_once.1 0 0 (omega arith) (omega arith) refl refl

registry-Tracks_example : Tracks 2 entering_again.0
registry-Tracks_example = registry-Tracks entering_again.1

threads_drain_example : (t : System) × Ending 2 entering_again.0 t × Drained 2 t
threads_drain_example = threads_drain entering_again.1 (ground arith)

-- Process 0 has created the file, and process 1 has locked it first.
abbrev overtaken : (s : Files) × FileReach false s
overtaken = (
  _,
  move_on
      (move_on
        (move_on
          (move_on
            (move_on (move_on (move_on unmoved (move 0 refl call)) (move 0 refl (create 7 refl)))
              (move 1 refl call))
            (move 1 refl (exists refl)))
          (move 1 refl (open_existing refl)))
        (move 1 refl (flock refl)))
      (move 1 refl keep_time),
)

lock_file_excludes_example : ◌≡◌ {A = ℕ} 1 1
lock_file_excludes_example = lock_file_excludes false overtaken.1 1 1 0 0 refl refl (inl refl)

late_reset_forgets_example :
    (t u : Files) × FileSteps false overtaken.0 t
    × (t.disk.mtime 0 ≡ 9)
    × FileSteps false t u
    × (u.stages 0 ≡ in_block 0)
    × (u.stages 1 ≡ outside)
    × (u.disk.mtime 0 ≡ 0)
late_reset_forgets_example = late_reset_forgets overtaken.1 0 1 0 refl refl 9

Step-LockStep_example : LockStep 2 (seen entered_once.0) (seen entering_again.0)
Step-LockStep_example = Step-LockStep entered_once.1 (run 0 (omega arith) (fetch refl))
