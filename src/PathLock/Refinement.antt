-- ===== src/PathLock/Refinement.antt =====
-- `reentrant_exclusive_path_lock` (src/scheduling_util/_lock.py) against the specification of a
-- re-entrant lock, which only knows in how many blocks each thread is.
use scheduling_util_py.Prelude.{ℕ, suc, ◌+◌, ◌≤◌, ◌<◌, ◌≡◌, refl, ◌≢◌, List, [], ◌∷◌, arith}
use scheduling_util_py.PathLock.{
  Memory, Point, Move, System, Step, Reach, fetched, locked, opening, outer, nested, released, nest,
  take_flock, end_outer, end_nested, run, lock_elsewhere, unlock_elsewhere,
}
use scheduling_util_py.Prelude.Families.{update}
use scheduling_util_py.PathLock.Invariant.{state_of, acquired}
use scheduling_util_py.PathLock.Moves.{entry}
use scheduling_util_py.PathLock.Safety.{Holds, Reach-Invariant}

-- In how many blocks the contexts of a thread are.
abbrev pub blocks : List Point → ℕ
blocks [] = 0
blocks (outer _ ∷ ps) = suc (blocks ps)
blocks (nested _ ∷ ps) = suc (blocks ps)
blocks (_ ∷ ps) = blocks ps

-- One step of a re-entrant lock between `n` threads: a thread enters one more block while no other
-- thread is in one, or leaves one, or nothing changes.
pub data LockStep (n : ℕ) (before after : ℕ → ℕ) : Type 0 where
  enter :
      (i : ℕ)
      → i < n
      → ((j : ℕ) → j < n → j ≢ i → before j ≡ 0)
      → after i ≡ before i + 1
      → ((j : ℕ) → j ≢ i → after j ≡ before j)
      → LockStep n before after
  leave :
      (i : ℕ)
      → i < n
      → after i + 1 ≡ before i
      → ((j : ℕ) → j ≢ i → after j ≡ before j)
      → LockStep n before after
  nothing : ((j : ℕ) → after j ≡ before j) → LockStep n before after

abbrev pub seen : System → ℕ → ℕ
seen s i = blocks (s.contexts i)

blocks-acquired : (ps : List Point) → blocks ps ≤ acquired ps
blocks-acquired [] = omega arith
blocks-acquired (fetched _ ∷ ps) = blocks-acquired ps
blocks-acquired (released _ ∷ ps) = blocks-acquired ps
blocks-acquired (outer _ ∷ ps) = omega (arith, blocks-acquired ps)
blocks-acquired (nested _ ∷ ps) = omega (arith, blocks-acquired ps)
blocks-acquired (_ ∷ ps) = omega (arith, blocks-acquired ps)

module _ {n : ℕ} {s : System} (inv : Holds n s) (i : ℕ) (lt : i < n) where
  -- While thread `i` has the `RLock`, no other thread is in a block.
  alone :
      (p : Point) (ps : List Point)
      → s.contexts i ≡ p ∷ ps
      → 0 < acquired (p ∷ ps)
      → (j : ℕ) → j < n
      → j ≢ i
      → seen s j ≡ 0
  alone p ps e held j lj ne =
      let known = entry inv i lt (p ∷ ps) e in
      ground (arith, known, inv.agrees (state_of p) j known.0 lj, blocks-acquired (s.contexts j))

  Move-LockStep :
      {ps ps' : List Point} {m : Memory}
      → s.contexts i ≡ ps
      → Move i s.memory ps m ps'
      → LockStep n (seen s) (seen (record { memory = m; contexts = update s.contexts i ps' }))
  Move-LockStep e (nest {r} {ps} g) =
      enter i lt (alone (locked r) ps e (omega arith)) (ground (arith, e)) (λ j ne. ground arith)
  Move-LockStep e (take_flock {r} {ps} g) =
      enter i lt (alone (opening r) ps e (omega arith)) (ground (arith, e)) (λ j ne. ground arith)
  Move-LockStep e (end_outer) = leave i lt (ground (arith, e)) (λ j ne. ground arith)
  Move-LockStep e (end_nested) = leave i lt (ground (arith, e)) (λ j ne. ground arith)
  Move-LockStep e mv = nothing (λ j. ground (arith, e))

-- From every reachable moment, each step of the threads or of the other users of the file is, for the
-- blocks that the threads are in, a step of a re-entrant lock.
pub Step-LockStep : {n : ℕ} {s t : System} → Reach n s → Step n s t → LockStep n (seen s) (seen t)
Step-LockStep {s} reach (run i lt mv) = Move-LockStep (Reach-Invariant reach) i lt refl mv
Step-LockStep reach (lock_elsewhere e) = nothing (λ j. refl)
Step-LockStep reach (unlock_elsewhere e) = nothing (λ j. refl)
