-- ===== src/PathLock.antt =====
-- `reentrant_exclusive_path_lock` of src/scheduling_util/_lock.py for one normalized path: the
-- registry and its state objects, the contexts a thread has open, and what one thread does in one
-- step. `exclusive_path_lock` is here its `flock`, which the other users of the path share; its
-- own steps are in LockFile.antt.
use scheduling_util_py.Prelude.{
  ℕ, zero, suc, ◌+◌, ◌-◌, ◌*◌, ◌≤◌, ◌<◌, min, String, ◌≡◌, refl, sym, ap, ◌∙◌, ◌≢◌, ◌↔◌, ◌⊎◌, inl,
  inr, Bool, true, false, not, ◌&&◌, ◌||◌, Option, none, some, List, [], ◌∷◌, ◌++◌, map, reverse,
  arith, ltb, leb, ◌==◌, if◌then◌else◌, is_some, ltb→lt, Bool-cases, length, drop, All,
  length-append, length-drop, All-append, ExitCode, Exception, Result, Action, is_exception, pure,
  throw, and_then, ◌>>=◌, ◌>>◌,
}
use scheduling_util_py.Prelude.Families.{update}
mod Invariant
mod Moves
pub mod Safety
pub mod Release
pub mod Refinement

-- `_ReentrantPathLockState`; `owner` and `holds` are the thread that has the `RLock` and how often.
pub record LockState : Type 0 where
  pub owner : Option ℕ
  pub holds : ℕ
  pub depth : ℕ
  pub ref_count : ℕ

-- Who has the `flock` of the file: a thread of this process, by a re-entrant context, or another
-- process (or another user of the file).
pub data Flock : Type 0 where
  free : Flock
  ours : (thread : ℕ) → Flock
  theirs : Flock

-- The state objects by identity, the entry of the path in `_reentrant_path_lock_states`, the
-- identity of the next object, and the file.
pub record Memory : Type 0 where
  pub objects : ℕ → LockState
  pub registry : Option ℕ
  pub next : ℕ
  pub file : Flock

-- Where a context stands, with its local `state`.
pub data Point : Type 0 where
  fetched : (state : ℕ) → Point  -- before `state.lock.acquire()`
  locked : (state : ℕ) → Point  -- before the test of `state.depth`
  opening : (state : ℕ) → Point  -- entering `exclusive_path_lock`
  outer : (state : ℕ) → Point  -- in the block, inside `exclusive_path_lock`
  closing : (state : ℕ) → Point  -- before `state.depth = 0`
  nested : (state : ℕ) → Point  -- in the block of a nested entry
  leaving : (state : ℕ) → Point  -- before `state.lock.release()`
  released : (state : ℕ) → Point  -- before `_release_reentrant_path_lock_state`

-- `_ReentrantPathLockState()`
abbrev pub new_state : LockState
new_state = record { owner = none; holds = 0; depth = 0; ref_count = 0 }

-- An assignment to the fields of the object `r`.
abbrev pub store : ℕ → LockState → Memory → Memory
store r state m = record m { objects = update m.objects r state }

-- `state.ref_count += 1`
abbrev pub count_up : ℕ → Memory → Memory
count_up r m = store r (record (m.objects r) { ref_count = (m.objects r).ref_count + 1 }) m

-- The `except KeyError` of `_get_reentrant_path_lock_state`
abbrev pub register : Memory → Memory
register m = record m {
  objects = update m.objects m.next new_state;
  registry = some m.next;
  next = m.next + 1;
}

-- `_get_reentrant_path_lock_state`: the object, and the memory after the call
abbrev pub get_state : Memory → ℕ × Memory
get_state m = elim m.registry [
  | some r ↦ (r, count_up r m)
  | none ↦ (m.next, count_up m.next (register m))
]

-- `_release_reentrant_path_lock_state`
abbrev pub release_state : ℕ → Memory → Memory
release_state r m =
    let count = (m.objects r).ref_count - 1 in
    let m = store r (record (m.objects r) { ref_count = count }) m in
    if count == 0 then record m { registry = none } else m

-- `state.lock.acquire()` by thread `i`, once the lock is free or its own
abbrev pub acquire_lock : ℕ → LockState → LockState
acquire_lock i s = record s { owner = some i; holds = s.holds + 1 }

-- `state.lock.release()`
abbrev pub release_lock : LockState → LockState
release_lock s = record s {
  owner = if s.holds - 1 == 0 then none else s.owner;
  holds = s.holds - 1;
}

-- A thread starts a context when it has none or is in the block of its innermost one.
abbrev pub may_enter : List Point → Bool
may_enter [] = true
may_enter (outer _ ∷ _) = true
may_enter (nested _ ∷ _) = true
may_enter _ = false

-- One step of `reentrant_exclusive_path_lock` in the innermost context of thread `i`, whose
-- contexts are listed from the innermost on. The guard of the registry makes the calls of
-- `get_state` and `release_state` one step each; the block ends by a return or by an exception.
pub data Move (i : ℕ) (m : Memory) : List Point → Memory → List Point → Type 0 where
  fetch :
      {ps : List Point}
      → may_enter ps ≡ true
      → Move i m ps (get_state m).1 (fetched (get_state m).0 ∷ ps)
  acquire :
      {r : ℕ} {ps : List Point}
      → ((m.objects r).owner ≡ none) ⊎ ((m.objects r).owner ≡ some i)
      → Move i m (fetched r ∷ ps) (store r (acquire_lock i (m.objects r)) m) (locked r ∷ ps)
  nest :
      {r : ℕ} {ps : List Point}
      → 0 < (m.objects r).depth
      → Move i m
          (locked r ∷ ps)
          (store r (record (m.objects r) { depth = (m.objects r).depth + 1 }) m)
          (nested r ∷ ps)
  open_outer :
      {r : ℕ} {ps : List Point}
      → (m.objects r).depth ≡ 0
      → Move i m (locked r ∷ ps) (store r (record (m.objects r) { depth = 1 }) m) (opening r ∷ ps)
  take_flock :
      {r : ℕ} {ps : List Point}
      → m.file ≡ free
      → Move i m (opening r ∷ ps) (record m { file = ours i }) (outer r ∷ ps)
  fail_open : {r : ℕ} {ps : List Point} → Move i m (opening r ∷ ps) m (closing r ∷ ps)
  end_outer :
      {r : ℕ} {ps : List Point}
      → Move i m (outer r ∷ ps) (record m { file = free }) (closing r ∷ ps)
  close :
      {r : ℕ} {ps : List Point}
      → Move i m (closing r ∷ ps) (store r (record (m.objects r) { depth = 0 }) m) (leaving r ∷ ps)
  end_nested :
      {r : ℕ} {ps : List Point}
      → Move i m
          (nested r ∷ ps)
          (store r (record (m.objects r) { depth = (m.objects r).depth - 1 }) m)
          (leaving r ∷ ps)
  release :
      {r : ℕ} {ps : List Point}
      → Move i m (leaving r ∷ ps) (store r (release_lock (m.objects r)) m) (released r ∷ ps)
  drop_state : {r : ℕ} {ps : List Point} → Move i m (released r ∷ ps) (release_state r m) ps

-- The memory and the contexts of every thread; a number from `n` on names no thread.
pub record System : Type 0 where
  pub memory : Memory
  pub contexts : ℕ → List Point

abbrev pub set_file : Flock → System → System
set_file f s = record s { memory = record s.memory { file = f } }

-- A step of one of the `n` threads, or of the other users of the file.
pub data Step (n : ℕ) (s : System) : System → Type 0 where
  run :
      (i : ℕ) {m : Memory} {ps : List Point}
      → i < n
      → Move i s.memory (s.contexts i) m ps
      → Step n s (record { memory = m; contexts = update s.contexts i ps })
  lock_elsewhere : s.memory.file ≡ free → Step n s (set_file theirs s)
  unlock_elsewhere : s.memory.file ≡ theirs → Step n s (set_file free s)

abbrev pub start : System
start = record {
  memory = record { objects = λ _. new_state; registry = none; next = 0; file = free };
  contexts = λ _. [];
}

-- Any number of steps.
pub data Steps (n : ℕ) (s : System) : System → Type 0 where
  stay : Steps n s s
  step : {t u : System} → Steps n s t → Step n t u → Steps n s u

abbrev pub Reach : ℕ → System → Type 0
Reach n s = Steps n start s
