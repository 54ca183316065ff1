-- ===== src/PathLock/Safety.antt =====
-- The promises of `reentrant_exclusive_path_lock` (src/scheduling_util/_lock.py), at every moment
-- that any number of threads and the other users of the file can reach.
use scheduling_util_py.Prelude.{
  Option, none, some, ap, ℕ, ◌<◌, ◌≡◌, refl, ap, ◌≢◌, Bool, true, false, none, some, List, [], ◌∷◌,
  arith, length,
}
use scheduling_util_py.PathLock.{
  Flock, theirs, free, set_file, Flock, free, ours, theirs, Point, outer, nested, System, Step, run,
  lock_elsewhere, unlock_elsewhere, Reach, stay, step, start,
}
use scheduling_util_py.Prelude.Families.{sum_below-zero, sum_below}
use scheduling_util_py.PathLock.Invariant.{
  is_empty, in_blocks, Invariant, is_stack, in_blocks, is_empty, state_of, flocked,
}
use scheduling_util_py.PathLock.Moves.{Move-Invariant, idle, entry as entry_of}

abbrev pub Holds : ℕ → System → Type 0
Holds n s = Invariant n s.memory s.contexts

start-Invariant : (n : ℕ) → Holds n start
start-Invariant n = record {
  counted = λ r q. ground arith;
  empty = λ q. sum_below-zero length (λ _. []) n (λ k lt. refl);
  shared = λ r i q l. tt;
  stacks = λ i l. refl;
  agrees = λ r i q l. ground arith;
  unheld = λ r q. ground arith;
  owned = λ r i q. ground arith;
  flocks = λ i l q. ground arith;
  files = λ i q. ground arith;
}

set_file-Invariant :
    {n : ℕ} {s : System}
    → Holds n s
    → (f : Flock) → ((i : ℕ) → i < n → 0 < flocked (s.contexts i) → f ≡ ours i)
    → ((i : ℕ) → f ≡ ours i → (i < n) × (flocked (s.contexts i) ≡ 1))
    → Holds n (set_file f s)
set_file-Invariant inv f flocks files = record {
  counted = inv.counted;
  empty = inv.empty;
  shared = inv.shared;
  stacks = inv.stacks;
  agrees = inv.agrees;
  unheld = inv.unheld;
  owned = inv.owned;
  flocks = flocks;
  files = files;
}

Step-Invariant : {n : ℕ} {s t : System} → Step n s t → Holds n s → Holds n t
Step-Invariant (run i lt mv) inv = Move-Invariant inv i lt mv
Step-Invariant {s} (lock_elsewhere e) inv =
    set_file-Invariant {s = s} inv theirs (λ i l q. ground (arith, inv.flocks i l q))
      (λ i q. ground arith)
Step-Invariant {s} (unlock_elsewhere e) inv =
    set_file-Invariant {s = s} inv free (λ i l q. ground (arith, inv.flocks i l q))
      (λ i q. ground arith)

pub Reach-Invariant : {n : ℕ} {s : System} → Reach n s → Holds n s
Reach-Invariant {n} stay = start-Invariant n
Reach-Invariant (step r st) = Step-Invariant st (Reach-Invariant r)

unregistered :
    {n : ℕ} {s : System}
    → Holds n s
    → sum_below length s.contexts n ≡ 0
    → (x : Option ℕ) → s.memory.registry ≡ x
    → s.memory.registry ≡ none
unregistered inv z none e = e
unregistered inv z (some r) e = ground (arith, inv.counted r e)

-- Is a context of the thread in its block, between `yield` and what follows it?
abbrev is_inside : List Point → Bool
is_inside [] = false
is_inside (outer _ ∷ _) = true
is_inside (nested _ ∷ _) = true
is_inside (_ ∷ ps) = is_inside ps

pub in_blocks-flocked :
    (ps : List Point) → in_blocks ps ≡ true → is_empty ps ≡ false → 0 < flocked ps
in_blocks-flocked [] a b = ground arith
in_blocks-flocked (outer r ∷ ps) a b = ground arith
in_blocks-flocked (nested r ∷ ps) a b = ground (arith, in_blocks-flocked ps)
in_blocks-flocked (_ ∷ ps) a b = ground arith

inside-flocked : (ps : List Point) → is_stack ps ≡ true → is_inside ps ≡ true → 0 < flocked ps
inside-flocked [] a b = ground arith
inside-flocked (outer r ∷ ps) a b = ground arith
inside-flocked (nested r ∷ ps) a b = ground (arith, inside-flocked ps, in_blocks-flocked ps)
inside-flocked (p ∷ ps) a b = ground (arith, in_blocks-flocked ps)

-- At every moment that the threads and the other users of the file can reach, two threads with a
-- context in its block are the same thread, and this thread has the `flock` of the file.
pub blocks_exclude :
    {n : ℕ} {s : System}
    → Reach n s
    → (i j : ℕ) → i < n
    → j < n
    → is_inside (s.contexts i) ≡ true
    → is_inside (s.contexts j) ≡ true
    → (i ≡ j) × (s.memory.file ≡ ours i)
blocks_exclude {s} reach i j li lj bi bj =
    let inv = Reach-Invariant reach in
    ground (
      arith,
      inv.flocks i li,
      inv.flocks j lj,
      inside-flocked (s.contexts i) (inv.stacks i li) bi,
      inside-flocked (s.contexts j) (inv.stacks j lj) bj,
    )

-- What the registry says of the contexts of the threads.
pub record Tracks (n : ℕ) (s : System) : Type 0 where
  pub entry :
      (i : ℕ) (p : Point) (ps : List Point)
      → i < n
      → s.contexts i ≡ p ∷ ps
      → (s.memory.registry ≡ some (state_of p))
        × ((s.memory.objects (state_of p)).ref_count ≡ sum_below length s.contexts n)
  pub none_left :
      s.memory.registry ≡ none
      → ((i : ℕ) → i < n → s.contexts i ≡ []) × ((i : ℕ) → s.memory.file ≢ ours i)
  pub removed : ((i : ℕ) → i < n → s.contexts i ≡ []) → s.memory.registry ≡ none

-- At every reachable moment: when a thread has a context, the registry has an entry, this entry is
-- the state object of that context, and its `ref_count` is the number of contexts of all threads;
-- and the registry has no entry just when no thread has a context, and then no thread of the
-- process has the `flock`.
pub registry-Tracks : {n : ℕ} {s : System} → Reach n s → Tracks n s
registry-Tracks {n} {s} reach =
    let inv = Reach-Invariant reach in
    record {
      entry = λ i p ps lt e.
          let known = entry_of inv i lt (p ∷ ps) e in
          ground (arith, known, inv.counted (state_of p) known.0);
      none_left = λ q. (
        λ i lt. idle inv i lt q,
        λ i e. let (lt, one) = inv.files i e in ground (arith, idle inv i lt q),
      );
      removed = λ e.
          unregistered inv (sum_below-zero length s.contexts n (λ k lt. ap length (e k lt)))
            s.memory.registry refl;
    }
