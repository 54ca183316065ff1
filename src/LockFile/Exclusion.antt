-- ===== src/LockFile/Exclusion.antt =====
-- Who is in the block of `exclusive_path_lock` (src/scheduling_util/_lock.py), and the time of the
-- file that the one who created it sets.
use scheduling_util_py.Prelude.{
  ℕ, ◌≡◌, ap, ◌∙◌, ◌≢◌, ◌⊎◌, inl, inr, Bool, true, false, Option, none, some, arith,
}
use mathlib.Core.Path.{subst}
use scheduling_util_py.LockFile.{
  Disk, Stage, outside, opened, locked, in_block, Move, create, open_existing, flock, reset_time,
  reset_fails, touch, unlock, System, Step, run, remove, Steps, stay, step, Reach,
}
use scheduling_util_py.Prelude.Families.{at_update}

-- The inode that a call has opened, and the one of which it has the `flock`.
abbrev file_of : Stage → Option ℕ
file_of (opened k _) = some k
file_of (locked k _) = some k
file_of (in_block k) = some k
file_of _ = none

abbrev flock_of : Stage → Option ℕ
flock_of (locked k _) = some k
flock_of (in_block k) = some k
flock_of _ = none

-- Every call that has locked an inode is its holder.
abbrev Held : System → Type 0
Held s = (i k : ℕ) → flock_of (s.stages i) ≡ some k → s.disk.holder k ≡ some i

-- Every call has opened the file that is at the path.
abbrev Current : System → Type 0
Current s = (i k : ℕ) → file_of (s.stages i) ≡ some k → s.disk.entry ≡ some k

abbrev Holds : ℕ → Disk → Stage → Type 0
Holds j d q = (k : ℕ) → flock_of q ≡ some k → d.holder k ≡ some j

abbrev Opens : Disk → Stage → Type 0
Opens d q = (k : ℕ) → file_of q ≡ some k → d.entry ≡ some k

own-Holds : {i : ℕ} {d d' : Disk} {p p' : Stage} → Move i d p d' p' → Holds i d p → Holds i d' p'
own-Holds (flock g) h k q = ground arith
own-Holds mv h k q = ground (arith, h k)

other-Holds :
    {i : ℕ} {d d' : Disk} {p p' : Stage}
    → Move i d p d' p'
    → Holds i d p
    → (j : ℕ) (q : Stage) → j ≢ i
    → Holds j d q
    → Holds j d' q
other-Holds (flock {k = o} g) h j q ne old k e = ground (arith, old k)
other-Holds (reset_fails {k = o} g) h j q ne old k e = ground (arith, old k, h o)
other-Holds (unlock {k = o}) h j q ne old k e = ground (arith, old k, h o)
other-Holds mv h j q ne old k e = ground (arith, old k)

own-Opens : {i : ℕ} {d d' : Disk} {p p' : Stage} → Move i d p d' p' → Opens d p → Opens d' p'
own-Opens (create t g) h k q = ground arith
own-Opens (open_existing g) h k q = ground arith
own-Opens mv h k q = ground (arith, h k)

other-Opens :
    {i : ℕ} {d d' : Disk} {p p' : Stage} → Move i d p d' p' → (q : Stage) → Opens d q → Opens d' q
other-Opens (create t g) q old k e = ground (arith, old k)
other-Opens mv q old k e = ground (arith, old k)

Step-Held : {b : Bool} {s t : System} → Step b s t → Held s → Held t
Step-Held (remove e) h = λ i k q. h i k q
Step-Held {s} (run i {p} {p'} {d} at mv) h =
    let mine : Holds i s.disk p = λ k q. h i k (ap flock_of at ∙ q) in
    at_update (λ j q. Holds j d q) s.stages i p' (own-Holds mv mine)
      (λ j ne. other-Holds mv mine j (s.stages j) ne (h j))

Step-Current : {s t : System} → Step false s t → Current s → Current t
Step-Current (remove e) h = ground arith
Step-Current {s} (run i {p} {p'} {d} at mv) h =
    let mine : Opens s.disk p = λ k q. h i k (ap file_of at ∙ q) in
    at_update (λ j q. Opens d q) s.stages i p' (own-Opens mv mine)
      (λ j ne. other-Opens mv (s.stages j) (h j))

Reach-Held : {b : Bool} {s : System} → Reach b s → Held s
Reach-Held stay = λ i k q. ground arith
Reach-Held (step r st) = Step-Held st (Reach-Held r)

Reach-Current : {s : System} → Reach false s → Current s
Reach-Current stay = λ i k q. ground arith
Reach-Current (step r st) = Step-Current st (Reach-Current r)

-- While nobody removes the path, two processes that are in the block of `exclusive_path_lock` at
-- one reachable moment are the same; where the path may be removed, this holds of two that are in
-- the block by the same inode.
pub lock_file_excludes :
    {s : System} (removal : Bool)
    → Reach removal s
    → (i j k l : ℕ) → s.stages i ≡ in_block k
    → s.stages j ≡ in_block l
    → (removal ≡ false) ⊎ (k ≡ l)
    → i ≡ j
lock_file_excludes {s} removal reach i j k l ei ej (inr same) =
    let held = Reach-Held reach in ground (arith, held i k, held j k)
lock_file_excludes {s} removal reach i j k l ei ej (inl never) =
    let held = Reach-Held reach in
    let current = Reach-Current (subst (λ b. Reach b s) never reach) in
    ground (arith, held i k, held j k, current i k, current j l)

-- The one who creates the file resets its time after the `flock`, not with the creation. So when
-- another process has come into the block first, as it may, then whatever time it sets on the file
-- there, both can go on so that the creator sets the time to 0 after it.
pub late_reset_forgets :
    {s : System}
    → Reach false s
    → (i j k : ℕ) → s.stages i ≡ opened k true
    → s.stages j ≡ in_block k
    → (now : ℕ)
    → (t u : System) × Steps false s t
      × (t.disk.mtime k ≡ now)
      × Steps false t u
      × (u.stages i ≡ in_block k)
      × (u.stages j ≡ outside)
      × (u.disk.mtime k ≡ 0)
late_reset_forgets {s} reach i j k ei ej now =
    let entry = Reach-Current reach i k (ap file_of ei) in
    let differ : i ≢ j = ground arith in
    (
      _,
      _,
      step stay (run j ej (touch now entry)),
      ground arith,
      step
          (step (step stay (run j {p = in_block k} (ground arith) unlock))
            (run i {p = opened k true} (ground arith) (flock (ground arith))))
          (run i {p = locked k true} (ground arith) (reset_time entry)),
      (ground arith),
      (ground arith),
      (ground arith),
    )
