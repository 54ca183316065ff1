-- ===== src/PathLock/Release.antt =====
-- How the contexts of `reentrant_exclusive_path_lock` (src/scheduling_util/_lock.py) end, and how
-- a nested context is entered.
use scheduling_util_py.Prelude.{
  inr, sym, zero, inl, inr, ℕ, zero, suc, ◌+◌, ◌≤◌, ◌<◌, ◌≡◌, refl, ◌≢◌, ◌⊎◌, inl, inr, Option,
  none, some, List, [], ◌∷◌, arith, length,
}
use scheduling_util_py.PathLock.{
  Step, store, acquire_lock, run, Flock, free, ours, theirs, Memory, Point, fetched, locked,
  opening, outer, closing, nested, leaving, released, Move, acquire, nest, open_outer, take_flock,
  end_outer, close, end_nested, release, drop_state, System, run, Reach,
}
use scheduling_util_py.Prelude.Families.{
  update, sum_below-update, sum_below-part, sum_below, sum_below-part, sum_below-update,
  positive_part,
}
use scheduling_util_py.PathLock.Invariant.{acquired, flocked}
use scheduling_util_py.PathLock.Moves.{Move-Invariant, in_blocks-counts, idle, idle, entry}
use scheduling_util_py.PathLock.Safety.{in_blocks-flocked, Holds, Reach-Invariant}
use mathlib.Core.Path.{subst}
use native.Mathlib.Decide.{dec_lt}

-- The steps that a thread has left when it starts no further context.
abbrev pub steps_left : List Point → ℕ
steps_left [] = 0
steps_left (fetched _ ∷ ps) = 7 + steps_left ps
steps_left (locked _ ∷ ps) = 6 + steps_left ps
steps_left (opening _ ∷ ps) = 5 + steps_left ps
steps_left (outer _ ∷ ps) = 4 + steps_left ps
steps_left (closing _ ∷ ps) = 3 + steps_left ps
steps_left (nested _ ∷ ps) = 3 + steps_left ps
steps_left (leaving _ ∷ ps) = 2 + steps_left ps
steps_left (released _ ∷ ps) = 1 + steps_left ps

abbrev Advance : ℕ → Memory → List Point → Type 0
Advance j m ps =
    (m' : Memory) × (ps' : List Point) × Move j m ps m' ps'
    × (steps_left ps' < steps_left ps)
    × (m'.file ≢ theirs)

flocked-acquired : (ps : List Point) → flocked ps ≤ acquired ps
flocked-acquired [] = omega arith
flocked-acquired (fetched _ ∷ ps) = flocked-acquired ps
flocked-acquired (released _ ∷ ps) = flocked-acquired ps
flocked-acquired (outer _ ∷ ps) = omega (arith, flocked-acquired ps)
flocked-acquired (_ ∷ ps) = omega (arith, flocked-acquired ps)

acquired-length : (ps : List Point) → acquired ps ≤ length ps
acquired-length [] = omega arith
acquired-length (fetched _ ∷ ps) = omega (arith, acquired-length ps)
acquired-length (released _ ∷ ps) = omega (arith, acquired-length ps)
acquired-length (_ ∷ ps) = omega (arith, acquired-length ps)

module _ {n : ℕ} {s : System} (inv : Holds n s) (nt : s.memory.file ≢ theirs) where
  -- While a thread enters `exclusive_path_lock`, no thread has the `flock`.
  file_free :
      (j r : ℕ) (ps : List Point)
      → j < n
      → s.contexts j ≡ opening r ∷ ps
      → (f : Flock) → s.memory.file ≡ f
      → s.memory.file ≡ free
  file_free j r ps lt e free eq = eq
  file_free j r ps lt e theirs eq = absurd (nt eq)
  file_free j r ps lt e (ours k) eq =
      let (lk, one) = inv.files k eq in
      let known = entry inv j lt (opening r ∷ ps) e in
      ground
        (arith, known, flocked-acquired (s.contexts k), inv.agrees r k known.0 lk, inv.stacks j lt)

  -- The thread that has the `RLock`, or any with a context when none has it, is not blocked.
  advance :
      (j r : ℕ)
      → j < n
      → s.memory.registry ≡ some r
      → ((s.memory.objects r).owner ≡ none) ⊎ ((s.memory.objects r).owner ≡ some j)
      → (ps : List Point) → s.contexts j ≡ ps
      → 0 < length ps
      → Advance j s.memory ps
  advance j r lt q own [] e pos = absurd (omega arith)
  advance j r lt q own (fetched x ∷ ps) e pos =
      (_, _, acquire (ground (arith, own, entry inv j lt (fetched x ∷ ps) e)), omega arith, nt)
  advance j r lt q own (locked x ∷ ps) e pos = elim (dec_lt 0 (s.memory.objects x).depth) [
    | yes deep ↦ (_, _, nest deep, omega arith, nt)
    | no flat ↦ (_, _, open_outer (omega arith), omega arith, nt)
  ]
  advance j r lt q own (opening x ∷ ps) e pos =
      (_, _, take_flock (file_free j x ps lt e s.memory.file refl), omega arith, ground arith)
  advance j r lt q own (outer x ∷ ps) e pos = (_, _, end_outer, omega arith, ground arith)
  advance j r lt q own (closing x ∷ ps) e pos = (_, _, close, omega arith, nt)
  advance j r lt q own (nested x ∷ ps) e pos = (_, _, end_nested, omega arith, nt)
  advance j r lt q own (leaving x ∷ ps) e pos = (_, _, release, omega arith, nt)
  advance j r lt q own (released x ∷ ps) e pos = (_, _, drop_state, omega arith, ground arith)

  -- Some thread takes a step towards its end.
  some-Advance :
      (r : ℕ) → s.memory.registry ≡ some r → (j : ℕ) × (j < n) × Advance j s.memory (s.contexts j)
  some-Advance r q = next (s.memory.objects r).owner refl
    where
      next :
          (o : Option ℕ)
          → (s.memory.objects r).owner ≡ o
          → (j : ℕ) × (j < n) × Advance j s.memory (s.contexts j)
      next none e =
          let (j, lt, pos) = positive_part length s.contexts n (inv.counted r q).1 in
          (j, lt, advance j r lt q (inl e) (s.contexts j) refl pos)
      next (some j) e =
          let (lt, held) = inv.owned r j q e in
          (
            j,
            lt,
            advance j r lt q (inr e) (s.contexts j) refl
                (ground (arith, acquired-length (s.contexts j), inv.agrees r j q lt)),
          )

-- Moves of the threads, each of which brings a thread nearer to the end of its contexts.
pub data Ending (n : ℕ) : System → System → Type 0 where
  ended : {s : System} → Ending n s s
  move_on :
      {s t : System} (i : ℕ) {m : Memory} {ps : List Point}
      → i < n
      → Move i s.memory (s.contexts i) m ps
      → steps_left ps < steps_left (s.contexts i)
      → Ending n (record { memory = m; contexts = update s.contexts i ps }) t
      → Ending n s t

-- No thread has a context or the `flock`, and the registry has no entry.
abbrev pub Drained : ℕ → System → Type 0
Drained n s =
    (s.memory.registry ≡ none)
    × ((i : ℕ) → i < n → s.contexts i ≡ [])
    × ((i : ℕ) → s.memory.file ≢ ours i)

drained : {n : ℕ} {s : System} → Holds n s → s.memory.registry ≡ none → Drained n s
drained inv q = (
  q,
  λ i lt. idle inv i lt q,
  λ i e. let (lt, one) = inv.files i e in ground (arith, idle inv i lt q),
)

drain :
    {n : ℕ} (fuel : ℕ) {s : System}
    → Holds n s
    → s.memory.file ≢ theirs
    → sum_below steps_left s.contexts n ≤ fuel
    → (x : Option ℕ) → s.memory.registry ≡ x
    → (t : System) × Ending n s t × Drained n t
drain fuel {s} inv nt le none q = (s, ended, drained inv q)
drain {n} zero {s} inv nt le (some r) q =
    let (j, lt, (m, ps, mv, less, more)) = some-Advance inv nt r q in
    absurd (omega (arith, sum_below-part steps_left s.contexts n j lt))
drain {n} (suc fuel) {s} inv nt le (some r) q =
    let (j, lt, (m, ps, mv, less, more)) = some-Advance inv nt r q in
    let (t, steps, end) =
      drain fuel (Move-Invariant inv j lt mv) more
        (omega (arith, sum_below-update steps_left s.contexts n j ps lt)) m.registry refl in
    (t, move_on j lt mv less steps, end)

-- From every reachable moment at which the other users of the file do not have the `flock`, moves of
-- the threads alone, none of which starts a context, lead to a moment at which no thread has a context
-- or the `flock` and the registry has no entry: no interleaving leaves the threads deadlocked.
pub threads_drain :
    {n : ℕ} {s : System}
    → Reach n s
    → s.memory.file ≢ theirs
    → (t : System) × Ending n s t × Drained n t
threads_drain {n} {s} reach nt =
    drain (sum_below steps_left s.contexts n) (Reach-Invariant reach) nt (omega arith)
      s.memory.registry refl

run_at :
    {n : ℕ} {s : System} (i : ℕ) {ps ps' : List Point} {m : Memory}
    → i < n
    → s.contexts i ≡ ps
    → Move i s.memory ps m ps'
    → Step n s (record { memory = m; contexts = update s.contexts i ps' })
run_at {s} i {ps'} {m} lt e mv = run i lt (subst (λ x. Move i s.memory x m ps') (sym e) mv)

-- A thread that starts a context inside another one of its own gets to its block in two steps of
-- its own, whatever the other threads are at; it has the `flock` before them and keeps it.
nested_enters :
    {n : ℕ} {s : System}
    → Reach n s
    → (i r : ℕ) (p : Point) (ps : List Point) → i < n
    → s.contexts i ≡ fetched r ∷ p ∷ ps
    → (t u : System) × Step n s t
      × Step n t u
      × (u.contexts i ≡ nested r ∷ p ∷ ps)
      × (s.memory.file ≡ ours i)
      × (u.memory.file ≡ ours i)
nested_enters {n} {s} reach i r p ps lt e =
    let inv = Reach-Invariant reach in
    let (registered, agree) = entry inv i lt (fetched r ∷ p ∷ ps) e in
    let counts = in_blocks-counts (p ∷ ps) in
    let flock = in_blocks-flocked (p ∷ ps) in
    let stack = inv.stacks i lt in
    let file : s.memory.file ≡ ours i = ground (arith, stack, flock, inv.flocks i lt) in
    let deep : 0 < ((store r (acquire_lock i (s.memory.objects r)) s.memory).objects r).depth =
      ground (arith, stack, counts, agree) in
    let own = agree.holder (ground (arith, stack, counts)) in
    (
      _,
      _,
      run_at i lt e (acquire (inr own)),
      run_at i {ps = locked r ∷ p ∷ ps} lt (ground arith) (nest deep),
      ground arith,
      file,
      file,
    )
