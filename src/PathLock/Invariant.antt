-- ===== src/PathLock/Invariant.antt =====
-- What holds of a registry and its threads at every moment (src/scheduling_util/_lock.py).
use scheduling_util_py.Prelude.{
  Bool, true, not, false, ◌&&◌, ℕ, suc, ◌<◌, ◌≡◌, none, some, List, [], ◌∷◌, length, All,
}
use scheduling_util_py.PathLock.{
  LockState, ours, Memory, Point, fetched, locked, opening, outer, closing, nested, leaving,
  released,
}
use scheduling_util_py.Prelude.Families.{sum_below}

abbrev pub state_of : Point → ℕ
state_of (fetched r) = r
state_of (locked r) = r
state_of (opening r) = r
state_of (outer r) = r
state_of (closing r) = r
state_of (nested r) = r
state_of (leaving r) = r
state_of (released r) = r

-- How often the contexts of a thread have acquired the `RLock`.
abbrev pub acquired : List Point → ℕ
acquired [] = 0
acquired (fetched _ ∷ ps) = acquired ps
acquired (released _ ∷ ps) = acquired ps
acquired (_ ∷ ps) = suc (acquired ps)

-- How many contexts of a thread are counted in `depth`.
abbrev pub entered : List Point → ℕ
entered [] = 0
entered (opening _ ∷ ps) = suc (entered ps)
entered (outer _ ∷ ps) = suc (entered ps)
entered (closing _ ∷ ps) = suc (entered ps)
entered (nested _ ∷ ps) = suc (entered ps)
entered (_ ∷ ps) = entered ps

-- How many contexts of a thread have the `flock`.
abbrev pub flocked : List Point → ℕ
flocked [] = 0
flocked (outer _ ∷ ps) = suc (flocked ps)
flocked (_ ∷ ps) = flocked ps

abbrev pub is_empty : List Point → Bool
is_empty [] = true
is_empty _ = false

-- The oldest of these contexts is in the block of an outer entry, the others of nested ones.
abbrev pub in_blocks : List Point → Bool
in_blocks [] = true
in_blocks (outer _ ∷ ps) = is_empty ps
in_blocks (nested _ ∷ ps) = not (is_empty ps) && in_blocks ps
in_blocks _ = false

-- All but the youngest are in their blocks, and just the oldest enters `exclusive_path_lock`.
abbrev pub is_stack : List Point → Bool
is_stack [] = true
is_stack (opening _ ∷ ps) = is_empty ps
is_stack (outer _ ∷ ps) = is_empty ps
is_stack (closing _ ∷ ps) = is_empty ps
is_stack (nested _ ∷ ps) = not (is_empty ps) && in_blocks ps
is_stack (_ ∷ ps) = in_blocks ps

-- The object of the registry agrees with the contexts of thread `i`.
pub record Agrees (s : LockState) (i : ℕ) (ps : List Point) : Type 0 where
  pub holder : 0 < acquired ps → s.owner ≡ some i
  pub held : s.owner ≡ some i → (s.holds ≡ acquired ps) × (s.depth ≡ entered ps)

pub record Invariant (n : ℕ) (m : Memory) (pc : ℕ → List Point) : Type 0 where
  pub counted :
      (r : ℕ)
      → m.registry ≡ some r
      → ((m.objects r).ref_count ≡ sum_below length pc n) × (0 < sum_below length pc n)
  pub empty : m.registry ≡ none → sum_below length pc n ≡ 0
  pub shared : (r i : ℕ) → m.registry ≡ some r → i < n → All (λ p. state_of p ≡ r) (pc i)
  pub stacks : (i : ℕ) → i < n → is_stack (pc i) ≡ true
  pub agrees : (r i : ℕ) → m.registry ≡ some r → i < n → Agrees (m.objects r) i (pc i)
  pub unheld :
      (r : ℕ)
      → m.registry ≡ some r
      → (m.objects r).owner ≡ none
      → ((m.objects r).holds ≡ 0) × ((m.objects r).depth ≡ 0)
  pub owned :
      (r i : ℕ)
      → m.registry ≡ some r
      → (m.objects r).owner ≡ some i
      → (i < n) × (0 < (m.objects r).holds)
  pub flocks : (i : ℕ) → i < n → 0 < flocked (pc i) → m.file ≡ ours i
  pub files : (i : ℕ) → m.file ≡ ours i → (i < n) × (flocked (pc i) ≡ 1)
