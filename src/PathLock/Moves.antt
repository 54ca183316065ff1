-- ===== src/PathLock/Moves.antt =====
-- A move of thread `i` keeps each part of `Invariant` (src/scheduling_util/_lock.py).
use scheduling_util_py.Prelude.{
  ◌≢◌, ℕ, ◌+◌, ◌≤◌, ◌<◌, ◌≡◌, refl, true, none, some, List, [], ◌∷◌, arith, length, All,
}
use scheduling_util_py.PathLock.{
  take_flock, ours, acquire, release, Memory, Point, outer, nested, Move, fetch, nest, open_outer,
  drop_state, may_enter,
}
use scheduling_util_py.Prelude.Families.{
  at_update, update, sum_below, sum_below-update, sum_below-part,
}
use scheduling_util_py.PathLock.Invariant.{
  acquired, flocked, Invariant, Agrees, is_stack, in_blocks, state_of, entered,
}

pub in_blocks-counts :
    (ps : List Point) → in_blocks ps ≡ true → (entered ps ≡ length ps) × (acquired ps ≡ length ps)
in_blocks-counts [] b = (refl, refl)
in_blocks-counts (outer r ∷ []) b = (refl, refl)
in_blocks-counts (nested r ∷ ps) b = ground (arith, in_blocks-counts ps)
in_blocks-counts (_ ∷ ps) b = ground arith

in_blocks-is_stack : (ps : List Point) → in_blocks ps ≡ true → is_stack ps ≡ true
in_blocks-is_stack [] b = refl
in_blocks-is_stack (outer r ∷ ps) b = b
in_blocks-is_stack (nested r ∷ ps) b = b
in_blocks-is_stack (_ ∷ ps) b = ground arith

may_enter-in_blocks :
    (ps : List Point) → may_enter ps ≡ true → is_stack ps ≡ true → in_blocks ps ≡ true
may_enter-in_blocks [] e s = refl
may_enter-in_blocks (outer r ∷ ps) e s = s
may_enter-in_blocks (nested r ∷ ps) e s = s
may_enter-in_blocks (_ ∷ ps) e s = ground arith

module _ {n : ℕ} {m : Memory} {pc : ℕ → List Point} (inv : Invariant n m pc) where
  open inv use {counted, empty, shared, stacks, agrees, unheld, owned, flocks, files}

  -- What is known of the entry of the registry when thread `i` has contexts.
  abbrev pub Entry : ℕ → List Point → Type 0
  Entry i [] = Unit
  Entry i (p ∷ ps) = (m.registry ≡ some (state_of p)) × Agrees (m.objects (state_of p)) i (p ∷ ps)

  pub entry : (i : ℕ) → i < n → (ps : List Point) → pc i ≡ ps → Entry i ps
  entry i lt [] e = tt
  entry i lt (p ∷ ps) e =
      elim m.registry as (λ x. m.registry ≡ x → Entry i (p ∷ ps)) [
        | none ↦ λ q. ground (arith, empty q, sum_below-part length pc n i lt)
        | some r ↦ λ q. ground (arith, shared r i q lt, agrees r i q lt)
      ]
        refl

  pub idle : (i : ℕ) → i < n → m.registry ≡ none → pc i ≡ []
  idle i lt q = ground (arith, empty q, sum_below-part length pc n i lt)

  module _ (i : ℕ) (lt : i < n) where
    record Mover (ps ps' : List Point) : Type 0 where
      here : pc i ≡ ps
      known : Entry i ps
      count : sum_below length (update pc i ps') n + length ps ≡ sum_below length pc n + length ps'
      part : length ps ≤ sum_below length pc n
      stack : is_stack ps ≡ true

    mover : (ps' : List Point) → Mover (pc i) ps'
    mover ps' = record {
      here = refl;
      known = entry i lt (pc i) refl;
      count = sum_below-update length pc n i ps' lt;
      part = sum_below-part length pc n i lt;
      stack = stacks i lt;
    }

    Move-counted :
        {ps ps' : List Point} {m' : Memory}
        → Move i m ps m' ps'
        → Mover ps ps'
        → (r : ℕ) → m'.registry ≡ some r
        → ((m'.objects r).ref_count ≡ sum_below length (update pc i ps') n)
          × (0 < sum_below length (update pc i ps') n)
    Move-counted (fetch g) f r q = ground (arith, counted r, empty)
    Move-counted (drop_state {r = s}) f r q = ground (arith, counted s f.known.0)
    Move-counted mv f r q = ground (arith, counted r q)

    Move-empty :
        {ps ps' : List Point} {m' : Memory}
        → Move i m ps m' ps'
        → Mover ps ps'
        → m'.registry ≡ none
        → sum_below length (update pc i ps') n ≡ 0
    Move-empty (fetch g) f q = ground (arith, empty)
    Move-empty (drop_state {r = s}) f q = ground (arith, counted s f.known.0)
    Move-empty mv f q = ground (arith, empty)

    Move-stack :
        {ps ps' : List Point} {m' : Memory}
        → Move i m ps m' ps'
        → Mover ps ps'
        → is_stack ps' ≡ true
    Move-stack (fetch {ps} g) f = may_enter-in_blocks ps g f.stack
    Move-stack (nest {r} {ps} g) f = ground (arith, f.known)
    Move-stack (open_outer {r} {ps} g) f = ground (arith, f.known, in_blocks-counts ps)
    Move-stack (drop_state {r} {ps}) f = in_blocks-is_stack ps f.stack
    Move-stack mv f = ground (arith, f.stack)

    Move-shared :
        {ps ps' : List Point} {m' : Memory}
        → Move i m ps m' ps'
        → Mover ps ps'
        → (r : ℕ) → m'.registry ≡ some r
        → All (λ p. state_of p ≡ r) ps'
    Move-shared (fetch g) f r q = ground (arith, shared r i, f.here, f.part, empty)
    Move-shared (drop_state {r = s}) f r q =
        ground (arith, shared s i f.known.0 lt, f.here, f.known)
    Move-shared mv f r q = ground (arith, shared r i q lt, f.here)

    Move-Agrees :
        {ps ps' : List Point} {m' : Memory}
        → Move i m ps m' ps'
        → Mover ps ps'
        → (r : ℕ) → m'.registry ≡ some r
        → Agrees (m'.objects r) i ps'
    Move-Agrees (fetch g) f r q = ground (arith, f.known, f.part, empty, agrees r i)
    Move-Agrees (acquire {r = s} {ps} g) f r q =
        ground (arith, f.known, f.stack, in_blocks-counts ps, unheld s f.known.0)
    Move-Agrees (nest {r = s} {ps} g) f r q = ground (arith, f.known, f.stack, in_blocks-counts ps)
    Move-Agrees (open_outer g) f r q = ground (arith, f.known, f.stack)
    Move-Agrees mv f r q = ground (arith, f.known, f.stack)

    Move-owner :
        {ps ps' : List Point} {m' : Memory}
        → Move i m ps m' ps'
        → Mover ps ps'
        → (r : ℕ) → m'.registry ≡ some r
        → record {
          unheld :
              (m'.objects r).owner ≡ none → ((m'.objects r).holds ≡ 0) × ((m'.objects r).depth ≡ 0);
          owned : (j : ℕ) → (m'.objects r).owner ≡ some j → (j < n) × (0 < (m'.objects r).holds);
        }
    Move-owner (fetch g) f r q = ground (arith, f.known, f.part, empty, unheld r, owned r)
    Move-owner (drop_state {r = s}) f r q = ground (arith, f.known, f.stack, unheld r, owned r)
    Move-owner (release {ps}) f r q =
        ground (arith, f.known, f.stack, in_blocks-counts ps, unheld r q, owned r)
    Move-owner mv f r q = ground (arith, f.known, f.stack, unheld r q, owned r)

    Move-flock : {ps ps' : List Point} {m' : Memory} → Move i m ps m' ps' → Mover ps ps' → record {
      flocks : 0 < flocked ps' → m'.file ≡ ours i;
      files : m'.file ≡ ours i → flocked ps' ≡ 1;
    }
    Move-flock (drop_state) f = ground (arith, f.here, f.stack, flocks i lt, files i)
    Move-flock mv f = ground (arith, f.here, f.stack, flocks i lt, files i)

    -- What the contexts of another thread rely on.
    others-shared :
        {ps ps' : List Point} {m' : Memory}
        → Move i m ps m' ps'
        → Mover ps ps'
        → (r j : ℕ) → m'.registry ≡ some r
        → j < n
        → All (λ p. state_of p ≡ r) (pc j)
    others-shared (fetch g) f r j q l = ground (arith, shared r j, idle j l)
    others-shared (drop_state {r = s}) f r j q l = ground (arith, shared r j)
    others-shared mv f r j q l = ground (arith, shared r j)

    others-Agrees :
        {ps ps' : List Point} {m' : Memory}
        → Move i m ps m' ps'
        → Mover ps ps'
        → (r j : ℕ) → m'.registry ≡ some r
        → j < n
        → j ≢ i
        → Agrees (m'.objects r) j (pc j)
    others-Agrees (fetch g) f r j q l ne = ground (arith, agrees r j, idle j l)
    others-Agrees (acquire g) f r j q l ne = ground (arith, f.known, agrees r j q l)
    others-Agrees (drop_state {r = s}) f r j q l ne = ground (arith, agrees r j)
    others-Agrees mv f r j q l ne = ground (arith, f.known, agrees r j q l)

    others-flock :
        {ps ps' : List Point} {m' : Memory}
        → Move i m ps m' ps'
        → Mover ps ps'
        → (j : ℕ) → j ≢ i
        → (0 < flocked (pc j) → m.file ≡ ours j)
        → 0 < flocked (pc j)
        → m'.file ≡ ours j
    others-flock (take_flock g) f j ne old h = ground arith
    others-flock mv f j ne old h = ground (arith, f.here, flocks i lt)

    others-file :
        {ps ps' : List Point} {m' : Memory}
        → Move i m ps m' ps'
        → (j : ℕ) → j ≢ i
        → m'.file ≡ ours j
        → m.file ≡ ours j
    others-file (drop_state {r}) j ne e = ground arith
    others-file mv j ne e = ground arith

    Move-files :
        {ps ps' : List Point} {m' : Memory}
        → Move i m ps m' ps'
        → Mover ps ps'
        → (j : ℕ) → m'.file ≡ ours j
        → (j < n) × (flocked (update pc i ps' j) ≡ 1)
    Move-files {ps'} {m'} mv f =
        at_update (λ j qs. m'.file ≡ ours j → (j < n) × (flocked qs ≡ 1)) pc i ps'
          (λ e. (lt, (Move-flock mv f).files e)) (λ j ne e. files j (others-file mv j ne e))

    from_Mover :
        {ps ps' : List Point} {m' : Memory}
        → Move i m ps m' ps'
        → Mover ps ps'
        → Invariant n m' (update pc i ps')
    from_Mover {ps'} {m'} mv f =
        let owner = Move-owner mv f in
        record {
          counted = Move-counted mv f;
          empty = Move-empty mv f;
          shared = λ r j q.
              at_update (λ j qs. j < n → All (λ p. state_of p ≡ r) qs) pc i ps'
                (λ _. Move-shared mv f r q) (λ j ne l. others-shared mv f r j q l) j;
          stacks =
              at_update (λ j qs. j < n → is_stack qs ≡ true) pc i ps' (λ _. Move-stack mv f)
                (λ j ne l. stacks j l);
          agrees = λ r j q.
              at_update (λ j qs. j < n → Agrees (m'.objects r) j qs) pc i ps'
                (λ _. Move-Agrees mv f r q) (λ j ne l. others-Agrees mv f r j q l ne) j;
          unheld = λ r q. (owner r q).unheld;
          owned = λ r j q. (owner r q).owned j;
          flocks =
              at_update (λ j qs. j < n → 0 < flocked qs → m'.file ≡ ours j) pc i ps'
                (λ _. (Move-flock mv f).flocks) (λ j ne l. others-flock mv f j ne (flocks j l));
          files = Move-files mv f;
        }

    pub Move-Invariant :
        {ps' : List Point} {m' : Memory} → Move i m (pc i) m' ps' → Invariant n m' (update pc i ps')
    Move-Invariant {ps'} mv = from_Mover mv (mover ps')
