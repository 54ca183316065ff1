-- ===== src/RollingWindowRateLimiter/Write/States.antt =====
-- What the state file of a `RollingWindowRateLimiter` (src/scheduling_util/_rate_limiter.py) holds
-- while it is written, after an exception and after a loss of power.
use text.Mathlib.TextEquality.{eq_iff}
use text.Mathlib.TextPositions.{eq_refl}
use mathlib.Core.Option
use scheduling_util_py.Prelude.{
  inl, inr, ◌⊎◌, ℕ, ◌<◌, String, ◌≡◌, refl, ◌≢◌, ◌⊎◌, inr, Bool, Option, none, some, arith,
}
use scheduling_util_py.RollingWindowRateLimiter.{StateText}
use scheduling_util_py.RollingWindowRateLimiter.Write.{
  Files, set_name, read_path, survivor, or_garbage,
}

pub set_name_here :
    (p : String) (e : Option ℕ) (names : String → Option ℕ) → set_name p e names p ≡ e
set_name_here p e names = rw (eq_refl p) refl

pub set_name_other :
    (p q : String) (e : Option ℕ) (names : String → Option ℕ)
    → q ≢ p
    → set_name p e names q ≡ names q
set_name_other p q e names ne = ground (arith, eq_iff q p)

module _ {J : Type 0} where
  -- An entry that stands for the text `t`, which is saved, in an inode below `n`.
  abbrev pub Holds : ℕ → Files J → Option ℕ → Option (StateText J) → Type 0
  Holds n d none t = t ≡ none
  Holds n d (some k) t = (t ≡ some (d.content k)) × (d.saved_content k ≡ t) × (k < n)

  -- The path stands for `t`, also after a loss of power, with an inode below `n`.
  abbrev pub Settled : ℕ → String → Option (StateText J) → Files J → Type 0
  Settled n path t d = Holds n d (d.names path) t × Holds n d (d.saved_names path) t

  -- A process reads `old` or `new` at the path, and so it is after a loss of power.
  abbrev pub Shown : String → (old new : Option (StateText J)) → Files J → Type 0
  Shown path old new d =
      ((read_path d path ≡ old) ⊎ (read_path d path ≡ new))
      × ((kept : Bool) (garbage : StateText J)
          → (survivor kept garbage d path ≡ old) ⊎ (survivor kept garbage d path ≡ new))

  pub Holds-read :
      (n : ℕ) (d : Files J) (e : Option ℕ) (t : Option (StateText J))
      → Holds n d e t
      → Option.map d.content e ≡ t
  Holds-read n d none t h = ground arith
  Holds-read n d (some k) t h = ground arith

  Holds-survives :
      (n : ℕ) (d : Files J) (e : Option ℕ) (t : Option (StateText J)) (garbage : StateText J)
      → Holds n d e t
      → Option.map (λ k. or_garbage garbage (d.saved_content k)) e ≡ t
  Holds-survives n d none t garbage h = ground arith
  Holds-survives n d (some k) t garbage h = ground arith

  pub Settled-Shown :
      (n : ℕ) (path : String) (old new : Option (StateText J)) (d : Files J)
      → Settled n path old d
      → Shown path old new d
  Settled-Shown n path old new d (a, b) = (
    inl (Holds-read n d (d.names path) old a),
    λ kept garbage. ground (
      arith,
      Holds-survives n d (d.names path) old garbage a,
      Holds-survives n d (d.saved_names path) old garbage b,
    ),
  )

  pub Replaced-Shown :
      (n m : ℕ) (path : String) (old new saved : Option (StateText J)) (d : Files J)
      → (saved ≡ old) ⊎ (saved ≡ new)
      → Holds n d (d.names path) new
      → Holds m d (d.saved_names path) saved
      → Shown path old new d
  Replaced-Shown n m path old new saved d either a b = (
    inr (Holds-read n d (d.names path) new a),
    λ kept garbage. ground (
      arith,
      Holds-survives n d (d.names path) new garbage a,
      Holds-survives m d (d.saved_names path) saved garbage b,
    ),
  )

  -- What does not change an inode below `n` changes nothing of this.
  pub Holds-frame :
      (n : ℕ) (d d' : Files J) (e : Option ℕ) (t : Option (StateText J))
      → ((k : ℕ) → k < n → (d'.content k ≡ d.content k) × (d'.saved_content k ≡ d.saved_content k))
      → Holds n d e t
      → Holds n d' e t
  Holds-frame n d d' none t same h = h
  Holds-frame n d d' (some k) t same h = ground (arith, same k)
