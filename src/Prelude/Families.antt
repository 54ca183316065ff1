-- ===== src/Prelude/Families.antt =====
-- The threads of the process as a family: a change at one index, and a sum over the first `n`.
use scheduling_util_py.Prelude.{
  if◌then◌else◌, ◌==◌, ℕ, zero, suc, ◌+◌, ◌≤◌, ◌<◌, ◌≡◌, ◌≢◌, sym, refl, arith,
}
use mathlib.Core.Path.{subst}
use native.Mathlib.Decide.{dec_lt, ℕ_discrete}

abbrev pub update {ℓ} : {A : Type ℓ} → (ℕ → A) → ℕ → A → ℕ → A
update f key value k = if k == key then value else f k

module _ {ℓ} {A : Type ℓ} (size : A → ℕ) where
  pub sum_below : (ℕ → A) → ℕ → ℕ
  sum_below f zero = 0
  sum_below f (suc n) = size (f n) + sum_below f n

  sum_below-above :
      (f : ℕ → A) (n k : ℕ) (a : A) → n ≤ k → sum_below (update f k a) n ≡ sum_below f n
  unfolding sum_below
  sum_below-above f zero k a le = refl
  sum_below-above f (suc n) k a le = ground (arith, sum_below-above f n k a)

  -- A change at `k` moves the sum by what it changes there.
  pub sum_below-update :
      (f : ℕ → A) (n k : ℕ) (a : A)
      → k < n
      → sum_below (update f k a) n + size (f k) ≡ sum_below f n + size a
  unfolding sum_below
  sum_below-update f zero k a lt = absurd (omega arith)
  sum_below-update f (suc n) k a lt = elim (dec_lt k n) [
    | yes below ↦ ground (arith, sum_below-update f n k a below)
    | no last ↦ ground (arith, sum_below-above f n k a)
  ]

  pub sum_below-part : (f : ℕ → A) (n k : ℕ) → k < n → size (f k) ≤ sum_below f n
  unfolding sum_below
  sum_below-part f zero k lt = absurd (omega arith)
  sum_below-part f (suc n) k lt = elim (dec_lt k n) [
    | yes below ↦ omega (arith, sum_below-part f n k below)
    | no last ↦ ground arith
  ]

  pub sum_below-zero : (f : ℕ → A) (n : ℕ) → ((k : ℕ) → k < n → size (f k) ≡ 0) → sum_below f n ≡ 0
  unfolding sum_below
  sum_below-zero f zero small = refl
  sum_below-zero f (suc n) small =
      omega (arith, small n (omega arith), sum_below-zero f n (λ k lt. small k (omega arith)))

  -- The index of a positive part of a positive sum.
  pub positive_part : (f : ℕ → A) (n : ℕ) → 0 < sum_below f n → (k : ℕ) × (k < n) × (0 < size (f k))
  unfolding sum_below
  positive_part f zero pos = absurd (omega arith)
  positive_part f (suc n) pos = elim (dec_lt 0 (size (f n))) [
    | yes here ↦ (n, omega arith, here)
    | no other ↦ let (k, lt, h) = positive_part f n (omega arith) in (k, omega arith, h)
  ]

module _ {ℓ} {A : Type ℓ} where
  pub update_here : (f : ℕ → A) (k : ℕ) (a : A) → update f k a k ≡ a
  update_here f k a = ground arith

  pub update_other : (f : ℕ → A) (k j : ℕ) (a : A) → j ≢ k → update f k a j ≡ f j
  update_other f k j a ne = ground arith

module _ {ℓ κ} {A : Type ℓ} (P : ℕ → A → Type κ) where
  -- What holds of the value at `k` and of the old values elsewhere holds after a change at `k`.
  pub at_update :
      (f : ℕ → A) (k : ℕ) (a : A)
      → P k a
      → ((j : ℕ) → j ≢ k → P j (f j))
      → (j : ℕ) → P j (update f k a j)
  at_update f k a own others j = elim (ℕ_discrete j k) [
    | yes e ↦
        let here : a ≡ update f k a j = ground arith in
        subst (P j) here (subst (λ x. P x a) (sym e) own)
    | no e ↦
        let elsewhere : f j ≡ update f k a j = ground arith in subst (P j) elsewhere (others j e)
  ]
