-- ===== src/ScheduleCli/OrderedSet.antt =====
-- What src/scheduling_util/_schedule_cli.py uses of the class `OrderedSet` of the library ordered_set,
-- at whole numbers: the sets of exit codes.
use scheduling_util_py.Prelude.{◌≡◌, ◌↔◌, ◌⊎◌, Bool, true, List, [], ◌∷◌}
use scheduling_util_py.Prelude.Int.{ℤ}

abbrev pub Member : ℤ → List ℤ → Type 0
Member x [] = ⊥
Member x (y ∷ ys) = (x ≡ y) ⊎ Member x ys

-- `to_list` is the order of iteration, `contains` is `in`, `equals` is `==` with a set, and
-- `is_empty` is `not s`.
pub record OrderedSet : Type 1 where
  pub Codes : Type 0
  pub to_list : Codes → List ℤ
  pub contains : ℤ → Codes → Bool
  pub equals : Codes → List ℤ → Bool
  pub is_empty : Codes → Bool
  pub contains_iff : (x : ℤ) (s : Codes) → (contains x s ≡ true) ↔ Member x (to_list s)
  pub equals_iff :
      (s : Codes) (xs : List ℤ)
      → (equals s xs ≡ true) ↔ ((x : ℤ) → Member x (to_list s) ↔ Member x xs)
  pub is_empty_iff : (s : Codes) → (is_empty s ≡ true) ↔ (to_list s ≡ [])
