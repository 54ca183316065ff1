-- ===== src/Tests/ExitCodes.antt =====
-- Runs of the exit code handling.
use scheduling_util_py.Prelude.{
  ◌≡◌, refl, ◌↔◌, inl, inr, Bool, true, false, ◌&&◌, Option, none, List, [], ◌∷◌, return, raise,
  no_code, int_code, Action, arith, system_exit, if◌then◌else◌,
}
use scheduling_util_py.Prelude.Int.{ℤ, pos, negsuc, leb_ℤ}
use scheduling_util_py.Outcome.{success, failure, neutral}
use scheduling_util_py.ScheduleCli.OrderedSet.{OrderedSet, Member}
use scheduling_util_py.ScheduleCli.ExitCodes.{validate_exit_code_sets, map_exit_code_to_outcome}
use scheduling_util_py.ScheduleCli.Commands.{subprocess_check, click_invoke_func}

-- The sets as lists.
abbrev same_ℤ : ℤ → ℤ → Bool
same_ℤ a b = leb_ℤ a b && leb_ℤ b a

same_ℤ_iff : (a b : ℤ) → (same_ℤ a b ≡ true) ↔ (a ≡ b)
same_ℤ_iff (pos a) (pos b) = ground arith
same_ℤ_iff (pos a) (negsuc b) = ground arith
same_ℤ_iff (negsuc a) (pos b) = ground arith
same_ℤ_iff (negsuc a) (negsuc b) = ground arith

member : ℤ → List ℤ → Bool
member x [] = false
member x (y ∷ ys) = let rest = member x ys in if same_ℤ x y then true else rest

member_iff : (x : ℤ) (ys : List ℤ) → (member x ys ≡ true) ↔ Member x ys
unfolding member
member_iff x [] = ground arith
member_iff x (y ∷ ys) = let here = same_ℤ_iff x y in let there = member_iff x ys in ground arith

subset : List ℤ → List ℤ → Bool
subset [] ys = true
subset (x ∷ xs) ys = member x ys && subset xs ys

subset_iff : (xs ys : List ℤ) → (subset xs ys ≡ true) ↔ ((n : ℤ) → Member n xs → Member n ys)
unfolding subset
subset_iff [] ys = (λ h n m. absurd m, λ f. refl)
subset_iff (x ∷ xs) ys =
    let (sound, complete) = subset_iff xs ys in
    let (reads, finds) = member_iff x ys in
    (
      λ h n m. elim m [
        | inl here ↦ rw here (reads (ground arith))
        | inr there ↦ sound (ground arith) n there
      ],
      λ f. let a = finds (f x (inl refl)) in let b = complete (λ n m. f n (inr m)) in ground arith,
    )

same_set : List ℤ → List ℤ → Bool
same_set xs ys = subset xs ys && subset ys xs

same_set_iff : (xs ys : List ℤ) → (same_set xs ys ≡ true) ↔ ((n : ℤ) → Member n xs ↔ Member n ys)
unfolding same_set
same_set_iff xs ys =
    let (sub, sub') = subset_iff xs ys in
    let (sup, sup') = subset_iff ys xs in
    (
      λ h n. (sub (ground arith) n, sup (ground arith) n),
      λ f. let a = sub' (λ n. (f n).0) in let b = sup' (λ n. (f n).1) in ground arith,
    )

empty : List ℤ → Bool
empty [] = true
empty (_ ∷ _) = false

empty_iff : (xs : List ℤ) → (empty xs ≡ true) ↔ (xs ≡ [])
unfolding empty
empty_iff [] = (λ h. refl, λ h. refl)
empty_iff (x ∷ xs) = (λ h. cc, λ h. cc)

abbrev lists : OrderedSet
lists = record {
  Codes = List ℤ;
  to_list = λ s. s;
  contains = member;
  equals = same_set;
  is_empty = empty;
  contains_iff = member_iff;
  equals_iff = same_set_iff;
  is_empty_iff = empty_iff;
}

abbrev not_given : Option Bool
not_given = none

abbrev zero_only : List ℤ
zero_only = pos 0 ∷ []

codes_read :
    (map_exit_code_to_outcome lists zero_only (pos 75 ∷ []) (int_code (pos 75)) ≡ neutral)
    × (map_exit_code_to_outcome lists zero_only (pos 75 ∷ []) no_code ≡ success)
    × (map_exit_code_to_outcome lists zero_only (pos 75 ∷ []) (int_code (pos 1)) ≡ failure)
unfolding map_exit_code_to_outcome member
codes_read = (refl, refl, refl)

checks_by_default :
    (subprocess_check lists not_given zero_only [] ≡ return true)
    × (subprocess_check lists not_given zero_only (pos 75 ∷ []) ≡ return false)
unfolding subprocess_check validate_exit_code_sets same_set subset member empty
checks_by_default = (refl, refl)

-- A process that ends with the return code 0.
abbrev quiet_process : Bool → Action (List Bool) ℤ
quiet_process check s = (return (pos 0), check ∷ s)

-- Code that ends with `sys.exit(75)`.
abbrev exits : Action (List Bool) (Unit {0})
exits s = (raise (system_exit (int_code (pos 75))), true ∷ s)

abbrev opens : Action (List Bool) (Unit {0})
opens s = (return tt, false ∷ s)

exit_code_contained :
    (click_invoke_func lists zero_only (pos 75 ∷ []) opens exits (λ s. s) []).0 ≡ return neutral
unfolding click_invoke_func map_exit_code_to_outcome member
exit_code_contained = refl
