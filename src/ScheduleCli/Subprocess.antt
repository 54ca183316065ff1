-- ===== src/ScheduleCli/Subprocess.antt =====
-- What the commands of src/scheduling_util/_schedule_cli.py accept, and what their functions return.
use scheduling_util_py.Prelude.{
  ◌≡◌, refl, ◌∙◌, ap, ◌≢◌, ◌↔◌, ◌⊎◌, inl, inr, Bool, true, false, Bool-cases, ◌&&◌, Option, none,
  some, [], ◌∷◌, return, int_code, Action, arith,
}
use scheduling_util_py.Prelude.Int.{ℤ, pos}
use scheduling_util_py.Outcome.{Outcome, success}
use scheduling_util_py.ScheduleCli.OrderedSet.{OrderedSet, Member}
use scheduling_util_py.ScheduleCli.ExitCodes.{validate_exit_code_sets, map_exit_code_to_outcome}
use scheduling_util_py.ScheduleCli.Outcomes.{
  HasOutcome, Disjoint, map_exit_code-HasOutcome, validate-Disjoint,
}
use scheduling_util_py.ScheduleCli.Commands.{subprocess_check, subprocess_func}

module _ (set : OrderedSet) where
  open set use {Codes, to_list, contains, equals, is_empty, contains_iff, equals_iff, is_empty_iff}

  -- The options are the defaults: 0 alone is successful, and nothing is neutral.
  abbrev pub IsDefault : (success_codes neutral_codes : Codes) → Type 0
  IsDefault success_codes neutral_codes =
      ((n : ℤ) → Member n (to_list success_codes) ↔ Member n (pos 0 ∷ []))
      × (to_list neutral_codes ≡ [])

  IsDefault-iff :
      (success_codes neutral_codes : Codes)
      → ((equals success_codes (pos 0 ∷ []) && is_empty neutral_codes) ≡ true)
        ↔ IsDefault success_codes neutral_codes
  IsDefault-iff success_codes neutral_codes =
      let e = equals_iff success_codes (pos 0 ∷ []) in
      let m = is_empty_iff neutral_codes in
      (
        λ h. (e.0 (ground arith), m.0 (ground arith)),
        λ (zero_only, nothing). let a = e.1 zero_only in let b = m.1 nothing in ground arith,
      )

  IsDefault-Disjoint :
      (success_codes neutral_codes : Codes)
      → IsDefault success_codes neutral_codes
      → Disjoint set success_codes neutral_codes
  IsDefault-Disjoint success_codes neutral_codes (_, nothing) n m = rw nothing (λ k. k)

  subprocess_check-tests :
      (check : Option Bool) (success_codes neutral_codes : Codes)
      → let valid = validate_exit_code_sets set success_codes neutral_codes in
        let plain = equals success_codes (pos 0 ∷ []) && is_empty neutral_codes in
        ((subprocess_check set check success_codes neutral_codes ≡ return true)
          ↔ ((valid ≡ return tt) × (plain ≡ true) × (check ≢ some false)))
        × ((subprocess_check set check success_codes neutral_codes ≡ return false)
            ↔ ((valid ≡ return tt) × ((check ≡ some false) ⊎ (check ≡ none) × (plain ≡ false))))
  unfolding subprocess_check
  subprocess_check-tests none success_codes neutral_codes = ground arith
  subprocess_check-tests (some true) success_codes neutral_codes = ground arith
  subprocess_check-tests (some false) success_codes neutral_codes = ground arith

  -- `subprocess` runs with `check` exactly if the exit codes are the defaults and `--no-check` is not
  -- given; it runs without exactly if the sets are disjoint and `--no-check` is given, or neither
  -- option is given and the exit codes are not the defaults. In all other cases it is refused.
  subprocess_check-IsDefault :
      (check : Option Bool) (success_codes neutral_codes : Codes)
      → ((subprocess_check set check success_codes neutral_codes ≡ return true)
          ↔ (IsDefault success_codes neutral_codes × (check ≢ some false)))
        × ((subprocess_check set check success_codes neutral_codes ≡ return false) ↔ (
            Disjoint set success_codes neutral_codes
            × ((check ≡ some false) ⊎ (check ≡ none) × (¬ IsDefault success_codes neutral_codes))))
  subprocess_check-IsDefault check success_codes neutral_codes =
      let (valid, _) = validate-Disjoint set success_codes neutral_codes in
      let plain = IsDefault-iff success_codes neutral_codes in
      let (on, off) = subprocess_check-tests check success_codes neutral_codes in
      (
        (
          λ h. (plain.0 (on.0 h).1, (on.0 h).2),
          λ (d, given).
              on.1 (valid.1 (IsDefault-Disjoint success_codes neutral_codes d), plain.1 d, given),
        ),
        (
          λ h. (
            valid.0 (off.0 h).0,
            elim (off.0 h).1 [
              | inl given ↦ inl given
              | inr (absent, other) ↦ inr (absent, λ d. let both = plain.1 d in cc)
            ],
          ),
          λ (d, given). off.1 (
            valid.1 d,
            elim given [
              | inl g ↦ inl g
              | inr (absent, other) ↦ inr (
                absent,
                elim (Bool-cases (equals success_codes (pos 0 ∷ []) && is_empty neutral_codes)) [
                  | inl both ↦ absurd (other (plain.0 both))
                  | inr apart ↦ apart
                ],
              )
            ],
          ),
        ),
      )

  IsDefault-only :
      (given : Option Bool) (success_codes neutral_codes : Codes)
      → subprocess_check set given success_codes neutral_codes ≡ return true
      → (contains (pos 0) success_codes ≡ true) × (contains (pos 0) neutral_codes ≡ false)
  IsDefault-only given success_codes neutral_codes accepted =
      let (zero_only, nothing) =
        ((subprocess_check-IsDefault given success_codes neutral_codes).0.0 accepted).0 in
      (
        (contains_iff (pos 0) success_codes).1 ((zero_only (pos 0)).1 (inl refl)),
        elim (Bool-cases (contains (pos 0) neutral_codes)) [
          | inl e ↦ absurd (rw nothing at ((contains_iff (pos 0) neutral_codes).0 e))
          | inr e ↦ e
        ],
      )

  -- With the value of `check` that the command accepted, and a `run_with_logger` that raises for a
  -- return code other than 0 if `check` is set: a normal return of the scheduled function means the
  -- outcome of the return code, and with `check` it is always a success.
  subprocess_func-HasOutcome :
      {S : Type 0} (success_codes neutral_codes : Codes) (run_with_logger : Bool → Action S ℤ)
      (given : Option Bool) (check : Bool) (s : S) (n : ℤ)
      → subprocess_check set given success_codes neutral_codes ≡ return check
      → (check ≡ true → n ≡ pos 0)
      → (run_with_logger check s).0 ≡ return n
      → (o : Outcome) × (subprocess_func set success_codes neutral_codes run_with_logger check s
          ≡ (return o, (run_with_logger check s).1))
        × HasOutcome set success_codes neutral_codes (int_code n) o
        × (check ≡ true → o ≡ success)
  unfolding subprocess_func map_exit_code_to_outcome
  subprocess_func-HasOutcome success_codes neutral_codes run_with_logger given check s n accepted
        raises ran =
      let o = map_exit_code_to_outcome set success_codes neutral_codes (int_code n) in
      (
        o,
        rw ran,
        map_exit_code-HasOutcome set success_codes neutral_codes (int_code n),
        λ c.
            let d = IsDefault-only given success_codes neutral_codes (accepted ∙ ap return c) in
            let zero = raises c in let hit = d.0 in let miss = d.1 in ground arith,
      )
