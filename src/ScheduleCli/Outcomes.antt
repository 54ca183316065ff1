-- ===== src/ScheduleCli/Outcomes.antt =====
-- What the exit code handling of src/scheduling_util/_schedule_cli.py decides.
use scheduling_util_py.Prelude.{
  ◌≡◌, refl, ◌↔◌, ◌⊎◌, inl, inr, false, Bool-cases, List, [], ◌∷◌, return, raise, ExitCode, no_code,
  int_code, text_code,
}
use scheduling_util_py.Prelude.Int.{ℤ, pos}
use scheduling_util_py.Outcome.{Outcome, success, failure, neutral}
use scheduling_util_py.ScheduleCli.OrderedSet.{OrderedSet, Member}
use scheduling_util_py.ScheduleCli.ExitCodes.{
  overlap_error, usage, overlap_in, validate_exit_code_sets, map_exit_code_to_outcome,
}

-- The number that an exit code stands for; a text stands for none.
abbrev pub StandsFor : ExitCode → ℤ → Type 0
StandsFor no_code n = n ≡ pos 0
StandsFor (int_code code) n = n ≡ code
StandsFor (text_code _) n = ⊥

module _ (set : OrderedSet) where
  open set use {Codes, to_list, contains, contains_iff}

  -- The outcome of an exit code.
  abbrev pub HasOutcome : (success_codes neutral_codes : Codes) → ExitCode → Outcome → Type 0
  HasOutcome success_codes neutral_codes code neutral =
      (n : ℤ) × StandsFor code n × Member n (to_list neutral_codes)
  HasOutcome success_codes neutral_codes code success =
      (n : ℤ) × StandsFor code n
      × Member n (to_list success_codes)
      × (¬ Member n (to_list neutral_codes))
  HasOutcome success_codes neutral_codes code failure =
      (n : ℤ)
      → StandsFor code n
      → (¬ Member n (to_list success_codes)) × (¬ Member n (to_list neutral_codes))

  not-Member : (n : ℤ) (s : Codes) → contains n s ≡ false → ¬ Member n (to_list s)
  not-Member n s e m = let there = (contains_iff n s).1 m in cc

  classified :
      (success_codes neutral_codes : Codes) (n : ℤ)
      → HasOutcome success_codes neutral_codes
          (int_code n)
          (map_exit_code_to_outcome set success_codes neutral_codes (int_code n))
  unfolding map_exit_code_to_outcome
  classified success_codes neutral_codes n = elim (Bool-cases (contains n neutral_codes)) [
    | inl e ↦ rw e (n, refl, (contains_iff n neutral_codes).0 e)
    | inr e ↦
        let other = not-Member n neutral_codes e in
        elim (Bool-cases (contains n success_codes)) [
          | inl g ↦ rw (e, g) (n, refl, (contains_iff n success_codes).0 g, other)
          | inr g ↦ rw (e, g) (λ k h. rw h (not-Member n success_codes g, other))
        ]
  ]

  -- Each exit code has the outcome that it is mapped to: neutral if its number is among the neutral
  -- codes, success if it is among the successful codes alone, and failure if it is in neither set or
  -- is a text. A missing code counts as 0.
  pub map_exit_code-HasOutcome :
      (success_codes neutral_codes : Codes) (code : ExitCode)
      → HasOutcome success_codes neutral_codes code
          (map_exit_code_to_outcome set success_codes neutral_codes code)
  unfolding map_exit_code_to_outcome
  map_exit_code-HasOutcome success_codes neutral_codes no_code =
      classified success_codes neutral_codes (pos 0)
  map_exit_code-HasOutcome success_codes neutral_codes (int_code n) =
      classified success_codes neutral_codes n
  map_exit_code-HasOutcome success_codes neutral_codes (text_code s) = λ n h. elim h [ ]

  -- The two sets of exit codes have no code in common.
  abbrev pub Disjoint : (success_codes neutral_codes : Codes) → Type 0
  Disjoint success_codes neutral_codes =
      (n : ℤ) → Member n (to_list success_codes) → ¬ Member n (to_list neutral_codes)

  overlap_in-nil :
      (neutral_codes : Codes) (codes : List ℤ)
      → (overlap_in set neutral_codes codes ≡ [])
        ↔ ((n : ℤ) → Member n codes → ¬ Member n (to_list neutral_codes))
  unfolding overlap_in
  overlap_in-nil neutral_codes [] = (λ e n m. absurd m, λ d. refl)
  overlap_in-nil neutral_codes (code ∷ codes) =
      let (sound, complete) = overlap_in-nil neutral_codes codes in
      elim (Bool-cases (contains code neutral_codes)) [
        | inl e ↦
            rw e (λ h. cc, λ d. absurd (d code (inl refl) ((contains_iff code neutral_codes).0 e)))
        | inr e ↦ rw e (
          λ h n m. elim m [
            | inl here ↦ rw here (not-Member code neutral_codes e)
            | inr there ↦ sound h n there
          ],
          λ d. complete (λ n m. d n (inr m)),
        )
      ]

  usage_iff :
      (found : List ℤ)
      → ((usage set found ≡ return tt) ↔ (found ≡ []))
        × ((usage set found ≡ return tt) ⊎ (usage set found ≡ raise overlap_error))
  usage_iff [] = ((λ h. refl, λ h. refl), inl refl)
  usage_iff (code ∷ codes) = ((λ h. cc, λ h. cc), inr refl)

  -- The validation passes exactly if the sets are disjoint, and else raises a usage error.
  pub validate-Disjoint :
      (success_codes neutral_codes : Codes)
      → ((validate_exit_code_sets set success_codes neutral_codes ≡ return tt)
          ↔ Disjoint success_codes neutral_codes)
        × ((validate_exit_code_sets set success_codes neutral_codes ≡ return tt)
            ⊎ (validate_exit_code_sets set success_codes neutral_codes ≡ raise overlap_error))
  unfolding validate_exit_code_sets
  validate-Disjoint success_codes neutral_codes =
      let (sound, complete) = overlap_in-nil neutral_codes (to_list success_codes) in
      let (passes, ends) = usage_iff (overlap_in set neutral_codes (to_list success_codes)) in
      ((λ h. sound (passes.0 h), λ d. passes.1 (complete d)), ends)
