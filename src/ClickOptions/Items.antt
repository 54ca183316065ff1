-- ===== src/ClickOptions/Items.antt =====
-- The items that the comma-separated texts of src/scheduling_util/_click_options.py have.
use mathlib.Core.List.{append-nil}
use scheduling_util_py.Prelude.{
  ℕ, ◌≡◌, refl, sym, ap, ◌∙◌, ◌≢◌, ◌↔◌, ◌⊎◌, inl, inr, Bool-cases, List, [], ◌∷◌, ◌++◌, map, ◌==◌,
  Result,
}
use scheduling_util_py.ClickOptions.{comma, join, push, split, remove_empty, unique_strings}

-- The pieces of all texts.
abbrev pub pieces : List (List ℕ) → List (List ℕ)
pieces [] = []
pieces (text ∷ texts) = split text ++ pieces texts

abbrev pub In : List ℕ → List (List ℕ) → Type 0
In x [] = ⊥
In x (y ∷ ys) = (x ≡ y) ⊎ In x ys

push-full : (c : ℕ) (ps : List (List ℕ)) → push c ps ≢ []
push-full c [] = λ e. cc
push-full c (p ∷ ps) = λ e. cc

split-full : (xs : List ℕ) → split xs ≢ []
unfolding split
split-full [] = λ e. cc
split-full (x ∷ xs) = elim (Bool-cases (x == comma)) [
  | inl e ↦ rw e (λ h. cc)
  | inr e ↦ rw e (push-full x (split xs))
]

push-append : (c : ℕ) (ps ys : List (List ℕ)) → ps ≢ [] → push c ps ++ ys ≡ push c (ps ++ ys)
push-append c [] ys h = absurd (h refl)
push-append c (p ∷ ps) ys h = refl

split-comma : (xs ys : List ℕ) → split (xs ++ comma ∷ ys) ≡ split xs ++ split ys
unfolding split
split-comma [] ys = refl
split-comma (x ∷ xs) ys = elim (Bool-cases (x == comma)) [
  | inl e ↦ rw e (ap (λ l. [] ∷ l) (split-comma xs ys))
  | inr e ↦
      rw e (
        ap (push x) (split-comma xs ys) ∙ sym (push-append x (split xs) (split ys) (split-full xs)))
]

-- The tuple of texts has the pieces of each, and the empty tuple one empty piece.
split-join :
    (text : List ℕ) (texts : List (List ℕ)) → split (join (text ∷ texts)) ≡ pieces (text ∷ texts)
unfolding join
split-join text [] = sym (append-nil (split text))
split-join text (more ∷ texts) =
    split-comma text (join (more ∷ texts)) ∙ ap (λ l. split text ++ l) (split-join more texts)

module _ (strip : List ℕ → List ℕ) where
  -- A piece that is stripped to this item.
  abbrev pub Stripped : List ℕ → List (List ℕ) → Type 0
  Stripped x ps = (piece : List ℕ) × (In piece ps × (x ≡ strip piece))

  In-map : (x : List ℕ) (ps : List (List ℕ)) → In x (map strip ps) ↔ Stripped x ps
  In-map x [] = (λ h. absurd h, λ (p, (h, e)). h)
  In-map x (p ∷ ps) =
      let (there, back) = In-map x ps in
      (
        λ h. elim h [
          | inl e ↦ (p, (inl refl, e))
          | inr k ↦ let (q, (i, e)) = there k in (q, (inr i, e))
        ],
        λ (q, (h, e)). elim h [
          | inl same ↦ inl (e ∙ ap strip same)
          | inr k ↦ inr (back (q, (k, e)))
        ],
      )

  In-remove_empty :
      (x : List ℕ) (xs : List (List ℕ)) → In x (remove_empty xs) ↔ ((x ≢ []) × In x xs)
  unfolding remove_empty
  In-remove_empty x [] = (λ h. absurd h, λ h. h.1)
  In-remove_empty x ([] ∷ xs) =
      let (there, back) = In-remove_empty x xs in
      (
        λ h. ((there h).0, inr (there h).1),
        λ (n, h). elim h [ inl e ↦ absurd (n e) | inr k ↦ back (n, k) ],
      )
  In-remove_empty x ((c ∷ cs) ∷ xs) =
      let (there, back) = In-remove_empty x xs in
      (
        λ h. elim h [ inl e ↦ (λ n. cc, inl e) | inr k ↦ ((there k).0, inr (there k).1) ],
        λ (n, h). elim h [ inl e ↦ inl e | inr k ↦ inr (back (n, k)) ],
      )

  items-In :
      (unique : List (List ℕ) → List (List ℕ)) (ps : List (List ℕ)) (x : List ℕ)
      → ((ys : List (List ℕ)) (y : List ℕ) → In y (unique ys) ↔ In y ys)
      → In x (remove_empty (unique (map strip ps))) ↔ ((x ≢ []) × Stripped x ps)
  items-In unique ps x same =
      let (kept, keep) = In-remove_empty x (unique (map strip ps)) in
      let (seen, see) = same (map strip ps) x in
      let (mapped, unmapped) = In-map x ps in
      (λ h. ((kept h).0, mapped (seen (kept h).1)), λ (n, s). keep (n, see (unmapped s)))

  -- With a set that has the elements that it is made of, and a `strip` that leaves the empty string:
  -- the items of a parameter are the stripped pieces between the commas of all its texts, without the
  -- empty ones.
  unique_strings-In :
      {T : Type 0} (unique : List (List ℕ) → List (List ℕ)) (unique_values : List T → List T)
      (value_callback : List ℕ → Result T) (texts : List (List ℕ)) (x : List ℕ)
      → ((ys : List (List ℕ)) (y : List ℕ) → In y (unique ys) ↔ In y ys)
      → strip [] ≡ []
      → In x (unique_strings strip unique unique_values value_callback (join texts))
        ↔ ((x ≢ []) × Stripped x (pieces texts))
  unfolding unique_strings join split
  unique_strings-In unique unique_values value_callback [] x same bare =
      (λ h. absurd (nothing ((items-In unique ([] ∷ []) x same).0 h)), λ (n, (q, (i, e))). absurd i)
    where
      nothing : ¬ ((x ≢ []) × Stripped x ([] ∷ []))
      nothing (n, (q, (i, e))) = elim i [ inl s ↦ n (e ∙ ap strip s ∙ bare) | inr k ↦ k ]
  unique_strings-In unique unique_values value_callback (text ∷ texts) x same bare =
      rw (split-join text texts) (items-In unique (pieces (text ∷ texts)) x same)
