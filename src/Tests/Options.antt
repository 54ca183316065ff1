-- ===== src/Tests/Options.antt =====
-- Runs of the parsing of comma-separated values.
use scheduling_util_py.Prelude.{ℕ, ◌≡◌, refl, List, [], ◌∷◌, Result, return, ◌==◌, if◌then◌else◌}
use scheduling_util_py.ClickOptions.{several_texts, param_callback}

-- A `strip` of one leading space, sets that keep all elements, and a callback that returns its text.
abbrev strip : List ℕ → List ℕ
strip [] = []
strip (c ∷ cs) = if c == b' ' then cs else c ∷ cs

abbrev all_strings : List (List ℕ) → List (List ℕ)
all_strings items = items

abbrev text_value : List ℕ → Result (List ℕ)
text_value text = return text

-- `("1, 2,", "3")`
abbrev given : List (List ℕ)
given = (b'1' ∷ b',' ∷ b' ' ∷ b'2' ∷ b',' ∷ []) ∷ (b'3' ∷ []) ∷ []

three_items :
    param_callback strip all_strings all_strings text_value (several_texts given)
    ≡ return ((b'1' ∷ []) ∷ (b'2' ∷ []) ∷ (b'3' ∷ []) ∷ [])
unfolding param_callback
three_items = refl

abbrev two : List ℕ
two = b'2' ∷ []
