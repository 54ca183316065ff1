-- ===== src/ClickOptions.antt =====
-- `create_click_csv_callback` of src/scheduling_util/_click_options.py: comma-separated values. A string
-- is the list of its characters; a set of the library ordered_set is the list of its elements.
pub mod Items
pub mod Declared
use scheduling_util_py.Prelude.{
  ℕ, Bool, true, false, List, [], ◌∷◌, ◌++◌, map, ◌==◌, if◌then◌else◌, Exception, error, Result,
  return, raise,
}

abbrev pub comma : ℕ
comma = b','

-- The value of a parameter: none, one string, a tuple of strings, or anything else.
pub data ParamValue : Type 0 where
  no_value : ParamValue
  one_text : List ℕ → ParamValue
  several_texts : List (List ℕ) → ParamValue
  other_value : ParamValue

-- `",".join(texts)`
pub join : List (List ℕ) → List ℕ
join [] = []
join (text ∷ []) = text
join (text ∷ more ∷ texts) = text ++ comma ∷ join (more ∷ texts)

abbrev pub push : ℕ → List (List ℕ) → List (List ℕ)
push c [] = (c ∷ []) ∷ []
push c (piece ∷ pieces) = (c ∷ piece) ∷ pieces

-- `text.split(",")`
pub split : List ℕ → List (List ℕ)
split [] = [] ∷ []
split (c ∷ cs) = let rest = split cs in if c == comma then [] ∷ rest else push c rest

-- `unique_strings.remove("")`, if it is there.
pub remove_empty : List (List ℕ) → List (List ℕ)
remove_empty [] = []
remove_empty ([] ∷ items) = remove_empty items
remove_empty ((c ∷ cs) ∷ items) = (c ∷ cs) ∷ remove_empty items

abbrev pub type_error : Exception
type_error = error "TypeError" "Expected a string"

-- `strip` is `str.strip`; `unique` and `unique_values` are the elements of `OrderedSet(…)`.
module _ {T : Type 0} (strip : List ℕ → List ℕ) (unique : List (List ℕ) → List (List ℕ))
    (unique_values : List T → List T) (value_callback : List ℕ → Result T) where
  abbrev cons_value : Result T → Result (List T) → Result (List T)
  cons_value (raise e) values = raise e
  cons_value (return v) (return values) = return (v ∷ values)
  cons_value (return v) (raise e) = raise e

  call_each : List (List ℕ) → Result (List T)
  call_each [] = return []
  call_each (item ∷ items) = cons_value (value_callback item) (call_each items)

  abbrev unique_result : Result (List T) → Result (List T)
  unique_result (return values) = return (unique_values values)
  unique_result (raise e) = raise e

  -- `unique_strings`, behind the removal of the empty one.
  pub unique_strings : List ℕ → List (List ℕ)
  unfolding split remove_empty
  unique_strings text = remove_empty (unique (map strip (split text)))

  abbrev call_callback : List ℕ → Result (List T)
  call_callback text = unique_result (call_each (unique_strings text))

  -- The callback with a `value_callback`.
  unfoldable pub param_callback : ParamValue → Result (List T)
  unfolding call_each unique_strings join
  param_callback no_value = return (unique_values [])
  param_callback (one_text text) = call_callback text
  param_callback (several_texts texts) = call_callback (join texts)
  param_callback other_value = raise type_error
