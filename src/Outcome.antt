-- ===== src/Outcome.antt =====
-- src/scheduling_util/_types.py: the outcomes of a scheduled function.
use scheduling_util_py.Prelude.{Bool, true, false}

pub data Outcome : Type 0 where
  success failure neutral : Outcome

abbrev pub same_outcome : Outcome → Outcome → Bool
same_outcome success success = true
same_outcome failure failure = true
same_outcome neutral neutral = true
same_outcome _ _ = false
