-- ===== src/UnderLock.antt =====
-- Operations that several processes make on one file, each on an object of its own: take the lock,
-- refresh the object from the file, write, give the lock up. So `LastRunHistory.append` works under
-- `LastRunHistory.lock` in src/scheduling_util/_last_run_history.py.
pub mod Order
use scheduling_util_py.Prelude.{
  return, raise, error, keyboard_interrupt, system_exit, no_code, int_code, text_code, ℕ, zero, suc,
  ◌+◌, ◌-◌, ◌*◌, ◌≤◌, ◌<◌, min, String, ◌≡◌, refl, sym, ap, ◌∙◌, ◌≢◌, ◌↔◌, ◌⊎◌, inl, inr, Bool,
  true, false, not, ◌&&◌, ◌||◌, Option, none, some, List, [], ◌∷◌, ◌++◌, map, reverse, arith, ltb,
  leb, ◌==◌, if◌then◌else◌, is_some, ltb→lt, Bool-cases, length, drop, All, length-append,
  length-drop, All-append, All-every, ExitCode, Exception, Result, Action, is_exception, pure,
  throw, and_then, ◌>>=◌, ◌>>◌,
}
use scheduling_util_py.Prelude.Families.{
  update, sum_below, sum_below-update, sum_below-part, sum_below-zero, positive_part, at_update,
}

-- Where a process stands with an operation `E` on its object `O`; `before` is that object from before
-- the refresh.
pub data Stage (O E : Type 0) : Type 0 where
  idle : Stage O E
  waiting : E → Stage O E
  locked : E → Stage O E
  refreshed : (before : O) → E → Stage O E
  leaving : Stage O E

-- `log` has the writes so far, in their order.
pub record System (D O E : Type 0) : Type 0 where
  pub disk : D
  pub objects : ℕ → O
  pub holder : Option ℕ
  pub stages : ℕ → Stage O E
  pub log : List (O × E)

module _ {D O E : Type 0} (refresh : O → D → O) (commit : E → O → D → O × D) where
  -- The whole operation.
  abbrev pub operation : E → O → D → O × D
  operation e o d = commit e (refresh o d) d

  abbrev pub set_stage : ℕ → Stage O E → System D O E → System D O E
  set_stage i p s = record s { stages = update s.stages i p }

  abbrev pub read_file : ℕ → System D O E → System D O E
  read_file i s = record s { objects = update s.objects i (refresh (s.objects i) s.disk) }

  abbrev pub write_file : ℕ → O → E → System D O E → System D O E
  write_file i before e s =
      let (o, d) = commit e (s.objects i) s.disk in
      record s { disk = d; objects = update s.objects i o; log = s.log ++ (before, e) ∷ [] }

  -- One step of process `i`.
  pub data Step (s : System D O E) : System D O E → Type 0 where
    call : (i : ℕ) (e : E) → s.stages i ≡ idle → Step s (set_stage i (waiting e) s)
    lock :
        (i : ℕ) (e : E)
        → s.stages i ≡ waiting e
        → s.holder ≡ none
        → Step s (set_stage i (locked e) (record s { holder = some i }))
    read :
        (i : ℕ) (e : E)
        → s.stages i ≡ locked e
        → Step s (set_stage i (refreshed (s.objects i) e) (read_file i s))
    write :
        (i : ℕ) (before : O) (e : E)
        → s.stages i ≡ refreshed before e
        → Step s (set_stage i leaving (write_file i before e s))
    unlock : (i : ℕ) → s.stages i ≡ leaving → Step s (set_stage i idle (record s { holder = none }))

  abbrev pub start : D → (ℕ → O) → System D O E
  start d objects = record {
    disk = d;
    objects = objects;
    holder = none;
    stages = λ _. idle;
    log = [];
  }

  pub data Reach (d : D) (objects : ℕ → O) : System D O E → Type 0 where
    begin : Reach d objects (start d objects)
    next : {s t : System D O E} → Reach d objects s → Step s t → Reach d objects t

  -- The operations, each as a whole and one after another.
  abbrev pub in_turn : List (O × E) → D → D
  in_turn [] d = d
  in_turn ((o, e) ∷ ops) d = in_turn ops (operation e o d).1
