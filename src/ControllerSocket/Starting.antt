-- ===== src/ControllerSocket/Starting.antt =====
-- Several processes that start and stop a `ScheduleControllerSocketServer`
-- (src/scheduling_util/_controller_socket.py) on one path, in the single calls of `start` and `stop`. A
-- server that accepts connections does so in time.
pub mod Race
use scheduling_util_py.Prelude.{
  return, raise, error, keyboard_interrupt, system_exit, no_code, int_code, text_code, ℕ, zero, suc,
  ◌+◌, ◌-◌, ◌*◌, ◌≤◌, ◌<◌, min, String, ◌≡◌, refl, sym, ap, ◌∙◌, ◌≢◌, ◌↔◌, ◌⊎◌, inl, inr, Bool,
  true, false, not, ◌&&◌, ◌||◌, Option, none, some, List, [], ◌∷◌, ◌++◌, map, reverse, arith, ltb,
  leb, ◌==◌, if◌then◌else◌, is_some, ltb→lt, Bool-cases, length, drop, All, length-append,
  length-drop, All-append, All-every, ExitCode, Exception, Result, Action, is_exception, pure,
  throw, and_then, ◌>>=◌, ◌>>◌, finally,
}
use scheduling_util_py.Prelude.Families.{
  update, sum_below, sum_below-update, sum_below-part, sum_below-zero, positive_part, update_here,
  update_other, at_update,
}

-- Whose socket is at the path, and which servers accept connections.
pub record Network : Type 0 where
  pub entry : Option ℕ
  pub listening : ℕ → Bool

-- Where a process stands: before `exists`, before the connection of
-- `socket_path_accepts_connections`, before `unlink`, `bind`, `chmod` and `listen`, between `start` and
-- `stop`, and in `stop` before its `unlink`.
pub data Stage : Type 0 where
  outside : Stage
  checking : Stage
  probing : Stage
  unlinking : Stage
  binding : Stage
  bound : Stage
  ready : Stage
  serving : Stage
  closing : Stage

abbrev pub set_entry : Option ℕ → Network → Network
set_entry e d = record d { entry = e }

abbrev pub set_listening : ℕ → Bool → Network → Network
set_listening i b d = record d { listening = update d.listening i b }

-- One call of process `i`. A process that dies leaves its socket at the path.
pub data Move (i : ℕ) (d : Network) : Stage → Network → Stage → Type 0 where
  call : Move i d outside d checking
  nothing_there : d.entry ≡ none → Move i d checking d binding
  socket_there : {k : ℕ} → d.entry ≡ some k → Move i d checking d probing
  accepted : {k : ℕ} → d.entry ≡ some k → d.listening k ≡ true → Move i d probing d outside
  refused : {k : ℕ} → d.entry ≡ some k → d.listening k ≡ false → Move i d probing d unlinking
  vanished : d.entry ≡ none → Move i d probing d unlinking
  unlink : {k : ℕ} → d.entry ≡ some k → Move i d unlinking (set_entry none d) binding
  unlink_fails : d.entry ≡ none → Move i d unlinking d outside
  bind : d.entry ≡ none → Move i d binding (set_entry (some i) d) bound
  bind_fails : {k : ℕ} → d.entry ≡ some k → Move i d binding d outside
  chmod : {k : ℕ} → d.entry ≡ some k → Move i d bound d ready
  chmod_fails : d.entry ≡ none → Move i d bound d outside
  listen : Move i d ready (set_listening i true d) serving
  close : Move i d serving (set_listening i false d) closing
  unlink_socket : Move i d closing (set_entry none d) outside
  die : {p : Stage} → Move i d p (set_listening i false d) outside

-- In `start` or in `stop`
abbrev pub busy : Stage → Bool
busy outside = false
busy serving = false
busy _ = true

pub record System : Type 0 where
  pub network : Network
  pub stages : ℕ → Stage

-- A call of one process. Where `overlap` is false, a process enters `start` or `stop` only while no
-- other is in one.
pub data Step (overlap : Bool) (s : System) : System → Type 0 where
  run :
      (i : ℕ) {p p' : Stage} {d : Network}
      → s.stages i ≡ p
      → Move i s.network p d p'
      → (overlap ≡ false
          → busy p ≡ false
          → busy p' ≡ true
          → (j : ℕ) → j ≢ i
          → busy (s.stages j) ≡ false)
      → Step overlap s (record { network = d; stages = update s.stages i p' })

pub data Steps (overlap : Bool) (s : System) : System → Type 0 where
  stay : Steps overlap s s
  step : {t u : System} → Steps overlap s t → Step overlap t u → Steps overlap s u

-- At first there is nothing at the path, or a socket that nobody serves.
abbrev pub start_system : Option ℕ → System
start_system e = record {
  network = record { entry = e; listening = λ i. false };
  stages = λ i. outside;
}
