-- ===== src/LockFile.antt =====
-- `exclusive_path_lock` of src/scheduling_util/_lock.py on a posix system: what a process does in
-- one step between the call and the end of the block, with the file that it locks.
use scheduling_util_py.Prelude.{
  ℕ, zero, suc, ◌+◌, ◌-◌, ◌*◌, ◌≤◌, ◌<◌, min, String, ◌≡◌, refl, sym, ap, ◌∙◌, ◌≢◌, ◌↔◌, ◌⊎◌, inl,
  inr, Bool, true, false, not, ◌&&◌, ◌||◌, Option, none, some, List, [], ◌∷◌, ◌++◌, map, reverse,
  arith, ltb, leb, ◌==◌, if◌then◌else◌, is_some, ltb→lt, Bool-cases, length, drop, All,
  length-append, length-drop, All-append, ExitCode, Exception, Result, Action, is_exception, pure,
  throw, and_then, ◌>>=◌, ◌>>◌, return, raise, error, keyboard_interrupt, system_exit, no_code,
  int_code, text_code, All-every,
}
use scheduling_util_py.Prelude.Families.{
  update, sum_below, sum_below-update, sum_below-part, sum_below-zero, positive_part, update_here,
  update_other, at_update,
}
pub mod Exclusion

-- The file at the path, by its inode, which a removal of the path takes away; who has the `flock`
-- of an inode; the time of the last modification of an inode; and the inode of the next file.
pub record Disk : Type 0 where
  pub entry : Option ℕ
  pub holder : ℕ → Option ℕ
  pub mtime : ℕ → ℕ
  pub next : ℕ

-- Where a call stands, with its local `fd` (its inode) and `created`.
pub data Stage : Type 0 where
  outside : Stage  -- no call, or one that has returned or raised
  creating : Stage  -- before `os.open` with `O_EXCL`
  opening : Stage  -- after `FileExistsError`, before the second `os.open`
  opened : (fd : ℕ) (created : Bool) → Stage  -- before `flock`
  locked : (fd : ℕ) (created : Bool) → Stage  -- before `if created`
  in_block : (fd : ℕ) → Stage

abbrev pub set_mtime : ℕ → ℕ → Disk → Disk
set_mtime k t d = record d { mtime = update d.mtime k t }

abbrev pub set_holder : ℕ → Option ℕ → Disk → Disk
set_holder k i d = record d { holder = update d.holder k i }

-- `os.open` with `O_CREAT | O_EXCL`, where there is no file
abbrev pub create_file : ℕ → Disk → Disk
create_file now d = record d {
  entry = some d.next;
  mtime = update d.mtime d.next now;
  next = d.next + 1;
}

-- One step of a call by process `i`. A touch of a path that was removed, which would create a file, is
-- left out.
pub data Move (i : ℕ) (d : Disk) : Stage → Disk → Stage → Type 0 where
  call : Move i d outside d creating
  create : (now : ℕ) → d.entry ≡ none → Move i d creating (create_file now d) (opened d.next true)
  exists : {k : ℕ} → d.entry ≡ some k → Move i d creating d opening
  open_existing : {k : ℕ} → d.entry ≡ some k → Move i d opening d (opened k false)
  retry : d.entry ≡ none → Move i d opening d creating
  flock :
      {k : ℕ} {created : Bool}
      → d.holder k ≡ none
      → Move i d (opened k created) (set_holder k (some i) d) (locked k created)
  keep_time : {k : ℕ} → Move i d (locked k false) d (in_block k)
  reset_time :
      {k e : ℕ} → d.entry ≡ some e → Move i d (locked k true) (set_mtime e 0 d) (in_block k)
  reset_fails : {k : ℕ} → d.entry ≡ none → Move i d (locked k true) (set_holder k none d) outside
  touch :
      {k e : ℕ} (now : ℕ)
      → d.entry ≡ some e
      → Move i d (in_block k) (set_mtime e now d) (in_block k)
  unlock : {k : ℕ} → Move i d (in_block k) (set_holder k none d) outside

pub record System : Type 0 where
  pub disk : Disk
  pub stages : ℕ → Stage

-- A step of a process, or the removal of the path where `removal` allows it.
pub data Step (removal : Bool) (s : System) : System → Type 0 where
  run :
      (i : ℕ) {p p' : Stage} {d : Disk}
      → s.stages i ≡ p
      → Move i s.disk p d p'
      → Step removal s (record { disk = d; stages = update s.stages i p' })
  remove : removal ≡ true → Step removal s (record s { disk = record s.disk { entry = none } })

pub data Steps (removal : Bool) (s : System) : System → Type 0 where
  stay : Steps removal s s
  step : {t u : System} → Steps removal s t → Step removal t u → Steps removal s u

abbrev pub start : System
start = record {
  disk = record { entry = none; holder = λ _. none; mtime = λ _. 0; next = 0 };
  stages = λ _. outside;
}

abbrev pub Reach : Bool → System → Type 0
Reach removal s = Steps removal start s
