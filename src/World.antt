-- ===== src/World.antt =====
-- The state that an attempt works on: the history object of `LastRun`
-- (src/scheduling_util/_last_run.py), the disk, the run predicate's forced value, and the calls that
-- went out to the `HealthCheck` of the library hcio_client, the latest first.
use scheduling_util_py.Prelude.{
  Bool, Option, none, some, List, ◌∷◌, Exception, Result, return, raise, Action,
}
use scheduling_util_py.Prelude.Int.{ℤ}
use scheduling_util_py.LastRunHistory.{
  Platform, Disk, LastRunHistory, LastRunHistoryEntry, LastRunAttemptFinished, append,
}

-- The messages of the run predicate; the first quotes the JSON of the last failure.
pub data Message : Type 0 where
  stalled_message : (max_failures : ℤ) → LastRunAttemptFinished → Message
  unexpected_message : Message

-- The calls of a check: its pings, and the entry and the exit of its `with` block.
pub data CheckCall : Type 0 where
  ping_success ping_failure : CheckCall
  ping_log : Message → CheckCall
  enter_check : CheckCall
  exit_check : (raised : Bool) → CheckCall

-- How the client answers a call, after all calls before it: it returns, or it raises.
abbrev pub CheckClient : Type 0
CheckClient = List CheckCall → Option Exception

module _ (platform : Platform) where
  open platform use {Json}

  pub record World : Type 0 where
    pub history : LastRunHistory
    pub disk : Disk Json
    pub forced : Option Bool
    pub calls : List CheckCall

  abbrev answer : Option Exception → Result (Unit {0})
  answer none = return tt
  answer (some e) = raise e

  abbrev pub call_check : CheckClient → CheckCall → Action World (Unit {0})
  call_check client call w =
      let sent = record w { calls = call ∷ w.calls } in (answer (client sent.calls), sent)

  -- An operation of the history object that reads the file.
  abbrev pub ask_history :
      {A : Type 0} → (LastRunHistory → Disk Json → LastRunHistory × Result A) → Action World A
  ask_history operation w =
      let (h, result) = operation w.history w.disk in (result, record w { history = h })

  abbrev pub append_history : LastRunHistoryEntry → Action World (Unit {0})
  append_history e w =
      let (h, disk) = append platform e w.history w.disk in
      (return tt, record w { history = h; disk = disk })
