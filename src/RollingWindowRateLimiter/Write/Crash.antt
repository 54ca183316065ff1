-- ===== src/RollingWindowRateLimiter/Write/Crash.antt =====
-- What the state file of a `RollingWindowRateLimiter` (src/scheduling_util/_rate_limiter.py) holds
-- while it is written, after an exception and after a loss of power.
use mathlib.Core.Path.{subst}
use scheduling_util_py.Prelude.{
  return, ℕ, ◌<◌, String, ◌≡◌, refl, ◌∙◌, ◌≢◌, true, Option, none, some, [], ◌∷◌, map, arith, All,
  Result, Bool, false, Exception, Action, finally,
}
use scheduling_util_py.Prelude.Ends.{Ends, Ends_any, Ends_returned}
use scheduling_util_py.RollingWindowRateLimiter.{
  TimestampCodec, StateText, RollingWindowRateLimiter, write_timestamps, json_list,
}
use scheduling_util_py.RollingWindowRateLimiter.Write.{
  Files, Calls, Writing, read_path, write_timestamps_to_disk, fsync_parent_directory, unlink_known,
  unlink_temp, fill_and_replace, write_through, create_temp, write_to, change, unchanged,
}
use scheduling_util_py.RollingWindowRateLimiter.Write.States.{Settled, Shown}
use scheduling_util_py.RollingWindowRateLimiter.Write.Phases.{
  Done, Cleaned, Done-Failed, Done-absent, Done-read,
}
use scheduling_util_py.RollingWindowRateLimiter.Write.Triples.{write_to-Ends}

-- What `l` would write.
abbrev pub state_of :
    (codec : TimestampCodec) → RollingWindowRateLimiter → StateText (TimestampCodec.Json codec)
state_of codec l = json_list (map (TimestampCodec.write_item codec) l.timestamps)

module _ (codec : TimestampCodec) (c : Calls (TimestampCodec.Json codec))
    (l : RollingWindowRateLimiter) (path temp : String)
    (old : Option (StateText (TimestampCodec.Json codec)))
    (files : Files (TimestampCodec.Json codec)) (kept : l.path ≡ some path) (apart : path ≢ temp)
    (fresh : files.names temp ≡ none) (settled : Settled files.next path old files) where
  abbrev after : Result (Unit {0}) × Writing (TimestampCodec.Json codec)
  after = write_timestamps_to_disk codec c temp l (record { files = files; past = [] })

  write-Ends :
      Ends
        (Done path temp old (state_of codec l) files c.posix)
        (Cleaned path temp old (state_of codec l) files c.unlink_end)
        after
  unfolding write_timestamps_to_disk
  write-Ends = rw kept (
      write_to-Ends path temp old (state_of codec l) files apart c
        (record { files = files; past = [] })
        (settled, ((λ q n m. refl), (λ k lt. refl)), tt, fresh, refl))

  Shown-All : All (Shown path old (some (state_of codec l))) (after.1.files ∷ after.1.past)
  Shown-All =
      Ends_any (Done path temp old (state_of codec l) files c.posix)
        (Cleaned path temp old (state_of codec l) files c.unlink_end)
        (λ w. All (Shown path old (some (state_of codec l))) (w.files ∷ w.past)) after write-Ends
        (Done-Failed path temp old (state_of codec l) files c.posix) λ w h. h.0

  temp_absent : c.unlink_end ≡ none → after.1.files.names temp ≡ none
  temp_absent =
      Ends_any (Done path temp old (state_of codec l) files c.posix)
        (Cleaned path temp old (state_of codec l) files c.unlink_end)
        (λ w. c.unlink_end ≡ none → w.files.names temp ≡ none) after write-Ends
        (λ w h _. Done-absent path temp old (state_of codec l) files c.posix w h) λ w h. h.1

  returned-Done : after.0 ≡ return tt → Done path temp old (state_of codec l) files c.posix after.1
  returned-Done = Ends_returned _ _ after tt write-Ends

  returned-Settled :
      after.0 ≡ return tt
      → c.posix ≡ true
      → Settled after.1.files.next path (some (state_of codec l)) after.1.files
  returned-Settled e p =
      let h =
        subst (λ b. Done path temp old (state_of codec l) files b after.1) p (returned-Done e) in
      (rw h.5 h.0, rw h.5 h.1)

-- While `_write_timestamps_to_disk` writes to a path that stood for `old` and was saved, by a temporary
-- name that differs and is not taken, each state of the file system, to the last, shows `old` or the
-- new content at the path, to a process and after a loss of power, whichever call raises. In the end
-- the temporary name is gone unless the unlink of it raises, and if the write returns, on posix, the
-- new content is saved.
pub write_timestamps_to_disk-Shown :
    (codec : TimestampCodec) (c : Calls (TimestampCodec.Json codec)) (l : RollingWindowRateLimiter)
    (path temp : String) (old : Option (StateText (TimestampCodec.Json codec)))
    (files : Files (TimestampCodec.Json codec))
    → l.path ≡ some path
    → path ≢ temp
    → files.names temp ≡ none
    → Settled files.next path old files
    → let (result, w) =
        write_timestamps_to_disk codec c temp l (record { files = files; past = [] }) in
      let new = some (state_of codec l) in
      All (Shown path old new) (w.files ∷ w.past)
      × (c.unlink_end ≡ none → w.files.names temp ≡ none)
      × (result ≡ return tt → c.posix ≡ true → Settled w.files.next path new w.files)
write_timestamps_to_disk-Shown codec c l path temp old files kept apart fresh settled = (
  Shown-All codec c l path temp old files kept apart fresh settled,
  temp_absent codec c l path temp old files kept apart fresh settled,
  returned-Settled codec c l path temp old files kept apart fresh settled,
)

-- No call raises.
abbrev pub Succeeds : {J : Type 0} → Calls J → Type 0
Succeeds c =
    (c.mkdir_end ≡ none)
    × (c.create_end ≡ none)
    × (c.write_end ≡ none)
    × (c.flush_end ≡ none)
    × (c.fsync_end ≡ none)
    × (c.close_end ≡ none)
    × (c.replace_end ≡ none)
    × (c.open_directory_end ≡ none)
    × (c.fsync_directory_end ≡ none)
    × (c.close_directory_end ≡ none)
    × (c.unlink_end ≡ none)

unlink_known-returns :
    {J : Type 0} (c : Calls J) (entry : Option ℕ) (temp : String) (w : Writing J)
    → c.unlink_end ≡ none
    → (unlink_known c entry temp w).0 ≡ return tt
unlink_known-returns c none temp w e = refl
unlink_known-returns c (some k) temp w e = rw e refl

finally-returns :
    {S : Type 0} (m block_end : Action S (Unit {0})) (s : S)
    → (m s).0 ≡ return tt
    → ((t : S) → (block_end t).0 ≡ return tt)
    → (finally m block_end s).0 ≡ return tt
finally-returns m block_end s e ends = rw (ends (m s).1, e) refl

fill_and_replace-returns :
    {J : Type 0} (c : Calls J) (posix : Bool) (k : ℕ) (path temp : String) (text : StateText J)
    (w : Writing J)
    → c.posix ≡ posix
    → Succeeds c
    → (fill_and_replace c k path temp text w).0 ≡ return tt
unfolding fill_and_replace fsync_parent_directory
fill_and_replace-returns c true k path temp text w p e =
    rw (p, e.2, e.3, e.4, e.5, e.6, e.7, e.8, e.9) refl
fill_and_replace-returns c false k path temp text w p e = rw (p, e.2, e.3, e.4, e.5, e.6) refl

create_temp-returns :
    {J : Type 0} (c : Calls J) (create_end : Option Exception) (path temp : String)
    (text : StateText J) (w : Writing J)
    → create_end ≡ none
    → Succeeds c
    → (create_temp c create_end path temp text w).0 ≡ return tt
unfolding unlink_temp
create_temp-returns c none path temp text w created e =
    finally-returns (write_through c path temp text) (unlink_temp c temp) w
      (fill_and_replace-returns c c.posix w.files.next path temp text _ refl e)
      λ t. unlink_known-returns c (t.files.names temp) temp t e.10
create_temp-returns c (some x) path temp text w created e = absurd (ground arith)

write_to-returns :
    {J : Type 0} (c : Calls J) (path temp : String) (text : StateText J) (w : Writing J)
    → Succeeds c
    → (write_to c (some path) temp text w).0 ≡ return tt
write_to-returns c path temp text w e =
    simp e.0 (create_temp-returns c c.create_end path temp text (change unchanged w) e.1 e)

-- If no call raises, `_write_timestamps_to_disk` returns, and then a process reads under every path
-- what `write_timestamps`, the write in one step, puts there: the new content at the path of the
-- limiter, which stood for `old`, and elsewhere what was there. The temporary name is another and not
-- taken, the path was saved, and no entry has the inode of a later file.
pub write_timestamps_to_disk_lem :
    (codec : TimestampCodec) (c : Calls (TimestampCodec.Json codec)) (l : RollingWindowRateLimiter)
    (path temp : String) (old : Option (StateText (TimestampCodec.Json codec)))
    (files : Files (TimestampCodec.Json codec))
    → l.path ≡ some path
    → path ≢ temp
    → files.names temp ≡ none
    → Settled files.next path old files
    → ((p : String) (k : ℕ) → files.names p ≡ some k → k < files.next)
    → Succeeds c
    → let (result, w) =
        write_timestamps_to_disk codec c temp l (record { files = files; past = [] }) in
      (result ≡ return tt)
      × ((p : String) → read_path w.files p ≡ write_timestamps codec l (read_path files) p)
unfolding write_timestamps write_timestamps_to_disk
write_timestamps_to_disk_lem codec c l path temp old files kept apart fresh settled bound succeeds =
    let returned : (after codec c l path temp old files kept apart fresh settled).0 ≡ return tt =
      rw kept (write_to-returns c path temp (state_of codec l) _ succeeds) in
    (
      returned,
      λ p.
          Done-read path temp old (state_of codec l) files c.posix _
            (returned-Done codec c l path temp old files kept apart fresh settled returned) fresh
            bound p
          ∙ ground (arith, kept),
    )
