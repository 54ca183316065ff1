-- ===== src/RollingWindowRateLimiter/Write/Triples.antt =====
-- The calls of `_write_timestamps_to_disk` in src/scheduling_util/_rate_limiter.py, by the phases
-- before and after each.
use mathlib.Core.Path.{subst}
use scheduling_util_py.Prelude.{
  return, raise, ℕ, ◌+◌, String, ◌≡◌, refl, sym, ◌≢◌, ◌⊎◌, inl, inr, Bool, true, false, Option,
  none, some, arith, Exception, Result, throw, finally,
}
use scheduling_util_py.Prelude.Ends.{Ends, and_then-Ends, finally-Ends}
use scheduling_util_py.RollingWindowRateLimiter.{StateText}
use scheduling_util_py.RollingWindowRateLimiter.Write.{
  Files, Calls, Writing, create_inode, set_content, sync_content, rename, sync_names, fill_temp,
  close_temp, unlink_temp, fill_and_replace, fsync_directory, change, call, unchanged, unlink_known,
  write_through, create_temp, write_to,
}
use scheduling_util_py.RollingWindowRateLimiter.Write.States.{set_name_here}
use scheduling_util_py.RollingWindowRateLimiter.Write.Phases.{
  Unreplaced, Filling, Flushed, Filled, Replaced, Done, Failed, Cleaned, Unreplaced-Failed,
  Replaced-Failed, created-Filling, rename-Replaced, remove-Cleaned, set-Filling, sync-Filled,
  sync-Done, Done-absent,
}

module _ {J : Type 0} (path temp : String) (old : Option (StateText J)) (text : StateText J)
    (begun : Files J) (apart : path ≢ temp) (c : Calls J) where
  open c use {
    posix, mkdir_end, create_end, write_end, flush_end, fsync_end, close_end, replace_end,
    open_directory_end, fsync_directory_end, close_directory_end, unlink_end, left_over,
  }

  call-Ends :
      (Q E : Writing J → Type 0) (o : Option Exception) (f : Files J → Files J) (w : Writing J)
      → Q (change f w)
      → E w
      → Ends Q E (call o f w)
  call-Ends Q E none f w q e = q
  call-Ends Q E (some x) f w q e = e

  call_known-Ends :
      (Q E : Writing J → Type 0) (o : Option Exception) (f : Files J → Files J) (w : Writing J)
      → Q (change f w)
      → ((x : Exception) → o ≡ some x → E w)
      → Ends Q E (call o f w)
  call_known-Ends Q E none f w q e = q
  call_known-Ends Q E (some x) f w q e = e x refl

  abbrev Fill : Writing J → Type 0
  Fill = Filling path temp old text begun

  abbrev Flush : Writing J → Type 0
  Flush = Flushed path temp old text begun

  abbrev Full : Writing J → Type 0
  Full = Filled path temp old text begun

  abbrev Old : Writing J → Type 0
  Old = Replaced path temp old text begun begun.next old

  abbrev New : Writing J → Type 0
  New = Done path temp old text begun posix

  abbrev Fail : Writing J → Type 0
  Fail = Failed path temp old text begun

  abbrev Clean : Writing J → Type 0
  Clean = Cleaned path temp old text begun unlink_end

  unchanged-Unreplaced :
      (n : ℕ) (e : Option ℕ) (w : Writing J)
      → Unreplaced path temp old text begun n e w
      → Unreplaced path temp old text begun n e (change unchanged w)
  unchanged-Unreplaced n e w h =
      (h.0, h.1, Unreplaced-Failed path temp old text begun n e w h, h.3, h.4)

  unchanged-Replaced :
      (n : ℕ) (saved : Option (StateText J)) (w : Writing J)
      → (saved ≡ old) ⊎ (saved ≡ some text)
      → Replaced path temp old text begun n saved w
      → Replaced path temp old text begun n saved (change unchanged w)
  unchanged-Replaced n saved w either h =
      (h.0, h.1, h.2, Replaced-Failed path temp old text begun n saved w either h, h.4, h.5)

  Fill-Fail : (w : Writing J) → Fill w → Fail w
  Fill-Fail = Unreplaced-Failed path temp old text begun (begun.next + 1) (some begun.next)

  fill_temp-Ends : (w : Writing J) → Fill w → Ends Full Fill (fill_temp c begun.next text w)
  fill_temp-Ends w h =
      and_then-Ends Flush Fill Full _ (λ _. call fsync_end (sync_content begun.next))
        (and_then-Ends Fill Fill Flush _ (λ _. call flush_end (set_content begun.next text))
          (call-Ends Fill Fill write_end unchanged w (unchanged-Unreplaced _ _ w h) h)
          λ _ v g.
            call-Ends Flush Fill flush_end _ v
              (set-Filling path temp old text begun text v g, ground arith) g)
        λ _ v g. call-Ends Full Fill fsync_end _ v (sync-Filled path temp old text begun v g) g.0

  close_temp-Ends :
      (r : Result (Unit {0}) × Writing J)
      → Ends Full Fill r
      → Ends Full Fail (close_temp c begun.next r.0 r.1)
  close_temp-Ends (return x, w) h =
      call-Ends Full Fail close_end unchanged w ((unchanged-Unreplaced _ _ w h.0.0, h.0.1), h.1)
        (Fill-Fail w h.0.0)
  close_temp-Ends (raise x, w) h =
      and_then-Ends Fill Fail Full _ (λ _. throw x)
        (call-Ends Fill Fail close_end _ w (set-Filling path temp old text begun left_over w h)
          (Fill-Fail w h))
        λ _ v g. Fill-Fail v g

  abbrev Synced : Writing J → Type 0
  Synced = Done path temp old text begun true

  Old-Fail : (w : Writing J) → Old w → Fail w
  Old-Fail w = Replaced-Failed path temp old text begun begun.next old w (inl refl)

  Synced-Fail : (w : Writing J) → Synced w → Fail w
  Synced-Fail w = Replaced-Failed path temp old text begun (begun.next + 1) (some text) w (inr refl)

  fsync_directory-Ends :
      (p : Bool) (w : Writing J)
      → Old w
      → Ends (Done path temp old text begun p) Fail (fsync_directory c p w)
  fsync_directory-Ends false w h = h
  fsync_directory-Ends true w h =
      and_then-Ends Old Fail Synced _
        (λ _. finally (call fsync_directory_end sync_names) (call close_directory_end unchanged))
        (call-Ends Old Fail open_directory_end unchanged w (unchanged-Replaced _ _ w (inl refl) h)
          (Old-Fail w h))
        λ _ v g.
          finally-Ends Synced Fail Synced Fail (call fsync_directory_end sync_names v)
            (call close_directory_end unchanged)
            (call-Ends Synced Fail fsync_directory_end sync_names v
              (sync-Done path temp old text begun v g) (Old-Fail v g))
            (λ u k.
              call-Ends Synced Fail close_directory_end unchanged u
                (unchanged-Replaced _ _ u (inr refl) k) (Synced-Fail u k))
            (λ u k. call-Ends Fail Fail close_directory_end unchanged u (k.0, k) k)

  fill_and_replace-Ends :
      (w : Writing J) → Fill w → Ends New Fail (fill_and_replace c begun.next path temp text w)
  unfolding fill_and_replace
  fill_and_replace-Ends w h =
      and_then-Ends Old Fail New _ (λ _. fsync_directory c posix)
        (and_then-Ends Full Fail Old _ (λ _. call replace_end (rename temp path))
          (close_temp-Ends _ (fill_temp-Ends w h))
          λ _ v g.
            call-Ends Old Fail replace_end _ v (rename-Replaced path temp old text begun apart v g)
              (Fill-Fail v g.0.0))
        λ _ v g. fsync_directory-Ends posix v g

  unlink_known-Ends :
      (e : Option ℕ) (w : Writing J)
      → w.files.names temp ≡ e
      → Fail w
      → Ends Clean Clean (unlink_known c e temp w)
  unlink_known-Ends none w e h = (h, λ _. e)
  unlink_known-Ends (some k) w e h =
      call_known-Ends Clean Clean unlink_end _ w
        (
          remove-Cleaned path temp old text begun apart w h,
          λ _. set_name_here temp none w.files.names,
        )
        λ x f. (h, λ e'. absurd (ground arith))

  unlink_temp-Ends : (w : Writing J) → Fail w → Ends Clean Clean (unlink_temp c temp w)
  unfolding unlink_temp
  unlink_temp-Ends w h = unlink_known-Ends (w.files.names temp) w refl h

  unlink_temp-New : (w : Writing J) → New w → Ends New Clean (unlink_temp c temp w)
  unfolding unlink_temp
  unlink_temp-New w h = rw (Done-absent path temp old text begun posix w h) h

  create_temp-Ends :
      (o : Option Exception) (w : Writing J)
      → Unreplaced path temp old text begun begun.next none w
      → Ends New Clean (create_temp c o path temp text w)
  create_temp-Ends (some e) w h =
      (Unreplaced-Failed path temp old text begun begun.next none w h, λ _. h.3)
  create_temp-Ends none w h =
      finally-Ends New Clean New Fail (write_through c path temp text w) (unlink_temp c temp)
        (subst
          (λ k. Ends New Fail (fill_and_replace c k path temp text (change (create_inode temp) w)))
          (sym h.4)
          (fill_and_replace-Ends (change (create_inode temp) w)
            (created-Filling path temp old text begun apart w h)))
        unlink_temp-New unlink_temp-Ends

  pub write_to-Ends :
      (w : Writing J)
      → Unreplaced path temp old text begun begun.next none w
      → Ends New Clean (write_to c (some path) temp text w)
  write_to-Ends w h =
      and_then-Ends (Unreplaced path temp old text begun begun.next none) Clean New _
        (λ _. create_temp c create_end path temp text)
        (call-Ends _ Clean mkdir_end unchanged w (unchanged-Unreplaced _ _ w h)
          (Unreplaced-Failed path temp old text begun begun.next none w h, λ _. h.3))
        λ _ v g. create_temp-Ends create_end v g
