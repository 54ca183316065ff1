-- ===== src/Tests/Writes.antt =====
-- Writes of the state file of a rolling window, with calls that succeed and calls that raise.
use text.Mathlib.TextEquality.{eq_iff}
use scheduling_util_py.Prelude.{
  return, raise, error, ℕ, ◌<◌, String, ◌≡◌, refl, ◌≢◌, true, false, Option, none, some, [], ◌∷◌,
  arith, All, Exception, Result,
}
use scheduling_util_py.Prelude.Int.{ℤ, pos}
use scheduling_util_py.RollingWindowRateLimiter.{
  TimestampCodec, StateText, RollingWindowRateLimiter, write_timestamps, no_json, json_list,
}
use scheduling_util_py.RollingWindowRateLimiter.Write.{
  Files, Calls, Writing, set_name, read_path, survivor, write_timestamps_to_disk,
}
use scheduling_util_py.RollingWindowRateLimiter.Write.States.{Settled, Shown}
use scheduling_util_py.RollingWindowRateLimiter.Write.Crash.{
  state_of, write_timestamps_to_disk-Shown, write_timestamps_to_disk_lem, Succeeds,
}

abbrev texts : TimestampCodec
texts = record {
  Json = Option ℤ;
  read_item = λ j. j;
  write_item = λ t. some t;
  read-write = λ t. refl;
}

abbrev three_mails : RollingWindowRateLimiter
three_mails = record {
  max_events = 3;
  window = pos 10;
  path = some "mail.json";
  timestamps = pos 1 ∷ pos 2 ∷ [];
}

abbrev mail_name : String → Option ℕ
mail_name = set_name "mail.json" (some 0) (λ p. none)

-- The file is there, with one time, and saved.
abbrev old_state : StateText (Option ℤ)
old_state = json_list (some (pos 1) ∷ [])

abbrev one_mail : Files (Option ℤ)
one_mail = record {
  names = mail_name;
  saved_names = mail_name;
  content = λ k. old_state;
  saved_content = λ k. some old_state;
  next = 1;
}

abbrev fine : Calls (Option ℤ)
fine = record {
  posix = true;
  mkdir_end = none;
  create_end = none;
  write_end = none;
  flush_end = none;
  fsync_end = none;
  close_end = none;
  replace_end = none;
  open_directory_end = none;
  fsync_directory_end = none;
  close_directory_end = none;
  unlink_end = none;
  left_over = no_json;
}

abbrev full_disk : Exception
full_disk = error "OSError" "No space left on device"

abbrev fails : Calls (Option ℤ)
fails = record fine { flush_end = some full_disk }

abbrev write_by : Calls (Option ℤ) → Result (Unit {0}) × Writing (Option ℤ)
write_by c =
    write_timestamps_to_disk texts c ".mail.json.x.tmp" three_mails
      (record { files = one_mail; past = [] })

new_state_shown :
    ((write_by fine).0 ≡ return tt)
    × (read_path (write_by fine).1.files "mail.json" ≡ some (state_of texts three_mails))
    × (survivor false no_json (write_by fine).1.files "mail.json"
        ≡ some (state_of texts three_mails))
unfolding write_timestamps_to_disk
new_state_shown = (refl, refl, refl)

old_state_shown :
    ((write_by fails).0 ≡ raise full_disk)
    × (read_path (write_by fails).1.files "mail.json" ≡ some old_state)
    × (read_path (write_by fails).1.files ".mail.json.x.tmp" ≡ none)
unfolding write_timestamps_to_disk
old_state_shown = (refl, refl, refl)

mail-Settled : Settled 1 "mail.json" (some old_state) one_mail
mail-Settled = ((refl, refl, ground arith), (refl, refl, ground arith))

other_name : ◌≢◌ {A = String} "mail.json" ".mail.json.x.tmp"
other_name = ground (arith, eq_iff "mail.json" ".mail.json.x.tmp")

write_timestamps_to_disk-Shown_example :
    let (result, w) = write_by fails in
    let new = some (state_of texts three_mails) in
    All (Shown "mail.json" (some old_state) new) (w.files ∷ w.past)
    × (fails.unlink_end ≡ none → w.files.names ".mail.json.x.tmp" ≡ none)
    × (result ≡ return tt → fails.posix ≡ true → Settled w.files.next "mail.json" new w.files)
write_timestamps_to_disk-Shown_example =
    write_timestamps_to_disk-Shown texts fails three_mails "mail.json" ".mail.json.x.tmp"
      (some old_state) one_mail refl other_name refl mail-Settled

names_below : (p : String) (k : ℕ) → one_mail.names p ≡ some k → k < 1
names_below p k e = ground arith

fine-Succeeds : Succeeds fine
fine-Succeeds = (refl, refl, refl, refl, refl, refl, refl, refl, refl, refl, refl)

write_timestamps_to_disk_lem_example :
    let (result, w) = write_by fine in
    (result ≡ return tt)
    × ((p : String)
        → read_path w.files p ≡ write_timestamps texts three_mails (read_path one_mail) p)
write_timestamps_to_disk_lem_example =
    write_timestamps_to_disk_lem texts fine three_mails "mail.json" ".mail.json.x.tmp"
      (some old_state) one_mail refl other_name refl mail-Settled names_below fine-Succeeds
