-- ===== src/LastRunHistory/Discard.antt =====
-- The discarding of old entries of src/scheduling_util/_last_run_history.py.
use scheduling_util_py.Prelude.{
  ℕ, zero, suc, ap, ◌+◌, ◌-◌, ◌≤◌, ◌≡◌, refl, sym, ◌∙◌, inl, inr, List, [], ◌∷◌, ◌++◌, length, drop,
  length-append, length-drop, ltb, Bool-cases, arith, min,
}
use scheduling_util_py.LastRunHistory.{
  LastRunHistory, LastRunHistoryEntry, discard_old, discard_old_entries,
}

-- The last `n` elements of a list.
abbrev pub keep_last : ℕ → List LastRunHistoryEntry → List LastRunHistoryEntry
keep_last n es = drop (length es - n) es

discard_old-eq : (n : ℕ) (es : List LastRunHistoryEntry) → discard_old n es ≡ keep_last n es
unfolding discard_old
discard_old-eq n [] = let h : 0 - n ≡ 0 = omega arith in rw h
discard_old-eq n (e ∷ es) = elim (Bool-cases (ltb n (suc (length es)))) [
  | inl more ↦
      let h : suc (length es) - n ≡ suc (length es - n) = ground arith in
      rw (more, h) (discard_old-eq n es)
  | inr fits ↦ let h : suc (length es) - n ≡ 0 = ground arith in rw (fits, h)
]

-- The loop that pops the oldest entries leaves the last `max_entries` of them, in their order.
pub discard_old_entries-eq :
    (h : LastRunHistory)
    → discard_old_entries h ≡ record h { entries = keep_last h.max_entries h.entries }
unfolding discard_old_entries
discard_old_entries-eq h = rw (discard_old-eq h.max_entries h.entries)

pub length-keep_last :
    (n : ℕ) (es : List LastRunHistoryEntry) → length (keep_last n es) ≡ min (length es) n
length-keep_last n es = omega (arith, length-drop (length es - n) es)

pub drop-append_le :
    (k : ℕ) (xs ys : List LastRunHistoryEntry) → k ≤ length xs → drop k (xs ++ ys) ≡ drop k xs ++ ys
drop-append_le zero xs ys h = refl
drop-append_le (suc k) [] ys h = absurd (omega arith)
drop-append_le (suc k) (x ∷ xs) ys h = drop-append_le k xs ys (omega arith)

drop-drop : (j k : ℕ) (xs : List LastRunHistoryEntry) → drop j (drop k xs) ≡ drop (k + j) xs
drop-drop j zero xs = let h : 0 + j ≡ j = omega arith in rw h
drop-drop zero (suc k) [] = let h : suc k + 0 ≡ suc k = omega arith in rw h
drop-drop (suc j) (suc k) [] = let h : suc k + suc j ≡ suc (k + suc j) = omega arith in rw h
drop-drop j (suc k) (x ∷ xs) =
    let h : suc k + j ≡ suc (k + j) = omega arith in rw h (drop-drop j k xs)

-- Discarding before entries are added makes no difference to what is kept in the end.
pub keep_last-append :
    (n : ℕ) (es added : List LastRunHistoryEntry)
    → keep_last n (keep_last n es ++ added) ≡ keep_last n (es ++ added)
keep_last-append n es added =
    let k = length es - n in
    let all = es ++ added in
    let joined : drop k es ++ added ≡ drop k all = sym (drop-append_le k es added (omega arith)) in
    let total : k + (length (drop k all) - n) ≡ length all - n =
      omega (arith, length-drop k all, length-append es added) in
    rw joined (drop-drop (length (drop k all) - n) k all ∙ ap (λ j. drop j all) total)
