-- ===== src/LastRunHistory/Failures.antt =====
-- The number of failures since the last success, of src/scheduling_util/_last_run_history.py.
use mathlib.Core.List.{reverse-cons, reverse-reverse}
use scheduling_util_py.Prelude.{ℕ, ◌+◌, ◌≡◌, refl, ap, List, [], ◌∷◌, ◌++◌, reverse, arith}
use scheduling_util_py.Outcome.{success, failure, neutral}
use scheduling_util_py.LastRunHistory.{
  Platform, Disk, LastRunHistory, LastRunHistoryEntry, started, finished, count_failures,
  refresh_from_file, n_failures_since_last_success,
}

-- A counter that runs forward over the history: a success sets it to 0, a failure adds 1, and
-- nothing else counts.
abbrev pub tally : ℕ → LastRunHistoryEntry → ℕ
tally n (started _) = n
tally n (finished a) = elim (a.outcome) [ success ↦ 0 | failure ↦ n + 1 | neutral ↦ n ]

abbrev pub tally_all : ℕ → List LastRunHistoryEntry → ℕ
tally_all n [] = n
tally_all n (e ∷ es) = tally_all (tally n e) es

tally_all-snoc :
    (n : ℕ) (es : List LastRunHistoryEntry) (e : LastRunHistoryEntry)
    → tally_all n (es ++ e ∷ []) ≡ tally (tally_all n es) e
tally_all-snoc n [] e = refl
tally_all-snoc n (x ∷ xs) e = tally_all-snoc (tally n x) xs e

tally_all-reverse :
    (e : LastRunHistoryEntry) (es : List LastRunHistoryEntry)
    → tally_all 0 (reverse (e ∷ es)) ≡ tally (tally_all 0 (reverse es)) e
tally_all-reverse e es = rw (reverse-cons e es) (tally_all-snoc 0 (reverse es) e)

count_failures-eq :
    (n : ℕ) (es : List LastRunHistoryEntry) → count_failures n es ≡ n + tally_all 0 (reverse es)
unfolding count_failures
count_failures-eq n [] = omega arith
count_failures-eq n (started a ∷ es) =
    rw (tally_all-reverse (started a) es) (count_failures-eq n es)
count_failures-eq n (finished a ∷ es) =
    rw (tally_all-reverse (finished a) es)
      (ground (arith, count_failures-eq n es, count_failures-eq (n + 1) es))

-- The backward loop that stops at the last success computes the forward counter of the refreshed
-- entries: the failures behind the last success, or all failures if there is none.
pub n_failures-tally :
    (platform : Platform) (h : LastRunHistory) (disk : Disk platform.Json)
    → let fresh = refresh_from_file platform h disk in
      n_failures_since_last_success platform h disk ≡ (fresh, tally_all 0 fresh.entries)
unfolding n_failures_since_last_success
n_failures-tally platform h disk =
    let fresh = refresh_from_file platform h disk in
    ap (λ n. (fresh, n)) (rw (count_failures-eq, reverse-reverse) (omega arith))
