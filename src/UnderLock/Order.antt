-- ===== src/UnderLock/Order.antt =====
-- Operations under a lock take effect in the order of their writes
-- (src/scheduling_util/_last_run_history.py).
use mathlib.Core.Path.{subst}
use scheduling_util_py.Prelude.Families.{update, at_update, update_here, update_other}
use scheduling_util_py.Prelude.{
  ℕ, ◌≡◌, refl, Option, some, List, [], ◌∷◌, ◌++◌, All, sym, ap, ◌∙◌, ◌≢◌, none, arith, All-append,
}
use scheduling_util_py.UnderLock.{
  Stage, idle, waiting, locked, refreshed, leaving, System, operation, start, in_turn, Step, Reach,
  call, lock, read, write, unlock, begin, next,
}

-- `P` holds of every object and is kept by both halves of an operation.
module _ {D O E : Type 0} (refresh : O → D → O) (commit : E → O → D → O × D) (P : O → Type 0)
    (refresh-P : (o : O) (d : D) → P o → P (refresh o d))
    (commit-P : (e : E) (o : O) (d : D) → P o → P (commit e o d).0) where
  in_turn-append :
      (ops : List (O × E)) (o : O) (e : E) (d : D)
      → in_turn refresh commit (ops ++ (o, e) ∷ []) d
        ≡ (operation refresh commit e o (in_turn refresh commit ops d)).1
  in_turn-append [] o e d = refl
  in_turn-append ((o', e') ∷ ops) o e d =
      in_turn-append ops o e (operation refresh commit e' o' d).1

  -- What a process relies on at its stage.
  abbrev Relies : D → ℕ → Option ℕ → O → Stage O E → Type 0
  Relies d i holder o idle = Unit
  Relies d i holder o (waiting e) = Unit
  Relies d i holder o (locked e) = holder ≡ some i
  Relies d i holder o (refreshed before e) = (holder ≡ some i) × (o ≡ refresh before d) × P before
  Relies d i holder o leaving = holder ≡ some i

  record Serial (d : D) (s : System D O E) : Type 0 where
    relies : (i : ℕ) → Relies s.disk i s.holder (s.objects i) (s.stages i)
    fit : (i : ℕ) → P (s.objects i)
    same : s.disk ≡ in_turn refresh commit s.log d
    logged : All (λ op. P op.0) s.log

  start-Serial :
      (d : D) (objects : ℕ → O)
      → ((i : ℕ) → P (objects i))
      → Serial d (start refresh commit d objects)
  start-Serial d objects fit = record { relies = λ i. tt; fit = fit; same = refl; logged = tt }

  keep-Relies :
      (d d' : D) (j : ℕ) (holder holder' : Option ℕ) (o o' : O)
      → (holder ≡ some j → (d' ≡ d) × (holder' ≡ some j))
      → o' ≡ o
      → (q : Stage O E) → Relies d j holder o q
      → Relies d' j holder' o' q
  keep-Relies d d' j holder holder' o o' kept same idle r = tt
  keep-Relies d d' j holder holder' o o' kept same (waiting e) r = tt
  keep-Relies d d' j holder holder' o o' kept same (locked e) r = (kept r).1
  keep-Relies d d' j holder holder' o o' kept same (refreshed before e) (mine, fresh, fit) =
      ((kept mine).1, same ∙ fresh ∙ ap (refresh before) (sym (kept mine).0), fit)
  keep-Relies d d' j holder holder' o o' kept same leaving r = (kept r).1

  module _ (d : D) {s : System D O E} (inv : Serial d s) (i : ℕ) where
    open inv use {relies, fit, same, logged}

    at_stage : (p : Stage O E) → s.stages i ≡ p → Relies s.disk i s.holder (s.objects i) p
    at_stage p e = subst (Relies s.disk i s.holder (s.objects i)) e (relies i)

    -- The others go on as before when their objects stay, and a holder among them keeps all.
    others :
        (p : Stage O E) (d' : D) (holder' : Option ℕ) (objects' : ℕ → O)
        → Relies d' i holder' (objects' i) p
        → ((j : ℕ) → j ≢ i → objects' j ≡ s.objects j)
        → ((j : ℕ) → j ≢ i → s.holder ≡ some j → (d' ≡ s.disk) × (holder' ≡ some j))
        → (j : ℕ) → Relies d' j holder' (objects' j) (update s.stages i p j)
    others p d' holder' objects' own stay kept =
        at_update (λ j q. Relies d' j holder' (objects' j) q) s.stages i p own
          (λ j ne.
            keep-Relies s.disk d' j s.holder holder' (s.objects j) (objects' j) (kept j ne)
              (stay j ne) (s.stages j) (relies j))

    fit_after : (o : O) → P o → (j : ℕ) → P (update s.objects i o j)
    fit_after o own = at_update (λ j x. P x) s.objects i o own (λ j ne. fit j)

    elsewhere : s.holder ≡ some i → (j : ℕ) → j ≢ i → ¬ (s.holder ≡ some j)
    elsewhere mine j ne its = ground (arith, mine, its)

  Step-Serial : (d : D) {s t : System D O E} → Step refresh commit s t → Serial d s → Serial d t
  Step-Serial d {s} (call i e at) inv = record {
    relies =
        others d inv i (waiting e) s.disk s.holder s.objects tt (λ j ne. refl)
          (λ j ne h. (refl, h));
    fit = inv.fit;
    same = inv.same;
    logged = inv.logged;
  }
  Step-Serial d {s} (lock i e at free) inv = record {
    relies =
        others d inv i (locked e) s.disk (some i) s.objects refl (λ j ne. refl)
          (λ j ne h. ground (arith, free, h));
    fit = inv.fit;
    same = inv.same;
    logged = inv.logged;
  }
  Step-Serial d {s} (read i e at) inv =
      let mine = at_stage d inv i (locked e) at in
      let fresh = refresh (s.objects i) s.disk in
      record {
        relies =
            others d inv i (refreshed (s.objects i) e) s.disk s.holder (update s.objects i fresh)
              (mine, update_here s.objects i fresh, inv.fit i)
              (λ j ne. update_other s.objects i j fresh ne) (λ j ne h. (refl, h));
        fit = fit_after d inv i fresh (refresh-P (s.objects i) s.disk (inv.fit i));
        same = inv.same;
        logged = inv.logged;
      }
  Step-Serial d {s} (write i before e at) inv =
      let (mine, fresh, old) = at_stage d inv i (refreshed before e) at in
      let (o, d') = commit e (s.objects i) s.disk in
      record {
        relies =
            others d inv i leaving d' s.holder (update s.objects i o) mine
              (λ j ne. update_other s.objects i j o ne)
              (λ j ne h. absurd (elsewhere d inv i mine j ne h));
        fit = fit_after d inv i o (commit-P e (s.objects i) s.disk (inv.fit i));
        same =
            ap (λ x. (commit e x s.disk).1) fresh
            ∙ ap (λ x. (operation refresh commit e before x).1) inv.same
            ∙ sym (in_turn-append s.log before e d);
        logged = All-append (λ op. P op.0) s.log ((before, e) ∷ []) inv.logged (old, tt);
      }
  Step-Serial d {s} (unlock i at) inv =
      let mine = at_stage d inv i leaving at in
      record {
        relies =
            others d inv i idle s.disk none s.objects tt (λ j ne. refl)
              (λ j ne h. absurd (elsewhere d inv i mine j ne h));
        fit = inv.fit;
        same = inv.same;
        logged = inv.logged;
      }

  Reach-Serial :
      (d : D) (objects : ℕ → O) {s : System D O E}
      → ((i : ℕ) → P (objects i))
      → Reach refresh commit d objects s
      → Serial d s
  Reach-Serial d objects fit begin = start-Serial d objects fit
  Reach-Serial d objects fit (next r st) = Step-Serial d st (Reach-Serial d objects fit r)

  -- However the steps of the processes are interleaved, the disk is at every moment what the operations
  -- that have written make of it, each as a whole and in the order of their writes; and the objects that
  -- they start from are all as `P` says.
  pub Reach-in_turn :
      (d : D) (objects : ℕ → O) {s : System D O E}
      → ((i : ℕ) → P (objects i))
      → Reach refresh commit d objects s
      → (s.disk ≡ in_turn refresh commit s.log d) × All (λ op. P op.0) s.log
  Reach-in_turn d objects fit r = let inv = Reach-Serial d objects fit r in (inv.same, inv.logged)
