-- ===== src/ControllerSocket/Starting/Race.antt =====
-- Which servers can be reached when several start on one path
-- (src/scheduling_util/_controller_socket.py).
use mathlib.Core.Path.{subst}
use scheduling_util_py.Prelude.{
  ℕ, ◌≡◌, refl, sym, ap, ◌∙◌, ◌≢◌, Bool, true, false, not, ◌&&◌, Option, none, some, arith,
}
use scheduling_util_py.Prelude.Families.{update, at_update}
use scheduling_util_py.ControllerSocket.Starting.{
  Network, Stage, Move, busy, System, Step, Steps, start_system, outside, checking, probing,
  unlinking, binding, bound, ready, serving, closing, call, nothing_there, socket_there, refused,
  vanished, unlink, bind, chmod, listen, run, stay, step,
}

abbrev is_serving : Stage → Bool
is_serving serving = true
is_serving _ = false

-- No server runs while a process is at one of these calls.
abbrev is_quiet : Stage → Bool
is_quiet unlinking = true
is_quiet binding = true
is_quiet bound = true
is_quiet ready = true
is_quiet closing = true
is_quiet _ = false

abbrev owns : Stage → Bool
owns bound = true
owns ready = true
owns serving = true
owns _ = false

abbrev compatible : Stage → Stage → Bool
compatible q r =
    not (busy q && busy r)
    && not (is_serving q && is_serving r)
    && not (is_quiet q && is_serving r)
    && not (is_serving q && is_quiet r)

compatible_sym : (q r : Stage) → compatible q r ≡ compatible r q
compatible_sym q r = ground arith

-- What process `i` knows of the path.
abbrev Knows : ℕ → Network → Stage → Type 0
Knows i d q = (owns q ≡ true → d.entry ≡ some i) × (is_serving q ≡ true → d.listening i ≡ true)

own-Knows : {i : ℕ} {d d' : Network} {p p' : Stage} → Move i d p d' p' → Knows i d p → Knows i d' p'
own-Knows {i} (chmod {k} e) h = ground arith
own-Knows {i} mv h = ground arith

other-Knows :
    {i : ℕ} {d d' : Network} {p p' : Stage}
    → Move i d p d' p'
    → (j : ℕ) (q : Stage) → j ≢ i
    → compatible p q ≡ true
    → Knows j d q
    → Knows j d' q
other-Knows (unlink e) j q ne c h = ground arith
other-Knows (bind e) j q ne c h = ground arith
other-Knows mv j q ne c h = ground arith

other-compatible :
    {i : ℕ} {d d' : Network} {p p' : Stage}
    → Move i d p d' p'
    → Knows i d p
    → (j : ℕ) (q : Stage) → j ≢ i
    → compatible p q ≡ true
    → Knows j d q
    → (busy p ≡ false → busy p' ≡ true → busy q ≡ false)
    → compatible p' q ≡ true
other-compatible (nothing_there e) mine j q ne c h alone = ground arith
other-compatible (refused {k} e f) mine j q ne c h alone = ground arith
other-compatible (vanished e) mine j q ne c h alone = ground arith
other-compatible mv mine j q ne c h alone = ground arith

abbrev AllKnow : System → Type 0
AllKnow s = (i : ℕ) → Knows i s.network (s.stages i)

abbrev AllCompatible : System → Type 0
AllCompatible s = (i j : ℕ) → i ≢ j → compatible (s.stages i) (s.stages j) ≡ true

abbrev Safe : System → Type 0
Safe s = AllKnow s × AllCompatible s

-- A change of one stage keeps all pairs if it keeps those of that process.
update-compatible :
    (f : ℕ → Stage) (i : ℕ) (p : Stage)
    → ((a b : ℕ) → a ≢ b → compatible (f a) (f b) ≡ true)
    → ((j : ℕ) → j ≢ i → compatible p (f j) ≡ true)
    → (a b : ℕ) → a ≢ b
    → compatible (update f i p a) (update f i p b) ≡ true
update-compatible f i p old new =
    at_update (λ a q. (b : ℕ) → a ≢ b → compatible q (update f i p b) ≡ true) f i p
      (at_update (λ b r. i ≢ b → compatible p r ≡ true) f i p (λ ne. absurd (ne refl))
        λ b other ne. new b other)
      λ a other.
        at_update (λ b r. a ≢ b → compatible (f a) r ≡ true) f i p
          (λ ne. compatible_sym (f a) p ∙ new a other) λ b apart ne. old a b ne

Step-Safe : {s t : System} → Step false s t → Safe s → Safe t
Step-Safe {s} (run i {p} {p'} {d} at mv alone) (knows, pairs) =
    let mine : Knows i s.network p = subst (Knows i s.network) at (knows i) in
    let with_p : (j : ℕ) → j ≢ i → compatible p (s.stages j) ≡ true =
      λ j ne. ap (λ q. compatible q (s.stages j)) (sym at) ∙ pairs i j (λ e. ne (sym e)) in
    (
      at_update (λ j q. Knows j d q) s.stages i p' (own-Knows mv mine)
          (λ j ne. other-Knows mv j (s.stages j) ne (with_p j ne) (knows j)),
      update-compatible s.stages i p' pairs λ j ne.
          other-compatible mv mine j (s.stages j) ne (with_p j ne) (knows j)
            λ idle enters. alone refl idle enters j ne,
    )

Steps-Safe : {s t : System} → Steps false s t → Safe s → Safe t
Steps-Safe stay h = h
Steps-Safe (step r st) h = Step-Safe st (Steps-Safe r h)

start-Safe : (e : Option ℕ) → Safe (start_system e)
start-Safe e = (λ i. ground arith, λ i j ne. ground arith)

-- While no process enters `start` or `stop` when another is in one, a server that runs has its socket
-- at the path and accepts connections there, and no other server runs, whatever was at the path at
-- first, and even if processes die at any moment.
pub starts_exclude :
    {s : System} (e : Option ℕ)
    → Steps false (start_system e) s
    → (i : ℕ) → s.stages i ≡ serving
    → (s.network.entry ≡ some i)
      × (s.network.listening i ≡ true)
      × ((j : ℕ) → s.stages j ≡ serving → i ≡ j)
starts_exclude {s} e reach i runs =
    let (knows, pairs) = Steps-Safe reach (start-Safe e) in
    let owned = (knows i).0 (ap owns runs) in
    (
      owned,
      (knows i).1 (ap is_serving runs),
      λ j other. let also = (knows j).0 (ap owns other) in ground arith,
    )

infixl 4 ◌▸◌
abbrev ◌▸◌ : {b : Bool} {s t u : System} → Steps b s t → Step b t u → Steps b s u
r ▸ st = step r st

free :
    {s : System} (i : ℕ) {p p' : Stage} {d : Network}
    → s.stages i ≡ p
    → Move i s.network p d p'
    → Step true s (record { network = d; stages = update s.stages i p' })
free i at mv = run i at mv λ e. absurd (ground arith)

-- Two servers that start at the same time on a free path can both come to run, with the socket of one of
-- them at the path, so that the other cannot be reached: its socket, which was there but did not accept
-- connections yet, was taken for one that nobody serves.
pub starts_race :
    (i j : ℕ)
    → i ≢ j
    → (s : System) × Steps true (start_system none) s
      × (s.stages i ≡ serving)
      × (s.stages j ≡ serving)
      × (s.network.entry ≡ some j)
starts_race i j ne = (
  _,
  stay
      ▸ free i {p = outside} (ground arith) call
      ▸ free i {p = checking} (ground arith) (nothing_there (ground arith))
      ▸ free i {p = binding} (ground arith) (bind (ground arith))
      ▸ free j {p = outside} (ground arith) call
      ▸ free j {p = checking} (ground arith) (socket_there {k = i} (ground arith))
      ▸ free j {p = probing} (ground arith) (refused {k = i} (ground arith) (ground arith))
      ▸ free i {p = bound} (ground arith) (chmod {k = i} (ground arith))
      ▸ free j {p = unlinking} (ground arith) (unlink {k = i} (ground arith))
      ▸ free i {p = ready} (ground arith) listen
      ▸ free j {p = binding} (ground arith) (bind (ground arith))
      ▸ free j {p = bound} (ground arith) (chmod {k = j} (ground arith))
      ▸ free j {p = ready} (ground arith) listen,
  (ground arith),
  (ground arith),
  (ground arith),
)
