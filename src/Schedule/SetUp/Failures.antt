-- ===== src/Schedule/SetUp/Failures.antt =====
-- What the set-up of the health check in src/scheduling_util/_schedule.py does when requests fail.
use scheduling_util_py.Prelude.{
  ◌≡◌, refl, Bool, true, false, Bool-cases, inl, inr, ◌&&◌, not, String, Option, none, some, List,
  [], ◌∷◌, return, ◌>>=◌, ◌>>◌,
}
use scheduling_util_py.Schedule.SetUp.{
  HcArguments, warn_failure, given, configure_routing, configuration, drop_managed, wants_metadata,
  Metadata, Stage, request_metadata, check_arguments, HcCall, create_or_update, update_metadata,
  update_routing, Answer, answered, request_exception, value_exception, other_exception,
  ManageClient, SetUp, set_up, configure_metadata, configure_routes, created, updated,
  routing_configuration, metadata_configuration,
}

-- The exceptions that hcio_client documents: a failed request, and for the creation of a check, whose
-- answer it parses, a text that is no JSON.
abbrev pub Expected : List HcCall → Answer → Type 0
Expected calls (answered _) = Unit
Expected calls (request_exception _) = Unit
Expected (create_or_update _ ∷ calls) (value_exception _) = Unit
Expected calls _ = ⊥

abbrev pub Documented : ManageClient → Type 0
Documented client = (calls : List HcCall) → Expected calls (client calls)

module _ (client : ManageClient) (a : HcArguments) where
  created-warns :
      a.config_failure ≡ warn_failure
      → (m : Metadata) (calls : List HcCall) (answer : Answer) (s : SetUp)
      → Expected (create_or_update m ∷ calls) answer
      → (failed : Bool) × ((created client a answer s).0 ≡ return failed)
  unfolding created
  created-warns warns m calls (answered none) s x = rw warns (true, refl)
  created-warns warns m calls (answered (some uuid)) s x = elim (Bool-cases (given (some uuid))) [
    | inl e ↦ rw e (false, refl)
    | inr e ↦ rw (e, warns) (true, refl)
  ]
  created-warns warns m calls (request_exception e) s x = rw warns (true, refl)
  created-warns warns m calls (value_exception e) s x = rw warns (true, refl)
  created-warns warns m calls (other_exception e) s x = absurd x

  updated-warns :
      a.config_failure ≡ warn_failure
      → (stage : Stage) (answer : Answer) (s : SetUp) → Expected [] answer
      → (failed : Bool) × ((updated client a stage answer s).0 ≡ return failed)
  unfolding updated
  updated-warns warns stage (answered _) s x = (false, refl)
  updated-warns warns stage (request_exception e) s x = rw warns (true, refl)
  updated-warns warns stage (value_exception e) s x = absurd x
  updated-warns warns stage (other_exception e) s x = absurd x

  request-warns :
      a.config_failure ≡ warn_failure
      → Documented client
      → (m : Metadata) (uuid : Option String) (s : SetUp)
      → (failed : Bool) × ((request_metadata client a m uuid s).0 ≡ return failed)
  unfolding request_metadata
  request-warns warns documented m none s =
      let calls = create_or_update m ∷ s.calls in
      created-warns warns m s.calls (client calls) (record s { calls = calls }) (documented calls)
  request-warns warns documented m (some uuid) s =
      let calls = update_metadata m ∷ s.calls in
      let (failed, e) =
        updated-warns warns metadata_configuration (client calls) (record s { calls = calls })
          (documented calls) in
      (false, rw (◌>>◌, ◌>>=◌, e) refl)

  metadata-warns :
      a.config_failure ≡ warn_failure
      → Documented client
      → (s : SetUp) → (failed : Bool) × ((configure_metadata client a s).0 ≡ return failed)
  unfolding configure_metadata
  metadata-warns warns documented s =
      let m = configuration (drop_managed a.manage_key a) in
      elim (Bool-cases (wants_metadata a m)) [
        | inl e ↦ rw e (request-warns warns documented m a.uuid s)
        | inr e ↦ rw e (false, refl)
      ]

  routes-warns :
      a.config_failure ≡ warn_failure
      → Documented client
      → (failed : Bool) (s : SetUp) → (configure_routes client a failed s).0 ≡ return tt
  unfolding configure_routes
  routes-warns warns documented failed s =
      let calls = update_routing a.channels a.tags ∷ s.calls in
      let (_, e) =
        updated-warns warns routing_configuration (client calls) (record s { calls = calls })
          (documented calls) in
      elim (Bool-cases (configure_routing a && not failed)) [
        | inl wanted ↦ rw (wanted, ◌>>◌, ◌>>=◌, e) refl
        | inr e ↦ rw e refl
      ]

  -- With "warn", arguments that pass the checks, and a client that raises only what it documents, the
  -- set-up always goes on to the scheduling, whatever requests fail.
  set_up-warns :
      (s : SetUp)
      → a.config_failure ≡ warn_failure
      → check_arguments a ≡ return tt
      → Documented client
      → (set_up client a s).0 ≡ return tt
  unfolding set_up
  set_up-warns s warns valid documented =
      let (failed, e) = metadata-warns warns documented s in
      rw (valid, ◌>>=◌, e) (routes-warns warns documented failed (configure_metadata client a s).1)
