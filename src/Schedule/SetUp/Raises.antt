-- ===== src/Schedule/SetUp/Raises.antt =====
-- When the set-up of the health check in src/scheduling_util/_schedule.py goes on with "raise".
use scheduling_util_py.Prelude.{
  ◌≡◌, refl, ◌↔◌, ◌⊎◌, Bool, true, false, Bool-cases, inl, inr, String, Option, none, some, List,
  [], ◌∷◌, if◌then◌else◌, Exception, Result, return, raise, ◌>>=◌, ◌>>◌,
}
use scheduling_util_py.Schedule.SetUp.{
  HcArguments, raise_failure, given, configure_routing, configuration, drop_managed, wants_metadata,
  Metadata, request_metadata, check_arguments, HcCall, create_or_update, update_metadata,
  update_routing, Answer, answered, request_exception, value_exception, other_exception,
  ManageClient, SetUp, set_up, configure_metadata, configure_routes, created, updated,
  routing_configuration, metadata_configuration,
}

abbrev pub no_calls : SetUp
no_calls = record { check_uuid = none; calls = [] }

-- The requests of a set-up in which nothing fails, the latest first.
abbrev request_call : Option String → Metadata → HcCall
request_call none m = create_or_update m
request_call (some _) m = update_metadata m

abbrev metadata_calls : HcArguments → List HcCall
metadata_calls a =
    let m = configuration (drop_managed a.manage_key a) in
    if wants_metadata a m then request_call a.uuid m ∷ [] else []

abbrev pub wanted_calls : HcArguments → List HcCall
wanted_calls a =
    if configure_routing a
    then update_routing a.channels a.tags ∷ metadata_calls a
    else metadata_calls a

-- A request that the set-up counts as done.
abbrev pub Succeeds : HcCall → Answer → Type 0
Succeeds (create_or_update _) (answered uuid) = given uuid ≡ true
Succeeds _ (answered _) = Unit
Succeeds _ _ = ⊥

abbrev pub AllSucceed : ManageClient → List HcCall → Type 0
AllSucceed client [] = Unit
AllSucceed client (call ∷ calls) = Succeeds call (client (call ∷ calls)) × AllSucceed client calls

module _ (client : ManageClient) (a : HcArguments) where
  -- How a request ends that succeeds, and one that does not.
  abbrev Split : HcCall → Answer → Result Bool × SetUp → List HcCall → Type 0
  Split call answer (r, s) calls =
      Succeeds call answer × (r ≡ return false) × (s.calls ≡ calls)
      ⊎ (¬ Succeeds call answer) × ((e : Exception) × (r ≡ raise e))

  created-Split :
      a.config_failure ≡ raise_failure
      → (m : Metadata) (answer : Answer) (s : SetUp)
      → Split (create_or_update m) answer (created client a answer s) s.calls
  unfolding created
  created-Split raises m (answered none) s = rw raises (inr (λ h. cc, (_, refl)))
  created-Split raises m (answered (some uuid)) s = elim (Bool-cases (given (some uuid))) [
    | inl e ↦ rw e (inl (refl, refl, refl))
    | inr e ↦ rw (e, raises) (inr (λ h. cc, (_, refl)))
  ]
  created-Split raises m (request_exception e) s = rw raises (inr (λ h. h, (_, refl)))
  created-Split raises m (value_exception e) s = rw raises (inr (λ h. h, (_, refl)))
  created-Split raises m (other_exception e) s = inr (λ h. h, (_, refl))

  metadata-Split :
      a.config_failure ≡ raise_failure
      → (m : Metadata) (answer : Answer) (s : SetUp)
      → Split (update_metadata m) answer (updated client a metadata_configuration answer s) s.calls
  unfolding updated
  metadata-Split raises m (answered _) s = inl (tt, refl, refl)
  metadata-Split raises m (request_exception e) s = rw raises (inr (λ h. h, (_, refl)))
  metadata-Split raises m (value_exception e) s = inr (λ h. h, (_, refl))
  metadata-Split raises m (other_exception e) s = inr (λ h. h, (_, refl))

  routing-Split :
      a.config_failure ≡ raise_failure
      → (answer : Answer) (s : SetUp)
      → Split
          (update_routing a.channels a.tags)
          answer
          (updated client a routing_configuration answer s)
          s.calls
  unfolding updated
  routing-Split raises (answered _) s = inl (tt, refl, refl)
  routing-Split raises (request_exception e) s = rw raises (inr (λ h. h, (_, refl)))
  routing-Split raises (value_exception e) s = inr (λ h. h, (_, refl))
  routing-Split raises (other_exception e) s = inr (λ h. h, (_, refl))

  request-Split :
      a.config_failure ≡ raise_failure
      → (m : Metadata) (uuid : Option String) (s : SetUp)
      → let calls = request_call uuid m ∷ s.calls in
        Split (request_call uuid m) (client calls) (request_metadata client a m uuid s) calls
  unfolding request_metadata
  request-Split raises m none s =
      let calls = create_or_update m ∷ s.calls in
      created-Split raises m (client calls) (record s { calls = calls })
  request-Split raises m (some uuid) s =
      let calls = update_metadata m ∷ s.calls in
      elim (metadata-Split raises m (client calls) (record s { calls = calls })) [
        | inl (good, e, k) ↦ inl (good, rw (◌>>◌, ◌>>=◌, e) refl, rw (◌>>◌, ◌>>=◌, e) k)
        | inr (bad, (x, e)) ↦ inr (bad, (x, rw (◌>>◌, ◌>>=◌, e) refl))
      ]

  -- How the metadata stage ends that succeeds, or is not wanted, and one that does not.
  metadata_stage :
      a.config_failure ≡ raise_failure
      → AllSucceed client (metadata_calls a)
          × ((configure_metadata client a no_calls).0 ≡ return false)
          × ((configure_metadata client a no_calls).1.calls ≡ metadata_calls a)
        ⊎ (¬ AllSucceed client (metadata_calls a))
          × ((e : Exception) × ((configure_metadata client a no_calls).0 ≡ raise e))
  unfolding configure_metadata
  metadata_stage raises =
      let m = configuration (drop_managed a.manage_key a) in
      elim (Bool-cases (wants_metadata a m)) [
        | inl wanted ↦ rw wanted (elim (request-Split raises m a.uuid no_calls) [
          | inl (good, e, k) ↦ inl ((good, tt), e, k)
          | inr (bad, failed) ↦ inr (λ h. bad h.0, failed)
        ])
        | inr e ↦ rw e (inl (tt, refl, refl))
      ]

  routing_stage :
      a.config_failure ≡ raise_failure
      → (s : SetUp) → s.calls ≡ metadata_calls a
      → AllSucceed client (metadata_calls a)
      → ((configure_routes client a false s).0 ≡ return tt) ↔ AllSucceed client (wanted_calls a)
  unfolding configure_routes
  routing_stage raises s k good =
      let calls = update_routing a.channels a.tags ∷ s.calls in
      elim (Bool-cases (configure_routing a)) [
        | inr e ↦ rw e (λ h. good, λ h. refl)
        | inl wanted ↦
            rw (wanted, ← k)
              (elim (routing-Split raises (client calls) (record s { calls = calls })) [
                | inl (sent, e, _) ↦ rw (◌>>◌, ◌>>=◌, e) (λ h. (sent, rw k good), λ h. refl)
                | inr (bad, (x, e)) ↦ rw (◌>>◌, ◌>>=◌, e) (λ h. cc, λ h. absurd (bad h.0))
              ])
      ]

  -- With "raise" and arguments that pass the checks, the set-up goes on to the scheduling exactly if
  -- each request that the arguments call for succeeds, in their order: the creation or the update of
  -- the check, and then its routing.
  pub set_up-AllSucceed :
      a.config_failure ≡ raise_failure
      → check_arguments a ≡ return tt
      → ((set_up client a no_calls).0 ≡ return tt) ↔ AllSucceed client (wanted_calls a)
  unfolding set_up
  set_up-AllSucceed raises valid = elim (metadata_stage raises) [
    | inl (good, e, k) ↦
        rw (valid, ◌>>=◌, e) (routing_stage raises (configure_metadata client a no_calls).1 k good)
    | inr (bad, (x, e)) ↦ rw (valid, ◌>>=◌, e) (λ h. cc, λ h. absurd (bad (earlier h)))
  ]
    where
      earlier : AllSucceed client (wanted_calls a) → AllSucceed client (metadata_calls a)
      earlier h = elim (Bool-cases (configure_routing a)) [
        | inl e ↦ (rw e at h).1
        | inr e ↦ rw e at h
      ]
