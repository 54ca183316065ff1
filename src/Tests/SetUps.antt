-- ===== src/Tests/SetUps.antt =====
-- Runs of the set-up of the health check.
use scheduling_util_py.Prelude.{◌≡◌, refl, ◌↔◌, none, some, [], ◌∷◌, error, return}
use scheduling_util_py.Prelude.Int.{pos}
use scheduling_util_py.Schedule.SetUp.{
  HcArguments, ConfigFailure, raise_failure, warn_failure, check_arguments, create_or_update,
  update_metadata, update_routing, ping_log, routing_configuration, answered, request_exception,
  ManageClient, set_up,
}
use scheduling_util_py.Schedule.SetUp.Failures.{Documented}
use scheduling_util_py.Schedule.SetUp.Raises.{no_calls, AllSucceed, wanted_calls, set_up-AllSucceed}

abbrev managed : ConfigFailure → HcArguments
managed choice = record {
  ping_key = some "ping";
  manage_key = some "manage";
  name = some "backup";
  uuid = none;
  description = none;
  timeout = some (pos 1500000);
  grace = none;
  channels = some ("mail" ∷ []);
  tags = none;
  config_failure = choice;
}

-- The service creates checks, and refuses their routing.
abbrev no_routing : ManageClient
no_routing [] = answered none
no_routing (create_or_update _ ∷ _) = answered (some "id")
no_routing (_ ∷ _) = request_exception (error "RequestException" "403")

no_routing-Documented : Documented no_routing
no_routing-Documented [] = tt
no_routing-Documented (create_or_update _ ∷ _) = tt
no_routing-Documented (update_metadata _ ∷ _) = tt
no_routing-Documented (update_routing _ _ ∷ _) = tt
no_routing-Documented (ping_log _ ∷ _) = tt

warned :
    (set_up no_routing (managed warn_failure) no_calls).1.calls
    ≡ ping_log routing_configuration
      ∷ update_routing (some ("mail" ∷ [])) none
      ∷ create_or_update
          (record { name = some "backup"; desc = none; timeout = some (pos 1); grace = none })
      ∷ []
unfolding set_up check_arguments
warned = refl

set_up-AllSucceed_example :
    ((set_up no_routing (managed raise_failure) no_calls).0 ≡ return tt)
    ↔ AllSucceed no_routing (wanted_calls (managed raise_failure))
unfolding check_arguments
set_up-AllSucceed_example = set_up-AllSucceed no_routing (managed raise_failure) refl refl
