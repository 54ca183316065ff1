-- ===== src/Schedule/SetUp.antt =====
-- The set-up of the health check by `schedule` in src/scheduling_util/_schedule.py, from the checks of
-- its arguments to the management requests. The library hcio_client sends these requests.
pub mod Failures
pub mod Raises
use text.Mathlib.Text.{◌==◌ as str_eq}
use Prim.Native.Nat.{◌/◌}
use scheduling_util_py.Prelude.{
  ℕ, suc, Bool, true, false, ◌&&◌, ◌||◌, not, String, Option, none, some, List, [], ◌∷◌, is_some,
  if◌then◌else◌, ◌==◌, Exception, error, Result, return, raise, Action, pure, ◌>>=◌, ◌>>◌,
}
use scheduling_util_py.Prelude.Int.{ℤ, pos, negsuc, sub_ℕ}

-- `hc_config_failure`; any other string than "raise" and "warn" is refused.
pub data ConfigFailure : Type 0 where
  raise_failure warn_failure : ConfigFailure
  other_choice : String → ConfigFailure

-- The arguments of `schedule` that the set-up reads; durations are in microseconds.
pub record HcArguments : Type 0 where
  pub ping_key : Option String
  pub manage_key : Option String
  pub name : Option String
  pub uuid : Option String
  pub description : Option String
  pub timeout : Option ℤ
  pub grace : Option ℤ
  pub channels : Option (List String)
  pub tags : Option String
  pub config_failure : ConfigFailure

-- The truth value of an optional string and of an optional duration.
abbrev pub given : Option String → Bool
given none = false
given (some s) = not (str_eq s "")

abbrev pub lasts : Option ℤ → Bool
lasts none = false
lasts (some (pos n)) = not (n == 0)
lasts (some (negsuc _)) = true

-- `int(duration.total_seconds())`
abbrev pub whole_seconds : ℤ → ℤ
whole_seconds (pos n) = pos (n / 1000000)
whole_seconds (negsuc n) = sub_ℕ 0 (suc n / 1000000)

abbrev seconds_if : Bool → Option ℤ → Option ℤ
seconds_if true (some d) = some (whole_seconds d)
seconds_if _ _ = none

abbrev pub configure_routing : HcArguments → Bool
configure_routing a = is_some a.channels || is_some a.tags

-- "To ping a health check, we need (the UUID) || (the slug && the ping key)."
abbrev pub can_ping : HcArguments → Bool
can_ping a = given a.uuid || given a.ping_key && given a.name

abbrev value_error : String → Exception
value_error message = error "ValueError" message

abbrev pub known_choice : ConfigFailure → Bool
known_choice (other_choice _) = false
known_choice _ = true

-- The three checks at the start of `schedule`.
unfoldable pub check_arguments : HcArguments → Result (Unit {0})
check_arguments a =
    if not (known_choice a.config_failure)
    then raise (value_error "hc_config_failure must be 'raise' or 'warn'.")
    else if configure_routing a && not (given a.manage_key)
    then raise (value_error "hc_manage_key is required with hc_channels or hc_tags.")
    else if configure_routing a && not (can_ping a)
    then raise (value_error "hc_channels and hc_tags require hc_uuid or both hc_ping_key and name.")
    else return tt

-- Without a management key the description and the durations are ignored.
abbrev pub drop_managed : Option String → HcArguments → HcArguments
drop_managed none a = record a { description = none; timeout = none; grace = none }
drop_managed (some _) a = a

-- `_HealthcheckMetadata`
pub record Metadata : Type 0 where
  pub name : Option String
  pub desc : Option String
  pub timeout : Option ℤ
  pub grace : Option ℤ

abbrev if_given : Bool → Option String → Option String
if_given true s = s
if_given false s = none

abbrev pub configuration : HcArguments → Metadata
configuration a = record {
  name = if_given (given a.manage_key) a.name;
  desc = a.description;
  timeout = seconds_if (lasts a.timeout) a.timeout;
  grace = seconds_if (lasts a.grace) a.grace;
}

abbrev any_value : Metadata → Bool
any_value m = is_some m.name || is_some m.desc || is_some m.timeout || is_some m.grace

abbrev pub wants_metadata : HcArguments → Metadata → Bool
wants_metadata a m = can_ping a && given a.manage_key && any_value m

pub data Stage : Type 0 where
  check_creation metadata_configuration routing_configuration : Stage

-- The requests to the service; `ping_log` is the warning that is sent to the check, the errors of
-- which are suppressed.
pub data HcCall : Type 0 where
  create_or_update : Metadata → HcCall
  update_metadata : Metadata → HcCall
  update_routing : Option (List String) → Option String → HcCall
  ping_log : Stage → HcCall

-- How a request is answered: with the JSON value at "uuid", if that is a string, or by an exception:
-- a `RequestException`, a `ValueError` such as that of a text that is no JSON, or another.
pub data Answer : Type 0 where
  answered : (uuid : Option String) → Answer
  request_exception value_exception other_exception : Exception → Answer

-- The answer to a request, after all requests before it; the latest stands first.
abbrev pub ManageClient : Type 0
ManageClient = List HcCall → Answer

-- The UUID that the check has, if the service gave one, and the requests.
pub record SetUp : Type 0 where
  pub check_uuid : Option String
  pub calls : List HcCall

module _ (client : ManageClient) (a : HcArguments) where
  abbrev send : HcCall → Action SetUp Answer
  send call s = let sent = record s { calls = call ∷ s.calls } in (return (client sent.calls), sent)

  -- `warn_configuration_failure` on a check that is there.
  abbrev warn : Stage → SetUp → SetUp
  warn stage s = record s { calls = ping_log stage ∷ s.calls }

  -- `if hc_config_failure == "raise": raise`, else warn. The result is whether the stage failed.
  abbrev fail : ConfigFailure → Stage → Exception → Action SetUp Bool
  fail raise_failure stage e s = (raise e, s)
  fail _ stage e s = (return true, warn stage s)

  abbrev uuid_error : Exception
  uuid_error = value_error "Expected Healthchecks to return a non-empty uuid string."

  created : Answer → Action SetUp Bool
  created (answered none) = fail a.config_failure check_creation uuid_error
  created (answered (some uuid)) = λ s.
      if given (some uuid)
      then (return false, record s { check_uuid = some uuid })
      else fail a.config_failure check_creation uuid_error s
  created (request_exception e) = fail a.config_failure check_creation e
  created (value_exception e) = fail a.config_failure check_creation e
  created (other_exception e) = λ s. (raise e, s)

  updated : Stage → Answer → Action SetUp Bool
  updated stage (answered _) = pure false
  updated stage (request_exception e) = fail a.config_failure stage e
  updated stage (value_exception e) = λ s. (raise e, s)
  updated stage (other_exception e) = λ s. (raise e, s)

  -- The creation of a check, or the update of the check with the given UUID. The result is
  -- `creation_failed`.
  request_metadata : Metadata → Option String → Action SetUp Bool
  unfolding created updated
  request_metadata m none = send (create_or_update m) >>= created
  request_metadata m (some _) =
      send (update_metadata m) >>= updated metadata_configuration >> pure false

  configure_metadata : Action SetUp Bool
  unfolding request_metadata
  configure_metadata =
      let m = configuration (drop_managed a.manage_key a) in
      if wants_metadata a m then request_metadata m a.uuid else pure false

  configure_routes : Bool → Action SetUp (Unit {0})
  unfolding updated
  configure_routes creation_failed =
      if configure_routing a && not creation_failed
      then send (update_routing a.channels a.tags) >>= updated routing_configuration >> pure tt
      else pure tt

  abbrev and_configure : Result (Unit {0}) → Action SetUp (Unit {0})
  and_configure (raise e) = λ s. (raise e, s)
  and_configure (return _) = configure_metadata >>= configure_routes

  -- The set-up up to the run predicate.
  unfoldable pub set_up : Action SetUp (Unit {0})
  unfolding configure_metadata configure_routes
  set_up = and_configure (check_arguments a)
