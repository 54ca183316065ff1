-- ===== src/ScheduleCli/Start/Checked.antt =====
-- The checks of the command line against those of `schedule` (src/scheduling_util/_schedule_cli.py).
use scheduling_util_py.Prelude.{
  return, raise, error, String, ◌≡◌, refl, ◌⊎◌, inl, inr, true, not, ◌&&◌, some, Bool-cases,
}
use scheduling_util_py.Schedule.SetUp.{given, can_ping, check_arguments, known_choice}
use scheduling_util_py.ScheduleCli.Start.{
  CliOptions, routing_wanted, usage_error, schedule_call, on_result,
}

-- For a `--hc-config-failure` of "raise" or "warn", which are the choices of the option: either the
-- options are accepted, and then the call made of them passes the checks of `schedule`; or they are
-- refused by a `UsageError`, and then `schedule` would have refused that call by a `ValueError`.
pub on_result-checked :
    {F : Type 0} (func : F) (o : CliOptions)
    → known_choice o.hc.config_failure ≡ true
    → ((on_result (some func) o ≡ return (some (func, schedule_call o)))
        × (check_arguments (schedule_call o).hc ≡ return tt))
      ⊎ (message refused : String) × (on_result (some func) o ≡ raise (usage_error message))
        × (check_arguments (schedule_call o).hc ≡ raise (error "ValueError" refused))
unfolding on_result check_arguments
on_result-checked func o known =
    elim (Bool-cases (routing_wanted o && not (given o.hc.manage_key))) [
      | inl e ↦ inr (
        "--hc-manage-key is required with --hc-channel or --hc-tags.",
        "hc_manage_key is required with hc_channels or hc_tags.",
        rw e refl,
        rw (known, e) refl,
      )
      | inr e ↦ elim (Bool-cases (routing_wanted o && not (can_ping o.hc))) [
        | inl f ↦ inr (
          "--hc-channel and --hc-tags require --hc-uuid or both --hc-ping-key and --name.",
          "hc_channels and hc_tags require hc_uuid or both hc_ping_key and name.",
          rw (e, f) refl,
          rw (known, e, f) refl,
        )
        | inr f ↦ inl (rw (e, f) refl, rw (known, e, f) refl)
      ]
    ]
