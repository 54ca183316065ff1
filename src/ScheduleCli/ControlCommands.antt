-- ===== src/ScheduleCli/ControlCommands.antt =====
-- The commands of the group `control` in src/scheduling_util/_schedule_cli.py.
use Prim.Native.String.{◌++◌ as append}
use scheduling_util_py.Prelude.{
  return, raise, error, List, ◌∷◌, if◌then◌else◌, Exception, Result, Action, is_exception, throw,
}
use scheduling_util_py.Controller.{
  ControllerRequest, ControllerResponse, status_request, wake_request, run_now_request,
  quit_request,
}

-- The subcommands by their names, and the request that each stands for.
pub data Subcommand : Type 0 where
  status_command wake_command run_now_command quit_command : Subcommand

abbrev pub request_of : Subcommand → ControllerRequest
request_of status_command = status_request
request_of wake_command = wake_request
request_of run_now_command = run_now_request
request_of quit_command = quit_request

-- `raise click.ClickException(f"{type(e).__name__}: {e}") from e`, and `ctx.exit(2)`
abbrev pub click_exception : Exception → Exception
click_exception (error kind message) = error "ClickException" (append (append kind ": ") message)
click_exception e = e

abbrev pub exit_two : Exception
exit_two = error "Exit" "2"

-- The state is what was printed, the latest response first.
module _ (send : ControllerRequest → Result ControllerResponse) where
  abbrev print_response : ControllerResponse → Action (List ControllerResponse) (Unit {0})
  print_response response printed =
      (if response.ok then return tt else raise exit_two, response ∷ printed)

  abbrev pub printed_or_raised :
      Result ControllerResponse → Action (List ControllerResponse) (Unit {0})
  printed_or_raised (return response) = print_response response
  printed_or_raised (raise e) = throw (if is_exception e then click_exception e else e)

  send_control_request : ControllerRequest → Action (List ControllerResponse) (Unit {0})
  send_control_request request = printed_or_raised (send request)

  control_status : Action (List ControllerResponse) (Unit {0})
  unfolding send_control_request
  control_status = send_control_request status_request

  control_wake : Action (List ControllerResponse) (Unit {0})
  unfolding send_control_request
  control_wake = send_control_request wake_request

  control_run_now : Action (List ControllerResponse) (Unit {0})
  unfolding send_control_request
  control_run_now = send_control_request run_now_request

  control_quit : Action (List ControllerResponse) (Unit {0})
  unfolding send_control_request
  control_quit = send_control_request quit_request

  -- click calls the function of the subcommand.
  unfoldable pub run_subcommand : Subcommand → Action (List ControllerResponse) (Unit {0})
  unfolding control_status control_wake control_run_now control_quit
  run_subcommand status_command = control_status
  run_subcommand wake_command = control_wake
  run_subcommand run_now_command = control_run_now
  run_subcommand quit_command = control_quit
