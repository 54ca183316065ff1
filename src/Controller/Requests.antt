-- ===== src/Controller/Requests.antt =====
-- What a control request does to the controller of src/scheduling_util/_controller.py, and what
-- its response says.
use scheduling_util_py.Prelude.{◌≡◌, ◌≢◌, ◌⊎◌, true, false, some, arith}
use scheduling_util_py.Controller.{
  ScheduleController, ControllerRequest, status_request, wake_request, run_now_request,
  quit_request, running, stopping, handle_request, status,
}

-- The condition under which a request is granted, as the protocol documents it.
abbrev pub Grants : ControllerRequest → ScheduleController → Type 0
Grants status_request c = Unit
Grants wake_request c = c.quit_requested ≡ false
Grants run_now_request c = (c.state ≢ running) × (c.quit_requested ≡ false)
Grants quit_request c = Unit

-- The pending flags that a granted request leaves behind.
abbrev pub Recorded : ControllerRequest → ScheduleController → Type 0
Recorded status_request c = Unit
Recorded wake_request c = c.pending_wake ≡ true
Recorded run_now_request c = c.pending_run_now ≡ true
Recorded quit_request c = c.quit_requested ≡ true

-- A request is granted with a positive response and recorded in its flag if the protocol grants it,
-- and else refused with a negative response and no change. Either way the response carries the status
-- of the controller after the request.
pub handle_request-Grants :
    (r : ControllerRequest) (c : ScheduleController)
    → let (c', response) = handle_request r c in
      (Grants r c × (response.ok ≡ true) × Recorded r c'
        ⊎ (¬ Grants r c) × (response.ok ≡ false) × (c' ≡ c))
      × (response.scheduler ≡ some (status c'))
unfolding handle_request status
handle_request-Grants status_request c = ground arith
handle_request-Grants wake_request c = ground arith
handle_request-Grants run_now_request c = ground arith
handle_request-Grants quit_request c = ground arith

-- A request changes neither the run count nor a flag that was set, and changes the state only by
-- marking a scheduler that is not running as stopping, when it quits.
handle_request_frame :
    (r : ControllerRequest) (c : ScheduleController)
    → let c' = (handle_request r c).0 in
      (c'.run_count ≡ c.run_count)
      × ((c'.pending_wake ≡ c.pending_wake) ⊎ (c.pending_wake ≡ false))
      × ((c'.pending_run_now ≡ c.pending_run_now) ⊎ (c.pending_run_now ≡ false))
      × ((c'.quit_requested ≡ c.quit_requested) ⊎ (c.quit_requested ≡ false))
      × ((c'.state ≡ c.state) ⊎ (r ≡ quit_request) × (c.state ≢ running) × (c'.state ≡ stopping))
unfolding handle_request
handle_request_frame status_request c = ground arith
handle_request_frame wake_request c = ground arith
handle_request_frame run_now_request c = ground arith
handle_request_frame quit_request c = ground arith
