-- ===== src/Device/Requests.antt =====
-- The waiting requests of internal/relay/device/registry.go: their own methods, and how they leave
-- the registry.
use agent_tunnel.Base.{
  Bool, true, not, ◌&&◌, Option, none, some, List, [], ◌∷◌, ◌==◌, any, if◌then◌else◌,
}
use agent_tunnel.Base.Text.{Text, trim, text_eq}
use agent_tunnel.Base.Dict.{Dict, lookup, insert, delete, retain, for_each}
use agent_tunnel.Device.{
  LaunchRequest, LaunchResult, TerminateRequest, TerminateResult, TerminateTarget, LiveDevice,
  Registry, Effect, launch_done, terminate_done, normalized, has_terminate_target, same_target,
}

abbrev pub mark_accepted : LaunchRequest → Text → LaunchRequest
mark_accepted q workspace_session =
    if q.completed
    then q
    else record q { accepted = true; workspace_session = trim workspace_session }

abbrev pub mark_session_ready : LaunchRequest → Text → LaunchRequest
mark_session_ready q session_id =
    if q.completed then q else record q { session_id = trim session_id }

abbrev pub is_accepted : LaunchRequest → Bool
is_accepted q = q.accepted && not q.completed

abbrev pub registered_session_id : LaunchRequest → Text
registered_session_id q = if q.completed then [] else trim q.session_id

abbrev pub accepted_workspace_session : LaunchRequest → Text
accepted_workspace_session q = if q.completed then [] else trim q.workspace_session

unfoldable pub complete : LaunchRequest → LaunchResult → LaunchRequest × List Effect
complete q result =
    if q.completed
    then (q, [])
    else (record q { completed = true; result = result }, launch_done q.id result ∷ [])

unfoldable pub complete_terminate :
    TerminateRequest → TerminateResult → TerminateRequest × List Effect
complete_terminate q result =
    if q.completed
    then (q, [])
    else (record q { completed = true; result = result }, terminate_done q.id result ∷ [])

unfoldable pub complete_launch_request : Option LaunchRequest → LaunchResult → List Effect
complete_launch_request none result = []
complete_launch_request (some q) result = (complete q result).1

unfoldable pub complete_terminate_request : Option TerminateRequest → TerminateResult → List Effect
complete_terminate_request none result = []
complete_terminate_request (some q) result = (complete_terminate q result).1

unfoldable pub has_pending_request : Dict Text LaunchRequest → Text → Bool
has_pending_request requests device_id = any (λ e. e.1.device_id == device_id) requests

unfoldable pub has_other_pending_request : Dict Text LaunchRequest → Text → Text → Bool
has_other_pending_request requests device_id skip =
    any (λ e. not (e.0 == skip) && e.1.device_id == device_id) requests

-- live.inFlight = flag, where the device is connected.
unfoldable pub set_in_flight : Text → Bool → Dict Text LiveDevice → Dict Text LiveDevice
set_in_flight device_id flag devices = elim (lookup device_id devices) [
  | none ↦ devices
  | some live ↦ insert device_id (record live { in_flight = flag }) devices
]

unfoldable pub clear_request : Registry → Text → Registry × Option LaunchRequest
clear_request r request_id = elim (lookup request_id r.requests) [
  | none ↦ (record r { requests = delete request_id r.requests }, none)
  | some q ↦ (
    record r {
      devices =
          set_in_flight q.device_id (has_other_pending_request r.requests q.device_id request_id)
            r.devices;
      requests = delete request_id r.requests;
    },
    some q,
  )
]

unfoldable pub complete_request : Registry → Text → LaunchResult → Registry × List Effect
complete_request r request_id result =
    let (cleared, q) = clear_request r request_id in (cleared, complete_launch_request q result)

-- One round of completeDeviceRequestsLocked.
unfoldable pub complete_unaccepted :
    Text → LaunchResult → Text → LaunchRequest → Registry → Registry × List Effect
complete_unaccepted device_id result request_id q r =
    if not (q.device_id == device_id)
    then (r, [])
    else if is_accepted q
    then (record r { devices = set_in_flight device_id true r.devices }, [])
    else (
      (clear_request r request_id).0,
      complete_launch_request (some q) (record result { request_id = q.id }),
    )

unfoldable pub complete_device_requests : Registry → Text → LaunchResult → Registry × List Effect
complete_device_requests r device_id result =
    for_each (complete_unaccepted device_id result) r.requests r

unfoldable pub clear_terminate_request : Registry → Text → Registry × Option TerminateRequest
clear_terminate_request r request_id = elim (lookup request_id r.terminate_requests) [
  | none ↦ (r, none)
  | some q ↦ (record r { terminate_requests = delete request_id r.terminate_requests }, some q)
]

unfoldable pub complete_terminate_request_of :
    Registry → Text → TerminateResult → Registry × List Effect
complete_terminate_request_of r request_id result =
    let (cleared, q) = clear_terminate_request r request_id in
    (cleared, complete_terminate_request q result)

-- One round of completeDeviceTerminateRequestsLocked.
unfoldable pub complete_termination :
    Text → TerminateResult → Text → TerminateRequest → Registry → Registry × List Effect
complete_termination device_id result request_id q r =
    if not (q.device_id == device_id) then (r, []) else (
      (clear_terminate_request r request_id).0,
      complete_terminate_request (some q) (record result { request_id = q.id }),
    )

unfoldable pub complete_device_terminate_requests :
    Registry → Text → TerminateResult → Registry × List Effect
complete_device_terminate_requests r device_id result =
    for_each (complete_termination device_id result) r.terminate_requests r

unfoldable pub delete_completed_launch_target : Registry → TerminateTarget → Registry
delete_completed_launch_target r target =
    if not (has_terminate_target (normalized target)) then r else record r {
      completed_launches =
          retain (λ _ done. not (same_target done.target (normalized target))) r.completed_launches;
    }
