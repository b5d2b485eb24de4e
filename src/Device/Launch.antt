-- ===== src/Device/Launch.antt =====
-- internal/relay/device/registry.go: a launch. Launch holds the lock in three sections: it enters the
-- request, it takes it back where the device cannot be told, and it takes it back where the caller
-- waits no longer. The answer of the device and the session that the launch starts come in between,
-- in either order.
use agent_tunnel.Base.{
  ℕ, Bool, true, false, not, ◌&&◌, ◌||◌, Option, none, some, List, [], ◌∷◌, ◌++◌, ◌==◌, nat_eq,
  if◌then◌else◌,
}
use agent_tunnel.Base.Text.{Text, text_eq, is_empty, trim, codes}
use agent_tunnel.Base.Peer.{Peer, nil, is_nil, peer_eq}
use agent_tunnel.Base.Dict.{lookup, insert}
use agent_tunnel.Device.{
  DeviceOwner, LaunchResult, TerminateTarget, LaunchCompletion, LiveDevice, LaunchRequest, Registry,
  Effect, sent, same_owner, has_terminate_target, no_target, no_completion,
}
use agent_tunnel.Device.Frames.{device_launch_request_frame, device_terminate_request_frame}
use agent_tunnel.Device.Clock.{launch_request_id}
use agent_tunnel.Device.Requests.{
  mark_accepted, mark_session_ready, is_accepted, registered_session_id, accepted_workspace_session,
  clear_request, complete_request, complete_launch_request,
}

abbrev pub failed_launch : Text → Text → LaunchResult
failed_launch request_id reason = record {
  request_id = request_id;
  status = codes "failed";
  session_id = [];
  reason = reason;
}

abbrev pub no_result : LaunchResult
no_result = record { request_id = []; status = []; session_id = []; reason = [] }

-- Launch goes on with a request and the device's connection, or returns.
pub data Begun : Type 0 where
  refused : LaunchResult → Begun
  waiting : Text → Peer → Begun

abbrev pub new_request : Text → Text → LiveDevice → LaunchRequest
new_request request_id device_id live = record {
  id = request_id;
  device_id = device_id;
  owner = live.owner;
  peer = live.peer;
  accepted = false;
  completed = false;
  session_id = [];
  workspace_session = [];
  result = no_result;
}

-- The first section, where the device is connected.
unfoldable pub begin_on : Registry → Text → LiveDevice → ℕ → Text → Registry × Begun
begin_on r device_id live user_id request_id =
    if not (live.owner.user_id == user_id) || is_nil live.peer
    then (r, refused (failed_launch request_id (codes "device_offline")))
    else if live.in_flight
    then (r, refused (failed_launch request_id (codes "busy")))
    else (
      record r {
        devices = insert device_id (record live { in_flight = true }) r.devices;
        requests = insert request_id (new_request request_id device_id live) r.requests;
      },
      waiting request_id live.peer,
    )

unfoldable pub begin_launch : Registry → Text → ℕ → ℕ → Registry × Begun
unfolding begin_on
begin_launch r device_id user_id now = elim (lookup device_id r.devices) [
  | none ↦ (r, refused (failed_launch (launch_request_id device_id now) (codes "device_offline")))
  | some live ↦ begin_on r device_id live user_id (launch_request_id device_id now)
]

-- The second section: `expired` tells whether ctx.Err() is not nil, `delivered` whether SendJSON
-- succeeds. A result is what Launch returns; without one it waits.
unfoldable pub send_launch :
    Registry
    → Text
    → Peer
    → Bool
    → Bool
    → Text
    → Text
    → Text
    → Registry × Option LaunchResult × List Effect
send_launch r request_id peer expired delivered command cwd label =
    let cleared = (clear_request r request_id).0 in
    let frame = device_launch_request_frame request_id command cwd label in
    if expired
    then (cleared, some (failed_launch request_id (codes "launch_timeout")), [])
    else if not delivered
    then (cleared, some (failed_launch request_id (codes "device_offline")), sent peer frame ∷ [])
    else (r, none, sent peer frame ∷ [])

unfoldable pub timeout_launch_request :
    Registry → Text → Registry × LaunchResult × TerminateTarget × Peer × List Effect
timeout_launch_request r request_id =
    let result = failed_launch request_id (codes "launch_timeout") in
    let (cleared, request) = clear_request r request_id in
    elim request [
      | none ↦ (cleared, result, no_target, nil, [])
      | some q ↦ (
        cleared,
        result,
        record { device_id = q.device_id; workspace_session = accepted_workspace_session q },
        q.peer,
        complete_launch_request (some q) result,
      )
    ]

-- The third section, and the clean-up of the session that an accepted launch has started.
unfoldable pub expire_launch : Registry → Text → Registry × LaunchResult × List Effect
unfolding timeout_launch_request
expire_launch r request_id =
    let (cleared, result, target, peer, effects) = timeout_launch_request r request_id in
    let frame =
      device_terminate_request_frame (request_id ++ codes "-cleanup") [] target.workspace_session in
    (
      cleared,
      result,
      effects
          ++ (if has_terminate_target target && not (is_nil peer)
              then sent peer frame ∷ []
              else []),
    )

unfoldable pub complete_ready_launch :
    Registry → Text → LaunchRequest → Text → Registry × LaunchCompletion × List Effect
complete_ready_launch r request_id q session_id =
    let target : TerminateTarget = record {
      device_id = q.device_id;
      workspace_session = accepted_workspace_session q;
    } in
    let (completed, effects) = complete_request r request_id (record {
      request_id = request_id;
      status = codes "session_ready";
      session_id = session_id;
      reason = [];
    }) in
    (
      (if has_terminate_target target
          then record completed {
            completed_launches =
                insert request_id (record { owner = q.owner; target = target })
                  completed.completed_launches;
          }
          else completed),
      record { session_id = session_id; target = target },
      effects,
    )

abbrev pub failure_reason : Text → Text
failure_reason reason = if is_empty (trim reason) then codes "unknown_reason" else trim reason

-- `case LaunchStatusAccepted`, for the request as it is marked.
unfoldable pub resolve_accepted :
    Registry → Text → LaunchRequest → Registry × LaunchCompletion × Bool × List Effect
resolve_accepted r request_id marked =
    let stored = record r { requests = insert request_id marked r.requests } in
    let (completed, completion, effects) =
      complete_ready_launch stored request_id marked (registered_session_id marked) in
    if is_empty (registered_session_id marked)
    then (stored, no_completion, true, [])
    else (completed, completion, true, effects)

unfoldable pub resolve_request :
    Registry
    → Text
    → LaunchRequest
    → Text
    → Text
    → Text
    → Registry × LaunchCompletion × Bool × List Effect
unfolding resolve_accepted complete_ready_launch
resolve_request r request_id q status reason workspace_session =
    let (failed, effects) =
      complete_request r request_id (failed_launch request_id (failure_reason reason)) in
    if status == codes "accepted"
    then resolve_accepted r request_id (mark_accepted q workspace_session)
    else if status == codes "failed"
    then (failed, no_completion, true, effects)
    else (r, no_completion, false, [])

unfoldable pub resolve_launch_if_owner :
    Registry
    → Text
    → Peer
    → Text
    → Text
    → Text
    → Text
    → Registry × LaunchCompletion × Bool × List Effect
unfolding resolve_request
resolve_launch_if_owner r device_id owner request_id status reason workspace_session =
    elim (lookup request_id r.requests) [
      | none ↦ (r, no_completion, false, [])
      | some q ↦
          if not (q.device_id == device_id) || not (q.peer == owner)
          then (r, no_completion, false, [])
          else resolve_request r request_id q status reason workspace_session
    ]

-- What a session gets that comes to a launch which is over.
unfoldable pub recall_completed :
    Registry → Text → DeviceOwner → Registry × TerminateTarget × Bool × List Effect
recall_completed r request_id owner = elim (lookup request_id r.completed_launches) [
  | none ↦ (r, no_target, false, [])
  | some done ↦
      if not (same_owner done.owner owner)
      then (r, no_target, false, [])
      else (r, done.target, true, [])
]

unfoldable pub complete_marked :
    Registry → Text → LaunchRequest → Text → Registry × TerminateTarget × Bool × List Effect
unfolding complete_ready_launch
complete_marked r request_id marked session_id =
    let stored = record r { requests = insert request_id marked r.requests } in
    let (completed, completion, effects) =
      complete_ready_launch stored request_id marked session_id in
    if not (is_accepted marked)
    then (stored, no_target, false, [])
    else (completed, completion.target, true, effects)

unfoldable pub complete_launch_if_owner :
    Registry → Text → DeviceOwner → Text → Registry × TerminateTarget × Bool × List Effect
unfolding recall_completed complete_marked
complete_launch_if_owner r request_id owner session_id = elim (lookup request_id r.requests) [
  | none ↦ recall_completed r request_id owner
  | some q ↦
      if not (same_owner q.owner owner) || is_empty (trim session_id)
      then recall_completed r request_id owner
      else complete_marked r request_id (mark_session_ready q (trim session_id)) (trim session_id)
]
