-- ===== src/Device/Terminate.antt =====
-- internal/relay/device/registry.go: the termination of a session on a device. Two terminations of one
-- device that start in the same nanosecond share an id, and the second stands for both.
use agent_tunnel.Base.{
  ℕ, Bool, true, false, not, ◌||◌, Option, none, some, List, [], ◌∷◌, ◌==◌, nat_eq, if◌then◌else◌,
}
use agent_tunnel.Base.Text.{Text, text_eq, is_empty, trim, codes}
use agent_tunnel.Base.Peer.{Peer, is_nil, peer_eq}
use agent_tunnel.Base.Dict.{lookup, insert}
use agent_tunnel.Device.{
  TerminateResult, TerminateTarget, LiveDevice, TerminateRequest, Registry, Effect, sent,
}
use agent_tunnel.Device.Frames.{device_terminate_request_frame}
use agent_tunnel.Device.Clock.{terminate_request_id}
use agent_tunnel.Device.Requests.{
  clear_terminate_request, complete_terminate, complete_terminate_request_of,
  delete_completed_launch_target,
}
use agent_tunnel.Device.Launch.{failure_reason}

abbrev pub failed_termination : Text → Text → TerminateResult
failed_termination request_id reason = record {
  request_id = request_id;
  status = codes "failed";
  reason = reason;
}

pub data Begun : Type 0 where
  refused : TerminateResult → Begun
  waiting : Text → Peer → Begun

abbrev pub new_termination : Text → LiveDevice → TerminateTarget → TerminateRequest
new_termination request_id live target = record {
  id = request_id;
  device_id = target.device_id;
  owner = live.owner;
  peer = live.peer;
  target = target;
  completed = false;
  result = record { request_id = []; status = []; reason = [] };
}

unfoldable pub begin_on : Registry → LiveDevice → ℕ → TerminateTarget → Text → Registry × Begun
begin_on r live user_id target request_id =
    if not (live.owner.user_id == user_id) || is_nil live.peer
    then (r, refused (failed_termination request_id (codes "device_offline")))
    else (
      record r {
        terminate_requests =
            insert request_id (new_termination request_id live target) r.terminate_requests;
      },
      waiting request_id live.peer,
    )

unfoldable pub begin_known : Registry → ℕ → TerminateTarget → Text → Registry × Begun
unfolding begin_on
begin_known r user_id target request_id = elim (lookup target.device_id r.devices) [
  | none ↦ (r, refused (failed_termination request_id (codes "device_offline")))
  | some live ↦ begin_on r live user_id target request_id
]

-- The first section of Terminate.
unfoldable pub begin_terminate : Registry → ℕ → TerminateTarget → ℕ → Registry × Begun
unfolding begin_known
begin_terminate r user_id target now =
    let request_id = terminate_request_id target.device_id now in
    if is_empty (trim target.workspace_session)
    then (r, refused (failed_termination request_id (codes "session_not_found")))
    else begin_known r user_id target request_id

-- The second section, as in a launch.
unfoldable pub send_terminate :
    Registry
    → Text
    → Peer
    → Bool
    → Bool
    → Text
    → TerminateTarget
    → Registry × Option TerminateResult × List Effect
send_terminate r request_id peer expired delivered session_id target =
    let cleared = (clear_terminate_request r request_id).0 in
    let frame =
      device_terminate_request_frame request_id session_id (trim target.workspace_session) in
    if expired
    then (cleared, some (failed_termination request_id (codes "terminate_timeout")), [])
    else if not delivered
    then (
      cleared,
      some (failed_termination request_id (codes "device_offline")),
      sent peer frame ∷ [],
    )
    else (r, none, sent peer frame ∷ [])

-- The caller waits no longer: the request is completed before the lock is taken to clear it.
unfoldable pub expire_terminate : Registry → Text → Registry × List Effect
expire_terminate r request_id = elim (lookup request_id r.terminate_requests) [
  | none ↦ (r, [])
  | some q ↦
      let (done, effects) =
        complete_terminate q (failed_termination request_id (codes "terminate_timeout")) in
      (record r { terminate_requests = insert request_id done r.terminate_requests }, effects)
]

unfoldable pub resolve_termination :
    Registry → Text → TerminateRequest → Text → Text → Registry × Bool × List Effect
resolve_termination r request_id q status reason =
    let (terminated, done) =
      complete_terminate_request_of (delete_completed_launch_target r q.target) request_id
        (record { request_id = request_id; status = codes "terminated"; reason = [] }) in
    let (failed, effects) =
      complete_terminate_request_of r request_id
        (failed_termination request_id (failure_reason reason)) in
    if status == codes "terminated"
    then (terminated, true, done)
    else if status == codes "failed"
    then (failed, true, effects)
    else (r, false, [])

unfoldable pub resolve_terminate_if_owner :
    Registry → Text → Peer → Text → Text → Text → Registry × Bool × List Effect
unfolding resolve_termination
resolve_terminate_if_owner r device_id owner request_id status reason =
    elim (lookup request_id r.terminate_requests) [
      | none ↦ (r, false, [])
      | some q ↦
          if not (q.device_id == device_id) || not (q.peer == owner)
          then (r, false, [])
          else resolve_termination r request_id q status reason
    ]
