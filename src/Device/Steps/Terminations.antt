-- ===== src/Device/Steps/Terminations.antt =====
-- The steps of terminations leave the devices and the launches alone.
use agent_tunnel.Base.{ℕ, ◌≡◌, Bool, nat_eq, Option-cases, inl, inr, arith}
use agent_tunnel.Base.Text.{Text, text_eq}
use agent_tunnel.Base.Peer.{Peer, peer_eq}
use agent_tunnel.Base.Dict.{lookup}
use agent_tunnel.Device.{Registry, TerminateRequest, TerminateTarget}
use agent_tunnel.Device.Requests.{complete_terminate_request_of, delete_completed_launch_target}
use agent_tunnel.Device.Terminate.{
  begin_on, begin_known, begin_terminate, send_terminate, expire_terminate, resolve_termination,
  resolve_terminate_if_owner,
}
use agent_tunnel.Device.Offline.{clear_terminate-untouched}

-- The devices and the launches are the same.
abbrev pub SameLaunches : Registry → Registry → Type 0
SameLaunches r s = (s.devices ≡ r.devices) × (s.requests ≡ r.requests)

begin_known-same :
    (r : Registry) (user : ℕ) (target : TerminateTarget) (id : Text)
    → SameLaunches r (begin_known r user target id).0
unfolding begin_known begin_on
begin_known-same r user target id = elim (Option-cases (lookup target.device_id r.devices)) [
  | inl e ↦ ground arith
  | inr (live, e) ↦ ground arith
]

pub begin_terminate-same :
    (r : Registry) (user : ℕ) (target : TerminateTarget) (now : ℕ)
    → SameLaunches r (begin_terminate r user target now).0
unfolding begin_terminate
begin_terminate-same r user target now = ground (arith, begin_known-same r user target _)

pub send_terminate-same :
    (r : Registry) (id : Text) (peer : Peer) (expired delivered : Bool) (session : Text)
    (target : TerminateTarget)
    → SameLaunches r (send_terminate r id peer expired delivered session target).0
unfolding send_terminate
send_terminate-same r id peer expired delivered session target =
    ground (arith, clear_terminate-untouched r id)

pub expire_terminate-same : (r : Registry) (id : Text) → SameLaunches r (expire_terminate r id).0
unfolding expire_terminate
expire_terminate-same r id = elim (Option-cases (lookup id r.terminate_requests)) [
  | inl e ↦ ground arith
  | inr (q, e) ↦ ground arith
]

delete_target-same :
    (r : Registry) (target : TerminateTarget)
    → SameLaunches r (delete_completed_launch_target r target)
unfolding delete_completed_launch_target
delete_target-same r target = ground arith

resolve_termination-same :
    (r : Registry) (id : Text) (q : TerminateRequest) (status reason : Text)
    → SameLaunches r (resolve_termination r id q status reason).0
unfolding resolve_termination complete_terminate_request_of
resolve_termination-same r id q status reason = ground (
  arith,
  clear_terminate-untouched r id,
  clear_terminate-untouched (delete_completed_launch_target r q.target) id,
  delete_target-same r q.target,
)

pub resolve_terminate-same :
    (r : Registry) (device : Text) (peer : Peer) (id status reason : Text)
    → SameLaunches r (resolve_terminate_if_owner r device peer id status reason).0
unfolding resolve_terminate_if_owner
resolve_terminate-same r device peer id status reason =
    elim (Option-cases (lookup id r.terminate_requests)) [
      | inl e ↦ ground arith
      | inr (q, e) ↦ ground (arith, resolve_termination-same r id q status reason)
    ]
