-- ===== src/Device/Lifecycle/Resolved.antt =====
-- What becomes of the entry of a launch when the device answers or the session comes.
use agent_tunnel.Base.{
  ◌≡◌, not, ◌&&◌, none, some, Option, ◌==◌, nat_eq, if◌then◌else◌, Option-cases, inl, inr, arith,
}
use agent_tunnel.Base.Text.{Text, text_eq, is_empty, trim, codes}
use agent_tunnel.Base.Peer.{Peer, peer_eq}
use agent_tunnel.Base.Dict.{lookup, insert, lookup-insert}
use agent_tunnel.Device.{Registry, LaunchRequest, DeviceOwner, same_owner}
use agent_tunnel.Device.Requests.{
  mark_accepted, mark_session_ready, is_accepted, registered_session_id, complete_request,
}
use agent_tunnel.Device.Launch.{
  complete_ready_launch, resolve_accepted, resolve_request, resolve_launch_if_owner,
  recall_completed, complete_marked, complete_launch_if_owner,
}
use agent_tunnel.Device.Takeover.{requests-clear_request}

abbrev pub without : Text → Text → Option LaunchRequest → Option LaunchRequest
without k id o = if k == id then none else o

requests-complete_ready :
    (r : Registry) (k id session : Text) (q : LaunchRequest)
    → lookup id (complete_ready_launch r k q session).0.requests
      ≡ without k id (lookup id r.requests)
unfolding complete_ready_launch complete_request
requests-complete_ready r k id session q = ground (arith, requests-clear_request r k id)

requests-resolve_accepted :
    (r : Registry) (k id : Text) (p : LaunchRequest)
    → lookup id (resolve_accepted r k p).0.requests ≡ (
        if k == id
        then (if is_empty (registered_session_id p) then some p else none)
        else lookup id r.requests)
unfolding resolve_accepted
requests-resolve_accepted r k id p =
    let stored : Registry = record r { requests = insert k p r.requests } in
    ground (
      arith,
      requests-complete_ready stored k id (registered_session_id p) p,
      lookup-insert k id p r.requests,
    )

requests-complete_marked :
    (r : Registry) (k id session : Text) (p : LaunchRequest)
    → lookup id (complete_marked r k p session).0.requests
      ≡ (if k == id then (if is_accepted p then none else some p) else lookup id r.requests)
unfolding complete_marked
requests-complete_marked r k id session p =
    let stored : Registry = record r { requests = insert k p r.requests } in
    ground (arith, requests-complete_ready stored k id session p, lookup-insert k id p r.requests)

-- The entry that an answer of the device leaves.
abbrev pub answered_entry : LaunchRequest → Text → Text → Option LaunchRequest
answered_entry q status workspace =
    let p = mark_accepted q workspace in
    if status == codes "accepted"
    then (if is_empty (registered_session_id p) then some p else none)
    else if status == codes "failed"
    then none
    else some q

requests-resolve_request :
    (r : Registry) (k id status reason workspace : Text) (q : LaunchRequest)
    → lookup k r.requests ≡ some q
    → lookup id (resolve_request r k q status reason workspace).0.requests
      ≡ (if k == id then answered_entry q status workspace else lookup id r.requests)
unfolding resolve_request complete_request
requests-resolve_request r k id status reason workspace q at = ground (
  arith,
  at,
  requests-resolve_accepted r k id (mark_accepted q workspace),
  requests-clear_request r k id,
)

-- Nobody answers for the launch of another connection.
pub requests-resolve :
    (r : Registry) (device : Text) (peer : Peer) (k id status reason workspace : Text)
    (q : LaunchRequest)
    → lookup k r.requests ≡ some q
    → lookup id (resolve_launch_if_owner r device peer k status reason workspace).0.requests ≡ (
        if k == id && (q.device_id == device && q.peer == peer)
        then answered_entry q status workspace
        else lookup id r.requests)
unfolding resolve_launch_if_owner
requests-resolve r device peer k id status reason workspace q at =
    ground (arith, at, requests-resolve_request r k id status reason workspace q at)

pub requests-resolve_missing :
    (r : Registry) (device : Text) (peer : Peer) (k status reason workspace : Text)
    → lookup k r.requests ≡ none
    → (resolve_launch_if_owner r device peer k status reason workspace).0 ≡ r
unfolding resolve_launch_if_owner
requests-resolve_missing r device peer k status reason workspace at = ground (arith, at)

-- The entry that a session leaves.
abbrev pub heard_entry : LaunchRequest → Text → Option LaunchRequest
heard_entry q session =
    let p = mark_session_ready q session in if is_accepted p then none else some p

recall-untouched :
    (r : Registry) (k : Text) (owner : DeviceOwner)
    → (recall_completed r k owner).0.requests ≡ r.requests
unfolding recall_completed
recall-untouched r k owner = elim (Option-cases (lookup k r.completed_launches)) [
  | inl e ↦ ground arith
  | inr (done, e) ↦ ground arith
]

-- No session of another owner ends a launch.
pub requests-complete_launch :
    (r : Registry) (k id session : Text) (owner : DeviceOwner) (q : LaunchRequest)
    → lookup k r.requests ≡ some q
    → lookup id (complete_launch_if_owner r k owner session).0.requests ≡ (
        if k == id && (same_owner q.owner owner && not (is_empty (trim session)))
        then heard_entry q (trim session)
        else lookup id r.requests)
unfolding complete_launch_if_owner
requests-complete_launch r k id session owner q at = ground (
  arith,
  at,
  recall-untouched r k owner,
  requests-complete_marked r k id (trim session) (mark_session_ready q (trim session)),
)

pub requests-complete_missing :
    (r : Registry) (k session : Text) (owner : DeviceOwner)
    → lookup k r.requests ≡ none
    → (complete_launch_if_owner r k owner session).0.requests ≡ r.requests
unfolding complete_launch_if_owner
requests-complete_missing r k session owner at = ground (arith, at, recall-untouched r k owner)
