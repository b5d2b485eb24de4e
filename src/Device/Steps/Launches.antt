-- ===== src/Device/Steps/Launches.antt =====
-- The steps of launches keep the registry in order.
use agent_tunnel.Base.{◌≡◌, sym, subst, Bool, some, nat_eq, Option-cases, inl, inr, arith}
use agent_tunnel.Base.Text.{Text, text_eq, trim}
use agent_tunnel.Base.Peer.{Peer, peer_eq}
use agent_tunnel.Base.Dict.{lookup, insert}
use agent_tunnel.Device.{Registry, DeviceOwner, LaunchRequest, LaunchResult}
use agent_tunnel.Device.Requests.{
  clear_request, complete_request, mark_accepted, mark_session_ready, registered_session_id,
}
use agent_tunnel.Device.Launch.{
  send_launch, timeout_launch_request, expire_launch, complete_ready_launch, resolve_accepted,
  resolve_request, resolve_launch_if_owner, recall_completed, complete_marked,
  complete_launch_if_owner,
}
use agent_tunnel.Device.InFlight.{Tidy, all, remark-InOrder, clear-Tidy}

pub send_launch-Tidy :
    (r : Registry) (id : Text) (peer : Peer) (expired delivered : Bool) (command cwd label : Text)
    → Tidy all r
    → Tidy all (send_launch r id peer expired delivered command cwd label).0
unfolding send_launch
send_launch-Tidy r id peer expired delivered command cwd label w =
    ground (arith, w, clear-Tidy all r id w)

pub expire_launch-Tidy : (r : Registry) (id : Text) → Tidy all r → Tidy all (expire_launch r id).0
unfolding expire_launch timeout_launch_request
expire_launch-Tidy r id w = elim (Option-cases (clear_request r id).1) [
  | inl e ↦ ground (arith, clear-Tidy all r id w)
  | inr (q, e) ↦ ground (arith, clear-Tidy all r id w)
]

complete_request-Tidy :
    (r : Registry) (id : Text) (result : LaunchResult)
    → Tidy all r
    → Tidy all (complete_request r id result).0
unfolding complete_request
complete_request-Tidy r id result w = clear-Tidy all r id w

complete_ready-Tidy :
    (r : Registry) (id : Text) (q : LaunchRequest) (session : Text)
    → Tidy all r
    → Tidy all (complete_ready_launch r id q session).0
unfolding complete_ready_launch complete_request
complete_ready-Tidy r id q session w = ground (arith, clear-Tidy all r id w)

mark_accepted-kept :
    (q : LaunchRequest) (workspace : Text)
    → let p = mark_accepted q workspace in
      (p.id ≡ q.id) × (p.device_id ≡ q.device_id) × (p.completed ≡ q.completed)
mark_accepted-kept q workspace = ground arith

mark_session_ready-kept :
    (q : LaunchRequest) (session : Text)
    → let p = mark_session_ready q session in
      (p.id ≡ q.id) × (p.device_id ≡ q.device_id) × (p.completed ≡ q.completed)
mark_session_ready-kept q session = ground arith

remark-Tidy :
    (r : Registry) (id : Text) (q p : LaunchRequest)
    → lookup id r.requests ≡ some q
    → (p.id ≡ q.id) × (p.device_id ≡ q.device_id) × (p.completed ≡ q.completed)
    → Tidy all r
    → Tidy all (record r { requests = insert id p r.requests })
remark-Tidy r id q p at (same_id, same_device, same_completed) w =
    remark-InOrder all r.devices r.requests id q p at same_id same_device same_completed w

resolve_accepted-Tidy :
    (r : Registry) (id : Text) (q : LaunchRequest) (workspace : Text)
    → lookup id r.requests ≡ some q
    → Tidy all r
    → Tidy all (resolve_accepted r id (mark_accepted q workspace)).0
unfolding resolve_accepted
resolve_accepted-Tidy r id q workspace at w =
    let p = mark_accepted q workspace in
    let stored : Registry = record r { requests = insert id p r.requests } in
    let kept = remark-Tidy r id q p at (mark_accepted-kept q workspace) w in
    ground (arith, kept, complete_ready-Tidy stored id p (registered_session_id p) kept)

resolve_request-Tidy :
    (r : Registry) (id : Text) (q : LaunchRequest) (status reason workspace : Text)
    → lookup id r.requests ≡ some q
    → Tidy all r
    → Tidy all (resolve_request r id q status reason workspace).0
unfolding resolve_request complete_request
resolve_request-Tidy r id q status reason workspace at w =
    ground (arith, w, resolve_accepted-Tidy r id q workspace at w, clear-Tidy all r id w)

pub resolve_launch-Tidy :
    (r : Registry) (device : Text) (peer : Peer) (id status reason workspace : Text)
    → Tidy all r
    → Tidy all (resolve_launch_if_owner r device peer id status reason workspace).0
unfolding resolve_launch_if_owner
resolve_launch-Tidy r device peer id status reason workspace w =
    elim (Option-cases (lookup id r.requests)) [
      | inl e ↦ ground (arith, w)
      | inr (q, e) ↦ ground (arith, w, resolve_request-Tidy r id q status reason workspace e w)
    ]

recall_completed-untouched :
    (r : Registry) (id : Text) (owner : DeviceOwner) → (recall_completed r id owner).0 ≡ r
unfolding recall_completed
recall_completed-untouched r id owner = elim (Option-cases (lookup id r.completed_launches)) [
  | inl e ↦ ground arith
  | inr (done, e) ↦ ground arith
]

complete_marked-Tidy :
    (r : Registry) (id : Text) (q : LaunchRequest) (ready session : Text)
    → lookup id r.requests ≡ some q
    → Tidy all r
    → Tidy all (complete_marked r id (mark_session_ready q ready) session).0
unfolding complete_marked
complete_marked-Tidy r id q ready session at w =
    let p = mark_session_ready q ready in
    let stored : Registry = record r { requests = insert id p r.requests } in
    let kept = remark-Tidy r id q p at (mark_session_ready-kept q ready) w in
    ground (arith, kept, complete_ready-Tidy stored id p session kept)

pub complete_launch-Tidy :
    (r : Registry) (id : Text) (owner : DeviceOwner) (session : Text)
    → Tidy all r
    → Tidy all (complete_launch_if_owner r id owner session).0
unfolding complete_launch_if_owner
complete_launch-Tidy r id owner session w =
    let recalled : Tidy all (recall_completed r id owner).0 =
      subst (Tidy all) (sym (recall_completed-untouched r id owner)) w in
    elim (Option-cases (lookup id r.requests)) [
      | inl e ↦ ground (arith, recalled)
      | inr (q, e) ↦
          ground (arith, recalled, complete_marked-Tidy r id q (trim session) (trim session) e w)
    ]
