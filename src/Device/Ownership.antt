-- ===== src/Device/Ownership.antt =====
-- Who may speak for a device and for a launch.
use agent_tunnel.Base.{
  ℕ, ◌≡◌, ◌≢◌, sym, ap, ◌∙◌, subst, true, false, ◌⊎◌, none, some, [], nat_eq, Option-cases, inl,
  inr, arith,
}
use agent_tunnel.Base.Text.{Text, text_eq, trim}
use agent_tunnel.Base.Peer.{Peer, peer_eq}
use agent_tunnel.Base.Dict.{lookup, lookup-insert_self}
use agent_tunnel.Device.{
  Registry, DeviceOwner, LiveDevice, LaunchRequest, CompletedLaunch, TerminateTarget,
}
use agent_tunnel.Device.Frames.{DeviceInfo}
use agent_tunnel.Device.Connections.{
  register_owned, store_device, update_if_owner, disconnect_if_owner,
}
use agent_tunnel.Device.Requests.{mark_session_ready}
use agent_tunnel.Device.Launch.{
  complete_launch_if_owner, complete_marked, recall_completed, complete_ready_launch,
}

disconnect-foreign :
    (r : Registry) (device : Text) (live : LiveDevice) (peer : Peer)
    → lookup device r.devices ≡ some live
    → peer ≢ live.peer
    → disconnect_if_owner r device peer ≡ (r, false, [])
unfolding disconnect_if_owner
disconnect-foreign r device live peer at other = ground (arith, at)

update-foreign :
    (r : Registry) (device : Text) (live : LiveDevice) (peer : Peer) (info : DeviceInfo)
    → lookup device r.devices ≡ some live
    → peer ≢ live.peer
    → update_if_owner r device peer info ≡ (r, false)
unfolding update_if_owner
update-foreign r device live peer info at other = ground (arith, at)

-- A connection that another one has replaced can neither end the device nor change what is known of
-- it.
pub disconnect-register_other :
    (r : Registry) (info changed : DeviceInfo) (owner : DeviceOwner) (old new : Peer) (now : ℕ)
    → old ≢ new
    → let taken = (register_owned r info owner new now).0 in
      (disconnect_if_owner taken info.device_id old ≡ (taken, false, []))
      × (update_if_owner taken info.device_id old changed ≡ (taken, false))
unfolding register_owned store_device
disconnect-register_other r info changed owner old new now other =
    let taken = (register_owned r info owner new now).0 in
    let at = lookup-insert_self info.device_id _ _ in
    (
      disconnect-foreign taken info.device_id _ old at other,
      update-foreign taken info.device_id _ old changed at other,
    )

-- A target that is handed out, and the launch it belongs to: one that the device has accepted, or one
-- that is over.
pub data Owned (r : Registry) (id : Text) (owner : DeviceOwner) (target : TerminateTarget)
    : Type 0 where
  running :
      (q : LaunchRequest)
      → lookup id r.requests ≡ some q
      → q.owner ≡ owner
      → q.accepted ≡ true
      → target.device_id ≡ q.device_id
      → Owned r id owner target
  finished :
      (done : CompletedLaunch)
      → lookup id r.completed_launches ≡ some done
      → done.owner ≡ owner
      → target ≡ done.target
      → Owned r id owner target

recalled-Owned :
    (r : Registry) (id : Text) (owner : DeviceOwner)
    → (recall_completed r id owner).2 ≡ true
    → Owned r id owner (recall_completed r id owner).1
unfolding recall_completed
recalled-Owned r id owner h = elim (Option-cases (lookup id r.completed_launches)) [
  | inl e ↦ absurd (ground arith)
  | inr (done, e) ↦ finished done e (ground arith) (ground arith)
]

marked-accepted :
    (r : Registry) (id session : Text) (q : LaunchRequest)
    → (complete_marked r id (mark_session_ready q session) session).2 ≡ true
    → (q.accepted ≡ true)
      × ((complete_marked r id (mark_session_ready q session) session).1.device_id ≡ q.device_id)
unfolding complete_marked complete_ready_launch
marked-accepted r id session q h = ground (arith, h)

complete-recalled :
    (r : Registry) (id session : Text) (owner : DeviceOwner)
    → lookup id r.requests ≡ none
    → complete_launch_if_owner r id owner session ≡ recall_completed r id owner
unfolding complete_launch_if_owner
complete-recalled r id session owner at = ground (arith, at)

complete-found_request :
    (r : Registry) (id session : Text) (owner : DeviceOwner) (q : LaunchRequest)
    → lookup id r.requests ≡ some q
    → (complete_launch_if_owner r id owner session ≡ recall_completed r id owner)
      ⊎ ((q.owner ≡ owner)
          × (complete_launch_if_owner r id owner session
              ≡ complete_marked r id (mark_session_ready q (trim session)) (trim session)))
unfolding complete_launch_if_owner
complete-found_request r id session owner q at = ground (arith, at)

-- A session is handed no target but that of a launch of its own user and agent token.
pub complete-Owned :
    (r : Registry) (id session : Text) (owner : DeviceOwner)
    → (complete_launch_if_owner r id owner session).2 ≡ true
    → Owned r id owner (complete_launch_if_owner r id owner session).1
complete-Owned r id session owner h =
    let recalled =
      λ (e : complete_launch_if_owner r id owner session ≡ recall_completed r id owner).
        subst (λ s. s.2 ≡ true → Owned r id owner s.1) (sym e) (recalled-Owned r id owner) h in
    elim (Option-cases (lookup id r.requests)) [
      | inl e ↦ recalled (complete-recalled r id session owner e)
      | inr (q, e) ↦ elim (complete-found_request r id session owner q e) [
        | inl back ↦ recalled back
        | inr (mine, done) ↦
            let (accepted, device) =
              marked-accepted r id (trim session) q (sym (ap (λ s. s.2) done) ∙ h) in
            running q e mine accepted (ap (λ s. s.1.device_id) done ∙ device)
      ]
    ]
