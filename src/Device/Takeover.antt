-- ===== src/Device/Takeover.antt =====
-- What becomes of the launches of a device whose connection is lost or replaced.
use agent_tunnel.Base.{
  ℕ, ◌≡◌, ◌≢◌, refl, sym, ap, ◌∙◌, subst, Any, here, append-Any_left, append-Any_right, Bool, false,
  not, ◌&&◌, ◌||◌, none, some, Option, [], ◌∷◌, ◌++◌, ◌==◌, if◌then◌else◌, Bool-cases, Option-cases,
  inl, inr, arith,
}
use agent_tunnel.Base.Text.{Text, text_eq}
use agent_tunnel.Base.Peer.{Peer, peer_eq}
use agent_tunnel.Base.Dict.{Dict, lookup, lookup-delete, for_each, filter_option, Distinct}
use agent_tunnel.Device.{
  Registry, LiveDevice, LaunchRequest, LaunchResult, DeviceOwner, Effect, launch_done, deactivate,
}
use agent_tunnel.Device.Frames.{DeviceInfo}
use agent_tunnel.Device.Requests.{
  clear_request, complete, complete_launch_request, is_accepted, complete_unaccepted,
  complete_device_requests,
}
use agent_tunnel.Device.Connections.{
  fail_requests, offline_launch, offline_termination, register_owned, retire, store_device,
}
use agent_tunnel.Device.InFlight.{Tidy, all}
use agent_tunnel.Device.Offline.{terminations-untouched}

-- The launch goes on without its device.
abbrev pub goes_on : Text → LaunchRequest → Bool
goes_on device q = not (q.device_id == device) || is_accepted q

pub requests-clear_request :
    (r : Registry) (k id : Text)
    → lookup id (clear_request r k).0.requests ≡ (if k == id then none else lookup id r.requests)
unfolding clear_request
requests-clear_request r k id = elim (Option-cases (lookup k r.requests)) [
  | inl e ↦ ground (arith, lookup-delete k id r.requests)
  | inr (q, e) ↦ ground (arith, lookup-delete k id r.requests)
]

requests-round :
    (device k id : Text) (result : LaunchResult) (q : LaunchRequest) (r : Registry)
    → lookup id (complete_unaccepted device result k q r).0.requests
      ≡ (if k == id && not (goes_on device q) then none else lookup id r.requests)
unfolding complete_unaccepted
requests-round device k id result q r = ground (arith, requests-clear_request r k id)

-- The entry of the loop that decides about an id.
abbrev decided : Text → Option LaunchRequest → Option LaunchRequest → Option LaunchRequest
decided device none rest = rest
decided device (some q) rest = if goes_on device q then rest else none

requests-loop :
    (device id : Text) (result : LaunchResult) (m : Dict Text LaunchRequest) (r : Registry)
    → Distinct m
    → lookup id (for_each (complete_unaccepted device result) m r).0.requests
      ≡ decided device (lookup id m) (lookup id r.requests)
unfolding for_each lookup
requests-loop device id result [] r d = refl
requests-loop device id result ((k, q) ∷ m) r d =
    let next = (complete_unaccepted device result k q r).0 in
    ground
      (arith, d.0, requests-loop device id result m next d.1, requests-round device k id result q r)

decided-filter :
    (device : Text) (o : Option LaunchRequest)
    → decided device o o ≡ filter_option (goes_on device) o
decided-filter device none = refl
decided-filter device (some q) = refl

-- The loop gives up the launches of the device that it has not accepted, and no others.
pub requests-fail_requests :
    (r : Registry) (device id : Text)
    → Distinct r.requests
    → lookup id (fail_requests r device).0.requests
      ≡ filter_option (goes_on device) (lookup id r.requests)
unfolding fail_requests complete_device_requests
requests-fail_requests r device id d =
    let launches = (complete_device_requests r device offline_launch).0 in
    ap (lookup id) (terminations-untouched device offline_termination launches).1
    ∙ requests-loop device id offline_launch r.requests r d
    ∙ decided-filter device (lookup id r.requests)

-- The caller that waits for a launch is told that the device is offline.
abbrev pub TellsOffline : LaunchRequest → Effect → Type 0
TellsOffline q effect = effect ≡ launch_done q.id (record offline_launch { request_id = q.id })

round-TellsOffline :
    (device k : Text) (q : LaunchRequest) (r : Registry)
    → q.completed ≡ false
    → goes_on device q ≡ false
    → Any (TellsOffline q) (complete_unaccepted device offline_launch k q r).1
unfolding complete_unaccepted complete_launch_request complete
round-TellsOffline device k q r live gone =
    let told = launch_done q.id (record offline_launch { request_id = q.id }) in
    let e : (complete_unaccepted device offline_launch k q r).1 ≡ told ∷ [] = ground arith in
    subst (Any (TellsOffline q)) (sym e) (here told [] refl)

loop-TellsOffline :
    (device id : Text) (q : LaunchRequest) (m : Dict Text LaunchRequest) (r : Registry)
    → lookup id m ≡ some q
    → q.completed ≡ false
    → goes_on device q ≡ false
    → Any (TellsOffline q) (for_each (complete_unaccepted device offline_launch) m r).1
unfolding for_each lookup
loop-TellsOffline device id q [] r at live gone = cc
loop-TellsOffline device id q ((k, p) ∷ m) r at live gone =
    let (next, effects) = complete_unaccepted device offline_launch k p r in
    let others = (for_each (complete_unaccepted device offline_launch) m next).1 in
    elim (Bool-cases (k == id)) [
      | inl e ↦
          let found : p ≡ q = ground (arith, e, at) in
          append-Any_left effects others (
            subst (λ s. Any (TellsOffline s) effects) found
              (round-TellsOffline device k p r (ap (λ s. s.completed) found ∙ live)
                (ap (goes_on device) found ∙ gone)))
      | inr e ↦
          append-Any_right effects others
            (loop-TellsOffline device id q m next (ground (arith, e, at)) live gone)
    ]

fail_requests-TellsOffline :
    (r : Registry) (device id : Text) (q : LaunchRequest)
    → lookup id r.requests ≡ some q
    → q.completed ≡ false
    → goes_on device q ≡ false
    → Any (TellsOffline q) (fail_requests r device).1
unfolding fail_requests complete_device_requests
fail_requests-TellsOffline r device id q at live gone =
    append-Any_left _ _ (loop-TellsOffline device id q r.requests r at live gone)

retire-other :
    (r : Registry) (device : Text) (old : LiveDevice) (peer : Peer)
    → lookup device r.devices ≡ some old
    → old.peer ≢ peer
    → retire r device (lookup device r.devices) peer
      ≡ ((fail_requests r device).0, deactivate old.peer ++ (fail_requests r device).1)
unfolding retire
retire-other r device old peer at other = rw at (ground arith)

-- When another connection takes a device over, exactly its launches which are not accepted are given
-- up, and who waits for one of them learns that the device is offline.
pub register_owned-takeover :
    (r : Registry) (info : DeviceInfo) (owner : DeviceOwner) (peer : Peer) (now : ℕ)
    (old : LiveDevice) (id : Text)
    → Tidy all r
    → lookup info.device_id r.devices ≡ some old
    → old.peer ≢ peer
    → let (after, effects) = register_owned r info owner peer now in
      (lookup id after.requests ≡ filter_option (goes_on info.device_id) (lookup id r.requests))
      × ((q : LaunchRequest)
          → lookup id r.requests ≡ some q
          → goes_on info.device_id q ≡ false
          → Any (TellsOffline q) effects)
unfolding register_owned store_device
register_owned-takeover r info owner peer now old id w at other =
    let retired = retire-other r info.device_id old peer at other in
    (
      ap (λ s. lookup id s.0.requests) retired
          ∙ requests-fail_requests r info.device_id id w.distinct,
      λ q found gone. append-Any_left _ _ (
          subst (λ s. Any (TellsOffline q) s.1) (sym retired)
            (append-Any_right (deactivate old.peer) _ (
              fail_requests-TellsOffline r info.device_id id q found (w.named id q found).1 gone))),
    )
