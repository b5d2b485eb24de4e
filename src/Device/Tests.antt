-- ===== src/Device/Tests.antt =====
-- Runs of the device registry, and its theorems at concrete inputs: a user's computer connects, is
-- asked to launch a session, and answers.
use agent_tunnel.Base.{◌≡◌, ◌≢◌, refl, true, false, some, [], ◌∷◌, nat_eq, Any, ℕ_discrete}
use agent_tunnel.Base.Text.{Text, codes, Text-discrete, text_eq, trim, is_empty}
use agent_tunnel.Base.Peer.{conn, Peer-discrete}
use agent_tunnel.Base.Dict.{lookup, insert, delete, filter_option}
use agent_tunnel.Device.{
  Registry, new_registry, DeviceOwner, LiveDevice, LaunchRequest, launch_done,
}
use agent_tunnel.Device.Frames.{DeviceInfo}
use agent_tunnel.Device.Clock.{launch_request_id}
use agent_tunnel.Device.Requests.{has_pending_request}
use agent_tunnel.Device.Connections.{
  register_owned, retire, store_device, disconnect_if_owner, update_if_owner,
}
use agent_tunnel.Device.Launch.{
  begin_launch, begin_on, new_request, complete_launch_if_owner, complete_marked,
  complete_ready_launch, resolve_launch_if_owner, resolve_request, resolve_accepted,
}
use agent_tunnel.Device.Machine.{
  step, Reachable, start, next, registered, launch_begun, launch_expired, launch_resolved,
}
use agent_tunnel.Device.Steps.{reachable-Tidy, in_flight-has_pending_request}
use agent_tunnel.Device.Takeover.{goes_on, TellsOffline, register_owned-takeover}
use agent_tunnel.Device.Ownership.{Owned, disconnect-register_other, complete-Owned}
use agent_tunnel.Device.Orders.{IsFresh, accept, session_ready, accept-complete_launch}
use agent_tunnel.Device.Lifecycle.Simulation.{Simulated}
use agent_tunnel.Device.Lifecycle.Refinement.{step-Simulated}

abbrev owner : DeviceOwner
owner = record { user_id = 1; agent_token_id = codes "t" }

abbrev info : DeviceInfo
info = record {
  device_id = codes "d";
  display_name = codes "desk";
  platform_family = codes "linux";
  platform_id = codes "arch";
  launch_health = [];
}

abbrev id : Text
id = launch_request_id (codes "d") 7

abbrev connected : Registry
connected = step new_registry (registered info owner (conn 1) 5)

abbrev launching : Registry
launching = step connected (launch_begun (codes "d") 1 7)

launching-Reachable : Reachable launching
launching-Reachable =
    next (next start (registered info owner (conn 1) 5)) (launch_begun (codes "d") 1 7)

abbrev device : LiveDevice
device = record { info = info; owner = owner; peer = conn 1; connected_at = 5; in_flight = true }

abbrev request : LaunchRequest
request = new_request id (codes "d") device

launching-device : lookup (codes "d") launching.devices ≡ some device
unfolding step register_owned retire store_device begin_launch begin_on lookup insert delete
    Text-discrete has_pending_request ℕ_discrete
launching-device = refl

launching-request : lookup id launching.requests ≡ some request
unfolding step register_owned retire store_device begin_launch begin_on lookup insert delete
    Text-discrete has_pending_request ℕ_discrete launch_request_id
launching-request = refl

-- The id is the device and the time of day.
id_text : launch_request_id (codes "d") 45296000000123 ≡ codes "d-123456.000000123"
unfolding launch_request_id
id_text = refl

in_flight-has_pending_request_example : true ≡ has_pending_request launching.requests (codes "d")
in_flight-has_pending_request_example =
    in_flight-has_pending_request launching launching-Reachable (codes "d") device launching-device

step-Simulated_example :
    Simulated
      (launch_expired id)
      id
      (lookup id launching.requests)
      (lookup id (step launching (launch_expired id)).requests)
step-Simulated_example = step-Simulated launching launching-Reachable (launch_expired id) id

request-IsFresh : IsFresh launching id request
request-IsFresh = record {
  found = launching-request;
  uncompleted = refl;
  unaccepted = refl;
  no_session = refl;
}

some_session : is_empty (trim (codes "s")) ≡ false
unfolding trim
some_session = refl

accept-complete_launch_example :
    let answered_first = (accept launching id request (codes "w")).0 in
    let session_first = (complete_launch_if_owner launching id owner (codes "s")).0 in
    let (after, target, known, effects) =
      complete_launch_if_owner answered_first id owner (codes "s") in
    let (after', completion, resolved, effects') = accept session_first id request (codes "w") in
    (after ≡ after')
    × (target ≡ completion.target)
    × (known ≡ true)
    × (resolved ≡ true)
    × (effects ≡ launch_done id (session_ready id (trim (codes "s"))) ∷ [])
    × (effects' ≡ launch_done id (session_ready id (trim (codes "s"))) ∷ [])
accept-complete_launch_example =
    accept-complete_launch launching id request (codes "w") (codes "s") request-IsFresh some_session

one_two : conn 1 ≢ conn 2
one_two e = cc e

register_owned-takeover_example :
    let (after, effects) = register_owned launching info owner (conn 2) 9 in
    (lookup id after.requests ≡ filter_option (goes_on (codes "d")) (lookup id launching.requests))
    × ((q : LaunchRequest)
        → lookup id launching.requests ≡ some q
        → goes_on (codes "d") q ≡ false
        → Any (TellsOffline q) effects)
register_owned-takeover_example =
    register_owned-takeover launching info owner (conn 2) 9 device id
      (reachable-Tidy launching launching-Reachable) launching-device one_two

disconnect-register_other_example :
    let taken = (register_owned launching info owner (conn 2) 9).0 in
    (disconnect_if_owner taken (codes "d") (conn 1) ≡ (taken, false, []))
    × (update_if_owner taken (codes "d") (conn 1) info ≡ (taken, false))
disconnect-register_other_example =
    disconnect-register_other launching info info owner (conn 1) (conn 2) 9 one_two

abbrev accepted : Registry
accepted =
    step launching (launch_resolved (codes "d") (conn 1) id (codes "accepted") [] (codes "w"))

accepted-known : (complete_launch_if_owner accepted id owner (codes "s")).2 ≡ true
unfolding step register_owned retire store_device begin_launch begin_on lookup insert delete
    Text-discrete has_pending_request ℕ_discrete launch_request_id resolve_launch_if_owner
    resolve_request resolve_accepted complete_launch_if_owner complete_marked complete_ready_launch
    trim Peer-discrete
accepted-known = refl

complete-Owned_example :
    Owned accepted id owner (complete_launch_if_owner accepted id owner (codes "s")).1
complete-Owned_example = complete-Owned accepted id (codes "s") owner accepted-known
