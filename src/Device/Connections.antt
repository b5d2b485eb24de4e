-- ===== src/Device/Connections.antt =====
-- internal/relay/device/registry.go: devices that connect, take over, change and leave. A device
-- connects in two phases where its credentials are checked in between: it is pending, then active.
use agent_tunnel.Base.{
  ℕ, ◌+◌, Bool, true, false, not, ◌||◌, Option, none, some, List, [], ◌∷◌, ◌++◌, ◌==◌, nat_eq,
  if◌then◌else◌, ltb, length, map,
}
use agent_tunnel.Base.Text.{Text, text_eq, text_ltb, codes}
use agent_tunnel.Base.Peer.{Peer, is_nil, peer_eq}
use agent_tunnel.Base.Dict.{lookup, insert, delete, pick, select, for_each}
use agent_tunnel.Device.{
  DeviceOwner, LaunchResult, TerminateResult, LiveDevice, Registry, Effect, closed, deactivate,
  same_owner,
}
use agent_tunnel.Device.Frames.{DeviceInfo}
use agent_tunnel.Device.Requests.{
  has_pending_request, complete_device_requests, complete_device_terminate_requests,
}

abbrev pub offline_launch : LaunchResult
offline_launch = record {
  request_id = [];
  status = codes "failed";
  session_id = [];
  reason = codes "device_offline";
}

abbrev pub offline_termination : TerminateResult
offline_termination = record {
  request_id = [];
  status = codes "failed";
  reason = codes "device_offline";
}

-- Both loops over the requests of a device that is gone.
unfoldable pub fail_requests : Registry → Text → Registry × List Effect
fail_requests r device_id =
    let (launches, failed) = complete_device_requests r device_id offline_launch in
    let (last, others) =
      complete_device_terminate_requests launches device_id offline_termination in
    (last, failed ++ others)

-- if old != nil && old.peer != peer
abbrev pub is_replaced : Option LiveDevice → Peer → Bool
is_replaced none peer = false
is_replaced (some old) peer = not (old.peer == peer)

unfoldable pub retire : Registry → Text → Option LiveDevice → Peer → Registry × List Effect
retire r device_id none peer = (r, [])
retire r device_id (some old) peer =
    let (failed, effects) = fail_requests r device_id in
    if old.peer == peer then (r, []) else (failed, deactivate old.peer ++ effects)

unfoldable pub close_replaced : Option LiveDevice → Peer → List Effect
close_replaced none peer = []
close_replaced (some old) peer = if old.peer == peer then [] else closed old.peer ∷ []

-- r.devices[info.DeviceID] = &liveDevice{...}
unfoldable pub store_device : Registry → DeviceInfo → DeviceOwner → Peer → ℕ → Registry
store_device r info owner peer now = record r {
  devices =
      insert info.device_id
        (record {
          info = info;
          owner = owner;
          peer = peer;
          connected_at = now;
          in_flight = has_pending_request r.requests info.device_id;
        })
        r.devices;
}

unfoldable pub register_owned :
    Registry → DeviceInfo → DeviceOwner → Peer → ℕ → Registry × List Effect
unfolding retire store_device close_replaced
register_owned r info owner peer now =
    let old = lookup info.device_id r.devices in
    let (retired, effects) = retire r info.device_id old peer in
    (store_device retired info owner peer now, effects ++ close_replaced old peer)

unfoldable pub register_pending : Registry → DeviceOwner → Peer → Registry
register_pending r owner peer = record r { pending = insert peer owner r.pending }

unfoldable pub disconnect_pending : Registry → Peer → Registry × Bool × List Effect
disconnect_pending r peer = elim (lookup peer r.pending) [
  | none ↦ (r, false, [])
  | some owner ↦ (record r { pending = delete peer r.pending }, true, deactivate peer)
]

-- The device is known to another user.
abbrev pub is_foreign : Option LiveDevice → DeviceOwner → Bool
is_foreign none owner = false
is_foreign (some old) owner = not (old.owner.user_id == owner.user_id)

unfoldable pub activate_taken :
    Registry → DeviceInfo → DeviceOwner → Peer → ℕ → Registry × Bool × List Effect
unfolding register_owned
activate_taken r info owner peer now =
    let (registered, effects) = register_owned r info owner peer now in
    if is_foreign (lookup info.device_id r.devices) owner
    then (r, false, [])
    else (registered, true, effects)

unfoldable pub activate_pending :
    Registry → DeviceInfo → DeviceOwner → Peer → ℕ → Registry × Bool × List Effect
unfolding activate_taken
activate_pending r info owner peer now = elim (lookup peer r.pending) [
  | none ↦ (r, false, [])
  | some pending_owner ↦
      if not (same_owner pending_owner owner)
      then (r, false, [])
      else activate_taken (record r { pending = delete peer r.pending }) info owner peer now
]

unfoldable pub update_if_owner : Registry → Text → Peer → DeviceInfo → Registry × Bool
update_if_owner r device_id owner info = elim (lookup device_id r.devices) [
  | none ↦ (r, false)
  | some live ↦
      if not (live.peer == owner)
      then (r, false)
      else (record r { devices = insert device_id (record live { info = info }) r.devices }, true)
]

unfoldable pub disconnect_if_owner : Registry → Text → Peer → Registry × Bool × List Effect
disconnect_if_owner r device_id owner = elim (lookup device_id r.devices) [
  | none ↦ (r, false, [])
  | some live ↦
      let (failed, effects) =
        fail_requests (record r { devices = delete device_id r.devices }) device_id in
      if is_nil owner || not (live.peer == owner)
      then (r, false, [])
      else (failed, true, deactivate owner ++ effects ++ closed owner ∷ [])
]

-- One round of each loop of DisconnectAgentTokenDevices.
unfoldable pub drop_device : Text → LiveDevice → Registry → Registry × List Effect
drop_device device_id live r =
    let (failed, effects) =
      fail_requests (record r { devices = delete device_id r.devices }) device_id in
    (failed, deactivate live.peer ++ effects ++ closed live.peer ∷ [])

unfoldable pub drop_pending : Peer → DeviceOwner → Registry → Registry × List Effect
drop_pending peer owner r =
    (record r { pending = delete peer r.pending }, deactivate peer ++ closed peer ∷ [])

abbrev pub device_of_token : Text → Text → LiveDevice → Bool
device_of_token token_id _ live = live.owner.agent_token_id == token_id

abbrev pub pending_of_token : Text → Peer → DeviceOwner → Bool
pending_of_token token_id _ owner = owner.agent_token_id == token_id

unfoldable pub disconnect_agent_token_devices : Registry → Text → Registry × ℕ × List Effect
unfolding drop_device drop_pending
disconnect_agent_token_devices r token_id =
    let devices = pick (device_of_token token_id) r.devices in
    let pending = pick (pending_of_token token_id) r.pending in
    let (dropped, effects) = for_each drop_device devices r in
    let (last, others) = for_each drop_pending pending dropped in
    (last, length devices + length pending, effects ++ others)

-- The order of ListForUser: the latest connection first, then by id.
unfoldable pub before : LiveDevice → LiveDevice → Bool
before a b =
    if a.connected_at == b.connected_at
    then text_ltb a.info.device_id b.info.device_id
    else ltb b.connected_at a.connected_at

unfoldable pub place : LiveDevice → List LiveDevice → List LiveDevice
place d [] = d ∷ []
place d (x ∷ xs) = let rest = place d xs in if before x d then x ∷ rest else d ∷ x ∷ xs

unfoldable pub sort_devices : List LiveDevice → List LiveDevice
sort_devices [] = []
sort_devices (d ∷ ds) = place d (sort_devices ds)

unfoldable pub list_for_user : Registry → ℕ → List DeviceInfo
unfolding before place sort_devices
list_for_user r user_id =
    map (λ live. live.info)
      (sort_devices (select (λ _ live. live.owner.user_id == user_id) r.devices))
