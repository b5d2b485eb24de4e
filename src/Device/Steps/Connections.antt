-- ===== src/Device/Steps/Connections.antt =====
-- The steps in which devices connect and leave keep the registry in order.
use agent_tunnel.Base.{ℕ, ◌≡◌, refl, none, some, Option, nat_eq, Option-cases, inl, inr, arith}
use agent_tunnel.Base.Text.{Text, text_eq}
use agent_tunnel.Base.Peer.{Peer, peer_eq}
use agent_tunnel.Base.Dict.{lookup, insert, delete, for_each, for_each-kept, pick}
use agent_tunnel.Device.{Registry, DeviceOwner, LiveDevice}
use agent_tunnel.Device.Frames.{DeviceInfo}
use agent_tunnel.Device.Connections.{
  register_owned, retire, store_device, disconnect_pending, activate_pending, activate_taken,
  update_if_owner, disconnect_if_owner, disconnect_agent_token_devices, drop_device, drop_pending,
  device_of_token, pending_of_token,
}
use agent_tunnel.Device.InFlight.{InOrder, Tidy, all, all_but, all-all_but, store-InOrder}
use agent_tunnel.Device.Offline.{fail_requests-Tidy, lose-Tidy}

retire-Tidy :
    (r : Registry) (device : Text) (old : Option LiveDevice) (peer : Peer)
    → Tidy all r
    → Tidy (all_but device) (retire r device old peer).0
unfolding retire
retire-Tidy r device none peer w = all-all_but device r w
retire-Tidy r device (some old) peer w =
    let weak = all-all_but device r w in
    ground (arith, weak, fail_requests-Tidy (all_but device) r device (ground arith) weak)

pub register_owned-Tidy :
    (r : Registry) (info : DeviceInfo) (owner : DeviceOwner) (peer : Peer) (now : ℕ)
    → Tidy all r
    → Tidy all (register_owned r info owner peer now).0
unfolding register_owned store_device
register_owned-Tidy r info owner peer now w =
    let retired = (retire r info.device_id (lookup info.device_id r.devices) peer).0 in
    store-InOrder retired.devices retired.requests info.device_id _ refl
      (retire-Tidy r info.device_id (lookup info.device_id r.devices) peer w)

activate_taken-Tidy :
    (r : Registry) (info : DeviceInfo) (owner : DeviceOwner) (peer : Peer) (now : ℕ)
    → Tidy all r
    → Tidy all (activate_taken r info owner peer now).0
unfolding activate_taken
activate_taken-Tidy r info owner peer now w =
    ground (arith, w, register_owned-Tidy r info owner peer now w)

pub disconnect_pending-Tidy :
    (r : Registry) (peer : Peer) → Tidy all r → Tidy all (disconnect_pending r peer).0
unfolding disconnect_pending
disconnect_pending-Tidy r peer w = elim (Option-cases (lookup peer r.pending)) [
  | inl e ↦ ground (arith, w)
  | inr (owner, e) ↦ ground (arith, w)
]

pub activate_pending-Tidy :
    (r : Registry) (info : DeviceInfo) (owner : DeviceOwner) (peer : Peer) (now : ℕ)
    → Tidy all r
    → Tidy all (activate_pending r info owner peer now).0
unfolding activate_pending
activate_pending-Tidy r info owner peer now w = elim (Option-cases (lookup peer r.pending)) [
  | inl e ↦ ground (arith, w)
  | inr (known, e) ↦ ground (
    arith,
    w,
    activate_taken-Tidy (record r { pending = delete peer r.pending }) info owner peer now w,
  )
]

updated-InOrder :
    (r : Registry) (device : Text) (live : LiveDevice) (info : DeviceInfo)
    → lookup device r.devices ≡ some live
    → Tidy all r
    → InOrder all (insert device (record live { info = info }) r.devices) r.requests
updated-InOrder r device live info at w =
    store-InOrder r.devices r.requests device (record live { info = info })
      (w.flagged device live refl at) (all-all_but device r w)

pub update_if_owner-Tidy :
    (r : Registry) (device : Text) (peer : Peer) (info : DeviceInfo)
    → Tidy all r
    → Tidy all (update_if_owner r device peer info).0
unfolding update_if_owner
update_if_owner-Tidy r device peer info w = elim (Option-cases (lookup device r.devices)) [
  | inl e ↦ ground (arith, w)
  | inr (live, e) ↦ ground (arith, w, updated-InOrder r device live info e w)
]

pub disconnect_if_owner-Tidy :
    (r : Registry) (device : Text) (peer : Peer)
    → Tidy all r
    → Tidy all (disconnect_if_owner r device peer).0
unfolding disconnect_if_owner
disconnect_if_owner-Tidy r device peer w = elim (Option-cases (lookup device r.devices)) [
  | inl e ↦ ground (arith, w)
  | inr (live, e) ↦ ground (arith, w, lose-Tidy device r w)
]

pub disconnect_agent_token-Tidy :
    (r : Registry) (token : Text) → Tidy all r → Tidy all (disconnect_agent_token_devices r token).0
unfolding disconnect_agent_token_devices drop_device drop_pending
disconnect_agent_token-Tidy r token w =
    let devices = pick (device_of_token token) r.devices in
    for_each-kept (Tidy all) drop_pending (λ _ _ _ kept. kept)
      (pick (pending_of_token token) r.pending) (for_each drop_device devices r).0
      (for_each-kept (Tidy all) drop_device (λ device _ s kept. lose-Tidy device s kept) devices r
        w)
