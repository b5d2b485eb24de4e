-- ===== src/Device/Lifecycle/Kept.antt =====
-- What connections that come and go leave of the launches.
use agent_tunnel.Base.{
  ℕ, ◌≡◌, refl, sym, ap, ◌∙◌, subst, false, ◌⊎◌, none, some, Option, ◌==◌, nat_eq, Bool-cases,
  Option-cases, inl, inr, arith,
}
use agent_tunnel.Base.Text.{Text, text_eq}
use agent_tunnel.Base.Peer.{Peer, peer_eq}
use agent_tunnel.Base.Dict.{Dict, lookup, delete, filter_option, for_each, for_each-kept, pick}
use agent_tunnel.Device.{Registry, LaunchRequest, LiveDevice, DeviceOwner}
use agent_tunnel.Device.Frames.{DeviceInfo}
use agent_tunnel.Device.Connections.{
  fail_requests, register_owned, retire, store_device, activate_pending, activate_taken,
  disconnect_if_owner, disconnect_agent_token_devices, drop_device, drop_pending, device_of_token,
  pending_of_token,
}
use agent_tunnel.Device.InFlight.{Tidy, all}
use agent_tunnel.Device.Offline.{lose-Tidy}
use agent_tunnel.Device.Takeover.{goes_on, requests-fail_requests}

-- The launch under the id is as it was, or it was not accepted and is given up.
pub data Kept (id : Text) (m n : Dict Text LaunchRequest) : Type 0 where
  same : lookup id n ≡ lookup id m → Kept id m n
  given_up :
      (q : LaunchRequest)
      → lookup id m ≡ some q
      → q.accepted ≡ false
      → lookup id n ≡ none
      → Kept id m n

trans-Kept : (id : Text) (m n l : Dict Text LaunchRequest) → Kept id m n → Kept id n l → Kept id m l
trans-Kept id m n l (same e) (same f) = same (f ∙ e)
trans-Kept id m n l (same e) (given_up q found early gone) = given_up q (sym e ∙ found) early gone
trans-Kept id m n l (given_up q found early gone) (same f) = given_up q found early (f ∙ gone)
trans-Kept id m n l (given_up q found early gone) (given_up p again _ _) = absurd (cc (gone, again))

filtered-Kept :
    (id device : Text) (r s : Registry)
    → Tidy all r
    → lookup id s.requests ≡ filter_option (goes_on device) (lookup id r.requests)
    → Kept id r.requests s.requests
filtered-Kept id device r s w e = elim (Option-cases (lookup id r.requests)) [
  | inl missing ↦ same (ground (arith, e, missing))
  | inr (q, found) ↦ elim (Bool-cases (goes_on device q)) [
    | inl on ↦ same (ground (arith, e, found, on))
    | inr off ↦
        given_up q found (ground (arith, off, (w.named id q found).1))
          (ground (arith, e, found, off))
  ]
]

fail_requests-Kept :
    (id device : Text) (r : Registry)
    → Tidy all r
    → Kept id r.requests (fail_requests r device).0.requests
fail_requests-Kept id device r w =
    filtered-Kept id device r (fail_requests r device).0 w
      (requests-fail_requests r device id w.distinct)

lose-Kept :
    (id device : Text) (r : Registry)
    → Tidy all r
    → Kept id r.requests
        (fail_requests (record r { devices = delete device r.devices }) device).0.requests
lose-Kept id device r w =
    let rest : Registry = record r { devices = delete device r.devices } in
    filtered-Kept id device r (fail_requests rest device).0 w
      (requests-fail_requests rest device id w.distinct)

retire-Kept :
    (id device : Text) (old : Option LiveDevice) (peer : Peer) (r : Registry)
    → Tidy all r
    → Kept id r.requests (retire r device old peer).0.requests
unfolding retire
retire-Kept id device none peer r w = same refl
retire-Kept id device (some old) peer r w = elim (Bool-cases (old.peer == peer)) [
  | inl e ↦ same (rw e refl)
  | inr e ↦ rw e (fail_requests-Kept id device r w)
]

pub register_owned-Kept :
    (id : Text) (r : Registry) (info : DeviceInfo) (owner : DeviceOwner) (peer : Peer) (now : ℕ)
    → Tidy all r
    → Kept id r.requests (register_owned r info owner peer now).0.requests
unfolding register_owned store_device
register_owned-Kept id r info owner peer now w =
    retire-Kept id info.device_id (lookup info.device_id r.devices) peer r w

-- An operation with two outcomes.
either-Kept :
    (id : Text) (m n l : Dict Text LaunchRequest) → Kept id m n → (l ≡ m) ⊎ (l ≡ n) → Kept id m l
either-Kept id m n l h (inl e) = same (ap (lookup id) e)
either-Kept id m n l h (inr e) = subst (Kept id m) (sym e) h

activate_taken-outcome :
    (r : Registry) (info : DeviceInfo) (owner : DeviceOwner) (peer : Peer) (now : ℕ)
    → let after = (activate_taken r info owner peer now).0.requests in
      (after ≡ r.requests) ⊎ (after ≡ (register_owned r info owner peer now).0.requests)
unfolding activate_taken
activate_taken-outcome r info owner peer now = ground arith

activate_pending-outcome :
    (r : Registry) (info : DeviceInfo) (owner : DeviceOwner) (peer : Peer) (now : ℕ)
    → let after = (activate_pending r info owner peer now).0.requests in
      let taken : Registry = record r { pending = delete peer r.pending } in
      (after ≡ r.requests) ⊎ (after ≡ (register_owned taken info owner peer now).0.requests)
unfolding activate_pending
activate_pending-outcome r info owner peer now = elim (Option-cases (lookup peer r.pending)) [
  | inl e ↦ ground arith
  | inr (known, e) ↦ ground (
    arith,
    activate_taken-outcome (record r { pending = delete peer r.pending }) info owner peer now,
  )
]

pub activate_pending-Kept :
    (id : Text) (r : Registry) (info : DeviceInfo) (owner : DeviceOwner) (peer : Peer) (now : ℕ)
    → Tidy all r
    → Kept id r.requests (activate_pending r info owner peer now).0.requests
activate_pending-Kept id r info owner peer now w =
    let taken : Registry = record r { pending = delete peer r.pending } in
    either-Kept id r.requests (register_owned taken info owner peer now).0.requests _
      (register_owned-Kept id taken info owner peer now w)
      (activate_pending-outcome r info owner peer now)

disconnect-outcome :
    (r : Registry) (device : Text) (peer : Peer)
    → let after = (disconnect_if_owner r device peer).0.requests in
      let rest : Registry = record r { devices = delete device r.devices } in
      (after ≡ r.requests) ⊎ (after ≡ (fail_requests rest device).0.requests)
unfolding disconnect_if_owner
disconnect-outcome r device peer = elim (Option-cases (lookup device r.devices)) [
  | inl e ↦ ground arith
  | inr (live, e) ↦ ground arith
]

pub disconnect_if_owner-Kept :
    (id : Text) (r : Registry) (device : Text) (peer : Peer)
    → Tidy all r
    → Kept id r.requests (disconnect_if_owner r device peer).0.requests
disconnect_if_owner-Kept id r device peer w =
    let rest : Registry = record r { devices = delete device r.devices } in
    either-Kept id r.requests (fail_requests rest device).0.requests _ (lose-Kept id device r w)
      (disconnect-outcome r device peer)

pub disconnect_agent_token-Kept :
    (id : Text) (r : Registry) (token : Text)
    → Tidy all r
    → Kept id r.requests (disconnect_agent_token_devices r token).0.requests
unfolding disconnect_agent_token_devices drop_device drop_pending
disconnect_agent_token-Kept id r token w =
    let devices = pick (device_of_token token) r.devices in
    let dropped =
      for_each-kept (λ s. Tidy all s × Kept id r.requests s.requests) drop_device
        (λ device _ s kept. (
          lose-Tidy device s kept.0,
          trans-Kept id r.requests s.requests _ kept.1 (lose-Kept id device s kept.0),
        ))
        devices r (w, same refl) in
    for_each-kept (λ s. Kept id r.requests s.requests) drop_pending (λ _ _ _ kept. kept)
      (pick (pending_of_token token) r.pending) (for_each drop_device devices r).0 dropped.1
