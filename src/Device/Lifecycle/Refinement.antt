-- ===== src/Device/Lifecycle/Refinement.antt =====
-- The refinement: the registry, seen at one id, is the abstract machine.
use agent_tunnel.Base.{◌≡◌, refl, ap, Option-cases, inl, inr, arith}
use agent_tunnel.Base.Text.{Text, text_eq}
use agent_tunnel.Base.Peer.{Peer, peer_eq}
use agent_tunnel.Base.Dict.{lookup}
use agent_tunnel.Device.{Registry}
use agent_tunnel.Device.Connections.{register_pending, disconnect_pending, update_if_owner}
use agent_tunnel.Device.Frames.{DeviceInfo}
use agent_tunnel.Device.Machine.{
  Op, step, Reachable, registered, pending_registered, pending_left, activated, updated, left,
  token_revoked, launch_begun, launch_sent, launch_expired, launch_resolved, launch_completed,
  terminate_begun, terminate_sent, terminate_expired, terminate_cleared, terminate_resolved,
}
use agent_tunnel.Device.InFlight.{Tidy, all}
use agent_tunnel.Device.Offline.{clear_terminate-untouched}
use agent_tunnel.Device.Steps.{reachable-Tidy}
use agent_tunnel.Device.Steps.Terminations.{
  begin_terminate-same, send_terminate-same, expire_terminate-same, resolve_terminate-same,
}
use agent_tunnel.Device.Lifecycle.Kept.{
  register_owned-Kept, activate_pending-Kept, disconnect_if_owner-Kept, disconnect_agent_token-Kept,
}
use agent_tunnel.Device.Lifecycle.Simulation.{Simulated, idle, disruption, sending, expiry}
use agent_tunnel.Device.Lifecycle.Steps.{answer, hearing, beginning}

pending_left-same :
    (r : Registry) (peer : Peer) → (disconnect_pending r peer).0.requests ≡ r.requests
unfolding disconnect_pending
pending_left-same r peer = elim (Option-cases (lookup peer r.pending)) [
  | inl e ↦ ground arith
  | inr (owner, e) ↦ ground arith
]

updated-same :
    (r : Registry) (device : Text) (peer : Peer) (info : DeviceInfo)
    → (update_if_owner r device peer info).0.requests ≡ r.requests
unfolding update_if_owner
updated-same r device peer info = elim (Option-cases (lookup device r.devices)) [
  | inl e ↦ ground arith
  | inr (live, e) ↦ ground arith
]

simulate :
    (r : Registry) (op : Op) (id : Text)
    → Tidy all r
    → Simulated op id (lookup id r.requests) (lookup id (step r op).requests)
unfolding step register_pending
simulate r (registered info owner peer now) id w =
    disruption _ id r.requests _ refl (register_owned-Kept id r info owner peer now w)
simulate r (pending_registered owner peer) id w = idle _ id _ _ refl
simulate r (pending_left peer) id w = idle _ id _ _ (ap (lookup id) (pending_left-same r peer))
simulate r (activated info owner peer now) id w =
    disruption _ id r.requests _ refl (activate_pending-Kept id r info owner peer now w)
simulate r (updated device peer info) id w =
    idle _ id _ _ (ap (lookup id) (updated-same r device peer info))
simulate r (left device peer) id w =
    disruption _ id r.requests _ refl (disconnect_if_owner-Kept id r device peer w)
simulate r (token_revoked token) id w =
    disruption _ id r.requests _ refl (disconnect_agent_token-Kept id r token w)
simulate r (launch_begun device user now) id w = beginning r device id user now w
simulate r (launch_sent k peer late delivered command cwd label) id w =
    sending r k id peer late delivered command cwd label
simulate r (launch_expired k) id w = expiry r k id
simulate r (launch_resolved device peer k status reason workspace) id w =
    answer r device peer k id status reason workspace w
simulate r (launch_completed k owner session) id w = hearing r k id session owner w
simulate r (terminate_begun user target now) id w =
    idle _ id _ _ (ap (lookup id) (begin_terminate-same r user target now).1)
simulate r (terminate_sent k peer late delivered session target) id w =
    idle _ id _ _ (ap (lookup id) (send_terminate-same r k peer late delivered session target).1)
simulate r (terminate_expired k) id w = idle _ id _ _ (ap (lookup id) (expire_terminate-same r k).1)
simulate r (terminate_cleared k) id w =
    idle _ id _ _ (ap (lookup id) (clear_terminate-untouched r k).1)
simulate r (terminate_resolved device peer k status reason) id w =
    idle _ id _ _ (ap (lookup id) (resolve_terminate-same r device peer k status reason).1)

-- The registry refines the abstract machine of a launch: every step of a reachable registry is, for
-- the launch under any id, an event which the abstract machine allows, and the launch is then in the
-- phase to which that event leads.
pub step-Simulated :
    (r : Registry)
    → Reachable r
    → (op : Op) (id : Text)
    → Simulated op id (lookup id r.requests) (lookup id (step r op).requests)
step-Simulated r reached op id = simulate r op id (reachable-Tidy r reached)
