-- ===== src/Device/Machine.antt =====
-- The device registry as a state machine. Its methods run under one mutex: a step is a critical
-- section, and any others may come between two sections of Launch or Terminate.
use agent_tunnel.Base.{ℕ, Bool, List, [], ◌∷◌}
use agent_tunnel.Base.Text.{Text}
use agent_tunnel.Base.Peer.{Peer}
use agent_tunnel.Device.{Registry, new_registry, DeviceOwner, TerminateTarget}
use agent_tunnel.Device.Frames.{DeviceInfo}
use agent_tunnel.Device.Requests.{clear_terminate_request}
use agent_tunnel.Device.Connections.{
  register_owned, register_pending, disconnect_pending, activate_pending, update_if_owner,
  disconnect_if_owner, disconnect_agent_token_devices,
}
use agent_tunnel.Device.Launch.{
  begin_launch, send_launch, expire_launch, resolve_launch_if_owner, complete_launch_if_owner,
}
use agent_tunnel.Device.Terminate.{
  begin_terminate, send_terminate, expire_terminate, resolve_terminate_if_owner,
}

pub data Op : Type 0 where
  registered : DeviceInfo → DeviceOwner → Peer → ℕ → Op
  pending_registered : DeviceOwner → Peer → Op
  pending_left : Peer → Op
  activated : DeviceInfo → DeviceOwner → Peer → ℕ → Op
  updated : Text → Peer → DeviceInfo → Op
  left : Text → Peer → Op
  token_revoked : Text → Op
  launch_begun : Text → ℕ → ℕ → Op
  launch_sent : Text → Peer → Bool → Bool → Text → Text → Text → Op
  launch_expired : Text → Op
  launch_resolved : Text → Peer → Text → Text → Text → Text → Op
  launch_completed : Text → DeviceOwner → Text → Op
  terminate_begun : ℕ → TerminateTarget → ℕ → Op
  terminate_sent : Text → Peer → Bool → Bool → Text → TerminateTarget → Op
  terminate_expired : Text → Op
  terminate_cleared : Text → Op
  terminate_resolved : Text → Peer → Text → Text → Text → Op

unfoldable pub step : Registry → Op → Registry
step r (registered info owner peer now) = (register_owned r info owner peer now).0
step r (pending_registered owner peer) = register_pending r owner peer
step r (pending_left peer) = (disconnect_pending r peer).0
step r (activated info owner peer now) = (activate_pending r info owner peer now).0
step r (updated device peer info) = (update_if_owner r device peer info).0
step r (left device peer) = (disconnect_if_owner r device peer).0
step r (token_revoked token) = (disconnect_agent_token_devices r token).0
step r (launch_begun device user now) = (begin_launch r device user now).0
step r (launch_sent id peer expired delivered command cwd label) =
    (send_launch r id peer expired delivered command cwd label).0
step r (launch_expired id) = (expire_launch r id).0
step r (launch_resolved device peer id status reason workspace) =
    (resolve_launch_if_owner r device peer id status reason workspace).0
step r (launch_completed id owner session) = (complete_launch_if_owner r id owner session).0
step r (terminate_begun user target now) = (begin_terminate r user target now).0
step r (terminate_sent id peer expired delivered session target) =
    (send_terminate r id peer expired delivered session target).0
step r (terminate_expired id) = (expire_terminate r id).0
step r (terminate_cleared id) = (clear_terminate_request r id).0
step r (terminate_resolved device peer id status reason) =
    (resolve_terminate_if_owner r device peer id status reason).0

unfoldable pub run : Registry → List Op → Registry
run r [] = r
run r (op ∷ ops) = run (step r op) ops

pub data Reachable : Registry → Type 0 where
  start : Reachable new_registry
  next : {r : Registry} → Reachable r → (op : Op) → Reachable (step r op)
