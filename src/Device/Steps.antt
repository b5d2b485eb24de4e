-- ===== src/Device/Steps.antt =====
-- Every step of the device registry keeps it in order.
pub mod Connections
pub mod Begin
pub mod Launches
pub mod Terminations
use agent_tunnel.Base.{◌≡◌, refl, sym, subst, some}
use agent_tunnel.Base.Text.{Text, text_eq}
use agent_tunnel.Base.Dict.{Dict, lookup}
use agent_tunnel.Device.{Registry, new_registry, LiveDevice, LaunchRequest}
use agent_tunnel.Device.Requests.{has_pending_request}
use agent_tunnel.Device.Machine.{
  Op, step, Reachable, start, next, registered, pending_registered, pending_left, activated,
  updated, left, token_revoked, launch_begun, launch_sent, launch_expired, launch_resolved,
  launch_completed, terminate_begun, terminate_sent, terminate_expired, terminate_cleared,
  terminate_resolved,
}
use agent_tunnel.Device.Connections.{register_pending}
use agent_tunnel.Device.InFlight.{InOrder, Tidy, all}
use agent_tunnel.Device.Offline.{clear_terminate-untouched}
use agent_tunnel.Device.Steps.Connections.{
  register_owned-Tidy, disconnect_pending-Tidy, activate_pending-Tidy, update_if_owner-Tidy,
  disconnect_if_owner-Tidy, disconnect_agent_token-Tidy,
}
use agent_tunnel.Device.Steps.Begin.{begin_launch-Tidy}
use agent_tunnel.Device.Steps.Launches.{
  send_launch-Tidy, expire_launch-Tidy, resolve_launch-Tidy, complete_launch-Tidy,
}
use agent_tunnel.Device.Steps.Terminations.{
  begin_terminate-same, send_terminate-same, expire_terminate-same, resolve_terminate-same,
}

same-Tidy :
    (r : Registry) (devices : Dict Text LiveDevice) (requests : Dict Text LaunchRequest)
    → (devices ≡ r.devices) × (requests ≡ r.requests)
    → Tidy all r
    → InOrder all devices requests
same-Tidy r devices requests (same_devices, same_requests) w =
    subst (λ m. InOrder all m requests) (sym same_devices)
      (subst (InOrder all r.devices) (sym same_requests) w)

pub step-Tidy : (r : Registry) (op : Op) → Tidy all r → Tidy all (step r op)
unfolding step register_pending
step-Tidy r (registered info owner peer now) w = register_owned-Tidy r info owner peer now w
step-Tidy r (pending_registered owner peer) w = w
step-Tidy r (pending_left peer) w = disconnect_pending-Tidy r peer w
step-Tidy r (activated info owner peer now) w = activate_pending-Tidy r info owner peer now w
step-Tidy r (updated device peer info) w = update_if_owner-Tidy r device peer info w
step-Tidy r (left device peer) w = disconnect_if_owner-Tidy r device peer w
step-Tidy r (token_revoked token) w = disconnect_agent_token-Tidy r token w
step-Tidy r (launch_begun device user now) w = begin_launch-Tidy r device user now w
step-Tidy r (launch_sent id peer expired delivered command cwd label) w =
    send_launch-Tidy r id peer expired delivered command cwd label w
step-Tidy r (launch_expired id) w = expire_launch-Tidy r id w
step-Tidy r (launch_resolved device peer id status reason workspace) w =
    resolve_launch-Tidy r device peer id status reason workspace w
step-Tidy r (launch_completed id owner session) w = complete_launch-Tidy r id owner session w
step-Tidy r (terminate_begun user target now) w =
    same-Tidy r _ _ (begin_terminate-same r user target now) w
step-Tidy r (terminate_sent id peer expired delivered session target) w =
    same-Tidy r _ _ (send_terminate-same r id peer expired delivered session target) w
step-Tidy r (terminate_expired id) w = same-Tidy r _ _ (expire_terminate-same r id) w
step-Tidy r (terminate_cleared id) w = same-Tidy r _ _ (clear_terminate-untouched r id) w
step-Tidy r (terminate_resolved device peer id status reason) w =
    same-Tidy r _ _ (resolve_terminate-same r device peer id status reason) w

pub new_registry-Tidy : Tidy all new_registry
unfolding lookup
new_registry-Tidy = record { distinct = tt; named = λ k q h. cc h; flagged = λ d live _ h. cc h }

pub reachable-Tidy : (r : Registry) → Reachable r → Tidy all r
reachable-Tidy _ start = new_registry-Tidy
reachable-Tidy _ (next {r} before op) = step-Tidy r op (reachable-Tidy r before)

-- In every reachable registry a connected device is marked as busy exactly if a launch for it waits.
pub in_flight-has_pending_request :
    (r : Registry)
    → Reachable r
    → (d : Text) (live : LiveDevice) → lookup d r.devices ≡ some live
    → live.in_flight ≡ has_pending_request r.requests d
in_flight-has_pending_request r reached d live at =
    (reachable-Tidy r reached).flagged d live refl at
