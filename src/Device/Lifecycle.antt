-- ===== src/Device/Lifecycle.antt =====
-- The life of a launch, as an abstract machine: what the registry promises of one id, without the
-- devices, the maps and the other launches.
pub mod Kept
pub mod Resolved
pub mod Simulation
pub mod Steps
pub mod Refinement
use agent_tunnel.Base.{ℕ, ◌≡◌, Bool, true, false, Option, none, some, List, [], ◌∷◌, if◌then◌else◌}
use agent_tunnel.Base.Text.{Text, is_empty, trim, codes}
use agent_tunnel.Base.Peer.{Peer}
use agent_tunnel.Device.{LaunchRequest, DeviceOwner}
use agent_tunnel.Device.Clock.{launch_request_id}
use agent_tunnel.Device.Requests.{registered_session_id}
use agent_tunnel.Device.Machine.{
  Op, registered, activated, left, token_revoked, launch_begun, launch_sent, launch_expired,
  launch_resolved, launch_completed,
}

-- `waiting s`: not accepted, where `s` is the session that came, if any. `overdue`: accepted, and the
-- session came, but the launch still waits.
pub data Phase : Type 0 where
  absent : Phase
  waiting : Text → Phase
  accepted overdue : Phase

pub data Event : Type 0 where
  ignored begins gives_up accepts : Event
  hears : Text → Event

-- The session and the acceptance end a launch together, in either order.
abbrev pub advance : Phase → Event → Phase
advance p ignored = p
advance p gives_up = absent
advance absent begins = waiting []
advance (waiting s) accepts = if is_empty s then accepted else absent
advance accepted accepts = accepted
advance (waiting s) (hears t) = waiting t
advance accepted (hears t) = absent
advance overdue accepts = absent
advance overdue (hears t) = absent
advance p _ = p

abbrev pub phase : Option LaunchRequest → Phase
phase none = absent
phase (some q) =
    if q.accepted
    then (if is_empty (registered_session_id q) then accepted else overdue)
    else waiting (registered_session_id q)

-- The steps in which a device may lose its connection.
abbrev pub is_disruptive : Op → Bool
is_disruptive (registered _ _ _ _) = true
is_disruptive (activated _ _ _ _) = true
is_disruptive (left _ _) = true
is_disruptive (token_revoked _) = true
is_disruptive _ = false

-- Which event a step may be for the launch under an id: only the connection that the launch was sent
-- to accepts or refuses it, only its owner brings a session, and it outlives its connection once it is
-- accepted.
pub data Allowed : Option LaunchRequest → Op → Text → Event → Type 0 where
  unrelated : (o : Option LaunchRequest) (op : Op) (id : Text) → Allowed o op id ignored
  begun :
      (device : Text) (user now : ℕ)
      → Allowed none (launch_begun device user now) (launch_request_id device now) begins
  unsent :
      (q : LaunchRequest) (id : Text) (peer : Peer) (expired delivered : Bool)
      (command cwd label : Text)
      → Allowed (some q) (launch_sent id peer expired delivered command cwd label) id gives_up
  expired : (q : LaunchRequest) (id : Text) → Allowed (some q) (launch_expired id) id gives_up
  refused :
      (q : LaunchRequest) (id reason workspace : Text)
      → Allowed
          (some q)
          (launch_resolved q.device_id q.peer id (codes "failed") reason workspace)
          id
          gives_up
  answered :
      (q : LaunchRequest) (id reason workspace : Text)
      → Allowed
          (some q)
          (launch_resolved q.device_id q.peer id (codes "accepted") reason workspace)
          id
          accepts
  heard :
      (q : LaunchRequest) (id session : Text)
      → is_empty (trim session) ≡ false
      → Allowed (some q) (launch_completed id q.owner session) id (hears (trim session))
  lost :
      (q : LaunchRequest) (op : Op) (id : Text)
      → q.accepted ≡ false
      → is_disruptive op ≡ true
      → Allowed (some q) op id gives_up
