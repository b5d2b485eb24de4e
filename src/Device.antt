-- ===== src/Device.antt =====
-- internal/relay/device/registry.go: the devices that are connected to the relay, and the launches
-- and terminations that wait for one of them. A record that a pointer names stands in one map only,
-- so it is a value here; a request that is done has left its map, and the waiting call learns its
-- result from the effect. `closed nil` stands for Close on a nil interface, which panics.
pub mod Frames
pub mod Clock
pub mod Requests
pub mod Connections
pub mod Launch
pub mod Terminate
pub mod InFlight
pub mod Ids
pub mod Offline
pub mod Steps
pub mod Takeover
pub mod Ownership
pub mod Lifecycle
pub mod Orders
pub mod Machine
mod Tests
use agent_tunnel.Base.{
  ℕ, Bool, true, false, not, ◌&&◌, ◌||◌, Option, none, some, List, [], ◌∷◌, ◌==◌, nat_eq,
}
use agent_tunnel.Base.Text.{Text, is_empty, trim, text_eq}
use agent_tunnel.Base.Peer.{Peer, nil, conn}
use agent_tunnel.Base.Dict.{Dict}
use agent_tunnel.Device.Frames.{DeviceInfo, DeviceFrame}

pub record DeviceOwner : Type 0 where
  pub user_id : ℕ
  pub agent_token_id : Text

abbrev pub same_owner : DeviceOwner → DeviceOwner → Bool
same_owner a b = a.user_id == b.user_id && a.agent_token_id == b.agent_token_id

pub record LaunchResult : Type 0 where
  pub request_id : Text
  pub status : Text
  pub session_id : Text
  pub reason : Text

pub record TerminateResult : Type 0 where
  pub request_id : Text
  pub status : Text
  pub reason : Text

pub record TerminateTarget : Type 0 where
  pub device_id : Text
  pub workspace_session : Text

abbrev pub no_target : TerminateTarget
no_target = record { device_id = []; workspace_session = [] }

abbrev pub same_target : TerminateTarget → TerminateTarget → Bool
same_target a b = a.device_id == b.device_id && a.workspace_session == b.workspace_session

pub record LaunchCompletion : Type 0 where
  pub session_id : Text
  pub target : TerminateTarget

abbrev pub no_completion : LaunchCompletion
no_completion = record { session_id = []; target = no_target }

pub record LiveDevice : Type 0 where
  pub info : DeviceInfo
  pub owner : DeviceOwner
  pub peer : Peer
  pub connected_at : ℕ
  pub in_flight : Bool

pub record LaunchRequest : Type 0 where
  pub id : Text
  pub device_id : Text
  pub owner : DeviceOwner
  pub peer : Peer
  pub accepted : Bool
  pub completed : Bool
  pub session_id : Text
  pub workspace_session : Text
  pub result : LaunchResult

pub record CompletedLaunch : Type 0 where
  pub owner : DeviceOwner
  pub target : TerminateTarget

pub record TerminateRequest : Type 0 where
  pub id : Text
  pub device_id : Text
  pub owner : DeviceOwner
  pub peer : Peer
  pub target : TerminateTarget
  pub completed : Bool
  pub result : TerminateResult

pub record Registry : Type 0 where
  pub devices : Dict Text LiveDevice
  pub requests : Dict Text LaunchRequest
  pub completed_launches : Dict Text CompletedLaunch
  pub terminate_requests : Dict Text TerminateRequest
  pub pending : Dict Peer DeviceOwner

abbrev pub new_registry : Registry
new_registry = record {
  devices = [];
  requests = [];
  completed_launches = [];
  terminate_requests = [];
  pending = [];
}

-- What a method does outside the registry: a call of a peer, or the result that a waiting call gets.
pub data Effect : Type 0 where
  deactivated closed : Peer → Effect
  sent : Peer → DeviceFrame → Effect
  launch_done : Text → LaunchResult → Effect
  terminate_done : Text → TerminateResult → Effect

abbrev pub deactivate : Peer → List Effect
deactivate nil = []
deactivate (conn n) = deactivated (conn n) ∷ []

-- normalizedTerminateTarget
abbrev pub normalized : TerminateTarget → TerminateTarget
normalized t = record { device_id = trim t.device_id; workspace_session = trim t.workspace_session }

abbrev pub has_terminate_target : TerminateTarget → Bool
has_terminate_target t =
    let target = normalized t in
    not (is_empty target.device_id) && not (is_empty target.workspace_session)
