-- ===== src/Connectivity.antt =====
-- internal/relay/connectivity/registry.go: the data of the relay's connectivity registry. Maps are
-- dictionaries and peers are identities. `ref` stands for the pointer of an attempt: two attempts
-- are the same object when their refs are equal. Times and durations are nanoseconds.
pub mod Frames
pub mod Keys
pub mod Limits
pub mod Access
pub mod Removal
pub mod Requests
pub mod Tunnels
pub mod Redeem
pub mod Apps
pub mod Daemons
pub mod Pairing
pub mod Candidates
pub mod Rendezvous
pub mod Direct
pub mod Revocation
pub mod Machine
mod Tests
use agent_tunnel.Base.{ℕ, Bool, Option, List, [], Eq}
use agent_tunnel.Base.Text.{Text}
use agent_tunnel.Base.Peer.{Peer}
use agent_tunnel.Base.Dict.{Dict}

-- protocol.ConnectivityDaemonInfo
pub record DaemonInfo : Type 0 where
  pub device_id : Text
  pub display_name : Text
  pub platform_family : Text
  pub platform_id : Text
  pub daemon_public_key : Text
  pub daemon_fingerprint : Text
  pub tunnel_version : Text

-- protocol.ConnectivityTrustedAndroid
pub record TrustedAndroid : Type 0 where
  pub fingerprint : Text
  pub display_name : Text

-- protocol.ConnectivityDirectSession
pub record DirectReport : Type 0 where
  pub attempt_id : Text
  pub android_fingerprint : Text

-- protocol.ConnectivityPairingResponse
pub record PairingResponse : Type 0 where
  pub account_id : Text
  pub invitation_id : Text
  pub correlation_id : Text
  pub android_public_key : Text
  pub android_fingerprint : Text
  pub android_display_name : Text
  pub signature : Text

-- protocol.ConnectivityFrame
pub record ConnectivityFrame : Type 0 where
  pub kind : Text
  pub protocol_version : ℕ
  pub request_id : Text
  pub reason : Text
  pub retry_after_seconds : ℕ
  pub account_id : Text
  pub attempt_id : Text
  pub actor : Text
  pub daemon_id : Text
  pub tunnel_token : Text
  pub fallback_reason : Text
  pub direct_setup_latency_ms : ℕ
  pub relay_setup_latency_ms : ℕ
  pub public_udp_addr : Text
  pub private_udp_addrs : List Text
  pub expires_at : ℕ
  pub daemon : Option DaemonInfo
  pub daemons : List DaemonInfo
  pub trusted_devices : List TrustedAndroid
  pub direct_sessions : List DirectReport
  pub android_fingerprint : Text
  pub pairing_response : Option PairingResponse

-- The registry's errors; `random_failed` is an error of crypto/rand.
pub data Error : Type 0 where
  peer_inactive correlation_not_found tunnel_unavailable tunnel_rate_limited : Error
  tunnel_token_invalid rendezvous_unavailable rendezvous_rate_limited random_failed : Error

pub data Result {ℓ} (A : Type ℓ) : Type ℓ where
  ok : A → Result A
  err : Error → Result A

-- TunnelActorClient and TunnelActorDaemon
pub data Actor : Type 0 where
  client daemon : Actor

pub record AppOwner : Type 0 where
  pub user_id : ℕ
  pub app_session_id : Text
  pub device_fingerprint : Text
  pub session_created_at : ℕ

pub record DaemonOwner : Type 0 where
  pub user_id : ℕ
  pub agent_token_id : Text

pub record LiveApp : Type 0 where
  pub owner : AppOwner
  pub peer : Peer
  pub connected_at : ℕ

abbrev pub Trusted : Type 0
Trusted = Dict Text TrustedAndroid

pub record LiveDaemon : Type 0 where
  pub info : DaemonInfo
  pub owner : DaemonOwner
  pub peer : Peer
  pub trusted : Trusted
  pub connected_at : ℕ

pub record PairCorrelation : Type 0 where
  pub id : Text
  pub owner : DaemonOwner
  pub device_id : Text
  pub peer : Peer
  pub expires_at : ℕ

-- `closers` are the registered functions, by the number that AddTunnelCloser gave each.
pub record TunnelAttempt : Type 0 where
  pub ref : ℕ
  pub key : Text
  pub id : Text
  pub app_owner : AppOwner
  pub daemon_owner : DaemonOwner
  pub daemon_device_id : Text
  pub daemon_fingerprint : Text
  pub daemon_peer : Peer
  pub app_token : Text
  pub daemon_token : Text
  pub fallback_reason : Text
  pub direct_latency_ms : ℕ
  pub relay_latency_ms : ℕ
  pub app_redeemed : Bool
  pub daemon_redeemed : Bool
  pub active : Bool
  pub expires_at : ℕ
  pub closers : Dict ℕ ℕ

pub record RendezvousAttempt : Type 0 where
  pub ref : ℕ
  pub key : Text
  pub id : Text
  pub app_owner : AppOwner
  pub app_peer : Peer
  pub daemon_owner : DaemonOwner
  pub daemon_device_id : Text
  pub daemon_fingerprint : Text
  pub daemon_peer : Peer
  pub expires_at : ℕ

pub record DirectSession : Type 0 where
  pub key : Text
  pub id : Text
  pub app_owner : AppOwner
  pub daemon_owner : DaemonOwner
  pub daemon_device_id : Text
  pub daemon_fingerprint : Text
  pub daemon_peer : Peer
  pub android_fingerprint : Text

pub record TunnelToken : Type 0 where
  pub attempt_id : Text
  pub actor : Actor

pub record TunnelRedemption : Type 0 where
  pub tunnel_key : Text
  pub attempt_id : Text
  pub actor : Actor
  pub user_id : ℕ
  pub app_session_id : Text
  pub device_fingerprint : Text
  pub daemon_device_id : Text
  pub daemon_fingerprint : Text

-- `next_ref` is the next object to be allocated.
pub record Registry : Type 0 where
  pub apps : Dict Peer LiveApp
  pub daemons : Dict Text LiveDaemon
  pub correlations : Dict Text PairCorrelation
  pub attempts : Dict Text TunnelAttempt
  pub active_direct : Dict Text DirectSession
  pub rendezvous : Dict Text RendezvousAttempt
  pub tokens : Dict Text TunnelToken
  pub tunnel_requests : Dict ℕ (List ℕ)
  pub rendezvous_requests : Dict ℕ (List ℕ)
  pub revoked_apps : Dict Text (Unit {0})
  pub revoked_agents : Dict Text (Unit {0})
  pub user_app_cutoff : Dict ℕ ℕ
  pub next_closer_id : ℕ
  pub next_ref : ℕ

unfoldable pub new_registry : Registry
new_registry = record {
  apps = [];
  daemons = [];
  correlations = [];
  attempts = [];
  active_direct = [];
  rendezvous = [];
  tokens = [];
  tunnel_requests = [];
  rendezvous_requests = [];
  revoked_apps = [];
  revoked_agents = [];
  user_app_cutoff = [];
  next_closer_id = 0;
  next_ref = 0;
}

-- What a method does outside the registry, in order: SendJSON with its result ignored, SendJSON of a
-- close notification (the flag: Close() when it fails), Close(), a tunnel's closer, and a timer.
pub data Effect : Type 0 where
  sent : Peer → ConnectivityFrame → Effect
  notified : Peer → ConnectivityFrame → Bool → Effect
  closed : Peer → Effect
  ran_closer : ℕ → Effect
  rendezvous_timer tunnel_timer : Text → ℕ → Effect
