-- ===== src/Connectivity/Rendezvous.antt =====
-- The rendezvous of an app with a daemon: the two tell one another their addresses through the relay.
use agent_tunnel.Base.{
  ℕ, suc, ◌+◌, ◌/◌, Bool, true, false, not, ◌&&◌, ◌||◌, Option, none, some, List, [], ◌∷◌, ◌++◌,
  ◌==◌, nat_eq, if◌then◌else◌,
}
use agent_tunnel.Base.Int.{ℤ, positive_or}
use agent_tunnel.Base.Text.{Text, text_eq, trim, is_empty}
use agent_tunnel.Base.Peer.{Peer, peer_eq}
use agent_tunnel.Base.Dict.{lookup, insert, delete}
use agent_tunnel.Connectivity.{
  Registry, Result, ok, err, peer_inactive, rendezvous_unavailable, rendezvous_rate_limited,
  AppOwner, LiveDaemon, RendezvousAttempt, client, ConnectivityFrame, Effect, rendezvous_timer,
}
use agent_tunnel.Connectivity.Frames.{rendezvous_hint_frame}
use agent_tunnel.Connectivity.Keys.{daemon_map_key, tunnel_attempt_key}
use agent_tunnel.Connectivity.Limits.{allow_rendezvous_request, record_rendezvous_request}
use agent_tunnel.Connectivity.Access.{same_app, trusted_fingerprint, app_peer_active}
use agent_tunnel.Connectivity.Removal.{remove_rendezvous, sweep_expired_rendezvous}
use agent_tunnel.Connectivity.Apps.{normalize_owner}
use agent_tunnel.Connectivity.Candidates.{normalize_candidate_list, valid_candidate_payload}
use agent_tunnel.Connectivity.Tunnels.{Pending}
use agent_tunnel.Connectivity.Requests.{thirty_seconds}

-- The arguments of OpenRendezvousFromApp.
pub record Opening : Type 0 where
  pub owner : AppOwner
  pub peer : Peer
  pub daemon_id : Text
  pub attempt_id : Text
  pub request_id : Text
  pub public_udp_addr : Text
  pub private_udp_addrs : List Text
  pub ttl : ℤ

unfoldable pub normalize_opening : Opening → Opening
normalize_opening q = record q {
  owner = normalize_owner q.owner;
  daemon_id = trim q.daemon_id;
  attempt_id = trim q.attempt_id;
  public_udp_addr = trim q.public_udp_addr;
  private_udp_addrs = normalize_candidate_list q.private_udp_addrs;
}

abbrev pub opening_ttl : Opening → ℕ
opening_ttl q = positive_or thirty_seconds q.ttl

abbrev pub opening_key : Opening → Text
opening_key q = tunnel_attempt_key q.owner q.daemon_id q.attempt_id

-- `Unix()` of a time in nanoseconds.
abbrev unix : ℕ → ℕ
unix t = t / 1_000_000_000

abbrev new_rendezvous : Registry → Opening → LiveDaemon → ℕ → RendezvousAttempt
new_rendezvous r q live now = record {
  ref = r.next_ref;
  key = opening_key q;
  id = q.attempt_id;
  app_owner = q.owner;
  app_peer = q.peer;
  daemon_owner = live.owner;
  daemon_device_id = live.info.device_id;
  daemon_fingerprint = live.info.daemon_fingerprint;
  daemon_peer = live.peer;
  expires_at = now + opening_ttl q;
}

-- The app's rendezvous with this daemon that was there before is closed.
unfoldable pub commit_rendezvous :
    Registry → Opening → LiveDaemon → ℕ → Registry × Pending × List Effect
commit_rendezvous r q live now =
    let r₁ = record_rendezvous_request r q.owner.user_id now in
    let (r₂, notices) =
      remove_rendezvous r₁
        λ attempt. same_app attempt.app_owner q.owner && attempt.daemon_device_id == q.daemon_id in
    let attempt = new_rendezvous r₂ q live now in
    let frame =
      rendezvous_hint_frame q.request_id q.attempt_id client live.info.device_id
        q.owner.device_fingerprint q.public_udp_addr q.private_udp_addrs
        (unix attempt.expires_at) in
    (
      record r₂ {
        rendezvous = insert attempt.key attempt r₂.rendezvous;
        next_ref = suc r₂.next_ref;
      },
      record {
        ref = attempt.ref;
        key = attempt.key;
        daemon_peer = live.peer;
        daemon_frame = frame;
        app_frame = frame;
      },
      notices,
    )

open_under_limit : Registry → Opening → ℕ → LiveDaemon → Registry × Result Pending × List Effect
open_under_limit r q now live =
    let (r', allowed) = allow_rendezvous_request r q.owner.user_id now in
    let (r'', pending, notices) = commit_rendezvous r' q live now in
    if not allowed
    then (r', err rendezvous_rate_limited, [])
    else (r'', ok pending, notices ++ rendezvous_timer pending.key (opening_ttl q) ∷ [])

open_to_daemon :
    Registry → Opening → ℕ → Option LiveDaemon → Registry × Result Pending × List Effect
unfolding open_under_limit
open_to_daemon r q now none = (r, err rendezvous_unavailable, [])
open_to_daemon r q now (some live) =
    if is_empty (trusted_fingerprint live.trusted q.owner.device_fingerprint)
    then (r, err rendezvous_unavailable, [])
    else open_under_limit r q now live

-- OpenRendezvousFromApp up to the message to the daemon, on normalised arguments.
unfoldable pub open_normalized :
    (Text → Bool) → Registry → Opening → ℕ → ℕ → Registry × Result Pending × List Effect
unfolding open_to_daemon
open_normalized valid r q swept_at now =
    let (r', removed) = sweep_expired_rendezvous r swept_at in
    if is_empty q.owner.device_fingerprint
      || is_empty q.daemon_id
      || is_empty q.attempt_id
      || not (valid_candidate_payload valid q.public_udp_addr q.private_udp_addrs)
    then (r, err rendezvous_unavailable, [])
    else if not (app_peer_active r' q.owner q.peer)
    then (r', err rendezvous_unavailable, [])
    else open_to_daemon r' q now (lookup (daemon_map_key q.owner.user_id q.daemon_id) r'.daemons)

unfoldable pub begin_rendezvous :
    (Text → Bool) → Registry → Opening → ℕ → ℕ → Registry × Result Pending × List Effect
begin_rendezvous valid r q swept_at now = open_normalized valid r (normalize_opening q) swept_at now

-- What follows the message: a rendezvous that the daemon was not told of is taken back.
unfoldable pub finish_rendezvous : Registry → Pending → Bool → Registry × Result ConnectivityFrame
finish_rendezvous r pending true = (r, ok pending.daemon_frame)
finish_rendezvous r pending false = elim (lookup pending.key r.rendezvous) [
  | none ↦ (r, err peer_inactive)
  | some current ↦
      if current.ref == pending.ref
      then (record r { rendezvous = delete pending.key r.rendezvous }, err peer_inactive)
      else (r, err peer_inactive)
]
