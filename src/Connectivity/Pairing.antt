-- ===== src/Connectivity/Pairing.antt =====
-- What a registered daemon may say: it leaves, drops or adds a trusted device, reserves a pairing;
-- and the forwarding of an app's answer to the daemon that reserved it.
pub mod Reservation
use agent_tunnel.Base.{
  ℕ, ◌+◌, Bool, true, false, not, ◌&&◌, ◌||◌, Option, none, some, List, [], ◌∷◌, ◌++◌, ◌==◌, nat_eq,
  if◌then◌else◌,
}
use agent_tunnel.Base.Int.{ℤ, positive_or}
use agent_tunnel.Base.Text.{Text, text_eq, trim, is_empty}
use agent_tunnel.Base.Peer.{Peer, is_nil, peer_eq}
use agent_tunnel.Base.Dict.{lookup, insert, delete}
use agent_tunnel.Connectivity.{
  Registry, Result, ok, err, peer_inactive, correlation_not_found, AppOwner, DaemonOwner,
  LiveDaemon, TrustedAndroid, PairCorrelation, Effect, closed,
}
use agent_tunnel.Connectivity.Frames.{
  daemon_removed_frame, daemon_upsert_frame, paired_device_revoked_frame,
}
use agent_tunnel.Connectivity.Keys.{normalize_fingerprint, daemon_map_key, pair_correlation_key}
use agent_tunnel.Connectivity.Access.{
  same_daemon_owner, app_owner_revoked, app_peer_active, daemon_by_device_peer, matching_app_peers,
  matching_single_app_peer,
}
use agent_tunnel.Connectivity.Removal.{
  is_live_at, remove_correlations_for_daemon, remove_rendezvous, remove_active_direct,
  remove_tunnel_attempts, sweep_expired_pair_correlations,
}
use agent_tunnel.Connectivity.Apps.{normalize_owner}
use agent_tunnel.Connectivity.Daemons.{send_all}

unfoldable pub leave_daemon :
    Registry → Peer → Option (Text × LiveDaemon) → Registry × Bool × List Effect
leave_daemon r peer none = (r, false, [])
leave_daemon r peer (some (key, live)) =
    let r₁ =
      remove_correlations_for_daemon (record r { daemons = delete key r.daemons }) key peer in
    let (r₂, notices) = remove_rendezvous r₁ (λ attempt. attempt.daemon_peer == peer) in
    let (r₃, closers) = remove_tunnel_attempts r₂ (λ attempt. attempt.daemon_peer == peer) in
    let peers = matching_app_peers r₃ live.owner.user_id live.trusted in
    (
      r₃,
      true,
      notices
          ++ closers
          ++ send_all (daemon_removed_frame live.info.device_id live.info.daemon_fingerprint) peers
          ++ closed peer ∷ [],
    )

unfoldable pub disconnect_daemon : Registry → Text → Peer → Registry × Bool × List Effect
unfolding leave_daemon
disconnect_daemon r device_id peer = leave_daemon r peer (daemon_by_device_peer r device_id peer)

unfoldable pub revoke_device :
    Registry → Peer → Text → Option (Text × LiveDaemon) → Registry × Bool × List Effect
revoke_device r peer fingerprint none = (r, false, [])
revoke_device r peer fingerprint (some (key, live)) =
    let less = record live { trusted = delete fingerprint live.trusted } in
    let (r₁, notices) =
      remove_rendezvous (record r { daemons = insert key less r.daemons })
        λ attempt.
          attempt.daemon_peer == peer && attempt.app_owner.device_fingerprint == fingerprint in
    let (r₂, direct) =
      remove_active_direct r₁
        λ session. session.daemon_peer == peer && session.android_fingerprint == fingerprint in
    let (r₃, closers) = remove_tunnel_attempts r₂ λ attempt.
      attempt.daemon_peer == peer && attempt.app_owner.device_fingerprint == fingerprint in
    let peers = matching_single_app_peer r₃ live.owner.user_id fingerprint in
    (
      r₃,
      true,
      notices
          ++ direct
          ++ closers
          ++ send_all (paired_device_revoked_frame live.info.device_id live.info.daemon_fingerprint)
              peers,
    )

unfoldable pub revoke_trusted_android :
    Registry → Text → Peer → Text → Registry × Bool × List Effect
unfolding revoke_device
revoke_trusted_android r device_id peer fingerprint =
    revoke_device r peer (normalize_fingerprint fingerprint)
      (daemon_by_device_peer r device_id peer)

trust_device :
    Registry → TrustedAndroid → Option (Text × LiveDaemon) → Registry × Bool × List Effect
trust_device r device none = (r, false, [])
trust_device r device (some (key, live)) =
    let more = record live { trusted = insert device.fingerprint device live.trusted } in
    let r' = record r { daemons = insert key more r.daemons } in
    let peers = matching_single_app_peer r' live.owner.user_id device.fingerprint in
    (r', true, send_all (daemon_upsert_frame live.info) peers)

unfoldable pub complete_pairing :
    Registry → Text → Peer → TrustedAndroid → Registry × Bool × List Effect
unfolding trust_device
complete_pairing r device_id peer trusted =
    let fingerprint = normalize_fingerprint trusted.fingerprint in
    if is_empty fingerprint
    then (r, false, [])
    else trust_device r (record trusted { fingerprint = fingerprint })
        (daemon_by_device_peer r device_id peer)

abbrev five_minutes : ℕ
five_minutes = 300_000_000_000

unfoldable pub store_correlation :
    Registry → Text → DaemonOwner → Peer → Text → ℕ → Option LiveDaemon → Registry × Bool
store_correlation r key owner peer id expires_at none = (r, false)
store_correlation r key owner peer id expires_at (some live) =
    let correlation : PairCorrelation = record {
      id = id;
      owner = owner;
      device_id = key;
      peer = peer;
      expires_at = expires_at;
    } in
    if not (same_daemon_owner live.owner owner) || not (live.peer == peer) then (r, false) else (
      record r {
        correlations = insert (pair_correlation_key owner.user_id id) correlation r.correlations;
      },
      true,
    )

-- The clock is read for the sweep and for the expiry.
unfoldable pub reserve_pairing :
    Registry → Text → DaemonOwner → Peer → Text → ℤ → ℕ → ℕ → Registry × Bool
unfolding store_correlation
reserve_pairing r device_id owner peer correlation_id ttl swept_at now =
    let id = trim correlation_id in
    let (r', removed) = sweep_expired_pair_correlations r swept_at in
    let key = daemon_map_key owner.user_id device_id in
    if is_empty id
    then (r, false)
    else store_correlation r' key owner peer id (now + positive_or five_minutes ttl)
        (lookup key r'.daemons)

-- The app that answers; ForwardPairingResponse has none.
pub record Answer : Type 0 where
  pub user_id : ℕ
  pub app_peer : Peer
  pub owner : AppOwner
  pub correlation_id : Text

-- The daemon that waits for the answer: forwardPairingResponse up to the message.
find_correlation : Registry → Text → ℕ → Option PairCorrelation → Registry × Result Peer
find_correlation r key now none = (r, err correlation_not_found)
find_correlation r key now (some correlation) =
    if is_live_at now correlation.expires_at
    then (r, ok correlation.peer)
    else (record r { correlations = delete key r.correlations }, err correlation_not_found)

abbrev pub answer_key : Answer → Text
answer_key a = pair_correlation_key a.user_id (trim a.correlation_id)

unfoldable pub begin_forward : Registry → Answer → ℕ → Registry × Result Peer
unfolding find_correlation
begin_forward r a now =
    if not (is_empty a.owner.app_session_id) && app_owner_revoked r a.owner
    then (r, err correlation_not_found)
    else if not (is_nil a.app_peer) && not (app_peer_active r a.owner a.app_peer)
    then (r, err correlation_not_found)
    else find_correlation r (answer_key a) now (lookup (answer_key a) r.correlations)

-- After the message: a delivered answer uses the reservation up, unless another has taken its place.
unfoldable pub finish_forward : Registry → Answer → Peer → Bool → Registry × Result (Unit {0})
finish_forward r a peer false = (r, err peer_inactive)
finish_forward r a peer true = elim (lookup (answer_key a) r.correlations) [
  | none ↦ (r, ok tt)
  | some current ↦
      if current.peer == peer && current.owner.user_id == a.user_id
      then (record r { correlations = delete (answer_key a) r.correlations }, ok tt)
      else (r, ok tt)
]

complete_forward : Answer → Bool → Registry × Result Peer → Registry × Result (Unit {0})
complete_forward a delivered (r, err e) = (r, err e)
complete_forward a delivered (r, ok peer) = finish_forward r a peer delivered

-- forwardPairingResponse where no other call runs while the daemon is told.
unfoldable pub forward_pairing_response :
    Registry → Answer → ℕ → Bool → Registry × Result (Unit {0})
unfolding complete_forward
forward_pairing_response r a now delivered = complete_forward a delivered (begin_forward r a now)

unfoldable pub forward_pairing_response_from_app :
    Registry → AppOwner → Peer → Text → ℕ → Bool → Registry × Result (Unit {0})
forward_pairing_response_from_app r raw peer correlation_id now delivered =
    let owner = normalize_owner raw in
    forward_pairing_response r
      (record {
        user_id = owner.user_id;
        app_peer = peer;
        owner = owner;
        correlation_id = correlation_id;
      })
      now delivered
