-- ===== src/Connectivity/Direct.antt =====
-- The daemon's side of a rendezvous, its end, and the direct sessions that come of it.
use agent_tunnel.Base.{
  ℕ, ◌/◌, Bool, true, false, not, ◌&&◌, ◌||◌, Option, none, some, List, [], ◌∷◌, ◌==◌, nat_eq,
  if◌then◌else◌,
}
use agent_tunnel.Base.Text.{Text, text_eq, trim, is_empty}
use agent_tunnel.Base.Peer.{Peer, peer_eq}
use agent_tunnel.Base.Dict.{insert, delete, find, has}
use agent_tunnel.Connectivity.{
  Registry, Result, ok, err, rendezvous_unavailable, AppOwner, DaemonOwner, RendezvousAttempt,
  DirectSession, daemon, ConnectivityFrame, Effect,
}
use agent_tunnel.Connectivity.Frames.{rendezvous_hint_frame, rendezvous_close_frame}
use agent_tunnel.Connectivity.Keys.{normalize_fingerprint, tunnel_attempt_key}
use agent_tunnel.Connectivity.Access.{
  same_app, same_daemon_owner, app_peer_active, app_owner_revoked, daemon_by_device_peer,
}
use agent_tunnel.Connectivity.Removal.{
  is_live_at, notify, remove_rendezvous, sweep_expired_rendezvous,
}
use agent_tunnel.Connectivity.Apps.{normalize_owner}
use agent_tunnel.Connectivity.Candidates.{normalize_candidate_list, valid_candidate_payload}

-- A daemon's word about an attempt with a client, as the methods of the daemon take it.
pub record Claim : Type 0 where
  pub owner : DaemonOwner
  pub device_id : Text
  pub peer : Peer
  pub attempt_id : Text
  pub android_fingerprint : Text

unfoldable pub normalize_claim : Claim → Claim
normalize_claim c = record c {
  device_id = trim c.device_id;
  attempt_id = trim c.attempt_id;
  android_fingerprint = normalize_fingerprint c.android_fingerprint;
}

-- The rendezvous is the one that the daemon speaks of.
abbrev pub is_claimed : Claim → RendezvousAttempt → Bool
is_claimed c attempt =
    attempt.id == c.attempt_id
    && attempt.daemon_peer == c.peer
    && same_daemon_owner attempt.daemon_owner c.owner
    && attempt.daemon_device_id == c.device_id
    && attempt.app_owner.device_fingerprint == c.android_fingerprint

-- The daemon is registered, over this connection and for this owner.
unfoldable pub is_registered : Registry → Claim → Bool
is_registered r c = elim (daemon_by_device_peer r c.device_id c.peer) [
  | none ↦ false
  | some entry ↦ same_daemon_owner entry.1.owner c.owner
]

hint_to :
    Claim
    → Text
    → Text
    → List Text
    → ℕ
    → Option (Text × RendezvousAttempt)
    → Result (Peer × ConnectivityFrame)
hint_to c request_id public private now none = err rendezvous_unavailable
hint_to c request_id public private now (some (key, attempt)) =
    if is_live_at now attempt.expires_at
    then ok (
      attempt.app_peer,
      rendezvous_hint_frame request_id c.attempt_id daemon attempt.daemon_device_id
          attempt.app_owner.device_fingerprint public private (attempt.expires_at / 1_000_000_000),
    )
    else err rendezvous_unavailable

hint_normalized :
    (Text → Bool)
    → Registry
    → Claim
    → Text
    → Text
    → List Text
    → ℕ
    → ℕ
    → Registry × Result (Peer × ConnectivityFrame)
unfolding hint_to
hint_normalized valid r c request_id public private swept_at now =
    let (r', removed) = sweep_expired_rendezvous r swept_at in
    if is_empty c.device_id
      || is_empty c.attempt_id
      || is_empty c.android_fingerprint
      || not (valid_candidate_payload valid public private)
    then (r, err rendezvous_unavailable)
    else if not (is_registered r' c)
    then (r', err rendezvous_unavailable)
    else (r', hint_to c request_id public private now (find (is_claimed c) r'.rendezvous))

-- ForwardRendezvousHintFromDaemon up to the message: the app's connection and the frame for it.
unfoldable pub forward_rendezvous_hint :
    (Text → Bool)
    → Registry
    → Claim
    → Text
    → Text
    → List Text
    → ℕ
    → ℕ
    → Registry × Result (Peer × ConnectivityFrame)
unfolding hint_normalized
forward_rendezvous_hint valid r c request_id public private swept_at now =
    hint_normalized valid r (normalize_claim c) request_id (trim public)
      (normalize_candidate_list private) swept_at now

-- The rendezvous is the app's own, with this daemon where one is named.
abbrev pub is_own_rendezvous : AppOwner → Peer → Text → Text → RendezvousAttempt → Bool
is_own_rendezvous owner peer daemon_id attempt_id attempt =
    attempt.app_peer == peer
    && same_app attempt.app_owner owner
    && attempt.id == attempt_id
    && (is_empty daemon_id || attempt.daemon_device_id == daemon_id)

closed_any : Registry × List Effect → Registry × Bool × List Effect
closed_any (r, []) = (r, false, [])
closed_any (r, notice ∷ notices) = (r, true, notice ∷ notices)

unfoldable pub close_rendezvous_from_app :
    Registry → AppOwner → Peer → Text → Text → Registry × Bool × List Effect
unfolding closed_any
close_rendezvous_from_app r raw peer daemon_id attempt_id =
    let owner = normalize_owner raw in
    if not (app_peer_active r owner peer)
    then (r, false, [])
    else closed_any
        (remove_rendezvous r (is_own_rendezvous owner peer (trim daemon_id) (trim attempt_id)))

close_claimed : Registry → Option (Text × RendezvousAttempt) → Registry × Bool × List Effect
close_claimed r none = (r, false, [])
close_claimed r (some (key, attempt)) = (
  record r { rendezvous = delete key r.rendezvous },
  true,
  notify attempt.app_peer
      (rendezvous_close_frame [] attempt.id daemon attempt.daemon_device_id
        attempt.app_owner.device_fingerprint)
      false,
)

unfoldable pub close_rendezvous_from_daemon : Registry → Claim → Registry × Bool × List Effect
unfolding close_claimed
close_rendezvous_from_daemon r raw =
    let c = normalize_claim raw in
    if not (is_registered r c)
    then (r, false, [])
    else close_claimed r (find (is_claimed c) r.rendezvous)

abbrev pub session_of : RendezvousAttempt → Claim → Text → DirectSession
session_of attempt c key = record {
  key = key;
  id = c.attempt_id;
  app_owner = attempt.app_owner;
  daemon_owner = attempt.daemon_owner;
  daemon_device_id = attempt.daemon_device_id;
  daemon_fingerprint = attempt.daemon_fingerprint;
  daemon_peer = c.peer;
  android_fingerprint = attempt.app_owner.device_fingerprint;
}

open_claimed : Registry → Claim → Option (Text × RendezvousAttempt) → Registry × Bool
open_claimed r c none = (r, false)
open_claimed r c (some (key, attempt)) =
    let tunnel_key = tunnel_attempt_key attempt.app_owner c.device_id c.attempt_id in
    if has tunnel_key r.attempts
      || has tunnel_key r.active_direct
      || app_owner_revoked r attempt.app_owner
    then (r, false)
    else (
      record r {
        rendezvous = delete key r.rendezvous;
        active_direct = insert tunnel_key (session_of attempt c tunnel_key) r.active_direct;
      },
      true,
    )

-- A rendezvous becomes a direct session.
unfoldable pub open_direct_session_from_daemon : Registry → Claim → ℕ → Registry × Bool
unfolding open_claimed
open_direct_session_from_daemon r raw swept_at =
    let c = normalize_claim raw in
    let (r', removed) = sweep_expired_rendezvous r swept_at in
    if is_empty c.device_id || is_empty c.attempt_id || is_empty c.android_fingerprint
    then (r, false)
    else if not (is_registered r' c)
    then (r', false)
    else open_claimed r' c (find (is_claimed c) r'.rendezvous)

abbrev pub is_claimed_session : Claim → DirectSession → Bool
is_claimed_session c session =
    session.id == c.attempt_id
    && session.daemon_peer == c.peer
    && same_daemon_owner session.daemon_owner c.owner
    && session.daemon_device_id == c.device_id
    && session.android_fingerprint == c.android_fingerprint

unfoldable pub close_direct_session_from_daemon : Registry → Claim → Registry × Bool
close_direct_session_from_daemon r raw =
    elim (find (is_claimed_session (normalize_claim raw)) r.active_direct) [
      | none ↦ (r, false)
      | some entry ↦ (record r { active_direct = delete entry.0 r.active_direct }, true)
    ]
