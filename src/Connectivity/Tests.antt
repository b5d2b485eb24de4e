-- ===== src/Connectivity/Tests.antt =====
-- Runs of the connectivity registry, and its theorems at concrete inputs: an app and a daemon of one
-- user connect, and the app asks for a tunnel.
mod Examples
mod Views
mod Requests
use agent_tunnel.Base.{
  ◌≡◌, ◌≢◌, ◌<◌, ◌≤◌, refl, true, some, [], ◌∷◌, arith, ◌==◌, Eq, ℕ_discrete, if◌then◌else◌,
}
use agent_tunnel.Base.Int.{pos}
use agent_tunnel.Base.Text.{Text, codes, Text-discrete, text_eq, trim, to_lower}
use agent_tunnel.Base.Decimal.{decimal}
use agent_tunnel.Base.Peer.{nil, conn, Peer-discrete}
use agent_tunnel.Base.Dict.{lookup, insert, delete, select, has, count, retain}
use agent_tunnel.Connectivity.{
  Registry, new_registry, AppOwner, DaemonOwner, DaemonInfo, TrustedAndroid, TunnelRedemption,
  Result, ok, err, client,
}
use agent_tunnel.Connectivity.Tunnels.{
  Pending, begin_relay_tunnel, begin_normalized, commit_admitted, commit_relay_tunnel,
  drop_old_attempt, store_attempt,
}
use agent_tunnel.Connectivity.Requests.{
  TunnelRequest, Env, normalize_request, admit_relay_tunnel, admit_to_daemon, admit_under_limits,
  requester_active, count_relay_tunnel_attempts,
}
use agent_tunnel.Connectivity.Redeem.{redeem_relay_tunnel_token, redeem_stored, redeem_attempt}
use agent_tunnel.Connectivity.Keys.{normalize_fingerprint, daemon_map_key, tunnel_attempt_key}
use agent_tunnel.Connectivity.Access.{app_peer_active, app_owner_revoked}
use agent_tunnel.Connectivity.Apps.{register_app_if_valid}
use agent_tunnel.Connectivity.Daemons.{
  register_daemon, store_daemon, reconcile_direct_sessions, trusted_map_from_slice, adopt_reports,
}
use agent_tunnel.Connectivity.Removal.{
  sweep_expired_tunnel_attempts, remove_each, remove_rendezvous,
}
use agent_tunnel.Connectivity.Limits.{
  record_relay_tunnel_request, allow_relay_tunnel_request, recent_requests, record_request,
}
use agent_tunnel.Connectivity.Frames.{daemon_removed_frame}
use agent_tunnel.Connectivity.Removal.{sweep_expired_pair_correlations}
use agent_tunnel.Connectivity.Pairing.{Answer, reserve_pairing}
use agent_tunnel.Connectivity.Pairing.Reservation.{IsAnswerTo}
use agent_tunnel.Connectivity.Tunnels.Granted.{IsFresh}
use agent_tunnel.Connectivity.Machine.{
  Op, step, Reachable, start, next, app_registers, daemon_registers, tunnel_begun,
}

abbrev pub fingerprint : Text
fingerprint = codes "f1"

abbrev pub owner : AppOwner
owner = record {
  user_id = 1;
  app_session_id = codes "s";
  device_fingerprint = fingerprint;
  session_created_at = 5;
}

abbrev pub host : DaemonOwner
host = record { user_id = 1; agent_token_id = codes "t" }

abbrev pub info : DaemonInfo
info = record {
  device_id = codes "d";
  display_name = [];
  platform_family = [];
  platform_id = [];
  daemon_public_key = [];
  daemon_fingerprint = codes "e";
  tunnel_version = [];
}

abbrev pub phone : TrustedAndroid
phone = record { fingerprint = fingerprint; display_name = [] }

abbrev pub request : TunnelRequest
request = record {
  owner = owner;
  app_peer = conn 1;
  daemon_id = codes "d";
  attempt_id = codes "a";
  request_id = codes "q";
  fallback_reason = [];
  direct_latency_ms = pos 3;
  relay_latency_ms = pos 4;
  ttl = pos 100;
}

abbrev pub env : Env
env = record {
  swept_at = 10;
  now = 10;
  created_at = 11;
  app_random = some (codes "u");
  daemon_random = some (codes "v");
}

abbrev pub app_connects : Op
app_connects = app_registers owner (conn 1) true 6

abbrev pub daemon_connects : Op
daemon_connects = daemon_registers host info (phone ∷ []) [] (conn 2) true 7

abbrev pub tunnel_asked : Op
tunnel_asked = tunnel_begun request env

abbrev pub ready : Registry
ready = step (step new_registry app_connects) daemon_connects

abbrev pub asked : Registry
asked = step ready tunnel_asked

abbrev pub ready-Reachable : Reachable ready
ready-Reachable = next _ (next _ start app_connects) daemon_connects

abbrev pub asked-Reachable : Reachable asked
asked-Reachable = next _ ready-Reachable tunnel_asked

abbrev pub redeemed : TunnelRedemption
redeemed = record {
  tunnel_key = codes "1:s:f1:d:a";
  attempt_id = codes "a";
  actor = client;
  user_id = 1;
  app_session_id = codes "s";
  device_fingerprint = fingerprint;
  daemon_device_id = codes "d";
  daemon_fingerprint = codes "e";
}

abbrev pub pending_or : Pending → Result Pending → Pending
pending_or p (ok q) = q
pending_or p (err e) = p

abbrev pub no_pending : Pending
no_pending = record {
  ref = 0;
  key = [];
  daemon_peer = nil;
  daemon_frame = daemon_removed_frame [] [];
  app_frame = daemon_removed_frame [] [];
}

abbrev pub begun : Pending
begun = pending_or no_pending (begin_relay_tunnel ready request env).1

-- The runs.
pub begins : (begin_relay_tunnel ready request env).1 ≡ ok begun
unfolding step new_registry begin_relay_tunnel redeem_relay_tunnel_token lookup insert delete select
    retain has count Text-discrete Peer-discrete ℕ_discrete trim to_lower decimal
    sweep_expired_tunnel_attempts remove_each begin_normalized normalize_request
    normalize_fingerprint admit_relay_tunnel requester_active app_peer_active register_daemon
    register_app_if_valid app_owner_revoked store_daemon reconcile_direct_sessions daemon_map_key
    tunnel_attempt_key commit_admitted commit_relay_tunnel drop_old_attempt store_attempt
    remove_rendezvous record_relay_tunnel_request allow_relay_tunnel_request recent_requests
    record_request trusted_map_from_slice count_relay_tunnel_attempts admit_to_daemon
    admit_under_limits redeem_stored redeem_attempt adopt_reports
begins = refl

pub stores :
    lookup (codes "u") asked.tokens
    ≡ some (record { attempt_id = codes "1:s:f1:d:a"; actor = client })
unfolding step new_registry begin_relay_tunnel redeem_relay_tunnel_token lookup insert delete select
    retain has count Text-discrete Peer-discrete ℕ_discrete trim to_lower decimal
    sweep_expired_tunnel_attempts remove_each begin_normalized normalize_request
    normalize_fingerprint admit_relay_tunnel requester_active app_peer_active register_daemon
    register_app_if_valid app_owner_revoked store_daemon reconcile_direct_sessions daemon_map_key
    tunnel_attempt_key commit_admitted commit_relay_tunnel drop_old_attempt store_attempt
    remove_rendezvous record_relay_tunnel_request allow_relay_tunnel_request recent_requests
    record_request trusted_map_from_slice count_relay_tunnel_attempts admit_to_daemon
    admit_under_limits redeem_stored redeem_attempt adopt_reports
stores = refl

pub accepts : (redeem_relay_tunnel_token asked (codes " u ") 20 20).1 ≡ ok redeemed
unfolding step new_registry begin_relay_tunnel redeem_relay_tunnel_token lookup insert delete select
    retain has count Text-discrete Peer-discrete ℕ_discrete trim to_lower decimal
    sweep_expired_tunnel_attempts remove_each begin_normalized normalize_request
    normalize_fingerprint admit_relay_tunnel requester_active app_peer_active register_daemon
    register_app_if_valid app_owner_revoked store_daemon reconcile_direct_sessions daemon_map_key
    tunnel_attempt_key commit_admitted commit_relay_tunnel drop_old_attempt store_attempt
    remove_rendezvous record_relay_tunnel_request allow_relay_tunnel_request recent_requests
    record_request trusted_map_from_slice count_relay_tunnel_attempts admit_to_daemon
    admit_under_limits redeem_stored redeem_attempt adopt_reports
accepts = refl

pub fresh : IsFresh ready (codes "u")
unfolding step new_registry begin_relay_tunnel redeem_relay_tunnel_token lookup insert delete select
    retain has count Text-discrete Peer-discrete ℕ_discrete trim to_lower decimal
    sweep_expired_tunnel_attempts remove_each begin_normalized normalize_request
    normalize_fingerprint admit_relay_tunnel requester_active app_peer_active register_daemon
    register_app_if_valid app_owner_revoked store_daemon reconcile_direct_sessions daemon_map_key
    tunnel_attempt_key commit_admitted commit_relay_tunnel drop_old_attempt store_attempt
    remove_rendezvous record_relay_tunnel_request allow_relay_tunnel_request recent_requests
    record_request trusted_map_from_slice count_relay_tunnel_attempts admit_to_daemon
    admit_under_limits redeem_stored redeem_attempt adopt_reports
fresh = λ k b h. cc

pub reserves : (reserve_pairing ready (codes "d") host (conn 2) (codes "c") (pos 50) 9 9).1 ≡ true
unfolding step new_registry begin_relay_tunnel redeem_relay_tunnel_token lookup insert delete select
    retain has count Text-discrete Peer-discrete ℕ_discrete trim to_lower decimal
    sweep_expired_tunnel_attempts remove_each begin_normalized normalize_request
    normalize_fingerprint admit_relay_tunnel requester_active app_peer_active register_daemon
    register_app_if_valid app_owner_revoked store_daemon reconcile_direct_sessions daemon_map_key
    tunnel_attempt_key commit_admitted commit_relay_tunnel drop_old_attempt store_attempt
    remove_rendezvous record_relay_tunnel_request allow_relay_tunnel_request recent_requests
    record_request trusted_map_from_slice count_relay_tunnel_attempts admit_to_daemon
    admit_under_limits redeem_stored redeem_attempt adopt_reports reserve_pairing
    sweep_expired_pair_correlations
reserves = refl

abbrev pub answer : Answer
answer = record {
  user_id = 1;
  app_peer = nil;
  owner = record owner { app_session_id = [] };
  correlation_id = codes " c";
}

pub answers : IsAnswerTo answer host (codes "c")
unfolding trim
answers = (refl, refl, refl, refl)
