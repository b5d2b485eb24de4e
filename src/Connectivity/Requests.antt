-- ===== src/Connectivity/Requests.antt =====
-- The request of an app for a relay tunnel: its arguments, and the checks before the tokens are drawn.
use agent_tunnel.Base.{ℕ, Bool, not, ◌&&◌, Option, none, some, ◌==◌, nat_eq, leb, if◌then◌else◌}
use agent_tunnel.Base.Int.{ℤ, positive_or}
use agent_tunnel.Base.Text.{Text, text_eq, trim, is_empty}
use agent_tunnel.Base.Peer.{Peer, is_nil, peer_eq}
use agent_tunnel.Base.Dict.{lookup, count, has}
use agent_tunnel.Connectivity.{
  Registry, Result, ok, err, tunnel_unavailable, tunnel_rate_limited, AppOwner, LiveDaemon,
}
use agent_tunnel.Connectivity.Keys.{normalize_fingerprint, daemon_map_key, tunnel_attempt_key}
use agent_tunnel.Connectivity.Limits.{allow_relay_tunnel_request}
use agent_tunnel.Connectivity.Access.{
  same_app, app_peer_active, app_owner_active, trusted_fingerprint,
}

abbrev pub relay_tunnel_in_flight_per_app_session_limit : ℕ
relay_tunnel_in_flight_per_app_session_limit = 4

abbrev pub thirty_seconds : ℕ
thirty_seconds = 30_000_000_000

-- The arguments of requestRelayTunnel; `app_peer` is nil where the caller has no connection.
pub record TunnelRequest : Type 0 where
  pub owner : AppOwner
  pub app_peer : Peer
  pub daemon_id : Text
  pub attempt_id : Text
  pub request_id : Text
  pub fallback_reason : Text
  pub direct_latency_ms : ℤ
  pub relay_latency_ms : ℤ
  pub ttl : ℤ

-- What the method takes from outside: the clock's three readings and the two random tokens, `none`
-- where crypto/rand fails.
pub record Env : Type 0 where
  pub swept_at : ℕ
  pub now : ℕ
  pub created_at : ℕ
  pub app_random : Option Text
  pub daemon_random : Option Text

-- The request with the fingerprint and the ids in their normal form.
unfoldable pub normalize_request : TunnelRequest → TunnelRequest
normalize_request q = record q {
  owner = record (q.owner) {
    device_fingerprint = normalize_fingerprint q.owner.device_fingerprint;
  };
  daemon_id = trim q.daemon_id;
  attempt_id = trim q.attempt_id;
}

abbrev pub request_ttl : TunnelRequest → ℕ
request_ttl q = positive_or thirty_seconds q.ttl

-- The app's owner is connected: by this peer, or by any where none is given.
unfoldable pub requester_active : Registry → TunnelRequest → Bool
requester_active r q =
    if is_nil q.app_peer then app_owner_active r q.owner else app_peer_active r q.owner q.app_peer

unfoldable pub count_relay_tunnel_attempts : Registry → AppOwner → Text → ℕ
count_relay_tunnel_attempts r owner excluding =
    count (λ key attempt. not (key == excluding) && same_app attempt.app_owner owner) r.attempts

-- The tunnel that a request asks for.
abbrev pub request_key : TunnelRequest → Text
request_key q = tunnel_attempt_key q.owner q.daemon_id q.attempt_id

-- The checks under the lock up to the tokens, on a normalised request: the registry with the
-- outdated requests of the user pruned, and the daemon.
unfoldable pub admit_under_limits :
    Registry → TunnelRequest → ℕ → LiveDaemon → Registry × Result LiveDaemon
admit_under_limits r q now live =
    let (r', allowed) = allow_relay_tunnel_request r q.owner.user_id now in
    if not allowed
    then (r', err tunnel_rate_limited)
    else if leb relay_tunnel_in_flight_per_app_session_limit
        (count_relay_tunnel_attempts r' q.owner (request_key q))
    then (r', err tunnel_rate_limited)
    else (r', ok live)

unfoldable pub admit_to_daemon :
    Registry → TunnelRequest → ℕ → Option LiveDaemon → Registry × Result LiveDaemon
unfolding admit_under_limits
admit_to_daemon r q now none = (r, err tunnel_unavailable)
admit_to_daemon r q now (some live) =
    if is_empty (trusted_fingerprint live.trusted q.owner.device_fingerprint)
    then (r, err tunnel_unavailable)
    else if has (request_key q) r.active_direct
    then (r, err tunnel_unavailable)
    else admit_under_limits r q now live

unfoldable pub admit_relay_tunnel : Registry → TunnelRequest → ℕ → Registry × Result LiveDaemon
unfolding admit_to_daemon
admit_relay_tunnel r q now =
    if not (requester_active r q)
    then (r, err tunnel_unavailable)
    else admit_to_daemon r q now (lookup (daemon_map_key q.owner.user_id q.daemon_id) r.daemons)
