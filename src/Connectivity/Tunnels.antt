-- ===== src/Connectivity/Tunnels.antt =====
-- The relay tunnels: the request of an app, the two tokens, and the end of a tunnel.
pub mod Tokens
pub mod Invariant
pub mod Lifecycle
pub mod Redemption
pub mod SingleUse
pub mod Liveness
pub mod Granted
pub mod Capacity
pub mod Admission
use agent_tunnel.Connectivity.Requests.{
  Env, TunnelRequest, admit_relay_tunnel, normalize_request, request_key, request_ttl,
}
use agent_tunnel.Base.{
  ℕ, suc, ◌+◌, Bool, true, false, not, ◌&&◌, ◌||◌, Option, none, some, List, [], ◌∷◌, ◌++◌, ◌==◌,
  nat_eq, Eq, if◌then◌else◌,
}
use agent_tunnel.Base.Int.{non_negative}
use agent_tunnel.Base.Text.{Text, text_eq, trim, is_empty}
use agent_tunnel.Base.Peer.{Peer, peer_eq}
use agent_tunnel.Base.Dict.{lookup, insert}
use agent_tunnel.Connectivity.{
  Registry, Result, ok, err, tunnel_unavailable, random_failed, peer_inactive, LiveDaemon,
  TunnelAttempt, Actor, client, daemon, ConnectivityFrame, Effect, tunnel_timer,
}
use agent_tunnel.Connectivity.Frames.{relay_tunnel_ready_frame_with_diagnostics}
use agent_tunnel.Connectivity.Limits.{record_relay_tunnel_request}
use agent_tunnel.Connectivity.Access.{same_app}
use agent_tunnel.Connectivity.Removal.{
  remove_tunnel_attempt, remove_rendezvous, sweep_expired_tunnel_attempts,
}

-- An attempt that is stored and the message to its daemon, which is sent behind the lock.
pub record Pending : Type 0 where
  pub ref : ℕ
  pub key : Text
  pub daemon_peer : Peer
  pub daemon_frame : ConnectivityFrame
  pub app_frame : ConnectivityFrame

abbrev pub new_attempt : Registry → TunnelRequest → LiveDaemon → Text → Text → ℕ → TunnelAttempt
new_attempt r q live app_token daemon_token created_at = record {
  ref = r.next_ref;
  key = request_key q;
  id = q.attempt_id;
  app_owner = q.owner;
  daemon_owner = live.owner;
  daemon_device_id = live.info.device_id;
  daemon_fingerprint = live.info.daemon_fingerprint;
  daemon_peer = live.peer;
  app_token = app_token;
  daemon_token = daemon_token;
  fallback_reason = trim q.fallback_reason;
  direct_latency_ms = non_negative q.direct_latency_ms;
  relay_latency_ms = non_negative q.relay_latency_ms;
  app_redeemed = false;
  daemon_redeemed = false;
  active = false;
  expires_at = created_at + request_ttl q;
  closers = [];
}

abbrev ready_frame : TunnelRequest → TunnelAttempt → Actor → Text → ConnectivityFrame
ready_frame q attempt actor token =
    relay_tunnel_ready_frame_with_diagnostics q.request_id q.attempt_id actor
      attempt.daemon_device_id q.owner.device_fingerprint token attempt.fallback_reason
      attempt.direct_latency_ms attempt.relay_latency_ms

-- `if old := r.attempts[tunnelKey]; old != nil { … }`
unfoldable pub drop_old_attempt : Registry → Text → Registry × List Effect
drop_old_attempt r key = elim (lookup key r.attempts) [
  | none ↦ (r, [])
  | some old ↦ remove_tunnel_attempt r old
]

-- The attempt and its two tokens enter the maps.
unfoldable pub store_attempt : Registry → TunnelAttempt → Registry
store_attempt r attempt = record r {
  attempts = insert attempt.key attempt r.attempts;
  tokens =
      insert attempt.daemon_token (record { attempt_id = attempt.key; actor = daemon })
        (insert attempt.app_token (record { attempt_id = attempt.key; actor = client }) r.tokens);
  next_ref = suc r.next_ref;
}

-- From the tokens to the end of the critical section.
unfoldable pub commit_relay_tunnel :
    Registry → TunnelRequest → LiveDaemon → Text → Text → Env → Registry × Pending × List Effect
commit_relay_tunnel r q live app_token daemon_token env =
    let key = request_key q in
    let r₁ = record_relay_tunnel_request r q.owner.user_id env.now in
    let (r₂, closers) = drop_old_attempt r₁ key in
    let (r₃, notices) = remove_rendezvous r₂ λ attempt.
      same_app attempt.app_owner q.owner
      && attempt.daemon_device_id == q.daemon_id
      && attempt.id == q.attempt_id in
    let attempt = new_attempt r₃ q live app_token daemon_token env.created_at in
    (
      store_attempt r₃ attempt,
      record {
        ref = attempt.ref;
        key = key;
        daemon_peer = live.peer;
        daemon_frame = ready_frame q attempt daemon daemon_token;
        app_frame = ready_frame q attempt client app_token;
      },
      notices ++ closers,
    )

-- randomToken, twice.
abbrev pub both_tokens : Env → Option (Text × Text)
both_tokens env = elim env.app_random [
  | none ↦ none
  | some app ↦ elim env.daemon_random [ none ↦ none | some other ↦ some (app, other) ]
]

unfoldable pub commit_admitted :
    Registry
    → TunnelRequest
    → Env
    → List Effect
    → Option (Text × Text)
    → Result LiveDaemon
    → Registry × Result Pending × List Effect
commit_admitted r q env swept tokens (err e) = (r, err e, swept)
commit_admitted r q env swept none (ok live) = (r, err random_failed, swept)
commit_admitted r q env swept (some (app_token, daemon_token)) (ok live) =
    let (r', pending, effects) = commit_relay_tunnel r q live app_token daemon_token env in
    (r', ok pending, effects ++ swept ++ tunnel_timer pending.key (request_ttl q) ∷ [])

-- requestRelayTunnel up to the message to the daemon, on a normalised request.
unfoldable pub begin_normalized :
    Registry → TunnelRequest → Env → Registry × Result Pending × List Effect
unfolding commit_admitted
begin_normalized r q env =
    if is_empty q.owner.device_fingerprint || is_empty q.daemon_id || is_empty q.attempt_id
    then (r, err tunnel_unavailable, [])
    else (let (r₁, removed, swept) = sweep_expired_tunnel_attempts r env.swept_at in
        let (r₂, admitted) = admit_relay_tunnel r₁ q env.now in
        commit_admitted r₂ q env swept (both_tokens env) admitted)

unfoldable pub begin_relay_tunnel :
    Registry → TunnelRequest → Env → Registry × Result Pending × List Effect
begin_relay_tunnel r q env = begin_normalized r (normalize_request q) env

-- What follows the message: `delivered` says whether SendJSON succeeded. Other calls may have run in
-- between, so the attempt that is taken back is the one that was stored, and no later one.
unfoldable pub finish_relay_tunnel :
    Registry → Pending → Bool → Registry × Result ConnectivityFrame × List Effect
finish_relay_tunnel r pending true = (r, ok pending.app_frame, [])
finish_relay_tunnel r pending false = elim (lookup pending.key r.attempts) [
  | none ↦ (r, err peer_inactive, [])
  | some current ↦
      if not (current.ref == pending.ref)
      then (r, err peer_inactive, [])
      else (let (r', closers) = remove_tunnel_attempt r current in (r', err peer_inactive, closers))
]

complete_request :
    Registry × Result Pending × List Effect
    → Bool
    → Registry × Result ConnectivityFrame × List Effect
complete_request (r, err e, effects) delivered = (r, err e, effects)
complete_request (r, ok pending, effects) delivered =
    let (r', result, more) = finish_relay_tunnel r pending delivered in
    (r', result, effects ++ more)

-- requestRelayTunnel where no other call runs while the daemon is told.
unfoldable pub request_relay_tunnel :
    Registry → TunnelRequest → Env → Bool → Registry × Result ConnectivityFrame × List Effect
unfolding complete_request
request_relay_tunnel r q env delivered = complete_request (begin_relay_tunnel r q env) delivered
