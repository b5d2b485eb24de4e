-- ===== src/Connectivity/Tunnels/Admission.antt =====
-- Who gets a tunnel.
use agent_tunnel.Base.{
  ℕ, ◌<◌, ◌≡◌, refl, sym, ap, ◌∙◌, Bool, true, false, Option, none, some, List, arith, length,
  Bool-cases, ◌||◌, inl, inr,
}
use agent_tunnel.Base.Text.{Text, text_eq, is_empty}
use agent_tunnel.Base.Dict.{lookup, has}
use agent_tunnel.Base.Peer.{peer_eq}
use agent_tunnel.Connectivity.{Registry, Result, ok, err, LiveDaemon, Effect}
use agent_tunnel.Connectivity.Keys.{daemon_map_key}
use agent_tunnel.Connectivity.Limits.{recent_requests, allow_relay_tunnel_request}
use agent_tunnel.Connectivity.Access.{
  trusted_fingerprint, app_owner_active, app_peer_active, app_owner_revoked,
}
use agent_tunnel.Connectivity.Removal.{sweep_expired_tunnel_attempts}
use agent_tunnel.Connectivity.Removal.Frame.{sweep_frame}
use agent_tunnel.Connectivity.Tunnels.{
  Pending, begin_normalized, begin_relay_tunnel, commit_admitted, commit_relay_tunnel, both_tokens,
}
use agent_tunnel.Connectivity.Requests.{
  TunnelRequest, Env, normalize_request, requester_active, request_key, count_relay_tunnel_attempts,
  admit_relay_tunnel,
}

-- What the relay has checked of a request that it admits.
pub record Admitted (r : Registry) (q : TunnelRequest) (now : ℕ) (live : LiveDaemon) : Type 0 where
  pub requester : requester_active r q ≡ true
  pub own_daemon : lookup (daemon_map_key q.owner.user_id q.daemon_id) r.daemons ≡ some live
  pub trusting : is_empty (trusted_fingerprint live.trusted q.owner.device_fingerprint) ≡ false
  pub not_direct : has (request_key q) r.active_direct ≡ false
  pub rate : length (recent_requests r.tunnel_requests q.owner.user_id now).1 < 10
  pub in_flight : count_relay_tunnel_attempts r q.owner (request_key q) < 4

pub admit-Admitted :
    (r : Registry) (q : TunnelRequest) (now : ℕ) (live : LiveDaemon)
    → (admit_relay_tunnel r q now).1 ≡ ok live
    → Admitted r q now live
unfolding admit_relay_tunnel allow_relay_tunnel_request count_relay_tunnel_attempts
admit-Admitted r q now live h = ground arith

-- A request that is admitted has its daemon and its two tokens.
abbrev Committed :
    Registry → TunnelRequest → Env → Pending → Option (Text × Text) → Result LiveDaemon → Type 0
Committed r q env p tokens admitted =
    (live : LiveDaemon) × (app_token : Text) × (daemon_token : Text) × (admitted ≡ ok live)
    × (tokens ≡ some (app_token, daemon_token))
    × (p ≡ (commit_relay_tunnel r q live app_token daemon_token env).1)

commit_admitted-Committed :
    (r : Registry) (q : TunnelRequest) (env : Env) (swept : List Effect) (p : Pending)
    (tokens : Option (Text × Text)) (admitted : Result LiveDaemon)
    → (commit_admitted r q env swept tokens admitted).1 ≡ ok p
    → Committed r q env p tokens admitted
unfolding commit_admitted
commit_admitted-Committed r q env swept p tokens (err e) h = cc
commit_admitted-Committed r q env swept p none (ok live) h = cc
commit_admitted-Committed r q env swept p (some (a, d)) (ok live) h = (live, a, d, refl, refl, cc)

-- The registry after the sweep and the pruning, and the answer of the checks.
abbrev pub swept_registry : Registry → Env → Registry
swept_registry r env = (sweep_expired_tunnel_attempts r env.swept_at).0

abbrev is_unnamed : TunnelRequest → Bool
is_unnamed q = is_empty q.owner.device_fingerprint || is_empty q.daemon_id || is_empty q.attempt_id

or-eq-false : {a b c : Bool} → (a || b || c) ≡ false → (a ≡ false) × (b ≡ false) × (c ≡ false)
or-eq-false h = ground arith

pub begin-Committed :
    (r : Registry) (q : TunnelRequest) (env : Env) (p : Pending)
    → (begin_normalized r q env).1 ≡ ok p
    → let admission = admit_relay_tunnel (swept_registry r env) q env.now in
      (is_empty q.owner.device_fingerprint ≡ false)
      × (is_empty q.daemon_id ≡ false)
      × (is_empty q.attempt_id ≡ false)
      × Committed admission.0 q env p (both_tokens env) admission.1
unfolding begin_normalized
begin-Committed r q env p h = elim (Bool-cases (is_unnamed q)) [
  | inl e ↦ cc (rw (e, begin_normalized) at h)
  | inr e ↦
      let (fingerprint, daemon, attempt) = or-eq-false e in
      (
        fingerprint,
        daemon,
        attempt,
        commit_admitted-Committed _ q env _ p _ _ (rw (e, begin_normalized) at h),
      )
]

-- What the relay has checked of a request that it has accepted.
pub record Checked (r : Registry) (q : TunnelRequest) (p : Pending) : Type 0 where
  pub requester : requester_active r q ≡ true
  pub host : LiveDaemon
  pub own_daemon : lookup (daemon_map_key q.owner.user_id q.daemon_id) r.daemons ≡ some host
  pub trusting : is_empty (trusted_fingerprint host.trusted q.owner.device_fingerprint) ≡ false
  pub not_direct : has (request_key q) r.active_direct ≡ false
  pub asked : p.daemon_peer ≡ host.peer
  pub named : is_empty q.owner.device_fingerprint ≡ false

requester_active-swept :
    (r : Registry) (q : TunnelRequest) (env : Env)
    → requester_active (swept_registry r env) q ≡ requester_active r q
unfolding requester_active app_peer_active app_owner_active app_owner_revoked
requester_active-swept r q env = rw (sweep_frame r env.swept_at) refl

pub begin-Checked :
    (r : Registry) (q : TunnelRequest) (env : Env) (p : Pending)
    → (begin_relay_tunnel r q env).1 ≡ ok p
    → Checked r (normalize_request q) p
unfolding begin_relay_tunnel commit_relay_tunnel
begin-Checked r raw env p h =
    let q = normalize_request raw in
    let (fingerprint, daemon, attempt, committed) = begin-Committed r q env p h in
    let (live, app_token, daemon_token, e, tokens, pending) = committed in
    let admitted = admit-Admitted (swept_registry r env) q env.now live e in
    let daemons : (swept_registry r env).daemons ≡ r.daemons =
      ap (λ (s : Registry). s.daemons) (sweep_frame r env.swept_at) in
    let direct : (swept_registry r env).active_direct ≡ r.active_direct =
      ap (λ (s : Registry). s.active_direct) (sweep_frame r env.swept_at) in
    record {
      requester = sym (requester_active-swept r q env) ∙ admitted.requester;
      host = live;
      own_daemon = rw daemons at (admitted.own_daemon);
      trusting = admitted.trusting;
      not_direct = rw direct at (admitted.not_direct);
      asked = ap (λ (x : Pending). x.daemon_peer) pending;
      named = fingerprint;
    }
