-- ===== src/Connectivity/Tunnels/Granted.antt =====
-- requestRelayTunnel and RedeemRelayTunnelToken, one after the other.
use agent_tunnel.Base.{
  ℕ, ◌+◌, ◌≡◌, ◌<◌, refl, sym, ap, ◌∙◌, subst, false, some, inl, inr, arith, ◌==◌, nat_eq,
  Option-cases,
}
use agent_tunnel.Base.Text.{Text, text_eq, trim, is_empty}
use agent_tunnel.Base.Dict.{lookup, insert, lookup-delete, lookup-insert}
use agent_tunnel.Connectivity.{
  Registry, TunnelAttempt, TunnelToken, TunnelRedemption, Actor, client, daemon, Result, ok,
  LiveDaemon,
}
use agent_tunnel.Connectivity.Removal.{
  remove_tunnel_attempt, remove_rendezvous, sweep_expired_tunnel_attempts,
}
use agent_tunnel.Connectivity.Removal.Frame.{lookup-remove_each}
use agent_tunnel.Connectivity.Limits.{record_relay_tunnel_request}
use agent_tunnel.Connectivity.Redeem.{redemption_of, redeem_relay_tunnel_token}
use agent_tunnel.Connectivity.Tunnels.{
  drop_old_attempt, store_attempt, commit_relay_tunnel, commit_admitted, begin_normalized,
  begin_relay_tunnel, both_tokens, Pending, new_attempt,
}
use agent_tunnel.Connectivity.Requests.{
  normalize_request, request_key, request_ttl, admit_relay_tunnel, TunnelRequest, Env,
}
use agent_tunnel.Connectivity.Tunnels.Admission.{begin-Committed, swept_registry}
use agent_tunnel.Connectivity.Tunnels.Capacity.{admit-attempts}
use agent_tunnel.Connectivity.Tunnels.Invariant.{Consistent}
use agent_tunnel.Connectivity.Tunnels.Lifecycle.{begin-Consistent}
use agent_tunnel.Connectivity.Tunnels.Liveness.{IsSole, redeem-live}

-- The token of a side.
abbrev pub drawn : Actor → Text → Text → Text
drawn client app_token daemon_token = app_token
drawn daemon app_token daemon_token = daemon_token

-- No attempt has the token.
abbrev pub IsFresh : Registry → Text → Type 0
IsFresh r token =
    (k : Text) (b : TunnelAttempt)
    → lookup k r.attempts ≡ some b
    → ((b.app_token == token) ≡ false) × ((b.daemon_token == token) ≡ false)

lookup-drop_old :
    (r : Registry) (key k : Text) (b : TunnelAttempt)
    → lookup k (drop_old_attempt r key).0.attempts ≡ some b
    → lookup k r.attempts ≡ some b
unfolding drop_old_attempt remove_tunnel_attempt
lookup-drop_old r key k b h = elim (Option-cases (lookup key r.attempts)) [
  | inl e ↦ ground arith
  | inr (a, e) ↦ ground (arith, lookup-delete a.key k r.attempts)
]

module _ (r : Registry) (q : TunnelRequest) (live : LiveDaemon) (app_token daemon_token : Text)
    (env : Env) where
  abbrev committed : Registry
  committed = (commit_relay_tunnel r q live app_token daemon_token env).0

  abbrev freed : Registry
  freed =
      (drop_old_attempt (record_relay_tunnel_request r q.owner.user_id env.now) (request_key q)).0

  abbrev attempt : TunnelAttempt
  attempt = new_attempt freed q live app_token daemon_token env.created_at

  commit-attempt : lookup (request_key q) committed.attempts ≡ some attempt
  unfolding commit_relay_tunnel store_attempt remove_rendezvous
  commit-attempt =
      ground (arith, lookup-insert (request_key q) (request_key q) attempt freed.attempts)

  commit-token :
      (actor : Actor)
      → (app_token == daemon_token) ≡ false
      → lookup (drawn actor app_token daemon_token) committed.tokens
        ≡ some (record { attempt_id = request_key q; actor = actor })
  unfolding commit_relay_tunnel store_attempt remove_rendezvous
  commit-token client differ =
      let app : TunnelToken = record { attempt_id = request_key q; actor = client } in
      let other : TunnelToken = record { attempt_id = request_key q; actor = daemon } in
      ground (
        arith,
        lookup-insert app_token app_token app freed.tokens,
        lookup-insert daemon_token app_token other (insert app_token app freed.tokens),
      )
  commit-token daemon differ =
      let app : TunnelToken = record { attempt_id = request_key q; actor = client } in
      let other : TunnelToken = record { attempt_id = request_key q; actor = daemon } in
      ground
        (arith, lookup-insert daemon_token daemon_token other (insert app_token app freed.tokens))

  commit-IsSole : (token : Text) → IsFresh r token → IsSole committed (request_key q) token
  unfolding commit_relay_tunnel store_attempt remove_rendezvous record_relay_tunnel_request
  commit-IsSole token fresh k b found other = fresh k b (
      lookup-drop_old (record_relay_tunnel_request r q.owner.user_id env.now) (request_key q) k b
        (ground (arith, lookup-insert (request_key q) k attempt freed.attempts)))

begin-registry :
    (r : Registry) (q : TunnelRequest) (env : Env) (live : LiveDaemon)
    (app_token daemon_token : Text)
    → (is_empty q.owner.device_fingerprint ≡ false)
      × (is_empty q.daemon_id ≡ false)
      × (is_empty q.attempt_id ≡ false)
    → let admission = admit_relay_tunnel (swept_registry r env) q env.now in
      admission.1 ≡ ok live
      → both_tokens env ≡ some (app_token, daemon_token)
      → (begin_normalized r q env).0
        ≡ (commit_relay_tunnel admission.0 q live app_token daemon_token env).0
unfolding begin_normalized commit_admitted
begin-registry r q env live app_token daemon_token (fingerprint, daemon_id, attempt_id) admitted
      tokens =
    rw (fingerprint, daemon_id, attempt_id) (rw (tokens, admitted) refl)

admitted-IsFresh :
    (r : Registry) (q : TunnelRequest) (env : Env) (token : Text)
    → IsFresh r token
    → IsFresh (admit_relay_tunnel (swept_registry r env) q env.now).0 token
unfolding sweep_expired_tunnel_attempts
admitted-IsFresh r q env token fresh k b found =
    fresh k b
      (lookup-remove_each r _ k b (rw (admit-attempts (swept_registry r env) q env.now) at found))

-- The tunnel of a request, as its owner is told.
abbrev pub IsGrantOf : TunnelRequest → Pending → Actor → Result TunnelRedemption → Type 0
IsGrantOf q p actor result =
    (x : TunnelRedemption) × (result ≡ ok x)
    × (x.tunnel_key ≡ p.key)
    × (x.attempt_id ≡ q.attempt_id)
    × (x.actor ≡ actor)
    × (x.user_id ≡ q.owner.user_id)
    × (x.app_session_id ≡ q.owner.app_session_id)
    × (x.device_fingerprint ≡ q.owner.device_fingerprint)

-- The time up to which the tunnel of a request waits for its tokens.
abbrev pub deadline : TunnelRequest → Env → ℕ
deadline q env = env.created_at + request_ttl q

grant :
    (r : Registry) (q : TunnelRequest) (env : Env) (p : Pending) (live : LiveDaemon)
    (app_token daemon_token : Text) (actor : Actor) (raw : Text) (swept_at now : ℕ)
    → let s = (commit_relay_tunnel r q live app_token daemon_token env).0 in
      Consistent s
      → p ≡ (commit_relay_tunnel r q live app_token daemon_token env).1
      → (app_token == daemon_token) ≡ false
      → trim raw ≡ drawn actor app_token daemon_token
      → is_empty (trim raw) ≡ false
      → IsFresh r (trim raw)
      → swept_at < deadline q env
      → now < deadline q env
      → IsGrantOf q p actor (redeem_relay_tunnel_token s raw swept_at now).1
unfolding commit_relay_tunnel
grant r q env p live app_token daemon_token actor raw swept_at now w pending differ named nonempty
      fresh swept in_time =
    let s = (commit_relay_tunnel r q live app_token daemon_token env).0 in
    let stored : TunnelToken = record { attempt_id = request_key q; actor = actor } in
    let token =
      ap (λ k. lookup k s.tokens) named
      ∙ commit-token r q live app_token daemon_token env actor differ in
    (
      redemption_of (attempt r q live app_token daemon_token env) actor,
      redeem-live s raw swept_at now stored (attempt r q live app_token daemon_token env) w nonempty
          token (commit-attempt r q live app_token daemon_token env)
          (commit-IsSole r q live app_token daemon_token env (trim raw) fresh) swept in_time,
      sym (ap (λ (x : Pending). x.key) pending),
      refl,
      refl,
      refl,
      refl,
      refl,
    )

both-drawn :
    (env : Env) (t u app_token daemon_token : Text)
    → env.app_random ≡ some t
    → env.daemon_random ≡ some u
    → both_tokens env ≡ some (app_token, daemon_token)
    → (app_token ≡ t) × (daemon_token ≡ u)
both-drawn env t u app_token daemon_token app other h = ground arith

-- When a request has been accepted and nothing else happens in between, each of its two tokens is
-- accepted if it comes before the tunnel's deadline, and says that it is for this tunnel, for its own
-- side of it and for the owner that asked: provided that the tokens of the registry are in order, that
-- the two tokens differ, and that the given one is neither blank nor a token of an earlier tunnel.
pub redeem-begin :
    (r : Registry) (raw_request : TunnelRequest) (env : Env) (p : Pending)
    (app_token daemon_token : Text) (actor : Actor) (raw : Text) (swept_at now : ℕ)
    → Consistent r
    → (begin_relay_tunnel r raw_request env).1 ≡ ok p
    → env.app_random ≡ some app_token
    → env.daemon_random ≡ some daemon_token
    → (app_token == daemon_token) ≡ false
    → trim raw ≡ drawn actor app_token daemon_token
    → is_empty (trim raw) ≡ false
    → IsFresh r (trim raw)
    → swept_at < deadline raw_request env
    → now < deadline raw_request env
    → IsGrantOf
        (normalize_request raw_request)
        p
        actor
        (redeem_relay_tunnel_token (begin_relay_tunnel r raw_request env).0 raw swept_at now).1
unfolding begin_relay_tunnel normalize_request
redeem-begin r raw_request env p app_token daemon_token actor raw swept_at now w begun app other
      differ named nonempty fresh swept in_time =
    let q = normalize_request raw_request in
    let (fingerprint, daemon_id, attempt_id, accepted) = begin-Committed r q env p begun in
    let (live, t, u, admitted, tokens, pending) = accepted in
    let (same_app, same_daemon) = both-drawn env app_token daemon_token t u app other tokens in
    let registry =
      begin-registry r q env live t u (fingerprint, daemon_id, attempt_id) admitted tokens in
    let kept = subst (λ s. Consistent s) registry (begin-Consistent r raw_request env w) in
    let differ' : (t == u) ≡ false = rw (same_app, same_daemon) differ in
    let named' : trim raw ≡ drawn actor t u = rw (same_app, same_daemon) named in
    let granted =
      grant (admit_relay_tunnel (swept_registry r env) q env.now).0 q env p live t u actor raw
        swept_at now kept pending differ' named' nonempty
        (admitted-IsFresh r q env (trim raw) fresh) swept in_time in
    subst (λ s. IsGrantOf q p actor (redeem_relay_tunnel_token s raw swept_at now).1) (sym registry)
      granted
