-- ===== src/Connectivity/Machine/Authorization.antt =====
-- Who gets a tunnel: what is in the registry when the relay accepts the request of an app.
use agent_tunnel.Base.{
  ℕ, ◌<◌, ◌≡◌, ◌≢◌, sym, ◌⊎◌, inl, inr, true, false, Option, none, some, List, [], ◌∷◌, arith,
  nat_eq, any, Any, here, there, Bool-cases, Option-cases,
}
use agent_tunnel.Base.Text.{Text, text_eq, trim, is_empty}
use agent_tunnel.Base.Peer.{Peer, peer_eq, is_nil}
use agent_tunnel.Base.Dict.{Dict, lookup, has, values}
use agent_tunnel.Base.Entries.{lookup-All}
use agent_tunnel.Connectivity.{Registry, AppOwner, LiveApp, LiveDaemon, TrustedAndroid, Trusted, ok}
use agent_tunnel.Connectivity.Keys.{daemon_map_key, daemon_map_key-injective, normalize_fingerprint}
use agent_tunnel.Connectivity.Access.{
  trusted_fingerprint, app_owner_active, app_peer_active, app_owner_revoked, same_app, is_cut_off,
}
use agent_tunnel.Connectivity.Requests.{
  TunnelRequest, Env, normalize_request, requester_active, request_key,
}
use agent_tunnel.Connectivity.Tunnels.{Pending, begin_relay_tunnel}
use agent_tunnel.Connectivity.Tunnels.Admission.{begin-Checked}
use agent_tunnel.Connectivity.Machine.{Reachable}
use agent_tunnel.Connectivity.Machine.Keyed.{IsKeyed}
use agent_tunnel.Connectivity.Machine.Keyed.Steps.{Reachable-Keyed}

-- The session is not revoked, and it began behind any cut-off of its user.
abbrev pub IsCurrent : Registry → AppOwner → Type 0
IsCurrent r owner =
    (lookup (trim owner.app_session_id) r.revoked_apps ≡ none)
    × ((cutoff : ℕ)
        → lookup owner.user_id r.user_app_cutoff ≡ some cutoff
        → (cutoff < owner.session_created_at) × (owner.session_created_at ≢ 0))

-- The connection is one of the owner's session and device.
abbrev pub IsOf : AppOwner → LiveApp → Type 0
IsOf owner app =
    (app.owner.user_id ≡ owner.user_id)
    × (app.owner.app_session_id ≡ owner.app_session_id)
    × (app.owner.device_fingerprint ≡ normalize_fingerprint owner.device_fingerprint)

-- The app has a current connection: the one that it asks by, or any where it names none.
abbrev pub IsConnected : Registry → TunnelRequest → Type 0
IsConnected r q =
    ((app : LiveApp) × (lookup q.app_peer r.apps ≡ some app)
      × IsOf q.owner app
      × IsCurrent r app.owner)
    ⊎ ((is_nil q.app_peer ≡ true) × Any (IsOf q.owner) (values r.apps) × IsCurrent r q.owner)

cut_off-false :
    (o : Option ℕ) (at cutoff : ℕ)
    → is_cut_off o at ≡ false
    → o ≡ some cutoff
    → (cutoff < at) × (at ≢ 0)
unfolding is_cut_off
cut_off-false none at cutoff h e = absurd (ground (arith, e))
cut_off-false (some c) at cutoff h e = (ground (arith, h, e), λ z. ground (arith, h, z))

revoked-IsCurrent :
    (r : Registry) (owner : AppOwner) → app_owner_revoked r owner ≡ false → IsCurrent r owner
unfolding app_owner_revoked has
revoked-IsCurrent r owner h = (
  ground (arith, h),
  λ cutoff found.
      cut_off-false (lookup owner.user_id r.user_app_cutoff) owner.session_created_at cutoff
        (ground (arith, h)) found,
)

peer-IsConnected :
    (r : Registry) (owner : AppOwner) (peer : Peer)
    → app_peer_active r owner peer ≡ true
    → (app : LiveApp) × (lookup peer r.apps ≡ some app)
      × IsOf owner app
      × (app_owner_revoked r app.owner ≡ false)
unfolding app_peer_active
peer-IsConnected r owner peer h = ground arith

any-IsOf :
    (owner : AppOwner) (apps : List LiveApp)
    → any
        (λ app.
          same_app app.owner
            (record owner { device_fingerprint = normalize_fingerprint owner.device_fingerprint }))
        apps
      ≡ true
    → Any (IsOf owner) apps
any-IsOf owner [] h = absurd (ground (arith, h))
any-IsOf owner (app ∷ apps) h =
    elim (Bool-cases (
      same_app app.owner
        (record owner { device_fingerprint = normalize_fingerprint owner.device_fingerprint }))) [
          | inl e ↦ here app apps (ground (arith, e), ground (arith, e), ground (arith, e))
          | inr e ↦ there app apps (any-IsOf owner apps (ground (arith, h, e)))
        ]

pub active-IsConnected :
    (r : Registry) (q : TunnelRequest) → requester_active r q ≡ true → IsConnected r q
unfolding requester_active app_owner_active
active-IsConnected r q h = elim (Bool-cases (is_nil q.app_peer)) [
  | inr e ↦
      let (app, found, of, current) = peer-IsConnected r q.owner q.app_peer (rw e at h) in
      inl (app, found, of, revoked-IsCurrent r app.owner current)
  | inl e ↦
      let active : app_owner_active r q.owner ≡ true = rw e at h in
      inr (
        e,
        any-IsOf q.owner (values r.apps) (ground (arith, active)),
        revoked-IsCurrent r q.owner (ground (arith, active)),
      )
]

-- What holds in the registry when a request is accepted: the app's session has a connection, is not
-- revoked and not cut off; the daemon is one of the same user, trusts the app's device and is the one
-- that is asked; and the attempt has no direct session.
pub record Authorized (r : Registry) (q : TunnelRequest) (p : Pending) : Type 0 where
  pub connected : IsConnected r q
  pub host : LiveDaemon
  pub device : TrustedAndroid
  pub registered : lookup (daemon_map_key q.owner.user_id q.daemon_id) r.daemons ≡ some host
  pub own : host.owner.user_id ≡ q.owner.user_id
  pub named : trim host.info.device_id ≡ trim q.daemon_id
  pub trusted : lookup q.owner.device_fingerprint host.trusted ≡ some device
  pub asked : p.daemon_peer ≡ host.peer
  pub not_direct : lookup (request_key q) r.active_direct ≡ none

device-trusted :
    (trusted : Trusted) (fingerprint : Text)
    → is_empty (trusted_fingerprint trusted fingerprint) ≡ false
    → (device : TrustedAndroid) × (lookup fingerprint trusted ≡ some device)
device-trusted trusted fingerprint h = elim (Option-cases (lookup fingerprint trusted)) [
  | inl e ↦ absurd (ground (arith, h, e))
  | inr (device, e) ↦ (device, e)
]

has-none {ℓ} : {V : Type ℓ} (key : Text) (m : Dict Text V) → has key m ≡ false → lookup key m ≡ none
unfolding has
has-none key m h = ground (arith, h)

-- In a reachable registry a tunnel is begun only for an app whose session has a connection, is not
-- revoked and began behind any cut-off of its user, to the registered daemon of the id asked for, which
-- is of the same user and trusts the app's device, and not beside a direct session of the same attempt.
pub begin-Authorized :
    (r : Registry) (q : TunnelRequest) (env : Env) (p : Pending)
    → Reachable r
    → (begin_relay_tunnel r q env).1 ≡ ok p
    → Authorized r (normalize_request q) p
begin-Authorized r raw env p reached h =
    let q = normalize_request raw in
    let checked = begin-Checked r raw env p h in
    let host = checked.host in
    let (own, same_id) =
      daemon_map_key-injective q.owner.user_id host.owner.user_id q.daemon_id host.info.device_id (
        lookup-All IsKeyed (daemon_map_key q.owner.user_id q.daemon_id) r.daemons host
          (Reachable-Keyed r reached) checked.own_daemon) in
    let (device, trusted) =
      device-trusted host.trusted q.owner.device_fingerprint checked.trusting in
    record {
      connected = active-IsConnected r q checked.requester;
      host = host;
      device = device;
      registered = checked.own_daemon;
      own = sym own;
      named = sym same_id;
      trusted = trusted;
      asked = checked.asked;
      not_direct = has-none (request_key q) r.active_direct checked.not_direct;
    }
