-- ===== src/Connectivity/Access.antt =====
-- Who is connected, who is revoked, and who sees whom.
pub mod Visibility
use agent_tunnel.Base.{
  ℕ, Bool, false, not, ◌&&◌, ◌||◌, Option, none, some, List, [], ◌∷◌, ◌++◌, map, ◌==◌, nat_eq, ltb,
  if◌then◌else◌, any,
}
use agent_tunnel.Base.Text.{Text, trim, text_eq, text_ltb}
use agent_tunnel.Base.Peer.{Peer, peer_eq}
use agent_tunnel.Base.Dict.{lookup, has, find, select, values}
use agent_tunnel.Connectivity.{
  Registry, AppOwner, DaemonOwner, LiveApp, LiveDaemon, DaemonInfo, Trusted,
}
use agent_tunnel.Connectivity.Keys.{normalize_fingerprint}

-- `==` on the struct DaemonOwner
abbrev pub same_daemon_owner : DaemonOwner → DaemonOwner → Bool
same_daemon_owner a b = a.user_id == b.user_id && a.agent_token_id == b.agent_token_id

-- The three fields of an app's owner that identify it.
abbrev pub same_app : AppOwner → AppOwner → Bool
same_app a b =
    a.user_id == b.user_id
    && a.app_session_id == b.app_session_id
    && a.device_fingerprint == b.device_fingerprint

-- `trusted[fingerprint].Fingerprint`, which is empty where the key is missing.
abbrev pub trusted_fingerprint : Trusted → Text → Text
trusted_fingerprint trusted fingerprint = elim (lookup fingerprint trusted) [
  | none ↦ []
  | some device ↦ device.fingerprint
]

-- A session that is not younger than the user's cutoff; the zero time is 0.
unfoldable pub is_cut_off : Option ℕ → ℕ → Bool
is_cut_off none created_at = false
is_cut_off (some cutoff) created_at = created_at == 0 || not (ltb cutoff created_at)

unfoldable pub app_owner_revoked : Registry → AppOwner → Bool
unfolding is_cut_off
app_owner_revoked r owner =
    has (trim owner.app_session_id) r.revoked_apps
    || is_cut_off (lookup owner.user_id r.user_app_cutoff) owner.session_created_at

unfoldable pub app_peer_active : Registry → AppOwner → Peer → Bool
app_peer_active r owner peer = elim (lookup peer r.apps) [
  | none ↦ false
  | some app ↦
      app.owner.user_id == owner.user_id
      && app.owner.app_session_id == owner.app_session_id
      && app.owner.device_fingerprint == normalize_fingerprint owner.device_fingerprint
      && not (app_owner_revoked r app.owner)
]

unfoldable pub app_owner_active : Registry → AppOwner → Bool
app_owner_active r owner =
    not (app_owner_revoked r owner)
    && any
        (λ app.
          same_app app.owner
            (record owner { device_fingerprint = normalize_fingerprint owner.device_fingerprint }))
        (values r.apps)

unfoldable pub daemon_by_device_peer : Registry → Text → Peer → Option (Text × LiveDaemon)
daemon_by_device_peer r device_id peer =
    find (λ live. live.info.device_id == device_id && live.peer == peer) r.daemons

peers_of : List LiveApp → List Peer
peers_of = map (λ app. app.peer)

unfoldable pub matching_app_peers : Registry → ℕ → Trusted → List Peer
unfolding peers_of
matching_app_peers r user trusted =
    peers_of (
      select (λ _ app. app.owner.user_id == user && has app.owner.device_fingerprint trusted)
        r.apps)

unfoldable pub matching_single_app_peer : Registry → ℕ → Text → List Peer
unfolding peers_of
matching_single_app_peer r user fingerprint = peers_of (
    select (λ _ app. app.owner.user_id == user && app.owner.device_fingerprint == fingerprint)
      r.apps)

unfoldable pub lost_app_peers : Registry → ℕ → Trusted → Trusted → List Peer
lost_app_peers r user [] new = []
lost_app_peers r user ((fingerprint, device) ∷ old) new =
    let rest = lost_app_peers r user old new in
    if has fingerprint new then rest else matching_single_app_peer r user fingerprint ++ rest

-- The order of visibleDaemonsLocked: the latest connection first, then by device id.
unfoldable pub before : LiveDaemon → LiveDaemon → Bool
before a b =
    if a.connected_at == b.connected_at
    then text_ltb a.info.device_id b.info.device_id
    else ltb b.connected_at a.connected_at

unfoldable pub place : LiveDaemon → List LiveDaemon → List LiveDaemon
place d [] = d ∷ []
place d (x ∷ xs) = let rest = place d xs in if before x d then x ∷ rest else d ∷ x ∷ xs

unfoldable pub sort_daemons : List LiveDaemon → List LiveDaemon
sort_daemons [] = []
sort_daemons (d ∷ ds) = place d (sort_daemons ds)

unfoldable pub visible_daemons : Registry → AppOwner → List DaemonInfo
unfolding before place sort_daemons
visible_daemons r owner =
    map (λ live. live.info)
      (sort_daemons (
        select
          (λ _ live.
            live.owner.user_id == owner.user_id && has owner.device_fingerprint live.trusted)
          r.daemons))
