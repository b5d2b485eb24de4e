-- ===== src/Connectivity/Apps.antt =====
-- The connections of the apps: RegisterAppIfValid and DisconnectApp.
use agent_tunnel.Base.{
  ℕ, Bool, true, false, not, ◌||◌, Option, none, some, List, [], ◌∷◌, ◌++◌, ◌==◌, nat_eq,
  if◌then◌else◌,
}
use agent_tunnel.Base.Text.{text_eq}
use agent_tunnel.Base.Peer.{Peer, peer_eq}
use agent_tunnel.Base.Dict.{lookup, insert, delete}
use agent_tunnel.Connectivity.{Registry, AppOwner, LiveApp, DaemonInfo, Effect, closed}
use agent_tunnel.Connectivity.Keys.{normalize_fingerprint}
use agent_tunnel.Connectivity.Access.{same_app, app_owner_revoked, visible_daemons}
use agent_tunnel.Connectivity.Removal.{remove_rendezvous}

abbrev pub normalize_owner : AppOwner → AppOwner
normalize_owner owner = record owner {
  device_fingerprint = normalize_fingerprint owner.device_fingerprint;
}

-- `still_valid` is the answer of the callback, true where there is none.
unfoldable pub register_app_if_valid :
    Registry → AppOwner → Peer → Bool → ℕ → Registry × Option (List DaemonInfo)
register_app_if_valid r raw peer still_valid now =
    let owner = normalize_owner raw in
    if not still_valid || app_owner_revoked r owner
    then (r, none)
    else (let app : LiveApp = record { owner = owner; peer = peer; connected_at = now } in
        let r' = record r { apps = insert peer app r.apps } in
        (r', some (visible_daemons r' owner)))

disconnect_live_app : Registry → Peer → Option LiveApp → Registry × Bool × List Effect
disconnect_live_app r peer none = (r, false, [])
disconnect_live_app r peer (some app) =
    let (r', notices) =
      remove_rendezvous (record r { apps = delete peer r.apps })
        λ attempt. attempt.app_peer == peer || same_app attempt.app_owner app.owner in
    (r', true, notices ++ closed peer ∷ [])

unfoldable pub disconnect_app : Registry → Peer → Registry × Bool × List Effect
unfolding disconnect_live_app
disconnect_app r peer = disconnect_live_app r peer (lookup peer r.apps)
