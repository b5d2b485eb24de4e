-- ===== src/Connectivity/Revocation.antt =====
-- The end of an app session, of a user's access and of an agent token.
pub mod Sessions
use agent_tunnel.Base.{
  ℕ, ◌+◌, not, ◌&&◌, ◌||◌, List, [], ◌∷◌, ◌++◌, map, ◌==◌, nat_eq, if◌then◌else◌, length,
}
use agent_tunnel.Base.Text.{Text, text_eq, trim}
use agent_tunnel.Base.Peer.{Peer, peer_eq}
use agent_tunnel.Base.Dict.{Dict, insert, delete, retain, select, pick}
use agent_tunnel.Connectivity.{Registry, LiveApp, LiveDaemon, Effect, closed}
use agent_tunnel.Connectivity.Removal.{
  remove_correlations_for_daemon, remove_rendezvous, remove_active_direct, remove_tunnel_attempts,
}

abbrev close_all : List Peer → List Effect
close_all [] = []
close_all (peer ∷ peers) = closed peer ∷ close_all peers

unfoldable pub disconnect_app_session : Registry → Text → Registry × ℕ × List Effect
disconnect_app_session r session_id =
    let is_session = λ (app : LiveApp). app.owner.app_session_id == session_id in
    let peers = map (λ app. app.peer) (select (λ _ app. is_session app) r.apps) in
    let r₁ = record r {
      revoked_apps = insert (trim session_id) tt r.revoked_apps;
      apps = retain (λ _ app. not (is_session app)) r.apps;
    } in
    let (r₂, notices) = remove_rendezvous r₁ (λ a. a.app_owner.app_session_id == session_id) in
    let (r₃, direct) = remove_active_direct r₂ (λ s. s.app_owner.app_session_id == session_id) in
    let (r₄, closers) = remove_tunnel_attempts r₃ (λ a. a.app_owner.app_session_id == session_id) in
    (r₄, length peers, notices ++ direct ++ closers ++ close_all peers)

-- The sessions of the apps that are cut off are revoked too.
unfoldable pub revoke_sessions : List LiveApp → Dict Text (Unit {0}) → Dict Text (Unit {0})
revoke_sessions [] revoked = revoked
revoke_sessions (app ∷ rest) revoked =
    revoke_sessions rest (insert app.owner.app_session_id tt revoked)

-- The loop over the daemons: each takes its correlations, rendezvous and direct sessions with it.
unfoldable pub drop_daemons : Registry → List (Text × LiveDaemon) → Registry × List Effect
drop_daemons r [] = (r, [])
drop_daemons r ((key, live) ∷ rest) =
    let r₁ =
      remove_correlations_for_daemon (record r { daemons = delete key r.daemons }) key live.peer in
    let (r₂, notices) = remove_rendezvous r₁ (λ a. a.daemon_peer == live.peer) in
    let (r₃, direct) = remove_active_direct r₂ (λ s. s.daemon_peer == live.peer) in
    let (r₄, more) = drop_daemons r₃ rest in (r₄, notices ++ direct ++ more)

daemon_peers : List (Text × LiveDaemon) → List Peer
daemon_peers = map (λ entry. entry.1.peer)

unfoldable pub disconnect_user : Registry → ℕ → ℕ → Registry × ℕ × List Effect
unfolding revoke_sessions drop_daemons daemon_peers
disconnect_user r user now =
    let apps = select (λ _ app. app.owner.user_id == user) r.apps in
    let daemons = pick (λ _ live. live.owner.user_id == user) r.daemons in
    let r₁ = record r {
      user_app_cutoff = insert user now r.user_app_cutoff;
      apps = retain (λ _ app. not (app.owner.user_id == user)) r.apps;
      revoked_apps = revoke_sessions apps r.revoked_apps;
    } in
    let (r₂, dropped) = drop_daemons r₁ daemons in
    let (r₃, notices) =
      remove_rendezvous r₂ λ a. a.app_owner.user_id == user || a.daemon_owner.user_id == user in
    let (r₄, direct) =
      remove_active_direct r₃ λ s. s.app_owner.user_id == user || s.daemon_owner.user_id == user in
    let (r₅, closers) =
      remove_tunnel_attempts r₄
        λ a. a.app_owner.user_id == user || a.daemon_owner.user_id == user in
    (
      r₅,
      length apps + length daemons,
      dropped
          ++ notices
          ++ direct
          ++ closers
          ++ close_all (map (λ app. app.peer) apps)
          ++ close_all (daemon_peers daemons),
    )

unfoldable pub disconnect_agent_token : Registry → Text → Registry × ℕ × List Effect
unfolding drop_daemons daemon_peers
disconnect_agent_token r token_id =
    let daemons = pick (λ _ live. live.owner.agent_token_id == token_id) r.daemons in
    let r₁ = record r { revoked_agents = insert (trim token_id) tt r.revoked_agents } in
    let (r₂, dropped) = drop_daemons r₁ daemons in
    let (r₃, notices) = remove_rendezvous r₂ (λ a. a.daemon_owner.agent_token_id == token_id) in
    let (r₄, direct) = remove_active_direct r₃ (λ s. s.daemon_owner.agent_token_id == token_id) in
    let (r₅, closers) =
      remove_tunnel_attempts r₄ (λ a. a.daemon_owner.agent_token_id == token_id) in
    (
      r₅,
      length daemons,
      dropped ++ notices ++ direct ++ closers ++ close_all (daemon_peers daemons),
    )
