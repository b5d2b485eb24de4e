-- ===== src/Connectivity/Machine/Departures.antt =====
-- A token that is not in the registry, under daemons that come and go and access that ends.
use agent_tunnel.Base.{ℕ, ap, ◌∙◌, Bool, not, Option, none, some, List, arith, ◌==◌, nat_eq}
use agent_tunnel.Base.Text.{Text, text_eq, trim}
use agent_tunnel.Base.Peer.{Peer, peer_eq}
use agent_tunnel.Base.Dict.{lookup, insert, select, pick, retain}
use agent_tunnel.Connectivity.{
  Registry, DaemonOwner, DaemonInfo, TrustedAndroid, DirectReport, LiveDaemon, Trusted,
  TunnelAttempt,
}
use agent_tunnel.Connectivity.Removal.{
  remove_tunnel_attempts, remove_rendezvous, remove_active_direct, remove_correlations_for_daemon,
}
use agent_tunnel.Connectivity.Daemons.{
  Registration, registration, replaced, replace_daemon, store_daemon, register_daemon,
}
use agent_tunnel.Connectivity.Pairing.{leave_daemon, revoke_device}
use agent_tunnel.Connectivity.Revocation.{
  revoke_sessions, disconnect_app_session, disconnect_user, disconnect_agent_token,
}
use agent_tunnel.Connectivity.Tunnels.SingleUse.{remove_each-lacks}
use agent_tunnel.Connectivity.Machine.Connections.{drop_daemons-Untouched, reconcile-Untouched}
use agent_tunnel.Connectivity.Machine.Lacking.{Lacks}

remove-Lacks :
    (r : Registry) (p : TunnelAttempt → Bool) (token : Text)
    → Lacks r token
    → Lacks (remove_tunnel_attempts r p).0 token
unfolding remove_tunnel_attempts
remove-Lacks r p token h = remove_each-lacks r _ token h

replace-Lacks :
    (r : Registry) (key : Text) (old : LiveDaemon) (trusted : Trusted) (token : Text)
    → Lacks r token
    → Lacks (replace_daemon r key old trusted).0 token
unfolding replace_daemon remove_rendezvous remove_correlations_for_daemon
replace-Lacks r key old trusted token h = remove-Lacks _ _ token h

replaced-Lacks :
    (r : Registry) (key : Text) (g : Registration) (old : Option LiveDaemon) (token : Text)
    → Lacks r token
    → Lacks (replaced r key g old).0 token
unfolding replaced
replaced-Lacks r key g none token h = h
replaced-Lacks r key g (some old) token h =
    ground (arith, replace-Lacks r key old g.trusted token h)

store_daemon-Lacks :
    (r : Registry) (g : Registration) (l : List DirectReport) (now : ℕ) (token : Text)
    → Lacks r token
    → Lacks (store_daemon r g l now).0 token
unfolding store_daemon
store_daemon-Lacks r g l now token h =
    ap (lookup token) (reconcile-Untouched _ g l).1 ∙ replaced-Lacks r _ g _ token h

pub register_daemon-Lacks :
    (r : Registry) (owner : DaemonOwner) (info : DaemonInfo) (trusted : List TrustedAndroid)
    (l : List DirectReport) (peer : Peer) (valid : Bool) (now : ℕ) (token : Text)
    → Lacks r token
    → Lacks (register_daemon r owner info trusted l peer valid now).0 token
unfolding register_daemon
register_daemon-Lacks r owner info trusted l peer valid now token h =
    ground (arith, store_daemon-Lacks r (registration owner info trusted peer) l now token h)

pub disconnect_daemon-Lacks :
    (r : Registry) (peer : Peer) (found : Option (Text × LiveDaemon)) (token : Text)
    → Lacks r token
    → Lacks (leave_daemon r peer found).0 token
unfolding leave_daemon remove_rendezvous remove_correlations_for_daemon
disconnect_daemon-Lacks r peer none token h = h
disconnect_daemon-Lacks r peer (some (key, live)) token h = remove-Lacks _ _ token h

pub revoke_device-Lacks :
    (r : Registry) (peer : Peer) (fingerprint : Text) (found : Option (Text × LiveDaemon))
    (token : Text)
    → Lacks r token
    → Lacks (revoke_device r peer fingerprint found).0 token
unfolding revoke_device remove_rendezvous remove_active_direct
revoke_device-Lacks r peer fingerprint none token h = h
revoke_device-Lacks r peer fingerprint (some (key, live)) token h = remove-Lacks _ _ token h

pub disconnect_session-Lacks :
    (r : Registry) (session_id token : Text)
    → Lacks r token
    → Lacks (disconnect_app_session r session_id).0 token
unfolding disconnect_app_session remove_rendezvous remove_active_direct
disconnect_session-Lacks r session_id token h = remove-Lacks _ _ token h

pub disconnect_user-Lacks :
    (r : Registry) (user now : ℕ) (token : Text)
    → Lacks r token
    → Lacks (disconnect_user r user now).0 token
unfolding disconnect_user remove_rendezvous remove_active_direct
disconnect_user-Lacks r user now token h =
    let apps = select (λ _ app. app.owner.user_id == user) r.apps in
    let daemons = pick (λ _ live. live.owner.user_id == user) r.daemons in
    let cut : Registry = record r {
      user_app_cutoff = insert user now r.user_app_cutoff;
      apps = retain (λ _ app. not (app.owner.user_id == user)) r.apps;
      revoked_apps = revoke_sessions apps r.revoked_apps;
    } in
    remove-Lacks _ _ token (ap (lookup token) (drop_daemons-Untouched daemons cut).1 ∙ h)

pub disconnect_agent_token-Lacks :
    (r : Registry) (token_id token : Text)
    → Lacks r token
    → Lacks (disconnect_agent_token r token_id).0 token
unfolding disconnect_agent_token remove_rendezvous remove_active_direct
disconnect_agent_token-Lacks r token_id token h =
    let daemons = pick (λ _ live. live.owner.agent_token_id == token_id) r.daemons in
    let revoked : Registry = record r {
      revoked_agents = insert (trim token_id) tt r.revoked_agents;
    } in
    remove-Lacks _ _ token (ap (lookup token) (drop_daemons-Untouched daemons revoked).1 ∙ h)
