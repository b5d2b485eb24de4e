-- ===== src/Connectivity/Machine/Connections.antt =====
-- The invariant of the tunnels under daemons that come and go, access that ends and active tunnels.
use agent_tunnel.Base.{
  ℕ, suc, ◌≤◌, refl, ◌∙◌, Bool, true, not, Option, none, some, List, [], ◌∷◌, inl, inr, arith, ◌==◌,
  nat_eq, Option-cases,
}
use agent_tunnel.Base.Text.{Text, text_eq, trim}
use agent_tunnel.Base.Peer.{Peer, peer_eq}
use agent_tunnel.Base.Dict.{lookup, insert, delete, select, pick, retain}
use agent_tunnel.Connectivity.{
  Registry, TrustedAndroid, DaemonInfo, DirectReport, AppOwner, DaemonOwner, LiveDaemon, Trusted,
}
use agent_tunnel.Connectivity.Keys.{normalize_fingerprint}
use agent_tunnel.Connectivity.Removal.{
  remove_rendezvous, remove_active_direct, remove_correlations_for_daemon,
}
use agent_tunnel.Connectivity.Redeem.{
  mark_relay_tunnel_active, add_tunnel_closer, forget_tunnel_closer,
}
use agent_tunnel.Connectivity.Daemons.{
  Registration, registration, adopt_report, adopt_reports, reconcile_direct_sessions, replaced,
  replace_daemon, store_daemon, register_daemon,
}
use agent_tunnel.Connectivity.Pairing.{
  leave_daemon, disconnect_daemon, revoke_device, revoke_trusted_android,
}
use agent_tunnel.Connectivity.Revocation.{
  drop_daemons, revoke_sessions, disconnect_app_session, disconnect_user, disconnect_agent_token,
}
use agent_tunnel.Connectivity.Tunnels.Redemption.{
  mark_active-Consistent, add_closer-Consistent, forget_closer-Consistent,
}
use agent_tunnel.Connectivity.Tunnels.Capacity.{in_flight}
use agent_tunnel.Connectivity.Machine.Untouched.{Untouched}
use agent_tunnel.Connectivity.Machine.Invariant.{
  Tidy, untouched, shrink, remove-Tidy, update-in_flight,
}

mark_active-in_flight :
    (r : Registry) (raw : Text) (owner : AppOwner)
    → in_flight (mark_relay_tunnel_active r raw).0 owner ≤ in_flight r owner
unfolding mark_relay_tunnel_active
mark_active-in_flight r raw owner = elim (Option-cases (lookup (trim raw) r.attempts)) [
  | inl e ↦ ground arith
  | inr (a, e) ↦
      ground (arith, update-in_flight r (trim raw) a (record a { active = true }) owner e refl)
]

pub mark_active-Tidy :
    (r : Registry) (raw : Text) → Tidy r → Tidy (mark_relay_tunnel_active r raw).0
mark_active-Tidy r raw w =
    shrink _ _ _ _ w (mark_active-Consistent r raw w.backed) (mark_active-in_flight r raw)

add_closer-in_flight :
    (r : Registry) (raw : Text) (closer : ℕ) (owner : AppOwner)
    → in_flight (add_tunnel_closer r raw closer).0 owner ≤ in_flight r owner
unfolding add_tunnel_closer
add_closer-in_flight r raw closer owner = elim (Option-cases (lookup (trim raw) r.attempts)) [
  | inl e ↦ ground arith
  | inr (a, e) ↦ ground (
    arith,
    update-in_flight r (trim raw) a
        (record a { closers = insert (suc r.next_closer_id) closer a.closers }) owner e refl,
  )
]

pub add_closer-Tidy :
    (r : Registry) (raw : Text) (closer : ℕ) → Tidy r → Tidy (add_tunnel_closer r raw closer).0
add_closer-Tidy r raw closer w =
    shrink _ _ _ _ w (add_closer-Consistent r raw closer w.backed)
      (add_closer-in_flight r raw closer)

forget_closer-in_flight :
    (r : Registry) (raw : Text) (id : ℕ) (owner : AppOwner)
    → in_flight (forget_tunnel_closer r raw id) owner ≤ in_flight r owner
unfolding forget_tunnel_closer
forget_closer-in_flight r raw id owner = elim (Option-cases (lookup (trim raw) r.attempts)) [
  | inl e ↦ ground arith
  | inr (a, e) ↦ ground (
    arith,
    update-in_flight r (trim raw) a (record a { closers = delete id a.closers }) owner e refl,
  )
]

pub forget_closer-Tidy :
    (r : Registry) (raw : Text) (id : ℕ) → Tidy r → Tidy (forget_tunnel_closer r raw id)
forget_closer-Tidy r raw id w =
    shrink _ _ _ _ w (forget_closer-Consistent r raw id w.backed) (forget_closer-in_flight r raw id)

adopt_report-Untouched :
    (r : Registry) (g : Registration) (attempt_id fingerprint : Text)
    → Untouched r (adopt_report r g attempt_id fingerprint).0
unfolding adopt_report
adopt_report-Untouched r g attempt_id fingerprint = ground arith

adopt_reports-Untouched :
    (r : Registry) (g : Registration) (l : List DirectReport) → Untouched r (adopt_reports r g l).0
unfolding adopt_reports
adopt_reports-Untouched r g [] = (refl, refl)
adopt_reports-Untouched r g (x ∷ l) =
    let first =
      adopt_report-Untouched r g (trim x.attempt_id)
        (normalize_fingerprint x.android_fingerprint) in
    let rest =
      adopt_reports-Untouched
        (adopt_report r g (trim x.attempt_id) (normalize_fingerprint x.android_fingerprint)).0 g
        l in
    (rest.0 ∙ first.0, rest.1 ∙ first.1)

pub reconcile-Untouched :
    (r : Registry) (g : Registration) (l : List DirectReport)
    → Untouched r (reconcile_direct_sessions r g l).0
unfolding reconcile_direct_sessions
reconcile-Untouched r g l = adopt_reports-Untouched r g l

replace-Tidy :
    (r : Registry) (key : Text) (old : LiveDaemon) (trusted : Trusted)
    → Tidy r
    → Tidy (replace_daemon r key old trusted).0
unfolding replace_daemon remove_rendezvous remove_correlations_for_daemon
replace-Tidy r key old trusted w = remove-Tidy _ _ w

replaced-Tidy :
    (r : Registry) (key : Text) (g : Registration) (old : Option LiveDaemon)
    → Tidy r
    → Tidy (replaced r key g old).0
unfolding replaced
replaced-Tidy r key g none w = w
replaced-Tidy r key g (some old) w = ground (arith, replace-Tidy r key old g.trusted w)

store_daemon-Tidy :
    (r : Registry) (g : Registration) (l : List DirectReport) (now : ℕ)
    → Tidy r
    → Tidy (store_daemon r g l now).0
unfolding store_daemon
store_daemon-Tidy r g l now w =
    untouched _ _ _ _ (replaced-Tidy r _ g _ w) (reconcile-Untouched _ g l)

pub register_daemon-Tidy :
    (r : Registry) (owner : DaemonOwner) (info : DaemonInfo) (trusted : List TrustedAndroid)
    (l : List DirectReport) (peer : Peer) (valid : Bool) (now : ℕ)
    → Tidy r
    → Tidy (register_daemon r owner info trusted l peer valid now).0
unfolding register_daemon
register_daemon-Tidy r owner info trusted l peer valid now w =
    ground (arith, store_daemon-Tidy r (registration owner info trusted peer) l now w)

leave-Tidy :
    (r : Registry) (peer : Peer) (found : Option (Text × LiveDaemon))
    → Tidy r
    → Tidy (leave_daemon r peer found).0
unfolding leave_daemon remove_rendezvous remove_correlations_for_daemon
leave-Tidy r peer none w = w
leave-Tidy r peer (some (key, live)) w = remove-Tidy _ _ w

pub disconnect_daemon-Tidy :
    (r : Registry) (device_id : Text) (peer : Peer)
    → Tidy r
    → Tidy (disconnect_daemon r device_id peer).0
unfolding disconnect_daemon
disconnect_daemon-Tidy r device_id peer w = leave-Tidy r peer _ w

revoke_device-Tidy :
    (r : Registry) (peer : Peer) (fingerprint : Text) (found : Option (Text × LiveDaemon))
    → Tidy r
    → Tidy (revoke_device r peer fingerprint found).0
unfolding revoke_device remove_rendezvous remove_active_direct
revoke_device-Tidy r peer fingerprint none w = w
revoke_device-Tidy r peer fingerprint (some (key, live)) w = remove-Tidy _ _ w

pub revoke_trusted-Tidy :
    (r : Registry) (device_id : Text) (peer : Peer) (fingerprint : Text)
    → Tidy r
    → Tidy (revoke_trusted_android r device_id peer fingerprint).0
unfolding revoke_trusted_android
revoke_trusted-Tidy r device_id peer fingerprint w = revoke_device-Tidy r peer _ _ w

pub drop_daemons-Untouched :
    (l : List (Text × LiveDaemon)) (r : Registry) → Untouched r (drop_daemons r l).0
unfolding drop_daemons remove_rendezvous remove_active_direct remove_correlations_for_daemon
drop_daemons-Untouched [] r = (refl, refl)
drop_daemons-Untouched ((key, live) ∷ l) r = drop_daemons-Untouched l _

pub disconnect_app_session-Tidy :
    (r : Registry) (session_id : Text) → Tidy r → Tidy (disconnect_app_session r session_id).0
unfolding disconnect_app_session remove_rendezvous remove_active_direct
disconnect_app_session-Tidy r session_id w = remove-Tidy _ _ w

pub disconnect_user-Tidy :
    (r : Registry) (user now : ℕ) → Tidy r → Tidy (disconnect_user r user now).0
unfolding disconnect_user remove_rendezvous remove_active_direct
disconnect_user-Tidy r user now w =
    let apps = select (λ _ app. app.owner.user_id == user) r.apps in
    let daemons = pick (λ _ live. live.owner.user_id == user) r.daemons in
    let cut : Registry = record r {
      user_app_cutoff = insert user now r.user_app_cutoff;
      apps = retain (λ _ app. not (app.owner.user_id == user)) r.apps;
      revoked_apps = revoke_sessions apps r.revoked_apps;
    } in
    remove-Tidy _ _ (untouched _ _ _ _ w (drop_daemons-Untouched daemons cut))

pub disconnect_agent_token-Tidy :
    (r : Registry) (token_id : Text) → Tidy r → Tidy (disconnect_agent_token r token_id).0
unfolding disconnect_agent_token remove_rendezvous remove_active_direct
disconnect_agent_token-Tidy r token_id w =
    let daemons = pick (λ _ live. live.owner.agent_token_id == token_id) r.daemons in
    let revoked : Registry = record r {
      revoked_agents = insert (trim token_id) tt r.revoked_agents;
    } in
    remove-Tidy _ _ (untouched _ _ _ _ w (drop_daemons-Untouched daemons revoked))
