-- ===== src/Connectivity/Machine/Books/Daemons.antt =====
-- The operations on tunnels and daemons: most of them leave the books alone.
use agent_tunnel.Base.{
  ℕ, ◌≡◌, refl, ap, ◌∙◌, Bool, Option, none, some, List, [], ◌∷◌, arith, ◌==◌, nat_eq,
}
use agent_tunnel.Base.Text.{Text, text_eq, trim}
use agent_tunnel.Base.Peer.{Peer, peer_eq}
use agent_tunnel.Base.Dict.{lookup, insert, select, pick}
use agent_tunnel.Connectivity.{
  Registry, DaemonOwner, DaemonInfo, TrustedAndroid, DirectReport, TunnelToken, LiveDaemon, LiveApp,
  Trusted,
}
use agent_tunnel.Connectivity.Keys.{normalize_fingerprint}
use agent_tunnel.Connectivity.Removal.{
  remove_tunnel_attempt, remove_tunnel_attempts, remove_rendezvous, remove_active_direct,
  remove_correlations_for_daemon, sweep_expired_tunnel_attempts,
}
use agent_tunnel.Connectivity.Daemons.{
  Registration, registration, adopt_report, adopt_reports, reconcile_direct_sessions, replaced,
  replace_daemon, store_daemon, register_daemon,
}
use agent_tunnel.Connectivity.Pairing.{
  leave_daemon, disconnect_daemon, revoke_device, revoke_trusted_android, complete_pairing,
}
use agent_tunnel.Connectivity.Redeem.{redeem_relay_tunnel_token, redeem_stored, redeem_attempt}
use agent_tunnel.Connectivity.Revocation.{
  drop_daemons, revoke_sessions, disconnect_app_session, disconnect_user, disconnect_agent_token,
}
use agent_tunnel.Connectivity.Machine.Books.Apps.{sweep-accounts}
use agent_tunnel.Connectivity.Machine.Books.{books, accounts, remove_each-books}

redeem_stored-accounts :
    (r : Registry) (token : Text) (now : ℕ) (stored : Option TunnelToken)
    → accounts (redeem_stored r token now stored).0 ≡ accounts r
unfolding redeem_stored redeem_attempt remove_tunnel_attempt
redeem_stored-accounts r token now stored = ground arith

pub redeem-accounts :
    (r : Registry) (raw : Text) (swept_at now : ℕ)
    → accounts (redeem_relay_tunnel_token r raw swept_at now).0 ≡ accounts r
unfolding redeem_relay_tunnel_token
redeem-accounts r raw swept_at now =
    let swept = (sweep_expired_tunnel_attempts r swept_at).0 in
    ground (
      arith,
      redeem_stored-accounts swept (trim raw) now (lookup (trim raw) swept.tokens)
          ∙ sweep-accounts r swept_at,
    )

pub complete_pairing-books :
    (r : Registry) (device_id : Text) (peer : Peer) (trusted : TrustedAndroid)
    → books (complete_pairing r device_id peer trusted).0 ≡ books r
unfolding complete_pairing
complete_pairing-books r device_id peer trusted = ground arith

adopt_report-accounts :
    (r : Registry) (g : Registration) (attempt_id fingerprint : Text)
    → accounts (adopt_report r g attempt_id fingerprint).0 ≡ accounts r
unfolding adopt_report
adopt_report-accounts r g attempt_id fingerprint = ground arith

pub adopt_reports-accounts :
    (r : Registry) (g : Registration) (l : List DirectReport)
    → accounts (adopt_reports r g l).0 ≡ accounts r
unfolding adopt_reports
adopt_reports-accounts r g [] = refl
adopt_reports-accounts r g (x ∷ l) =
    adopt_reports-accounts
      (adopt_report r g (trim x.attempt_id) (normalize_fingerprint x.android_fingerprint)).0 g l
    ∙ adopt_report-accounts r g _ _

replace-books :
    (r : Registry) (key : Text) (old : LiveDaemon) (trusted : Trusted)
    → books (replace_daemon r key old trusted).0 ≡ books r
unfolding replace_daemon remove_rendezvous remove_correlations_for_daemon remove_tunnel_attempts
replace-books r key old trusted = remove_each-books _ _

pub replaced-books :
    (r : Registry) (key : Text) (g : Registration) (old : Option LiveDaemon)
    → books (replaced r key g old).0 ≡ books r
unfolding replaced
replaced-books r key g none = refl
replaced-books r key g (some old) = ground (arith, replace-books r key old g.trusted)

store_daemon-books :
    (r : Registry) (g : Registration) (l : List DirectReport) (now : ℕ)
    → books (store_daemon r g l now).0 ≡ books r
unfolding store_daemon reconcile_direct_sessions
store_daemon-books r g l now = ap (λ b. b.0) (adopt_reports-accounts _ g l) ∙ replaced-books r _ g _

pub register_daemon-books :
    (r : Registry) (owner : DaemonOwner) (info : DaemonInfo) (trusted : List TrustedAndroid)
    (l : List DirectReport) (peer : Peer) (valid : Bool) (now : ℕ)
    → books (register_daemon r owner info trusted l peer valid now).0 ≡ books r
unfolding register_daemon
register_daemon-books r owner info trusted l peer valid now =
    ground (arith, store_daemon-books r (registration owner info trusted peer) l now)

leave-books :
    (r : Registry) (peer : Peer) (found : Option (Text × LiveDaemon))
    → books (leave_daemon r peer found).0 ≡ books r
unfolding leave_daemon remove_rendezvous remove_correlations_for_daemon remove_tunnel_attempts
leave-books r peer none = refl
leave-books r peer (some (key, live)) = remove_each-books _ _

pub disconnect_daemon-books :
    (r : Registry) (device_id : Text) (peer : Peer)
    → books (disconnect_daemon r device_id peer).0 ≡ books r
unfolding disconnect_daemon
disconnect_daemon-books r device_id peer = leave-books r peer _

revoke_device-books :
    (r : Registry) (peer : Peer) (fingerprint : Text) (found : Option (Text × LiveDaemon))
    → books (revoke_device r peer fingerprint found).0 ≡ books r
unfolding revoke_device remove_rendezvous remove_active_direct remove_tunnel_attempts
revoke_device-books r peer fingerprint none = refl
revoke_device-books r peer fingerprint (some (key, live)) = remove_each-books _ _

pub revoke_trusted-books :
    (r : Registry) (device_id : Text) (peer : Peer) (fingerprint : Text)
    → books (revoke_trusted_android r device_id peer fingerprint).0 ≡ books r
unfolding revoke_trusted_android
revoke_trusted-books r device_id peer fingerprint = revoke_device-books r peer _ _

drop_daemons-books :
    (l : List (Text × LiveDaemon)) (r : Registry) → books (drop_daemons r l).0 ≡ books r
unfolding drop_daemons remove_rendezvous remove_active_direct remove_correlations_for_daemon
drop_daemons-books [] r = refl
drop_daemons-books ((key, live) ∷ l) r = drop_daemons-books l _

-- A session that is disconnected is noted as revoked.
pub disconnect_session-books :
    (r : Registry) (session_id : Text)
    → books (disconnect_app_session r session_id).0
      ≡ (insert (trim session_id) tt r.revoked_apps, r.user_app_cutoff, r.tunnel_requests)
unfolding disconnect_app_session remove_rendezvous remove_active_direct remove_tunnel_attempts
disconnect_session-books r session_id = remove_each-books _ _

-- A user who is disconnected gets a cut-off.
pub disconnect_user-books :
    (r : Registry) (user now : ℕ)
    → let apps = select (λ _ (app : LiveApp). app.owner.user_id == user) r.apps in
      books (disconnect_user r user now).0
      ≡ (revoke_sessions apps r.revoked_apps, insert user now r.user_app_cutoff, r.tunnel_requests)
unfolding disconnect_user remove_rendezvous remove_active_direct remove_tunnel_attempts
disconnect_user-books r user now =
    remove_each-books _ _
    ∙ drop_daemons-books (pick (λ _ live. live.owner.user_id == user) r.daemons) _

pub disconnect_agent_token-books :
    (r : Registry) (token_id : Text) → books (disconnect_agent_token r token_id).0 ≡ books r
unfolding disconnect_agent_token remove_rendezvous remove_active_direct remove_tunnel_attempts
disconnect_agent_token-books r token_id =
    remove_each-books _ _
    ∙ drop_daemons-books (pick (λ _ live. live.owner.agent_token_id == token_id) r.daemons) _
