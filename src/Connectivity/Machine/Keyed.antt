-- ===== src/Connectivity/Machine/Keyed.antt =====
-- In every reachable registry a daemon stands under the key of its own user and id.
pub mod Steps
use agent_tunnel.Base.{
  ℕ, ◌≡◌, refl, sym, ap, ◌∙◌, subst, Option, none, some, List, [], ◌∷◌, arith, ◌==◌, nat_eq, Bool,
  not, ◌||◌, All, All-map, inl, inr, Bool-cases, Option-cases,
}
use agent_tunnel.Base.Text.{Text, text_eq, trim, is_empty}
use agent_tunnel.Base.Peer.{Peer, peer_eq}
use agent_tunnel.Base.Dict.{Dict, lookup, insert, delete, find, pick, has}
use agent_tunnel.Base.Entries.{insert-All, delete-All, find-All}
use agent_tunnel.Connectivity.{
  Registry, DaemonOwner, DaemonInfo, TrustedAndroid, DirectReport, LiveDaemon, Trusted,
}
use agent_tunnel.Connectivity.Keys.{daemon_map_key, normalize_fingerprint}
use agent_tunnel.Connectivity.Access.{daemon_by_device_peer}
use agent_tunnel.Connectivity.Removal.{
  remove_tunnel_attempts, remove_rendezvous, remove_active_direct, remove_correlations_for_daemon,
}
use agent_tunnel.Connectivity.Daemons.{
  Registration, registration, reconcile_direct_sessions, replaced, replace_daemon, store_daemon,
  register_daemon,
}
use agent_tunnel.Connectivity.Pairing.{
  leave_daemon, disconnect_daemon, revoke_device, revoke_trusted_android, complete_pairing,
}
use agent_tunnel.Connectivity.Revocation.{
  drop_daemons, disconnect_app_session, disconnect_user, disconnect_agent_token,
}
use agent_tunnel.Connectivity.Machine.Books.{remove_each-accounts}
use agent_tunnel.Connectivity.Machine.Books.Daemons.{adopt_reports-accounts}

-- The daemon stands under its own key.
abbrev pub IsKeyed : Text × LiveDaemon → Type 0
IsKeyed (key, live) = key ≡ daemon_map_key live.owner.user_id live.info.device_id

abbrev pub Keyed : Registry → Type 0
Keyed r = All IsKeyed r.daemons

replace-Keyed :
    (r : Registry) (key : Text) (old : LiveDaemon) (trusted : Trusted)
    → Keyed r
    → Keyed (replace_daemon r key old trusted).0
unfolding replace_daemon remove_rendezvous remove_correlations_for_daemon remove_tunnel_attempts
replace-Keyed r key old trusted h =
    subst (All IsKeyed) (sym (ap (λ b. b.1) (remove_each-accounts _ _)))
      (delete-All IsKeyed key r.daemons h)

replaced-Keyed :
    (r : Registry) (key : Text) (g : Registration) (old : Option LiveDaemon)
    → Keyed r
    → Keyed (replaced r key g old).0
unfolding replaced
replaced-Keyed r key g none h = h
replaced-Keyed r key g (some old) h = elim (Bool-cases (old.peer == g.peer)) [
  | inl e ↦ rw e h
  | inr e ↦ rw e (replace-Keyed r key old g.trusted h)
]

store_daemon-Keyed :
    (r : Registry) (g : Registration) (l : List DirectReport) (now : ℕ)
    → Keyed r
    → Keyed (store_daemon r g l now).0
unfolding store_daemon reconcile_direct_sessions
store_daemon-Keyed r g l now h =
    let key = daemon_map_key g.owner.user_id g.info.device_id in
    subst (All IsKeyed) (sym (ap (λ b. b.1) (adopt_reports-accounts _ g l)))
      (insert-All IsKeyed key _ _ refl (replaced-Keyed r key g (lookup key r.daemons) h))

pub register_daemon-Keyed :
    (r : Registry) (owner : DaemonOwner) (info : DaemonInfo) (trusted : List TrustedAndroid)
    (l : List DirectReport) (peer : Peer) (valid : Bool) (now : ℕ)
    → Keyed r
    → Keyed (register_daemon r owner info trusted l peer valid now).0
unfolding register_daemon
register_daemon-Keyed r owner info trusted l peer valid now h =
    elim (Bool-cases (not valid || has owner.agent_token_id r.revoked_agents)) [
      | inl e ↦ rw e h
      | inr e ↦ rw e (store_daemon-Keyed r (registration owner info trusted peer) l now h)
    ]

leave-Keyed :
    (r : Registry) (peer : Peer) (found : Option (Text × LiveDaemon))
    → Keyed r
    → Keyed (leave_daemon r peer found).0
unfolding leave_daemon remove_rendezvous remove_correlations_for_daemon remove_tunnel_attempts
leave-Keyed r peer none h = h
leave-Keyed r peer (some (key, live)) h =
    subst (All IsKeyed) (sym (ap (λ b. b.1) (remove_each-accounts _ _)))
      (delete-All IsKeyed key r.daemons h)

pub disconnect_daemon-Keyed :
    (r : Registry) (device_id : Text) (peer : Peer)
    → Keyed r
    → Keyed (disconnect_daemon r device_id peer).0
unfolding disconnect_daemon
disconnect_daemon-Keyed r device_id peer h = leave-Keyed r peer _ h

-- A daemon that is found by its connection is put back with other trusted devices.
found-Keyed :
    (r : Registry) (device_id : Text) (peer : Peer) (key : Text) (live : LiveDaemon)
    (trusted : Trusted)
    → Keyed r
    → daemon_by_device_peer r device_id peer ≡ some (key, live)
    → All IsKeyed (insert key (record live { trusted = trusted }) r.daemons)
unfolding daemon_by_device_peer
found-Keyed r device_id peer key live trusted h e =
    insert-All IsKeyed key _ r.daemons (find-All IsKeyed _ r.daemons key live h e) h

pub revoke_trusted-Keyed :
    (r : Registry) (device_id : Text) (peer : Peer) (fingerprint : Text)
    → Keyed r
    → Keyed (revoke_trusted_android r device_id peer fingerprint).0
unfolding revoke_trusted_android revoke_device remove_rendezvous remove_active_direct
    remove_tunnel_attempts
revoke_trusted-Keyed r device_id peer fingerprint h =
    elim (Option-cases (daemon_by_device_peer r device_id peer)) [
      | inl e ↦ rw e h
      | inr ((key, live), e) ↦ rw e (
          subst (All IsKeyed) (sym (ap (λ b. b.1) (remove_each-accounts _ _)))
            (found-Keyed r device_id peer key live _ h e))
    ]

pub complete_pairing-Keyed :
    (r : Registry) (device_id : Text) (peer : Peer) (trusted : TrustedAndroid)
    → Keyed r
    → Keyed (complete_pairing r device_id peer trusted).0
unfolding complete_pairing
complete_pairing-Keyed r device_id peer trusted h =
    elim (Bool-cases (is_empty (normalize_fingerprint trusted.fingerprint))) [
      | inl b ↦ rw b h
      | inr b ↦ elim (Option-cases (daemon_by_device_peer r device_id peer)) [
        | inl e ↦ rw b (rw e h)
        | inr ((key, live), e) ↦ rw b (rw e (found-Keyed r device_id peer key live _ h e))
      ]
    ]

drop_daemons-Keyed :
    (l : List (Text × LiveDaemon)) (r : Registry) → Keyed r → Keyed (drop_daemons r l).0
unfolding drop_daemons remove_rendezvous remove_active_direct remove_correlations_for_daemon
drop_daemons-Keyed [] r h = h
drop_daemons-Keyed ((key, live) ∷ l) r h =
    drop_daemons-Keyed l _ (delete-All IsKeyed key r.daemons h)

pub disconnect_session-Keyed :
    (r : Registry) (session_id : Text) → Keyed r → Keyed (disconnect_app_session r session_id).0
unfolding disconnect_app_session remove_rendezvous remove_active_direct remove_tunnel_attempts
disconnect_session-Keyed r session_id h =
    subst (All IsKeyed) (sym (ap (λ b. b.1) (remove_each-accounts _ _))) h

pub disconnect_user-Keyed :
    (r : Registry) (user now : ℕ) → Keyed r → Keyed (disconnect_user r user now).0
unfolding disconnect_user remove_rendezvous remove_active_direct remove_tunnel_attempts
disconnect_user-Keyed r user now h =
    subst (All IsKeyed) (sym (ap (λ b. b.1) (remove_each-accounts _ _)))
      (drop_daemons-Keyed (pick (λ _ live. live.owner.user_id == user) r.daemons) _ h)

pub disconnect_agent_token-Keyed :
    (r : Registry) (token_id : Text) → Keyed r → Keyed (disconnect_agent_token r token_id).0
unfolding disconnect_agent_token remove_rendezvous remove_active_direct remove_tunnel_attempts
disconnect_agent_token-Keyed r token_id h =
    subst (All IsKeyed) (sym (ap (λ b. b.1) (remove_each-accounts _ _)))
      (drop_daemons-Keyed (pick (λ _ live. live.owner.agent_token_id == token_id) r.daemons) _ h)
