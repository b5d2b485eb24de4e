-- ===== src/Connectivity/Daemons.antt =====
-- The connection of a daemon: RegisterDaemonIfValidWithDirectSessions.
use agent_tunnel.Base.{
  ℕ, Bool, false, not, ◌&&◌, ◌||◌, Option, none, some, List, [], ◌∷◌, ◌++◌, map, ◌==◌, nat_eq,
  if◌then◌else◌, any,
}
use agent_tunnel.Base.Text.{Text, text_eq, trim, is_empty}
use agent_tunnel.Base.Peer.{Peer, peer_eq}
use agent_tunnel.Base.Dict.{lookup, insert, delete, retain, has, find}
use agent_tunnel.Connectivity.{
  Registry, DaemonOwner, LiveDaemon, DaemonInfo, Trusted, TrustedAndroid, DirectReport,
  DirectSession, ConnectivityFrame, Effect, sent, closed,
}
use agent_tunnel.Connectivity.Frames.{
  daemon_removed_frame, daemon_upsert_frame, direct_session_close_frame,
}
use agent_tunnel.Connectivity.Keys.{normalize_fingerprint, daemon_map_key}
use agent_tunnel.Connectivity.Access.{
  same_daemon_owner, trusted_fingerprint, app_owner_revoked, matching_app_peers, lost_app_peers,
}
use agent_tunnel.Connectivity.Removal.{
  notify, remove_correlations_for_daemon, remove_rendezvous, remove_tunnel_attempts,
}

-- trustedMapFromSlice: a later device with the fingerprint of an earlier one takes its place.
trusted_from : Trusted → List TrustedAndroid → Trusted
trusted_from map [] = map
trusted_from map (device ∷ rest) =
    let fingerprint = normalize_fingerprint device.fingerprint in
    trusted_from
      (if is_empty fingerprint
        then map
        else insert fingerprint (record device { fingerprint = fingerprint }) map)
      rest

unfoldable pub trusted_map_from_slice : List TrustedAndroid → Trusted
unfolding trusted_from
trusted_map_from_slice trusted = trusted_from [] trusted

abbrev pub zero_byte : ℕ
zero_byte = 0

unfoldable pub direct_session_report_key : Text → Text → Text
direct_session_report_key attempt_id fingerprint =
    trim attempt_id ++ (zero_byte ∷ normalize_fingerprint fingerprint)

-- What a daemon that registers says of itself, in its normal form.
pub record Registration : Type 0 where
  pub owner : DaemonOwner
  pub info : DaemonInfo
  pub trusted : Trusted
  pub peer : Peer

-- The session is the one that the daemon reports.
abbrev pub is_reported_session : Registration → Text → Text → DirectSession → Bool
is_reported_session g attempt_id fingerprint session =
    session.id == attempt_id
    && same_daemon_owner session.daemon_owner g.owner
    && session.daemon_device_id == g.info.device_id
    && session.android_fingerprint == fingerprint

close_report : Registration → Text → Text → List Effect
close_report g attempt_id fingerprint =
    notify g.peer (direct_session_close_frame [] attempt_id g.info.device_id fingerprint) false

-- A reported session that the relay knows goes over to the new connection; any other is closed.
unfoldable pub adopt_session :
    Registry → Registration → Text → Text → Option (Text × DirectSession) → Registry × List Effect
unfolding close_report
adopt_session r g attempt_id fingerprint none = (r, close_report g attempt_id fingerprint)
adopt_session r g attempt_id fingerprint (some (key, session)) =
    let adopted = record session {
      daemon_peer = g.peer;
      daemon_fingerprint = g.info.daemon_fingerprint;
    } in
    if app_owner_revoked r session.app_owner || is_empty (trusted_fingerprint g.trusted fingerprint)
    then (r, close_report g attempt_id fingerprint)
    else (record r { active_direct = insert key adopted r.active_direct }, [])

unfoldable pub adopt_report : Registry → Registration → Text → Text → Registry × List Effect
unfolding adopt_session
adopt_report r g attempt_id fingerprint =
    if is_empty attempt_id || is_empty fingerprint
    then (r, [])
    else adopt_session r g attempt_id fingerprint
        (find (is_reported_session g attempt_id fingerprint) r.active_direct)

unfoldable pub adopt_reports : Registry → Registration → List DirectReport → Registry × List Effect
unfolding adopt_report
adopt_reports r g [] = (r, [])
adopt_reports r g (report ∷ rest) =
    let (r', notices) =
      adopt_report r g (trim report.attempt_id)
        (normalize_fingerprint report.android_fingerprint) in
    let (r'', more) = adopt_reports r' g rest in (r'', notices ++ more)

-- The reports that adopt_report does not skip, by their keys.
abbrev is_report : DirectSession → DirectReport → Bool
is_report session report =
    let attempt_id = trim report.attempt_id in
    let fingerprint = normalize_fingerprint report.android_fingerprint in
    not (is_empty attempt_id)
    && not (is_empty fingerprint)
    && direct_session_report_key attempt_id fingerprint
      == direct_session_report_key session.id session.android_fingerprint

unfoldable pub reconcile_direct_sessions :
    Registry → Registration → List DirectReport → Registry × List Effect
unfolding adopt_reports
reconcile_direct_sessions r g reported =
    let (r', notices) = adopt_reports r g reported in
    (
      record r' {
        active_direct =
            retain
              (λ _ session.
                not (
                  same_daemon_owner session.daemon_owner g.owner
                  && session.daemon_device_id == g.info.device_id)
                || any (is_report session) reported)
              r'.active_direct;
      },
      notices,
    )

abbrev pub send_all : ConnectivityFrame → List Peer → List Effect
send_all frame [] = []
send_all frame (peer ∷ peers) = sent peer frame ∷ send_all frame peers

-- A connection that another one replaces loses the daemon and all that hangs on it.
unfoldable pub replace_daemon :
    Registry → Text → LiveDaemon → Trusted → Registry × List Effect × List Effect
replace_daemon r key old trusted =
    let r₁ =
      remove_correlations_for_daemon (record r { daemons = delete key r.daemons }) key old.peer in
    let (r₂, notices) = remove_rendezvous r₁ (λ attempt. attempt.daemon_peer == old.peer) in
    let (r₃, closers) = remove_tunnel_attempts r₂ (λ attempt. attempt.daemon_peer == old.peer) in
    let removed = lost_app_peers r₃ old.owner.user_id old.trusted trusted in
    (
      r₃,
      notices,
      closers
          ++ closed old.peer
            ∷ send_all (daemon_removed_frame old.info.device_id old.info.daemon_fingerprint)
                removed,
    )

-- The registry without the connection that the new one replaces, and what is done about it.
unfoldable pub replaced :
    Registry → Text → Registration → Option LiveDaemon → Registry × List Effect × List Effect
replaced r key g none = (r, [], [])
replaced r key g (some old) =
    if old.peer == g.peer then (r, [], []) else replace_daemon r key old g.trusted

abbrev pub registration : DaemonOwner → DaemonInfo → List TrustedAndroid → Peer → Registration
registration owner info trusted peer = record {
  owner = owner;
  info = record info {
    device_id = trim info.device_id;
    daemon_fingerprint = normalize_fingerprint info.daemon_fingerprint;
  };
  trusted = trusted_map_from_slice trusted;
  peer = peer;
}

-- The part under the lock that stores the daemon.
unfoldable pub store_daemon :
    Registry → Registration → List DirectReport → ℕ → Registry × List Peer × List Effect
unfolding replaced
store_daemon r g reports now =
    let key = daemon_map_key g.owner.user_id g.info.device_id in
    let (r₁, notices, rest) = replaced r key g (lookup key r.daemons) in
    let live : LiveDaemon = record {
      info = g.info;
      owner = g.owner;
      peer = g.peer;
      trusted = g.trusted;
      connected_at = now;
    } in
    let r₂ = record r₁ { daemons = insert key live r₁.daemons } in
    let peers = matching_app_peers r₂ g.owner.user_id g.trusted in
    let (r₃, more) = reconcile_direct_sessions r₂ g reports in
    (r₃, peers, notices ++ more ++ rest ++ send_all (daemon_upsert_frame g.info) peers)

-- RegisterDaemonIfValidWithDirectSessions
unfoldable pub register_daemon :
    Registry
    → DaemonOwner
    → DaemonInfo
    → List TrustedAndroid
    → List DirectReport
    → Peer
    → Bool
    → ℕ
    → Registry × Option (List Peer) × List Effect
register_daemon r owner info trusted reports peer still_valid now =
    let (r', peers, effects) = store_daemon r (registration owner info trusted peer) reports now in
    if not still_valid || has owner.agent_token_id r.revoked_agents
    then (r, none, [])
    else (r', some peers, effects)
