-- ===== src/Connectivity/Tests/Examples.antt =====
-- The theorems of the connectivity registry at the run of an app that asks for a tunnel.
use agent_tunnel.Base.{◌≡◌, ◌≢◌, ◌≤◌, refl, true, [], ◌∷◌, arith, ℕ_discrete}
use agent_tunnel.Base.Int.{pos}
use agent_tunnel.Base.Text.{codes, Text-discrete, text_eq, trim, to_lower}
use agent_tunnel.Base.Decimal.{decimal}
use agent_tunnel.Base.Peer.{conn, Peer-discrete}
use agent_tunnel.Base.Dict.{lookup, insert, delete, select, has, count, retain}
use agent_tunnel.Connectivity.{new_registry, ok, err, client}
use agent_tunnel.Connectivity.Tunnels.{
  begin_relay_tunnel, begin_normalized, commit_admitted, commit_relay_tunnel, drop_old_attempt,
  store_attempt,
}
use agent_tunnel.Connectivity.Requests.{
  normalize_request, admit_relay_tunnel, admit_to_daemon, admit_under_limits, requester_active,
  count_relay_tunnel_attempts,
}
use agent_tunnel.Connectivity.Redeem.{redeem_relay_tunnel_token, redeem_stored, redeem_attempt}
use agent_tunnel.Connectivity.Keys.{normalize_fingerprint, daemon_map_key, tunnel_attempt_key}
use agent_tunnel.Connectivity.Access.{app_peer_active, app_owner_revoked}
use agent_tunnel.Connectivity.Apps.{register_app_if_valid}
use agent_tunnel.Connectivity.Daemons.{
  register_daemon, store_daemon, reconcile_direct_sessions, trusted_map_from_slice, adopt_reports,
}
use agent_tunnel.Connectivity.Removal.{
  sweep_expired_tunnel_attempts, remove_each, remove_rendezvous,
}
use agent_tunnel.Connectivity.Limits.{
  record_relay_tunnel_request, allow_relay_tunnel_request, recent_requests, record_request,
}
use agent_tunnel.Connectivity.Pairing.{reserve_pairing}
use agent_tunnel.Connectivity.Machine.{Op, step}
use agent_tunnel.Base.{List, ◌≡◌, ◌≢◌, ◌≤◌, refl, true, none, [], ◌∷◌, arith}
use agent_tunnel.Base.Int.{pos}
use agent_tunnel.Base.Text.{codes, Text-discrete, text_eq, trim}
use agent_tunnel.Base.Peer.{conn, peer_eq}
use agent_tunnel.Base.Dict.{lookup}
use agent_tunnel.Connectivity.{ok, err, tunnel_token_invalid, correlation_not_found, client}
use agent_tunnel.Connectivity.Tunnels.{begin_relay_tunnel}
use agent_tunnel.Connectivity.Requests.{normalize_request}
use agent_tunnel.Connectivity.Redeem.{redeem_relay_tunnel_token}
use agent_tunnel.Connectivity.Keys.{daemon_map_key}
use agent_tunnel.Connectivity.Apps.{register_app_if_valid}
use agent_tunnel.Connectivity.Keys.{daemon_map_key-injective}
use agent_tunnel.Connectivity.Pairing.{reserve_pairing, begin_forward, forward_pairing_response}
use agent_tunnel.Connectivity.Pairing.Reservation.{begin_forward-reserve, begin_forward-forward}
use agent_tunnel.Connectivity.Revocation.{
  disconnect_app_session, disconnect_user, drop_daemons, revoke_sessions,
}
use agent_tunnel.Connectivity.Removal.{
  remove_correlations_for_daemon, remove_active_direct, remove_tunnel_attempts,
}
use agent_tunnel.Connectivity.Access.{is_cut_off}
use agent_tunnel.Base.Dict.{pick}
use agent_tunnel.Connectivity.Machine.UserCutoff.{begin-disconnect_user}
use agent_tunnel.Connectivity.Machine.Authorization.{Authorized, begin-Authorized}
use agent_tunnel.Connectivity.Tunnels.Tokens.{IsTokenFor}
use agent_tunnel.Connectivity.Tunnels.Capacity.{in_flight}
use agent_tunnel.Connectivity.Tunnels.SingleUse.{Redeemed}
use agent_tunnel.Connectivity.Tunnels.Granted.{IsGrantOf, redeem-begin}
use agent_tunnel.Connectivity.Machine.Safety.{
  reachable-Tidy, reachable-Redeemed, reachable-IsTokenFor, reachable-in_flight,
}
use agent_tunnel.Connectivity.Machine.SpentTokens.{redeem-run-redeem}
use agent_tunnel.Connectivity.Machine.Cutoff.{
  run, begin-disconnect_app_session, register_app-disconnect_app_session,
}
use agent_tunnel.Connectivity.Machine.{Op, step, user_disconnected}
use agent_tunnel.Connectivity.Tests.{
  owner, host, request, env, app_connects, daemon_connects, ready, asked, redeemed, begun, answer,
  begins, stores, accepts, fresh, reserves, answers, ready-Reachable, asked-Reachable,
}

reachable-Redeemed_example : Redeemed asked (trim (codes " u ")) 20 redeemed
reachable-Redeemed_example =
    reachable-Redeemed asked (codes " u ") 20 20 redeemed asked-Reachable accepts

reachable-IsTokenFor_example :
    IsTokenFor asked.attempts
      (codes "u")
      (record { attempt_id = codes "1:s:f1:d:a"; actor = client })
reachable-IsTokenFor_example =
    reachable-IsTokenFor asked (codes "u")
      (record { attempt_id = codes "1:s:f1:d:a"; actor = client }) asked-Reachable stores

reachable-in_flight_example : in_flight asked owner ≤ 4
reachable-in_flight_example = reachable-in_flight asked owner asked-Reachable

redeem-begin_example :
    IsGrantOf
      (normalize_request request)
      begun
      client
      (redeem_relay_tunnel_token asked (codes "u") 20 20).1
unfolding step trim Text-discrete
redeem-begin_example =
    redeem-begin ready request env begun (codes "u") (codes "v") client (codes "u") 20 20
      ((reachable-Tidy ready ready-Reachable).backed) begins refl refl refl refl refl fresh
      (omega arith) (omega arith)

redeem-run-redeem_example :
    (redeem_relay_tunnel_token
      (run
        (redeem_relay_tunnel_token asked (codes " u ") 20 20).0
        (app_connects ∷ daemon_connects ∷ []))
      (codes " u ")
      30
      30).1
    ≡ err tunnel_token_invalid
redeem-run-redeem_example =
    redeem-run-redeem asked (codes " u ") 20 20 30 30 redeemed (app_connects ∷ daemon_connects ∷ [])
      accepts (tt, (tt, tt))

begin-Authorized_example : Authorized ready (normalize_request request) begun
begin-Authorized_example = begin-Authorized ready request env begun ready-Reachable begins

begin-disconnect_app_session_example :
    (begin_relay_tunnel
      (run (disconnect_app_session ready (codes "s")).0 (app_connects ∷ []))
      request
      env).1
    ≢ ok begun
begin-disconnect_app_session_example =
    begin-disconnect_app_session ready (codes "s") (app_connects ∷ []) request env begun refl

-- The app tries to come back, and the user is disconnected a second time.
abbrev returns : List Op
returns = app_connects ∷ user_disconnected 1 40 ∷ app_connects ∷ []

returns-unconnected :
    lookup request.app_peer (run (disconnect_user ready 1 30).0 returns).apps ≡ none
unfolding step new_registry begin_relay_tunnel redeem_relay_tunnel_token lookup insert delete select
    retain has count Text-discrete Peer-discrete ℕ_discrete trim to_lower decimal
    sweep_expired_tunnel_attempts remove_each begin_normalized normalize_request
    normalize_fingerprint admit_relay_tunnel requester_active app_peer_active register_daemon
    register_app_if_valid app_owner_revoked store_daemon reconcile_direct_sessions daemon_map_key
    tunnel_attempt_key commit_admitted commit_relay_tunnel drop_old_attempt store_attempt
    remove_rendezvous record_relay_tunnel_request allow_relay_tunnel_request recent_requests
    record_request trusted_map_from_slice count_relay_tunnel_attempts admit_to_daemon
    admit_under_limits redeem_stored redeem_attempt adopt_reports disconnect_user drop_daemons pick
    remove_active_direct remove_tunnel_attempts run is_cut_off revoke_sessions
    remove_correlations_for_daemon
returns-unconnected = refl

begin-disconnect_user_example :
    (begin_relay_tunnel (run (disconnect_user ready 1 30).0 returns) request env).1 ≢ ok begun
begin-disconnect_user_example =
    begin-disconnect_user ready 1 30 returns request env begun (tt, ((λ _. omega arith), (tt, tt)))
      refl (omega arith) (λ app found. cc (returns-unconnected, found))

register_app-disconnect_app_session_example :
    let later = run (disconnect_app_session ready (codes "s")).0 (daemon_connects ∷ []) in
    register_app_if_valid later owner (conn 3) true 40 ≡ (later, none)
register_app-disconnect_app_session_example =
    register_app-disconnect_app_session ready (codes "s") (daemon_connects ∷ []) owner (conn 3) true
      40 refl

begin_forward-reserve_example :
    (begin_forward
      (reserve_pairing ready (codes "d") host (conn 2) (codes "c") (pos 50) 9 9).0
      answer
      20).1
    ≡ ok (conn 2)
begin_forward-reserve_example =
    begin_forward-reserve ready (codes "d") host (conn 2) (codes "c") (pos 50) 9 9 20 answer
      reserves answers (omega arith)

begin_forward-forward_example :
    (begin_forward
      (forward_pairing_response
        (reserve_pairing ready (codes "d") host (conn 2) (codes "c") (pos 50) 9 9).0
        answer
        20
        true).0
      answer
      21).1
    ≡ err correlation_not_found
unfolding trim
begin_forward-forward_example =
    begin_forward-forward ready (codes "d") host (conn 2) (codes "c") (pos 50) 9 9 20 21 answer
      answer reserves answers (omega arith) (refl, refl)

daemon_map_key-injective_example :
    (owner.user_id ≡ host.user_id) × (trim (codes " d") ≡ trim (codes "d"))
unfolding daemon_map_key trim
daemon_map_key-injective_example = daemon_map_key-injective 1 1 (codes " d") (codes "d") refl
