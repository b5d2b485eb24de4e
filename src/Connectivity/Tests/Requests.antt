-- ===== src/Connectivity/Tests/Requests.antt =====
-- Eleven requests within a minute, and the limit of ten.
use agent_tunnel.Base.{◌≡◌, refl, [], ◌∷◌, arith, ℕ_discrete}
use agent_tunnel.Base.Text.{Text-discrete, text_eq, trim, to_lower}
use agent_tunnel.Base.Decimal.{decimal}
use agent_tunnel.Base.Peer.{Peer-discrete}
use agent_tunnel.Base.Dict.{lookup, insert, delete, select, has, count, retain}
use agent_tunnel.Connectivity.{new_registry}
use agent_tunnel.Connectivity.Tunnels.{
  begin_relay_tunnel, begin_normalized, commit_admitted, commit_relay_tunnel, drop_old_attempt,
  store_attempt,
}
use agent_tunnel.Connectivity.Requests.{
  normalize_request, admit_relay_tunnel, admit_to_daemon, admit_under_limits, requester_active,
  count_relay_tunnel_attempts,
}
use agent_tunnel.Connectivity.Redeem.{redeem_relay_tunnel_token, redeem_stored, redeem_attempt}
use agent_tunnel.Connectivity.Keys.{normalize_fingerprint, daemon_map_key, tunnel_attempt_key}
use agent_tunnel.Connectivity.Access.{app_peer_active, app_owner_revoked}
use agent_tunnel.Connectivity.Apps.{register_app_if_valid}
use agent_tunnel.Connectivity.Daemons.{
  register_daemon, store_daemon, reconcile_direct_sessions, trusted_map_from_slice, adopt_reports,
}
use agent_tunnel.Connectivity.Removal.{
  sweep_expired_tunnel_attempts, remove_each, remove_rendezvous, remove_tunnel_attempt,
}
use agent_tunnel.Connectivity.Limits.{
  record_relay_tunnel_request, allow_relay_tunnel_request, recent_requests, record_request,
}
use agent_tunnel.Connectivity.Machine.{Op, step, tunnel_begun}
use agent_tunnel.Base.{ℕ, List, length, refl, arith}
use agent_tunnel.Connectivity.Machine.RequestLimit.{
  granted, IsLimited, IsAscending, granted-IsLimited,
}
use agent_tunnel.Connectivity.Tests.{request, env, app_connects, daemon_connects}

abbrev asked_at : ℕ → Op
asked_at now = tunnel_begun request (record env { now = now })

abbrev eleven : List Op
eleven =
    app_connects
    ∷ daemon_connects
    ∷ asked_at 10
    ∷ asked_at 11
    ∷ asked_at 12
    ∷ asked_at 13
    ∷ asked_at 14
    ∷ asked_at 15
    ∷ asked_at 16
    ∷ asked_at 17
    ∷ asked_at 18
    ∷ asked_at 19
    ∷ asked_at 20
    ∷ []

-- The last one is refused.
eleven-granted : length (granted new_registry 1 eleven []) ≡ 10
unfolding granted step new_registry begin_relay_tunnel redeem_relay_tunnel_token lookup insert
    delete select retain has count Text-discrete Peer-discrete ℕ_discrete trim to_lower decimal
    sweep_expired_tunnel_attempts remove_each begin_normalized normalize_request
    normalize_fingerprint admit_relay_tunnel requester_active app_peer_active register_daemon
    register_app_if_valid app_owner_revoked store_daemon reconcile_direct_sessions daemon_map_key
    tunnel_attempt_key commit_admitted commit_relay_tunnel drop_old_attempt store_attempt
    remove_rendezvous record_relay_tunnel_request allow_relay_tunnel_request recent_requests
    record_request trusted_map_from_slice count_relay_tunnel_attempts admit_to_daemon
    admit_under_limits redeem_stored redeem_attempt adopt_reports remove_tunnel_attempt
eleven-granted = refl

eleven-IsAscending : IsAscending 0 eleven
eleven-IsAscending = (
  omega arith,
  (
    omega arith,
    (
      omega arith,
      (
        omega arith,
        (
          omega arith,
          (
            omega arith,
            (omega arith, (omega arith, (omega arith, (omega arith, (omega arith, tt))))),
          ),
        ),
      ),
    ),
  ),
)

granted-IsLimited_example : IsLimited (granted new_registry 1 eleven [])
unfolding new_registry lookup
granted-IsLimited_example = granted-IsLimited new_registry 1 0 eleven refl eleven-IsAscending
