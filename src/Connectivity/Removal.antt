-- ===== src/Connectivity/Removal.antt =====
-- What the methods take out of the maps, and the sweeps of what has expired.
pub mod Frame
use agent_tunnel.Base.{
  ℕ, Bool, true, false, not, ◌&&◌, ◌||◌, none, some, List, [], ◌∷◌, ◌++◌, map, ◌==◌, nat_eq, ltb,
  if◌then◌else◌, length,
}
use agent_tunnel.Base.Text.{Text, text_eq}
use agent_tunnel.Base.Peer.{Peer, nil, conn, peer_eq}
use agent_tunnel.Base.Dict.{lookup, delete, retain, select, values}
use agent_tunnel.Connectivity.{
  Registry, TunnelAttempt, RendezvousAttempt, DirectSession, Effect, notified, ran_closer, client,
  ConnectivityFrame,
}
use agent_tunnel.Connectivity.Frames.{rendezvous_close_frame, direct_session_close_frame}

-- `t.After(now)` of an expiry is a strict test.
abbrev pub is_live_at : ℕ → ℕ → Bool
is_live_at now expires_at = ltb now expires_at

abbrev pub notify : Peer → ConnectivityFrame → Bool → List Effect
notify nil frame close_on_failure = []
notify (conn n) frame close_on_failure = notified (conn n) frame close_on_failure ∷ []

unfoldable pub remove_correlations_for_daemon : Registry → Text → Peer → Registry
remove_correlations_for_daemon r device_id peer = record r {
  correlations = retain (λ _ c. not (c.device_id == device_id && c.peer == peer)) r.correlations;
}

-- removeTunnelAttemptLocked on an attempt that is not nil.
unfoldable pub remove_tunnel_attempt : Registry → TunnelAttempt → Registry × List Effect
remove_tunnel_attempt r attempt = (
  record r {
    attempts = delete attempt.key r.attempts;
    tokens = delete attempt.daemon_token (delete attempt.app_token r.tokens);
  },
  map ran_closer (values attempt.closers),
)

unfoldable pub remove_each : Registry → List TunnelAttempt → Registry × List Effect
remove_each r [] = (r, [])
remove_each r (attempt ∷ rest) =
    let (r', closers) = remove_tunnel_attempt r attempt in
    let (r'', more) = remove_each r' rest in (r'', closers ++ more)

unfoldable pub remove_tunnel_attempts : Registry → (TunnelAttempt → Bool) → Registry × List Effect
remove_tunnel_attempts r matches = remove_each r (select (λ _ attempt. matches attempt) r.attempts)

rendezvous_notice : RendezvousAttempt → List Effect
rendezvous_notice attempt =
    notify attempt.daemon_peer
      (rendezvous_close_frame [] attempt.id client attempt.daemon_device_id
        attempt.app_owner.device_fingerprint)
      false

rendezvous_notices : List RendezvousAttempt → List Effect
unfolding rendezvous_notice
rendezvous_notices [] = []
rendezvous_notices (attempt ∷ rest) = rendezvous_notice attempt ++ rendezvous_notices rest

unfoldable pub remove_rendezvous : Registry → (RendezvousAttempt → Bool) → Registry × List Effect
unfolding rendezvous_notices
remove_rendezvous r matches = (
  record r { rendezvous = retain (λ _ attempt. not (matches attempt)) r.rendezvous },
  rendezvous_notices (select (λ _ attempt. matches attempt) r.rendezvous),
)

direct_notice : DirectSession → List Effect
direct_notice session =
    notify session.daemon_peer
      (direct_session_close_frame [] session.id session.daemon_device_id
        session.android_fingerprint)
      true

direct_notices : List DirectSession → List Effect
unfolding direct_notice
direct_notices [] = []
direct_notices (session ∷ rest) = direct_notice session ++ direct_notices rest

unfoldable pub remove_active_direct : Registry → (DirectSession → Bool) → Registry × List Effect
unfolding direct_notices
remove_active_direct r matches = (
  record r { active_direct = retain (λ _ session. not (matches session)) r.active_direct },
  direct_notices (select (λ _ session. matches session) r.active_direct),
)

unfoldable pub sweep_expired_rendezvous : Registry → ℕ → Registry × ℕ
sweep_expired_rendezvous r now = (
  record r { rendezvous = retain (λ _ attempt. is_live_at now attempt.expires_at) r.rendezvous },
  length (select (λ _ attempt. not (is_live_at now attempt.expires_at)) r.rendezvous),
)

unfoldable pub sweep_expired_pair_correlations : Registry → ℕ → Registry × ℕ
sweep_expired_pair_correlations r now = (
  record r { correlations = retain (λ _ c. is_live_at now c.expires_at) r.correlations },
  length (select (λ _ c. not (is_live_at now c.expires_at)) r.correlations),
)

-- An attempt that no sweep takes.
abbrev pub is_kept_at : ℕ → TunnelAttempt → Bool
is_kept_at now attempt = attempt.active || is_live_at now attempt.expires_at

unfoldable pub sweep_expired_tunnel_attempts : Registry → ℕ → Registry × ℕ × List Effect
sweep_expired_tunnel_attempts r now =
    let expired = select (λ _ attempt. not (is_kept_at now attempt)) r.attempts in
    let (r', closers) = remove_each r expired in (r', length expired, closers)

-- The function that expireRendezvousLater gives to the timer.
unfoldable pub expire_rendezvous : Registry → Text → ℕ → Registry
expire_rendezvous r key now = elim (lookup key r.rendezvous) [
  | none ↦ r
  | some attempt ↦
      if is_live_at now attempt.expires_at
      then r
      else record r { rendezvous = delete key r.rendezvous }
]

-- The function that expireUnpairedRelayTunnelLater gives to the timer.
unfoldable pub expire_unpaired_relay_tunnel : Registry → Text → ℕ → Registry × List Effect
expire_unpaired_relay_tunnel r key now = elim (lookup key r.attempts) [
  | none ↦ (r, [])
  | some attempt ↦ if is_kept_at now attempt then (r, []) else remove_tunnel_attempt r attempt
]
