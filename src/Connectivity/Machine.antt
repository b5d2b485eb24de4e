-- ===== src/Connectivity/Machine.antt =====
-- The registry as a state machine. Its methods run under one mutex, so what the relay does is a
-- sequence of critical sections: a method that tells a daemon something between two sections is two
-- steps, and any other steps may come in between.
pub mod Untouched
pub mod Invariant
pub mod Connections
pub mod Safety
pub mod Books
pub mod Cutoff
pub mod UserCutoff
pub mod RequestLimit
pub mod Keyed
pub mod Authorization
pub mod Lacking
pub mod Departures
pub mod SpentTokens
use agent_tunnel.Base.{ℕ, Bool, List, [], ◌∷◌}
use agent_tunnel.Base.Int.{ℤ}
use agent_tunnel.Base.Text.{Text}
use agent_tunnel.Base.Peer.{Peer}
use agent_tunnel.Connectivity.{
  Registry, new_registry, AppOwner, DaemonOwner, DaemonInfo, TrustedAndroid, DirectReport,
}
use agent_tunnel.Connectivity.Apps.{register_app_if_valid, disconnect_app}
use agent_tunnel.Connectivity.Daemons.{register_daemon}
use agent_tunnel.Connectivity.Pairing.{
  disconnect_daemon, revoke_trusted_android, complete_pairing, reserve_pairing, Answer,
  begin_forward, finish_forward,
}
use agent_tunnel.Connectivity.Tunnels.{Pending, begin_relay_tunnel, finish_relay_tunnel}
use agent_tunnel.Connectivity.Requests.{TunnelRequest, Env}
use agent_tunnel.Connectivity.Redeem.{
  redeem_relay_tunnel_token, mark_relay_tunnel_active, close_relay_tunnel, add_tunnel_closer,
  forget_tunnel_closer,
}
use agent_tunnel.Connectivity.Rendezvous.{Opening, begin_rendezvous, finish_rendezvous}
use agent_tunnel.Connectivity.Direct.{
  Claim, forward_rendezvous_hint, close_rendezvous_from_app, close_rendezvous_from_daemon,
  open_direct_session_from_daemon, close_direct_session_from_daemon,
}
use agent_tunnel.Connectivity.Revocation.{
  disconnect_app_session, disconnect_user, disconnect_agent_token,
}
use agent_tunnel.Connectivity.Removal.{
  sweep_expired_tunnel_attempts, expire_rendezvous, expire_unpaired_relay_tunnel,
}

-- The critical sections, with what they take from outside. `Text → Bool` is the check of an address.
pub data Op : Type 0 where
  app_registers : AppOwner → Peer → Bool → ℕ → Op
  app_leaves : Peer → Op
  daemon_registers :
      DaemonOwner → DaemonInfo → List TrustedAndroid → List DirectReport → Peer → Bool → ℕ → Op
  daemon_leaves : Text → Peer → Op
  device_revoked : Text → Peer → Text → Op
  device_paired : Text → Peer → TrustedAndroid → Op
  pairing_reserved : Text → DaemonOwner → Peer → Text → ℤ → ℕ → ℕ → Op
  answer_begun : Answer → ℕ → Op
  answer_finished : Answer → Peer → Bool → Op
  tunnel_begun : TunnelRequest → Env → Op
  tunnel_finished : Pending → Bool → Op
  token_redeemed : Text → ℕ → ℕ → Op
  tunnel_active : Text → Op
  tunnel_closed : Text → Op
  closer_added : Text → ℕ → Op
  closer_forgotten : Text → ℕ → Op
  tunnels_swept : ℕ → Op
  tunnel_expired : Text → ℕ → Op
  rendezvous_begun : (Text → Bool) → Opening → ℕ → ℕ → Op
  rendezvous_finished : Pending → Bool → Op
  hint_forwarded : (Text → Bool) → Claim → Text → Text → List Text → ℕ → ℕ → Op
  rendezvous_closed_by_app : AppOwner → Peer → Text → Text → Op
  rendezvous_closed_by_daemon : Claim → Op
  rendezvous_expired : Text → ℕ → Op
  direct_opened : Claim → ℕ → Op
  direct_closed : Claim → Op
  session_disconnected : Text → Op
  user_disconnected : ℕ → ℕ → Op
  agent_disconnected : Text → Op

unfoldable pub step : Registry → Op → Registry
step r (app_registers owner peer valid now) = (register_app_if_valid r owner peer valid now).0
step r (app_leaves peer) = (disconnect_app r peer).0
step r (daemon_registers owner info trusted reports peer valid now) =
    (register_daemon r owner info trusted reports peer valid now).0
step r (daemon_leaves device_id peer) = (disconnect_daemon r device_id peer).0
step r (device_revoked device_id peer fingerprint) =
    (revoke_trusted_android r device_id peer fingerprint).0
step r (device_paired device_id peer trusted) = (complete_pairing r device_id peer trusted).0
step r (pairing_reserved device_id owner peer id ttl swept_at now) =
    (reserve_pairing r device_id owner peer id ttl swept_at now).0
step r (answer_begun answer now) = (begin_forward r answer now).0
step r (answer_finished answer peer delivered) = (finish_forward r answer peer delivered).0
step r (tunnel_begun request env) = (begin_relay_tunnel r request env).0
step r (tunnel_finished pending delivered) = (finish_relay_tunnel r pending delivered).0
step r (token_redeemed token swept_at now) = (redeem_relay_tunnel_token r token swept_at now).0
step r (tunnel_active key) = (mark_relay_tunnel_active r key).0
step r (tunnel_closed key) = (close_relay_tunnel r key).0
step r (closer_added key closer) = (add_tunnel_closer r key closer).0
step r (closer_forgotten key id) = forget_tunnel_closer r key id
step r (tunnels_swept now) = (sweep_expired_tunnel_attempts r now).0
step r (tunnel_expired key now) = (expire_unpaired_relay_tunnel r key now).0
step r (rendezvous_begun valid opening swept_at now) =
    (begin_rendezvous valid r opening swept_at now).0
step r (rendezvous_finished pending delivered) = (finish_rendezvous r pending delivered).0
step r (hint_forwarded valid claim request_id address addresses swept_at now) =
    (forward_rendezvous_hint valid r claim request_id address addresses swept_at now).0
step r (rendezvous_closed_by_app owner peer daemon_id attempt_id) =
    (close_rendezvous_from_app r owner peer daemon_id attempt_id).0
step r (rendezvous_closed_by_daemon claim) = (close_rendezvous_from_daemon r claim).0
step r (rendezvous_expired key now) = expire_rendezvous r key now
step r (direct_opened claim swept_at) = (open_direct_session_from_daemon r claim swept_at).0
step r (direct_closed claim) = (close_direct_session_from_daemon r claim).0
step r (session_disconnected session_id) = (disconnect_app_session r session_id).0
step r (user_disconnected user now) = (disconnect_user r user now).0
step r (agent_disconnected token_id) = (disconnect_agent_token r token_id).0

-- The registries that a sequence of steps leads to.
pub data Reachable : Registry → Type 0 where
  start : Reachable new_registry
  next : (r : Registry) → Reachable r → (op : Op) → Reachable (step r op)
