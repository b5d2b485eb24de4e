-- ===== src/Connectivity/Machine/Safety.antt =====
-- What holds in every registry that the relay can reach.
use agent_tunnel.Base.{ℕ, ◌≡◌, ◌≤◌, some, arith}
use agent_tunnel.Base.Text.{Text, trim, text_eq}
use agent_tunnel.Base.Dict.{lookup, count}
use agent_tunnel.Connectivity.{Registry, new_registry, TunnelRedemption, TunnelToken, AppOwner, ok}
use agent_tunnel.Connectivity.Redeem.{redeem_relay_tunnel_token}
use agent_tunnel.Connectivity.Tunnels.Tokens.{IsTokenFor}
use agent_tunnel.Connectivity.Tunnels.Capacity.{in_flight}
use agent_tunnel.Connectivity.Tunnels.SingleUse.{Redeemed, redeem-Redeemed}
use agent_tunnel.Connectivity.Machine.{
  Op, step, Reachable, start, next, app_registers, app_leaves, daemon_registers, daemon_leaves,
  device_revoked, device_paired, pairing_reserved, answer_begun, answer_finished, tunnel_begun,
  tunnel_finished, token_redeemed, tunnel_active, tunnel_closed, closer_added, closer_forgotten,
  tunnels_swept, tunnel_expired, rendezvous_begun, rendezvous_finished, hint_forwarded,
  rendezvous_closed_by_app, rendezvous_closed_by_daemon, rendezvous_expired, direct_opened,
  direct_closed, session_disconnected, user_disconnected, agent_disconnected,
}
use agent_tunnel.Connectivity.Machine.Untouched.{
  Untouched, register_app-Untouched, disconnect_app-Untouched, complete_pairing-Untouched,
  reserve_pairing-Untouched, begin_forward-Untouched, finish_forward-Untouched,
  begin_rendezvous-Untouched, finish_rendezvous-Untouched, hint-Untouched,
  close_rendezvous_from_app-Untouched, close_rendezvous_from_daemon-Untouched,
  open_direct-Untouched, close_direct-Untouched, expire_rendezvous-Untouched,
}
use agent_tunnel.Connectivity.Machine.Invariant.{
  Tidy, untouched, begin-Tidy, finish-Tidy, redeem-Tidy, close-Tidy, sweep-Tidy, expire-Tidy,
}
use agent_tunnel.Connectivity.Machine.Connections.{
  mark_active-Tidy, add_closer-Tidy, forget_closer-Tidy, register_daemon-Tidy,
  disconnect_daemon-Tidy, revoke_trusted-Tidy, disconnect_app_session-Tidy, disconnect_user-Tidy,
  disconnect_agent_token-Tidy,
}

same : (r s : Registry) → Tidy r → Untouched r s → Tidy s
same r s w e = untouched r.attempts s.attempts r.tokens s.tokens w e

pub step-Tidy : (r : Registry) (op : Op) → Tidy r → Tidy (step r op)
unfolding step
step-Tidy r (app_registers owner peer valid now) w =
    same r (step r (app_registers owner peer valid now)) w
      (register_app-Untouched r owner peer valid now)
step-Tidy r (app_leaves peer) w =
    same r (step r (app_leaves peer)) w (disconnect_app-Untouched r peer)
step-Tidy r (daemon_registers owner info trusted reports peer valid now) w =
    register_daemon-Tidy r owner info trusted reports peer valid now w
step-Tidy r (daemon_leaves device_id peer) w = disconnect_daemon-Tidy r device_id peer w
step-Tidy r (device_revoked device_id peer fingerprint) w =
    revoke_trusted-Tidy r device_id peer fingerprint w
step-Tidy r (device_paired device_id peer trusted) w =
    same r (step r (device_paired device_id peer trusted)) w
      (complete_pairing-Untouched r device_id peer trusted)
step-Tidy r (pairing_reserved device_id owner peer id ttl swept_at now) w =
    same r (step r (pairing_reserved device_id owner peer id ttl swept_at now)) w
      (reserve_pairing-Untouched r device_id owner peer id ttl swept_at now)
step-Tidy r (answer_begun answer now) w =
    same r (step r (answer_begun answer now)) w (begin_forward-Untouched r answer now)
step-Tidy r (answer_finished answer peer delivered) w =
    same r (step r (answer_finished answer peer delivered)) w
      (finish_forward-Untouched r answer peer delivered)
step-Tidy r (tunnel_begun request env) w = begin-Tidy r request env w
step-Tidy r (tunnel_finished pending delivered) w = finish-Tidy r pending delivered w
step-Tidy r (token_redeemed token swept_at now) w = redeem-Tidy r token swept_at now w
step-Tidy r (tunnel_active key) w = mark_active-Tidy r key w
step-Tidy r (tunnel_closed key) w = close-Tidy r key w
step-Tidy r (closer_added key closer) w = add_closer-Tidy r key closer w
step-Tidy r (closer_forgotten key id) w = forget_closer-Tidy r key id w
step-Tidy r (tunnels_swept now) w = sweep-Tidy r now w
step-Tidy r (tunnel_expired key now) w = expire-Tidy r key now w
step-Tidy r (rendezvous_begun valid opening swept_at now) w =
    same r (step r (rendezvous_begun valid opening swept_at now)) w
      (begin_rendezvous-Untouched valid r opening swept_at now)
step-Tidy r (rendezvous_finished pending delivered) w =
    same r (step r (rendezvous_finished pending delivered)) w
      (finish_rendezvous-Untouched r pending delivered)
step-Tidy r (hint_forwarded valid claim request_id address addresses swept_at now) w =
    same r (step r (hint_forwarded valid claim request_id address addresses swept_at now)) w
      (hint-Untouched valid r claim request_id address addresses swept_at now)
step-Tidy r (rendezvous_closed_by_app owner peer daemon_id attempt_id) w =
    same r (step r (rendezvous_closed_by_app owner peer daemon_id attempt_id)) w
      (close_rendezvous_from_app-Untouched r owner peer daemon_id attempt_id)
step-Tidy r (rendezvous_closed_by_daemon claim) w =
    same r (step r (rendezvous_closed_by_daemon claim)) w
      (close_rendezvous_from_daemon-Untouched r claim)
step-Tidy r (rendezvous_expired key now) w =
    same r (step r (rendezvous_expired key now)) w (expire_rendezvous-Untouched r key now)
step-Tidy r (direct_opened claim swept_at) w =
    same r (step r (direct_opened claim swept_at)) w (open_direct-Untouched r claim swept_at)
step-Tidy r (direct_closed claim) w =
    same r (step r (direct_closed claim)) w (close_direct-Untouched r claim)
step-Tidy r (session_disconnected session_id) w = disconnect_app_session-Tidy r session_id w
step-Tidy r (user_disconnected user now) w = disconnect_user-Tidy r user now w
step-Tidy r (agent_disconnected token_id) w = disconnect_agent_token-Tidy r token_id w

new-Tidy : Tidy new_registry
unfolding new_registry lookup count
new-Tidy = record {
  backed = record { distinct = tt; keyed = λ key a h. cc; backed = λ token stored h. cc };
  capacity = λ owner. omega arith;
}

pub reachable-Tidy : (r : Registry) → Reachable r → Tidy r
reachable-Tidy r start = new-Tidy
reachable-Tidy r (next s reached op) = step-Tidy s op (reachable-Tidy s reached)

-- In every registry that the relay can reach, no app session has more than four tunnels.
pub reachable-in_flight : (r : Registry) (owner : AppOwner) → Reachable r → in_flight r owner ≤ 4
reachable-in_flight r owner reached = (reachable-Tidy r reached).capacity owner

-- In every registry that the relay can reach, each stored token is for an attempt that is there: it is
-- the token that was drawn for one side of it, and this side has not redeemed it.
pub reachable-IsTokenFor :
    (r : Registry) (token : Text) (stored : TunnelToken)
    → Reachable r
    → lookup token r.tokens ≡ some stored
    → IsTokenFor r.attempts token stored
reachable-IsTokenFor r token stored reached found =
    (reachable-Tidy r reached).backed.backed token stored found

-- In every registry that the relay can reach, a token that is accepted was drawn for one side of a
-- tunnel that is there and has not expired, this side had not redeemed it, and the caller is told
-- that tunnel and that side.
pub reachable-Redeemed :
    (r : Registry) (raw : Text) (swept_at now : ℕ) (x : TunnelRedemption)
    → Reachable r
    → (redeem_relay_tunnel_token r raw swept_at now).1 ≡ ok x
    → Redeemed r (trim raw) now x
reachable-Redeemed r raw swept_at now x reached h =
    redeem-Redeemed r raw swept_at now x (reachable-Tidy r reached).backed h
