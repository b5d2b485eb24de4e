-- ===== src/Connectivity/Machine/Keyed/Steps.antt =====
-- In every reachable registry a daemon stands under its own key: the steps of the machine.
use agent_tunnel.Base.{◌≡◌, sym, ap, subst, All}
use agent_tunnel.Base.Text.{Text}
use agent_tunnel.Base.Dict.{Dict}
use agent_tunnel.Connectivity.{Registry, LiveDaemon, new_registry}
use agent_tunnel.Connectivity.Machine.{
  Op, step, Reachable, start, next, app_registers, app_leaves, daemon_registers, daemon_leaves,
  device_revoked, device_paired, pairing_reserved, answer_begun, answer_finished, tunnel_begun,
  tunnel_finished, token_redeemed, tunnel_active, tunnel_closed, closer_added, closer_forgotten,
  tunnels_swept, tunnel_expired, rendezvous_begun, rendezvous_finished, hint_forwarded,
  rendezvous_closed_by_app, rendezvous_closed_by_daemon, rendezvous_expired, direct_opened,
  direct_closed, session_disconnected, user_disconnected, agent_disconnected,
}
use agent_tunnel.Connectivity.Machine.Books.Apps.{
  register_app-accounts, disconnect_app-accounts, reserve_pairing-accounts, begin_forward-accounts,
  finish_forward-accounts, begin_rendezvous-accounts, finish_rendezvous-accounts, hint-accounts,
  close_rendezvous_from_app-accounts, close_rendezvous_from_daemon-accounts, open_direct-accounts,
  close_direct-accounts, expire_rendezvous-accounts, forget_closer-accounts, sweep-accounts,
  expire-accounts, close-accounts, mark_active-accounts, add_closer-accounts, finish-accounts,
}
use agent_tunnel.Connectivity.Machine.Books.Daemons.{redeem-accounts}
use agent_tunnel.Connectivity.Machine.Books.Tunnels.{begin-HasNoted, noted-accounts}
use agent_tunnel.Connectivity.Machine.Keyed.{
  IsKeyed, Keyed, register_daemon-Keyed, disconnect_daemon-Keyed, revoke_trusted-Keyed,
  complete_pairing-Keyed, disconnect_session-Keyed, disconnect_user-Keyed,
  disconnect_agent_token-Keyed,
}

unmoved :
    (before later : Dict Text LiveDaemon) → later ≡ before → All IsKeyed before → All IsKeyed later
unmoved before later e h = subst (All IsKeyed) (sym e) h

step-Keyed : (r : Registry) (op : Op) → Keyed r → Keyed (step r op)
unfolding step
step-Keyed r (app_registers owner peer valid now) h =
    unmoved _ _ (ap (λ b. b.1) (register_app-accounts r owner peer valid now)) h
step-Keyed r (app_leaves peer) h = unmoved _ _ (ap (λ b. b.1) (disconnect_app-accounts r peer)) h
step-Keyed r (daemon_registers owner info trusted reports peer valid now) h =
    register_daemon-Keyed r owner info trusted reports peer valid now h
step-Keyed r (daemon_leaves device_id peer) h = disconnect_daemon-Keyed r device_id peer h
step-Keyed r (device_revoked device_id peer fingerprint) h =
    revoke_trusted-Keyed r device_id peer fingerprint h
step-Keyed r (device_paired device_id peer trusted) h =
    complete_pairing-Keyed r device_id peer trusted h
step-Keyed r (pairing_reserved device_id owner peer id ttl swept_at now) h =
    unmoved _ _
      (ap (λ b. b.1) (reserve_pairing-accounts r device_id owner peer id ttl swept_at now)) h
step-Keyed r (answer_begun answer now) h =
    unmoved _ _ (ap (λ b. b.1) (begin_forward-accounts r answer now)) h
step-Keyed r (answer_finished answer peer delivered) h =
    unmoved _ _ (ap (λ b. b.1) (finish_forward-accounts r answer peer delivered)) h
step-Keyed r (tunnel_begun q env) h =
    unmoved _ _ (noted-accounts _ _ _ _ _ (begin-HasNoted r q env)).2 h
step-Keyed r (tunnel_finished pending delivered) h =
    unmoved _ _ (ap (λ b. b.1) (finish-accounts r pending delivered)) h
step-Keyed r (token_redeemed token swept_at now) h =
    unmoved _ _ (ap (λ b. b.1) (redeem-accounts r token swept_at now)) h
step-Keyed r (tunnel_active key) h = unmoved _ _ (ap (λ b. b.1) (mark_active-accounts r key)) h
step-Keyed r (tunnel_closed key) h = unmoved _ _ (ap (λ b. b.1) (close-accounts r key)) h
step-Keyed r (closer_added key closer) h =
    unmoved _ _ (ap (λ b. b.1) (add_closer-accounts r key closer)) h
step-Keyed r (closer_forgotten key id) h =
    unmoved _ _ (ap (λ b. b.1) (forget_closer-accounts r key id)) h
step-Keyed r (tunnels_swept now) h = unmoved _ _ (ap (λ b. b.1) (sweep-accounts r now)) h
step-Keyed r (tunnel_expired key now) h = unmoved _ _ (ap (λ b. b.1) (expire-accounts r key now)) h
step-Keyed r (rendezvous_begun valid opening swept_at now) h =
    unmoved _ _ (ap (λ b. b.1) (begin_rendezvous-accounts r valid opening swept_at now)) h
step-Keyed r (rendezvous_finished pending delivered) h =
    unmoved _ _ (ap (λ b. b.1) (finish_rendezvous-accounts r pending delivered)) h
step-Keyed r (hint_forwarded valid claim request_id address addresses swept_at now) h =
    unmoved _ _
      (ap (λ b. b.1) (hint-accounts r valid claim request_id address addresses swept_at now)) h
step-Keyed r (rendezvous_closed_by_app owner peer daemon_id attempt_id) h =
    unmoved _ _
      (ap (λ b. b.1) (close_rendezvous_from_app-accounts r owner peer daemon_id attempt_id)) h
step-Keyed r (rendezvous_closed_by_daemon claim) h =
    unmoved _ _ (ap (λ b. b.1) (close_rendezvous_from_daemon-accounts r claim)) h
step-Keyed r (rendezvous_expired key now) h =
    unmoved _ _ (ap (λ b. b.1) (expire_rendezvous-accounts r key now)) h
step-Keyed r (direct_opened claim swept_at) h =
    unmoved _ _ (ap (λ b. b.1) (open_direct-accounts r claim swept_at)) h
step-Keyed r (direct_closed claim) h = unmoved _ _ (ap (λ b. b.1) (close_direct-accounts r claim)) h
step-Keyed r (session_disconnected session_id) h = disconnect_session-Keyed r session_id h
step-Keyed r (user_disconnected id now) h = disconnect_user-Keyed r id now h
step-Keyed r (agent_disconnected token_id) h = disconnect_agent_token-Keyed r token_id h

pub Reachable-Keyed : (r : Registry) → Reachable r → Keyed r
unfolding new_registry
Reachable-Keyed _ start = tt
Reachable-Keyed _ (next r reached op) = step-Keyed r op (Reachable-Keyed r reached)
