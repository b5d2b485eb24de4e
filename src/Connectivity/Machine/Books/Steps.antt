-- ===== src/Connectivity/Machine/Books/Steps.antt =====
-- Every step of the machine and the books: three kinds of steps write in them.
use agent_tunnel.Base.{ℕ, ◌≡◌, ap, ◌⊎◌, inl, inr}
use agent_tunnel.Base.Text.{Text}
use agent_tunnel.Connectivity.{Registry}
use agent_tunnel.Connectivity.Requests.{TunnelRequest, Env}
use agent_tunnel.Connectivity.Machine.{
  Op, step, app_registers, app_leaves, daemon_registers, daemon_leaves, device_revoked,
  device_paired, pairing_reserved, answer_begun, answer_finished, tunnel_begun, tunnel_finished,
  token_redeemed, tunnel_active, tunnel_closed, closer_added, closer_forgotten, tunnels_swept,
  tunnel_expired, rendezvous_begun, rendezvous_finished, hint_forwarded, rendezvous_closed_by_app,
  rendezvous_closed_by_daemon, rendezvous_expired, direct_opened, direct_closed,
  session_disconnected, user_disconnected, agent_disconnected,
}
use agent_tunnel.Connectivity.Machine.Books.{books}
use agent_tunnel.Connectivity.Machine.Books.Apps.{
  register_app-accounts, disconnect_app-accounts, reserve_pairing-accounts, begin_forward-accounts,
  finish_forward-accounts, begin_rendezvous-accounts, finish_rendezvous-accounts, hint-accounts,
  close_rendezvous_from_app-accounts, close_rendezvous_from_daemon-accounts, open_direct-accounts,
  close_direct-accounts, expire_rendezvous-accounts, forget_closer-accounts, sweep-accounts,
  expire-accounts, close-accounts, mark_active-accounts, add_closer-accounts, finish-accounts,
}
use agent_tunnel.Connectivity.Machine.Books.Daemons.{
  redeem-accounts, complete_pairing-books, register_daemon-books, disconnect_daemon-books,
  revoke_trusted-books, disconnect_agent_token-books,
}

-- The steps that write in the books.
pub data Writes : Op → Type 0 where
  by_request : (q : TunnelRequest) (env : Env) → Writes (tunnel_begun q env)
  by_session : (session_id : Text) → Writes (session_disconnected session_id)
  by_user : (id now : ℕ) → Writes (user_disconnected id now)

pub step-books : (r : Registry) (op : Op) → (books (step r op) ≡ books r) ⊎ Writes op
unfolding step
step-books r (app_registers owner peer valid now) =
    inl (ap (λ b. b.0) (register_app-accounts r owner peer valid now))
step-books r (app_leaves peer) = inl (ap (λ b. b.0) (disconnect_app-accounts r peer))
step-books r (daemon_registers owner info trusted reports peer valid now) =
    inl (register_daemon-books r owner info trusted reports peer valid now)
step-books r (daemon_leaves device_id peer) = inl (disconnect_daemon-books r device_id peer)
step-books r (device_revoked device_id peer fingerprint) =
    inl (revoke_trusted-books r device_id peer fingerprint)
step-books r (device_paired device_id peer trusted) =
    inl (complete_pairing-books r device_id peer trusted)
step-books r (pairing_reserved device_id owner peer id ttl swept_at now) =
    inl (ap (λ b. b.0) (reserve_pairing-accounts r device_id owner peer id ttl swept_at now))
step-books r (answer_begun answer now) = inl (ap (λ b. b.0) (begin_forward-accounts r answer now))
step-books r (answer_finished answer peer delivered) =
    inl (ap (λ b. b.0) (finish_forward-accounts r answer peer delivered))
step-books r (tunnel_begun q env) = inr (by_request q env)
step-books r (tunnel_finished pending delivered) =
    inl (ap (λ b. b.0) (finish-accounts r pending delivered))
step-books r (token_redeemed token swept_at now) =
    inl (ap (λ b. b.0) (redeem-accounts r token swept_at now))
step-books r (tunnel_active key) = inl (ap (λ b. b.0) (mark_active-accounts r key))
step-books r (tunnel_closed key) = inl (ap (λ b. b.0) (close-accounts r key))
step-books r (closer_added key closer) = inl (ap (λ b. b.0) (add_closer-accounts r key closer))
step-books r (closer_forgotten key id) = inl (ap (λ b. b.0) (forget_closer-accounts r key id))
step-books r (tunnels_swept now) = inl (ap (λ b. b.0) (sweep-accounts r now))
step-books r (tunnel_expired key now) = inl (ap (λ b. b.0) (expire-accounts r key now))
step-books r (rendezvous_begun valid opening swept_at now) =
    inl (ap (λ b. b.0) (begin_rendezvous-accounts r valid opening swept_at now))
step-books r (rendezvous_finished pending delivered) =
    inl (ap (λ b. b.0) (finish_rendezvous-accounts r pending delivered))
step-books r (hint_forwarded valid claim request_id address addresses swept_at now) =
    inl (ap (λ b. b.0) (hint-accounts r valid claim request_id address addresses swept_at now))
step-books r (rendezvous_closed_by_app owner peer daemon_id attempt_id) =
    inl (ap (λ b. b.0) (close_rendezvous_from_app-accounts r owner peer daemon_id attempt_id))
step-books r (rendezvous_closed_by_daemon claim) =
    inl (ap (λ b. b.0) (close_rendezvous_from_daemon-accounts r claim))
step-books r (rendezvous_expired key now) =
    inl (ap (λ b. b.0) (expire_rendezvous-accounts r key now))
step-books r (direct_opened claim swept_at) =
    inl (ap (λ b. b.0) (open_direct-accounts r claim swept_at))
step-books r (direct_closed claim) = inl (ap (λ b. b.0) (close_direct-accounts r claim))
step-books r (session_disconnected session_id) = inr (by_session session_id)
step-books r (user_disconnected id now) = inr (by_user id now)
step-books r (agent_disconnected token_id) = inl (disconnect_agent_token-books r token_id)
