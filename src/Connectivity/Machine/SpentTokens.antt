-- ===== src/Connectivity/Machine/SpentTokens.antt =====
-- RedeemRelayTunnelToken a second time, after any steps in between.
use agent_tunnel.Connectivity.Machine.Departures.{
  register_daemon-Lacks, disconnect_daemon-Lacks, revoke_device-Lacks, disconnect_session-Lacks,
  disconnect_user-Lacks, disconnect_agent_token-Lacks,
}
use agent_tunnel.Base.{ℕ, ◌≡◌, ap, ◌∙◌, List, [], ◌∷◌, nat_eq, All}
use agent_tunnel.Base.Text.{Text, text_eq, trim}
use agent_tunnel.Base.Peer.{peer_eq}
use agent_tunnel.Base.Dict.{lookup}
use agent_tunnel.Connectivity.{Registry, TunnelRedemption, ok, err, tunnel_token_invalid}
use agent_tunnel.Connectivity.Pairing.{disconnect_daemon, revoke_trusted_android}
use agent_tunnel.Connectivity.Redeem.{redeem_relay_tunnel_token}
use agent_tunnel.Connectivity.Tunnels.SingleUse.{sweep-lacks, redeem-spent, redeem-unknown}
use agent_tunnel.Connectivity.Machine.Lacking.{
  Lacks, IsNotDrawn, finish-Lacks, close-Lacks, expire-Lacks, mark_active-Lacks, add_closer-Lacks,
  forget_closer-Lacks, begin-Lacks, redeem-Lacks,
}
use agent_tunnel.Connectivity.Machine.Cutoff.{run}
use agent_tunnel.Connectivity.Machine.Untouched.{
  register_app-Untouched, disconnect_app-Untouched, complete_pairing-Untouched,
  reserve_pairing-Untouched, begin_forward-Untouched, finish_forward-Untouched,
  begin_rendezvous-Untouched, finish_rendezvous-Untouched, hint-Untouched,
  close_rendezvous_from_app-Untouched, close_rendezvous_from_daemon-Untouched,
  open_direct-Untouched, close_direct-Untouched, expire_rendezvous-Untouched,
}
use agent_tunnel.Connectivity.Machine.{
  Op, step, app_registers, app_leaves, daemon_registers, daemon_leaves, device_revoked,
  device_paired, pairing_reserved, answer_begun, answer_finished, tunnel_begun, tunnel_finished,
  token_redeemed, tunnel_active, tunnel_closed, closer_added, closer_forgotten, tunnels_swept,
  tunnel_expired, rendezvous_begun, rendezvous_finished, hint_forwarded, rendezvous_closed_by_app,
  rendezvous_closed_by_daemon, rendezvous_expired, direct_opened, direct_closed,
  session_disconnected, user_disconnected, agent_disconnected,
}

-- The step does not draw the token.
abbrev pub Spares : Text → Op → Type 0
Spares token (tunnel_begun request env) = IsNotDrawn env token
Spares token op = Unit

step-Lacks :
    (r : Registry) (op : Op) (token : Text)
    → Spares token op
    → Lacks r token
    → Lacks (step r op) token
unfolding step disconnect_daemon revoke_trusted_android
step-Lacks r (app_registers owner peer valid now) token spares h =
    ap (lookup token) (register_app-Untouched r owner peer valid now).1 ∙ h
step-Lacks r (app_leaves peer) token spares h =
    ap (lookup token) (disconnect_app-Untouched r peer).1 ∙ h
step-Lacks r (daemon_registers owner info trusted reports peer valid now) token spares h =
    register_daemon-Lacks r owner info trusted reports peer valid now token h
step-Lacks r (daemon_leaves device_id peer) token spares h =
    disconnect_daemon-Lacks r peer _ token h
step-Lacks r (device_revoked device_id peer fingerprint) token spares h =
    revoke_device-Lacks r peer _ _ token h
step-Lacks r (device_paired device_id peer trusted) token spares h =
    ap (lookup token) (complete_pairing-Untouched r device_id peer trusted).1 ∙ h
step-Lacks r (pairing_reserved device_id owner peer id ttl swept_at now) token spares h =
    ap (lookup token) (reserve_pairing-Untouched r device_id owner peer id ttl swept_at now).1 ∙ h
step-Lacks r (answer_begun answer now) token spares h =
    ap (lookup token) (begin_forward-Untouched r answer now).1 ∙ h
step-Lacks r (answer_finished answer peer delivered) token spares h =
    ap (lookup token) (finish_forward-Untouched r answer peer delivered).1 ∙ h
step-Lacks r (tunnel_begun request env) token spares h = begin-Lacks r request env token spares h
step-Lacks r (tunnel_finished pending delivered) token spares h =
    finish-Lacks r pending delivered token h
step-Lacks r (token_redeemed raw swept_at now) token spares h =
    redeem-Lacks r raw swept_at now token h
step-Lacks r (tunnel_active key) token spares h = mark_active-Lacks r key token h
step-Lacks r (tunnel_closed key) token spares h = close-Lacks r key token h
step-Lacks r (closer_added key closer) token spares h = add_closer-Lacks r key closer token h
step-Lacks r (closer_forgotten key id) token spares h = forget_closer-Lacks r key id token h
step-Lacks r (tunnels_swept now) token spares h = sweep-lacks r now token h
step-Lacks r (tunnel_expired key now) token spares h = expire-Lacks r key now token h
step-Lacks r (rendezvous_begun valid opening swept_at now) token spares h =
    ap (lookup token) (begin_rendezvous-Untouched valid r opening swept_at now).1 ∙ h
step-Lacks r (rendezvous_finished pending delivered) token spares h =
    ap (lookup token) (finish_rendezvous-Untouched r pending delivered).1 ∙ h
step-Lacks r (hint_forwarded valid claim request_id address addresses swept_at now) token spares h =
    ap (lookup token) (hint-Untouched valid r claim request_id address addresses swept_at now).1 ∙ h
step-Lacks r (rendezvous_closed_by_app owner peer daemon_id attempt_id) token spares h =
    ap (lookup token) (close_rendezvous_from_app-Untouched r owner peer daemon_id attempt_id).1 ∙ h
step-Lacks r (rendezvous_closed_by_daemon claim) token spares h =
    ap (lookup token) (close_rendezvous_from_daemon-Untouched r claim).1 ∙ h
step-Lacks r (rendezvous_expired key now) token spares h =
    ap (lookup token) (expire_rendezvous-Untouched r key now).1 ∙ h
step-Lacks r (direct_opened claim swept_at) token spares h =
    ap (lookup token) (open_direct-Untouched r claim swept_at).1 ∙ h
step-Lacks r (direct_closed claim) token spares h =
    ap (lookup token) (close_direct-Untouched r claim).1 ∙ h
step-Lacks r (session_disconnected session_id) token spares h =
    disconnect_session-Lacks r session_id token h
step-Lacks r (user_disconnected user now) token spares h = disconnect_user-Lacks r user now token h
step-Lacks r (agent_disconnected token_id) token spares h =
    disconnect_agent_token-Lacks r token_id token h

run-Lacks :
    (ops : List Op) (r : Registry) (token : Text)
    → All (Spares token) ops
    → Lacks r token
    → Lacks (run r ops) token
unfolding run
run-Lacks [] r token spares h = h
run-Lacks (op ∷ ops) r token spares h =
    run-Lacks ops (step r op) token spares.1 (step-Lacks r op token spares.0 h)

-- A token that has been accepted is refused for ever, whatever steps the relay takes in between, as
-- long as crypto/rand does not draw the same token again.
pub redeem-run-redeem :
    (r : Registry) (raw : Text) (swept_at now later_swept_at later : ℕ) (x : TunnelRedemption)
    (ops : List Op)
    → (redeem_relay_tunnel_token r raw swept_at now).1 ≡ ok x
    → All (Spares (trim raw)) ops
    → (redeem_relay_tunnel_token
        (run (redeem_relay_tunnel_token r raw swept_at now).0 ops)
        raw
        later_swept_at
        later).1
      ≡ err tunnel_token_invalid
redeem-run-redeem r raw swept_at now later_swept_at later x ops accepted spares =
    redeem-unknown _ raw later_swept_at later
      (run-Lacks ops _ (trim raw) spares (redeem-spent r raw swept_at now x accepted))
