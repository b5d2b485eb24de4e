-- ===== src/Connectivity/Machine/Books/Apps.antt =====
-- The operations on apps, pairings, rendezvous and closers leave the books and the daemons alone.
use agent_tunnel.Base.{ℕ, ◌≡◌, Bool, List, arith, nat_eq}
use agent_tunnel.Base.Text.{Text, text_eq}
use agent_tunnel.Connectivity.{Registry, DaemonOwner, AppOwner}
use agent_tunnel.Connectivity.Removal.{
  remove_tunnel_attempt, remove_rendezvous, sweep_expired_tunnel_attempts,
  expire_unpaired_relay_tunnel, expire_rendezvous, sweep_expired_rendezvous,
  sweep_expired_pair_correlations,
}
use agent_tunnel.Connectivity.Apps.{register_app_if_valid, disconnect_app}
use agent_tunnel.Base.Int.{ℤ}
use agent_tunnel.Base.Peer.{Peer}
use agent_tunnel.Connectivity.Pairing.{Answer, reserve_pairing, begin_forward, finish_forward}
use agent_tunnel.Connectivity.Rendezvous.{
  Opening, begin_rendezvous, open_normalized, commit_rendezvous, finish_rendezvous,
}
use agent_tunnel.Connectivity.Limits.{allow_rendezvous_request, record_rendezvous_request}
use agent_tunnel.Connectivity.Direct.{
  Claim, forward_rendezvous_hint, close_rendezvous_from_app, close_rendezvous_from_daemon,
  open_direct_session_from_daemon, close_direct_session_from_daemon,
}
use agent_tunnel.Connectivity.Machine.Books.{accounts, remove_each-accounts}
use agent_tunnel.Connectivity.Tunnels.{Pending, finish_relay_tunnel}
use agent_tunnel.Connectivity.Redeem.{
  mark_relay_tunnel_active, close_relay_tunnel, add_tunnel_closer, forget_tunnel_closer,
}

module _ (r : Registry) where
  pub register_app-accounts :
      (owner : AppOwner) (peer : Peer) (valid : Bool) (now : ℕ)
      → accounts (register_app_if_valid r owner peer valid now).0 ≡ accounts r
  unfolding register_app_if_valid
  register_app-accounts owner peer valid now = ground arith

  pub disconnect_app-accounts : (peer : Peer) → accounts (disconnect_app r peer).0 ≡ accounts r
  unfolding disconnect_app remove_rendezvous
  disconnect_app-accounts peer = ground arith

  pub reserve_pairing-accounts :
      (device_id : Text) (owner : DaemonOwner) (peer : Peer) (id : Text) (ttl : ℤ)
      (swept_at now : ℕ)
      → accounts (reserve_pairing r device_id owner peer id ttl swept_at now).0 ≡ accounts r
  unfolding reserve_pairing sweep_expired_pair_correlations
  reserve_pairing-accounts device_id owner peer id ttl swept_at now = ground arith

  pub begin_forward-accounts :
      (a : Answer) (now : ℕ) → accounts (begin_forward r a now).0 ≡ accounts r
  unfolding begin_forward
  begin_forward-accounts a now = ground arith

  pub finish_forward-accounts :
      (a : Answer) (peer : Peer) (delivered : Bool)
      → accounts (finish_forward r a peer delivered).0 ≡ accounts r
  unfolding finish_forward
  finish_forward-accounts a peer delivered = ground arith

  pub begin_rendezvous-accounts :
      (valid : Text → Bool) (q : Opening) (swept_at now : ℕ)
      → accounts (begin_rendezvous valid r q swept_at now).0 ≡ accounts r
  unfolding begin_rendezvous open_normalized commit_rendezvous remove_rendezvous
      sweep_expired_rendezvous allow_rendezvous_request record_rendezvous_request
  begin_rendezvous-accounts valid q swept_at now = ground arith

  pub finish_rendezvous-accounts :
      (p : Pending) (delivered : Bool) → accounts (finish_rendezvous r p delivered).0 ≡ accounts r
  unfolding finish_rendezvous
  finish_rendezvous-accounts p delivered = ground arith

  pub hint-accounts :
      (valid : Text → Bool) (c : Claim) (request_id address : Text) (addresses : List Text)
      (swept_at now : ℕ)
      → accounts (forward_rendezvous_hint valid r c request_id address addresses swept_at now).0
        ≡ accounts r
  unfolding forward_rendezvous_hint sweep_expired_rendezvous
  hint-accounts valid c request_id address addresses swept_at now = ground arith

  pub close_rendezvous_from_app-accounts :
      (owner : AppOwner) (peer : Peer) (daemon_id attempt_id : Text)
      → accounts (close_rendezvous_from_app r owner peer daemon_id attempt_id).0 ≡ accounts r
  unfolding close_rendezvous_from_app remove_rendezvous
  close_rendezvous_from_app-accounts owner peer daemon_id attempt_id = ground arith

  pub close_rendezvous_from_daemon-accounts :
      (c : Claim) → accounts (close_rendezvous_from_daemon r c).0 ≡ accounts r
  unfolding close_rendezvous_from_daemon
  close_rendezvous_from_daemon-accounts c = ground arith

  pub open_direct-accounts :
      (c : Claim) (swept_at : ℕ)
      → accounts (open_direct_session_from_daemon r c swept_at).0 ≡ accounts r
  unfolding open_direct_session_from_daemon sweep_expired_rendezvous
  open_direct-accounts c swept_at = ground arith

  pub close_direct-accounts :
      (c : Claim) → accounts (close_direct_session_from_daemon r c).0 ≡ accounts r
  unfolding close_direct_session_from_daemon
  close_direct-accounts c = ground arith

  pub expire_rendezvous-accounts :
      (key : Text) (now : ℕ) → accounts (expire_rendezvous r key now) ≡ accounts r
  unfolding expire_rendezvous
  expire_rendezvous-accounts key now = ground arith

  pub forget_closer-accounts :
      (key : Text) (id : ℕ) → accounts (forget_tunnel_closer r key id) ≡ accounts r
  unfolding forget_tunnel_closer
  forget_closer-accounts key id = ground arith

  pub sweep-accounts : (now : ℕ) → accounts (sweep_expired_tunnel_attempts r now).0 ≡ accounts r
  unfolding sweep_expired_tunnel_attempts
  sweep-accounts now = remove_each-accounts r _

  pub expire-accounts :
      (key : Text) (now : ℕ) → accounts (expire_unpaired_relay_tunnel r key now).0 ≡ accounts r
  unfolding expire_unpaired_relay_tunnel remove_tunnel_attempt
  expire-accounts key now = ground arith

  pub close-accounts : (key : Text) → accounts (close_relay_tunnel r key).0 ≡ accounts r
  unfolding close_relay_tunnel remove_tunnel_attempt
  close-accounts key = ground arith

  pub mark_active-accounts : (key : Text) → accounts (mark_relay_tunnel_active r key).0 ≡ accounts r
  unfolding mark_relay_tunnel_active
  mark_active-accounts key = ground arith

  pub add_closer-accounts :
      (key : Text) (closer : ℕ) → accounts (add_tunnel_closer r key closer).0 ≡ accounts r
  unfolding add_tunnel_closer
  add_closer-accounts key closer = ground arith

  pub finish-accounts :
      (p : Pending) (delivered : Bool) → accounts (finish_relay_tunnel r p delivered).0 ≡ accounts r
  unfolding finish_relay_tunnel remove_tunnel_attempt
  finish-accounts p delivered = ground arith
