-- ===== src/Connectivity/Machine/Untouched.antt =====
-- The operations that leave the tunnels alone.
use agent_tunnel.Base.{ℕ, ◌≡◌, Bool, List, arith, nat_eq}
use agent_tunnel.Base.Int.{ℤ}
use agent_tunnel.Base.Text.{Text, text_eq}
use agent_tunnel.Base.Peer.{Peer, peer_eq}
use agent_tunnel.Connectivity.{Registry, TrustedAndroid, AppOwner, DaemonOwner}
use agent_tunnel.Connectivity.Removal.{
  remove_rendezvous, expire_rendezvous, sweep_expired_rendezvous, sweep_expired_pair_correlations,
}
use agent_tunnel.Connectivity.Apps.{register_app_if_valid, disconnect_app}
use agent_tunnel.Connectivity.Pairing.{
  complete_pairing, reserve_pairing, Answer, begin_forward, finish_forward,
}
use agent_tunnel.Connectivity.Tunnels.{Pending}
use agent_tunnel.Connectivity.Rendezvous.{
  Opening, begin_rendezvous, open_normalized, commit_rendezvous, finish_rendezvous,
}
use agent_tunnel.Connectivity.Limits.{allow_rendezvous_request, record_rendezvous_request}
use agent_tunnel.Connectivity.Direct.{
  Claim, forward_rendezvous_hint, close_rendezvous_from_app, close_rendezvous_from_daemon,
  open_direct_session_from_daemon, close_direct_session_from_daemon,
}

-- The same tunnels and tokens.
abbrev pub Untouched : Registry → Registry → Type 0
Untouched r s = (s.attempts ≡ r.attempts) × (s.tokens ≡ r.tokens)

pub register_app-Untouched :
    (r : Registry) (owner : AppOwner) (peer : Peer) (valid : Bool) (now : ℕ)
    → Untouched r (register_app_if_valid r owner peer valid now).0
unfolding register_app_if_valid
register_app-Untouched r owner peer valid now = ground arith

pub disconnect_app-Untouched : (r : Registry) (peer : Peer) → Untouched r (disconnect_app r peer).0
unfolding disconnect_app remove_rendezvous
disconnect_app-Untouched r peer = ground arith

pub complete_pairing-Untouched :
    (r : Registry) (device_id : Text) (peer : Peer) (trusted : TrustedAndroid)
    → Untouched r (complete_pairing r device_id peer trusted).0
unfolding complete_pairing
complete_pairing-Untouched r device_id peer trusted = ground arith

pub reserve_pairing-Untouched :
    (r : Registry) (device_id : Text) (owner : DaemonOwner) (peer : Peer) (id : Text) (ttl : ℤ)
    (swept_at now : ℕ)
    → Untouched r (reserve_pairing r device_id owner peer id ttl swept_at now).0
unfolding reserve_pairing sweep_expired_pair_correlations
reserve_pairing-Untouched r device_id owner peer id ttl swept_at now = ground arith

pub begin_forward-Untouched :
    (r : Registry) (a : Answer) (now : ℕ) → Untouched r (begin_forward r a now).0
unfolding begin_forward
begin_forward-Untouched r a now = ground arith

pub finish_forward-Untouched :
    (r : Registry) (a : Answer) (peer : Peer) (delivered : Bool)
    → Untouched r (finish_forward r a peer delivered).0
unfolding finish_forward
finish_forward-Untouched r a peer delivered = ground arith

pub begin_rendezvous-Untouched :
    (valid : Text → Bool) (r : Registry) (q : Opening) (swept_at now : ℕ)
    → Untouched r (begin_rendezvous valid r q swept_at now).0
unfolding begin_rendezvous open_normalized commit_rendezvous remove_rendezvous
    sweep_expired_rendezvous allow_rendezvous_request record_rendezvous_request
begin_rendezvous-Untouched valid r q swept_at now = ground arith

pub finish_rendezvous-Untouched :
    (r : Registry) (p : Pending) (delivered : Bool)
    → Untouched r (finish_rendezvous r p delivered).0
unfolding finish_rendezvous
finish_rendezvous-Untouched r p delivered = ground arith

pub hint-Untouched :
    (valid : Text → Bool) (r : Registry) (c : Claim) (request_id public : Text)
    (private : List Text) (swept_at now : ℕ)
    → Untouched r (forward_rendezvous_hint valid r c request_id public private swept_at now).0
unfolding forward_rendezvous_hint sweep_expired_rendezvous
hint-Untouched valid r c request_id public private swept_at now = ground arith

pub close_rendezvous_from_app-Untouched :
    (r : Registry) (owner : AppOwner) (peer : Peer) (daemon_id attempt_id : Text)
    → Untouched r (close_rendezvous_from_app r owner peer daemon_id attempt_id).0
unfolding close_rendezvous_from_app remove_rendezvous
close_rendezvous_from_app-Untouched r owner peer daemon_id attempt_id = ground arith

pub close_rendezvous_from_daemon-Untouched :
    (r : Registry) (c : Claim) → Untouched r (close_rendezvous_from_daemon r c).0
unfolding close_rendezvous_from_daemon
close_rendezvous_from_daemon-Untouched r c = ground arith

pub open_direct-Untouched :
    (r : Registry) (c : Claim) (swept_at : ℕ)
    → Untouched r (open_direct_session_from_daemon r c swept_at).0
unfolding open_direct_session_from_daemon sweep_expired_rendezvous
open_direct-Untouched r c swept_at = ground arith

pub close_direct-Untouched :
    (r : Registry) (c : Claim) → Untouched r (close_direct_session_from_daemon r c).0
unfolding close_direct_session_from_daemon
close_direct-Untouched r c = ground arith

pub expire_rendezvous-Untouched :
    (r : Registry) (key : Text) (now : ℕ) → Untouched r (expire_rendezvous r key now)
unfolding expire_rendezvous
expire_rendezvous-Untouched r key now = ground arith
