-- ===== src/Connectivity/Revocation/Sessions.antt =====
-- What is left of an app session whose access has ended, and what it can still do.
use agent_tunnel.Base.{ℕ, ◌≡◌, ◌≢◌, sym, ap, subst, Bool, true, false, none, List, arith, nat_eq}
use agent_tunnel.Base.Text.{Text, text_eq, trim}
use agent_tunnel.Base.Peer.{Peer, peer_eq}
use agent_tunnel.Base.Dict.{has, lookup-insert}
use agent_tunnel.Connectivity.{Registry, AppOwner, TunnelAttempt, ok}
use agent_tunnel.Connectivity.Access.{app_owner_revoked, app_peer_active, app_owner_active}
use agent_tunnel.Connectivity.Apps.{register_app_if_valid}
use agent_tunnel.Connectivity.Removal.{
  remove_tunnel_attempts, remove_rendezvous, remove_active_direct, remove_each,
}
use agent_tunnel.Connectivity.Removal.Frame.{remove_each_frame}
use agent_tunnel.Connectivity.Tunnels.{Pending, begin_relay_tunnel}
use agent_tunnel.Connectivity.Requests.{TunnelRequest, Env, normalize_request, requester_active}
use agent_tunnel.Connectivity.Tunnels.Admission.{begin-Checked}
use agent_tunnel.Connectivity.Revocation.{disconnect_app_session}

-- The session is revoked: its id, without the blanks around it, is in the map.
abbrev pub IsRevoked : Registry → Text → Type 0
IsRevoked r session_id = has (trim session_id) r.revoked_apps ≡ true

pub remove_each-IsRevoked :
    (r : Registry) (l : List TunnelAttempt) (session_id : Text)
    → IsRevoked r session_id
    → IsRevoked (remove_each r l).0 session_id
remove_each-IsRevoked r l session_id h =
    subst (λ m. has (trim session_id) m ≡ true)
      (sym (ap (λ (s : Registry). s.revoked_apps) (remove_each_frame r l))) h

pub disconnect_app_session-IsRevoked :
    (r : Registry) (session_id : Text)
    → IsRevoked (disconnect_app_session r session_id).0 session_id
unfolding disconnect_app_session remove_rendezvous remove_active_direct remove_tunnel_attempts has
disconnect_app_session-IsRevoked r session_id =
    remove_each-IsRevoked _ _ session_id
      (ground (arith, lookup-insert (trim session_id) (trim session_id) tt r.revoked_apps))

-- A revoked session has no active connection.
revoked-inactive :
    (r : Registry) (q : TunnelRequest)
    → IsRevoked r q.owner.app_session_id
    → requester_active r q ≡ false
unfolding requester_active app_peer_active app_owner_active app_owner_revoked
revoked-inactive r q h = ground arith

-- No tunnel is begun for a revoked session.
pub begin-revoked :
    (r : Registry) (q : TunnelRequest) (env : Env) (p : Pending)
    → IsRevoked r q.owner.app_session_id
    → (begin_relay_tunnel r q env).1 ≢ ok p
unfolding normalize_request
begin-revoked r q env p h begun =
    let authorized = begin-Checked r q env p begun in
    let inactive = revoked-inactive r (normalize_request q) h in ground arith

-- No connection is registered for a revoked session.
pub register_app-revoked :
    (r : Registry) (owner : AppOwner) (peer : Peer) (valid : Bool) (now : ℕ)
    → IsRevoked r owner.app_session_id
    → register_app_if_valid r owner peer valid now ≡ (r, none)
unfolding register_app_if_valid app_owner_revoked
register_app-revoked r owner peer valid now h = ground arith
