-- ===== src/Connectivity/Machine/Cutoff.antt =====
-- Sequences of steps after DisconnectAppSession.
use agent_tunnel.Base.{
  ℕ, sym, ap, subst, inl, inr, ◌≡◌, ◌≢◌, Bool, true, none, List, [], ◌∷◌, arith, nat_eq,
}
use agent_tunnel.Base.Text.{Text, text_eq, trim}
use agent_tunnel.Base.Peer.{Peer, peer_eq}
use agent_tunnel.Base.Dict.{Dict, insert, has, lookup-insert}
use agent_tunnel.Connectivity.{Registry, AppOwner, LiveApp, ok}
use agent_tunnel.Connectivity.Apps.{register_app_if_valid}
use agent_tunnel.Connectivity.Revocation.{revoke_sessions, disconnect_app_session}
use agent_tunnel.Connectivity.Tunnels.{begin_relay_tunnel, Pending}
use agent_tunnel.Connectivity.Requests.{TunnelRequest, Env}
use agent_tunnel.Connectivity.Revocation.Sessions.{
  IsRevoked, begin-revoked, register_app-revoked, disconnect_app_session-IsRevoked,
}
use agent_tunnel.Connectivity.Machine.{Op, step}
use agent_tunnel.Connectivity.Machine.Books.Daemons.{
  disconnect_session-books, disconnect_user-books,
}
use agent_tunnel.Connectivity.Machine.Books.Tunnels.{begin-HasNoted, noted-accounts}
use agent_tunnel.Connectivity.Machine.Books.Steps.{
  Writes, by_request, by_session, by_user, step-books,
}

more_sessions :
    (revoked : Dict Text (Unit {0})) (key added : Text)
    → has key revoked ≡ true
    → has key (insert added tt revoked) ≡ true
unfolding has
more_sessions revoked key added h = ground (arith, lookup-insert added key tt revoked)

revoke_sessions-has :
    (apps : List LiveApp) (revoked : Dict Text (Unit {0})) (key : Text)
    → has key revoked ≡ true
    → has key (revoke_sessions apps revoked) ≡ true
unfolding revoke_sessions
revoke_sessions-has [] revoked key h = h
revoke_sessions-has (app ∷ apps) revoked key h =
    revoke_sessions-has apps (insert app.owner.app_session_id tt revoked) key
      (more_sessions revoked key app.owner.app_session_id h)

-- A revoked session stays so when the revoked sessions of the registry become these.
moved :
    (revoked later : Dict Text (Unit {0})) (key : Text)
    → later ≡ revoked
    → has key revoked ≡ true
    → has key later ≡ true
moved revoked later key e h = subst (λ m. has key m ≡ true) (sym e) h

write-IsRevoked :
    (r : Registry) (op : Op) (session_id : Text)
    → Writes op
    → IsRevoked r session_id
    → IsRevoked (step r op) session_id
unfolding step
write-IsRevoked r _ session_id (by_request q env) h =
    moved _ _ _ (noted-accounts _ _ _ _ _ (begin-HasNoted r q env)).0 h
write-IsRevoked r _ session_id (by_session other) h =
    moved _ _ _ (ap (λ b. b.0) (disconnect_session-books r other))
      (more_sessions r.revoked_apps (trim session_id) (trim other) h)
write-IsRevoked r _ session_id (by_user id now) h =
    moved _ _ _ (ap (λ b. b.0) (disconnect_user-books r id now))
      (revoke_sessions-has _ r.revoked_apps (trim session_id) h)

step-IsRevoked :
    (r : Registry) (op : Op) (session_id : Text)
    → IsRevoked r session_id
    → IsRevoked (step r op) session_id
step-IsRevoked r op session_id h = elim (step-books r op) [
  | inl e ↦ moved _ _ _ (ap (λ b. b.0) e) h
  | inr w ↦ write-IsRevoked r op session_id w h
]

-- What a sequence of steps leads to.
unfoldable pub run : Registry → List Op → Registry
run r [] = r
run r (op ∷ ops) = run (step r op) ops

run-IsRevoked :
    (ops : List Op) (r : Registry) (session_id : Text)
    → IsRevoked r session_id
    → IsRevoked (run r ops) session_id
unfolding run
run-IsRevoked [] r session_id h = h
run-IsRevoked (op ∷ ops) r session_id h =
    run-IsRevoked ops (step r op) session_id (step-IsRevoked r op session_id h)

abbrev ended : Registry → Text → List Op → Registry
ended r session_id ops = run (disconnect_app_session r session_id).0 ops

-- Once DisconnectAppSession has run for a session, no request of this session is given a tunnel,
-- whatever steps the relay takes in between.
pub begin-disconnect_app_session :
    (r : Registry) (session_id : Text) (ops : List Op) (q : TunnelRequest) (env : Env) (p : Pending)
    → q.owner.app_session_id ≡ session_id
    → (begin_relay_tunnel (run (disconnect_app_session r session_id).0 ops) q env).1 ≢ ok p
begin-disconnect_app_session r session_id ops q env p same =
    let revoked = run-IsRevoked ops _ session_id (disconnect_app_session-IsRevoked r session_id) in
    begin-revoked (ended r session_id ops) q env p (rw same revoked)

-- Once DisconnectAppSession has run for a session, no connection of this session is registered,
-- whatever steps the relay takes in between, and an attempt to do so changes nothing.
pub register_app-disconnect_app_session :
    (r : Registry) (session_id : Text) (ops : List Op) (owner : AppOwner) (peer : Peer)
    (valid : Bool) (now : ℕ)
    → owner.app_session_id ≡ session_id
    → let later = run (disconnect_app_session r session_id).0 ops in
      register_app_if_valid later owner peer valid now ≡ (later, none)
register_app-disconnect_app_session r session_id ops owner peer valid now same =
    let revoked = run-IsRevoked ops _ session_id (disconnect_app_session-IsRevoked r session_id) in
    register_app-revoked (ended r session_id ops) owner peer valid now (rw same revoked)
