-- ===== src/Session/Ownership.antt =====
-- Who may end or change a session.
use agent_tunnel.Base.{
  ℕ, ◌≡◌, ◌≢◌, refl, Bool, true, false, not, none, some, [], ◌∷◌, arith, ◌==◌, nat_eq,
  if◌then◌else◌, Option-cases, Bool-cases, inl, inr,
}
use agent_tunnel.Base.Text.{Text, is_empty, trim, text_eq}
use agent_tunnel.Base.Peer.{Peer, conn, peer_eq}
use agent_tunnel.Base.Dict.{
  lookup, insert, lookup-insert, lookup-insert_self, lookup-delete, lookup-retain, filter_option,
}
use agent_tunnel.Session.{
  SessionInfo, SessionOwner, LiveSession, Registry, closed, deactivated, register_owned,
  disconnect_if_owner, set_launch_source_for_user, set_source, disconnect_user_sessions,
  disconnect_agent_token_sessions, disconnect_matching,
}

-- A connection whose session another one took over cannot end the session of its successor.
pub disconnect-register_replaced :
    (r : Registry) (info : SessionInfo) (owner : SessionOwner) (old new : Peer)
    → old ≢ new
    → disconnect_if_owner (register_owned r info owner new).0 info.session_id old
      ≡ ((register_owned r info owner new).0, false, [])
unfolding disconnect_if_owner register_owned
disconnect-register_replaced r info owner old new h = ground (
  arith,
  lookup-insert info.session_id info.session_id (record { info = info; owner = owner; peer = new })
      r,
)

-- The connection that has registered a session ends it, and no other session is touched.
pub disconnect-register_self :
    (r : Registry) (info : SessionInfo) (owner : SessionOwner) (n : ℕ) (other : Text)
    → let registered = (register_owned r info owner (conn n)).0 in
      let (after, done, effects) = disconnect_if_owner registered info.session_id (conn n) in
      (done ≡ true)
      × (effects ≡ deactivated (conn n) ∷ closed (conn n) ∷ [])
      × (lookup other after ≡ (if info.session_id == other then none else lookup other r))
unfolding disconnect_if_owner register_owned
disconnect-register_self r info owner n other =
    let live : LiveSession = record { info = info; owner = owner; peer = conn n } in
    ground (
      arith,
      lookup-insert_self info.session_id live r,
      lookup-delete info.session_id other (insert info.session_id live r),
      lookup-insert info.session_id other live r,
    )

-- Exactly the user's sessions are ended.
pub lookup-disconnect_user :
    (r : Registry) (user : ℕ) (id : Text)
    → lookup id (disconnect_user_sessions r user).0
      ≡ filter_option (λ live. not (live.owner.user_id == user)) (lookup id r)
unfolding disconnect_user_sessions disconnect_matching
lookup-disconnect_user r user id = lookup-retain _ id r

-- Exactly the sessions of the agent token are ended.
pub lookup-disconnect_agent_token :
    (r : Registry) (token id : Text)
    → lookup id (disconnect_agent_token_sessions r token).0
      ≡ filter_option (λ live. not (live.owner.agent_token_id == token)) (lookup id r)
unfolding disconnect_agent_token_sessions disconnect_matching
lookup-disconnect_agent_token r token id = lookup-retain _ id r

abbrev with_source : LiveSession → Text → LiveSession
with_source live source = record live { info = record (live.info) { launch_source = source } }

-- What a change of the launch source may be: the session is the user's own, and nothing else
-- changes; or it is refused and nothing changes.
abbrev pub SourceSet : Registry → Text → ℕ → Text → Text → Registry × Bool → Type 0
SourceSet r id user source other (after, done) =
    (done ≡ true
      → (live : LiveSession) × (lookup id r ≡ some live)
        × (live.owner.user_id ≡ user)
        × (lookup id after ≡ some (with_source live source)))
    × (done ≡ false → after ≡ r)
    × (id ≢ other → lookup other after ≡ lookup other r)

set_source-SourceSet :
    (r : Registry) (id : Text) (user : ℕ) (source other : Text)
    → SourceSet r id user source other (set_source r id user source)
unfolding set_source
set_source-SourceSet r id user source other = elim (Option-cases (lookup id r)) [
  | inl e ↦ rw (e, set_source) ((λ h. cc), (λ h. refl), (λ h. refl))
  | inr (live, e) ↦
      let marked = with_source live source in
      let kept = lookup-insert id other marked r in
      rw (e, set_source)
        (
          (λ h. (live, refl, ground arith, ground (arith, lookup-insert_self id marked r))),
          (λ h. ground arith),
          (λ h. ground (arith, kept)),
        )
]

-- The launch source of a session is set for its own user and for no other, and nothing else of the
-- registry changes.
pub set_launch_source_for_user-SourceSet :
    (r : Registry) (id : Text) (user : ℕ) (source other : Text)
    → SourceSet r id user (trim source) other (set_launch_source_for_user r id user source)
unfolding set_launch_source_for_user
set_launch_source_for_user-SourceSet r id user source other =
    elim (Bool-cases (is_empty (trim source))) [
      | inl e ↦ rw (e, set_launch_source_for_user) ((λ h. cc), (λ h. refl), (λ h. refl))
      | inr e ↦
          rw (e, set_launch_source_for_user) (set_source-SourceSet r id user (trim source) other)
    ]
