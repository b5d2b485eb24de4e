-- ===== src/Connectivity/Machine/UserCutoff.antt =====
-- Sequences of steps after DisconnectUser.
use agent_tunnel.Base.{
  ℕ, ◌≤◌, sym, ap, ◌∙◌, subst, inl, inr, Bool-cases, some, All, ◌≡◌, ◌≢◌, Bool, none, List, [], ◌∷◌,
  arith, ◌==◌, nat_eq,
}
use agent_tunnel.Base.Text.{text_eq}
use agent_tunnel.Base.Peer.{Peer, peer_eq}
use agent_tunnel.Base.Dict.{Dict, insert, lookup, lookup-insert, lookup-insert_self}
use agent_tunnel.Connectivity.{Registry, AppOwner, LiveApp, ok}
use agent_tunnel.Connectivity.Apps.{register_app_if_valid}
use agent_tunnel.Connectivity.Revocation.{disconnect_app_session, disconnect_user}
use agent_tunnel.Connectivity.Tunnels.{begin_relay_tunnel, Pending}
use agent_tunnel.Connectivity.Requests.{TunnelRequest, Env}
use agent_tunnel.Connectivity.Machine.{Op, step, user_disconnected}
use agent_tunnel.Connectivity.Machine.Books.Daemons.{
  disconnect_session-books, disconnect_user-books,
}
use agent_tunnel.Connectivity.Machine.Books.Tunnels.{begin-HasNoted, noted-accounts}
use agent_tunnel.Connectivity.Machine.Books.Steps.{
  Writes, by_request, by_session, by_user, step-books,
}
use agent_tunnel.Connectivity.Requests.{normalize_request}
use agent_tunnel.Connectivity.Access.{app_owner_revoked, is_cut_off}
use agent_tunnel.Connectivity.Tunnels.Admission.{begin-Checked}
use agent_tunnel.Connectivity.Machine.Authorization.{IsCurrent, active-IsConnected}
use agent_tunnel.Connectivity.Machine.Cutoff.{run}

-- The sessions of the user that began up to a time are cut off.
abbrev IsCutAt : Registry → ℕ → ℕ → Type 0
IsCutAt r user now = (cutoff : ℕ) × (lookup user r.user_app_cutoff ≡ some cutoff) × (now ≤ cutoff)

-- The clock that DisconnectUser reads for this user does not run backwards.
abbrev pub IsLater : ℕ → ℕ → Op → Type 0
IsLater user now (user_disconnected other at) = other ≡ user → now ≤ at
IsLater user now op = Unit

cut-kept :
    (r s : Registry) (user now : ℕ)
    → s.user_app_cutoff ≡ r.user_app_cutoff
    → IsCutAt r user now
    → IsCutAt s user now
cut-kept r s user now e (cutoff, found, late) = (cutoff, ap (lookup user) e ∙ found, late)

more_cut :
    (cutoffs : Dict ℕ ℕ) (user other now at cutoff : ℕ)
    → lookup user cutoffs ≡ some cutoff
    → now ≤ cutoff
    → (other ≡ user → now ≤ at)
    → (c : ℕ) × (lookup user (insert other at cutoffs) ≡ some c) × (now ≤ c)
more_cut cutoffs user other now at cutoff found late later = elim (Bool-cases (other == user)) [
  | inl e ↦ (at, ground (arith, e, lookup-insert other user at cutoffs), later (ground (arith, e)))
  | inr e ↦ (cutoff, ground (arith, e, found, lookup-insert other user at cutoffs), late)
]

write-IsCutAt :
    (r : Registry) (op : Op) (user now : ℕ)
    → Writes op
    → IsLater user now op
    → IsCutAt r user now
    → IsCutAt (step r op) user now
unfolding step
write-IsCutAt r _ user now (by_request q env) later h =
    cut-kept r (begin_relay_tunnel r q env).0 user now
      (noted-accounts _ _ _ _ _ (begin-HasNoted r q env)).1 h
write-IsCutAt r _ user now (by_session other) later h =
    cut-kept r (disconnect_app_session r other).0 user now
      (ap (λ b. b.1) (disconnect_session-books r other)) h
write-IsCutAt r _ user now (by_user other at) later (cutoff, found, late) =
    subst (λ m. (c : ℕ) × (lookup user m ≡ some c) × (now ≤ c))
      (sym (ap (λ b. b.1) (disconnect_user-books r other at)))
      (more_cut r.user_app_cutoff user other now at cutoff found late later)

run-IsCutAt :
    (ops : List Op) (r : Registry) (user now : ℕ)
    → All (IsLater user now) ops
    → IsCutAt r user now
    → IsCutAt (run r ops) user now
unfolding run
run-IsCutAt [] r user now later h = h
run-IsCutAt (op ∷ ops) r user now (later, laters) h =
    run-IsCutAt ops (step r op) user now laters (elim (step-books r op) [
      | inl e ↦ cut-kept r (step r op) user now (ap (λ b. b.1) e) h
      | inr w ↦ write-IsCutAt r op user now w later h
    ])

pub disconnect_user-IsCutAt :
    (r : Registry) (user now : ℕ) → IsCutAt (disconnect_user r user now).0 user now
disconnect_user-IsCutAt r user now = (
  now,
  ap (λ b. lookup user b.1) (disconnect_user-books r user now)
      ∙ lookup-insert_self user now r.user_app_cutoff,
  omega arith,
)

-- A session that began up to the cut-off is not current.
cut-old :
    (r : Registry) (owner : AppOwner) (user now : ℕ)
    → owner.user_id ≡ user
    → owner.session_created_at ≤ now
    → IsCutAt r user now
    → ¬ IsCurrent r owner
cut-old r owner user now own old (cutoff, found, late) (_, young) =
    let younger = (young cutoff (ap (λ u. lookup u r.user_app_cutoff) own ∙ found)).0 in omega arith

-- After DisconnectUser no tunnel is begun for a session of the user that had begun by then, whatever
-- steps the relay takes in between: if the connection by which the request comes, where there is one,
-- is of such a session too, and the clock of DisconnectUser does not run backwards for the user.
pub begin-disconnect_user :
    (r : Registry) (user now : ℕ) (ops : List Op) (q : TunnelRequest) (env : Env) (p : Pending)
    → All (IsLater user now) ops
    → q.owner.user_id ≡ user
    → q.owner.session_created_at ≤ now
    → let later = run (disconnect_user r user now).0 ops in
      ((app : LiveApp)
        → lookup q.app_peer later.apps ≡ some app
        → app.owner.session_created_at ≤ now)
      → (begin_relay_tunnel later q env).1 ≢ ok p
unfolding normalize_request
begin-disconnect_user r user now ops q env p laters own old connection begun =
    let later = run (disconnect_user r user now).0 ops in
    let cut = run-IsCutAt ops _ user now laters (disconnect_user-IsCutAt r user now) in
    let asked = normalize_request q in
    elim (active-IsConnected later asked (begin-Checked later q env p begun).requester) [
      | inl (app, found, of, current) ↦
          cut-old later app.owner user now (of.0 ∙ own) (connection app found) cut current
      | inr (_, _, current) ↦ cut-old later asked.owner user now own old cut current
    ]

-- After DisconnectUser no connection of a session of the user that had begun by then is registered,
-- whatever steps the relay takes in between, if the clock of DisconnectUser does not run backwards for
-- the user.
pub register_app-disconnect_user :
    (r : Registry) (user now : ℕ) (ops : List Op) (owner : AppOwner) (peer : Peer) (valid : Bool)
    (at : ℕ)
    → All (IsLater user now) ops
    → owner.user_id ≡ user
    → owner.session_created_at ≤ now
    → let later = run (disconnect_user r user now).0 ops in
      register_app_if_valid later owner peer valid at ≡ (later, none)
unfolding register_app_if_valid app_owner_revoked is_cut_off
register_app-disconnect_user r user now ops owner peer valid at laters own old =
    let (cutoff, found, late) =
      run-IsCutAt ops (disconnect_user r user now).0 user now laters
        (disconnect_user-IsCutAt r user now) in
    ground (arith, own, old, late, found)
