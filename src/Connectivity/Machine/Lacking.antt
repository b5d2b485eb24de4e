-- ===== src/Connectivity/Machine/Lacking.antt =====
-- A token that is not in the registry, under the operations on tunnels and daemons.
use agent_tunnel.Base.{
  ℕ, ◌≡◌, ◌≢◌, refl, sym, subst, Bool, true, false, Option, none, some, List, inl, inr, arith,
  nat_eq, Option-cases,
}
use agent_tunnel.Base.Text.{Text, text_eq, trim}
use agent_tunnel.Base.Peer.{peer_eq}
use agent_tunnel.Base.Dict.{Dict, lookup, insert, delete, lookup-insert, lookup-delete}
use agent_tunnel.Connectivity.{
  Registry, TunnelAttempt, TunnelToken, LiveDaemon, Effect, Result, ok, err, client, daemon,
}
use agent_tunnel.Connectivity.Removal.{
  remove_tunnel_attempt, remove_rendezvous, sweep_expired_tunnel_attempts,
  expire_unpaired_relay_tunnel,
}
use agent_tunnel.Connectivity.Limits.{record_relay_tunnel_request}
use agent_tunnel.Connectivity.Requests.{
  TunnelRequest, Env, normalize_request, request_key, admit_relay_tunnel,
}
use agent_tunnel.Connectivity.Tunnels.{
  drop_old_attempt, store_attempt, commit_relay_tunnel, commit_admitted, begin_normalized,
  begin_relay_tunnel, finish_relay_tunnel, both_tokens, Pending, new_attempt,
}
use agent_tunnel.Connectivity.Tunnels.Lifecycle.{admit_frame}
use agent_tunnel.Connectivity.Tunnels.SingleUse.{sweep-lacks}
use agent_tunnel.Connectivity.Redeem.{
  redeem_relay_tunnel_token, redeem_stored, redeem_attempt, mark_relay_tunnel_active,
  close_relay_tunnel, add_tunnel_closer, forget_tunnel_closer,
}

-- The token is not in the registry.
abbrev pub Lacks : Registry → Text → Type 0
Lacks r token = lookup token r.tokens ≡ none

-- The tokens that a request draws are others.
abbrev pub IsNotDrawn : Env → Text → Type 0
IsNotDrawn env token = (env.app_random ≢ some token) × (env.daemon_random ≢ some token)

less-Lacks :
    (tokens : Dict Text TunnelToken) (token s t : Text)
    → lookup token tokens ≡ none
    → lookup token (delete t (delete s tokens)) ≡ none
less-Lacks tokens token s t h =
    ground (arith, lookup-delete s token tokens, lookup-delete t token (delete s tokens))

remove_one-Lacks :
    (r : Registry) (a : TunnelAttempt) (token : Text)
    → Lacks r token
    → Lacks (remove_tunnel_attempt r a).0 token
unfolding remove_tunnel_attempt
remove_one-Lacks r a token h = less-Lacks r.tokens token a.app_token a.daemon_token h

drop_old-Lacks :
    (r : Registry) (key token : Text) → Lacks r token → Lacks (drop_old_attempt r key).0 token
unfolding drop_old_attempt
drop_old-Lacks r key token h = elim (Option-cases (lookup key r.attempts)) [
  | inl e ↦ ground arith
  | inr (a, e) ↦ ground (arith, remove_one-Lacks r a token h)
]

pub finish-Lacks :
    (r : Registry) (p : Pending) (delivered : Bool) (token : Text)
    → Lacks r token
    → Lacks (finish_relay_tunnel r p delivered).0 token
unfolding finish_relay_tunnel
finish-Lacks r p true token h = h
finish-Lacks r p false token h = elim (Option-cases (lookup p.key r.attempts)) [
  | inl e ↦ ground arith
  | inr (a, e) ↦ ground (arith, remove_one-Lacks r a token h)
]

pub close-Lacks :
    (r : Registry) (raw token : Text) → Lacks r token → Lacks (close_relay_tunnel r raw).0 token
unfolding close_relay_tunnel
close-Lacks r raw token h = elim (Option-cases (lookup (trim raw) r.attempts)) [
  | inl e ↦ ground arith
  | inr (a, e) ↦ ground (arith, remove_one-Lacks r a token h)
]

pub expire-Lacks :
    (r : Registry) (key : Text) (now : ℕ) (token : Text)
    → Lacks r token
    → Lacks (expire_unpaired_relay_tunnel r key now).0 token
unfolding expire_unpaired_relay_tunnel
expire-Lacks r key now token h = elim (Option-cases (lookup key r.attempts)) [
  | inl e ↦ ground arith
  | inr (a, e) ↦ ground (arith, remove_one-Lacks r a token h)
]

pub mark_active-Lacks :
    (r : Registry) (raw token : Text)
    → Lacks r token
    → Lacks (mark_relay_tunnel_active r raw).0 token
unfolding mark_relay_tunnel_active
mark_active-Lacks r raw token h = ground arith

pub add_closer-Lacks :
    (r : Registry) (raw : Text) (closer : ℕ) (token : Text)
    → Lacks r token
    → Lacks (add_tunnel_closer r raw closer).0 token
unfolding add_tunnel_closer
add_closer-Lacks r raw closer token h = ground arith

pub forget_closer-Lacks :
    (r : Registry) (raw : Text) (id : ℕ) (token : Text)
    → Lacks r token
    → Lacks (forget_tunnel_closer r raw id) token
unfolding forget_tunnel_closer
forget_closer-Lacks r raw id token h = ground arith

store-Lacks :
    (r : Registry) (a : TunnelAttempt) (token : Text)
    → (a.app_token ≢ token) × (a.daemon_token ≢ token)
    → Lacks r token
    → Lacks (store_attempt r a) token
unfolding store_attempt
store-Lacks r a token (app, other) h =
    let client_token : TunnelToken = record { attempt_id = a.key; actor = client } in
    let daemon_token : TunnelToken = record { attempt_id = a.key; actor = daemon } in
    ground (
      arith,
      lookup-insert a.app_token token client_token r.tokens,
      lookup-insert a.daemon_token token daemon_token (insert a.app_token client_token r.tokens),
    )

commit_admitted-Lacks :
    (r : Registry) (q : TunnelRequest) (env : Env) (swept : List Effect)
    (tokens : Option (Text × Text)) (admitted : Result LiveDaemon) (token : Text)
    → ((a d : Text) → tokens ≡ some (a, d) → (a ≢ token) × (d ≢ token))
    → Lacks r token
    → Lacks (commit_admitted r q env swept tokens admitted).0 token
unfolding commit_admitted commit_relay_tunnel remove_rendezvous record_relay_tunnel_request
    store_attempt
commit_admitted-Lacks r q env swept tokens (err e) token others h = h
commit_admitted-Lacks r q env swept none (ok live) token others h = h
commit_admitted-Lacks r q env swept (some (a, d)) (ok live) token others h =
    let freed =
      (drop_old_attempt (record_relay_tunnel_request r q.owner.user_id env.now)
        (request_key q)).0 in
    store-Lacks freed (new_attempt freed q live a d env.created_at) token (others a d refl) (
      drop_old-Lacks (record_relay_tunnel_request r q.owner.user_id env.now) (request_key q) token
        h)

both_tokens-others :
    (env : Env) (token : Text)
    → IsNotDrawn env token
    → (a d : Text) → both_tokens env ≡ some (a, d)
    → (a ≢ token) × (d ≢ token)
both_tokens-others env token (app, other) a d e = ground arith

admit-Lacks :
    (r : Registry) (q : TunnelRequest) (now : ℕ) (token : Text)
    → Lacks r token
    → Lacks (admit_relay_tunnel r q now).0 token
admit-Lacks r q now token h = subst (λ s. Lacks s token) (sym (admit_frame r q now)) h

begin_normalized-Lacks :
    (r : Registry) (q : TunnelRequest) (env : Env) (token : Text)
    → IsNotDrawn env token
    → Lacks r token
    → Lacks (begin_normalized r q env).0 token
unfolding begin_normalized
begin_normalized-Lacks r q env token others h =
    let swept = sweep_expired_tunnel_attempts r env.swept_at in
    let admitted = admit_relay_tunnel swept.0 q env.now in
    ground (
      arith,
      commit_admitted-Lacks admitted.0 q env swept.2 (both_tokens env) admitted.1 token
          (both_tokens-others env token others)
          (admit-Lacks swept.0 q env.now token (sweep-lacks r env.swept_at token h)),
    )

pub begin-Lacks :
    (r : Registry) (q : TunnelRequest) (env : Env) (token : Text)
    → IsNotDrawn env token
    → Lacks r token
    → Lacks (begin_relay_tunnel r q env).0 token
unfolding begin_relay_tunnel
begin-Lacks r q env token others h =
    begin_normalized-Lacks r (normalize_request q) env token others h

redeem_stored-Lacks :
    (r : Registry) (raw : Text) (now : ℕ) (stored : Option TunnelToken) (token : Text)
    → Lacks r token
    → Lacks (redeem_stored r raw now stored).0 token
unfolding redeem_stored redeem_attempt
redeem_stored-Lacks r raw now none token h = h
redeem_stored-Lacks r raw now (some stored) token h =
    elim (Option-cases (lookup stored.attempt_id r.attempts)) [
      | inl e ↦ ground (arith, lookup-delete raw token r.tokens)
      | inr (a, e) ↦ ground (arith, lookup-delete raw token r.tokens, remove_one-Lacks r a token h)
    ]

pub redeem-Lacks :
    (r : Registry) (raw : Text) (swept_at now : ℕ) (token : Text)
    → Lacks r token
    → Lacks (redeem_relay_tunnel_token r raw swept_at now).0 token
unfolding redeem_relay_tunnel_token
redeem-Lacks r raw swept_at now token h =
    let swept = (sweep_expired_tunnel_attempts r swept_at).0 in
    ground (
      arith,
      redeem_stored-Lacks swept (trim raw) now (lookup (trim raw) swept.tokens) token
          (sweep-lacks r swept_at token h),
    )
