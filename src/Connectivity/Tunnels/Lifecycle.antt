-- ===== src/Connectivity/Tunnels/Lifecycle.antt =====
-- The invariant of attempts and tokens under requestRelayTunnel.
use agent_tunnel.Base.{
  ℕ, ◌≡◌, refl, sym, subst, false, Option, none, some, List, inl, inr, arith, ◌==◌, nat_eq,
  Bool-cases, Option-cases,
}
use agent_tunnel.Base.Text.{Text, text_eq}
use agent_tunnel.Base.Dict.{
  Dict, lookup, insert, delete, lookup-delete, lookup-insert, insert-Distinct,
}
use agent_tunnel.Connectivity.{
  Registry, TunnelAttempt, TunnelToken, client, daemon, LiveDaemon, Result, ok, err, Effect,
}
use agent_tunnel.Connectivity.Removal.{
  remove_tunnel_attempt, remove_rendezvous, sweep_expired_tunnel_attempts,
}
use agent_tunnel.Connectivity.Limits.{allow_relay_tunnel_request, record_relay_tunnel_request}
use agent_tunnel.Connectivity.Tunnels.{
  drop_old_attempt, store_attempt, commit_relay_tunnel, commit_admitted, begin_normalized,
  begin_relay_tunnel, both_tokens, new_attempt,
}
use agent_tunnel.Connectivity.Requests.{
  normalize_request, request_key, admit_relay_tunnel, TunnelRequest, Env,
}
use agent_tunnel.Connectivity.Tunnels.Tokens.{WellFormed, IsTokenFor}
use agent_tunnel.Connectivity.Tunnels.Invariant.{Consistent, drop_old-Consistent, sweep-Consistent}

module _ (attempts : Dict Text TunnelAttempt) (tokens : Dict Text TunnelToken)
    (w : WellFormed attempts tokens) where
  -- A token that is not used any more.
  pub spend : (token : Text) → WellFormed attempts (delete token tokens)
  spend token = record {
    distinct = w.distinct;
    keyed = w.keyed;
    backed = λ t stored found. w.backed t stored (ground (arith, lookup-delete token t tokens));
  }

  -- A stored token is for no attempt under a free key.
  backed_elsewhere :
      (key t : Text) (stored : TunnelToken)
      → lookup key attempts ≡ none
      → lookup t tokens ≡ some stored
      → (key == stored.attempt_id) ≡ false
  backed_elsewhere key t stored free found =
      let (b, at, mine, fresh) = w.backed t stored found in ground arith

  enter_keyed :
      (a : TunnelAttempt) (k : Text) (c : TunnelAttempt)
      → lookup k (insert a.key a attempts) ≡ some c
      → c.key ≡ k
  enter_keyed a k c found = ground (arith, lookup-insert a.key k a attempts, w.keyed k c)

  -- A fresh attempt under a free key, with any one of its tokens.
  enter :
      (a : TunnelAttempt)
      → lookup a.key attempts ≡ none
      → WellFormed (insert a.key a attempts) tokens
  enter a free = record {
    distinct = insert-Distinct a.key a attempts w.distinct;
    keyed = enter_keyed a;
    backed = λ t stored found.
        let (b, at, mine, fresh) = w.backed t stored found in
        let other = backed_elsewhere a.key t stored free found in
        (b, ground (arith, lookup-insert a.key stored.attempt_id a attempts), mine, fresh);
  }

  draw :
      (token : Text) (stored : TunnelToken)
      → IsTokenFor attempts token stored
      → WellFormed attempts (insert token stored tokens)
  draw token stored h = record {
    distinct = w.distinct;
    keyed = w.keyed;
    backed = λ t s found. elim (Bool-cases (token == t)) [
      | inl e ↦
          let same : s ≡ stored = ground (arith, lookup-insert token t stored tokens) in
          let here : token ≡ t = ground arith in rw (same, sym here) h
      | inr e ↦ w.backed t s (ground (arith, lookup-insert token t stored tokens))
    ];
  }

store-Consistent :
    (r : Registry) (a : TunnelAttempt)
    → Consistent r
    → lookup a.key r.attempts ≡ none
    → a.app_redeemed ≡ false
    → a.daemon_redeemed ≡ false
    → Consistent (store_attempt r a)
unfolding store_attempt
store-Consistent r a w free app other =
    let at : lookup a.key (insert a.key a r.attempts) ≡ some a =
      ground (arith, lookup-insert a.key a.key a r.attempts) in
    let entered = enter r.attempts r.tokens w a free in
    let drawn =
      draw _ r.tokens entered a.app_token (record { attempt_id = a.key; actor = client })
        (a, at, refl, app) in
    draw _ _ drawn a.daemon_token (record { attempt_id = a.key; actor = daemon })
      (a, at, refl, other)

-- After the old attempt has gone its key is free.
lookup-drop_old :
    (r : Registry) (key : Text)
    → Consistent r
    → lookup key (drop_old_attempt r key).0.attempts ≡ none
unfolding drop_old_attempt remove_tunnel_attempt
lookup-drop_old r key w = elim (Option-cases (lookup key r.attempts)) [
  | inl e ↦ ground arith
  | inr (a, e) ↦ ground (arith, w.keyed key a e, lookup-delete key key r.attempts)
]

commit-Consistent :
    (r : Registry) (q : TunnelRequest) (live : LiveDaemon) (app_token daemon_token : Text)
    (env : Env)
    → Consistent r
    → Consistent (commit_relay_tunnel r q live app_token daemon_token env).0
unfolding commit_relay_tunnel record_relay_tunnel_request remove_rendezvous store_attempt
commit-Consistent r q live app_token daemon_token env w =
    let logged = record_relay_tunnel_request r q.owner.user_id env.now in
    let freed = (drop_old_attempt logged (request_key q)).0 in
    store-Consistent freed (new_attempt freed q live app_token daemon_token env.created_at)
      (drop_old-Consistent logged (request_key q) w) (lookup-drop_old logged (request_key q) w) refl
      refl

commit_admitted-Consistent :
    (r : Registry) (q : TunnelRequest) (env : Env) (swept : List Effect)
    (tokens : Option (Text × Text)) (admitted : Result LiveDaemon)
    → Consistent r
    → Consistent (commit_admitted r q env swept tokens admitted).0
unfolding commit_admitted
commit_admitted-Consistent r q env swept tokens (err e) w = w
commit_admitted-Consistent r q env swept none (ok live) w = w
commit_admitted-Consistent r q env swept (some (a, d)) (ok live) w =
    commit-Consistent r q live a d env w

-- The checks change only the log of the requests.
pub admit_frame :
    (r : Registry) (q : TunnelRequest) (now : ℕ)
    → (admit_relay_tunnel r q now).0
      ≡ record r { tunnel_requests = (admit_relay_tunnel r q now).0.tunnel_requests }
unfolding admit_relay_tunnel allow_relay_tunnel_request
admit_frame r q now = ground arith

admit-Consistent :
    (r : Registry) (q : TunnelRequest) (now : ℕ)
    → Consistent r
    → Consistent (admit_relay_tunnel r q now).0
admit-Consistent r q now w = subst (λ s. Consistent s) (sym (admit_frame r q now)) w

begin_normalized-Consistent :
    (r : Registry) (q : TunnelRequest) (env : Env)
    → Consistent r
    → Consistent (begin_normalized r q env).0
unfolding begin_normalized
begin_normalized-Consistent r q env w =
    let swept = (sweep_expired_tunnel_attempts r env.swept_at).0 in
    let admitted = admit_relay_tunnel swept q env.now in
    let kept = admit-Consistent swept q env.now (sweep-Consistent r env.swept_at w) in
    ground (
      arith,
      commit_admitted-Consistent admitted.0 q env (sweep_expired_tunnel_attempts r env.swept_at).2
          (both_tokens env) admitted.1 kept,
    )

pub begin-Consistent :
    (r : Registry) (q : TunnelRequest) (env : Env)
    → Consistent r
    → Consistent (begin_relay_tunnel r q env).0
unfolding begin_relay_tunnel
begin-Consistent r q env w = begin_normalized-Consistent r (normalize_request q) env w
