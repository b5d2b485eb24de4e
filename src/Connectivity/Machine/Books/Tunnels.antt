-- ===== src/Connectivity/Machine/Books/Tunnels.antt =====
-- The request for a tunnel and the books: only the times of the requests change.
use agent_tunnel.Base.{
  ℕ, ◌≡◌, refl, ap, ◌∙◌, ◌||◌, subst, ◌⊎◌, inl, inr, Bool, true, false, Option, none, some, List,
  arith, nat_eq, Bool-cases, ◌<◌, length,
}
use agent_tunnel.Base.Text.{Text, text_eq, is_empty}
use agent_tunnel.Base.Peer.{peer_eq}
use agent_tunnel.Base.Dict.{Dict}
use agent_tunnel.Connectivity.{Registry, LiveDaemon, Effect, Result, ok, err}
use agent_tunnel.Connectivity.Limits.{
  recent_requests, record_request, allow_relay_tunnel_request, record_relay_tunnel_request,
}
use agent_tunnel.Connectivity.Removal.{
  remove_tunnel_attempt, remove_rendezvous, sweep_expired_tunnel_attempts,
}
use agent_tunnel.Connectivity.Requests.{
  TunnelRequest, Env, normalize_request, request_key, admit_relay_tunnel,
}
use agent_tunnel.Connectivity.Tunnels.{
  drop_old_attempt, store_attempt, commit_relay_tunnel, commit_admitted, begin_normalized,
  begin_relay_tunnel, both_tokens,
}
use agent_tunnel.Connectivity.Machine.Books.{Accounts, accounts}
use agent_tunnel.Connectivity.Machine.Books.Apps.{sweep-accounts}

-- Other times of requests.
abbrev pub with_requests : Accounts → Dict ℕ (List ℕ) → Accounts
with_requests b requests = ((b.0.0, b.0.1, requests), b.1)

drop_old-accounts : (r : Registry) (key : Text) → accounts (drop_old_attempt r key).0 ≡ accounts r
unfolding drop_old_attempt remove_tunnel_attempt
drop_old-accounts r key = ground arith

commit-accounts :
    (r : Registry) (q : TunnelRequest) (live : LiveDaemon) (a d : Text) (env : Env)
    → accounts (commit_relay_tunnel r q live a d env).0
      ≡ with_requests (accounts r) (record_request r.tunnel_requests q.owner.user_id env.now)
unfolding commit_relay_tunnel store_attempt remove_rendezvous record_relay_tunnel_request
commit-accounts r q live a d env =
    drop_old-accounts (record_relay_tunnel_request r q.owner.user_id env.now) (request_key q)

-- What a request leaves, with the answer that it gets: the times of its user may be pruned, and the
-- request is noted just if it is accepted.
abbrev pub HasNoted : Accounts → ℕ → ℕ → Accounts → Bool → Type 0
HasNoted b user now c accepted =
    let pruned = recent_requests b.0.2 user now in
    ((accepted ≡ false) × ((c ≡ b) ⊎ (c ≡ with_requests b pruned.0)))
    ⊎ ((accepted ≡ true)
        × (length pruned.1 < 10)
        × (c ≡ with_requests b (record_request pruned.0 user now)))

abbrev pub is_ok {ℓ} : {A : Type ℓ} → Result A → Bool
is_ok (ok a) = true
is_ok (err e) = false

-- What the checks leave: the times as they were, or pruned, and pruned if they admit the request.
abbrev HasAdmitted : Registry → TunnelRequest → ℕ → Registry → Result LiveDaemon → Type 0
HasAdmitted r q now s admitted =
    let pruned = recent_requests r.tunnel_requests q.owner.user_id now in
    ((is_ok admitted ≡ false) × (s ≡ r))
    ⊎ ((s ≡ record r { tunnel_requests = pruned.0 })
        × ((is_ok admitted ≡ false) ⊎ (length pruned.1 < 10)))

admit-HasAdmitted :
    (r : Registry) (q : TunnelRequest) (now : ℕ)
    → HasAdmitted r q now (admit_relay_tunnel r q now).0 (admit_relay_tunnel r q now).1
unfolding admit_relay_tunnel allow_relay_tunnel_request
admit-HasAdmitted r q now = ground arith

commit_admitted-HasNoted :
    (r s : Registry) (q : TunnelRequest) (env : Env) (swept : List Effect)
    (tokens : Option (Text × Text)) (admitted : Result LiveDaemon)
    → HasAdmitted r q env.now s admitted
    → HasNoted
        (accounts r)
        q.owner.user_id
        env.now
        (accounts (commit_admitted s q env swept tokens admitted).0)
        (is_ok (commit_admitted s q env swept tokens admitted).1)
unfolding commit_admitted
commit_admitted-HasNoted r s q env swept tokens (err e) (inl (f, same)) =
    inl (refl, inl (ap accounts same))
commit_admitted-HasNoted r s q env swept tokens (err e) (inr (same, f)) =
    inl (refl, inr (ap accounts same))
commit_admitted-HasNoted r s q env swept none (ok live) (inl (f, same)) =
    inl (refl, inl (ap accounts same))
commit_admitted-HasNoted r s q env swept none (ok live) (inr (same, f)) =
    inl (refl, inr (ap accounts same))
commit_admitted-HasNoted r s q env swept (some (a, d)) (ok live) (inl (f, same)) =
    absurd (ground (arith, f))
commit_admitted-HasNoted r s q env swept (some (a, d)) (ok live) (inr (same, few)) = inr (
  refl,
  ground (arith, few),
  commit-accounts s q live a d env
      ∙ ap
          (λ (x : Registry).
            with_requests (accounts x) (record_request x.tunnel_requests q.owner.user_id env.now))
          same,
)

abbrev is_unnamed : TunnelRequest → Bool
is_unnamed q = is_empty q.owner.device_fingerprint || is_empty q.daemon_id || is_empty q.attempt_id

begin_normalized-HasNoted :
    (r : Registry) (q : TunnelRequest) (env : Env)
    → HasNoted
        (accounts r)
        q.owner.user_id
        env.now
        (accounts (begin_normalized r q env).0)
        (is_ok (begin_normalized r q env).1)
unfolding begin_normalized
begin_normalized-HasNoted r q env = elim (Bool-cases (is_unnamed q)) [
  | inl e ↦ rw (e, begin_normalized) (inl (refl, inl refl))
  | inr e ↦
      let (swept, removed, effects) = sweep_expired_tunnel_attempts r env.swept_at in
      let (checked, admitted) = admit_relay_tunnel swept q env.now in
      let (after, answer, sent) =
        commit_admitted checked q env effects (both_tokens env) admitted in
      rw (e, begin_normalized)
        (subst (λ b. HasNoted b q.owner.user_id env.now (accounts after) (is_ok answer))
          (sweep-accounts r env.swept_at)
          (commit_admitted-HasNoted swept checked q env effects (both_tokens env) admitted
            (admit-HasAdmitted swept q env.now)))
]

pub begin-HasNoted :
    (r : Registry) (q : TunnelRequest) (env : Env)
    → HasNoted
        (accounts r)
        q.owner.user_id
        env.now
        (accounts (begin_relay_tunnel r q env).0)
        (is_ok (begin_relay_tunnel r q env).1)
unfolding begin_relay_tunnel normalize_request
begin-HasNoted r q env = begin_normalized-HasNoted r (normalize_request q) env

-- Neither revocations nor daemons are written.
pub noted-accounts :
    (b c : Accounts) (user now : ℕ) (accepted : Bool)
    → HasNoted b user now c accepted
    → (c.0.0 ≡ b.0.0) × (c.0.1 ≡ b.0.1) × (c.1 ≡ b.1)
noted-accounts b c user now accepted (inl (_, inl e)) =
    (ap (λ a. a.0.0) e, ap (λ a. a.0.1) e, ap (λ a. a.1) e)
noted-accounts b c user now accepted (inl (_, inr e)) =
    (ap (λ a. a.0.0) e, ap (λ a. a.0.1) e, ap (λ a. a.1) e)
noted-accounts b c user now accepted (inr (_, _, e)) =
    (ap (λ a. a.0.0) e, ap (λ a. a.0.1) e, ap (λ a. a.1) e)
