-- ===== src/Connectivity/Tunnels/Capacity.antt =====
-- The number of tunnels of an app: countRelayTunnelAttemptsLocked under a request.
use agent_tunnel.Base.{
  ℕ, ◌≡◌, ◌≤◌, ◌<◌, refl, ap, Bool, true, not, ◌&&◌, Option, none, some, List, [], ◌∷◌, inl, inr,
  arith, ◌==◌, nat_eq, Bool-cases, Option-cases,
}
use agent_tunnel.Base.Text.{Text, text_eq}
use agent_tunnel.Base.Dict.{
  Dict, lookup, insert, count, count-delete_le, count-insert_le, count-insert_miss,
}
use agent_tunnel.Connectivity.{
  Registry, TunnelAttempt, AppOwner, Result, ok, err, Effect, LiveDaemon,
}
use agent_tunnel.Connectivity.Access.{same_app}
use agent_tunnel.Connectivity.Limits.{allow_relay_tunnel_request, record_relay_tunnel_request}
use agent_tunnel.Connectivity.Removal.{
  remove_tunnel_attempt, remove_rendezvous, remove_each, sweep_expired_tunnel_attempts,
}
use agent_tunnel.Connectivity.Tunnels.{
  drop_old_attempt, store_attempt, commit_relay_tunnel, commit_admitted, begin_normalized,
  begin_relay_tunnel, both_tokens, new_attempt,
}
use agent_tunnel.Connectivity.Requests.{
  normalize_request, request_key, admit_relay_tunnel, TunnelRequest, Env,
  count_relay_tunnel_attempts,
}
use agent_tunnel.Connectivity.Tunnels.Admission.{Admitted, admit-Admitted}

abbrev pub owned : AppOwner → Text → TunnelAttempt → Bool
owned owner key a = same_app a.app_owner owner

-- How many tunnels an app has.
abbrev pub in_flight : Registry → AppOwner → ℕ
in_flight r owner = count (owned owner) r.attempts

pub remove_each-in_flight :
    (r : Registry) (l : List TunnelAttempt) (owner : AppOwner)
    → in_flight (remove_each r l).0 owner ≤ in_flight r owner
unfolding remove_each remove_tunnel_attempt
remove_each-in_flight r [] owner = omega arith
remove_each-in_flight r (a ∷ l) owner = ground (
  arith,
  remove_each-in_flight (remove_tunnel_attempt r a).0 l owner,
  count-delete_le (owned owner) a.key r.attempts,
)

pub sweep-in_flight :
    (r : Registry) (now : ℕ) (owner : AppOwner)
    → in_flight (sweep_expired_tunnel_attempts r now).0 owner ≤ in_flight r owner
unfolding sweep_expired_tunnel_attempts
sweep-in_flight r now owner = remove_each-in_flight r _ owner

-- `same_app` is an equivalence where it holds.
same_app-transports : (a b c : AppOwner) → same_app a b ≡ true → same_app c a ≡ same_app c b
same_app-transports a b c h = grind arith

drop_old-count :
    (r : Registry) (key : Text) (p : Text → TunnelAttempt → Bool)
    → count p (drop_old_attempt r key).0.attempts ≤ count p r.attempts
unfolding drop_old_attempt remove_tunnel_attempt
drop_old-count r key p = elim (Option-cases (lookup key r.attempts)) [
  | inl e ↦ ground arith
  | inr (a, e) ↦ ground (arith, count-delete_le p a.key r.attempts)
]

count-ext :
    (p q : Text → TunnelAttempt → Bool) (m : Dict Text TunnelAttempt)
    → ((k : Text) (a : TunnelAttempt) → p k a ≡ q k a)
    → count p m ≡ count q m
unfolding count
count-ext p q [] h = refl
count-ext p q ((k, a) ∷ m) h = ground (arith, h k a, count-ext p q m h)

-- A dictionary of tunnels that has room for one more of its owner.
insert-count :
    (m : Dict Text TunnelAttempt) (a : TunnelAttempt) (owner : AppOwner) (key : Text)
    → count (λ j w. not (j == key) && same_app w.app_owner a.app_owner) m < 4
    → count (owned owner) m ≤ 4
    → count (owned owner) (insert key a m) ≤ 4
insert-count m a owner key room bound = elim (Bool-cases (same_app a.app_owner owner)) [
  | inl e ↦
      let others : count (λ j w. not (j == key) && same_app w.app_owner a.app_owner) m
          ≡ count (λ j w. not (j == key) && owned owner j w) m =
        count-ext _ _ m λ k w.
          ap (λ b. not (k == key) && b) (same_app-transports a.app_owner owner w.app_owner e) in
      ground (arith, count-insert_le (owned owner) key a m)
  | inr e ↦ ground (arith, count-insert_miss (owned owner) key a m e)
]

commit-in_flight :
    (r : Registry) (q : TunnelRequest) (live : LiveDaemon) (app_token daemon_token : Text)
    (env : Env) (owner : AppOwner)
    → count_relay_tunnel_attempts r q.owner (request_key q) < 4
    → in_flight r owner ≤ 4
    → in_flight (commit_relay_tunnel r q live app_token daemon_token env).0 owner ≤ 4
unfolding commit_relay_tunnel record_relay_tunnel_request remove_rendezvous store_attempt
    count_relay_tunnel_attempts
commit-in_flight r q live app_token daemon_token env owner room bound =
    let logged = record_relay_tunnel_request r q.owner.user_id env.now in
    let freed = (drop_old_attempt logged (request_key q)).0 in
    let key = request_key q in
    let others =
      drop_old-count logged key (λ j w. not (j == key) && same_app w.app_owner q.owner) in
    let all = drop_old-count logged key (owned owner) in
    insert-count freed.attempts (new_attempt freed q live app_token daemon_token env.created_at)
      owner key (omega arith) (omega arith)

pub admit-attempts :
    (r : Registry) (q : TunnelRequest) (now : ℕ)
    → (admit_relay_tunnel r q now).0.attempts ≡ r.attempts
unfolding admit_relay_tunnel allow_relay_tunnel_request
admit-attempts r q now = ground arith

Admitted-room :
    (r : Registry) (q : TunnelRequest) (now : ℕ) (live : LiveDaemon)
    → Admitted r q now live
    → count_relay_tunnel_attempts r q.owner (request_key q) < 4
Admitted-room r q now live a = a.in_flight

within : (m n : ℕ) → m ≤ n → n ≤ 4 → m ≤ 4
within m n below bound = omega arith

-- An admitted request has room beside the others of its app.
admit-room :
    (r : Registry) (q : TunnelRequest) (now : ℕ) (live : LiveDaemon)
    → (admit_relay_tunnel r q now).1 ≡ ok live
    → count_relay_tunnel_attempts (admit_relay_tunnel r q now).0 q.owner (request_key q) < 4
unfolding count_relay_tunnel_attempts
admit-room r q now live h =
    let admitted = admit-Admitted r q now live h in
    rw (admit-attempts r q now) (Admitted-room r q now live admitted)

commit_admitted-in_flight :
    (r : Registry) (q : TunnelRequest) (env : Env) (swept : List Effect)
    (tokens : Option (Text × Text)) (admitted : Result LiveDaemon) (owner : AppOwner)
    → ((live : LiveDaemon)
        → admitted ≡ ok live
        → count_relay_tunnel_attempts r q.owner (request_key q) < 4)
    → in_flight r owner ≤ 4
    → in_flight (commit_admitted r q env swept tokens admitted).0 owner ≤ 4
unfolding commit_admitted
commit_admitted-in_flight r q env swept tokens (err e) owner room bound = bound
commit_admitted-in_flight r q env swept none (ok live) owner room bound = bound
commit_admitted-in_flight r q env swept (some (a, d)) (ok live) owner room bound =
    commit-in_flight r q live a d env owner (room live refl) bound

begin_normalized-in_flight :
    (r : Registry) (q : TunnelRequest) (env : Env) (owner : AppOwner)
    → in_flight r owner ≤ 4
    → in_flight (begin_normalized r q env).0 owner ≤ 4
unfolding begin_normalized
begin_normalized-in_flight r q env owner bound =
    let swept = sweep_expired_tunnel_attempts r env.swept_at in
    let admitted = admit_relay_tunnel swept.0 q env.now in
    let kept : in_flight admitted.0 owner ≤ 4 =
      rw (admit-attempts swept.0 q env.now)
        (within _ _ (sweep-in_flight r env.swept_at owner) bound) in
    ground (
      arith,
      commit_admitted-in_flight admitted.0 q env swept.2 (both_tokens env) admitted.1 owner
          (admit-room swept.0 q env.now) kept,
    )

-- No request takes an app beyond four tunnels, whosever request it is.
pub begin-in_flight :
    (r : Registry) (q : TunnelRequest) (env : Env) (owner : AppOwner)
    → in_flight r owner ≤ 4
    → in_flight (begin_relay_tunnel r q env).0 owner ≤ 4
unfolding begin_relay_tunnel
begin-in_flight r q env owner bound =
    begin_normalized-in_flight r (normalize_request q) env owner bound
