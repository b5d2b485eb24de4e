-- ===== src/Connectivity/Machine/Invariant.antt =====
-- What it is that the tunnels of a registry are in order, and the operations on tunnels.
use agent_tunnel.Base.{
  ℕ, ◌≡◌, ◌≤◌, refl, sym, ap, subst, Bool, true, false, Option, none, some, [], ◌∷◌, inl, inr,
  arith, nat_eq, Option-cases,
}
use agent_tunnel.Base.Text.{Text, text_eq, trim}
use agent_tunnel.Base.Peer.{peer_eq}
use agent_tunnel.Base.Dict.{Dict, lookup, insert, count, count-update_le}
use agent_tunnel.Connectivity.{
  Registry, TunnelAttempt, TunnelToken, AppOwner, Actor, client, daemon,
}
use agent_tunnel.Connectivity.Access.{same_app}
use agent_tunnel.Connectivity.Removal.{
  remove_tunnel_attempt, remove_tunnel_attempts, remove_each, sweep_expired_tunnel_attempts,
  expire_unpaired_relay_tunnel,
}
use agent_tunnel.Connectivity.Redeem.{
  mark_redeemed, redeem_relay_tunnel_token, redeem_stored, redeem_attempt, close_relay_tunnel,
}
use agent_tunnel.Connectivity.Tunnels.{Pending, begin_relay_tunnel, finish_relay_tunnel}
use agent_tunnel.Connectivity.Requests.{TunnelRequest, Env}
use agent_tunnel.Connectivity.Tunnels.Tokens.{WellFormed}
use agent_tunnel.Connectivity.Tunnels.Invariant.{
  remove_tunnel_attempts-Consistent, sweep-Consistent, expire-Consistent, close-Consistent,
  finish-Consistent,
}
use agent_tunnel.Connectivity.Tunnels.Lifecycle.{begin-Consistent}
use agent_tunnel.Connectivity.Tunnels.Redemption.{redeem-Consistent}
use agent_tunnel.Connectivity.Tunnels.Capacity.{
  in_flight, owned, begin-in_flight, remove_each-in_flight, sweep-in_flight,
}

-- The tunnels of a registry are in order.
pub record InOrder (attempts : Dict Text TunnelAttempt) (tokens : Dict Text TunnelToken)
    : Type 0 where
  pub backed : WellFormed attempts tokens
  pub capacity : (owner : AppOwner) → count (owned owner) attempts ≤ 4

abbrev pub Tidy : Registry → Type 0
Tidy r = InOrder r.attempts r.tokens

below : (m n : ℕ) → m ≤ n → n ≤ 4 → m ≤ 4
below m n le bound = omega arith

module _ (m n : Dict Text TunnelAttempt) (t u : Dict Text TunnelToken) (w : InOrder m t) where
  -- An operation that leaves the tunnels alone.
  pub untouched : (n ≡ m) × (u ≡ t) → InOrder n u
  untouched (attempts, tokens) =
      subst (λ a. InOrder a u) (sym attempts) (subst (InOrder m) (sym tokens) w)

  -- An operation that keeps the tokens in order and leaves no app with more tunnels.
  pub shrink :
      WellFormed n u
      → ((owner : AppOwner) → count (owned owner) n ≤ count (owned owner) m)
      → InOrder n u
  shrink kept less = record {
    backed = kept;
    capacity = λ owner. below _ _ (less owner) (w.capacity owner);
  }

pub remove-Tidy :
    (r : Registry) (p : TunnelAttempt → Bool) → Tidy r → Tidy (remove_tunnel_attempts r p).0
unfolding remove_tunnel_attempts
remove-Tidy r p w = record {
  backed = remove_tunnel_attempts-Consistent r p w.backed;
  capacity = λ owner. below _ _ (remove_each-in_flight r _ owner) (w.capacity owner);
}

pub sweep-Tidy : (r : Registry) (now : ℕ) → Tidy r → Tidy (sweep_expired_tunnel_attempts r now).0
sweep-Tidy r now w = shrink _ _ _ _ w (sweep-Consistent r now w.backed) (sweep-in_flight r now)

remove_one-in_flight :
    (r : Registry) (a : TunnelAttempt) (owner : AppOwner)
    → in_flight (remove_tunnel_attempt r a).0 owner ≤ in_flight r owner
unfolding remove_each
remove_one-in_flight r a owner = remove_each-in_flight r (a ∷ []) owner

expire-in_flight :
    (r : Registry) (key : Text) (now : ℕ) (owner : AppOwner)
    → in_flight (expire_unpaired_relay_tunnel r key now).0 owner ≤ in_flight r owner
unfolding expire_unpaired_relay_tunnel
expire-in_flight r key now owner = elim (Option-cases (lookup key r.attempts)) [
  | inl e ↦ ground arith
  | inr (a, e) ↦ ground (arith, remove_one-in_flight r a owner)
]

pub expire-Tidy :
    (r : Registry) (key : Text) (now : ℕ) → Tidy r → Tidy (expire_unpaired_relay_tunnel r key now).0
expire-Tidy r key now w =
    shrink _ _ _ _ w (expire-Consistent r key now w.backed) (expire-in_flight r key now)

close-in_flight :
    (r : Registry) (key : Text) (owner : AppOwner)
    → in_flight (close_relay_tunnel r key).0 owner ≤ in_flight r owner
unfolding close_relay_tunnel
close-in_flight r raw owner = elim (Option-cases (lookup (trim raw) r.attempts)) [
  | inl e ↦ ground arith
  | inr (a, e) ↦ ground (arith, remove_one-in_flight r a owner)
]

pub close-Tidy : (r : Registry) (key : Text) → Tidy r → Tidy (close_relay_tunnel r key).0
close-Tidy r key w = shrink _ _ _ _ w (close-Consistent r key w.backed) (close-in_flight r key)

finish-in_flight :
    (r : Registry) (p : Pending) (delivered : Bool) (owner : AppOwner)
    → in_flight (finish_relay_tunnel r p delivered).0 owner ≤ in_flight r owner
unfolding finish_relay_tunnel
finish-in_flight r p true owner = omega arith
finish-in_flight r p false owner = elim (Option-cases (lookup p.key r.attempts)) [
  | inl e ↦ ground arith
  | inr (a, e) ↦ ground (arith, remove_one-in_flight r a owner)
]

pub finish-Tidy :
    (r : Registry) (p : Pending) (delivered : Bool)
    → Tidy r
    → Tidy (finish_relay_tunnel r p delivered).0
finish-Tidy r p delivered w =
    shrink _ _ _ _ w (finish-Consistent r p delivered w.backed) (finish-in_flight r p delivered)

pub begin-Tidy :
    (r : Registry) (q : TunnelRequest) (env : Env) → Tidy r → Tidy (begin_relay_tunnel r q env).0
begin-Tidy r q env w = record {
  backed = begin-Consistent r q env w.backed;
  capacity = λ owner. begin-in_flight r q env owner (w.capacity owner);
}

mark-owner : (actor : Actor) (a : TunnelAttempt) → (mark_redeemed actor a).app_owner ≡ a.app_owner
mark-owner client a = refl
mark-owner daemon a = refl

-- A change of a tunnel in its place.
pub update-in_flight :
    (r : Registry) (key : Text) (a b : TunnelAttempt) (owner : AppOwner)
    → lookup key r.attempts ≡ some a
    → b.app_owner ≡ a.app_owner
    → count (owned owner) (insert key b r.attempts) ≤ in_flight r owner
update-in_flight r key a b owner at same =
    count-update_le (owned owner) key a b r.attempts at (ap (λ o. same_app o owner) same)

redeem_stored-in_flight :
    (r : Registry) (token : Text) (now : ℕ) (stored : Option TunnelToken) (owner : AppOwner)
    → in_flight (redeem_stored r token now stored).0 owner ≤ in_flight r owner
unfolding redeem_stored redeem_attempt
redeem_stored-in_flight r token now none owner = omega arith
redeem_stored-in_flight r token now (some stored) owner =
    elim (Option-cases (lookup stored.attempt_id r.attempts)) [
      | inl e ↦ ground arith
      | inr (a, e) ↦ ground (
        arith,
        remove_one-in_flight r a owner,
        update-in_flight r stored.attempt_id a (mark_redeemed stored.actor a) owner e
            (mark-owner stored.actor a),
      )
    ]

redeem-in_flight :
    (r : Registry) (raw : Text) (swept_at now : ℕ) (owner : AppOwner)
    → in_flight (redeem_relay_tunnel_token r raw swept_at now).0 owner ≤ in_flight r owner
unfolding redeem_relay_tunnel_token
redeem-in_flight r raw swept_at now owner =
    let swept = (sweep_expired_tunnel_attempts r swept_at).0 in
    ground (
      arith,
      sweep-in_flight r swept_at owner,
      redeem_stored-in_flight swept (trim raw) now (lookup (trim raw) swept.tokens) owner,
    )

pub redeem-Tidy :
    (r : Registry) (raw : Text) (swept_at now : ℕ)
    → Tidy r
    → Tidy (redeem_relay_tunnel_token r raw swept_at now).0
redeem-Tidy r raw swept_at now w =
    shrink _ _ _ _ w (redeem-Consistent r raw swept_at now w.backed)
      (redeem-in_flight r raw swept_at now)
