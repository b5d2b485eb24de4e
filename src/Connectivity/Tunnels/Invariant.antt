-- ===== src/Connectivity/Tunnels/Invariant.antt =====
-- The invariant of attempts and tokens under removals and changes.
use agent_tunnel.Base.{
  ℕ, ◌≡◌, ap, ◌∙◌, Bool, true, false, not, some, List, [], ◌∷◌, inl, inr, arith, ◌==◌, nat_eq, All,
  All-map, Bool-cases, Option-cases,
}
use agent_tunnel.Base.Text.{Text, text_eq, trim}
use agent_tunnel.Base.Dict.{
  Dict, lookup, insert, select, lookup-insert, insert-Distinct, select-found,
}
use agent_tunnel.Connectivity.{Registry, TunnelAttempt, TunnelToken, Actor, client, daemon}
use agent_tunnel.Connectivity.Removal.{
  remove_tunnel_attempt, remove_tunnel_attempts, remove_each, sweep_expired_tunnel_attempts,
  expire_unpaired_relay_tunnel, is_kept_at,
}
use agent_tunnel.Connectivity.Redeem.{is_redeemed, close_relay_tunnel}
use agent_tunnel.Connectivity.Tunnels.{drop_old_attempt, finish_relay_tunnel, Pending}
use agent_tunnel.Connectivity.Tunnels.Tokens.{
  WellFormed, IsHeld, IsTokenFor, token_of, less_attempts, less-IsHeld, less-WellFormed,
}

-- The invariant of a registry.
abbrev pub Consistent : Registry → Type 0
Consistent r = WellFormed r.attempts r.tokens

remove_one :
    (r : Registry) (a : TunnelAttempt)
    → Consistent r
    → IsHeld r.attempts a
    → Consistent (remove_tunnel_attempt r a).0
unfolding remove_tunnel_attempt
remove_one r a w h = less-WellFormed r.attempts r.tokens w a h

remove_each-Consistent :
    (r : Registry) (l : List TunnelAttempt)
    → Consistent r
    → All (IsHeld r.attempts) l
    → Consistent (remove_each r l).0
unfolding remove_each remove_tunnel_attempt
remove_each-Consistent r [] w h = w
remove_each-Consistent r (a ∷ l) w h =
    remove_each-Consistent (remove_tunnel_attempt r a).0 l (remove_one r a w (h.0)) (
      All-map (IsHeld r.attempts) (IsHeld (less_attempts r.attempts a))
        (λ b held. less-IsHeld r.attempts a b held) l h.1)

held :
    (r : Registry)
    → Consistent r
    → (key : Text) (a : TunnelAttempt) → lookup key r.attempts ≡ some a
    → IsHeld r.attempts a
held r w key a h = inl (ap (λ k. lookup k r.attempts) (w.keyed key a h) ∙ h)

select-IsHeld :
    (r : Registry) (p : Text → TunnelAttempt → Bool)
    → Consistent r
    → All (IsHeld r.attempts) (select p r.attempts)
select-IsHeld r p w =
    All-map _ (IsHeld r.attempts) (λ a found. held r w found.0 a found.1) (select p r.attempts)
      (select-found p r.attempts w.distinct)

pub remove_tunnel_attempts-Consistent :
    (r : Registry) (p : TunnelAttempt → Bool)
    → Consistent r
    → Consistent (remove_tunnel_attempts r p).0
unfolding remove_tunnel_attempts
remove_tunnel_attempts-Consistent r p w =
    remove_each-Consistent r _ w (select-IsHeld r (λ _ a. p a) w)

pub sweep-Consistent :
    (r : Registry) (now : ℕ) → Consistent r → Consistent (sweep_expired_tunnel_attempts r now).0
unfolding sweep_expired_tunnel_attempts
sweep-Consistent r now w =
    remove_each-Consistent r _ w (select-IsHeld r (λ _ a. not (is_kept_at now a)) w)

-- An attempt is taken out in one step of a case distinction on the lookup.
pub remove_found :
    (r : Registry)
    → Consistent r
    → (key : Text) (a : TunnelAttempt) → lookup key r.attempts ≡ some a
    → Consistent (remove_tunnel_attempt r a).0
remove_found r w key a h = remove_one r a w (held r w key a h)

pub expire-Consistent :
    (r : Registry) (key : Text) (now : ℕ)
    → Consistent r
    → Consistent (expire_unpaired_relay_tunnel r key now).0
unfolding expire_unpaired_relay_tunnel
expire-Consistent r key now w = elim (Option-cases (lookup key r.attempts)) [
  | inl e ↦ ground arith
  | inr (a, e) ↦ ground (arith, remove_found r w key a e)
]

pub close-Consistent :
    (r : Registry) (raw : Text) → Consistent r → Consistent (close_relay_tunnel r raw).0
unfolding close_relay_tunnel
close-Consistent r raw w = elim (Option-cases (lookup (trim raw) r.attempts)) [
  | inl e ↦ ground arith
  | inr (a, e) ↦ ground (arith, remove_found r w (trim raw) a e)
]

pub finish-Consistent :
    (r : Registry) (p : Pending) (delivered : Bool)
    → Consistent r
    → Consistent (finish_relay_tunnel r p delivered).0
unfolding finish_relay_tunnel
finish-Consistent r p true w = w
finish-Consistent r p false w = elim (Option-cases (lookup p.key r.attempts)) [
  | inl e ↦ ground arith
  | inr (a, e) ↦ ground (arith, remove_found r w p.key a e)
]

pub drop_old-Consistent :
    (r : Registry) (key : Text) → Consistent r → Consistent (drop_old_attempt r key).0
unfolding drop_old_attempt
drop_old-Consistent r key w = elim (Option-cases (lookup key r.attempts)) [
  | inl e ↦ ground arith
  | inr (a, e) ↦ ground (arith, remove_found r w key a e)
]

-- A change of the attempt under a key that keeps its key and tokens, and what it has redeemed.
abbrev pub IsChange : TunnelAttempt → TunnelAttempt → Type 0
IsChange a b =
    (b.key ≡ a.key)
    × (b.app_token ≡ a.app_token)
    × (b.daemon_token ≡ a.daemon_token)
    × (b.app_redeemed ≡ a.app_redeemed)
    × (b.daemon_redeemed ≡ a.daemon_redeemed)

change-token_of :
    (actor : Actor) (a b : TunnelAttempt) → IsChange a b → token_of actor b ≡ token_of actor a
change-token_of client a b c = c.1
change-token_of daemon a b c = c.2

change-is_redeemed :
    (actor : Actor) (a b : TunnelAttempt) → IsChange a b → is_redeemed actor b ≡ is_redeemed actor a
change-is_redeemed client a b c = c.3
change-is_redeemed daemon a b c = c.4

module _ (attempts : Dict Text TunnelAttempt) (tokens : Dict Text TunnelToken)
    (w : WellFormed attempts tokens) (key : Text) (a b : TunnelAttempt)
    (at : lookup key attempts ≡ some a) where
  change-keyed :
      (b.key ≡ a.key)
      → (k : Text) (c : TunnelAttempt) → lookup k (insert key b attempts) ≡ some c
      → c.key ≡ k
  change-keyed e k c found =
      ground (arith, lookup-insert key k b attempts, w.keyed key a at, w.keyed k c)

  change-backed :
      IsChange a b
      → (token : Text) (stored : TunnelToken) → lookup token tokens ≡ some stored
      → IsTokenFor (insert key b attempts) token stored
  change-backed change token stored found =
      let (d, at_d, mine, fresh) = w.backed token stored found in
      elim (Bool-cases (key == stored.attempt_id)) [
        | inl e ↦ (
          b,
          ground (arith, lookup-insert key stored.attempt_id b attempts),
          ground (arith, change-token_of stored.actor a b change),
          ground (arith, change-is_redeemed stored.actor a b change),
        )
        | inr e ↦ (d, ground (arith, lookup-insert key stored.attempt_id b attempts), mine, fresh)
      ]

  pub change-WellFormed : IsChange a b → WellFormed (insert key b attempts) tokens
  change-WellFormed change = record {
    distinct = insert-Distinct key b attempts w.distinct;
    keyed = change-keyed (change.0);
    backed = λ token stored found. change-backed change token stored found;
  }
