-- ===== src/Connectivity/Tunnels/Redemption.antt =====
-- The invariant of attempts and tokens under RedeemRelayTunnelToken, and under what follows it.
use agent_tunnel.Base.{
  ℕ, suc, ◌≡◌, refl, true, Option, none, some, ◌⊎◌, inl, inr, arith, ◌==◌, nat_eq, Bool-cases,
  Option-cases,
}
use agent_tunnel.Base.Text.{Text, text_eq, trim}
use agent_tunnel.Base.Dict.{
  Dict, lookup, insert, delete, lookup-delete, lookup-insert, insert-Distinct,
}
use agent_tunnel.Connectivity.{Registry, TunnelAttempt, TunnelToken, Actor, client, daemon}
use agent_tunnel.Connectivity.Removal.{sweep_expired_tunnel_attempts}
use agent_tunnel.Connectivity.Redeem.{
  is_redeemed, mark_redeemed, redeem_relay_tunnel_token, redeem_stored, redeem_attempt,
  mark_relay_tunnel_active, add_tunnel_closer, forget_tunnel_closer,
}
use agent_tunnel.Connectivity.Tunnels.Tokens.{WellFormed, IsTokenFor, token_of}
use agent_tunnel.Connectivity.Tunnels.Invariant.{
  Consistent, change-WellFormed, remove_found, sweep-Consistent,
}
use agent_tunnel.Connectivity.Tunnels.Lifecycle.{spend}

mark-token_of :
    (actor other : Actor) (a : TunnelAttempt)
    → token_of other (mark_redeemed actor a) ≡ token_of other a
mark-token_of client client a = refl
mark-token_of client daemon a = refl
mark-token_of daemon client a = refl
mark-token_of daemon daemon a = refl

mark-key : (actor : Actor) (a : TunnelAttempt) → (mark_redeemed actor a).key ≡ a.key
mark-key client a = refl
mark-key daemon a = refl

-- Only the other side is as before.
mark-is_redeemed :
    (actor other : Actor) (a : TunnelAttempt)
    → (is_redeemed other (mark_redeemed actor a) ≡ is_redeemed other a)
      ⊎ (token_of other a ≡ token_of actor a)
mark-is_redeemed client client a = inr refl
mark-is_redeemed client daemon a = inl refl
mark-is_redeemed daemon client a = inl refl
mark-is_redeemed daemon daemon a = inr refl

module _ (attempts : Dict Text TunnelAttempt) (tokens : Dict Text TunnelToken)
    (w : WellFormed attempts tokens) (a : TunnelAttempt) (key token : Text) (actor : Actor)
    (at : lookup key attempts ≡ some a) (mine : token_of actor a ≡ token) where
  mark_keyed :
      (k : Text) (c : TunnelAttempt)
      → lookup k (insert key (mark_redeemed actor a) attempts) ≡ some c
      → c.key ≡ k
  mark_keyed k c found = ground (
    arith,
    lookup-insert key k (mark_redeemed actor a) attempts,
    w.keyed key a at,
    w.keyed k c,
    mark-key actor a,
  )

  mark_backed :
      (t : Text) (stored : TunnelToken)
      → lookup t (delete token tokens) ≡ some stored
      → IsTokenFor (insert key (mark_redeemed actor a) attempts) t stored
  mark_backed t stored found =
      let kept : lookup t tokens ≡ some stored = ground (arith, lookup-delete token t tokens) in
      let (d, at_d, mine_d, fresh) = w.backed t stored kept in
      let marked = mark_redeemed actor a in
      let there = lookup-insert key stored.attempt_id marked attempts in
      elim (Bool-cases (key == stored.attempt_id)) [
        | inl e ↦ (
          marked,
          ground (arith, there),
          ground (arith, mark-token_of actor stored.actor a),
          ground (arith, mark-is_redeemed actor stored.actor a, lookup-delete token t tokens),
        )
        | inr e ↦ (d, ground (arith, there), mine_d, fresh)
      ]

  redeemed-WellFormed :
      WellFormed (insert key (mark_redeemed actor a) attempts) (delete token tokens)
  redeemed-WellFormed = record {
    distinct = insert-Distinct key (mark_redeemed actor a) attempts w.distinct;
    keyed = mark_keyed;
    backed = λ t stored found. mark_backed t stored found;
  }

redeem_attempt-Consistent :
    (r : Registry) (token : Text) (now : ℕ) (stored : TunnelToken) (attempt : Option TunnelAttempt)
    → Consistent r
    → lookup token r.tokens ≡ some stored
    → lookup stored.attempt_id r.attempts ≡ attempt
    → Consistent (redeem_attempt r token now stored attempt).0
unfolding redeem_attempt
redeem_attempt-Consistent r token now stored none w found at = spend r.attempts r.tokens w token
redeem_attempt-Consistent r token now stored (some a) w found at =
    let (b, at_b, mine, fresh) = w.backed token stored found in
    let gone = remove_found r w stored.attempt_id a at in
    let spent =
      redeemed-WellFormed r.attempts r.tokens w a stored.attempt_id token stored.actor at
        (ground arith) in
    ground arith

redeem_stored-Consistent :
    (r : Registry) (token : Text) (now : ℕ) (stored : Option TunnelToken)
    → Consistent r
    → lookup token r.tokens ≡ stored
    → Consistent (redeem_stored r token now stored).0
unfolding redeem_stored
redeem_stored-Consistent r token now none w found = w
redeem_stored-Consistent r token now (some stored) w found =
    redeem_attempt-Consistent r token now stored _ w found refl

pub redeem-Consistent :
    (r : Registry) (raw : Text) (swept_at now : ℕ)
    → Consistent r
    → Consistent (redeem_relay_tunnel_token r raw swept_at now).0
unfolding redeem_relay_tunnel_token
redeem-Consistent r raw swept_at now w =
    let swept = (sweep_expired_tunnel_attempts r swept_at).0 in
    let done =
      redeem_stored-Consistent swept (trim raw) now (lookup (trim raw) swept.tokens)
        (sweep-Consistent r swept_at w) refl in
    ground arith

pub mark_active-Consistent :
    (r : Registry) (raw : Text) → Consistent r → Consistent (mark_relay_tunnel_active r raw).0
unfolding mark_relay_tunnel_active
mark_active-Consistent r raw w = elim (Option-cases (lookup (trim raw) r.attempts)) [
  | inl e ↦ ground arith
  | inr (a, e) ↦ ground (
    arith,
    change-WellFormed r.attempts r.tokens w (trim raw) a (record a { active = true }) e
        (refl, refl, refl, refl, refl),
  )
]

pub add_closer-Consistent :
    (r : Registry) (raw : Text) (closer : ℕ)
    → Consistent r
    → Consistent (add_tunnel_closer r raw closer).0
unfolding add_tunnel_closer
add_closer-Consistent r raw closer w = elim (Option-cases (lookup (trim raw) r.attempts)) [
  | inl e ↦ ground arith
  | inr (a, e) ↦ ground (
    arith,
    change-WellFormed r.attempts r.tokens w (trim raw) a
        (record a { closers = insert (suc r.next_closer_id) closer a.closers }) e
        (refl, refl, refl, refl, refl),
  )
]

pub forget_closer-Consistent :
    (r : Registry) (raw : Text) (id : ℕ) → Consistent r → Consistent (forget_tunnel_closer r raw id)
unfolding forget_tunnel_closer
forget_closer-Consistent r raw id w = elim (Option-cases (lookup (trim raw) r.attempts)) [
  | inl e ↦ ground arith
  | inr (a, e) ↦ ground (
    arith,
    change-WellFormed r.attempts r.tokens w (trim raw) a
        (record a { closers = delete id a.closers }) e (refl, refl, refl, refl, refl),
  )
]
