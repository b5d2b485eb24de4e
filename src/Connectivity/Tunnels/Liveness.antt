-- ===== src/Connectivity/Tunnels/Liveness.antt =====
-- RedeemRelayTunnelToken on a token of a tunnel that has not expired.
use agent_tunnel.Base.{
  ℕ, ◌≡◌, ◌<◌, refl, ◌∙◌, true, false, not, some, List, [], ◌∷◌, arith, ◌==◌, nat_eq, All, All-map,
}
use agent_tunnel.Base.Text.{Text, text_eq, trim, is_empty}
use agent_tunnel.Base.Dict.{lookup, delete, select, select-found, lookup-delete}
use agent_tunnel.Connectivity.{Registry, TunnelAttempt, TunnelToken, ok}
use agent_tunnel.Connectivity.Removal.{
  remove_tunnel_attempt, remove_each, sweep_expired_tunnel_attempts, is_kept_at,
}
use agent_tunnel.Connectivity.Redeem.{
  is_redeemed, redemption_of, redeem_relay_tunnel_token, redeem_stored, redeem_attempt,
}
use agent_tunnel.Connectivity.Tunnels.Invariant.{Consistent}

-- Taking the attempt out leaves an attempt under another key and a token that is not its own.
abbrev Spares : Text → Text → TunnelAttempt → Type 0
Spares key token b =
    ((b.key == key) ≡ false)
    × ((b.app_token == token) ≡ false)
    × ((b.daemon_token == token) ≡ false)

remove_each-Spares :
    (r : Registry) (l : List TunnelAttempt) (key token : Text)
    → All (Spares key token) l
    → (lookup key (remove_each r l).0.attempts ≡ lookup key r.attempts)
      × (lookup token (remove_each r l).0.tokens ≡ lookup token r.tokens)
unfolding remove_each remove_tunnel_attempt
remove_each-Spares r [] key token h = (refl, refl)
remove_each-Spares r (b ∷ l) key token h =
    let (attempts, tokens) = remove_each-Spares (remove_tunnel_attempt r b).0 l key token h.1 in
    let (other_key, other_app, other_daemon) = h.0 in
    (
      ground (arith, attempts, lookup-delete b.key key r.attempts),
      ground (
        arith,
        tokens,
        lookup-delete b.app_token token r.tokens,
        lookup-delete b.daemon_token token (delete b.app_token r.tokens),
      ),
    )

-- No attempt under another key has the token.
abbrev pub IsSole : Registry → Text → Text → Type 0
IsSole r key token =
    (k : Text) (b : TunnelAttempt)
    → lookup k r.attempts ≡ some b
    → (k == key) ≡ false
    → ((b.app_token == token) ≡ false) × ((b.daemon_token == token) ≡ false)

spared :
    (r : Registry) (now : ℕ) (key token : Text) (a b : TunnelAttempt)
    → lookup key r.attempts ≡ some a
    → is_kept_at now a ≡ true
    → IsSole r key token
    → (k : Text) → b.key ≡ k
    → lookup k r.attempts ≡ some b
    → not (is_kept_at now b) ≡ true
    → Spares key token b
spared r now key token a b at kept sole k same found gone =
    let other : (k == key) ≡ false = ground arith in
    let (app, other_token) = sole k b found other in (rw same other, app, other_token)

sweep-spares :
    (r : Registry) (now : ℕ) (key token : Text) (a : TunnelAttempt)
    → Consistent r
    → lookup key r.attempts ≡ some a
    → is_kept_at now a ≡ true
    → IsSole r key token
    → (lookup key (sweep_expired_tunnel_attempts r now).0.attempts ≡ lookup key r.attempts)
      × (lookup token (sweep_expired_tunnel_attempts r now).0.tokens ≡ lookup token r.tokens)
unfolding sweep_expired_tunnel_attempts
sweep-spares r now key token a w at kept sole = remove_each-Spares r _ key token (
    All-map _ (Spares key token)
      (λ b h. spared r now key token a b at kept sole h.0 (w.keyed h.0 b h.1) h.1 h.2)
      (select (λ _ c. not (is_kept_at now c)) r.attempts)
      (select-found (λ _ c. not (is_kept_at now c)) r.attempts w.distinct))

-- A token that is stored for a tunnel which has not expired is accepted, if no other tunnel has it.
pub redeem-live :
    (r : Registry) (raw : Text) (swept_at now : ℕ) (stored : TunnelToken) (a : TunnelAttempt)
    → Consistent r
    → is_empty (trim raw) ≡ false
    → lookup (trim raw) r.tokens ≡ some stored
    → lookup stored.attempt_id r.attempts ≡ some a
    → IsSole r stored.attempt_id (trim raw)
    → swept_at < a.expires_at
    → now < a.expires_at
    → (redeem_relay_tunnel_token r raw swept_at now).1 ≡ ok (redemption_of a stored.actor)
unfolding redeem_relay_tunnel_token redeem_stored redeem_attempt
redeem-live r raw swept_at now stored a w named found at sole swept live =
    let (b, at_b, mine, fresh) = w.backed (trim raw) stored found in
    let kept : is_kept_at swept_at a ≡ true = ground arith in
    let (attempts, tokens) =
      sweep-spares r swept_at stored.attempt_id (trim raw) a w at kept sole in
    let unused : is_redeemed stored.actor a ≡ false = ground arith in
    let found' = tokens ∙ found in
    let at' = attempts ∙ at in rw (named, found') (rw at' (ground arith))
