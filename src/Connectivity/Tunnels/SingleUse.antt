-- ===== src/Connectivity/Tunnels/SingleUse.antt =====
-- What RedeemRelayTunnelToken answers, and what it leaves.
use agent_tunnel.Base.{
  ℕ, ◌≡◌, ◌<◌, refl, sym, ap, ◌∙◌, false, Option, none, some, List, [], ◌∷◌, arith, nat_eq,
}
use agent_tunnel.Base.Text.{Text, text_eq, trim}
use agent_tunnel.Base.Dict.{lookup, delete, lookup-delete}
use agent_tunnel.Connectivity.{
  Registry, TunnelAttempt, TunnelToken, TunnelRedemption, tunnel_token_invalid, ok, err,
}
use agent_tunnel.Connectivity.Removal.{
  remove_tunnel_attempt, remove_each, sweep_expired_tunnel_attempts,
}
use agent_tunnel.Connectivity.Removal.Frame.{lookup-remove_each}
use agent_tunnel.Connectivity.Redeem.{
  is_redeemed, redemption_of, redeem_relay_tunnel_token, redeem_stored, redeem_attempt,
}
use agent_tunnel.Connectivity.Tunnels.Tokens.{token_of}
use agent_tunnel.Connectivity.Tunnels.Invariant.{Consistent, sweep-Consistent}

-- The attempt behind an accepted token.
pub record Redeemed (r : Registry) (token : Text) (now : ℕ) (x : TunnelRedemption) : Type 0 where
  pub attempt : TunnelAttempt
  pub found : lookup x.tunnel_key r.attempts ≡ some attempt
  pub drawn : token_of x.actor attempt ≡ token
  pub live : now < attempt.expires_at
  pub unused : is_redeemed x.actor attempt ≡ false
  pub granted : x ≡ redemption_of attempt x.actor

redeem_attempt-Redeemed :
    (r : Registry) (token : Text) (now : ℕ) (stored : TunnelToken) (attempt : Option TunnelAttempt)
    (x : TunnelRedemption)
    → Consistent r
    → lookup token r.tokens ≡ some stored
    → lookup stored.attempt_id r.attempts ≡ attempt
    → (redeem_attempt r token now stored attempt).1 ≡ ok x
    → Redeemed r token now x
unfolding redeem_attempt
redeem_attempt-Redeemed r token now stored none x w at found h = cc
redeem_attempt-Redeemed r token now stored (some a) x w at found h =
    let (b, at_b, mine, fresh) = w.backed token stored at in
    let same : b ≡ a = ground arith in
    let key = w.keyed stored.attempt_id a found in
    let (live, unused, granted) : (now < a.expires_at)
        × (is_redeemed stored.actor a ≡ false)
        × (x ≡ redemption_of a stored.actor) =
      ground arith in
    let actor : x.actor ≡ stored.actor = ap (λ (y : TunnelRedemption). y.actor) granted in
    let there : x.tunnel_key ≡ a.key = ap (λ (y : TunnelRedemption). y.tunnel_key) granted in
    record {
      attempt = a;
      found = ap (λ k. lookup k r.attempts) (there ∙ key) ∙ found;
      drawn = rw (actor, sym same) mine;
      live = live;
      unused = rw actor unused;
      granted = granted ∙ ap (redemption_of a) (sym actor);
    }

redeem_stored-Redeemed :
    (r : Registry) (token : Text) (now : ℕ) (stored : Option TunnelToken) (x : TunnelRedemption)
    → Consistent r
    → lookup token r.tokens ≡ stored
    → (redeem_stored r token now stored).1 ≡ ok x
    → Redeemed r token now x
unfolding redeem_stored
redeem_stored-Redeemed r token now none x w at h = cc
redeem_stored-Redeemed r token now (some stored) x w at h =
    redeem_attempt-Redeemed r token now stored _ x w at refl h

-- A token that is accepted was drawn for one side of a tunnel which has not expired, this side had
-- not redeemed it before, and the caller is told the tunnel and the side that the token was drawn for.
pub redeem-Redeemed :
    (r : Registry) (raw : Text) (swept_at now : ℕ) (x : TunnelRedemption)
    → Consistent r
    → (redeem_relay_tunnel_token r raw swept_at now).1 ≡ ok x
    → Redeemed r (trim raw) now x
unfolding redeem_relay_tunnel_token sweep_expired_tunnel_attempts
redeem-Redeemed r raw swept_at now x w h =
    let swept = (sweep_expired_tunnel_attempts r swept_at).0 in
    let accepted : (redeem_stored swept (trim raw) now (lookup (trim raw) swept.tokens)).1 ≡ ok x =
      ground arith in
    let there =
      redeem_stored-Redeemed swept (trim raw) now _ x (sweep-Consistent r swept_at w) refl
        accepted in
    record {
      attempt = there.attempt;
      found = lookup-remove_each r _ x.tunnel_key there.attempt there.found;
      drawn = there.drawn;
      live = there.live;
      unused = there.unused;
      granted = there.granted;
    }

-- No token appears where tunnels are taken out.
pub remove_each-lacks :
    (r : Registry) (l : List TunnelAttempt) (token : Text)
    → lookup token r.tokens ≡ none
    → lookup token (remove_each r l).0.tokens ≡ none
unfolding remove_each remove_tunnel_attempt
remove_each-lacks r [] token h = h
remove_each-lacks r (a ∷ l) token h = remove_each-lacks (remove_tunnel_attempt r a).0 l token (
    ground (
      arith,
      lookup-delete a.app_token token r.tokens,
      lookup-delete a.daemon_token token (delete a.app_token r.tokens),
    ))

pub sweep-lacks :
    (r : Registry) (now : ℕ) (token : Text)
    → lookup token r.tokens ≡ none
    → lookup token (sweep_expired_tunnel_attempts r now).0.tokens ≡ none
unfolding sweep_expired_tunnel_attempts
sweep-lacks r now token h = remove_each-lacks r _ token h

pub redeem-unknown :
    (r : Registry) (raw : Text) (swept_at now : ℕ)
    → lookup (trim raw) r.tokens ≡ none
    → (redeem_relay_tunnel_token r raw swept_at now).1 ≡ err tunnel_token_invalid
unfolding redeem_relay_tunnel_token redeem_stored
redeem-unknown r raw swept_at now h =
    let gone = sweep-lacks r swept_at (trim raw) h in rw gone (ground arith)

redeem_stored-spent :
    (r : Registry) (token : Text) (now : ℕ) (stored : Option TunnelToken) (x : TunnelRedemption)
    → (redeem_stored r token now stored).1 ≡ ok x
    → lookup token (redeem_stored r token now stored).0.tokens ≡ none
unfolding redeem_stored redeem_attempt
redeem_stored-spent r token now none x h = cc
redeem_stored-spent r token now (some stored) x h =
    ground (arith, lookup-delete token token r.tokens)

pub redeem-spent :
    (r : Registry) (raw : Text) (swept_at now : ℕ) (x : TunnelRedemption)
    → (redeem_relay_tunnel_token r raw swept_at now).1 ≡ ok x
    → lookup (trim raw) (redeem_relay_tunnel_token r raw swept_at now).0.tokens ≡ none
unfolding redeem_relay_tunnel_token
redeem-spent r raw swept_at now x h =
    let swept = (sweep_expired_tunnel_attempts r swept_at).0 in
    ground (arith, redeem_stored-spent swept (trim raw) now (lookup (trim raw) swept.tokens) x)
