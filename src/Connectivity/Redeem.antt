-- ===== src/Connectivity/Redeem.antt =====
-- The two tokens of a tunnel, and its life after the request: RedeemRelayTunnelToken and below.
use agent_tunnel.Base.{
  ℕ, suc, Bool, true, false, not, Option, none, some, List, [], ◌∷◌, ◌++◌, if◌then◌else◌, nat_eq,
}
use agent_tunnel.Base.Text.{Text, text_eq, trim, is_empty}
use agent_tunnel.Base.Dict.{lookup, insert, delete}
use agent_tunnel.Connectivity.{
  Registry, Result, ok, err, tunnel_token_invalid, TunnelAttempt, TunnelToken, TunnelRedemption,
  Actor, client, daemon, Effect, ran_closer,
}
use agent_tunnel.Connectivity.Removal.{
  is_live_at, remove_tunnel_attempt, sweep_expired_tunnel_attempts,
}

-- Whether the side that the token is for has redeemed its token.
abbrev pub is_redeemed : Actor → TunnelAttempt → Bool
is_redeemed client attempt = attempt.app_redeemed
is_redeemed daemon attempt = attempt.daemon_redeemed

abbrev pub mark_redeemed : Actor → TunnelAttempt → TunnelAttempt
mark_redeemed client attempt = record attempt { app_redeemed = true }
mark_redeemed daemon attempt = record attempt { daemon_redeemed = true }

abbrev pub redemption_of : TunnelAttempt → Actor → TunnelRedemption
redemption_of attempt actor = record {
  tunnel_key = attempt.key;
  attempt_id = attempt.id;
  actor = actor;
  user_id = attempt.app_owner.user_id;
  app_session_id = attempt.app_owner.app_session_id;
  device_fingerprint = attempt.app_owner.device_fingerprint;
  daemon_device_id = attempt.daemon_device_id;
  daemon_fingerprint = attempt.daemon_fingerprint;
}

-- The attempt is changed in place, where the map has it.
unfoldable pub redeem_attempt :
    Registry
    → Text
    → ℕ
    → TunnelToken
    → Option TunnelAttempt
    → Registry × Result TunnelRedemption × List Effect
redeem_attempt r token now stored none =
    (record r { tokens = delete token r.tokens }, err tunnel_token_invalid, [])
redeem_attempt r token now stored (some attempt) =
    if not (is_live_at now attempt.expires_at)
    then (let (r', closers) = remove_tunnel_attempt r attempt in
        (r', err tunnel_token_invalid, closers))
    else if is_redeemed stored.actor attempt
    then (r, err tunnel_token_invalid, [])
    else (
      record r {
        attempts = insert stored.attempt_id (mark_redeemed stored.actor attempt) r.attempts;
        tokens = delete token r.tokens;
      },
      ok (redemption_of attempt stored.actor),
      [],
    )

unfoldable pub redeem_stored :
    Registry → Text → ℕ → Option TunnelToken → Registry × Result TunnelRedemption × List Effect
unfolding redeem_attempt
redeem_stored r token now none = (r, err tunnel_token_invalid, [])
redeem_stored r token now (some stored) =
    redeem_attempt r token now stored (lookup stored.attempt_id r.attempts)

-- `swept_at` and `now` are the clock's two readings.
unfoldable pub redeem_relay_tunnel_token :
    Registry → Text → ℕ → ℕ → Registry × Result TunnelRedemption × List Effect
unfolding redeem_stored
redeem_relay_tunnel_token r raw swept_at now =
    let token = trim raw in
    let (r₁, removed, swept) = sweep_expired_tunnel_attempts r swept_at in
    let (r₂, result, closers) = redeem_stored r₁ token now (lookup token r₁.tokens) in
    if is_empty token then (r, err tunnel_token_invalid, []) else (r₂, result, swept ++ closers)

unfoldable pub mark_relay_tunnel_active : Registry → Text → Registry × Bool
mark_relay_tunnel_active r raw =
    let key = trim raw in
    if is_empty key then (r, false) else elim (lookup key r.attempts) [
      | none ↦ (r, false)
      | some attempt ↦
          (record r { attempts = insert key (record attempt { active = true }) r.attempts }, true)
    ]

unfoldable pub close_relay_tunnel : Registry → Text → Registry × Bool × List Effect
close_relay_tunnel r raw =
    let key = trim raw in
    if is_empty key then (r, false, []) else elim (lookup key r.attempts) [
      | none ↦ (r, false, [])
      | some attempt ↦ (let (r', closers) = remove_tunnel_attempt r attempt in (r', true, closers))
    ]

unfoldable pub sweep_expired_relay_tunnel_attempts : Registry → ℕ → Registry × ℕ × List Effect
sweep_expired_relay_tunnel_attempts r now = sweep_expired_tunnel_attempts r now

-- AddTunnelCloser: the number under which the closer is kept, none where it has run at once. (A nil
-- closer does nothing and is not modelled.)
unfoldable pub add_tunnel_closer : Registry → Text → ℕ → Registry × Option ℕ × List Effect
add_tunnel_closer r raw closer =
    let key = trim raw in
    elim (lookup key r.attempts) [
      | none ↦ (r, none, ran_closer closer ∷ [])
      | some attempt ↦ (
        record r {
          next_closer_id = suc r.next_closer_id;
          attempts =
              insert key
                (record attempt { closers = insert (suc r.next_closer_id) closer attempt.closers })
                r.attempts;
        },
        some (suc r.next_closer_id),
        [],
      )
    ]

-- The function that AddTunnelCloser returns.
unfoldable pub forget_tunnel_closer : Registry → Text → ℕ → Registry
forget_tunnel_closer r raw id =
    let key = trim raw in
    elim (lookup key r.attempts) [
      | none ↦ r
      | some attempt ↦ record r {
        attempts = insert key (record attempt { closers = delete id attempt.closers }) r.attempts;
      }
    ]
