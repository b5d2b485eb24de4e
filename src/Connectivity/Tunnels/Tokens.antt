-- ===== src/Connectivity/Tunnels/Tokens.antt =====
-- How the attempts and the tokens of the registry belong together.
use agent_tunnel.Base.{◌≡◌, refl, false, none, some, List, [], ◌∷◌, ◌⊎◌, arith, ◌==◌, nat_eq}
use agent_tunnel.Base.Text.{Text, text_eq}
use agent_tunnel.Base.Dict.{Dict, lookup, delete, lookup-delete, Distinct, delete-Distinct}
use agent_tunnel.Connectivity.{Registry, TunnelAttempt, TunnelToken, Actor, client, daemon}
use agent_tunnel.Connectivity.Removal.{remove_tunnel_attempt, remove_each}
use agent_tunnel.Connectivity.Redeem.{is_redeemed}

abbrev pub token_of : Actor → TunnelAttempt → Text
token_of client attempt = attempt.app_token
token_of daemon attempt = attempt.daemon_token

-- The attempt that a stored token is for: it is there, the token is the one that was drawn for this
-- side of it, and this side has not redeemed it yet.
abbrev pub IsTokenFor : Dict Text TunnelAttempt → Text → TunnelToken → Type 0
IsTokenFor attempts token stored =
    (a : TunnelAttempt) × (lookup stored.attempt_id attempts ≡ some a)
    × (token_of stored.actor a ≡ token)
    × (is_redeemed stored.actor a ≡ false)

-- The invariant of the two maps.
pub record WellFormed (attempts : Dict Text TunnelAttempt) (tokens : Dict Text TunnelToken)
    : Type 0 where
  pub distinct : Distinct attempts
  pub keyed : (key : Text) (a : TunnelAttempt) → lookup key attempts ≡ some a → a.key ≡ key
  pub backed :
      (token : Text) (stored : TunnelToken)
      → lookup token tokens ≡ some stored
      → IsTokenFor attempts token stored

-- The two maps without an attempt.
abbrev pub less_attempts : Dict Text TunnelAttempt → TunnelAttempt → Dict Text TunnelAttempt
less_attempts attempts a = delete a.key attempts

abbrev pub less_tokens : Dict Text TunnelToken → TunnelAttempt → Dict Text TunnelToken
less_tokens tokens a = delete a.daemon_token (delete a.app_token tokens)

pub drop_attempts : Dict Text TunnelAttempt → List TunnelAttempt → Dict Text TunnelAttempt
drop_attempts attempts [] = attempts
drop_attempts attempts (a ∷ l) = drop_attempts (less_attempts attempts a) l

pub drop_tokens : Dict Text TunnelToken → List TunnelAttempt → Dict Text TunnelToken
drop_tokens tokens [] = tokens
drop_tokens tokens (a ∷ l) = drop_tokens (less_tokens tokens a) l

pub remove_each-drop :
    (r : Registry) (l : List TunnelAttempt)
    → (remove_each r l).0
      ≡ record r { attempts = drop_attempts r.attempts l; tokens = drop_tokens r.tokens l }
unfolding remove_each remove_tunnel_attempt drop_attempts drop_tokens
remove_each-drop r [] = refl
remove_each-drop r (a ∷ l) = remove_each-drop (remove_tunnel_attempt r a).0 l

-- An attempt that may be taken out: it is the one under its key, or there is none.
abbrev pub IsHeld : Dict Text TunnelAttempt → TunnelAttempt → Type 0
IsHeld attempts a = (lookup a.key attempts ≡ some a) ⊎ (lookup a.key attempts ≡ none)

pub less-IsHeld :
    (attempts : Dict Text TunnelAttempt) (a b : TunnelAttempt)
    → IsHeld attempts b
    → IsHeld (less_attempts attempts a) b
less-IsHeld attempts a b h = ground (arith, lookup-delete a.key b.key attempts)

-- Both tokens of an attempt go with it.
lookup-less_tokens :
    (tokens : Dict Text TunnelToken) (a : TunnelAttempt) (actor : Actor)
    → lookup (token_of actor a) (less_tokens tokens a) ≡ none
lookup-less_tokens tokens a client = ground (
  arith,
  lookup-delete a.app_token a.app_token tokens,
  lookup-delete a.daemon_token a.app_token (delete a.app_token tokens),
)
lookup-less_tokens tokens a daemon =
    ground (arith, lookup-delete a.daemon_token a.daemon_token (delete a.app_token tokens))

module _ (attempts : Dict Text TunnelAttempt) (tokens : Dict Text TunnelToken)
    (w : WellFormed attempts tokens) where
  -- A token that is left is for an attempt under another key.
  less-other :
      (a b : TunnelAttempt) (token : Text) (stored : TunnelToken)
      → IsHeld attempts a
      → lookup token (less_tokens tokens a) ≡ some stored
      → lookup stored.attempt_id attempts ≡ some b
      → token_of stored.actor b ≡ token
      → (a.key == stored.attempt_id) ≡ false
  less-other a b token stored h found at mine =
      ground (arith, lookup-less_tokens tokens a stored.actor)

  less-kept :
      (a : TunnelAttempt) (token : Text) (stored : TunnelToken)
      → lookup token (less_tokens tokens a) ≡ some stored
      → lookup token tokens ≡ some stored
  less-kept a token stored found = ground (
    arith,
    lookup-delete a.app_token token tokens,
    lookup-delete a.daemon_token token (delete a.app_token tokens),
  )

  less-backed :
      (a : TunnelAttempt) (token : Text) (stored : TunnelToken)
      → IsHeld attempts a
      → lookup token (less_tokens tokens a) ≡ some stored
      → IsTokenFor (less_attempts attempts a) token stored
  less-backed a token stored h found =
      let (b, at, mine, fresh) = w.backed token stored (less-kept a token stored found) in
      let other = less-other a b token stored h found at mine in
      (b, ground (arith, lookup-delete a.key stored.attempt_id attempts), mine, fresh)

  less-keyed :
      (a : TunnelAttempt) (key : Text) (b : TunnelAttempt)
      → lookup key (less_attempts attempts a) ≡ some b
      → b.key ≡ key
  less-keyed a key b found = w.keyed key b (ground (arith, lookup-delete a.key key attempts))

  pub less-WellFormed :
      (a : TunnelAttempt)
      → IsHeld attempts a
      → WellFormed (less_attempts attempts a) (less_tokens tokens a)
  less-WellFormed a h = record {
    distinct = delete-Distinct a.key attempts w.distinct;
    keyed = less-keyed a;
    backed = λ token stored found. less-backed a token stored h found;
  }
