-- ===== src/Connectivity/Removal/Frame.antt =====
-- What a removal leaves alone.
use agent_tunnel.Base.{ℕ, ◌≡◌, refl, some, List, [], ◌∷◌, arith}
use agent_tunnel.Base.Text.{Text, text_eq}
use agent_tunnel.Base.Dict.{lookup, lookup-delete}
use agent_tunnel.Connectivity.{Registry, TunnelAttempt}
use agent_tunnel.Connectivity.Removal.{
  remove_tunnel_attempt, remove_each, sweep_expired_tunnel_attempts,
}

-- `r` with the attempts and tokens of another registry.
abbrev pub with_tunnels_of : Registry → Registry → Registry
with_tunnels_of r s = record r { attempts = s.attempts; tokens = s.tokens }

-- Only attempts and tokens are taken out.
pub remove_each_frame :
    (r : Registry) (l : List TunnelAttempt)
    → (remove_each r l).0 ≡ with_tunnels_of r (remove_each r l).0
unfolding remove_each remove_tunnel_attempt
remove_each_frame r [] = refl
remove_each_frame r (a ∷ l) = remove_each_frame (remove_tunnel_attempt r a).0 l

pub sweep_frame :
    (r : Registry) (now : ℕ)
    → (sweep_expired_tunnel_attempts r now).0
      ≡ with_tunnels_of r (sweep_expired_tunnel_attempts r now).0
unfolding sweep_expired_tunnel_attempts
sweep_frame r now = remove_each_frame r _

-- An attempt that is still there was there before, and so was a token.
pub lookup-remove_each :
    (r : Registry) (l : List TunnelAttempt) (key : Text) (a : TunnelAttempt)
    → lookup key (remove_each r l).0.attempts ≡ some a
    → lookup key r.attempts ≡ some a
unfolding remove_each remove_tunnel_attempt
lookup-remove_each r [] key a h = h
lookup-remove_each r (b ∷ l) key a h = ground (
  arith,
  lookup-remove_each (remove_tunnel_attempt r b).0 l key a h,
  lookup-delete b.key key r.attempts,
)
