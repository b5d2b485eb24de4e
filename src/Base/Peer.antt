-- ===== src/Base/Peer.antt =====
-- A connection as the relay's registries know it: an interface value, compared by identity.
use Prim.Native.Nat.{ℕ}
use native.Mathlib.Decide.{ℕ_discrete}
use mathlib.Core.Path.{◌≡◌, refl}
use mathlib.Core.Bool.{Bool, true, false}
use agent_tunnel.Base.Tests.{Eq}

pub data Peer : Type 0 where
  nil : Peer
  conn : ℕ → Peer

conn_discrete : (a b : ℕ) → Dec (a ≡ b) → Dec (conn a ≡ conn b)
conn_discrete a b (yes p) = yes (cc)
conn_discrete a b (no h) = no (λ e. h (cc))

unfoldable pub Peer-discrete : Discrete Peer
unfolding conn_discrete ℕ_discrete
Peer-discrete nil nil = yes refl
Peer-discrete nil (conn b) = no (λ e. cc)
Peer-discrete (conn a) nil = no (λ e. cc)
Peer-discrete (conn a) (conn b) = conn_discrete a b (ℕ_discrete a b)

instance abbrev pub peer_eq : Eq Peer
peer_eq = record { eq? = Peer-discrete }

abbrev pub is_nil : Peer → Bool
is_nil nil = true
is_nil (conn n) = false
