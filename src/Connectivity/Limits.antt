-- ===== src/Connectivity/Limits.antt =====
-- The limit on the requests of a user within a minute.
pub mod Window
use agent_tunnel.Base.{ℕ, ◌+◌, Bool, none, some, List, [], ◌∷◌, ◌++◌, nat_eq, ltb, length, keep}
use agent_tunnel.Base.Dict.{Dict, lookup, insert, delete}
use agent_tunnel.Connectivity.{Registry}

abbrev pub relay_tunnel_request_limit : ℕ
relay_tunnel_request_limit = 10

-- One minute.
abbrev pub relay_tunnel_request_window : ℕ
relay_tunnel_request_window = 60_000_000_000

-- `requestedAt.After(now.Add(-window))`
abbrev pub is_recent : ℕ → ℕ → Bool
is_recent now requested_at = ltb now (requested_at + relay_tunnel_request_window)

unfoldable pub store : Dict ℕ (List ℕ) → ℕ → List ℕ → Dict ℕ (List ℕ) × List ℕ
store d user [] = (delete user d, [])
store d user (t ∷ kept) = (insert user (t ∷ kept) d, t ∷ kept)

unfoldable pub prune : Dict ℕ (List ℕ) → ℕ → ℕ → List ℕ → Dict ℕ (List ℕ) × List ℕ
prune d user now [] = (d, [])
prune d user now (t ∷ requests) = store d user (keep (is_recent now) (t ∷ requests))

-- The user's recent requests, and the map without the older ones.
unfoldable pub recent_requests : Dict ℕ (List ℕ) → ℕ → ℕ → Dict ℕ (List ℕ) × List ℕ
unfolding prune store
recent_requests d user now = elim (lookup user d) [
  | none ↦ (d, [])
  | some requests ↦ prune d user now requests
]

unfoldable pub record_request : Dict ℕ (List ℕ) → ℕ → ℕ → Dict ℕ (List ℕ)
record_request d user now =
    let (d', recent) = recent_requests d user now in insert user (recent ++ now ∷ []) d'

unfoldable pub allow_relay_tunnel_request : Registry → ℕ → ℕ → Registry × Bool
allow_relay_tunnel_request r user now =
    let (d, recent) = recent_requests r.tunnel_requests user now in
    (record r { tunnel_requests = d }, ltb (length recent) relay_tunnel_request_limit)

unfoldable pub record_relay_tunnel_request : Registry → ℕ → ℕ → Registry
record_relay_tunnel_request r user now = record r {
  tunnel_requests = record_request r.tunnel_requests user now;
}

unfoldable pub allow_rendezvous_request : Registry → ℕ → ℕ → Registry × Bool
allow_rendezvous_request r user now =
    let (d, recent) = recent_requests r.rendezvous_requests user now in
    (record r { rendezvous_requests = d }, ltb (length recent) relay_tunnel_request_limit)

unfoldable pub record_rendezvous_request : Registry → ℕ → ℕ → Registry
record_rendezvous_request r user now = record r {
  rendezvous_requests = record_request r.rendezvous_requests user now;
}
