-- ===== src/Connectivity/Machine/Books.antt =====
-- What the relay remembers of revocations and of requests for tunnels, which most steps leave alone.
pub mod Apps
pub mod Daemons
pub mod Tunnels
pub mod Steps
use agent_tunnel.Base.{ℕ, ◌≡◌, ap, List}
use agent_tunnel.Base.Text.{Text}
use agent_tunnel.Base.Dict.{Dict}
use agent_tunnel.Connectivity.{Registry, LiveDaemon, TunnelAttempt}
use agent_tunnel.Connectivity.Removal.{remove_each}
use agent_tunnel.Connectivity.Removal.Frame.{remove_each_frame}

-- The revoked sessions, the cut-offs of the users, and the times of their requests.
abbrev pub books : Registry → Dict Text (Unit {0}) × Dict ℕ ℕ × Dict ℕ (List ℕ)
books r = (r.revoked_apps, r.user_app_cutoff, r.tunnel_requests)

-- With the daemons.
abbrev pub Accounts : Type 0
Accounts = (Dict Text (Unit {0}) × Dict ℕ ℕ × Dict ℕ (List ℕ)) × Dict Text LiveDaemon

abbrev pub accounts : Registry → Accounts
accounts r = (books r, r.daemons)

pub remove_each-accounts :
    (r : Registry) (l : List TunnelAttempt) → accounts (remove_each r l).0 ≡ accounts r
remove_each-accounts r l = ap accounts (remove_each_frame r l)

pub remove_each-books :
    (r : Registry) (l : List TunnelAttempt) → books (remove_each r l).0 ≡ books r
remove_each-books r l = ap (λ b. b.0) (remove_each-accounts r l)
