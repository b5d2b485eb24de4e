-- ===== src/Session/Tests.antt =====
-- Runs of the session registry, and its theorems at concrete inputs.
use agent_tunnel.Base.{
  ◌≡◌, refl, true, false, none, [], ◌∷◌, arith, ◌==◌, nat_eq, ℕ_discrete, if◌then◌else◌,
}
use agent_tunnel.Base.Int.{pos}
use agent_tunnel.Base.Text.{codes, text_eq, Text-discrete}
use agent_tunnel.Base.Peer.{conn, Peer-discrete}
use agent_tunnel.Base.Dict.{lookup, insert, delete}
use agent_tunnel.Session.{
  Registry, SessionInfo, SessionOwner, register_owned, disconnect_if_owner, deactivated, closed,
}
use agent_tunnel.Session.Ownership.{disconnect-register_replaced, disconnect-register_self}

abbrev shell : SessionInfo
shell = record {
  session_id = codes "s";
  device_id = codes "d";
  launcher = [];
  label = [];
  cwd = [];
  command_preview = [];
  git_branch = [];
  started_at = pos 1;
  platform_family = [];
  platform_id = [];
  computer_name = [];
  launch_source = [];
}

abbrev alice : SessionOwner
alice = record { user_id = 1; agent_token_id = codes "t" }

abbrev live : Registry
live = (register_owned [] shell alice (conn 1)).0

ended : (disconnect_if_owner live (codes "s") (conn 1)).0 ≡ []
unfolding register_owned disconnect_if_owner lookup insert delete Text-discrete Peer-discrete
    ℕ_discrete
ended = refl

disconnect-register_replaced_example :
    disconnect_if_owner (register_owned live shell alice (conn 2)).0 (codes "s") (conn 1)
    ≡ ((register_owned live shell alice (conn 2)).0, false, [])
disconnect-register_replaced_example =
    disconnect-register_replaced live shell alice (conn 1) (conn 2) (ground arith)

disconnect-register_self_example :
    let registered = (register_owned live shell alice (conn 2)).0 in
    let (after, done, effects) = disconnect_if_owner registered (codes "s") (conn 2) in
    (done ≡ true)
    × (effects ≡ deactivated (conn 2) ∷ closed (conn 2) ∷ [])
    × (lookup (codes "x") after
        ≡ (if codes "s" == codes "x" then none else lookup (codes "x") live))
disconnect-register_self_example = disconnect-register_self live shell alice 2 (codes "x")
