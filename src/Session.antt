-- ===== src/Session.antt =====
-- internal/relay/session/registry.go: the agent sessions that are connected to the relay. The map's
-- record pointers are not shared, so they are values here; a method returns the new registry, its
-- result and what it did to the peers, in order.
pub mod Ownership
mod Tests
use agent_tunnel.Base.{
  ℕ, ◌≡◌, Bool, true, false, not, ◌&&◌, ◌||◌, Option, none, some, List, [], ◌∷◌, ◌++◌, Eq, ◌==◌,
  nat_eq, if◌then◌else◌, length,
}
use agent_tunnel.Base.Int.{ℤ}
use agent_tunnel.Base.Text.{Text, is_empty, trim, text_eq}
use agent_tunnel.Base.Peer.{Peer, nil, conn, is_nil, peer_eq}
use agent_tunnel.Base.Dict.{Dict, lookup, insert, delete, retain, select}

-- protocol.SessionInfo
pub record SessionInfo : Type 0 where
  pub session_id : Text
  pub device_id : Text
  pub launcher : Text
  pub label : Text
  pub cwd : Text
  pub command_preview : Text
  pub git_branch : Text
  pub started_at : ℤ
  pub platform_family : Text
  pub platform_id : Text
  pub computer_name : Text
  pub launch_source : Text

pub record SessionOwner : Type 0 where
  pub user_id : ℕ
  pub agent_token_id : Text

pub record LiveSession : Type 0 where
  pub info : SessionInfo
  pub owner : SessionOwner
  pub peer : Peer

abbrev pub Registry : Type 0
Registry = Dict Text LiveSession

-- Deactivate() on a peer that has it, and Close().
pub data Effect : Type 0 where
  deactivated closed : Peer → Effect

abbrev pub deactivate : Peer → List Effect
deactivate nil = []
deactivate (conn n) = deactivated (conn n) ∷ []

abbrev pub close : Peer → List Effect
close nil = []
close (conn n) = closed (conn n) ∷ []

-- What happens to the session that a new one replaces.
replace_effects : Option LiveSession → Peer → List Effect
replace_effects none peer = []
replace_effects (some old) peer =
    (if old.peer == peer then [] else deactivate old.peer) ++ close old.peer

unfoldable pub register_owned :
    Registry → SessionInfo → SessionOwner → Peer → Registry × List Effect
unfolding replace_effects
register_owned r info owner peer = (
  insert info.session_id (record { info = info; owner = owner; peer = peer }) r,
  replace_effects (lookup info.session_id r) peer,
)

unfoldable pub register : Registry → SessionInfo → Peer → Registry × List Effect
register r info peer = register_owned r info (record { user_id = 0; agent_token_id = [] }) peer

unfoldable pub remove : Registry → Text → Registry
remove r session_id = delete session_id r

unfoldable pub disconnect_if_owner : Registry → Text → Peer → Registry × Bool × List Effect
disconnect_if_owner r session_id owner = elim (lookup session_id r) [
  | none ↦ (r, false, [])
  | some live ↦
      if is_nil owner || not (live.peer == owner)
      then (r, false, [])
      else (delete session_id r, true, deactivate owner ++ close owner)
]

unfoldable pub has_session : Registry → Text → Bool
has_session r session_id = elim (lookup session_id r) [ none ↦ false | some live ↦ true ]

set_source : Registry → Text → ℕ → Text → Registry × Bool
set_source r session_id user_id source = elim (lookup session_id r) [
  | none ↦ (r, false)
  | some live ↦
      let marked = record live { info = record (live.info) { launch_source = source } } in
      if not (live.owner.user_id == user_id) then (r, false) else (insert session_id marked r, true)
]

unfoldable pub set_launch_source_for_user : Registry → Text → ℕ → Text → Registry × Bool
unfolding set_source
set_launch_source_for_user r session_id user_id launch_source =
    if is_empty (trim launch_source)
    then (r, false)
    else set_source r session_id user_id (trim launch_source)

abbrev pub each_peer : (Peer → List Effect) → List LiveSession → List Effect
each_peer f [] = []
each_peer f (live ∷ rest) = f live.peer ++ each_peer f rest

-- disconnectMatching: all that match are deactivated under the lock and closed behind it.
unfoldable pub disconnect_matching : Registry → (LiveSession → Bool) → Registry × ℕ × List Effect
disconnect_matching r matches =
    let gone = select (λ _ live. matches live) r in
    (
      retain (λ _ live. not (matches live)) r,
      length gone,
      each_peer deactivate gone ++ each_peer close gone,
    )

unfoldable pub disconnect_user_sessions : Registry → ℕ → Registry × ℕ × List Effect
disconnect_user_sessions r user_id = disconnect_matching r (λ live. live.owner.user_id == user_id)

unfoldable pub disconnect_agent_token_sessions : Registry → Text → Registry × ℕ × List Effect
disconnect_agent_token_sessions r token_id =
    disconnect_matching r (λ live. live.owner.agent_token_id == token_id)
