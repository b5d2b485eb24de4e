-- ===== src/Device/Orders.antt =====
-- The answer of the device to a launch and the session that the launch starts, in both orders.
use agent_tunnel.Base.{
  ◌≡◌, refl, sym, ap, ◌∙◌, Bool, true, false, some, List, [], ◌∷◌, nat_eq, arith,
}
use agent_tunnel.Base.Text.{
  Text, text_eq, is_empty, trim, trim_idem, trim-nil, codes, Text-discrete,
}
use agent_tunnel.Base.Peer.{peer_eq}
use agent_tunnel.Base.Dict.{lookup, insert, insert-insert, lookup-insert_self}
use agent_tunnel.Device.{
  Registry, LaunchRequest, LaunchResult, Effect, LaunchCompletion, no_completion, no_target,
  launch_done,
}
use agent_tunnel.Device.Requests.{
  mark_accepted, mark_session_ready, is_accepted, registered_session_id, clear_request,
  complete_request, complete, complete_launch_request,
}
use agent_tunnel.Device.Launch.{
  resolve_launch_if_owner, resolve_request, resolve_accepted, complete_launch_if_owner,
  complete_marked, complete_ready_launch,
}

-- The launch waits for the device and for its session, and neither has come.
pub record IsFresh (r : Registry) (id : Text) (q : LaunchRequest) : Type 0 where
  pub found : lookup id r.requests ≡ some q
  pub uncompleted : q.completed ≡ false
  pub unaccepted : q.accepted ≡ false
  pub no_session : q.session_id ≡ []

abbrev stored : Registry → Text → LaunchRequest → Registry
stored r id p = record r { requests = insert id p r.requests }

stored-stored :
    (r : Registry) (id : Text) (p q : LaunchRequest) → stored (stored r id q) id p ≡ stored r id p
stored-stored r id p q = ap (λ m. record r { requests = m }) (insert-insert id p q r.requests)

-- The device accepts.
abbrev pub accept :
    Registry → Text → LaunchRequest → Text → Registry × LaunchCompletion × Bool × List Effect
accept r id q workspace =
    resolve_launch_if_owner r q.device_id q.peer id (codes "accepted") [] workspace

accept-found :
    (r : Registry) (id : Text) (q p : LaunchRequest) (workspace : Text)
    → lookup id r.requests ≡ some p
    → p.device_id ≡ q.device_id
    → p.peer ≡ q.peer
    → accept r id q workspace ≡ resolve_accepted r id (mark_accepted p workspace)
unfolding resolve_launch_if_owner resolve_request Text-discrete
accept-found r id q p workspace at same_device same_peer = ground (arith, at)

complete-found :
    (r : Registry) (id : Text) (q : LaunchRequest) (session : Text)
    → lookup id r.requests ≡ some q
    → is_empty (trim session) ≡ false
    → complete_launch_if_owner r id q.owner session
      ≡ complete_marked r id (mark_session_ready q (trim session)) (trim session)
unfolding complete_launch_if_owner
complete-found r id q session at some_session = ground (arith, at)

-- The launch once both have come.
abbrev marked : LaunchRequest → Text → Text → LaunchRequest
marked q workspace session = record q {
  accepted = true;
  workspace_session = trim workspace;
  session_id = trim session;
}

abbrev ended : Registry → Text → LaunchRequest → Text → Registry × LaunchCompletion × List Effect
ended r id p session = complete_ready_launch (stored r id p) id p session

completed-ended :
    (r : Registry) (id : Text) (p q : LaunchRequest) (session : Text)
    → is_accepted p ≡ true
    → let (after, completion, effects) = ended r id p session in
      complete_marked (stored r id q) id p session ≡ (after, completion.target, true, effects)
unfolding complete_marked
completed-ended r id p q session accepted = ground (arith, accepted, stored-stored r id p q)

accepted-ended :
    (r : Registry) (id : Text) (p q : LaunchRequest)
    → is_empty (registered_session_id p) ≡ false
    → let (after, completion, effects) = ended r id p (registered_session_id p) in
      resolve_accepted (stored r id q) id p ≡ (after, completion, true, effects)
unfolding resolve_accepted
accepted-ended r id p q ready = ground (arith, ready, stored-stored r id p q)

abbrev pub session_ready : Text → Text → LaunchResult
session_ready id session = record {
  request_id = id;
  status = codes "session_ready";
  session_id = session;
  reason = [];
}

ended-effects :
    (r : Registry) (id : Text) (p : LaunchRequest) (session : Text)
    → p.completed ≡ false
    → (ended r id p session).2 ≡ launch_done p.id (session_ready id session) ∷ []
unfolding complete_ready_launch complete_request clear_request complete_launch_request complete
ended-effects r id p session uncompleted =
    ground (arith, uncompleted, lookup-insert_self id p r.requests)

module _ (r : Registry) (id : Text) (q : LaunchRequest) (workspace session : Text)
    (f : IsFresh r id q) (some_session : is_empty (trim session) ≡ false) where
  abbrev answered : LaunchRequest
  answered = record q { accepted = true; workspace_session = trim workspace }

  abbrev registered : LaunchRequest
  registered = record q { session_id = trim session }

  no_session_yet : registered_session_id answered ≡ []
  no_session_yet = ground (arith, f.uncompleted, f.no_session, trim-nil)

  accept-first : accept r id q workspace ≡ (stored r id answered, no_completion, true, [])
  unfolding resolve_accepted
  accept-first =
      let e : mark_accepted q workspace ≡ answered = ground (arith, f.uncompleted) in
      accept-found r id q q workspace f.found refl refl
      ∙ ap (resolve_accepted r id) e
      ∙ ground (arith, no_session_yet)

  complete-second :
      let (after, completion, effects) = ended r id (marked q workspace session) (trim session) in
      complete_launch_if_owner (stored r id answered) id q.owner session
      ≡ (after, completion.target, true, effects)
  complete-second =
      let e : mark_session_ready answered (trim session) ≡ marked q workspace session =
        ground (arith, f.uncompleted, trim_idem session) in
      complete-found (stored r id answered) id answered session
        (lookup-insert_self id answered r.requests) some_session
      ∙ ap (λ p. complete_marked (stored r id answered) id p (trim session)) e
      ∙ completed-ended r id (marked q workspace session) answered (trim session)
          (ground (arith, f.uncompleted))

  complete-first :
      complete_launch_if_owner r id q.owner session ≡ (stored r id registered, no_target, false, [])
  unfolding complete_marked
  complete-first =
      let e : mark_session_ready q (trim session) ≡ registered =
        ground (arith, f.uncompleted, trim_idem session) in
      complete-found r id q session f.found some_session
      ∙ ap (λ p. complete_marked r id p (trim session)) e
      ∙ ground (arith, f.unaccepted)

  accept-second :
      let (after, completion, effects) = ended r id (marked q workspace session) (trim session) in
      accept (stored r id registered) id q workspace ≡ (after, completion, true, effects)
  accept-second =
      let both = marked q workspace session in
      let e : mark_accepted registered workspace ≡ both = ground (arith, f.uncompleted) in
      let known : registered_session_id both ≡ trim session =
        ground (arith, f.uncompleted, trim_idem session) in
      accept-found (stored r id registered) id q registered workspace
        (lookup-insert_self id registered r.requests) refl refl
      ∙ ap (resolve_accepted (stored r id registered) id) e
      ∙ accepted-ended r id both registered (ap is_empty known ∙ some_session)
      ∙ ap
          (λ s.
            let (after, completion, effects) = ended r id both s in
            (after, completion, true, effects))
          known

  -- Whichever comes first, the answer of the device or the session: both orders end in the same
  -- registry, hand out the same target, and the caller of the launch learns the session.
  pub accept-complete_launch :
      let answered_first = (accept r id q workspace).0 in
      let session_first = (complete_launch_if_owner r id q.owner session).0 in
      let (after, target, known, effects) =
        complete_launch_if_owner answered_first id q.owner session in
      let (after', completion, resolved, effects') = accept session_first id q workspace in
      (after ≡ after')
      × (target ≡ completion.target)
      × (known ≡ true)
      × (resolved ≡ true)
      × (effects ≡ launch_done q.id (session_ready id (trim session)) ∷ [])
      × (effects' ≡ launch_done q.id (session_ready id (trim session)) ∷ [])
  unfolding complete_ready_launch
  accept-complete_launch =
      let left = ap (λ s. complete_launch_if_owner s.0 id q.owner session) accept-first in
      let right = ap (λ s. accept s.0 id q workspace) complete-first in
      let one = left ∙ complete-second in
      let other = right ∙ accept-second in
      let told = ended-effects r id (marked q workspace session) (trim session) f.uncompleted in
      (
        ap (λ s. s.0) one ∙ sym (ap (λ s. s.0) other),
        ap (λ s. s.1) one ∙ sym (ap (λ s. s.1.target) other),
        ap (λ s. s.2) one,
        ap (λ s. s.2) other,
        ap (λ s. s.3) one ∙ told,
        ap (λ s. s.3) other ∙ told,
      )
