-- ===== src/Device/Lifecycle/Steps.antt =====
-- Every step of the registry is a step of the abstract machine.
use agent_tunnel.Base.{
  ℕ, ◌≡◌, refl, sym, ap, ◌∙◌, subst, true, false, not, ◌&&◌, ◌⊎◌, none, some, ◌==◌, nat_eq,
  Bool-cases, Option-cases, inl, inr, arith,
}
use agent_tunnel.Base.Text.{
  Text, text_eq, is_empty, trim, trim_idem, trim-nil, codes, Text-discrete,
}
use agent_tunnel.Base.Peer.{Peer, peer_eq}
use agent_tunnel.Base.Dict.{Dict, lookup, insert, lookup-insert}
use agent_tunnel.Device.{Registry, LaunchRequest, LiveDevice, DeviceOwner, same_owner}
use agent_tunnel.Device.Clock.{launch_request_id}
use agent_tunnel.Device.Launch.{
  begin_launch, begin_on, new_request, resolve_launch_if_owner, complete_launch_if_owner,
}
use agent_tunnel.Device.Machine.{Op, launch_begun, launch_resolved, launch_completed}
use agent_tunnel.Device.InFlight.{Tidy, all}
use agent_tunnel.Device.Steps.Begin.{unused_id}
use agent_tunnel.Device.Lifecycle.{
  waiting, phase, begins, gives_up, accepts, hears, advance, Allowed, begun, refused, answered,
  heard,
}
use agent_tunnel.Device.Lifecycle.Resolved.{
  answered_entry, heard_entry, requests-resolve, requests-resolve_missing, requests-complete_launch,
  requests-complete_missing,
}
use agent_tunnel.Device.Lifecycle.Simulation.{Simulated, gives_up-absent, idle, at_key}

answered-phase :
    (q : LaunchRequest) (workspace : Text)
    → q.completed ≡ false
    → phase (answered_entry q (codes "accepted") workspace) ≡ advance (phase (some q)) accepts
unfolding Text-discrete
answered-phase q workspace uncompleted = ground arith

heard-phase :
    (q : LaunchRequest) (session : Text)
    → q.completed ≡ false
    → phase (heard_entry q (trim session)) ≡ advance (phase (some q)) (hears (trim session))
heard-phase q session uncompleted = ground (arith, trim_idem session)

answer_own :
    (k status reason workspace : Text) (q : LaunchRequest)
    → q.completed ≡ false
    → Simulated
        (launch_resolved q.device_id q.peer k status reason workspace)
        k
        (some q)
        (answered_entry q status workspace)
unfolding Text-discrete
answer_own k status reason workspace q uncompleted =
    let op : Text → Op = λ s. launch_resolved q.device_id q.peer k s reason workspace in
    elim (Bool-cases (status == codes "accepted")) [
      | inl e ↦
          let accepting : codes "accepted" ≡ status = ground (arith, e) in
          subst (λ s. Simulated (op s) k (some q) (answered_entry q s workspace)) accepting
            (accepts, answered q k reason workspace, answered-phase q workspace uncompleted)
      | inr e ↦ elim (Bool-cases (status == codes "failed")) [
        | inl f ↦
            let failing : codes "failed" ≡ status = ground (arith, f) in
            subst (λ s. Simulated (op s) k (some q) (answered_entry q s workspace)) failing
              (gives_up, refused q k reason workspace, gives_up-absent (phase (some q)))
        | inr f ↦ idle (op status) k _ _ (rw (e, f) refl)
      ]
    ]

answer_found :
    (device : Text) (peer : Peer) (k status reason workspace : Text) (q : LaunchRequest)
    → q.completed ≡ false
    → (q.device_id == device && q.peer == peer) ≡ true
    → Simulated
        (launch_resolved device peer k status reason workspace)
        k
        (some q)
        (answered_entry q status workspace)
answer_found device peer k status reason workspace q uncompleted own =
    let same_device : q.device_id ≡ device = ground (arith, own) in
    let same_peer : q.peer ≡ peer = ground (arith, own) in
    let after = answered_entry q status workspace in
    subst (λ d. Simulated (launch_resolved d peer k status reason workspace) k (some q) after)
      same_device
      (subst
        (λ p. Simulated (launch_resolved q.device_id p k status reason workspace) k (some q) after)
        same_peer (answer_own k status reason workspace q uncompleted))

pub answer :
    (r : Registry) (device : Text) (peer : Peer) (k id status reason workspace : Text)
    → Tidy all r
    → Simulated
        (launch_resolved device peer k status reason workspace)
        id
        (lookup id r.requests)
        (lookup id (resolve_launch_if_owner r device peer k status reason workspace).0.requests)
answer r device peer k id status reason workspace w =
    let op = launch_resolved device peer k status reason workspace in
    elim (Option-cases (lookup k r.requests)) [
      | inl e ↦ idle op id _ _ (
          ap (λ s. lookup id s.requests)
            (requests-resolve_missing r device peer k status reason workspace e))
      | inr (q, e) ↦
          at_key op k id (q.device_id == device && q.peer == peer) q
            (answered_entry q status workspace) r.requests _ e
            (requests-resolve r device peer k id status reason workspace q e)
            (answer_found device peer k status reason workspace q (w.named k q e).1)
    ]

hearing_found :
    (k session : Text) (owner : DeviceOwner) (q : LaunchRequest)
    → q.completed ≡ false
    → (same_owner q.owner owner && not (is_empty (trim session))) ≡ true
    → Simulated (launch_completed k owner session) k (some q) (heard_entry q (trim session))
hearing_found k session owner q uncompleted own =
    let mine : q.owner ≡ owner = ground (arith, own) in
    let known : is_empty (trim session) ≡ false = ground (arith, own) in
    subst (λ o. Simulated (launch_completed k o session) k (some q) (heard_entry q (trim session)))
      mine (hears (trim session), heard q k session known, heard-phase q session uncompleted)

pub hearing :
    (r : Registry) (k id session : Text) (owner : DeviceOwner)
    → Tidy all r
    → Simulated
        (launch_completed k owner session)
        id
        (lookup id r.requests)
        (lookup id (complete_launch_if_owner r k owner session).0.requests)
hearing r k id session owner w =
    let op = launch_completed k owner session in
    elim (Option-cases (lookup k r.requests)) [
      | inl e ↦ idle op id _ _ (ap (lookup id) (requests-complete_missing r k session owner e))
      | inr (q, e) ↦
          at_key op k id (same_owner q.owner owner && not (is_empty (trim session))) q
            (heard_entry q (trim session)) r.requests _ e
            (requests-complete_launch r k id session owner q e)
            (hearing_found k session owner q (w.named k q e).1)
    ]

-- What begin_launch leaves: the registry as it was, or a new launch of a device that had none.
requests-begin_on :
    (r : Registry) (device : Text) (live : LiveDevice) (user now : ℕ)
    → let id = launch_request_id device now in
      let after = (begin_on r device live user id).0.requests in
      (after ≡ r.requests)
      ⊎ ((live.in_flight ≡ false) × (after ≡ insert id (new_request id device live) r.requests))
unfolding begin_on
requests-begin_on r device live user now = ground arith

requests-begin_found :
    (r : Registry) (device : Text) (live : LiveDevice) (user now : ℕ)
    → lookup device r.devices ≡ some live
    → (begin_launch r device user now).0
      ≡ (begin_on r device live user (launch_request_id device now)).0
unfolding begin_launch
requests-begin_found r device live user now at = ground (arith, at)

requests-begin_missing :
    (r : Registry) (device : Text) (user now : ℕ)
    → lookup device r.devices ≡ none
    → (begin_launch r device user now).0 ≡ r
unfolding begin_launch
requests-begin_missing r device user now at = ground (arith, at)

entering :
    (m : Dict Text LaunchRequest) (device id : Text) (live : LiveDevice) (user now : ℕ)
    → lookup (launch_request_id device now) m ≡ none
    → let k = launch_request_id device now in
      Simulated
        (launch_begun device user now)
        id
        (lookup id m)
        (lookup id (insert k (new_request k device live) m))
entering m device id live user now unused =
    let k = launch_request_id device now in
    let op = launch_begun device user now in
    let q = new_request k device live in
    let result = lookup-insert k id q m in
    elim (Bool-cases (k == id)) [
      | inl e ↦
          let same_key : k ≡ id = ground (arith, e) in
          let stored : lookup id (insert k q m) ≡ some q = result ∙ rw e refl in
          let before : none ≡ lookup id m = sym unused ∙ ap (λ i. lookup i m) same_key in
          subst (λ o. Simulated op id o (lookup id (insert k q m))) before
            (
              begins,
              subst (λ i. Allowed none op i begins) same_key (begun device user now),
              ap phase stored ∙ ap waiting trim-nil,
            )
      | inr e ↦ idle op id _ _ (result ∙ rw e refl)
    ]

pub beginning :
    (r : Registry) (device id : Text) (user now : ℕ)
    → Tidy all r
    → Simulated
        (launch_begun device user now)
        id
        (lookup id r.requests)
        (lookup id (begin_launch r device user now).0.requests)
beginning r device id user now w =
    let op = launch_begun device user now in
    let k = launch_request_id device now in
    elim (Option-cases (lookup device r.devices)) [
      | inl e ↦
          idle op id _ _
            (ap (λ s. lookup id s.requests) (requests-begin_missing r device user now e))
      | inr (live, e) ↦
          let found = ap (λ s. s.requests) (requests-begin_found r device live user now e) in
          elim (requests-begin_on r device live user now) [
            | inl refused_ ↦ idle op id _ _ (ap (lookup id) (found ∙ refused_))
            | inr (free, entered) ↦
                let unused = unused_id r device now w (sym (w.flagged device live refl e) ∙ free) in
                subst (λ m. Simulated op id (lookup id r.requests) (lookup id m))
                  (sym (found ∙ entered)) (entering r.requests device id live user now unused)
          ]
    ]
