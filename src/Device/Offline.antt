-- ===== src/Device/Offline.antt =====
-- What the loops over the requests of a lost device keep.
use agent_tunnel.Base.{
  ◌≡◌, refl, sym, ap, subst, ◌∙◌, Bool, true, false, none, ◌==◌, Bool-cases, Option-cases, inl, inr,
  arith,
}
use agent_tunnel.Base.Text.{Text, text_eq}
use agent_tunnel.Base.Dict.{Dict, lookup, delete, lookup-delete, for_each-kept}
use agent_tunnel.Device.{
  Registry, LiveDevice, LaunchRequest, LaunchResult, TerminateRequest, TerminateResult,
}
use agent_tunnel.Device.Requests.{
  set_in_flight, clear_request, has_other_pending_request, complete_unaccepted,
  complete_termination, clear_terminate_request, complete_device_requests,
  complete_device_terminate_requests,
}
use agent_tunnel.Device.Connections.{fail_requests, offline_launch, offline_termination}
use agent_tunnel.Device.InFlight.{InOrder, Tidy, all, all_but, lookup-set_in_flight, clear-Tidy}

pub clear_terminate-untouched :
    (r : Registry) (k : Text)
    → ((clear_terminate_request r k).0.devices ≡ r.devices)
      × ((clear_terminate_request r k).0.requests ≡ r.requests)
unfolding clear_terminate_request
clear_terminate-untouched r k = elim (Option-cases (lookup k r.terminate_requests)) [
  | inl e ↦ ground arith
  | inr (q, e) ↦ ground arith
]

termination-untouched :
    (device : Text) (result : TerminateResult) (k : Text) (q : TerminateRequest) (r : Registry)
    → ((complete_termination device result k q r).0.devices ≡ r.devices)
      × ((complete_termination device result k q r).0.requests ≡ r.requests)
unfolding complete_termination
termination-untouched device result k q r = ground (arith, clear_terminate-untouched r k)

-- What holds of the launches and the devices is not touched by the terminations.
pub terminations-untouched :
    (device : Text) (result : TerminateResult) (r : Registry)
    → ((complete_device_terminate_requests r device result).0.devices ≡ r.devices)
      × ((complete_device_terminate_requests r device result).0.requests ≡ r.requests)
unfolding complete_device_terminate_requests
terminations-untouched device result r =
    for_each-kept (λ s. (s.devices ≡ r.devices) × (s.requests ≡ r.requests))
      (complete_termination device result)
      (λ k q s kept.
        let (devices, requests) = termination-untouched device result k q s in
        (devices ∙ kept.0, requests ∙ kept.1))
      r.terminate_requests r (refl, refl)

mark-InOrder :
    (watched : Text → Bool) (devices : Dict Text LiveDevice) (requests : Dict Text LaunchRequest)
    (device : Text) (flag : Bool)
    → watched device ≡ false
    → InOrder watched devices requests
    → InOrder watched (set_in_flight device flag devices) requests
mark-InOrder watched devices requests device flag out w = record {
  distinct = w.distinct;
  named = w.named;
  flagged = λ d live ok h. elim (Bool-cases (device == d)) [
    | inl e ↦ ground arith
    | inr e ↦ w.flagged d live ok (ground (arith, lookup-set_in_flight device d flag devices))
  ];
}

unaccepted-Tidy :
    (watched : Text → Bool) (device : Text) (result : LaunchResult) (k : Text) (q : LaunchRequest)
    (r : Registry)
    → watched device ≡ false
    → Tidy watched r
    → Tidy watched (complete_unaccepted device result k q r).0
unfolding complete_unaccepted
unaccepted-Tidy watched device result k q r out w =
    ground
      (arith, mark-InOrder watched r.devices r.requests device true out w, clear-Tidy watched r k w)

pub fail_requests-Tidy :
    (watched : Text → Bool) (r : Registry) (device : Text)
    → watched device ≡ false
    → Tidy watched r
    → Tidy watched (fail_requests r device).0
unfolding fail_requests complete_device_requests
fail_requests-Tidy watched r device out w =
    let launches = (complete_device_requests r device offline_launch).0 in
    let kept : Tidy watched launches =
      for_each-kept (Tidy watched) (complete_unaccepted device offline_launch)
        (λ k q s kept. unaccepted-Tidy watched device offline_launch k q s out kept) r.requests r
        w in
    let last = (complete_device_terminate_requests launches device offline_termination).0 in
    let (devices, requests) = terminations-untouched device offline_termination launches in
    subst (λ m. InOrder watched m last.requests) (sym devices)
      (subst (InOrder watched launches.devices) (sym requests) kept)

missing-set_in_flight :
    (device other : Text) (flag : Bool) (m : Dict Text LiveDevice)
    → lookup device m ≡ none
    → lookup device (set_in_flight other flag m) ≡ none
missing-set_in_flight device other flag m h =
    ground (arith, h, lookup-set_in_flight other device flag m)

missing-clear_request :
    (device k : Text) (r : Registry)
    → lookup device r.devices ≡ none
    → lookup device (clear_request r k).0.devices ≡ none
unfolding clear_request
missing-clear_request device k r h = elim (Option-cases (lookup k r.requests)) [
  | inl e ↦ ground arith
  | inr (q, e) ↦ ground (
    arith,
    missing-set_in_flight device q.device_id (has_other_pending_request r.requests q.device_id k)
        r.devices h,
  )
]

missing-unaccepted :
    (device : Text) (result : LaunchResult) (k : Text) (q : LaunchRequest) (r : Registry)
    → lookup device r.devices ≡ none
    → lookup device (complete_unaccepted device result k q r).0.devices ≡ none
unfolding complete_unaccepted
missing-unaccepted device result k q r h = ground (
  arith,
  h,
  missing-set_in_flight device device true r.devices h,
  missing-clear_request device k r h,
)

-- A device that is gone does not come back.
pub missing-fail_requests :
    (r : Registry) (device : Text)
    → lookup device r.devices ≡ none
    → lookup device (fail_requests r device).0.devices ≡ none
unfolding fail_requests complete_device_requests
missing-fail_requests r device h =
    let launches = (complete_device_requests r device offline_launch).0 in
    let kept : lookup device launches.devices ≡ none =
      for_each-kept (λ s. lookup device s.devices ≡ none)
        (complete_unaccepted device offline_launch)
        (λ k q s kept. missing-unaccepted device offline_launch k q s kept) r.requests r h in
    ap (lookup device) (terminations-untouched device offline_termination launches).0 ∙ kept

watch_missing :
    (device : Text) (r : Registry)
    → lookup device r.devices ≡ none
    → Tidy (all_but device) r
    → Tidy all r
watch_missing device r h w = record {
  distinct = w.distinct;
  named = w.named;
  flagged = λ d live _ at. elim (Bool-cases (device == d)) [
    | inl e ↦ ground (arith, h, at, e)
    | inr e ↦ w.flagged d live (ground (arith, e)) at
  ];
}

delete_device-Tidy :
    (device : Text) (r : Registry)
    → Tidy all r
    → InOrder (all_but device) (delete device r.devices) r.requests
delete_device-Tidy device r w = record {
  distinct = w.distinct;
  named = w.named;
  flagged =
      λ d live _ h. w.flagged d live refl (ground (arith, h, lookup-delete device d r.devices));
}

-- A device leaves, with the launches that wait for it and are not accepted.
pub lose-Tidy :
    (device : Text) (r : Registry)
    → Tidy all r
    → Tidy all (fail_requests (record r { devices = delete device r.devices }) device).0
lose-Tidy device r w =
    let rest : Registry = record r { devices = delete device r.devices } in
    let gone : lookup device rest.devices ≡ none =
      ground (arith, lookup-delete device device r.devices) in
    watch_missing device (fail_requests rest device).0 (missing-fail_requests rest device gone) (
      fail_requests-Tidy (all_but device) rest device (ground arith)
        (delete_device-Tidy device r w))
