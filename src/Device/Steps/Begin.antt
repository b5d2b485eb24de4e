-- ===== src/Device/Steps/Begin.antt =====
-- A launch that begins keeps the registry in order.
use agent_tunnel.Base.{
  ℕ, ◌≡◌, refl, sym, ap, ◌∙◌, true, false, none, some, ◌==◌, nat_eq, Bool-cases, Option-cases, inl,
  inr, arith,
}
use agent_tunnel.Base.Text.{Text, text_eq}
use agent_tunnel.Base.Peer.{peer_eq}
use agent_tunnel.Base.Dict.{lookup, insert, lookup-insert, insert-Distinct, lookup-insert_self}
use agent_tunnel.Device.{Registry, LiveDevice, LaunchRequest}
use agent_tunnel.Device.Clock.{launch_request_id}
use agent_tunnel.Device.Ids.{launch_request_id-device}
use agent_tunnel.Device.Requests.{has_pending_request}
use agent_tunnel.Device.Launch.{new_request, begin_on, begin_launch}
use agent_tunnel.Device.InFlight.{
  InOrder, Tidy, all, store-InOrder, IsNamed, has_pending-found, has_pending-insert_other,
}

-- No launch waits under an id of a device that is not in flight.
pub unused_id :
    (r : Registry) (device : Text) (now : ℕ)
    → Tidy all r
    → has_pending_request r.requests device ≡ false
    → lookup (launch_request_id device now) r.requests ≡ none
unused_id r device now w free =
    elim (Option-cases (lookup (launch_request_id device now) r.requests)) [
      | inl e ↦ e
      | inr (q, e) ↦
          let (_, _, (earlier, named)) = w.named (launch_request_id device now) q e in
          let same = launch_request_id-device device q.device_id now earlier named in
          absurd (cc (free, has_pending-found _ device q r.requests e (ground (arith, same))))
    ]

entered-IsNamed :
    (r : Registry) (device : Text) (live : LiveDevice) (now : ℕ)
    → Tidy all r
    → let id = launch_request_id device now in
      (k : Text) (p : LaunchRequest)
      → lookup k (insert id (new_request id device live) r.requests) ≡ some p
      → IsNamed k p
entered-IsNamed r device live now w k p h =
    let id = launch_request_id device now in
    let q = new_request id device live in
    elim (Bool-cases (id == k)) [
      | inl e ↦
          let same : k ≡ id = ground (arith, e) in
          let found : p ≡ q = ground (arith, h, lookup-insert id k q r.requests) in
          (
            cc (same, ap (λ s. s.id) found),
            ap (λ s. s.completed) found,
            (now, same ∙ ap (λ s. launch_request_id s.device_id now) (sym found)),
          )
      | inr e ↦ w.named k p (ground (arith, h, lookup-insert id k q r.requests))
    ]

entered-InOrder :
    (r : Registry) (device : Text) (live : LiveDevice) (now : ℕ)
    → lookup device r.devices ≡ some live
    → live.in_flight ≡ false
    → Tidy all r
    → let id = launch_request_id device now in
      InOrder all
        (insert device (record live { in_flight = true }) r.devices)
        (insert id (new_request id device live) r.requests)
entered-InOrder r device live now at free w =
    let id = launch_request_id device now in
    let q = new_request id device live in
    let unused = unused_id r device now w (sym (w.flagged device live refl at) ∙ free) in
    store-InOrder r.devices (insert id q r.requests) device (record live { in_flight = true })
      (sym (has_pending-found id device q _ (lookup-insert_self id q r.requests) (ground arith)))
      (record {
        distinct = insert-Distinct id q r.requests w.distinct;
        named = entered-IsNamed r device live now w;
        flagged = λ d other ok h.
            w.flagged d other refl h
            ∙ sym (has_pending-insert_other id d q r.requests unused (ground arith));
      })

begin_on-Tidy :
    (r : Registry) (device : Text) (live : LiveDevice) (user now : ℕ)
    → lookup device r.devices ≡ some live
    → Tidy all r
    → Tidy all (begin_on r device live user (launch_request_id device now)).0
unfolding begin_on
begin_on-Tidy r device live user now at w = elim (Bool-cases live.in_flight) [
  | inl e ↦ ground (arith, w)
  | inr e ↦ ground (arith, w, entered-InOrder r device live now at e w)
]

pub begin_launch-Tidy :
    (r : Registry) (device : Text) (user now : ℕ)
    → Tidy all r
    → Tidy all (begin_launch r device user now).0
unfolding begin_launch
begin_launch-Tidy r device user now w = elim (Option-cases (lookup device r.devices)) [
  | inl e ↦ ground (arith, w)
  | inr (live, e) ↦ ground (arith, w, begin_on-Tidy r device live user now e w)
]
