-- ===== src/Device/InFlight.antt =====
-- What it is that a registry is in order: the waiting launches stand under their own ids, none is
-- completed, and a device is marked in flight exactly if a launch for it waits.
use agent_tunnel.Base.{
  ℕ, ◌≡◌, refl, sym, ◌∙◌, subst, Bool, true, false, not, Option, none, some, [], ◌∷◌, ◌==◌,
  if◌then◌else◌, Bool-cases, Option-cases, inl, inr, arith,
}
use agent_tunnel.Base.Text.{Text, text_eq}
use agent_tunnel.Base.Dict.{
  Dict, lookup, insert, delete, Distinct, lookup-delete, lookup-insert, delete-Distinct,
  insert-Distinct,
}
use agent_tunnel.Device.{Registry, LiveDevice, LaunchRequest}
use agent_tunnel.Device.Clock.{launch_request_id}
use agent_tunnel.Device.Requests.{
  has_pending_request, has_other_pending_request, set_in_flight, clear_request,
}

delete_missing : (k : Text) (m : Dict Text LaunchRequest) → lookup k m ≡ none → delete k m ≡ m
unfolding lookup delete
delete_missing k [] h = refl
delete_missing k ((j, q) ∷ m) h = ground (arith, delete_missing k m)

pub has_pending-delete_other :
    (k d : Text) (q : LaunchRequest) (m : Dict Text LaunchRequest)
    → Distinct m
    → lookup k m ≡ some q
    → (q.device_id == d) ≡ false
    → has_pending_request (delete k m) d ≡ has_pending_request m d
unfolding lookup delete has_pending_request
has_pending-delete_other k d q [] dist h ne = cc
has_pending-delete_other k d q ((j, p) ∷ m) dist h ne =
    ground (arith, has_pending-delete_other k d q m dist.1, delete_missing j m dist.0)

pub has_other-delete :
    (k d : Text) (m : Dict Text LaunchRequest)
    → has_other_pending_request m d k ≡ has_pending_request (delete k m) d
unfolding delete has_pending_request has_other_pending_request
has_other-delete k d [] = refl
has_other-delete k d ((j, p) ∷ m) = ground (arith, has_other-delete k d m)

pub has_pending-found :
    (k d : Text) (q : LaunchRequest) (m : Dict Text LaunchRequest)
    → lookup k m ≡ some q
    → (q.device_id == d) ≡ true
    → has_pending_request m d ≡ true
unfolding lookup has_pending_request
has_pending-found k d q [] h e = cc
has_pending-found k d q ((j, p) ∷ m) h e = ground (arith, has_pending-found k d q m)

-- A launch that enters counts for its own device only.
pub has_pending-insert_other :
    (k d : Text) (q : LaunchRequest) (m : Dict Text LaunchRequest)
    → lookup k m ≡ none
    → (q.device_id == d) ≡ false
    → has_pending_request (insert k q m) d ≡ has_pending_request m d
unfolding has_pending_request insert
has_pending-insert_other k d q m h ne = ground (arith, delete_missing k m h)

abbrev pub flag_option : Bool → Option LiveDevice → Option LiveDevice
flag_option flag none = none
flag_option flag (some live) = some (record live { in_flight = flag })

pub lookup-set_in_flight :
    (device d : Text) (flag : Bool) (m : Dict Text LiveDevice)
    → lookup d (set_in_flight device flag m)
      ≡ (if device == d then flag_option flag (lookup d m) else lookup d m)
unfolding set_in_flight
lookup-set_in_flight device d flag m = elim (Option-cases (lookup device m)) [
  | inl e ↦ ground (arith, e)
  | inr (live, e) ↦ ground (arith, e, lookup-insert device d (record live { in_flight = flag }) m)
]

abbrev pub IsNamed : Text → LaunchRequest → Type 0
IsNamed k q =
    (q.id ≡ k) × (q.completed ≡ false) × ((now : ℕ) × (k ≡ launch_request_id q.device_id now))

-- The devices that fail the test are exempt.
pub record InOrder (watched : Text → Bool) (devices : Dict Text LiveDevice)
    (requests : Dict Text LaunchRequest) : Type 0 where
  pub distinct : Distinct requests
  pub named : (k : Text) (q : LaunchRequest) → lookup k requests ≡ some q → IsNamed k q
  pub flagged :
      (d : Text) (live : LiveDevice)
      → watched d ≡ true
      → lookup d devices ≡ some live
      → live.in_flight ≡ has_pending_request requests d

abbrev pub Tidy : (Text → Bool) → Registry → Type 0
Tidy watched r = InOrder watched r.devices r.requests

abbrev pub all : Text → Bool
all d = true

abbrev pub all_but : Text → Text → Bool
all_but device d = not (device == d)

pub all-all_but : (device : Text) (r : Registry) → Tidy all r → Tidy (all_but device) r
all-all_but device r w = record {
  distinct = w.distinct;
  named = w.named;
  flagged = λ d live _. w.flagged d live refl;
}

module _ (watched : Text → Bool) (devices : Dict Text LiveDevice)
    (requests : Dict Text LaunchRequest) (w : InOrder watched devices requests) where
  delete-IsNamed :
      (id k : Text) (q : LaunchRequest) → lookup k (delete id requests) ≡ some q → IsNamed k q
  delete-IsNamed id k q h = w.named k q (ground (arith, lookup-delete id k requests))

  cleared-flagged :
      (id : Text) (q : LaunchRequest)
      → lookup id requests ≡ some q
      → (d : Text) (live : LiveDevice) → watched d ≡ true
      → lookup d
          (set_in_flight q.device_id (has_other_pending_request requests q.device_id id) devices)
        ≡ some live
      → live.in_flight ≡ has_pending_request (delete id requests) d
  cleared-flagged id q at d live ok h =
      let flag = has_other_pending_request requests q.device_id id in
      elim (Bool-cases (q.device_id == d)) [
        | inl e ↦ ground (
          arith,
          e,
          h,
          lookup-set_in_flight q.device_id d flag devices,
          has_other-delete id q.device_id requests,
        )
        | inr e ↦ ground (
          arith,
          e,
          h,
          w.flagged d live ok,
          lookup-set_in_flight q.device_id d flag devices,
          has_pending-delete_other id d q requests w.distinct at,
        )
      ]

  pub cleared-InOrder :
      (id : Text) (q : LaunchRequest)
      → lookup id requests ≡ some q
      → InOrder watched
          (set_in_flight q.device_id (has_other_pending_request requests q.device_id id) devices)
          (delete id requests)
  cleared-InOrder id q at = record {
    distinct = delete-Distinct id requests w.distinct;
    named = delete-IsNamed id;
    flagged = cleared-flagged id q at;
  }

kept_missing :
    (watched : Text → Bool) (r : Registry) (id : Text)
    → lookup id r.requests ≡ none
    → Tidy watched r
    → InOrder watched r.devices (delete id r.requests)
kept_missing watched r id e w =
    subst (λ m. InOrder watched r.devices m) (sym (delete_missing id r.requests e)) w

pub clear-Tidy :
    (watched : Text → Bool) (r : Registry) (id : Text)
    → Tidy watched r
    → Tidy watched (clear_request r id).0
unfolding clear_request
clear-Tidy watched r id w = elim (Option-cases (lookup id r.requests)) [
  | inl e ↦ ground (arith, kept_missing watched r id e w)
  | inr (q, e) ↦ ground (arith, cleared-InOrder watched r.devices r.requests w id q e)
]

has_pending-remark :
    (id d : Text) (q p : LaunchRequest) (m : Dict Text LaunchRequest)
    → Distinct m
    → lookup id m ≡ some q
    → p.device_id ≡ q.device_id
    → has_pending_request (insert id p m) d ≡ has_pending_request m d
unfolding insert has_pending_request
has_pending-remark id d q p m dist at same = elim (Bool-cases (q.device_id == d)) [
  | inl e ↦ ground (arith, has_pending-found id d q m at e)
  | inr e ↦ ground (arith, has_pending-delete_other id d q m dist at e)
]

-- A waiting request changes in its place.
pub remark-InOrder :
    (watched : Text → Bool) (devices : Dict Text LiveDevice) (requests : Dict Text LaunchRequest)
    (id : Text) (q p : LaunchRequest)
    → lookup id requests ≡ some q
    → p.id ≡ q.id
    → p.device_id ≡ q.device_id
    → p.completed ≡ q.completed
    → InOrder watched devices requests
    → InOrder watched devices (insert id p requests)
remark-InOrder watched devices requests id q p at same_id same_device same_completed w = record {
  distinct = insert-Distinct id p requests w.distinct;
  named = λ k s h. elim (Bool-cases (id == k)) [
    | inl e ↦ ground (arith, lookup-insert id k p requests, w.named id q at)
    | inr e ↦ w.named k s (ground (arith, lookup-insert id k p requests))
  ];
  flagged = λ d live ok h.
      w.flagged d live ok h ∙ sym (has_pending-remark id d q p requests w.distinct at same_device);
}

-- A device enters the map with the right mark.
pub store-InOrder :
    (devices : Dict Text LiveDevice) (requests : Dict Text LaunchRequest) (device : Text)
    (live : LiveDevice)
    → live.in_flight ≡ has_pending_request requests device
    → InOrder (all_but device) devices requests
    → InOrder all (insert device live devices) requests
store-InOrder devices requests device live mark w = record {
  distinct = w.distinct;
  named = w.named;
  flagged = λ d other _ h. elim (Bool-cases (device == d)) [
    | inl e ↦ ground (arith, lookup-insert device d live devices)
    | inr e ↦ w.flagged d other (rw e refl) (ground (arith, lookup-insert device d live devices))
  ];
}
