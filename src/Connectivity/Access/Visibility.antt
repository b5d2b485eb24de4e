-- ===== src/Connectivity/Access/Visibility.antt =====
-- Which daemons an app sees.
use agent_tunnel.Base.{
  Any, here, there, ◌≡◌, refl, ap, ◌∙◌, Bool, true, ◌&&◌, inl, inr, some, List, [], ◌∷◌, map, arith,
  ◌==◌, nat_eq, All, All-map, Bool-cases,
}
use agent_tunnel.Base.Text.{Text, text_eq}
use agent_tunnel.Base.Dict.{Dict, lookup, has, select, select-found, Distinct}
use agent_tunnel.Connectivity.{Registry, AppOwner, LiveDaemon}
use agent_tunnel.Connectivity.Access.{before, place, sort_daemons, visible_daemons}

-- A daemon of the registry that the app may see: it is the user's own and trusts the app's device.
abbrev pub IsVisible : Registry → AppOwner → LiveDaemon → Type 0
IsVisible r owner live =
    (key : Text) × (lookup key r.daemons ≡ some live)
    × (live.owner.user_id ≡ owner.user_id)
    × (has owner.device_fingerprint live.trusted ≡ true)

module _ (P : LiveDaemon → Type 0) where
  place-All : (d : LiveDaemon) (l : List LiveDaemon) → P d → All P l → All P (place d l)
  unfolding place
  place-All d [] p h = (p, tt)
  place-All d (x ∷ l) p h = elim (Bool-cases (before x d)) [
    | inl e ↦ rw e (h.0, place-All d l p h.1)
    | inr e ↦ rw e (p, h)
  ]

  sort-All : (l : List LiveDaemon) → All P l → All P (sort_daemons l)
  unfolding sort_daemons
  sort-All [] h = tt
  sort-All (d ∷ l) h = place-All d (sort_daemons l) h.0 (sort-All l h.1)

infos-All :
    (P : LiveDaemon → Type 0) (l : List LiveDaemon)
    → All P l
    → All (λ info. (live : LiveDaemon) × (info ≡ live.info) × P live) (map (λ live. live.info) l)
infos-All P [] h = tt
infos-All P (d ∷ l) h = ((d, refl, h.0), infos-All P l h.1)

select-IsVisible :
    (r : Registry) (owner : AppOwner)
    → Distinct r.daemons
    → All (IsVisible r owner) (
        select
          (λ _ live.
            live.owner.user_id == owner.user_id && has owner.device_fingerprint live.trusted)
          r.daemons)
select-IsVisible r owner d =
    All-map _ (IsVisible r owner) (λ live h. (h.0, h.1, ground arith, ground arith)) _
      (select-found
        (λ _ live. live.owner.user_id == owner.user_id && has owner.device_fingerprint live.trusted)
        r.daemons d)

-- Where no key stands twice in the map of the daemons, an app is shown no daemon but those of its own
-- user that trust its device.
pub visible_daemons-IsVisible :
    (r : Registry) (owner : AppOwner)
    → Distinct r.daemons
    → All
        (λ info. (live : LiveDaemon) × (info ≡ live.info) × IsVisible r owner live)
        (visible_daemons r owner)
unfolding visible_daemons
visible_daemons-IsVisible r owner d =
    infos-All (IsVisible r owner) _ (sort-All (IsVisible r owner) _ (select-IsVisible r owner d))

module _ (P : LiveDaemon → Type 0) where
  place-new : (d : LiveDaemon) (l : List LiveDaemon) → P d → Any P (place d l)
  unfolding place
  place-new d [] h = here d [] h
  place-new d (x ∷ l) h = elim (Bool-cases (before x d)) [
    | inl e ↦ rw e (there x (place d l) (place-new d l h))
    | inr e ↦ rw e (here d (x ∷ l) h)
  ]

  place-Any : (d : LiveDaemon) (l : List LiveDaemon) → Any P l → Any P (place d l)
  unfolding place
  place-Any d [] h = elim h [ ]
  place-Any d (x ∷ l) (here _ _ h) = elim (Bool-cases (before x d)) [
    | inl e ↦ rw e (here x (place d l) h)
    | inr e ↦ rw e (there d (x ∷ l) (here x l h))
  ]
  place-Any d (x ∷ l) (there _ _ h) = elim (Bool-cases (before x d)) [
    | inl e ↦ rw e (there x (place d l) (place-Any d l h))
    | inr e ↦ rw e (there d (x ∷ l) (there x l h))
  ]

  sort-Any : (l : List LiveDaemon) → Any P l → Any P (sort_daemons l)
  unfolding sort_daemons
  sort-Any [] h = elim h [ ]
  sort-Any (d ∷ l) (here _ _ h) = place-new d (sort_daemons l) h
  sort-Any (d ∷ l) (there _ _ h) = place-Any d (sort_daemons l) (sort-Any l h)

select-Any :
    (p : Text → LiveDaemon → Bool) (m : Dict Text LiveDaemon) (key : Text) (live : LiveDaemon)
    → lookup key m ≡ some live
    → p key live ≡ true
    → Any (λ x. x ≡ live) (select p m)
unfolding select lookup
select-Any p [] key live found shown = cc
select-Any p ((j, x) ∷ m) key live found shown = elim (Bool-cases (j == key)) [
  | inl e ↦
      let same : x ≡ live = ground arith in
      let here_j : j ≡ key = ground arith in
      let passes : p j x ≡ true = ap (λ k. p k x) here_j ∙ ap (p key) same ∙ shown in
      rw passes (here x (select p m) same)
  | inr e ↦
      let rest = select-Any p m key live (ground arith) shown in
      elim (Bool-cases (p j x)) [ inl f ↦ rw f (there x (select p m) rest) | inr f ↦ rw f rest ]
]

infos-Any :
    (live : LiveDaemon) (l : List LiveDaemon)
    → Any (λ x. x ≡ live) l
    → Any (λ info. info ≡ live.info) (map (λ x. x.info) l)
infos-Any live [] h = elim h [ ]
infos-Any live (d ∷ l) (here _ _ h) = here d.info _ (ap (λ (x : LiveDaemon). x.info) h)
infos-Any live (d ∷ l) (there _ _ h) = there d.info _ (infos-Any live l h)

-- An app is shown every daemon of its own user that trusts its device.
pub visible_daemons-Any :
    (r : Registry) (owner : AppOwner) (live : LiveDaemon)
    → IsVisible r owner live
    → Any (λ info. info ≡ live.info) (visible_daemons r owner)
unfolding visible_daemons
visible_daemons-Any r owner live (key, found, own, trusting) = infos-Any live _ (
    sort-Any (λ x. x ≡ live) _
      (select-Any
        (λ _ x. x.owner.user_id == owner.user_id && has owner.device_fingerprint x.trusted)
        r.daemons key live found (ground arith)))
