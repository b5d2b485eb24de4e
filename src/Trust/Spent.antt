-- ===== src/Trust/Spent.antt =====
-- internal/tunnel/daemon/pairing_state.go: invitations that were used up, and what the operations on
-- the list of invitations do to them.
use agent_tunnel.Base.{
  ℕ, ◌≡◌, refl, sym, ap, ◌∙◌, Bool, true, false, not, ◌&&◌, Option, none, some, List, [], ◌∷◌, ◌++◌,
  keep, ◌==◌, if◌then◌else◌, arith, Option-cases, inl, inr,
}
use agent_tunnel.Base.Text.{Text, text_eq}
use agent_tunnel.Base.Int.{ℤ}
use agent_tunnel.Trust.{
  InvitationRecord, PairingState, Error, invitation_not_found, invitation_consumed, err, File,
  absent, broken, saved,
}
use agent_tunnel.Trust.Operations.{find_invitation, consume_first, usable}

abbrev pub is_open : Option ℤ → Bool
is_open none = true
is_open (some at) = false

abbrev pub named : Text → InvitationRecord → Bool
named id i = i.invitation_id == id

-- No record of the id can be used.
unfoldable pub spent : Text → List InvitationRecord → Bool
spent id [] = true
spent id (i ∷ records) = not (named id i && is_open i.consumed_at) && spent id records

unfoldable pub lacks : Text → List InvitationRecord → Bool
lacks id [] = true
lacks id (i ∷ records) = not (named id i) && lacks id records

-- At most one record has the id.
unfoldable pub single : Text → List InvitationRecord → Bool
single id [] = true
single id (i ∷ records) =
    let rest = single id records in if named id i then lacks id records else rest

abbrev pub in_file : (List InvitationRecord → Bool) → File → Bool
in_file test absent = true
in_file test broken = true
in_file test (saved state) = test state.invitations

lacks-spent :
    (id : Text) (records : List InvitationRecord)
    → lacks id records ≡ true
    → spent id records ≡ true
unfolding lacks spent
lacks-spent id [] h = refl
lacks-spent id (i ∷ records) h = ground (arith, lacks-spent id records)

pub spent-consume_first_self :
    (id : Text) (at : ℤ) (records : List InvitationRecord)
    → single id records ≡ true
    → spent id (consume_first id at records) ≡ true
unfolding single spent consume_first
spent-consume_first_self id at [] h = refl
spent-consume_first_self id at (i ∷ records) h =
    ground (arith, lacks-spent id records, spent-consume_first_self id at records)

pub spent-consume_first :
    (id other : Text) (at : ℤ) (records : List InvitationRecord)
    → spent id records ≡ true
    → spent id (consume_first other at records) ≡ true
unfolding spent consume_first
spent-consume_first id other at [] h = refl
spent-consume_first id other at (i ∷ records) h =
    ground (arith, spent-consume_first id other at records)

pub spent-keep :
    (id : Text) (test : InvitationRecord → Bool) (records : List InvitationRecord)
    → spent id records ≡ true
    → spent id (keep test records) ≡ true
unfolding spent
spent-keep id test [] h = refl
spent-keep id test (i ∷ records) h = ground (arith, spent-keep id test records)

pub spent-append :
    (id : Text) (i : InvitationRecord) (records : List InvitationRecord)
    → spent id records ≡ true
    → named id i ≡ false
    → spent id (records ++ i ∷ []) ≡ true
unfolding spent
spent-append id i [] h n = ground (arith, n)
spent-append id i (j ∷ records) h n = ground (arith, spent-append id i records)

-- What is found of a spent id was used up.
found-spent :
    (id : Text) (records : List InvitationRecord) (i : InvitationRecord)
    → spent id records ≡ true
    → find_invitation id records ≡ some i
    → is_open i.consumed_at ≡ false
unfolding spent find_invitation
found-spent id [] i h e = ground arith
found-spent id (j ∷ records) i h e = ground (arith, found-spent id records i)

abbrev pub refusal : Option InvitationRecord → Error
refusal none = invitation_not_found
refusal (some i) = invitation_consumed

closed-consumed : (at : Option ℤ) → is_open at ≡ false → (t : ℤ) × (at ≡ some t)
closed-consumed none h = absurd (ground arith)
closed-consumed (some t) h = (t, refl)

usable-consumed :
    (id : Text) (state : PairingState) (now : ℕ) (i : InvitationRecord) (at : ℤ)
    → find_invitation id state.invitations ≡ some i
    → i.consumed_at ≡ some at
    → usable id state now ≡ err invitation_consumed
unfolding usable
usable-consumed id state now i at found used = ground (arith, found, used)

usable-missing :
    (id : Text) (state : PairingState) (now : ℕ)
    → find_invitation id state.invitations ≡ none
    → usable id state now ≡ err invitation_not_found
unfolding usable
usable-missing id state now missing = ground (arith, missing)

pub usable-spent :
    (id : Text) (state : PairingState) (now : ℕ)
    → spent id state.invitations ≡ true
    → usable id state now ≡ err (refusal (find_invitation id state.invitations))
usable-spent id state now h = elim (Option-cases (find_invitation id state.invitations)) [
  | inl e ↦ usable-missing id state now e ∙ ap (λ o. err (refusal o)) (sym e)
  | inr (i, e) ↦
      let (at, used) = closed-consumed i.consumed_at (found-spent id state.invitations i h e) in
      usable-consumed id state now i at e used ∙ ap (λ o. err (refusal o)) (sym e)
]
