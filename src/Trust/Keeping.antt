-- ===== src/Trust/Keeping.antt =====
-- internal/tunnel/daemon/pairing_state.go: what is used up stays so, whichever operation runs.
use agent_tunnel.Base.{
  ℕ, ◌≡◌, refl, ap, ◌∙◌, Bool, true, false, Option, some, ◌==◌, arith, Bool-cases, inl, inr,
}
use agent_tunnel.Base.Text.{Text, text_eq, trim}
use agent_tunnel.Base.Int.{int_eq}
use agent_tunnel.Pairing.{Crypto}
use agent_tunnel.Pairing.Invitation.{AndroidResponse, VerifiedPairing}
use agent_tunnel.Trust.{
  InvitationRecord, TrustedDevice, PairingState, Result, ok, err, attempt, File, absent, broken,
  saved, Env, load_pairing_state, save_pairing_state, seconds, time_or,
}
use agent_tunnel.Trust.Operations.{consume_pair_invitation}
use agent_tunnel.Trust.Completion.{
  complete_verified, complete_loaded, complete_pairing_response, store_pending_pairing_response,
  confirm_pending_pairing_response,
}
use agent_tunnel.Trust.Invitations.{
  is_identity, PairInvitationOptions, Drawn, record_for, create_checked, create_pair_invitation,
}
use agent_tunnel.Trust.Devices.{
  revoke_loaded, upsert_trusted_android_device, revoke_trusted_android_device,
}
use agent_tunnel.Trust.Spent.{named, spent, in_file, spent-consume_first, spent-keep, spent-append}

abbrev pub IsSpent : Text → File → Type 0
IsSpent id file = in_file (spent id) file ≡ true

pub loaded-spent :
    (id : Text) (file : File) (state : PairingState)
    → IsSpent id file
    → load_pairing_state file ≡ ok state
    → spent id state.invitations ≡ true
unfolding load_pairing_state spent
loaded-spent id absent state h e = ground (arith, e)
loaded-spent id broken state h e = ground (arith, e)
loaded-spent id (saved s) state h e = ground (arith, e)

-- What an operation leaves.
pub record Leaves {ℓ} {A : Type ℓ} (id : Text) (out : File × Result A) : Type 0 where
  pub kept : IsSpent id out.0

-- An operation that stops at an error leaves the file.
pub attempt-IsSpent {ℓ κ} :
    {A : Type ℓ} {B : Type κ} (id : Text) (file : File) (r : Result A) (next : A → File × Result B)
    → IsSpent id file
    → ((a : A) → r ≡ ok a → Leaves id (next a))
    → Leaves id (attempt file r next)
unfolding attempt
attempt-IsSpent id file (ok a) next h kept = kept a refl
attempt-IsSpent id file (err e) next h kept = record { kept = h }

pub save-IsSpent {ℓ} :
    {A : Type ℓ} (id : Text) (file : File) (writable : Bool) (state : PairingState)
    (result : Result A)
    → IsSpent id file
    → spent id state.invitations ≡ true
    → Leaves id (save_pairing_state file writable state result)
unfolding save_pairing_state
save-IsSpent id file true state result h kept = record { kept = kept }
save-IsSpent id file false state result h kept = record { kept = h }

pub loaded-IsSpent {ℓ} :
    {B : Type ℓ} (id : Text) (file : File) (next : PairingState → File × Result B)
    → IsSpent id file
    → ((state : PairingState) → spent id state.invitations ≡ true → Leaves id (next state))
    → Leaves id (attempt file (load_pairing_state file) next)
loaded-IsSpent id file next h kept =
    attempt-IsSpent id file (load_pairing_state file) next h
      (λ state e. kept state (loaded-spent id file state h e))

pub consume-IsSpent :
    (id other : Text) (file : File) (env : Env) (at : Option ℕ)
    → IsSpent id file
    → Leaves id (consume_pair_invitation file env other at)
unfolding consume_pair_invitation
consume-IsSpent id other file env at h = loaded-IsSpent id file _ h (λ state s.
    attempt-IsSpent id file _ _ h
      (λ i _. save-IsSpent id file env.writable _ _ h (spent-consume_first id other _ _ s)))

pub upsert-IsSpent :
    (id : Text) (file : File) (env : Env) (device : TrustedDevice)
    → IsSpent id file
    → Leaves id (upsert_trusted_android_device file env device)
unfolding upsert_trusted_android_device
upsert-IsSpent id file env device h = attempt-IsSpent id file _ _ h (λ fingerprint _.
    loaded-IsSpent id file _ h (λ state s. save-IsSpent id file env.writable _ _ h s))

pub revoke-IsSpent :
    (id : Text) (file : File) (env : Env) (raw : Text)
    → IsSpent id file
    → Leaves id (revoke_trusted_android_device file env raw)
unfolding revoke_trusted_android_device revoke_loaded
revoke-IsSpent id file env raw h = attempt-IsSpent id file _ _ h (λ fingerprint _.
    loaded-IsSpent id file _ h
      (λ state s. attempt-IsSpent id file _ _ h (λ d _. save-IsSpent id file env.writable _ _ h s)))

module _ (c : Crypto) where
  pub store-IsSpent :
      (id : Text) (file : File) (env : Env) (response : AndroidResponse) (at : Option ℕ)
      → IsSpent id file
      → Leaves id (store_pending_pairing_response c file env response at)
  unfolding store_pending_pairing_response
  store-IsSpent id file env response at h =
      loaded-IsSpent id file _ h (λ state s.
        attempt-IsSpent id file _ _ h (λ p _. save-IsSpent id file env.writable _ _ h s))

  verified-IsSpent :
      (id : Text) (file : File) (env : Env) (state : PairingState) (response : AndroidResponse)
      (expected : Text) (now : ℕ) (verified : VerifiedPairing)
      → IsSpent id file
      → spent id state.invitations ≡ true
      → Leaves id (complete_verified c file env state response expected now verified)
  unfolding complete_verified
  verified-IsSpent id file env state response expected now verified h s =
      let k = spent-consume_first id response.invitation_id (seconds now) state.invitations s in
      elim (Bool-cases (trim expected == verified.sas)) [
        | inl e ↦ rw (e, complete_verified) (save-IsSpent id file env.writable _ _ h k)
        | inr e ↦ rw (e, complete_verified) (save-IsSpent id file env.writable _ _ h k)
      ]

  pub complete-IsSpent :
      (id : Text) (file : File) (env : Env) (response : AndroidResponse) (expected : Text)
      (at : Option ℕ)
      → IsSpent id file
      → Leaves id (complete_pairing_response c file env response expected at)
  unfolding complete_pairing_response complete_loaded
  complete-IsSpent id file env response expected at h = loaded-IsSpent id file _ h (λ state s.
      attempt-IsSpent id file _ _ h
        (λ p _. verified-IsSpent id file env state response expected _ p.1 h s))

  pub confirm-IsSpent :
      (id : Text) (file : File) (env : Env) (invitation_id expected : Text) (at : Option ℕ)
      → IsSpent id file
      → Leaves id (confirm_pending_pairing_response c file env invitation_id expected at)
  unfolding confirm_pending_pairing_response
  confirm-IsSpent id file env invitation_id expected at h = loaded-IsSpent id file _ h (λ state s.
      attempt-IsSpent id file _ _ h (λ p _. complete-IsSpent id file env _ expected at h))

  record_for-drawn :
      (opts : PairInvitationOptions) (drawn : Drawn) (now : ℕ) (i : InvitationRecord)
      → record_for opts drawn now ≡ ok i
      → drawn.invitation_id ≡ some i.invitation_id
  unfolding record_for
  record_for-drawn opts drawn now i e = ground (arith, e)

  pub create-IsSpent :
      (id : Text) (file : File) (env : Env) (opts : PairInvitationOptions) (drawn : Drawn)
      → ¬ (drawn.invitation_id ≡ some id)
      → IsSpent id file
      → Leaves id (create_pair_invitation c file env opts drawn)
  unfolding create_checked create_pair_invitation
  create-IsSpent id file env opts drawn other h =
      elim (Bool-cases (is_identity c opts.daemon_identity)) [
        | inl e ↦
            rw (e, create_pair_invitation)
              (attempt-IsSpent id file _ _ h (λ i drawn_id. loaded-IsSpent id file _ h (λ state s.
                save-IsSpent id file env.writable _ _ h (
                  spent-append id i _ (spent-keep id _ state.invitations s)
                    (not_named i drawn_id)))))
        | inr e ↦ rw (e, create_pair_invitation) (record { kept = h })
      ]
    where
      not_named :
          (i : InvitationRecord)
          → record_for opts drawn (time_or env.clock opts.now) ≡ ok i
          → named id i ≡ false
      not_named i e =
          let d = record_for-drawn opts drawn _ i e in
          elim (Bool-cases (named id i)) [
            | inl n ↦ absurd (other (d ∙ ap some (ground (arith, n))))
            | inr n ↦ n
          ]
