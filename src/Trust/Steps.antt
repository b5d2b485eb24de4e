-- ===== src/Trust/Steps.antt =====
-- internal/tunnel/daemon/pairing_state.go: the operations on the file as steps, of which none makes an
-- invitation of the id that is watched.
use agent_tunnel.Base.{ℕ, ◌≡◌, Option, some}
use agent_tunnel.Base.Text.{Text, text_eq}
use agent_tunnel.Base.Int.{int_eq}
use agent_tunnel.Pairing.{Crypto}
use agent_tunnel.Pairing.Invitation.{AndroidResponse}
use agent_tunnel.Trust.{TrustedDevice, File, Env}
use agent_tunnel.Trust.Operations.{consume_pair_invitation}
use agent_tunnel.Trust.Completion.{
  complete_pairing_response, store_pending_pairing_response, confirm_pending_pairing_response,
}
use agent_tunnel.Trust.Invitations.{PairInvitationOptions, Drawn, create_pair_invitation}
use agent_tunnel.Trust.Devices.{upsert_trusted_android_device, revoke_trusted_android_device}
use agent_tunnel.Trust.Keeping.{
  IsSpent, consume-IsSpent, upsert-IsSpent, revoke-IsSpent, store-IsSpent, complete-IsSpent,
  confirm-IsSpent, create-IsSpent,
}

module _ (c : Crypto) where
  pub data Step (id : Text) : File → File → Type 0 where
    make :
        (file : File) (env : Env) (opts : PairInvitationOptions) (drawn : Drawn)
        → ¬ (drawn.invitation_id ≡ some id)
        → Step id file (create_pair_invitation c file env opts drawn).0
    use_up :
        (file : File) (env : Env) (other : Text) (at : Option ℕ)
        → Step id file (consume_pair_invitation file env other at).0
    keep_answer :
        (file : File) (env : Env) (response : AndroidResponse) (at : Option ℕ)
        → Step id file (store_pending_pairing_response c file env response at).0
    complete :
        (file : File) (env : Env) (response : AndroidResponse) (expected : Text) (at : Option ℕ)
        → Step id file (complete_pairing_response c file env response expected at).0
    confirm :
        (file : File) (env : Env) (invitation_id expected : Text) (at : Option ℕ)
        → Step id file (confirm_pending_pairing_response c file env invitation_id expected at).0
    trust :
        (file : File) (env : Env) (device : TrustedDevice)
        → Step id file (upsert_trusted_android_device file env device).0
    revoke :
        (file : File) (env : Env) (raw : Text)
        → Step id file (revoke_trusted_android_device file env raw).0

  pub data Run (id : Text) : File → File → Type 0 where
    done : (file : File) → Run id file file
    next :
        (file file' file'' : File) → Step id file file' → Run id file' file'' → Run id file file''

  Step-IsSpent :
      (id : Text) (file file' : File) → Step id file file' → IsSpent id file → IsSpent id file'
  Step-IsSpent id _ _ (make file env opts drawn other) h =
      (create-IsSpent c id file env opts drawn other h).kept
  Step-IsSpent id _ _ (use_up file env other at) h = (consume-IsSpent id other file env at h).kept
  Step-IsSpent id _ _ (keep_answer file env response at) h =
      (store-IsSpent c id file env response at h).kept
  Step-IsSpent id _ _ (complete file env response expected at) h =
      (complete-IsSpent c id file env response expected at h).kept
  Step-IsSpent id _ _ (confirm file env invitation_id expected at) h =
      (confirm-IsSpent c id file env invitation_id expected at h).kept
  Step-IsSpent id _ _ (trust file env device) h = (upsert-IsSpent id file env device h).kept
  Step-IsSpent id _ _ (revoke file env raw) h = (revoke-IsSpent id file env raw h).kept

  pub Run-IsSpent :
      (id : Text) (file later : File) → Run id file later → IsSpent id file → IsSpent id later
  Run-IsSpent id _ _ (done file) h = h
  Run-IsSpent id _ _ (next file file' later step rest) h =
      Run-IsSpent id file' later rest (Step-IsSpent id file file' step h)
