-- ===== src/Trust/Completion.antt =====
-- internal/tunnel/daemon/pairing_state.go: the answers to an invitation are verified, and wait or are
-- completed.
use agent_tunnel.Base.{ℕ, not, Option, none, some, List, [], ◌∷◌, ◌==◌, nat_eq, if◌then◌else◌}
use agent_tunnel.Base.Text.{Text, text_eq, trim, codes}
use agent_tunnel.Base.Int.{int_eq}
use agent_tunnel.Pairing
use agent_tunnel.Pairing.{Crypto}
use agent_tunnel.Pairing.Invitation.{
  AndroidResponse, VerifiedPairing, sign_invitation, verify_pairing_response,
}
use agent_tunnel.Trust.{
  InvitationRecord, TrustedDevice, PendingRecord, PairingState, Identity, invitation_not_found,
  sas_mismatch, identity_unavailable, Result, ok, err, ◌>>=◌, attempt, File, load_pairing_state,
  save_pairing_state, seconds, time_or, Env, known,
}
use agent_tunnel.Trust.Operations.{
  from_protocol, usable, consumed, invitation_of, remove_pending, upsert_pending, upsert_trusted,
}

-- What the caller gets; the warning is never set.
pub record PairingCompletion : Type 0 where
  pub device : TrustedDevice
  pub sas : Text
  pub warning : Text

module _ (c : Crypto) where
  unfoldable pub verify_pairing_response_for_record :
      InvitationRecord → Identity → AndroidResponse → ℕ → Pairing.Result VerifiedPairing
  verify_pairing_response_for_record i identity response now =
      Pairing.◌>>=◌ (sign_invitation c (invitation_of i identity) identity.private_key)
        (λ invitation. verify_pairing_response c invitation response (seconds now))

  -- The checks of an answer: the invitation may be used, and the answer is verified.
  unfoldable pub check_response :
      PairingState
      → Option Identity
      → AndroidResponse
      → ℕ
      → Result (InvitationRecord × VerifiedPairing)
  check_response state identity response now = do
    own ← known identity_unavailable identity
    i ← usable response.invitation_id state now
    verified ← from_protocol (verify_pairing_response_for_record i own response now)
    ok (i, verified)

  abbrev trusted_of : VerifiedPairing → AndroidResponse → ℕ → TrustedDevice
  trusted_of verified response now = record {
    fingerprint = verified.android_fingerprint;
    public_key = response.android_public_key;
    display_name = trim response.android_display_name;
    account_id = trim response.account_id;
    status = codes "trusted";
    paired_at = seconds now;
    revoked_at = none;
    warning = [];
  }

  -- Behind the checks: the invitation is used up in any case, and the device is trusted if the digits
  -- are right.
  unfoldable pub complete_verified :
      File
      → Env
      → PairingState
      → AndroidResponse
      → Text
      → ℕ
      → VerifiedPairing
      → File × Result PairingCompletion
  complete_verified file env state response expected_sas now verified =
      let spent = record (consumed response.invitation_id now state) {
        pending_responses = remove_pending response.invitation_id state.pending_responses;
      } in
      let device = trusted_of verified response now in
      if not (trim expected_sas == verified.sas)
      then save_pairing_state file env.writable spent (err sas_mismatch)
      else save_pairing_state file env.writable
          (record spent { trusted_devices = upsert_trusted device spent.trusted_devices })
          (ok (record { device = device; sas = verified.sas; warning = [] }))

  unfoldable pub complete_loaded :
      File → Env → PairingState → AndroidResponse → Text → ℕ → File × Result PairingCompletion
  complete_loaded file env state response expected_sas now =
      attempt file (check_response state env.identity response now)
        (λ (_, verified). complete_verified file env state response expected_sas now verified)

  unfoldable pub complete_pairing_response :
      File → Env → AndroidResponse → Text → Option ℕ → File × Result PairingCompletion
  complete_pairing_response file env response expected_sas at =
      let now = time_or env.clock at in
      attempt file (load_pairing_state file)
        (λ state. complete_loaded file env state response expected_sas now)

  abbrev pub pending_of : InvitationRecord → VerifiedPairing → AndroidResponse → ℕ → PendingRecord
  pending_of i verified response now = record {
    invitation_id = response.invitation_id;
    correlation_id = response.correlation_id;
    account_id = trim response.account_id;
    android_public_key = trim response.android_public_key;
    android_fingerprint = verified.android_fingerprint;
    android_display_name = trim response.android_display_name;
    signature = trim response.signature;
    sas = verified.sas;
    received_at = seconds now;
    expires_at = i.expires_at;
  }

  -- The answer as it is stored; what is shown of it leaves out the key and the signature.
  unfoldable pub store_pending_pairing_response :
      File → Env → AndroidResponse → Option ℕ → File × Result PendingRecord
  store_pending_pairing_response file env response at =
      let now = time_or env.clock at in
      attempt file (load_pairing_state file) (λ state.
        attempt file (check_response state env.identity response now) (λ (i, verified).
          let p = pending_of i verified response now in
          save_pairing_state file env.writable
            (record state { pending_responses = upsert_pending p state.pending_responses }) (ok p)))

  unfoldable pub find_pending : Text → List PendingRecord → Option PendingRecord
  find_pending id [] = none
  find_pending id (p ∷ records) =
      let rest = find_pending id records in if p.invitation_id == id then some p else rest

  abbrev pub response_of : PendingRecord → AndroidResponse
  response_of p = record {
    version = Pairing.version;
    account_id = p.account_id;
    invitation_id = p.invitation_id;
    correlation_id = p.correlation_id;
    android_public_key = p.android_public_key;
    android_fingerprint = p.android_fingerprint;
    android_display_name = p.android_display_name;
    signature = p.signature;
  }

  unfoldable pub confirm_pending_pairing_response :
      File → Env → Text → Text → Option ℕ → File × Result PairingCompletion
  confirm_pending_pairing_response file env invitation_id expected_sas at =
      attempt file (load_pairing_state file) (λ state.
        attempt file
          (known invitation_not_found (find_pending (trim invitation_id) state.pending_responses))
          (λ p. complete_pairing_response file env (response_of p) expected_sas at))
