-- ===== src/Trust/Tests.antt =====
-- The file of a daemon with one invitation and one phone, and the theorems at it.
use agent_tunnel.Base.{◌≡◌, refl, true, none, some, [], ◌∷◌, ℕ_discrete, take}
use agent_tunnel.Base.Text.{codes, Text-discrete, trim, to_lower}
use agent_tunnel.Base.Hex.{hex_encode, hex_decode}
use agent_tunnel.Base.Utf8.{utf8}
use agent_tunnel.Base.Decimal.{decimal, digits}
use agent_tunnel.Base.Int.{pos, format_int, ℤ-discrete}
use agent_tunnel.Pairing.{
  decode_public_key_hex, decode_hex_field, validate_fingerprint, public_key_fingerprint_hex,
}
use agent_tunnel.Pairing.Sas.{
  append_fields, append_length_prefixed, compute_sas, canonical_sas_input,
}
use agent_tunnel.Pairing.Invitation.{
  canonical_invitation, canonical_android_response, sign_invitation, sign_android_response,
  verify_invitation, verify_android_response, sign_checked, verify_checked, verify_pairing_response,
}
use agent_tunnel.Pairing.Tests.{fill, crypto, private_key, answered}
use agent_tunnel.Trust.{
  InvitationRecord, TrustedDevice, PairingState, Identity, ok, attempt, File, saved, Env,
  load_pairing_state, save_pairing_state,
}
use agent_tunnel.Trust.Operations.{find_invitation, consume_first, usable, upsert_trusted}
use agent_tunnel.Trust.Completion.{
  check_response, verify_pairing_response_for_record, complete_verified, complete_loaded,
  complete_pairing_response, confirm_pending_pairing_response,
}
use agent_tunnel.Trust.Devices.{
  find_device, revoke_loaded, revoke_trusted_android_device, revoked, normalize_android_fingerprint,
}
use agent_tunnel.Trust.Spent.{single, lacks, in_file}
use agent_tunnel.Trust.Steps.{done, next, confirm}
use agent_tunnel.Trust.SingleUse.{is_answered, Refused, complete_pairing_response-Run}
use agent_tunnel.Trust.Revoked.{single_device, lacks_device, IsUnlisted, revoke-IsUnlisted}

abbrev invited : InvitationRecord
invited = record {
  invitation_id = codes "i";
  correlation_id = codes "c";
  nonce = codes "ab";
  account_id = codes "u1";
  relay_base_url = codes "https://r";
  device_id = codes "d";
  daemon_fingerprint = hex_encode (fill 32 32);
  expires_at = pos 100;
  created_at = pos 1;
  consumed_at = none;
}

abbrev phone : TrustedDevice
phone = record {
  fingerprint = hex_encode (fill 32 7);
  public_key = [];
  display_name = codes "phone";
  account_id = codes "u1";
  status = codes "trusted";
  paired_at = pos 3;
  revoked_at = none;
  warning = [];
}

abbrev stored_state : PairingState
stored_state = record {
  version = pos 2;
  invitations = invited ∷ [];
  pending_responses = [];
  trusted_devices = phone ∷ [];
}

abbrev own : Identity
own = record {
  private_key = private_key;
  public_key = take 32 private_key;
  fingerprint = hex_encode (fill 32 32);
  created_at = pos 1;
}

abbrev env : Env
env = record { clock = 99_000_000_000; identity = some own; writable = true }

-- The phone answers, and the digits are right.
answer-completed :
    is_answered
      (complete_pairing_response crypto (saved stored_state) env answered (codes "382666") none).1
    ≡ true
unfolding sign_invitation sign_checked decode_public_key_hex hex_encode hex_decode trim to_lower
    ℕ_discrete ℤ-discrete Text-discrete validate_fingerprint public_key_fingerprint_hex
    canonical_invitation append_fields append_length_prefixed utf8 format_int decimal
    sign_android_response verify_pairing_response verify_invitation verify_android_response
    verify_checked canonical_android_response decode_hex_field compute_sas canonical_sas_input
    digits attempt load_pairing_state save_pairing_state find_invitation consume_first usable
    check_response verify_pairing_response_for_record complete_verified complete_loaded
    complete_pairing_response upsert_trusted
answer-completed = refl

invitation-single : in_file (single answered.invitation_id) (saved stored_state) ≡ true
unfolding single Text-discrete sign_android_response decode_public_key_hex hex_encode hex_decode
    trim to_lower ℕ_discrete validate_fingerprint public_key_fingerprint_hex
    canonical_android_response append_fields append_length_prefixed utf8 ℤ-discrete lacks
invitation-single = refl

-- What the answer leaves, and a user who confirms the same invitation behind it.
abbrev once : File
once = (complete_pairing_response crypto (saved stored_state) env answered (codes "382666") none).0

abbrev later : File
later = (confirm_pending_pairing_response crypto once env (codes "i") (codes "382666") none).0

complete_pairing_response-Run_example :
    Refused later (complete_pairing_response crypto later env answered (codes "382666") none)
complete_pairing_response-Run_example =
    complete_pairing_response-Run crypto (saved stored_state) later env answered (codes "382666")
      none invitation-single answer-completed
      (next once later later (confirm once env (codes "i") (codes "382666") none) (done later)) env
      answered (codes "382666") none refl

stored-loaded : load_pairing_state (saved stored_state) ≡ ok stored_state
unfolding load_pairing_state ℤ-discrete
stored-loaded = refl

phone-normalized : normalize_android_fingerprint phone.fingerprint ≡ ok phone.fingerprint
unfolding normalize_android_fingerprint hex_encode hex_decode trim to_lower ℕ_discrete
phone-normalized = refl

phone-single : single_device phone.fingerprint stored_state.trusted_devices ≡ true
unfolding single_device lacks_device Text-discrete hex_encode
phone-single = refl

phone-revoked :
    (revoke_trusted_android_device (saved stored_state) env phone.fingerprint).1
    ≡ ok (revoked phone (pos 99))
unfolding revoke_trusted_android_device revoke_loaded find_device attempt load_pairing_state
    save_pairing_state normalize_android_fingerprint hex_encode hex_decode trim to_lower ℕ_discrete
    Text-discrete ℤ-discrete
phone-revoked = refl

revoke-IsUnlisted_example :
    IsUnlisted phone.fingerprint
      (revoke_trusted_android_device (saved stored_state) env phone.fingerprint).0
revoke-IsUnlisted_example =
    revoke-IsUnlisted (saved stored_state) env phone.fingerprint phone.fingerprint stored_state
      (revoked phone (pos 99)) phone-normalized stored-loaded phone-single phone-revoked
