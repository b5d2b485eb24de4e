-- ===== src/Pairing/Tests.antt =====
-- A pairing with stand-ins for SHA-256 and Ed25519, and the theorems at it.
use agent_tunnel.Base.{
  ℕ, zero, suc, ◌%◌, ◌≡◌, refl, ap, true, [], ◌∷◌, ◌==◌, nat_eq, length, take, All, arith,
  ℕ_discrete,
}
use agent_tunnel.Base.Text.{codes, Text-discrete, text_eq, trim, to_lower}
use agent_tunnel.Base.Bytes.{Bytes, IsByte}
use agent_tunnel.Base.Hex.{hex_encode, hex_decode}
use agent_tunnel.Base.Utf8.{utf8}
use agent_tunnel.Base.Decimal.{decimal, digits}
use agent_tunnel.Base.Int.{pos, format_int, ℤ-discrete}
use agent_tunnel.Pairing.{
  Crypto, Result, ok, err, decode_public_key_hex, decode_hex_field, validate_fingerprint,
  public_key_fingerprint_hex,
}
use agent_tunnel.Pairing.Sas.{
  append_fields, append_length_prefixed, compute_sas, canonical_sas_input,
}
use agent_tunnel.Pairing.Invitation.{
  Invitation, AndroidResponse, VerifiedPairing, canonical_invitation, canonical_android_response,
  sign_invitation, sign_android_response, verify_invitation, verify_android_response, sign_checked,
  verify_checked, verify_pairing_response,
}
use agent_tunnel.Pairing.Canonical.{SameSigned, canonical_invitation-SameSigned}
use agent_tunnel.Pairing.Signing.{IsEd25519, verify-sign_invitation}
use agent_tunnel.Pairing.Verified.{IsGenuine, verify_pairing_response-IsGenuine}

abbrev pub fill : ℕ → ℕ → Bytes
fill zero b = []
fill (suc n) b = b ∷ fill n b

fill-length : (n b : ℕ) → length (fill n b) ≡ n
fill-length zero b = refl
fill-length (suc n) b = ap suc (fill-length n b)

fill-All : (n b : ℕ) → IsByte b → All IsByte (fill n b)
fill-All zero b h = tt
fill-All (suc n) b h = (h, fill-All n b h)

-- A signature that depends on the length of the message.
abbrev pub crypto : Crypto
crypto = record {
  sha256 = λ b. fill 32 (length b % 256);
  sign = λ k m. fill 64 (length m % 256);
  verify = λ k m s. s == fill 64 (length m % 256);
  public_key = λ k. take 32 k;
}

equal_test : (b : Bytes) → (b == b) ≡ true
equal_test b = ground arith

crypto-IsEd25519 : IsEd25519 crypto
crypto-IsEd25519 = record {
  signature_length = λ k m _. fill-length 64 (length m % 256);
  signature_bytes = λ k m _. fill-All 64 (length m % 256) (omega arith);
  verified = λ k m _. equal_test (fill 64 (length m % 256));
}

abbrev pub result_or {ℓ} : {A : Type ℓ} → A → Result A → A
result_or a (ok b) = b
result_or a (err e) = a

abbrev pub private_key : Bytes
private_key = fill 64 1

abbrev pub invitation : Invitation
invitation = record {
  version = pos 0;
  account_id = codes "u1";
  daemon_id = codes "d";
  daemon_display_name = [];
  daemon_public_key = hex_encode (fill 32 1);
  daemon_fingerprint = hex_encode (fill 32 32);
  invitation_id = codes "i";
  correlation_id = codes "c";
  nonce = codes "ab";
  expires_at = pos 100;
  relay_base_url = codes "https://r";
  signature = [];
}

abbrev signed : Invitation
signed = result_or invitation (sign_invitation crypto invitation private_key)

invitation-key : decode_public_key_hex invitation.daemon_public_key ≡ ok (take 32 private_key)
unfolding decode_public_key_hex hex_encode hex_decode trim ℕ_discrete
invitation-key = refl

invitation-signed : sign_invitation crypto invitation private_key ≡ ok signed
unfolding sign_invitation sign_checked decode_public_key_hex hex_encode hex_decode trim to_lower
    ℕ_discrete ℤ-discrete Text-discrete validate_fingerprint public_key_fingerprint_hex
    canonical_invitation append_fields append_length_prefixed utf8 format_int decimal
invitation-signed = refl

verify-sign_invitation_example : verify_invitation crypto signed ≡ ok true
verify-sign_invitation_example =
    verify-sign_invitation crypto crypto-IsEd25519 private_key refl invitation signed invitation-key
      invitation-signed

-- A blank before the fingerprint is not signed.
abbrev padded : Invitation
padded = record invitation { daemon_fingerprint = 32 ∷ hex_encode (fill 32 32) }

abbrev message : Bytes
message = result_or [] (canonical_invitation invitation)

invitation-message : canonical_invitation invitation ≡ ok message
unfolding sign_invitation sign_checked decode_public_key_hex hex_encode hex_decode trim to_lower
    ℕ_discrete ℤ-discrete Text-discrete validate_fingerprint public_key_fingerprint_hex
    canonical_invitation append_fields append_length_prefixed utf8 format_int decimal
invitation-message = refl

padded-message : canonical_invitation padded ≡ ok message
unfolding sign_invitation sign_checked decode_public_key_hex hex_encode hex_decode trim to_lower
    ℕ_discrete ℤ-discrete Text-discrete validate_fingerprint public_key_fingerprint_hex
    canonical_invitation append_fields append_length_prefixed utf8 format_int decimal
padded-message = refl

canonical_invitation-SameSigned_example : SameSigned invitation padded
canonical_invitation-SameSigned_example =
    canonical_invitation-SameSigned invitation padded message invitation-message padded-message

abbrev pub phone_key : Bytes
phone_key = fill 64 2

abbrev pub response : AndroidResponse
response = record {
  version = pos 0;
  account_id = codes "u1";
  invitation_id = codes "i";
  correlation_id = codes "c";
  android_public_key = hex_encode (fill 32 2);
  android_fingerprint = hex_encode (fill 32 32);
  android_display_name = codes "phone";
  signature = [];
}

abbrev pub answered : AndroidResponse
answered = result_or response (sign_android_response crypto response phone_key)

abbrev no_pairing : VerifiedPairing
no_pairing = record {
  daemon_public_key = [];
  android_public_key = [];
  invitation_id = [];
  nonce = [];
  sas = [];
  android_fingerprint = [];
}

abbrev pairing : VerifiedPairing
pairing = result_or no_pairing (verify_pairing_response crypto signed answered (pos 99))

pairing-verified : verify_pairing_response crypto signed answered (pos 99) ≡ ok pairing
unfolding sign_invitation sign_checked decode_public_key_hex hex_encode hex_decode trim to_lower
    ℕ_discrete ℤ-discrete Text-discrete validate_fingerprint public_key_fingerprint_hex
    canonical_invitation append_fields append_length_prefixed utf8 format_int decimal
    sign_android_response verify_pairing_response verify_invitation verify_android_response
    verify_checked canonical_android_response decode_hex_field compute_sas canonical_sas_input
    digits
pairing-verified = refl

verify_pairing_response-IsGenuine_example : IsGenuine crypto signed answered (pos 99) pairing
verify_pairing_response-IsGenuine_example =
    verify_pairing_response-IsGenuine crypto signed answered (pos 99) pairing pairing-verified

-- The digits of this pairing.
pairing-sas : pairing.sas ≡ codes "382666"
unfolding sign_invitation sign_checked decode_public_key_hex hex_encode hex_decode trim to_lower
    ℕ_discrete ℤ-discrete Text-discrete validate_fingerprint public_key_fingerprint_hex
    canonical_invitation append_fields append_length_prefixed utf8 format_int decimal
    sign_android_response verify_pairing_response verify_invitation verify_android_response
    verify_checked canonical_android_response decode_hex_field compute_sas canonical_sas_input
    digits
pairing-sas = refl
