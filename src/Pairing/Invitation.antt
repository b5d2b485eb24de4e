-- ===== src/Pairing/Invitation.antt =====
-- internal/connectivity/pairing/invitation.go: what a daemon offers, what an app answers, and their
-- signatures.
use agent_tunnel.Base.{ℕ, Bool, not, ◌&&◌, ◌||◌, List, [], ◌∷◌, ◌==◌, nat_eq, if◌then◌else◌, length}
use agent_tunnel.Base.Text.{Text, text_eq, is_empty, codes}
use agent_tunnel.Base.Bytes.{Bytes}
use agent_tunnel.Base.Utf8.{utf8}
use agent_tunnel.Base.Hex.{hex_encode}
use agent_tunnel.Base.Int.{ℤ, pos, int_eq, leb_int, format_int}
use agent_tunnel.Pairing.{
  Crypto, Result, ok, ◌>>=◌, guard, version, decode_public_key_hex, decode_hex_field,
  validate_fingerprint, normalize_fingerprint, invalid_version, invalid_signature,
  transcript_mismatch, invitation_expired,
}
use agent_tunnel.Pairing.Sas.{append_fields, compute_sas}

pub record Invitation : Type 0 where
  pub version : ℤ
  pub account_id : Text
  pub daemon_id : Text
  pub daemon_display_name : Text
  pub daemon_public_key : Text
  pub daemon_fingerprint : Text
  pub invitation_id : Text
  pub correlation_id : Text
  pub nonce : Text
  pub expires_at : ℤ
  pub relay_base_url : Text
  pub signature : Text

pub record AndroidResponse : Type 0 where
  pub version : ℤ
  pub account_id : Text
  pub invitation_id : Text
  pub correlation_id : Text
  pub android_public_key : Text
  pub android_fingerprint : Text
  pub android_display_name : Text
  pub signature : Text

pub record VerifiedPairing : Type 0 where
  pub daemon_public_key : Bytes
  pub android_public_key : Bytes
  pub invitation_id : Text
  pub nonce : Bytes
  pub sas : Text
  pub android_fingerprint : Text

abbrev pub invitation_fields : Invitation → List Bytes
invitation_fields i =
    utf8 i.account_id
    ∷ utf8 i.daemon_id
    ∷ utf8 i.daemon_display_name
    ∷ utf8 (normalize_fingerprint i.daemon_fingerprint)
    ∷ utf8 i.daemon_public_key
    ∷ utf8 i.invitation_id
    ∷ utf8 i.correlation_id
    ∷ utf8 i.nonce
    ∷ utf8 i.relay_base_url
    ∷ utf8 (format_int i.expires_at)
    ∷ []

unfoldable pub canonical_invitation : Invitation → Result Bytes
canonical_invitation i = append_fields (codes "tunnel-pairing-invitation-v1") (invitation_fields i)

abbrev pub response_fields : AndroidResponse → List Bytes
response_fields r =
    utf8 r.account_id
    ∷ utf8 r.invitation_id
    ∷ utf8 r.correlation_id
    ∷ utf8 (normalize_fingerprint r.android_fingerprint)
    ∷ utf8 r.android_public_key
    ∷ utf8 r.android_display_name
    ∷ []

unfoldable pub canonical_android_response : AndroidResponse → Result Bytes
canonical_android_response r =
    append_fields (codes "tunnel-pairing-android-response-v1") (response_fields r)

abbrev pub default_version : ℤ → ℤ
default_version v = if v == pos 0 then version else v

abbrev pub signature_size : ℕ
signature_size = 64

-- The answer is to this invitation.
abbrev pub is_transcript : Invitation → AndroidResponse → Bool
is_transcript i r =
    i.invitation_id == r.invitation_id
    && i.correlation_id == r.correlation_id
    && (is_empty i.account_id || i.account_id == r.account_id)

-- `now` is in seconds; a value that is not positive leaves the expiry unchecked.
abbrev pub is_current : Invitation → ℤ → Bool
is_current i now = leb_int now (pos 0) || not (leb_int i.expires_at now)

module _ (c : Crypto) where
  -- What SignInvitation and SignAndroidResponse do with the key, the fingerprint and the bytes that
  -- are signed.
  unfoldable pub sign_checked : ℤ → Text → Text → Result Bytes → Bytes → Result Text
  sign_checked v raw_key fingerprint canonical private_key = do
    _ ← guard invalid_version (v == version)
    key ← decode_public_key_hex raw_key
    _ ← validate_fingerprint c key fingerprint
    message ← canonical
    ok (hex_encode (c.sign private_key message))

  unfoldable pub sign_invitation : Invitation → Bytes → Result Invitation
  unfolding sign_checked
  sign_invitation invitation private_key =
      let i = record invitation { version = default_version invitation.version } in
      do
        signature ←
            sign_checked i.version i.daemon_public_key i.daemon_fingerprint (canonical_invitation i)
              private_key
        ok (record i { signature = signature })

  unfoldable pub sign_android_response : AndroidResponse → Bytes → Result AndroidResponse
  unfolding sign_checked
  sign_android_response response private_key =
      let r = record response { version = default_version response.version } in
      do
        signature ←
            sign_checked r.version r.android_public_key r.android_fingerprint
              (canonical_android_response r) private_key
        ok (record r { signature = signature })

  -- What VerifyInvitation and VerifyAndroidResponse check.
  unfoldable pub verify_checked : ℤ → Text → Text → Text → Result Bytes → Result Bool
  verify_checked v raw_key fingerprint raw_signature canonical = do
    _ ← guard invalid_version (v == version)
    key ← decode_public_key_hex raw_key
    _ ← validate_fingerprint c key fingerprint
    signature ← decode_hex_field (codes "signature") raw_signature
    _ ← guard invalid_signature (length signature == signature_size)
    message ← canonical
    guard invalid_signature (c.verify key message signature)

  unfoldable pub verify_invitation : Invitation → Result Bool
  unfolding verify_checked
  verify_invitation i =
      verify_checked i.version i.daemon_public_key i.daemon_fingerprint i.signature
        (canonical_invitation i)

  unfoldable pub verify_android_response : AndroidResponse → Result Bool
  unfolding verify_checked
  verify_android_response r =
      verify_checked r.version r.android_public_key r.android_fingerprint r.signature
        (canonical_android_response r)

  unfoldable pub verify_pairing_response : Invitation → AndroidResponse → ℤ → Result VerifiedPairing
  verify_pairing_response i r now = do
    _ ← verify_invitation i
    _ ← verify_android_response r
    _ ← guard transcript_mismatch (is_transcript i r)
    _ ← guard invitation_expired (is_current i now)
    daemon_key ← decode_public_key_hex i.daemon_public_key
    android_key ← decode_public_key_hex r.android_public_key
    nonce ← decode_hex_field (codes "nonce") i.nonce
    sas ← compute_sas c daemon_key android_key i.invitation_id nonce
    ok (record {
      daemon_public_key = daemon_key;
      android_public_key = android_key;
      invitation_id = i.invitation_id;
      nonce = nonce;
      sas = sas;
      android_fingerprint = normalize_fingerprint r.android_fingerprint;
    })
