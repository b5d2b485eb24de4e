-- ===== src/Pairing/Signing.antt =====
-- What is signed is accepted.
use agent_tunnel.Base.{◌≡◌, sym, ap, ◌∙◌, true, ◌==◌, nat_eq, length, All, arith}
use agent_tunnel.Base.Text.{Text, text_eq, codes, trim-IsSolid}
use agent_tunnel.Base.Bytes.{Bytes, IsByte}
use agent_tunnel.Base.Hex.{hex_encode, hex_decode, hex_decode-hex_encode, hex_encode-IsSolid}
use agent_tunnel.Base.Int.{ℤ, int_eq}
use agent_tunnel.Pairing.{
  Crypto, Result, ok, bind-ok, guard, version, decode_public_key_hex, decode_hex_field, decoded,
  validate_fingerprint, invalid_version, invalid_hex_field,
}
use agent_tunnel.Pairing.Invitation.{
  Invitation, AndroidResponse, sign_checked, sign_invitation, sign_android_response, verify_checked,
  verify_invitation, verify_android_response, canonical_invitation, canonical_android_response,
  default_version,
}

-- What the documentation of crypto/ed25519 says of signatures, for private keys of 64 bytes.
pub record IsEd25519 (c : Crypto) : Type 0 where
  pub signature_length : (k m : Bytes) → length k ≡ 64 → length (c.sign k m) ≡ 64
  pub signature_bytes : (k m : Bytes) → length k ≡ 64 → All IsByte (c.sign k m)
  pub verified : (k m : Bytes) → length k ≡ 64 → c.verify (c.public_key k) m (c.sign k m) ≡ true

read-hex_encode :
    (name : Text) (b : Bytes) → All IsByte b → decode_hex_field name (hex_encode b) ≡ ok b
unfolding decode_hex_field
read-hex_encode name b h =
    ap (λ s. decoded (invalid_hex_field name) (hex_decode s))
      (trim-IsSolid (hex_encode b) (hex_encode-IsSolid b h))
    ∙ ap (decoded (invalid_hex_field name)) (hex_decode-hex_encode b h)

module _ (c : Crypto) (laws : IsEd25519 c) (private_key : Bytes)
    (size : length private_key ≡ 64) where
  verify-signed :
      (v : ℤ) (raw_key fingerprint : Text) (canonical : Result Bytes) (signature : Text)
      → decode_public_key_hex raw_key ≡ ok (c.public_key private_key)
      → sign_checked c v raw_key fingerprint canonical private_key ≡ ok signature
      → verify_checked c v raw_key fingerprint signature canonical ≡ ok true
  unfolding sign_checked verify_checked
  verify-signed v raw_key fingerprint canonical signature own h =
      let (current, e1, h1) = bind-ok (guard invalid_version (v == version)) _ signature h in
      let (key, e2, h2) = bind-ok (decode_public_key_hex raw_key) _ signature h1 in
      let (matched, e3, h3) = bind-ok (validate_fingerprint c key fingerprint) _ signature h2 in
      let (message, e4, h4) = bind-ok canonical _ signature h3 in
      let signed = c.sign private_key message in
      let text : hex_encode signed ≡ signature = cc h4 in
      let name = codes "signature" in
      let read : decode_hex_field name signature ≡ ok signed =
        ap (decode_hex_field name) (sym text)
        ∙ read-hex_encode name signed (laws.signature_bytes private_key message size) in
      let same : key ≡ c.public_key private_key = cc (own, e2) in
      let passes : c.verify key message signed ≡ true =
        ap (λ k. c.verify k message signed) same ∙ laws.verified private_key message size in
      ground (arith, e1, e2, e3, e4, read, passes, laws.signature_length private_key message size)

  -- An invitation that is signed with the private key of its own public key is accepted.
  pub verify-sign_invitation :
      (i j : Invitation)
      → decode_public_key_hex i.daemon_public_key ≡ ok (c.public_key private_key)
      → sign_invitation c i private_key ≡ ok j
      → verify_invitation c j ≡ ok true
  unfolding sign_invitation verify_invitation canonical_invitation
  verify-sign_invitation i j own h =
      let k = record i { version = default_version i.version } in
      let (signature, e, last) =
        bind-ok
          (sign_checked c k.version k.daemon_public_key k.daemon_fingerprint
            (canonical_invitation k) private_key)
          _ j h in
      let signed : record k { signature = signature } ≡ j = cc last in
      ap (verify_invitation c) (sym signed)
      ∙ verify-signed k.version k.daemon_public_key k.daemon_fingerprint (canonical_invitation k)
          signature own e

  pub verify-sign_android_response :
      (r s : AndroidResponse)
      → decode_public_key_hex r.android_public_key ≡ ok (c.public_key private_key)
      → sign_android_response c r private_key ≡ ok s
      → verify_android_response c s ≡ ok true
  unfolding sign_android_response verify_android_response canonical_android_response
  verify-sign_android_response r s own h =
      let k = record r { version = default_version r.version } in
      let (signature, e, last) =
        bind-ok
          (sign_checked c k.version k.android_public_key k.android_fingerprint
            (canonical_android_response k) private_key)
          _ s h in
      let signed : record k { signature = signature } ≡ s = cc last in
      ap (verify_android_response c) (sym signed)
      ∙ verify-signed k.version k.android_public_key k.android_fingerprint
          (canonical_android_response k) signature own e
