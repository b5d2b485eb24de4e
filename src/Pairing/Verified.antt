-- ===== src/Pairing/Verified.antt =====
-- What a pairing that is verified guarantees.
use agent_tunnel.Base.{
  ◌≡◌, refl, sym, ap, ◌∙◌, subst, ◌⊎◌, Bool, true, false, ◌==◌, nat_eq, length, arith,
}
use agent_tunnel.Base.Text.{Text, text_eq, is_empty, codes}
use agent_tunnel.Base.Bytes.{Bytes}
use agent_tunnel.Base.Int.{ℤ, pos, int_eq, leb_int}
use agent_tunnel.Pairing.{
  Crypto, Error, Result, ok, bind-ok, guard, version, decode_public_key_hex, decode_hex_field,
  validate_fingerprint, invalid_version, invalid_signature, transcript_mismatch, invitation_expired,
  normalize_fingerprint,
}
use agent_tunnel.Pairing.Sas.{compute_sas}
use agent_tunnel.Pairing.Invitation.{
  Invitation, AndroidResponse, VerifiedPairing, verify_checked, verify_invitation,
  verify_android_response, canonical_invitation, canonical_android_response, is_transcript,
  is_current, verify_pairing_response, signature_size,
}

-- The signature that is sent along is one of the bytes, by the key whose fingerprint is named.
pub record IsAuthentic (c : Crypto) (raw_key fingerprint raw_signature : Text)
    (canonical : Result Bytes) (key : Bytes) : Type 0 where
  pub decodes : decode_public_key_hex raw_key ≡ ok key
  pub matched : Bool
  pub named : validate_fingerprint c key fingerprint ≡ ok matched
  pub message : Bytes
  pub said : canonical ≡ ok message
  pub signature : Bytes
  pub sent : decode_hex_field (codes "signature") raw_signature ≡ ok signature
  pub whole : length signature ≡ 64
  pub signed : c.verify key message signature ≡ true

guard-true : (e : Error) (p q : Bool) → guard e p ≡ ok q → (p ≡ true) × (q ≡ true)
guard-true e true q h = (refl, cc h)
guard-true e false q h = absurd (cc h)

checked-IsAuthentic :
    (c : Crypto) (v : ℤ) (raw_key fingerprint raw_signature : Text) (canonical : Result Bytes)
    (b : Bool) (key : Bytes)
    → decode_public_key_hex raw_key ≡ ok key
    → verify_checked c v raw_key fingerprint raw_signature canonical ≡ ok b
    → IsAuthentic c raw_key fingerprint raw_signature canonical key
unfolding verify_checked
checked-IsAuthentic c v raw_key fingerprint raw_signature canonical b key decodes h =
    let (current, e1, h1) = bind-ok (guard invalid_version (v == version)) _ b h in
    let (known, e2, h2) = bind-ok (decode_public_key_hex raw_key) _ b h1 in
    let (matched, e3, h3) = bind-ok (validate_fingerprint c known fingerprint) _ b h2 in
    let (signature, e4, h4) = bind-ok (decode_hex_field (codes "signature") raw_signature) _ b h3 in
    let (fits, e5, h5) =
      bind-ok (guard invalid_signature (length signature == signature_size)) _ b h4 in
    let (message, e6, h6) = bind-ok canonical _ b h5 in
    let same : known ≡ key = cc (decodes, e2) in
    record {
      decodes = decodes;
      matched = matched;
      named = ap (λ k. validate_fingerprint c k fingerprint) (sym same) ∙ e3;
      message = message;
      said = e6;
      signature = signature;
      sent = e4;
      whole =
          ground
            (arith, (guard-true invalid_signature (length signature == signature_size) fits e5).0);
      signed =
          ap (λ k. c.verify k message signature) (sym same)
          ∙ (guard-true invalid_signature (c.verify known message signature) b h6).0;
    }

-- Both sides signed what they sent, the answer is to this invitation, and the digits are made of it.
pub record IsGenuine (c : Crypto) (i : Invitation) (r : AndroidResponse) (now : ℤ)
    (p : VerifiedPairing) : Type 0 where
  pub daemon :
      IsAuthentic c i.daemon_public_key i.daemon_fingerprint i.signature
        (canonical_invitation i)
        p.daemon_public_key
  pub app :
      IsAuthentic c r.android_public_key r.android_fingerprint r.signature
        (canonical_android_response r)
        p.android_public_key
  pub same_invitation : (i.invitation_id ≡ r.invitation_id) × (p.invitation_id ≡ i.invitation_id)
  pub same_correlation : i.correlation_id ≡ r.correlation_id
  pub same_account : (is_empty i.account_id ≡ true) ⊎ (i.account_id ≡ r.account_id)
  pub current : (leb_int now (pos 0) ≡ true) ⊎ (leb_int i.expires_at now ≡ false)
  pub digits :
      compute_sas c p.daemon_public_key p.android_public_key p.invitation_id p.nonce ≡ ok p.sas

-- A pairing is verified only if the signatures that the invitation and the answer carry are signatures
-- of what they say by the keys whose fingerprints they name, the answer is to this invitation and, where it names one, to its account, the invitation has
-- not expired by a positive clock, and the digits to compare are computed from those keys.
pub verify_pairing_response-IsGenuine :
    (c : Crypto) (i : Invitation) (r : AndroidResponse) (now : ℤ) (p : VerifiedPairing)
    → verify_pairing_response c i r now ≡ ok p
    → IsGenuine c i r now p
unfolding verify_pairing_response verify_invitation verify_android_response
verify_pairing_response-IsGenuine c i r now p h =
    let (v1, e1, h1) = bind-ok (verify_invitation c i) _ p h in
    let (v2, e2, h2) = bind-ok (verify_android_response c r) _ p h1 in
    let (v3, e3, h3) = bind-ok (guard transcript_mismatch (is_transcript i r)) _ p h2 in
    let (v4, e4, h4) = bind-ok (guard invitation_expired (is_current i now)) _ p h3 in
    let (daemon_key, e5, h5) = bind-ok (decode_public_key_hex i.daemon_public_key) _ p h4 in
    let (android_key, e6, h6) = bind-ok (decode_public_key_hex r.android_public_key) _ p h5 in
    let (nonce, e7, h7) = bind-ok (decode_hex_field (codes "nonce") i.nonce) _ p h6 in
    let (sas, e8, h8) =
      bind-ok (compute_sas c daemon_key android_key i.invitation_id nonce) _ p h7 in
    let transcript = (guard-true transcript_mismatch (is_transcript i r) v3 e3).0 in
    let alive = (guard-true invitation_expired (is_current i now) v4 e4).0 in
    let built : record {
      daemon_public_key = daemon_key;
      android_public_key = android_key;
      invitation_id = i.invitation_id;
      nonce = nonce;
      sas = sas;
      android_fingerprint = normalize_fingerprint r.android_fingerprint;
    }
        ≡ p =
      cc h8 in
    subst (IsGenuine c i r now) built (record {
      daemon =
          checked-IsAuthentic c i.version i.daemon_public_key i.daemon_fingerprint i.signature
            (canonical_invitation i) v1 daemon_key e5 e1;
      app =
          checked-IsAuthentic c r.version r.android_public_key r.android_fingerprint r.signature
            (canonical_android_response r) v2 android_key e6 e2;
      same_invitation = (ground (arith, transcript), refl);
      same_correlation = ground (arith, transcript);
      same_account = ground (arith, transcript);
      current = ground (arith, alive);
      digits = e8;
    })
