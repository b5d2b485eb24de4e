-- ===== src/Pairing/Canonical.antt =====
-- The bytes that are signed: they determine what they were made of.
use agent_tunnel.Base.{
  ◌/◌, ◌%◌, ◌^◌, ◌≤◌, ◌≡◌, refl, sym, ap, ◌∙◌, List, [], ◌∷◌, ◌++◌, nat_eq, length, append_assoc,
  arith, All,
}
use agent_tunnel.Base.Bytes.{Bytes, put_uint16}
use agent_tunnel.Base.Utf8.{utf8-injective}
use agent_tunnel.Base.Int.{format_int-injective}
use mathlib.Core.List.{append-nil}
use agent_tunnel.Pairing.{bind-ok, ok, normalize_fingerprint}
use agent_tunnel.Pairing.Sas.{append_length_prefixed, append_fields}
use agent_tunnel.Pairing.Invitation.{Invitation, invitation_fields, canonical_invitation}

abbrev IsShort : Bytes → Type 0
IsShort b = length b ≤ 0xffff

-- The fields behind their lengths.
abbrev flat : List Bytes → Bytes
flat [] = []
flat (f ∷ fs) = put_uint16 (length f % 2 ^ 16) ++ f ++ flat fs

appended :
    (out f : Bytes) (b : Bytes)
    → append_length_prefixed out f ≡ ok b
    → IsShort f × (b ≡ out ++ put_uint16 (length f % 2 ^ 16) ++ f)
unfolding append_length_prefixed
appended out f b h = ground (arith, h)

flattened :
    (fs : List Bytes) (out b : Bytes)
    → append_fields out fs ≡ ok b
    → All IsShort fs × (b ≡ out ++ flat fs)
unfolding append_fields
flattened [] out b h = (tt, cc (h, append-nil out))
flattened (f ∷ fs) out b h =
    let size = put_uint16 (length f % 2 ^ 16) in
    let (next, first, others) =
      bind-ok (append_length_prefixed out f) (λ s. append_fields s fs) b h in
    let (short, front) = appended out f next first in
    let (rest, whole) = flattened fs next b others in
    (
      (short, rest),
      whole
          ∙ ap (λ s. s ++ flat fs) front
          ∙ append_assoc (out ++ size) f (flat fs)
          ∙ append_assoc out size (f ++ flat fs),
    )

same_length : (f g x y : Bytes) → length f ≡ length g → f ++ x ≡ g ++ y → (f ≡ g) × (x ≡ y)
same_length [] [] x y l e = (refl, e)
same_length [] (b ∷ g) x y l e = absurd (omega (arith, l))
same_length (a ∷ f) [] x y l e = absurd (omega (arith, l))
same_length (a ∷ f) (b ∷ g) x y l e =
    let (front, back) = same_length f g x y (omega (arith, l)) (cc e) in (cc (e, front), back)

flat-injective :
    (fs gs : List Bytes)
    → length fs ≡ length gs
    → All IsShort fs
    → All IsShort gs
    → flat fs ≡ flat gs
    → fs ≡ gs
flat-injective [] [] n h k e = refl
flat-injective [] (g ∷ gs) n h k e = absurd (omega (arith, n))
flat-injective (f ∷ fs) [] n h k e = absurd (omega (arith, n))
flat-injective (f ∷ fs) (g ∷ gs) n h k e =
    let high : length f % 2 ^ 16 / 2 ^ 8 % 256 ≡ length g % 2 ^ 16 / 2 ^ 8 % 256 = cc e in
    let low : length f % 2 ^ 16 % 256 ≡ length g % 2 ^ 16 % 256 = cc e in
    let size : length f ≡ length g = omega (arith, high, low, h.0, k.0) in
    let (front, back) = same_length f g (flat fs) (flat gs) size (cc e) in
    cc (front, flat-injective fs gs (omega (arith, n)) h.1 k.1 back)

-- Equal bytes are made of equal fields.
fields-injective :
    (out b : Bytes) (fs gs : List Bytes)
    → length fs ≡ length gs
    → append_fields out fs ≡ ok b
    → append_fields out gs ≡ ok b
    → fs ≡ gs
fields-injective out b fs gs n h k =
    let (short, left) = flattened fs out b h in
    let (short', right) = flattened gs out b k in
    flat-injective fs gs n short short'
      (same_length out out (flat fs) (flat gs) refl (sym left ∙ right)).1

-- The invitations agree in all that is signed.
pub record SameSigned (i j : Invitation) : Type 0 where
  pub account_id : i.account_id ≡ j.account_id
  pub daemon_id : i.daemon_id ≡ j.daemon_id
  pub daemon_display_name : i.daemon_display_name ≡ j.daemon_display_name
  pub daemon_fingerprint :
      normalize_fingerprint i.daemon_fingerprint ≡ normalize_fingerprint j.daemon_fingerprint
  pub daemon_public_key : i.daemon_public_key ≡ j.daemon_public_key
  pub invitation_id : i.invitation_id ≡ j.invitation_id
  pub correlation_id : i.correlation_id ≡ j.correlation_id
  pub nonce : i.nonce ≡ j.nonce
  pub relay_base_url : i.relay_base_url ≡ j.relay_base_url
  pub expires_at : i.expires_at ≡ j.expires_at

-- Two invitations whose signed bytes are the same have the same account, computer, key, invitation,
-- correlation, nonce, relay and expiry, and the same fingerprint but for case and blanks around.
pub canonical_invitation-SameSigned :
    (i j : Invitation) (b : Bytes)
    → canonical_invitation i ≡ ok b
    → canonical_invitation j ≡ ok b
    → SameSigned i j
unfolding canonical_invitation
canonical_invitation-SameSigned i j b h k =
    let e = fields-injective _ b (invitation_fields i) (invitation_fields j) refl h k in
    record {
      account_id = utf8-injective _ _ (cc e);
      daemon_id = utf8-injective _ _ (cc e);
      daemon_display_name = utf8-injective _ _ (cc e);
      daemon_fingerprint = utf8-injective _ _ (cc e);
      daemon_public_key = utf8-injective _ _ (cc e);
      invitation_id = utf8-injective _ _ (cc e);
      correlation_id = utf8-injective _ _ (cc e);
      nonce = utf8-injective _ _ (cc e);
      relay_base_url = utf8-injective _ _ (cc e);
      expires_at = format_int-injective i.expires_at j.expires_at (utf8-injective _ _ (cc e));
    }
