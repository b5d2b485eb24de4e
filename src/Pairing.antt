-- ===== src/Pairing.antt =====
-- internal/connectivity/pairing/transcript.go, and what the files of the package share. SHA-256 and
-- Ed25519 are parameters: crypto/sha256 and crypto/ed25519.
pub mod Sas
pub mod Invitation
pub mod Canonical
pub mod Signing
pub mod Verified
pub mod Tests
use agent_tunnel.Base.{
  ℕ, ◌≡◌, refl, ◌*◌, ltb, Bool, true, false, not, ◌&&◌, Option, none, some, List, [], ◌∷◌, ◌==◌,
  nat_eq, if◌then◌else◌, length,
}
use agent_tunnel.Base.Text.{Text, text_eq, trim, to_lower, codes}
use agent_tunnel.Base.Bytes.{Bytes}
use agent_tunnel.Base.Hex.{hex_encode, hex_decode}
use agent_tunnel.Base.Int.{ℤ, pos, leb_int, non_negative}

pub record Crypto : Type 0 where
  pub sha256 : Bytes → Bytes
  -- The key, then the message.
  pub sign : Bytes → Bytes → Bytes
  pub verify : Bytes → Bytes → Bytes → Bool
  pub public_key : Bytes → Bytes

-- An error that is wrapped keeps the name of its field.
pub data Error : Type 0 where
  invalid_version invalid_signature fingerprint_mismatch invitation_expired : Error
  transcript_mismatch invalid_public_key_length sas_input_too_long : Error
  invalid_hex_field : Text → Error

pub data Result {ℓ} (A : Type ℓ) : Type ℓ where
  ok : A → Result A
  err : Error → Result A

infixl 5 ◌>>=◌
abbrev pub ◌>>=◌ {ℓ κ} : {A : Type ℓ} {B : Type κ} → Result A → (A → Result B) → Result B
ok a >>= f = f a
err e >>= f = err e

-- A test that stops with an error.
abbrev pub guard : Error → Bool → Result Bool
guard e true = ok true
guard e false = err e

-- What comes through has come through each part.
pub bind-ok {ℓ κ} :
    {A : Type ℓ} {B : Type κ} (x : Result A) (f : A → Result B) (b : B)
    → (x >>= f) ≡ ok b
    → (a : A) × (x ≡ ok a) × (f a ≡ ok b)
bind-ok (ok a) f b h = (a, refl, h)
bind-ok (err e) f b h = absurd (cc h)

pub guard-ok : (e : Error) (p q : Bool) → guard e p ≡ ok q → p ≡ true
guard-ok e true q h = refl
guard-ok e false q h = absurd (cc h)

abbrev pub version : ℤ
version = pos 2

abbrev pub public_key_size : ℕ
public_key_size = 32

abbrev pub decoded : Error → Option Bytes → Result Bytes
decoded e none = err e
decoded e (some b) = ok b

unfoldable pub decode_hex_field : Text → Text → Result Bytes
decode_hex_field name raw = decoded (invalid_hex_field name) (hex_decode (trim raw))

check_key_length : Bytes → Result Bytes
check_key_length key =
    if not (length key == public_key_size) then err invalid_public_key_length else ok key

unfoldable pub decode_public_key_hex : Text → Result Bytes
unfolding check_key_length
decode_public_key_hex raw = do
  key ← decoded (invalid_hex_field (codes "public_key")) (hex_decode (trim raw))
  check_key_length key

abbrev pub normalize_fingerprint : Text → Text
normalize_fingerprint raw = to_lower (trim raw)

-- `now` is the number of nanoseconds since 1970, and none for the zero time.
unfoldable pub validate_expiry : ℤ → Option ℕ → Result Bool
validate_expiry expires_at now =
    if leb_int expires_at (pos 0) then err invitation_expired else elim now [
      | none ↦ ok true
      | some at ↦
          if not (ltb at (non_negative expires_at * 1_000_000_000))
          then err invitation_expired
          else ok true
    ]

module _ (c : Crypto) where
  unfoldable pub public_key_fingerprint_hex : Bytes → Result Text
  public_key_fingerprint_hex key =
      if not (length key == public_key_size)
      then err invalid_public_key_length
      else ok (hex_encode (c.sha256 key))

  unfoldable pub validate_fingerprint : Bytes → Text → Result Bool
  unfolding public_key_fingerprint_hex
  validate_fingerprint key fingerprint = do
    computed ← public_key_fingerprint_hex key
    guard fingerprint_mismatch (computed == normalize_fingerprint fingerprint)
