-- ===== src/Trust.antt =====
-- internal/tunnel/daemon/pairing_state.go: the file in which a daemon keeps its invitations, the
-- answers that wait for the user, and the devices it trusts. Every operation holds one mutex, reads
-- the file, and writes it at most once, through a temporary file, so that a write that fails leaves
-- the old contents. Times are nanoseconds since 1970; what is stored are seconds.
pub mod Operations
pub mod Completion
pub mod Invitations
pub mod Devices
pub mod Spent
pub mod Keeping
pub mod Steps
pub mod SingleUse
pub mod Revoked
mod Tests
use agent_tunnel.Base.{
  ℕ, ◌*◌, ◌/◌, Bool, true, false, not, ◌&&◌, ◌||◌, Option, none, some, List, [], ◌∷◌, ◌==◌,
  if◌then◌else◌, ltb,
}
use agent_tunnel.Base.Text.{Text, text_eq}
use agent_tunnel.Base.Bytes.{Bytes}
use agent_tunnel.Pairing
use agent_tunnel.Base.Int.{ℤ, pos, negsuc, int_eq}

pub record InvitationRecord : Type 0 where
  pub invitation_id : Text
  pub correlation_id : Text
  pub nonce : Text
  pub account_id : Text
  pub relay_base_url : Text
  pub device_id : Text
  pub daemon_fingerprint : Text
  pub expires_at : ℤ
  pub created_at : ℤ
  pub consumed_at : Option ℤ

pub record TrustedDevice : Type 0 where
  pub fingerprint : Text
  pub public_key : Text
  pub display_name : Text
  pub account_id : Text
  pub status : Text
  pub paired_at : ℤ
  pub revoked_at : Option ℤ
  pub warning : Text

pub record PendingRecord : Type 0 where
  pub invitation_id : Text
  pub correlation_id : Text
  pub account_id : Text
  pub android_public_key : Text
  pub android_fingerprint : Text
  pub android_display_name : Text
  pub signature : Text
  pub sas : Text
  pub received_at : ℤ
  pub expires_at : ℤ

pub record PairingState : Type 0 where
  pub version : ℤ
  pub invitations : List InvitationRecord
  pub pending_responses : List PendingRecord
  pub trusted_devices : List TrustedDevice

pub record Identity : Type 0 where
  pub private_key : Bytes
  pub public_key : Bytes
  pub fingerprint : Text
  pub created_at : ℤ

-- The last lines are errors of the file system, of crypto/rand and of the pairing protocol.
pub data Error : Type 0 where
  invitation_not_found invitation_expired invitation_consumed sas_mismatch : Error
  device_not_found invalid_fingerprint invalid_identity : Error
  unsupported_version : ℤ → Error
  unreadable unwritable identity_unavailable no_randomness : Error
  protocol : Pairing.Error → Error

pub data Result {ℓ} (A : Type ℓ) : Type ℓ where
  ok : A → Result A
  err : Error → Result A

infixl 5 ◌>>=◌
abbrev pub ◌>>=◌ {ℓ κ} : {A : Type ℓ} {B : Type κ} → Result A → (A → Result B) → Result B
ok a >>= f = f a
err e >>= f = err e

-- The contents of the file; `broken` cannot be read or is no JSON of this form.
pub data File : Type 0 where
  absent broken : File
  saved : PairingState → File

-- `if err != nil { return err }` of an operation that has not written the file.
unfoldable pub attempt {ℓ κ} :
    {A : Type ℓ} {B : Type κ} → File → Result A → (A → File × Result B) → File × Result B
attempt file (ok a) next = next a
attempt file (err e) next = (file, err e)

abbrev pub pairing_state_version : ℤ
pairing_state_version = pos 2

abbrev pub pairing_invitation_ttl : ℕ
pairing_invitation_ttl = 300_000_000_000

abbrev pub empty_state : PairingState
empty_state = record {
  version = pairing_state_version;
  invitations = [];
  pending_responses = [];
  trusted_devices = [];
}

unfoldable pub load_pairing_state : File → Result PairingState
load_pairing_state absent = ok empty_state
load_pairing_state broken = err unreadable
load_pairing_state (saved state) =
    if state.version == pairing_state_version
    then ok state
    else err (unsupported_version state.version)

-- SavePairingState, and what the operation returns behind it: `writable` tells whether the write
-- succeeds.
unfoldable pub save_pairing_state {ℓ} :
    {A : Type ℓ} → File → Bool → PairingState → Result A → File × Result A
save_pairing_state file writable state result =
    if writable
    then (saved (record state { version = pairing_state_version }), result)
    else (file, err unwritable)

-- Unix()
abbrev pub seconds : ℕ → ℤ
seconds now = pos (now / 1_000_000_000)

-- time.Unix(at, 0).After(now)
abbrev pub is_after : ℤ → ℕ → Bool
is_after (pos at) now = ltb now (at * 1_000_000_000)
is_after (negsuc n) now = false

-- The zero time stands for the clock.
abbrev pub time_or : ℕ → Option ℕ → ℕ
time_or clock none = clock
time_or clock (some now) = now

-- What an operation meets: the clock, the daemon's identity, if it can be read, and whether the file
-- can be written.
pub record Env : Type 0 where
  pub clock : ℕ
  pub identity : Option Identity
  pub writable : Bool

abbrev pub known {ℓ} : {A : Type ℓ} → Error → Option A → Result A
known e none = err e
known e (some a) = ok a
