-- ===== src/Trust/Operations.antt =====
-- internal/tunnel/daemon/pairing_state.go: invitations are made, answered and used up.
use agent_tunnel.Base.{ℕ, not, Option, none, some, List, [], ◌∷◌, keep, ◌==◌, nat_eq, if◌then◌else◌}
use agent_tunnel.Base.Text.{Text, text_eq}
use agent_tunnel.Base.Hex.{hex_encode}
use agent_tunnel.Base.Int.{ℤ, int_eq}
use agent_tunnel.Pairing
use agent_tunnel.Pairing.{Crypto}
use agent_tunnel.Pairing.Invitation.{Invitation}
use agent_tunnel.Trust.{
  InvitationRecord, TrustedDevice, PendingRecord, PairingState, Identity, protocol,
  invitation_not_found, invitation_expired, invitation_consumed, Result, ok, err, attempt, File,
  load_pairing_state, save_pairing_state, seconds, is_after, time_or, Env,
}

abbrev pub from_protocol {ℓ} : {A : Type ℓ} → Pairing.Result A → Result A
from_protocol (Pairing.ok a) = ok a
from_protocol (Pairing.err e) = err (protocol e)

abbrev pub sweep_expired_invitation_records : List InvitationRecord → ℕ → List InvitationRecord
sweep_expired_invitation_records records now = keep (λ i. is_after i.expires_at now) records

-- The first record with the id.
unfoldable pub find_invitation : Text → List InvitationRecord → Option InvitationRecord
find_invitation id [] = none
find_invitation id (i ∷ records) =
    let rest = find_invitation id records in if i.invitation_id == id then some i else rest

-- record.ConsumedAt = &consumedAt, in its place.
unfoldable pub consume_first : Text → ℤ → List InvitationRecord → List InvitationRecord
consume_first id at [] = []
consume_first id at (i ∷ records) =
    let rest = consume_first id at records in
    if i.invitation_id == id then record i { consumed_at = some at } ∷ records else i ∷ rest

-- The record may still be used.
unfoldable pub usable : Text → PairingState → ℕ → Result InvitationRecord
usable id state now = elim (find_invitation id state.invitations) [
  | none ↦ err invitation_not_found
  | some i ↦ elim i.consumed_at [
    | some at ↦ err invitation_consumed
    | none ↦ if not (is_after i.expires_at now) then err invitation_expired else ok i
  ]
]

abbrev pub consumed : Text → ℕ → PairingState → PairingState
consumed id now state = record state {
  invitations = consume_first id (seconds now) state.invitations;
}

unfoldable pub consume_pair_invitation :
    File → Env → Text → Option ℕ → File × Result InvitationRecord
consume_pair_invitation file env id at =
    let now = time_or env.clock at in
    attempt file (load_pairing_state file) (λ state. attempt file (usable id state now) (λ i.
      save_pairing_state file env.writable (consumed id now state)
        (ok (record i { consumed_at = some (seconds now) }))))

abbrev pub invitation_of : InvitationRecord → Identity → Invitation
invitation_of i identity = record {
  version = Pairing.version;
  account_id = i.account_id;
  daemon_id = i.device_id;
  daemon_display_name = [];
  daemon_public_key = hex_encode identity.public_key;
  daemon_fingerprint = identity.fingerprint;
  invitation_id = i.invitation_id;
  correlation_id = i.correlation_id;
  nonce = i.nonce;
  expires_at = i.expires_at;
  relay_base_url = i.relay_base_url;
  signature = [];
}

abbrev pub remove_pending : Text → List PendingRecord → List PendingRecord
remove_pending id records = keep (λ p. not (p.invitation_id == id)) records

unfoldable pub upsert_pending : PendingRecord → List PendingRecord → List PendingRecord
upsert_pending p [] = p ∷ []
upsert_pending p (q ∷ records) =
    let rest = upsert_pending p records in
    if q.invitation_id == p.invitation_id then p ∷ records else q ∷ rest

unfoldable pub upsert_trusted : TrustedDevice → List TrustedDevice → List TrustedDevice
upsert_trusted d [] = d ∷ []
upsert_trusted d (e ∷ devices) =
    let rest = upsert_trusted d devices in
    if e.fingerprint == d.fingerprint then d ∷ devices else e ∷ rest
