-- ===== src/Trust/Invitations.antt =====
-- internal/tunnel/daemon/pairing_state.go: an invitation is made.
use agent_tunnel.Base.{
  nat_eq, length, ℕ, ◌+◌, Bool, not, ◌&&◌, Option, none, [], ◌∷◌, ◌++◌, ◌==◌, if◌then◌else◌,
}
use agent_tunnel.Base.Text.{Text, text_eq, trim, is_empty}
use agent_tunnel.Base.Hex.{hex_encode}
use agent_tunnel.Base.Int.{pos, leb_int}
use agent_tunnel.Pairing
use agent_tunnel.Pairing.{Crypto}
use agent_tunnel.Pairing.Invitation.{Invitation, sign_invitation}
use agent_tunnel.Trust.{
  InvitationRecord, PairingState, Identity, no_randomness, invalid_identity, Result, ok, err, ◌>>=◌,
  attempt, File, load_pairing_state, save_pairing_state, seconds, time_or, Env, known,
  pairing_invitation_ttl,
}
use agent_tunnel.Trust.Operations.{from_protocol, sweep_expired_invitation_records}

pub record PairInvitationOptions : Type 0 where
  pub base_url : Text
  pub device_id : Text
  pub display_name : Text
  pub account_id : Text
  pub correlation_id : Text
  pub now : Option ℕ
  pub daemon_identity : Identity

-- What crypto/rand gives for the id of the invitation, its correlation and its nonce, if it does.
pub record Drawn : Type 0 where
  pub invitation_id : Option Text
  pub correlation_id : Option Text
  pub nonce : Option Text

abbrev pub correlation_for : PairInvitationOptions → Drawn → Result Text
correlation_for opts drawn =
    if is_empty (trim opts.correlation_id)
    then known no_randomness drawn.correlation_id
    else ok (trim opts.correlation_id)

unfoldable pub record_for : PairInvitationOptions → Drawn → ℕ → Result InvitationRecord
record_for opts drawn now = do
  invitation_id ← known no_randomness drawn.invitation_id
  correlation_id ← correlation_for opts drawn
  nonce ← known no_randomness drawn.nonce
  ok (record {
    invitation_id = invitation_id;
    correlation_id = correlation_id;
    nonce = nonce;
    account_id = trim opts.account_id;
    relay_base_url = trim opts.base_url;
    device_id = trim opts.device_id;
    daemon_fingerprint = opts.daemon_identity.fingerprint;
    expires_at = seconds (now + pairing_invitation_ttl);
    created_at = seconds now;
    consumed_at = none;
  })

-- The invitation that is shown, before it is signed.
abbrev pub invitation_for : PairInvitationOptions → InvitationRecord → Invitation
invitation_for opts i = record {
  version = Pairing.version;
  account_id = i.account_id;
  daemon_id = i.device_id;
  daemon_display_name = trim opts.display_name;
  daemon_public_key = hex_encode opts.daemon_identity.public_key;
  daemon_fingerprint = opts.daemon_identity.fingerprint;
  invitation_id = i.invitation_id;
  correlation_id = i.correlation_id;
  nonce = i.nonce;
  expires_at = i.expires_at;
  relay_base_url = i.relay_base_url;
  signature = [];
}

module _ (c : Crypto) where
  -- The errors of validateConnectivityIdentity are one.
  unfoldable pub is_identity : Identity → Bool
  is_identity own =
      length own.private_key == 64
      && length own.public_key == 32
      && c.public_key own.private_key == own.public_key
      && own.fingerprint == hex_encode (c.sha256 own.public_key)
      && not (leb_int own.created_at (pos 0))

  -- What is stored, and what is signed behind it.
  unfoldable pub create_checked :
      File
      → Env
      → PairInvitationOptions
      → ℕ
      → InvitationRecord
      → PairingState
      → File × Result Invitation
  create_checked file env opts now i state =
      let swept = sweep_expired_invitation_records state.invitations now in
      save_pairing_state file env.writable (record state { invitations = swept ++ i ∷ [] })
        (from_protocol (sign_invitation c (invitation_for opts i) opts.daemon_identity.private_key))

  unfoldable pub create_pair_invitation :
      File → Env → PairInvitationOptions → Drawn → File × Result Invitation
  create_pair_invitation file env opts drawn =
      let now = time_or env.clock opts.now in
      if not (is_identity opts.daemon_identity)
      then (file, err invalid_identity)
      else attempt file (record_for opts drawn now)
          (λ i. attempt file (load_pairing_state file) (create_checked file env opts now i))
