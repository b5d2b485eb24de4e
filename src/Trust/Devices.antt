-- ===== src/Trust/Devices.antt =====
-- internal/tunnel/daemon/pairing_state.go: the devices that are trusted, and the lists that are shown.
use agent_tunnel.Base.{
  Bool, true, false, not, ◌||◌, Option, none, some, List, [], ◌∷◌, keep, map, length, ◌==◌, nat_eq,
  if◌then◌else◌,
}
use agent_tunnel.Base.Text.{Text, text_eq, text_ltb, trim, to_lower, is_empty, codes}
use agent_tunnel.Base.Hex.{hex_decode}
use agent_tunnel.Base.Int.{ℤ, pos, int_eq, leb_int}
use agent_tunnel.Base.Sort.{sort}
use agent_tunnel.Trust.{
  TrustedDevice, PairingState, PendingRecord, invalid_fingerprint, device_not_found, Result, ok,
  err, ◌>>=◌, attempt, known, File, load_pairing_state, save_pairing_state, seconds, is_after, Env,
}
use agent_tunnel.Trust.Operations.{upsert_trusted}

is_hex : Text → Bool
is_hex s = elim (hex_decode s) [ none ↦ false | some b ↦ true ]

-- A text of 64 code points that is hexadecimal has 64 bytes, and one of 64 bytes that is not is
-- refused by the second test.
unfoldable pub normalize_android_fingerprint : Text → Result Text
unfolding is_hex
normalize_android_fingerprint raw =
    let normalized = to_lower (trim raw) in
    if not (length normalized == 64)
    then err invalid_fingerprint
    else if not (is_hex normalized)
    then err invalid_fingerprint
    else ok normalized

unfoldable pub upsert_trusted_android_device : File → Env → TrustedDevice → File × Result Bool
upsert_trusted_android_device file env device =
    attempt file (normalize_android_fingerprint device.fingerprint) (λ fingerprint.
      attempt file (load_pairing_state file) (λ state.
        let trusted = record device {
          fingerprint = fingerprint;
          status = codes "trusted";
          revoked_at = none;
          paired_at = if device.paired_at == pos 0 then seconds env.clock else device.paired_at;
        } in
        save_pairing_state file env.writable
          (record state { trusted_devices = upsert_trusted trusted state.trusted_devices })
          (ok true)))

abbrev pub is_revoked : TrustedDevice → Bool
is_revoked d = d.status == codes "revoked" || is_some d.revoked_at
  where
    is_some : Option ℤ → Bool
    is_some none = false
    is_some (some at) = true

abbrev pub revoked : TrustedDevice → ℤ → TrustedDevice
revoked d now = record d {
  revoked_at = elim d.revoked_at [ none ↦ some now | some at ↦ some at ];
  status = codes "revoked";
}

unfoldable pub find_device : Text → List TrustedDevice → Option TrustedDevice
find_device fingerprint [] = none
find_device fingerprint (d ∷ devices) =
    let rest = find_device fingerprint devices in
    if d.fingerprint == fingerprint then some d else rest

unfoldable pub revoke_first : Text → ℤ → List TrustedDevice → List TrustedDevice
revoke_first fingerprint now [] = []
revoke_first fingerprint now (d ∷ devices) =
    let rest = revoke_first fingerprint now devices in
    if d.fingerprint == fingerprint then revoked d now ∷ devices else d ∷ rest

unfoldable pub revoke_loaded : File → Env → Text → PairingState → File × Result TrustedDevice
revoke_loaded file env fingerprint state =
    let now = seconds env.clock in
    attempt file (known device_not_found (find_device fingerprint state.trusted_devices)) (λ d.
      save_pairing_state file env.writable
        (record state { trusted_devices = revoke_first fingerprint now state.trusted_devices })
        (ok (revoked d now)))

unfoldable pub revoke_trusted_android_device : File → Env → Text → File × Result TrustedDevice
revoke_trusted_android_device file env raw =
    attempt file (normalize_android_fingerprint raw)
      (λ fingerprint. attempt file (load_pairing_state file) (revoke_loaded file env fingerprint))

-- `if device.Status == ""`
abbrev pub shown : TrustedDevice → TrustedDevice
shown d = if is_empty d.status then record d { status = codes "trusted" } else d

-- The later of two times first, then by a name.
abbrev pub later_first : ℤ → ℤ → Text → Text → Bool
later_first at at' name name' = if at == at' then text_ltb name name' else not (leb_int at at')

abbrev pub device_before : TrustedDevice → TrustedDevice → Bool
device_before d e = later_first d.paired_at e.paired_at d.fingerprint e.fingerprint

abbrev pub pending_before : PendingRecord → PendingRecord → Bool
pending_before p q = later_first p.received_at q.received_at p.invitation_id q.invitation_id

unfoldable pub list_trusted_android_devices : File → Result (List TrustedDevice)
list_trusted_android_devices file = do
  state ← load_pairing_state file
  ok (sort device_before (map shown (keep (λ d. not (is_revoked d)) state.trusted_devices)))

unfoldable pub list_pending_pairing_responses : File → Env → Result (List PendingRecord)
list_pending_pairing_responses file env = do
  state ← load_pairing_state file
  ok (sort pending_before (keep (λ p. is_after p.expires_at env.clock) state.pending_responses))
