-- ===== src/Trust/Revoked.antt =====
-- internal/tunnel/daemon/pairing_state.go: a device that was revoked is not listed.
use agent_tunnel.Base.{
  ◌≡◌, refl, Bool, true, false, not, ◌&&◌, List, [], ◌∷◌, keep, map, ◌==◌, if◌then◌else◌, arith,
  Bool-cases, inl, inr, All,
}
use agent_tunnel.Base.Text.{Text, text_eq}
use agent_tunnel.Base.Int.{ℤ, int_eq, ℤ-discrete}
use agent_tunnel.Base.Sort.{sort, sort-All}
use agent_tunnel.Trust.{
  TrustedDevice, PairingState, Result, ok, err, attempt, File, Env, load_pairing_state,
  save_pairing_state,
}
use agent_tunnel.Trust.Devices.{
  is_revoked, revoke_first, revoke_loaded, revoke_trusted_android_device, shown, device_before,
  list_trusted_android_devices, normalize_android_fingerprint,
}

unfoldable pub lacks_device : Text → List TrustedDevice → Bool
lacks_device fingerprint [] = true
lacks_device fingerprint (d ∷ devices) =
    not (d.fingerprint == fingerprint) && lacks_device fingerprint devices

-- At most one device has the fingerprint.
unfoldable pub single_device : Text → List TrustedDevice → Bool
single_device fingerprint [] = true
single_device fingerprint (d ∷ devices) =
    let rest = single_device fingerprint devices in
    if d.fingerprint == fingerprint then lacks_device fingerprint devices else rest

-- The device is not one that is trusted under the fingerprint.
abbrev gone : Text → TrustedDevice → Bool
gone fingerprint d = not (d.fingerprint == fingerprint && not (is_revoked d))

abbrev IsGone : Text → TrustedDevice → Type 0
IsGone fingerprint d = gone fingerprint d ≡ true

abbrev pub IsOther : Text → TrustedDevice → Type 0
IsOther fingerprint d = (d.fingerprint == fingerprint) ≡ false

lacks-IsGone :
    (fingerprint : Text) (devices : List TrustedDevice)
    → lacks_device fingerprint devices ≡ true
    → All (IsGone fingerprint) devices
unfolding lacks_device
lacks-IsGone fingerprint [] h = tt
lacks-IsGone fingerprint (d ∷ devices) h =
    (ground (arith, h), lacks-IsGone fingerprint devices (ground (arith, h)))

revoke_first-IsGone :
    (fingerprint : Text) (now : ℤ) (devices : List TrustedDevice)
    → single_device fingerprint devices ≡ true
    → All (IsGone fingerprint) (revoke_first fingerprint now devices)
unfolding revoke_first single_device
revoke_first-IsGone fingerprint now [] h = tt
revoke_first-IsGone fingerprint now (d ∷ devices) h =
    elim (Bool-cases (d.fingerprint == fingerprint)) [
      | inl e ↦ rw e (ground arith, lacks-IsGone fingerprint devices (ground (arith, h, e)))
      | inr e ↦
          rw e
            (ground (arith, e), revoke_first-IsGone fingerprint now devices (ground (arith, h, e)))
    ]

trusted-IsOther :
    (fingerprint : Text) (devices : List TrustedDevice)
    → All (IsGone fingerprint) devices
    → All (IsOther fingerprint) (map shown (keep (λ d. not (is_revoked d)) devices))
trusted-IsOther fingerprint [] h = tt
trusted-IsOther fingerprint (d ∷ devices) (h, rest) = elim (Bool-cases (is_revoked d)) [
  | inl e ↦ rw e (trusted-IsOther fingerprint devices rest)
  | inr e ↦ rw e (ground (arith, h, e), trusted-IsOther fingerprint devices rest)
]

-- The list of the devices can be shown, and the fingerprint is not in it.
abbrev pub IsUnlisted : Text → File → Type 0
IsUnlisted fingerprint file =
    (devices : List TrustedDevice) × (list_trusted_android_devices file ≡ ok devices)
    × All (IsOther fingerprint) devices

saved-IsUnlisted :
    (fingerprint : Text) (file : File) (writable : Bool) (state : PairingState)
    (result : Result TrustedDevice) (d : TrustedDevice)
    → All (IsGone fingerprint) state.trusted_devices
    → (save_pairing_state file writable state result).1 ≡ ok d
    → IsUnlisted fingerprint (save_pairing_state file writable state result).0
unfolding save_pairing_state list_trusted_android_devices load_pairing_state ℤ-discrete
saved-IsUnlisted fingerprint file true state result d h done = (
  sort device_before (map shown (keep (λ d. not (is_revoked d)) state.trusted_devices)),
  refl,
  sort-All device_before (IsOther fingerprint) _
      (trusted-IsOther fingerprint state.trusted_devices h),
)
saved-IsUnlisted fingerprint file false state result d h done = absurd (ground (arith, done))

attempt-ok {ℓ} :
    {A B : Type ℓ} (P : File → Type 0) (file : File) (r : Result A) (next : A → File × Result B)
    (b : B)
    → ((a : A) → r ≡ ok a → (next a).1 ≡ ok b → P (next a).0)
    → (attempt file r next).1 ≡ ok b
    → P (attempt file r next).0
unfolding attempt
attempt-ok P file (ok a) next b h done = h a refl done
attempt-ok P file (err e) next b h done = absurd (ground (arith, done))

found-IsUnlisted :
    (file : File) (env : Env) (fingerprint : Text) (state : PairingState) (d : TrustedDevice)
    → single_device fingerprint state.trusted_devices ≡ true
    → (revoke_loaded file env fingerprint state).1 ≡ ok d
    → IsUnlisted fingerprint (revoke_loaded file env fingerprint state).0
unfolding revoke_loaded
found-IsUnlisted file env fingerprint state d one =
    attempt-ok (IsUnlisted fingerprint) file _ _ d (λ found _.
      saved-IsUnlisted fingerprint file env.writable _ _ d
        (revoke_first-IsGone fingerprint _ state.trusted_devices one))

-- A device that was revoked is not in the list of the trusted devices, which can be shown then; at
-- most one device of its fingerprint is in the file before.
pub revoke-IsUnlisted :
    (file : File) (env : Env) (raw fingerprint : Text) (state : PairingState) (d : TrustedDevice)
    → normalize_android_fingerprint raw ≡ ok fingerprint
    → load_pairing_state file ≡ ok state
    → single_device fingerprint state.trusted_devices ≡ true
    → (revoke_trusted_android_device file env raw).1 ≡ ok d
    → IsUnlisted fingerprint (revoke_trusted_android_device file env raw).0
unfolding revoke_trusted_android_device attempt
revoke-IsUnlisted file env raw fingerprint state d named loaded one =
    rw (named, loaded) (found-IsUnlisted file env fingerprint state d one)
