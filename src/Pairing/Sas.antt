-- ===== src/Pairing/Sas.antt =====
-- internal/connectivity/pairing/sas.go: the six digits that both sides show.
use agent_tunnel.Base.{
  ℕ, ◌%◌, ◌^◌, not, ◌||◌, List, [], ◌∷◌, ◌++◌, ltb, ◌==◌, nat_eq, if◌then◌else◌, length, take,
}
use agent_tunnel.Base.Text.{Text}
use agent_tunnel.Base.Bytes.{Bytes, put_uint16, big_endian}
use agent_tunnel.Base.Utf8.{utf8}
use agent_tunnel.Base.Decimal.{digits}
use agent_tunnel.Pairing.{
  Crypto, Result, ok, err, ◌>>=◌, public_key_size, sas_input_too_long, invalid_public_key_length,
}

abbrev pub sas_modulo : ℕ
sas_modulo = 1_000_000

unfoldable pub append_length_prefixed : Bytes → Bytes → Result Bytes
append_length_prefixed out value =
    if ltb 0xffff (length value)
    then err sas_input_too_long
    else ok (out ++ put_uint16 (length value % 2 ^ 16) ++ value)

-- The loop over the fields.
unfoldable pub append_fields : Bytes → List Bytes → Result Bytes
append_fields out [] = ok out
append_fields out (field ∷ fields) = do
  next ← append_length_prefixed out field
  append_fields next fields

unfoldable pub canonical_sas_input : Bytes → Bytes → Text → Bytes → Result Bytes
canonical_sas_input daemon_pub android_pub invitation_id nonce =
    append_fields [] (daemon_pub ∷ android_pub ∷ utf8 invitation_id ∷ nonce ∷ [])

module _ (c : Crypto) where
  -- fmt.Sprintf("%06d", short)
  abbrev sas_of : Bytes → Text
  sas_of canonical = digits 6 (big_endian 0 (take 4 (c.sha256 canonical)) % sas_modulo)

  unfoldable pub compute_sas : Bytes → Bytes → Text → Bytes → Result Text
  compute_sas daemon_pub android_pub invitation_id nonce =
      if not (length daemon_pub == public_key_size) || not (length android_pub == public_key_size)
      then err invalid_public_key_length
      else do
        canonical ← canonical_sas_input daemon_pub android_pub invitation_id nonce
        ok (sas_of canonical)
