-- ===== src/Connectivity/Keys.antt =====
-- The keys of the registry's maps.
use agent_tunnel.Base.{ℕ, ◌≡◌, ap, ◌∙◌, ◌∷◌, ◌++◌, arith}
use agent_tunnel.Base.Text.{Text, trim, to_lower, trim_idem, trim-to_lower, to_lower_idem}
use agent_tunnel.Base.Decimal.{decimal, decimal-injective, decimal-Lacks, split_at_first}
use agent_tunnel.Connectivity.{AppOwner}

unfoldable pub normalize_fingerprint : Text → Text
normalize_fingerprint raw = to_lower (trim raw)

pub normalize_fingerprint_idem :
    (raw : Text) → normalize_fingerprint (normalize_fingerprint raw) ≡ normalize_fingerprint raw
unfolding normalize_fingerprint
normalize_fingerprint_idem raw =
    ap to_lower (trim-to_lower (trim raw) ∙ ap to_lower (trim_idem raw)) ∙ to_lower_idem (trim raw)

abbrev colon : ℕ
colon = b':'

-- `fmt.Sprintf("%d:%s", userID, strings.TrimSpace(deviceID))`
unfoldable pub daemon_map_key : ℕ → Text → Text
daemon_map_key user device_id = decimal user ++ (colon ∷ trim device_id)

unfoldable pub pair_correlation_key : ℕ → Text → Text
pair_correlation_key user correlation_id = decimal user ++ (colon ∷ trim correlation_id)

unfoldable pub tunnel_attempt_key : AppOwner → Text → Text → Text
tunnel_attempt_key owner daemon_id attempt_id =
    decimal owner.user_id
    ++ (colon
        ∷ (trim owner.app_session_id
            ++ (colon
                ∷ (normalize_fingerprint owner.device_fingerprint
                    ++ (colon ∷ (trim daemon_id ++ (colon ∷ trim attempt_id)))))))

-- Two daemons share a key only if their users are the same and their ids are, without blanks around.
pub daemon_map_key-injective :
    (user user' : ℕ) (device device' : Text)
    → daemon_map_key user device ≡ daemon_map_key user' device'
    → (user ≡ user') × (trim device ≡ trim device')
unfolding daemon_map_key
daemon_map_key-injective user user' device device' e =
    let (number, rest) =
      split_at_first colon (decimal user) (decimal user') (trim device) (trim device')
        (decimal-Lacks colon user (omega arith)) (decimal-Lacks colon user' (omega arith)) e in
    (decimal-injective user user' number, rest)

-- The tunnels of two users never share a key.
pub tunnel_attempt_key-user :
    (owner owner' : AppOwner) (daemon daemon' attempt attempt' : Text)
    → tunnel_attempt_key owner daemon attempt ≡ tunnel_attempt_key owner' daemon' attempt'
    → owner.user_id ≡ owner'.user_id
unfolding tunnel_attempt_key
tunnel_attempt_key-user owner owner' daemon daemon' attempt attempt' e =
    decimal-injective owner.user_id owner'.user_id
      (split_at_first colon (decimal owner.user_id) (decimal owner'.user_id) _ _
        (decimal-Lacks colon owner.user_id (omega arith))
        (decimal-Lacks colon owner'.user_id (omega arith)) e).0
