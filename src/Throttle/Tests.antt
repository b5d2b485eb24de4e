-- ===== src/Throttle/Tests.antt =====
-- Runs of the throttle, and its theorems at concrete inputs.
use agent_tunnel.Base.{◌≡◌, refl, true, false, some, [], ◌∷◌, arith}
use agent_tunnel.Base.Text.{Text, codes, Text-discrete, ne_of_test}
use agent_tunnel.Base.Dict.{lookup, insert}
use agent_tunnel.Throttle.{Throttle, allow, record_failure, reset}
use agent_tunnel.Throttle.Burst.{
  answer, record_all, allow-record_all, allow-record_failure_other, allow-reset,
}

abbrev alice : Text
alice = codes "10.0.0.1"

abbrev bob : Text
bob = codes "10.0.0.2"

-- Two failures in a window of 100.
abbrev strict : Throttle
strict = record { limit = 2; window = 100; clients = [] }

refused :
    answer (allow (record_all (record_failure (some strict) alice 5) alice (6 ∷ [])) alice 50)
    ≡ (false, 55)
unfolding allow record_failure lookup insert Text-discrete
refused = refl

allow-record_all_example :
    answer (allow (record_all (record_failure (some strict) alice 5) alice (6 ∷ [])) alice 50)
    ≡ (false, 55)
unfolding lookup
allow-record_all_example = allow-record_all strict alice 5 (6 ∷ []) 50 refl refl (omega arith)

allow-record_failure_other_example :
    answer (allow (record_failure (some strict) alice 5) bob 6) ≡ answer (allow (some strict) bob 6)
unfolding Text-discrete
allow-record_failure_other_example =
    allow-record_failure_other (some strict) alice bob 5 6 (ne_of_test alice bob refl)

allow-reset_example : answer (allow (reset (some strict) alice) alice 9) ≡ (true, 0)
allow-reset_example = allow-reset (some strict) alice 9
