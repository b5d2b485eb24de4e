-- ===== src/Stun/Tests.antt =====
-- A binding request from 192.0.2.1:3478, and the answer to it.
use agent_tunnel.Base.{◌≡◌, refl, ℕ_discrete, some, [], ◌∷◌, arith}
use agent_tunnel.Base.Bytes.{Bytes}
use agent_tunnel.Stun.{
  UdpAddr, udp, to4, build_binding_request, build_binding_response, parse_binding_success,
}
use agent_tunnel.Stun.Values.{sent_ip}
use agent_tunnel.Stun.RoundTrip.{parse-build}

abbrev transaction_id : Bytes
transaction_id = 1 ∷ 2 ∷ 3 ∷ 4 ∷ 5 ∷ 6 ∷ 7 ∷ 8 ∷ 9 ∷ 10 ∷ 11 ∷ 12 ∷ []

abbrev address : UdpAddr
address = record { ip = 192 ∷ 0 ∷ 2 ∷ 1 ∷ []; port = 3478 }

address-sent_ip : sent_ip address.ip ≡ some address.ip
unfolding to4 ℕ_discrete
address-sent_ip = refl

parse-build_example :
    (response : Bytes) × (build_binding_response
        (build_binding_request transaction_id)
        (udp (some address))
      ≡ some response)
    × (parse_binding_success response ≡ (some address, transaction_id))
parse-build_example =
    parse-build address address.ip transaction_id (omega arith) refl address-sent_ip
