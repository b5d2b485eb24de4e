-- ===== src/Addresses/Tests.antt =====
-- Addresses of a machine, and the theorems at them.
use agent_tunnel.Base.{
  ◌≡◌, refl, false, Option, none, some, List, [], ◌∷◌, ◌≤◌, length, All, Any, here, there, arith,
  ℕ_discrete,
}
use agent_tunnel.Base.Text.{Text-discrete, text_ltb, codes}
use agent_tunnel.Base.Decimal.{decimal}
use agent_tunnel.Base.Hex.{hex_digit}
use agent_tunnel.Base.Int.{pos, format_int, ℤ-discrete}
use agent_tunnel.Base.Sort.{sort, place}
use agent_tunnel.Stun.{to4}
use agent_tunnel.Addresses.Ip.{
  ip_string, is_private, is_link_local_unicast, is_loopback, longest_zeros, print_words,
}
use agent_tunnel.Addresses.{
  UdpAddr, PrivateAddressOptions, allowed_private_ip, is_allowed, normalize_udp_addr, see, see_addr,
  see_all, sanitize_private_udp_addrs, is_documentation_ip,
}
use agent_tunnel.Addresses.Sanitized.{IsCandidate, sanitize-IsCandidate, sanitize-Any}

abbrev home : Option UdpAddr
home = some (record { ip = some (192 ∷ 168 ∷ 0 ∷ 7 ∷ []); port = pos 443 })

abbrev link_local : Option UdpAddr
link_local = some (record {
  ip = some (0xfe ∷ 0x80 ∷ 0 ∷ 0 ∷ 0 ∷ 0 ∷ 0 ∷ 0 ∷ 0 ∷ 0 ∷ 0 ∷ 9 ∷ 0 ∷ 0 ∷ 0 ∷ 1 ∷ []);
  port = pos 443;
})

abbrev public : Option UdpAddr
public = some (record { ip = some (8 ∷ 8 ∷ 8 ∷ 8 ∷ []); port = pos 443 })

abbrev found : List (Option UdpAddr)
found = link_local ∷ public ∷ none ∷ home ∷ home ∷ []

abbrev options : PrivateAddressOptions
options = record { limit = pos 0; allow_loopback = false; allow_test_networks = false }

found-sanitized :
    sanitize_private_udp_addrs found options
    ≡ codes "192.168.0.7:443" ∷ codes "[fe80::9:0:1]:443" ∷ []
unfolding sanitize_private_udp_addrs see_all see_addr see is_allowed allowed_private_ip is_private
    is_link_local_unicast is_loopback to4 normalize_udp_addr ip_string longest_zeros print_words
    sort place text_ltb decimal hex_digit format_int ℕ_discrete Text-discrete ℤ-discrete
    is_documentation_ip
found-sanitized = refl

sanitize-IsCandidate_example :
    All (IsCandidate options found) (sanitize_private_udp_addrs found options)
    × (length (sanitize_private_udp_addrs found options) ≤ 8)
sanitize-IsCandidate_example = sanitize-IsCandidate options found

home-IsCandidate : IsCandidate options found (codes "192.168.0.7:443")
unfolding is_allowed allowed_private_ip is_private to4 normalize_udp_addr ip_string decimal
    format_int ℕ_discrete ℤ-discrete
home-IsCandidate = there _ _ (there _ _ (there _ _ (here _ _ (refl, refl))))

sanitize-Any_example :
    Any (λ t. t ≡ codes "192.168.0.7:443") (sanitize_private_udp_addrs found options)
sanitize-Any_example =
    sanitize-Any options found (codes "192.168.0.7:443") home-IsCandidate refl
      (rw found-sanitized (omega arith))
