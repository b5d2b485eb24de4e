-- ===== src/Addresses.antt =====
-- internal/connectivity/direct/candidate.go: the private addresses of a machine that a peer may try,
-- and what the package net tells of an IP and prints. The zone of an address plays no part.
pub mod Ip
pub mod Sanitized
mod Tests
use agent_tunnel.Base.{
  ℕ, zero, suc, ◌+◌, ◌*◌, Bool, true, false, not, ◌&&◌, ◌||◌, Option, none, some, List, [], ◌∷◌,
  ◌++◌, ltb, leb, ◌==◌, nat_eq, if◌then◌else◌, length, take, any,
}
use agent_tunnel.Base.Text.{Text, text_eq, text_ltb, is_empty, codes}
use agent_tunnel.Base.Bytes.{Bytes}
use agent_tunnel.Base.Int.{ℤ, pos, negsuc, leb_int, format_int}
use agent_tunnel.Base.Sort.{sort}
use agent_tunnel.Addresses.Ip.{
  ip_string, is_private, is_link_local_unicast, is_loopback, join_host_port, byte_at,
}
use agent_tunnel.Stun.{to4}

-- net.UDPAddr, whose IP may be nil; the pointer may be nil too.
pub record UdpAddr : Type 0 where
  pub ip : Option Bytes
  pub port : ℤ

pub record PrivateAddressOptions : Type 0 where
  pub limit : ℤ
  pub allow_loopback : Bool
  pub allow_test_networks : Bool

abbrev pub default_private_candidate_limit : ℕ
default_private_candidate_limit = 8

abbrev pub limit_of : PrivateAddressOptions → ℕ
limit_of opts = effective opts.limit
  where
    effective : ℤ → ℕ
    effective (pos zero) = default_private_candidate_limit
    effective (pos (suc n)) = suc n
    effective (negsuc n) = default_private_candidate_limit

unfoldable pub is_documentation_ip : Bytes → Bool
is_documentation_ip ip = elim (to4 ip) [
  | none ↦ false
  | some q ↦
      (byte_at 0 q == 192 && byte_at 1 q == 0 && byte_at 2 q == 2)
      || (byte_at 0 q == 198 && byte_at 1 q == 51 && byte_at 2 q == 100)
      || (byte_at 0 q == 203 && byte_at 1 q == 0 && byte_at 2 q == 113)
]

unfoldable pub allowed_private_ip : Option Bytes → PrivateAddressOptions → Bool
allowed_private_ip none opts = false
allowed_private_ip (some ip) opts =
    if is_private ip
    then true
    else if is_link_local_unicast ip
    then true
    else if is_loopback ip
    then opts.allow_loopback
    else opts.allow_test_networks && is_documentation_ip ip

unfoldable pub normalize_udp_addr : Option UdpAddr → Text
normalize_udp_addr none = []
normalize_udp_addr (some addr) = elim addr.ip [
  | none ↦ []
  | some ip ↦
      if leb_int addr.port (pos 0) || not (leb_int addr.port (pos 65535))
      then []
      else join_host_port (ip_string ip) (format_int addr.port)
]

unfoldable pub is_allowed : PrivateAddressOptions → Option UdpAddr → Bool
is_allowed opts none = false
is_allowed opts (some addr) = allowed_private_ip addr.ip opts

-- seen[normalized] = struct{}{}
unfoldable pub see : Text → List Text → List Text
see s seen = if any (λ t. t == s) seen then seen else s ∷ seen

unfoldable pub see_addr : PrivateAddressOptions → Option UdpAddr → List Text → List Text
see_addr opts addr seen =
    if not (is_allowed opts addr)
    then seen
    else if is_empty (normalize_udp_addr addr)
    then seen
    else see (normalize_udp_addr addr) seen

unfoldable pub see_all : PrivateAddressOptions → List (Option UdpAddr) → List Text → List Text
see_all opts [] seen = seen
see_all opts (addr ∷ addrs) seen = see_all opts addrs (see_addr opts addr seen)

unfoldable pub sanitize_private_udp_addrs :
    List (Option UdpAddr) → PrivateAddressOptions → List Text
sanitize_private_udp_addrs addrs opts = take (limit_of opts) (sort text_ltb (see_all opts addrs []))

-- net.Addr of an interface.
pub data IfaceAddr : Type 0 where
  ip_net ip_addr : Option Bytes → IfaceAddr
  other : IfaceAddr

-- net.Interface, whose addresses may be refused.
pub record Iface : Type 0 where
  pub is_up : Bool
  pub addrs : Option (List IfaceAddr)

abbrev pub ip_from_addr : IfaceAddr → Option (Option Bytes)
ip_from_addr (ip_net ip) = some ip
ip_from_addr (ip_addr ip) = some ip
ip_from_addr other = none

unfoldable pub addrs_of : ℤ → List IfaceAddr → List (Option UdpAddr)
addrs_of port [] = []
addrs_of port (a ∷ addrs) =
    let rest = addrs_of port addrs in
    elim (ip_from_addr a) [ none ↦ rest | some ip ↦ some (record { ip = ip; port = port }) ∷ rest ]

unfoldable pub all_addrs : ℤ → List Iface → List (Option UdpAddr)
all_addrs port [] = []
all_addrs port (i ∷ ifaces) =
    let rest = all_addrs port ifaces in
    elim i.addrs [
      | none ↦ rest
      | some addrs ↦ if not i.is_up then rest else addrs_of port addrs ++ rest
    ]

-- The interfaces are what net.Interfaces gives, if it does.
unfoldable pub collect_private_udp_addrs :
    Option (List Iface) → ℤ → PrivateAddressOptions → Option (List Text)
collect_private_udp_addrs none port opts = none
collect_private_udp_addrs (some ifaces) port opts =
    some (sanitize_private_udp_addrs (all_addrs port ifaces) opts)
