-- ===== src/Stun.antt =====
-- internal/connectivity/stun/server.go: the binding messages by which a peer learns its public
-- address. A byte slice is a list of numbers below 256, and a [12]byte one of length 12.
pub mod Values
pub mod RoundTrip
mod Tests
use Prim.Native.Nat.{bit_xor}
use agent_tunnel.Base.{
  ℕ, zero, suc, ◌+◌, ◌-◌, ◌*◌, ◌/◌, ◌%◌, ◌^◌, Bool, true, false, not, ◌&&◌, ◌||◌, Option, none,
  some, List, [], ◌∷◌, ◌++◌, ltb, leb, ◌==◌, nat_eq, if◌then◌else◌, length, take, drop,
}
use agent_tunnel.Base.Bytes.{Bytes, put_uint16, put_uint32, big_endian, slice}

abbrev pub binding_request : ℕ
binding_request = 0x0001

abbrev pub binding_response : ℕ
binding_response = 0x0101

abbrev pub xor_mapped_address : ℕ
xor_mapped_address = 0x0020

abbrev pub magic_cookie : ℕ
magic_cookie = 0x2112a442

abbrev pub header_len : ℕ
header_len = 20

-- net.UDPAddr, with a port that is not negative. The zone of a link-local address plays no part.
pub record UdpAddr : Type 0 where
  pub ip : Bytes
  pub port : ℕ

-- A net.Addr: a *net.UDPAddr, which may be nil, or an address of another kind.
pub data Addr : Type 0 where
  udp : Option UdpAddr → Addr
  other : Addr

-- Ten zeros and two bytes 255 start an IPv4 address in the form of IPv6.
abbrev is_v4_in_v6 : Bytes → Bool
is_v4_in_v6 ip = big_endian 0 (take 10 ip) == 0 && big_endian 0 (slice 10 12 ip) == 0xffff

-- IP.To4 and IP.To16 of the package net.
unfoldable pub to4 : Bytes → Option Bytes
to4 ip =
    if length ip == 4
    then some ip
    else if length ip == 16 && is_v4_in_v6 ip
    then some (slice 12 16 ip)
    else none

unfoldable pub to16 : Bytes → Option Bytes
to16 ip =
    if length ip == 4
    then some (0 ∷ 0 ∷ 0 ∷ 0 ∷ 0 ∷ 0 ∷ 0 ∷ 0 ∷ 0 ∷ 0 ∷ 255 ∷ 255 ∷ ip)
    else if length ip == 16
    then some ip
    else none

-- uint16(magicCookie >> 16)
abbrev pub port_mask : ℕ
port_mask = magic_cookie / 2 ^ 16 % 2 ^ 16

-- The bytes of an IPv4 address and those of the cookie from the i-th on.
unfoldable pub xor_cookie : ℕ → Bytes → Bytes
xor_cookie i [] = []
xor_cookie i (b ∷ ip) = bit_xor b (magic_cookie / 2 ^ (24 - 8 * i) % 256) ∷ xor_cookie (suc i) ip

abbrev pub xor_key : Bytes → Bytes
xor_key transaction_id = put_uint32 magic_cookie ++ transaction_id

unfoldable pub xor_bytes : Bytes → Bytes → Bytes
xor_bytes [] key = []
xor_bytes (b ∷ ip) [] = []
xor_bytes (b ∷ ip) (k ∷ key) = bit_xor b k ∷ xor_bytes ip key

abbrev pub padding : ℕ → ℕ
padding n = let remainder = n % 4 in if remainder == 0 then 0 else 4 - remainder

-- `ip` in the value of the attribute, behind its family.
abbrev pub address_value : ℕ → ℕ → Bytes → Bytes
address_value family port ip = 0 ∷ family ∷ put_uint16 (bit_xor (port % 2 ^ 16) port_mask) ++ ip

unfoldable pub xor_mapped_address_value : UdpAddr → Bytes → Option Bytes
xor_mapped_address_value addr transaction_id = elim (to4 addr.ip) [
  | some ip4 ↦ some (address_value 0x01 addr.port (xor_cookie 0 ip4))
  | none ↦ elim (to16 addr.ip) [
    | some ip16 ↦ some (address_value 0x02 addr.port (xor_bytes ip16 (xor_key transaction_id)))
    | none ↦ none
  ]
]

-- Both errInvalidMessage and the missing address are `none`.
unfoldable pub parse_xor_mapped_address_value : Bytes → Bytes → Option UdpAddr
parse_xor_mapped_address_value (first ∷ family ∷ p ∷ q ∷ rest) transaction_id =
    let port = bit_xor (big_endian 0 (p ∷ q ∷ [])) port_mask in
    let len = length (first ∷ family ∷ p ∷ q ∷ rest) in
    if not (first == 0)
    then none
    else if family == 0x01
    then (if not (len == 8) then none else some (record { ip = xor_cookie 0 rest; port = port }))
    else if family == 0x02
    then (if not (len == 20)
        then none
        else some (record { ip = xor_bytes rest (xor_key transaction_id); port = port }))
    else none
parse_xor_mapped_address_value _ transaction_id = none

unfoldable pub build_binding_request : Bytes → Bytes
build_binding_request transaction_id =
    put_uint16 binding_request ++ put_uint16 0 ++ put_uint32 magic_cookie ++ transaction_id

-- What bindingTransactionID and responseTransactionID check, for the type of the message.
unfoldable pub transaction_id_of : ℕ → Bytes → Option Bytes
transaction_id_of type message =
    let msg_len = big_endian 0 (slice 2 4 message) in
    if ltb (length message) header_len
    then none
    else if not (big_endian 0 (slice 0 2 message) == type)
    then none
    else if not (msg_len == length message - header_len) || not (msg_len % 4 == 0)
    then none
    else if not (big_endian 0 (slice 4 8 message) == magic_cookie)
    then none
    else some (slice 8 20 message)

abbrev pub binding_transaction_id : Bytes → Option Bytes
binding_transaction_id message = transaction_id_of binding_request message

abbrev pub response_transaction_id : Bytes → Option Bytes
response_transaction_id message = transaction_id_of binding_response message

abbrev pub response_with : Bytes → Bytes → Bytes
response_with transaction_id value =
    put_uint16 binding_response
    ++ put_uint16 ((4 + length value) % 2 ^ 16)
    ++ put_uint32 magic_cookie
    ++ transaction_id
    ++ put_uint16 xor_mapped_address
    ++ put_uint16 (length value % 2 ^ 16)
    ++ value

respond : Bytes → Addr → Option Bytes
respond transaction_id other = none
respond transaction_id (udp none) = none
respond transaction_id (udp (some addr)) = elim (xor_mapped_address_value addr transaction_id) [
  | none ↦ none
  | some value ↦ some (response_with transaction_id value)
]

unfoldable pub build_binding_response : Bytes → Addr → Option Bytes
unfolding respond
build_binding_response request from = elim (binding_transaction_id request) [
  | none ↦ none
  | some transaction_id ↦ respond transaction_id from
]

-- The loop over the attributes. An attribute takes at least four bytes, so the length of the
-- attributes is enough fuel.
unfoldable pub find_address : ℕ → Bytes → Bytes → Option UdpAddr
find_address zero attrs transaction_id = none
find_address (suc fuel) attrs transaction_id =
    let attr_type = big_endian 0 (slice 0 2 attrs) in
    let attr_len = big_endian 0 (slice 2 4 attrs) in
    let value_end = 4 + attr_len in
    let padded = value_end + padding attr_len in
    let rest = find_address fuel (drop padded attrs) transaction_id in
    if ltb (length attrs) 4
    then none
    else if ltb (length attrs) value_end
    then none
    else if attr_type == xor_mapped_address
    then parse_xor_mapped_address_value (slice 4 value_end attrs) transaction_id
    else if ltb (length attrs) padded
    then none
    else rest

abbrev no_transaction_id : Bytes
no_transaction_id = 0 ∷ 0 ∷ 0 ∷ 0 ∷ 0 ∷ 0 ∷ 0 ∷ 0 ∷ 0 ∷ 0 ∷ 0 ∷ 0 ∷ []

unfoldable pub parse_binding_success : Bytes → Option UdpAddr × Bytes
parse_binding_success message = elim (response_transaction_id message) [
  | none ↦ (none, no_transaction_id)
  | some transaction_id ↦
      let attrs = drop header_len message in
      (find_address (length attrs) attrs transaction_id, transaction_id)
]

abbrev pub parse_xor_mapped_address : Bytes → Option UdpAddr
parse_xor_mapped_address message = (parse_binding_success message).0
