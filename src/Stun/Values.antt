-- ===== src/Stun/Values.antt =====
-- The value of the address attribute: what is written is read back.
use Prim.Native.Nat.{bit_xor}
use agent_tunnel.Base.{
  ℕ, suc, ◌-◌, ◌*◌, ◌/◌, ◌%◌, ◌^◌, ◌≤◌, ◌<◌, ◌≡◌, refl, ap, ◌∙◌, Option, none, some, [], ◌∷◌,
  nat_eq, length, drop, length-take, length-drop, arith, Option-cases, inl, inr,
}
use agent_tunnel.Base.Bytes.{Bytes, put_uint16, big_endian}
use agent_tunnel.Base.Xor.{xor_twice, xor_lt}
use agent_tunnel.Stun.{
  UdpAddr, to4, to16, xor_cookie, xor_bytes, xor_key, address_value, port_mask,
  xor_mapped_address_value, parse_xor_mapped_address_value, magic_cookie,
}

xor_cookie-length : (i : ℕ) (ip : Bytes) → length (xor_cookie i ip) ≡ length ip
unfolding xor_cookie
xor_cookie-length i [] = refl
xor_cookie-length i (b ∷ ip) = ap suc (xor_cookie-length (suc i) ip)

xor_cookie_twice : (i : ℕ) (ip : Bytes) → xor_cookie i (xor_cookie i ip) ≡ ip
unfolding xor_cookie
xor_cookie_twice i [] = refl
xor_cookie_twice i (b ∷ ip) =
    cc (xor_twice b (magic_cookie / 2 ^ (24 - 8 * i) % 256), xor_cookie_twice (suc i) ip)

xor_bytes-length : (ip key : Bytes) → length ip ≤ length key → length (xor_bytes ip key) ≡ length ip
unfolding xor_bytes
xor_bytes-length [] key h = refl
xor_bytes-length (b ∷ ip) [] h = absurd (omega arith)
xor_bytes-length (b ∷ ip) (k ∷ key) h = ap suc (xor_bytes-length ip key (omega arith))

xor_bytes_twice : (ip key : Bytes) → length ip ≤ length key → xor_bytes (xor_bytes ip key) key ≡ ip
unfolding xor_bytes
xor_bytes_twice [] key h = refl
xor_bytes_twice (b ∷ ip) [] h = absurd (omega arith)
xor_bytes_twice (b ∷ ip) (k ∷ key) h = cc (xor_twice b k, xor_bytes_twice ip key (omega arith))

pub read-put_uint16 : (v : ℕ) → v < 2 ^ 16 → big_endian 0 (put_uint16 v) ≡ v
read-put_uint16 v h = omega arith

port-twice :
    (port : ℕ)
    → port < 2 ^ 16
    → bit_xor (big_endian 0 (put_uint16 (bit_xor (port % 2 ^ 16) port_mask))) port_mask ≡ port
port-twice port h =
    let low : port % 2 ^ 16 ≡ port = omega arith in
    let fits = xor_lt 16 (port % 2 ^ 16) port_mask (omega arith) (omega arith) in
    ap (λ v. bit_xor v port_mask) (read-put_uint16 (bit_xor (port % 2 ^ 16) port_mask) fits)
    ∙ xor_twice (port % 2 ^ 16) port_mask
    ∙ low

parse-value4 :
    (port : ℕ) (ip tid : Bytes)
    → port < 2 ^ 16
    → length ip ≡ 4
    → parse_xor_mapped_address_value (address_value 0x01 port (xor_cookie 0 ip)) tid
      ≡ some (record { ip = ip; port = port })
unfolding parse_xor_mapped_address_value
parse-value4 port ip tid h l =
    ground (arith, l, xor_cookie-length 0 ip, xor_cookie_twice 0 ip, port-twice port h)

parse-value6 :
    (port : ℕ) (ip tid : Bytes)
    → port < 2 ^ 16
    → length ip ≡ 16
    → length tid ≡ 12
    → parse_xor_mapped_address_value (address_value 0x02 port (xor_bytes ip (xor_key tid))) tid
      ≡ some (record { ip = ip; port = port })
unfolding parse_xor_mapped_address_value
parse-value6 port ip tid h l t =
    let fits : length ip ≤ length (xor_key tid) = omega arith in
    ground (
      arith,
      l,
      xor_bytes-length ip (xor_key tid) fits,
      xor_bytes_twice ip (xor_key tid) fits,
      port-twice port h,
    )

-- The address as it is sent: in four bytes where it is an IPv4 address, else in sixteen.
abbrev pub sent_ip : Bytes → Option Bytes
sent_ip ip = elim (to4 ip) [ some ip4 ↦ some ip4 | none ↦ to16 ip ]

-- What is known of the value that is sent for an address.
pub record IsSent (addr : UdpAddr) (ip tid value : Bytes) : Type 0 where
  pub built : xor_mapped_address_value addr tid ≡ some value
  pub short : length value ≤ 20
  pub aligned : length value % 4 ≡ 0
  pub understood :
      parse_xor_mapped_address_value value tid ≡ some (record { ip = ip; port = addr.port })

to4-length : (ip v : Bytes) → to4 ip ≡ some v → length v ≡ 4
unfolding to4
to4-length ip v h = ground (arith, h, length-take 4 (drop 12 ip), length-drop 12 ip)

to16-length : (ip v : Bytes) → to16 ip ≡ some v → length v ≡ 16
unfolding to16
to16-length ip v h = ground (arith, h)

module _ (addr : UdpAddr) (ip tid : Bytes) (fits : addr.port < 2 ^ 16) (t : length tid ≡ 12) where
  value4-IsSent :
      to4 addr.ip ≡ some ip → IsSent addr ip tid (address_value 0x01 addr.port (xor_cookie 0 ip))
  unfolding xor_mapped_address_value
  value4-IsSent h =
      let four = to4-length addr.ip ip h in
      let size = xor_cookie-length 0 ip in
      record {
        built = ground (arith, h);
        short = omega (arith, four, size);
        aligned = omega (arith, four, size);
        understood = parse-value4 addr.port ip tid fits four;
      }

  value6-IsSent :
      to4 addr.ip ≡ none
      → to16 addr.ip ≡ some ip
      → IsSent addr ip tid (address_value 0x02 addr.port (xor_bytes ip (xor_key tid)))
  unfolding xor_mapped_address_value
  value6-IsSent h g =
      let sixteen = to16-length addr.ip ip g in
      let size = xor_bytes-length ip (xor_key tid) (omega (arith, sixteen, t)) in
      record {
        built = ground (arith, h, g);
        short = omega (arith, sixteen, size);
        aligned = omega (arith, sixteen, size);
        understood = parse-value6 addr.port ip tid fits sixteen t;
      }

  pub value-IsSent : sent_ip addr.ip ≡ some ip → (value : Bytes) × IsSent addr ip tid value
  value-IsSent h = elim (Option-cases (to4 addr.ip)) [
    | inl e ↦ (_, value6-IsSent e (ground (arith, h, e)))
    | inr (v, e) ↦ let same : v ≡ ip = ground (arith, h, e) in (_, value4-IsSent (e ∙ ap some same))
  ]
