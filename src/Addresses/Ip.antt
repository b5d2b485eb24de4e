-- ===== src/Addresses/Ip.antt =====
-- net.IP: the tests IsPrivate, IsLinkLocalUnicast and IsLoopback, String, and net.JoinHostPort.
use Prim.Native.Nat.{bit_and}
use agent_tunnel.Base.{
  ℕ, zero, suc, ◌+◌, ◌-◌, ◌*◌, ◌/◌, ◌%◌, Bool, not, ◌&&◌, ◌||◌, none, some, List, [], ◌∷◌, ◌++◌,
  ltb, leb, ◌==◌, nat_eq, if◌then◌else◌, length, any,
}
use agent_tunnel.Base.Text.{Text, text_eq, codes}
use agent_tunnel.Base.Bytes.{Bytes}
use agent_tunnel.Base.Hex.{hex_digit, hex_encode}
use agent_tunnel.Base.Decimal.{decimal}
use agent_tunnel.Stun.{to4}

abbrev pub byte_at : ℕ → Bytes → ℕ
byte_at n [] = 0
byte_at zero (b ∷ bs) = b
byte_at (suc n) (b ∷ bs) = byte_at n bs

unfoldable pub is_private : Bytes → Bool
is_private ip = elim (to4 ip) [
  | none ↦ length ip == 16 && bit_and (byte_at 0 ip) 0xfe == 0xfc
  | some q ↦
      byte_at 0 q == 10
      || (byte_at 0 q == 172 && bit_and (byte_at 1 q) 0xf0 == 16)
      || (byte_at 0 q == 192 && byte_at 1 q == 168)
]

unfoldable pub is_link_local_unicast : Bytes → Bool
is_link_local_unicast ip = elim (to4 ip) [
  | none ↦ length ip == 16 && byte_at 0 ip == 0xfe && bit_and (byte_at 1 ip) 0xc0 == 0x80
  | some q ↦ byte_at 0 q == 169 && byte_at 1 q == 254
]

abbrev pub ipv6_loopback : Bytes
ipv6_loopback = 0 ∷ 0 ∷ 0 ∷ 0 ∷ 0 ∷ 0 ∷ 0 ∷ 0 ∷ 0 ∷ 0 ∷ 0 ∷ 0 ∷ 0 ∷ 0 ∷ 0 ∷ 1 ∷ []

unfoldable pub is_loopback : Bytes → Bool
is_loopback ip = elim (to4 ip) [ none ↦ ip == ipv6_loopback | some q ↦ byte_at 0 q == 127 ]

-- Hexadecimal without zeros in front.
abbrev pub hex_word : ℕ → Text
hex_word n =
    if ltb n 0x10
    then hex_digit n ∷ []
    else if ltb n 0x100
    then hex_digit (n / 0x10) ∷ hex_digit (n % 0x10) ∷ []
    else if ltb n 0x1000
    then hex_digit (n / 0x100) ∷ hex_digit (n / 0x10 % 0x10) ∷ hex_digit (n % 0x10) ∷ []
    else hex_digit (n / 0x1000)
      ∷ hex_digit (n / 0x100 % 0x10)
      ∷ hex_digit (n / 0x10 % 0x10)
      ∷ hex_digit (n % 0x10)
      ∷ []

abbrev pub words : Bytes → List ℕ
words [] = []
words (b ∷ []) = []
words (b ∷ c ∷ bs) = (b * 0x100 + c) ∷ words bs

abbrev pub leading_zeros : List ℕ → ℕ
leading_zeros [] = 0
leading_zeros (w ∷ ws) = let rest = leading_zeros ws in if w == 0 then suc rest else 0

-- The first of the longest runs of at least two zeros, as its start and its end.
unfoldable pub longest_zeros : ℕ → ℕ × ℕ → List ℕ → ℕ × ℕ
longest_zeros i best [] = best
longest_zeros i best (w ∷ ws) =
    let l = leading_zeros (w ∷ ws) in
    longest_zeros (suc i) (if leb 2 l && ltb (best.1 - best.0) l then (i, i + l) else best) ws

unfoldable pub print_words : ℕ → ℕ × ℕ → List ℕ → Text
print_words i run [] = []
print_words i run (w ∷ ws) =
    let rest = print_words (suc i) run ws in
    if i == run.0
    then codes "::" ++ rest
    else if ltb run.0 i && ltb i run.1
    then rest
    else if i == 0 || i == run.1
    then hex_word w ++ rest
    else codes ":" ++ hex_word w ++ rest

abbrev pub print_v4 : Bytes → Text
print_v4 [] = []
print_v4 (b ∷ []) = decimal b
print_v4 (b ∷ c ∷ bs) = decimal b ++ codes "." ++ print_v4 (c ∷ bs)

-- A run of zeros that is not there starts and ends at 255.
unfoldable pub ip_string : Bytes → Text
ip_string [] = codes "<nil>"
ip_string (b ∷ bs) = elim (to4 (b ∷ bs)) [
  | some q ↦ print_v4 q
  | none ↦
      if not (length (b ∷ bs) == 16)
      then codes "?" ++ hex_encode (b ∷ bs)
      else print_words 0 (longest_zeros 0 (255, 255) (words (b ∷ bs))) (words (b ∷ bs))
]

-- A host with a colon is written in brackets.
abbrev pub join_host_port : Text → Text → Text
join_host_port host port =
    if any (λ c. c == b':') host
    then codes "[" ++ host ++ codes "]:" ++ port
    else host ++ codes ":" ++ port
