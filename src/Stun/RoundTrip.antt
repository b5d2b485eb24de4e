-- ===== src/Stun/RoundTrip.antt =====
-- A binding response that the server builds is understood by the client.
use agent_tunnel.Base.{
  ℕ, zero, suc, ◌+◌, ◌/◌, ◌%◌, ◌^◌, ◌≤◌, ◌<◌, ◌≡◌, refl, ap, ◌∙◌, some, ◌∷◌, ◌++◌, nat_eq, length,
  drop, take_all, take-append_length, drop-append_length, length-append, length-drop, append_assoc,
  arith,
}
use agent_tunnel.Base.Bytes.{Bytes, put_uint16, put_uint32, big_endian, slice}
use agent_tunnel.Stun.{
  padding, UdpAddr, udp, parse_xor_mapped_address_value, build_binding_request, transaction_id_of,
  binding_request, binding_response, response_with, respond, build_binding_response, find_address,
  parse_binding_success, magic_cookie, xor_mapped_address,
}
use agent_tunnel.Stun.Values.{IsSent, sent_ip, value-IsSent, read-put_uint16}

request-transaction_id :
    (tid : Bytes)
    → length tid ≡ 12
    → transaction_id_of binding_request (build_binding_request tid) ≡ some tid
unfolding transaction_id_of build_binding_request
request-transaction_id tid t = ground (arith, t, take_all 12 tid t)

-- The header of a message, its transaction id and its attributes.
abbrev message : ℕ → Bytes → Bytes → Bytes
message len tid attrs = 1 ∷ 1 ∷ len / 2 ^ 8 % 256 ∷ len % 256 ∷ 33 ∷ 18 ∷ 164 ∷ 66 ∷ tid ++ attrs

message-transaction_id :
    (len : ℕ) (tid attrs : Bytes)
    → length tid ≡ 12
    → length attrs ≡ len
    → len < 2 ^ 16
    → len % 4 ≡ 0
    → transaction_id_of binding_response (message len tid attrs) ≡ some tid
unfolding transaction_id_of
message-transaction_id len tid attrs t l fits aligned = ground (
  arith,
  t,
  l,
  aligned,
  take-append_length 12 tid attrs t,
  length-append tid attrs,
  read-put_uint16 len fits,
)

-- An address attribute with its value.
abbrev attribute : Bytes → Bytes
attribute value = 0 ∷ 32 ∷ length value / 2 ^ 8 % 256 ∷ length value % 256 ∷ value

find-attribute :
    (fuel : ℕ) (value tid : Bytes)
    → length value < 2 ^ 16
    → find_address (suc fuel) (attribute value) tid ≡ parse_xor_mapped_address_value value tid
unfolding find_address
find-attribute fuel value tid fits =
    ground (arith, read-put_uint16 (length value) fits, take_all (length value) value refl)

response-shape :
    (tid value : Bytes)
    → length value ≤ 20
    → response_with tid value ≡ message (4 + length value) tid (attribute value)
response-shape tid value short =
    let kind = put_uint16 xor_mapped_address in
    let size = put_uint16 (length value % 2 ^ 16) in
    let whole : (4 + length value) % 2 ^ 16 ≡ 4 + length value = omega arith in
    let part : length value % 2 ^ 16 ≡ length value = omega arith in
    let tail : tid ++ kind ++ size ++ value ≡ tid ++ attribute value =
      append_assoc (tid ++ kind) size value
      ∙ append_assoc tid kind (size ++ value)
      ∙ ap (λ n. tid ++ (kind ++ (put_uint16 n ++ value))) part in
    ap
      (λ n.
        put_uint16 binding_response
        ++ put_uint16 n
        ++ put_uint32 magic_cookie
        ++ tid
        ++ kind
        ++ size
        ++ value)
      whole
    ∙ ap
        (λ rest.
          put_uint16 binding_response
          ++ put_uint16 (4 + length value)
          ++ put_uint32 magic_cookie
          ++ rest)
        tail

parse-message :
    (tid value : Bytes)
    → length tid ≡ 12
    → length value ≤ 20
    → length value % 4 ≡ 0
    → parse_binding_success (message (4 + length value) tid (attribute value))
      ≡ (parse_xor_mapped_address_value value tid, tid)
unfolding parse_binding_success
parse-message tid value t short aligned =
    let attrs = attribute value in
    let whole = message (4 + length value) tid attrs in
    let rest : drop 20 whole ≡ attrs = drop-append_length 12 tid attrs t in
    let fits : length value < 2 ^ 16 = omega arith in
    let id =
      message-transaction_id (4 + length value) tid attrs t (omega arith) (omega arith)
        (omega (arith, aligned)) in
    let found : find_address (length (drop 20 whole)) (drop 20 whole) tid
        ≡ parse_xor_mapped_address_value value tid =
      ap (λ b. find_address (length b) b tid) rest ∙ find-attribute _ value tid fits in
    ground (arith, id, found)

module _ (addr : UdpAddr) (ip tid : Bytes) (fits : addr.port < 2 ^ 16) (t : length tid ≡ 12) where
  answered :
      (value : Bytes)
      → IsSent addr ip tid value
      → build_binding_response (build_binding_request tid) (udp (some addr))
        ≡ some (message (4 + length value) tid (attribute value))
  unfolding build_binding_response respond
  answered value s =
      ground
        (arith, request-transaction_id tid t, s.built, ap some (response-shape tid value s.short))

  -- The answer to a binding request is understood: the client reads from it the transaction id of
  -- its request, the address from which the request came, in the form in which it is sent, and the
  -- port, which must fit 16 bits.
  pub parse-build :
      sent_ip addr.ip ≡ some ip
      → (response : Bytes) × (build_binding_response (build_binding_request tid) (udp (some addr))
          ≡ some response)
        × (parse_binding_success response ≡ (some (record { ip = ip; port = addr.port }), tid))
  parse-build h =
      let (value, s) = value-IsSent addr ip tid fits t h in
      (
        message (4 + length value) tid (attribute value),
        answered value s,
        parse-message tid value t s.short s.aligned ∙ ap (λ a. (a, tid)) s.understood,
      )

-- More fuel than the length of the attributes changes nothing.
pub find_address-fuel :
    (f g : ℕ) (attrs tid : Bytes)
    → length attrs ≤ f
    → length attrs ≤ g
    → find_address f attrs tid ≡ find_address g attrs tid
unfolding find_address
find_address-fuel zero zero attrs tid h k = refl
find_address-fuel zero (suc g) attrs tid h k = ground (arith, h)
find_address-fuel (suc f) zero attrs tid h k = ground (arith, k)
find_address-fuel (suc f) (suc g) attrs tid h k =
    let len = big_endian 0 (slice 2 4 attrs) in
    let padded = 4 + len + padding len in
    ground (arith, h, k, length-drop padded attrs, find_address-fuel f g (drop padded attrs) tid)
