-- ===== src/Frame.antt =====
-- internal/connectivity/frame/frame.go: the binary frames of the daemon transport. A byte slice is a
-- list of numbers below 256. `io.Reader` is a source of bytes that ends in EOF or in an error of its
-- own; `io.Writer` is a function on the writer's state.
pub mod Varint
pub mod Prefix
pub mod RoundTrip
pub mod Reader
mod Tests
use Prim.Native.Nat.{bit_and, bit_or}
pub use agent_tunnel.Base.Bytes.{Bytes, IsByte, put_uint16, put_uint32, put_uint64, big_endian}
use agent_tunnel.Base.{
  ℕ, ◌+◌, ◌-◌, ◌*◌, ◌/◌, ◌%◌, ◌^◌, ◌<◌, List, [], ◌∷◌, ◌++◌, Option, none, some, ltb, leb, ◌==◌,
  nat_eq, if◌then◌else◌, length, take, drop,
}

-- `unexpected_eof` and `eof` are Go's io.ErrUnexpectedEOF and io.EOF; `failed` is an error of the
-- reader or the writer.
pub data Error : Type 0 where
  truncated_varint payload_too_large invalid_varint unexpected_eof eof : Error
  failed : ℕ → Error

pub data Result {ℓ} (A : Type ℓ) : Type ℓ where
  ok : A → Result A
  err : Error → Result A

infixl 5 ◌>>=◌
abbrev pub ◌>>=◌ {ℓ κ} : {A : Type ℓ} {B : Type κ} → Result A → (A → Result B) → Result B
ok a >>= f = f a
err e >>= f = err e

pub record Frame : Type 0 where
  pub kind : ℕ
  pub payload : Bytes

abbrev pub default_max_payload : ℕ
default_max_payload = 1048576

-- The last branch is Go's `default`: no varint holds such a value.
unfoldable pub encode_varint : ℕ → Result Bytes
encode_varint value =
    if leb value 63
    then ok (value % 256 ∷ [])
    else if leb value 16_383
    then ok (put_uint16 (bit_or (value % 2 ^ 16) 0x4000))
    else if leb value 1_073_741_823
    then ok (put_uint32 (bit_or (value % 2 ^ 32) 0x8000_0000))
    else if leb value 4_611_686_018_427_387_903
    then ok (put_uint64 (bit_or value 0xc000_0000_0000_0000))
    else err invalid_varint

-- `1 << (first >> 6)`
unfoldable pub varint_encoded_len : ℕ → ℕ
varint_encoded_len first = 2 ^ (first / 64)

decode_width : ℕ → Bytes → Result (ℕ × ℕ)
decode_width n raw =
    if n == 1
    then ok (bit_and (big_endian 0 (take 1 raw)) 0x3f, 1)
    else if n == 2
    then ok (bit_and (big_endian 0 (take 2 raw)) 0x3fff, 2)
    else if n == 4
    then ok (bit_and (big_endian 0 (take 4 raw)) 0x3fff_ffff, 4)
    else if n == 8
    then ok (bit_and (big_endian 0 (take 8 raw)) 0x3fff_ffff_ffff_ffff, 8)
    else err invalid_varint

-- The value and how many bytes it takes.
unfoldable pub decode_varint : Bytes → Result (ℕ × ℕ)
unfolding decode_width
decode_varint [] = err truncated_varint
decode_varint (first ∷ rest) =
    let n = varint_encoded_len first in
    if ltb (length (first ∷ rest)) n then err truncated_varint else decode_width n (first ∷ rest)

unfoldable pub encode : Frame → Result Bytes
encode f = do prefix ← encode_varint (length f.payload); ok (f.kind ∷ prefix ++ f.payload)

decode_payload : ℕ → Bytes → ℕ → ℕ → ℕ → Result (Frame × ℕ)
decode_payload kind raw max_payload payload_len varint_len =
    let total = 1 + varint_len + payload_len in
    let payload = take payload_len (drop (1 + varint_len) raw) in
    if ltb max_payload payload_len
    then err payload_too_large
    else if ltb (length raw) total
    then err unexpected_eof
    else ok (record { kind = kind; payload = payload }, total)

-- What `Decode` does behind the type byte `kind`, where `raw` are all bytes.
decode_body : ℕ → Bytes → Bytes → ℕ → Result (Frame × ℕ)
unfolding decode_payload
decode_body kind rest raw max_payload = do
  (payload_len, varint_len) ← decode_varint rest
  decode_payload kind raw max_payload payload_len varint_len

-- The frame at the front of `raw` and how many bytes it takes. `max_payload` is not negative.
unfoldable pub decode : Bytes → ℕ → Result (Frame × ℕ)
unfolding decode_body
decode [] max_payload = err truncated_varint
decode (kind ∷ []) max_payload = err truncated_varint
decode (kind ∷ first ∷ rest) max_payload =
    decode_body kind (first ∷ rest) (kind ∷ first ∷ rest) max_payload

-- The bytes that a reader has yet to give, and the error behind them (none: EOF).
pub record Source : Type 0 where
  pub pending : Bytes
  pub failure : Option ℕ

abbrev pub short_read : Bytes → Option ℕ → Error
short_read pending (some e) = failed e
short_read [] none = eof
short_read (b ∷ bs) none = unexpected_eof

-- io.ReadFull(r, buffer) with a buffer of `n` bytes.
unfoldable pub read_full : ℕ → Source → Result (Bytes × Source)
read_full n s =
    if leb n (length s.pending)
    then ok (take n s.pending, record s { pending = drop n s.pending })
    else err (short_read s.pending s.failure)

-- The two mappings of EOF in `Read`.
abbrev pub on_eof {ℓ} : {A : Type ℓ} → Error → Result A → Result A
on_eof e (ok a) = ok a
on_eof e (err eof) = err e
on_eof e (err unexpected_eof) = err e
on_eof e (err other) = err other

read_payload : ℕ → ℕ → Source → Result (Frame × Source)
read_payload kind n s = do
  (payload, s') ← on_eof unexpected_eof (read_full n s)
  ok (record { kind = kind; payload = payload }, s')

read_length : ℕ → Bytes → Source → ℕ → Result (Frame × Source)
unfolding read_payload
read_length kind varint s max_payload = do
  (payload_len, n) ← decode_varint varint
  if ltb max_payload payload_len then err payload_too_large else read_payload kind payload_len s

-- `first` is header[1]; the header holds the rest of the varint behind it.
read_varint : ℕ → ℕ → Source → ℕ → Result (Frame × Source)
unfolding read_length
read_varint kind first s max_payload =
    let n = varint_encoded_len first in
    if ltb 1 n
    then (do
      (more, s') ← on_eof truncated_varint (read_full (n - 1) s)
      read_length kind (first ∷ more) s' max_payload)
    else read_length kind (first ∷ []) s max_payload

read_header : Bytes → Source → ℕ → Result (Frame × Source)
unfolding read_varint
read_header (kind ∷ first ∷ []) s max_payload = read_varint kind first s max_payload
read_header other s max_payload = err truncated_varint

unfoldable pub read : Source → ℕ → Result (Frame × Source)
unfolding read_header
read s max_payload = do
  (header, s') ← on_eof truncated_varint (read_full 2 s)
  read_header header s' max_payload

-- `Write` on a writer with state `W`, whose `Write` may fail.
unfoldable pub write {ℓ} : {W : Type ℓ} → (W → Bytes → Result W) → W → Frame → Result W
write put w f = do raw ← encode f; put w raw
