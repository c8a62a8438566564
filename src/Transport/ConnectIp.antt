-- ===== src/Transport/ConnectIp.antt =====
-- CONNECT-IP datagrams and QUIC variable-length integers, crates/nil-transport/src/connectip.rs.
pub mod Varint
pub mod Roundtrip
use nil.Prelude.{
  ℕ, zero, suc, ◌+◌, ◌-◌, ◌*◌, ◌/◌, ◌%◌, ◌^◌, Bool, true, false, Option, none, some, List, [], ◌∷◌,
  ◌++◌, Bytes, length, take, drop, replicate, ltb, leb, ◌==◌, Result, ok, err, ◌>>=◌, ◌>>◌, guard,
  ok_or, if◌then◌else◌,
}
use nil.Prelude.Words.{to_be_bytes}

abbrev pub context_id_ip_packet : ℕ
context_id_ip_packet = 0

abbrev pub context_id_padding : ℕ
context_id_padding = 1

abbrev pub max_varint : ℕ
max_varint = 2 ^ 62 - 1

-- `DatagramPayload`
pub data DatagramPayload : Type 0 where
  ip : Bytes → DatagramPayload
  padding : DatagramPayload

-- `Error::InvalidPacket`, at its four uses
pub data Error : Type 0 where
  truncated_flow_id truncated_context_id buffer_too_small : Error
  unsupported_context_id : ℕ → Error

-- `varint_len`
unfoldable pub varint_len : ℕ → ℕ
varint_len v =
    if leb v 0x3f then 1 else if leb v 0x3fff then 2 else if leb v 0x3fffffff then 4 else 8

-- `encode_varint`, with the bytes that `write_varint` gives it. The length tag is or-ed into the two
-- top bits: a shorter number has them clear, and in eight bytes the or sets both.
unfoldable pub encode_varint : ℕ → Bytes
encode_varint v =
    if leb v 0x3f
    then v ∷ []
    else if leb v 0x3fff
    then to_be_bytes 2 (v + 0x4000)
    else if leb v 0x3fffffff
    then to_be_bytes 4 (v + 0x80000000)
    else to_be_bytes 8 (v % 2 ^ 62 + 3 * 2 ^ 62)

-- The loop of `decode_varint`: `(val << 8) | b`.
abbrev pub accumulate : ℕ → Bytes → ℕ
accumulate val [] = val
accumulate val (b ∷ bs) = accumulate (val * 256 + b) bs

-- `decode_varint`
unfoldable pub decode_varint : Bytes → Option (ℕ × Bytes)
decode_varint [] = none
decode_varint (first ∷ buf) =
    let len = 2 ^ (first / 64) in
    if ltb (suc (length buf)) len
    then none
    else some (accumulate (first % 64) (take (len - 1) buf), drop (len - 1) buf)

-- `encode`
unfoldable pub encode : Bytes → Bytes
encode packet = encode_varint context_id_ip_packet ++ packet

-- `encode_into`: the written buffer and the number of bytes
unfoldable pub encode_into : Bytes → Bytes → Result (Bytes × ℕ) Error
encode_into packet dst =
    let needed = varint_len context_id_ip_packet + length packet in
    if ltb (length dst) needed
    then err buffer_too_small
    else ok (encode_varint context_id_ip_packet ++ (packet ++ drop needed dst), needed)

abbrev decode_context : ℕ × Bytes → Result Bytes Error
decode_context (ctx, rest) =
    if ctx == context_id_ip_packet then ok rest else err (unsupported_context_id ctx)

-- `decode`
unfoldable pub decode : Bytes → Result Bytes Error
decode payload = do
  framed ← ok_or (decode_varint payload) truncated_context_id
  decode_context framed

-- `encode_datagram`
unfoldable pub encode_datagram : ℕ → Bytes → Bytes
encode_datagram flow_id packet =
    encode_varint flow_id ++ (encode_varint context_id_ip_packet ++ packet)

-- `encode_padding_datagram`
unfoldable pub encode_padding_datagram : ℕ → ℕ → Bytes
encode_padding_datagram flow_id pad_len =
    encode_varint flow_id ++ (encode_varint context_id_padding ++ replicate pad_len 0)

abbrev decode_payload : ℕ → ℕ × Bytes → Result (ℕ × DatagramPayload) Error
decode_payload flow_id (ctx, payload) =
    if ctx == context_id_ip_packet
    then ok (flow_id, ip payload)
    else if ctx == context_id_padding
    then ok (flow_id, padding)
    else err (unsupported_context_id ctx)

-- `decode_datagram`
unfoldable pub decode_datagram : Bytes → Result (ℕ × DatagramPayload) Error
decode_datagram buf = do
  (flow_id, rest) ← ok_or (decode_varint buf) truncated_flow_id
  framed ← ok_or (decode_varint rest) truncated_context_id
  decode_payload flow_id framed
