-- ===== src/Transport/ConnectIp/Roundtrip.antt =====
-- Datagrams round trip, and padding never reaches the tunnel as a packet
-- (crates/nil-transport/src/connectip.rs).
use nil.Prelude.{ℕ, ◌≤◌, ◌≡◌, ◌++◌, Bytes, length, drop, replicate, arith, ok, err}
use nil.Transport.ConnectIp.{
  encode_varint, max_varint, encode_datagram, encode_padding_datagram, decode_datagram, decode,
  encode_into, encode, ip, padding, unsupported_context_id, context_id_padding,
  context_id_ip_packet, varint_len,
}
use nil.Transport.ConnectIp.Varint.{decode_varint-encode_varint}

module _ (flow_id : ℕ) (fits : flow_id ≤ max_varint) where
  -- A datagram that frames any packet for a flow below 2 ^ 62, which is what a variable-length
  -- integer holds, decodes to that flow and that packet.
  pub decode_datagram-encode_datagram :
      (packet : Bytes) → decode_datagram (encode_datagram flow_id packet) ≡ ok (flow_id, ip packet)
  unfolding decode_datagram encode_datagram
  decode_datagram-encode_datagram packet = ground (
    arith,
    decode_varint-encode_varint flow_id (encode_varint context_id_ip_packet ++ packet) fits,
    decode_varint-encode_varint context_id_ip_packet packet (omega arith),
  )

  decode_datagram-framed :
      (ctx : ℕ) (rest : Bytes)
      → ctx ≤ max_varint
      → 2 ≤ ctx
      → decode_datagram (encode_varint flow_id ++ (encode_varint ctx ++ rest))
        ≡ err (unsupported_context_id ctx)
  unfolding decode_datagram
  decode_datagram-framed ctx rest small other = ground (
    arith,
    decode_varint-encode_varint flow_id (encode_varint ctx ++ rest) fits,
    decode_varint-encode_varint ctx rest small,
  )

  -- A padding datagram of any size decodes to padding, never to a packet; and a datagram of any
  -- other context than 0 and 1 is refused with that context.
  pub decode_datagram-padding :
      (pad_len ctx : ℕ) (rest : Bytes)
      → ctx ≤ max_varint
      → 2 ≤ ctx
      → (decode_datagram (encode_padding_datagram flow_id pad_len) ≡ ok (flow_id, padding))
        × (decode_datagram (encode_varint flow_id ++ (encode_varint ctx ++ rest))
            ≡ err (unsupported_context_id ctx))
  unfolding decode_datagram encode_padding_datagram
  decode_datagram-padding pad_len ctx rest small other =
      let zeros : Bytes = replicate pad_len 0 in
      (
        ground (
          arith,
          decode_varint-encode_varint flow_id (encode_varint context_id_padding ++ zeros) fits,
          decode_varint-encode_varint context_id_padding zeros (omega arith),
        ),
        decode_datagram-framed ctx rest small other,
      )

-- A packet that `encode_into` wrote into a buffer is what `decode` reads from the bytes that it
-- reports as written, and the rest of the buffer is left as it was.
pub decode-encode_into :
    (packet dst buf : Bytes) (n : ℕ)
    → encode_into packet dst ≡ ok (buf, n)
    → (buf ≡ encode packet ++ drop n dst)
      × (n ≡ length (encode packet))
      × (decode (encode packet) ≡ ok packet)
unfolding encode_into encode decode encode_varint varint_len
decode-encode_into packet dst buf n h =
    let read = decode_varint-encode_varint 0 packet (omega arith) in
    (ground arith, ground arith, unfold encode_varint in ground (arith, read))
