-- ===== src/Core/Checksum/Ipv6.antt =====
-- `fix_ipv6_checksums`: a packet whose checksum a receiver accepts.
use nil.Prelude.{
  ℕ, ◌+◌, ◌-◌, ◌/◌, ◌%◌, ◌^◌, ◌≤◌, ◌<◌, ◌≡◌, ◌⊎◌, inl, inr, refl, ap, Bool, true, false, ◌||◌, not,
  min, Bytes, length, ltb, leb, ◌==◌, if◌then◌else◌, Bool-cases, arith, ◌++◌,
}
use nil.Core.Checksum.{
  byte, word, slice, ones_complement, write_checksum, pseudo_ipv6, fix_ipv6_checksums,
}
use nil.Core.Checksum.Sums.{is_bytes}
use nil.Core.Checksum.Receiver.{
  SumsToOnes, pseudo_header_ipv6, pseudo_ipv6-words, length-pseudo_header_ipv6,
  ones_complement-SumsToOnes,
}
use nil.Core.Checksum.Writes.{length-slice, all-slice}
use nil.Core.Checksum.Correct.{ones_complement-write_checksum}
use nil.Core.Checksum.Fields.{
  is_bytes-write_checksum, length-write_checksum, byte-write_checksum, slice-write_checksum_after,
  byte-bound, word-bound, sum_words-slice,
}

-- Where the packet ends by its own length and by the bytes that came
abbrev pub packet_end : Bytes → ℕ
packet_end pkt = min (40 + word pkt 4) (length pkt)

abbrev pub checksum_offset : ℕ → ℕ
checksum_offset next_header = if next_header == 6 then 16 else if next_header == 17 then 6 else 2

-- TCP, UDP and ICMPv6
abbrev pub has_checksum : ℕ → Bool
has_checksum next_header = next_header == 6 || next_header == 17 || next_header == 58

checksum_offset_even : (next_header : ℕ) → checksum_offset next_header % 2 ≡ 0
checksum_offset_even next_header = ground arith

pseudo_ipv6-bound :
    (pkt : Bytes) (next_header l4_len : ℕ)
    → is_bytes pkt ≡ true
    → next_header < 256
    → l4_len ≤ 65535
    → pseudo_ipv6 pkt next_header l4_len < 2 ^ 24
unfolding pseudo_ipv6
pseudo_ipv6-bound pkt next_header l4_len h p l =
    omega (arith, sum_words-slice pkt 8 40 h (omega arith))

-- Either nothing is written, or the packet holds a checksum.
pub fix_ipv6_checksums-cases :
    (pkt : Bytes)
    → (fix_ipv6_checksums pkt ≡ pkt)
      ⊎ ((byte pkt 0 / 16 ≡ 6)
          × (has_checksum (byte pkt 6) ≡ true)
          × (40 + checksum_offset (byte pkt 6) + 2 ≤ packet_end pkt))
unfolding fix_ipv6_checksums
fix_ipv6_checksums-cases pkt =
    let end : ℕ = packet_end pkt in
    elim (Bool-cases (ltb (length pkt) 40 || not (byte pkt 0 / 16 == 6))) [
      | inl e ↦ inl (rw e refl)
      | inr e ↦ elim (Bool-cases (has_checksum (byte pkt 6))) [
        | inr f ↦ inl (rw (e, f) refl)
        | inl f ↦ elim (Bool-cases (leb end 40)) [
          | inl g ↦ inl (rw (e, f, g) refl)
          | inr g ↦ elim (Bool-cases (ltb (end - 40) (checksum_offset (byte pkt 6) + 2))) [
            | inl h ↦ inl (rw (e, f, g, h) refl)
            | inr h ↦ inr (ground arith, f, ground arith)
          ]
        ]
      ]
    ]

module _ (pkt : Bytes) (version : byte pkt 0 / 16 ≡ 6)
    (transport : has_checksum (byte pkt 6) ≡ true)
    (room : 40 + checksum_offset (byte pkt 6) + 2 ≤ packet_end pkt) where
  abbrev offset : ℕ
  offset = checksum_offset (byte pkt 6)

  abbrev sum : Bytes → ℕ
  sum packet = pseudo_ipv6 packet (byte pkt 6) (packet_end pkt - 40)

  pub fix_ipv6_checksums-write_checksum :
      fix_ipv6_checksums pkt
      ≡ write_checksum
          (40 + offset)
          40
          (packet_end pkt)
          (sum pkt)
          (byte pkt 6 == 17 || byte pkt 6 == 58)
          pkt
  unfolding fix_ipv6_checksums
  fix_ipv6_checksums-write_checksum =
      let long : ltb (length pkt) 40 ≡ false = ground arith in
      let six : (byte pkt 0 / 16 == 6) ≡ true = ground arith in
      let beyond : leb (packet_end pkt) 40 ≡ false = ground arith in
      let wide : ltb (packet_end pkt - 40) (offset + 2) ≡ false = ground arith in
      rw (long, six, transport, beyond, wide) refl

  pub sum-kept : sum (fix_ipv6_checksums pkt) ≡ sum pkt
  unfolding pseudo_ipv6
  sum-kept =
      rw
        (
          fix_ipv6_checksums-write_checksum,
          slice-write_checksum_after (40 + offset) 40 (packet_end pkt) (sum pkt)
              (byte pkt 6 == 17 || byte pkt 6 == 58) pkt 8 40 (omega arith) (omega arith),
        )
        refl

  fix_ipv6_checksums-closes :
      is_bytes pkt ≡ true
      → ones_complement
          (slice (fix_ipv6_checksums pkt) 40 (packet_end pkt))
          (pseudo_ipv6 (fix_ipv6_checksums pkt) (byte pkt 6) (packet_end pkt - 40))
        ≡ 0
  fix_ipv6_checksums-closes bytes =
      rw (sum-kept, fix_ipv6_checksums-write_checksum)
        (ones_complement-write_checksum 40 offset (packet_end pkt) (sum pkt)
          (byte pkt 6 == 17 || byte pkt 6 == 58) pkt (checksum_offset_even (byte pkt 6)) room
          (omega arith) (omega (arith, word-bound pkt 4 bytes))
          (pseudo_ipv6-bound pkt (byte pkt 6) (packet_end pkt - 40) bytes (byte-bound pkt 6 bytes)
            (omega (arith, word-bound pkt 4 bytes)))
          bytes)

  fix_ipv6_checksums-kept :
      is_bytes pkt ≡ true
      → (is_bytes (fix_ipv6_checksums pkt) ≡ true)
        × (length (fix_ipv6_checksums pkt) ≡ length pkt)
        × (byte (fix_ipv6_checksums pkt) 6 ≡ byte pkt 6)
  fix_ipv6_checksums-kept bytes = (
    rw fix_ipv6_checksums-write_checksum (
        is_bytes-write_checksum (40 + offset) 40 (packet_end pkt) (sum pkt)
          (byte pkt 6 == 17 || byte pkt 6 == 58) pkt bytes),
    rw fix_ipv6_checksums-write_checksum (
        length-write_checksum (40 + offset) 40 (packet_end pkt) (sum pkt)
          (byte pkt 6 == 17 || byte pkt 6 == 58) pkt),
    rw fix_ipv6_checksums-write_checksum (
        byte-write_checksum (40 + offset) 40 (packet_end pkt) (sum pkt)
          (byte pkt 6 == 17 || byte pkt 6 == 58) pkt 6 (inl (omega arith))),
  )

  -- The TCP segment, UDP datagram or ICMPv6 message right behind the header of an IPv6 packet, behind
  -- the pseudo-header of addresses, length, zeros and next header, sums to ones, when what came of it
  -- holds the checksum. The packet is a string of numbers below 256.
  pub fix_ipv6_checksums-segment :
      is_bytes pkt ≡ true
      → SumsToOnes (
          pseudo_header_ipv6 (fix_ipv6_checksums pkt) (packet_end pkt - 40)
          ++ slice (fix_ipv6_checksums pkt) 40 (packet_end pkt))
  fix_ipv6_checksums-segment bytes =
      let fixed : Bytes = fix_ipv6_checksums pkt in
      let l4_len : ℕ = packet_end pkt - 40 in
      let (fixed_bytes, same_length, same_next) = fix_ipv6_checksums-kept bytes in
      let short : l4_len ≤ 65535 = omega (arith, word-bound pkt 4 bytes) in
      let header = pseudo_ipv6-words fixed l4_len fixed_bytes short (omega (arith, same_length)) in
      let closed = fix_ipv6_checksums-closes bytes in
      let segment_len : length (slice fixed 40 (packet_end pkt)) ≡ l4_len =
        length-slice fixed 40 (packet_end pkt) (omega (arith, same_length)) in
      ones_complement-SumsToOnes (pseudo_header_ipv6 fixed l4_len) (slice fixed 40 (packet_end pkt))
        (length-pseudo_header_ipv6 fixed l4_len (omega (arith, same_length)))
        (all-slice _ fixed 40 (packet_end pkt) fixed_bytes) (omega (arith, segment_len, short))
        (omega (
          arith,
          header,
          pseudo_ipv6-bound fixed (byte fixed 6) l4_len fixed_bytes (byte-bound fixed 6 fixed_bytes)
              short,
        ))
        (rw (← header, same_next) closed)

pub version-fix_ipv6_checksums : (pkt : Bytes) → byte (fix_ipv6_checksums pkt) 0 ≡ byte pkt 0
version-fix_ipv6_checksums pkt = elim (fix_ipv6_checksums-cases pkt) [
  | inl kept ↦ ap (λ p. byte p 0) kept
  | inr (version, transport, room) ↦
      rw (fix_ipv6_checksums-write_checksum pkt version transport room)
        (byte-write_checksum _ 40 _ _ _ pkt 0 (inl (omega arith)))
]
