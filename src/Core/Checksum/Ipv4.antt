-- ===== src/Core/Checksum/Ipv4.antt =====
-- `fix_ipv4_checksums`: a packet whose checksums a receiver accepts.
use nil.Prelude.{
  ℕ, ◌+◌, ◌-◌, ◌*◌, ◌/◌, ◌%◌, ◌^◌, ◌≤◌, ◌<◌, ◌≡◌, ◌⊎◌, inl, inr, refl, ap, ◌∙◌, Bool, true, false,
  ◌&&◌, ◌||◌, not, min, Bytes, length, ltb, leb, ◌==◌, if◌then◌else◌, Bool-cases, arith, ◌++◌,
}
use nil.Core.Checksum.{
  byte, word, slice, ones_complement, write_checksum, pseudo_ipv4, fix_ipv4_l4, fix_ipv4_checksums,
}
use nil.Core.Checksum.Sums.{is_bytes}
use nil.Core.Checksum.Receiver.{
  SumsToOnes, pseudo_header_ipv4, pseudo_ipv4-words, length-pseudo_header_ipv4,
  ones_complement-SumsToOnes,
}
use nil.Core.Checksum.Writes.{length-slice, all-slice}
use nil.Core.Checksum.Correct.{ones_complement-write_checksum}
use nil.Core.Checksum.Fields.{
  length-write_checksum, byte-write_checksum, slice-write_checksum_after, is_bytes-write_checksum,
  byte-bound, word-bound, sum_words-slice,
}

-- The length of the header, which the packet says of itself
abbrev pub header_len : Bytes → ℕ
header_len pkt = byte pkt 0 % 16 * 4

-- Where the packet ends by its own length and by the bytes that came
abbrev pub packet_end : Bytes → ℕ
packet_end pkt = min (word pkt 2) (length pkt)

abbrev pub checksum_offset : ℕ → ℕ
checksum_offset proto = if proto == 6 then 16 else 6

checksum_offset_even : (proto : ℕ) → checksum_offset proto % 2 ≡ 0
checksum_offset_even proto = ground arith

pseudo_ipv4-bound :
    (pkt : Bytes) (proto l4_len : ℕ)
    → is_bytes pkt ≡ true
    → proto < 256
    → l4_len ≤ 65535
    → pseudo_ipv4 pkt proto l4_len < 2 ^ 24
unfolding pseudo_ipv4
pseudo_ipv4-bound pkt proto l4_len h p l = omega (arith, sum_words-slice pkt 12 20 h (omega arith))

-- Behind the header either nothing is written, or a checksum is.
pub fix_ipv4_l4-cases {ℓ} :
    (P : Bytes → Type ℓ) (ihl : ℕ) (pkt : Bytes)
    → P pkt
    → ((off to initial : ℕ) (never_zero : Bool)
        → P (write_checksum (ihl + off) ihl to initial never_zero pkt))
    → P (fix_ipv4_l4 ihl pkt)
unfolding fix_ipv4_l4
fix_ipv4_l4-cases P ihl pkt kept written =
    let proto : ℕ = byte pkt 9 in
    let off : ℕ = checksum_offset proto in
    let end : ℕ = packet_end pkt in
    elim (Bool-cases (leb end ihl)) [
      | inl e ↦ rw e kept
      | inr e ↦ elim (Bool-cases (proto == 6 || proto == 17)) [
        | inr f ↦ rw (e, f) kept
        | inl f ↦ elim (Bool-cases (ltb (end - ihl) (off + 2))) [
          | inl g ↦ rw (e, f, g) kept
          | inr g ↦ rw (e, f, g) (written off end (pseudo_ipv4 pkt proto (end - ihl)) (proto == 17))
        ]
      ]
    ]

-- A header is written, and a checksum behind it.
abbrev pub has_header : Bytes → Bool
has_header pkt =
    leb 20 (length pkt)
    && byte pkt 0 / 16 == 4
    && leb 20 (header_len pkt)
    && leb (header_len pkt) (length pkt)

abbrev pub has_segment : Bytes → Bool
has_segment pkt =
    (byte pkt 9 == 6 || byte pkt 9 == 17)
    && leb (header_len pkt + checksum_offset (byte pkt 9) + 2) (packet_end pkt)

pub fix_ipv4_checksums_no_header :
    (pkt : Bytes) → has_header pkt ≡ false → fix_ipv4_checksums pkt ≡ pkt
unfolding fix_ipv4_checksums
fix_ipv4_checksums_no_header pkt h =
    elim (Bool-cases (ltb (length pkt) 20 || not (byte pkt 0 / 16 == 4))) [
      | inl e ↦ rw e refl
      | inr e ↦ elim (Bool-cases (ltb (header_len pkt) 20 || ltb (length pkt) (header_len pkt))) [
        | inl f ↦ rw (e, f) refl
        | inr f ↦ absurd (ground arith)
      ]
    ]

pub fix_ipv4_l4_no_segment :
    (pkt : Bytes) → has_segment pkt ≡ false → fix_ipv4_l4 (header_len pkt) pkt ≡ pkt
unfolding fix_ipv4_l4
fix_ipv4_l4_no_segment pkt h = elim (Bool-cases (leb (packet_end pkt) (header_len pkt))) [
  | inl e ↦ rw e refl
  | inr e ↦ elim (Bool-cases (byte pkt 9 == 6 || byte pkt 9 == 17)) [
    | inr f ↦ rw (e, f) refl
    | inl f ↦
        let narrow : ltb (packet_end pkt - header_len pkt) (checksum_offset (byte pkt 9) + 2)
            ≡ true =
          ground arith in
        rw (e, f, narrow) refl
  ]
]

module _ (pkt : Bytes) (version : byte pkt 0 / 16 ≡ 4) (room : 20 ≤ header_len pkt)
    (inside : header_len pkt ≤ length pkt) where
  abbrev pub with_header : Bytes
  with_header = write_checksum 10 0 (header_len pkt) 0 false pkt

  pub fix_ipv4_checksums-l4 : fix_ipv4_checksums pkt ≡ fix_ipv4_l4 (header_len pkt) with_header
  unfolding fix_ipv4_checksums
  fix_ipv4_checksums-l4 =
      let long : ltb (length pkt) 20 ≡ false = ground arith in
      let four : (byte pkt 0 / 16 == 4) ≡ true = ground arith in
      let wide : ltb (header_len pkt) 20 ≡ false = ground arith in
      let whole : ltb (length pkt) (header_len pkt) ≡ false = ground arith in
      rw (long, four, wide, whole) refl

  slice-fix_ipv4_l4 :
      slice (fix_ipv4_l4 (header_len pkt) with_header) 0 (header_len pkt)
      ≡ slice with_header 0 (header_len pkt)
  slice-fix_ipv4_l4 =
      fix_ipv4_l4-cases
        (λ result. slice result 0 (header_len pkt) ≡ slice with_header 0 (header_len pkt))
        (header_len pkt) with_header refl
        (λ off to initial never_zero.
          slice-write_checksum_after (header_len pkt + off) (header_len pkt) to initial never_zero
            with_header 0 (header_len pkt) (omega arith) (omega arith))

  -- The header of an IPv4 packet sums to ones when it has at least 20 bytes and all of it came.
  pub fix_ipv4_checksums-header :
      is_bytes pkt ≡ true
      → ones_complement (slice (fix_ipv4_checksums pkt) 0 (header_len pkt)) 0 ≡ 0
  fix_ipv4_checksums-header bytes =
      rw (fix_ipv4_checksums-l4, slice-fix_ipv4_l4)
        (ones_complement-write_checksum 0 10 (header_len pkt) 0 false pkt refl (omega arith) inside
          (omega arith) (omega arith) bytes)

  -- The fields that the second checksum reads are those of the packet.
  pub byte-with_header : (j : ℕ) → (j < 10) ⊎ (12 ≤ j) → byte with_header j ≡ byte pkt j
  byte-with_header = byte-write_checksum 10 0 (header_len pkt) 0 false pkt

  pub packet_end-with_header : packet_end with_header ≡ packet_end pkt
  packet_end-with_header =
      rw
        (
          byte-with_header 2 (inl (omega arith)),
          byte-with_header 3 (inl (omega arith)),
          length-write_checksum 10 0 (header_len pkt) 0 false pkt,
        )
        refl

  abbrev pub l4_offset : ℕ
  l4_offset = checksum_offset (byte pkt 9)

  abbrev pub l4_sum : Bytes → ℕ
  l4_sum packet = pseudo_ipv4 packet (byte pkt 9) (packet_end pkt - header_len pkt)

  module _ (transport : (byte pkt 9 == 6 || byte pkt 9 == 17) ≡ true)
      (l4_room : header_len pkt + l4_offset + 2 ≤ packet_end pkt) where
    pub fix_ipv4_checksums-write_checksum :
        fix_ipv4_checksums pkt
        ≡ write_checksum
            (header_len pkt + l4_offset)
            (header_len pkt)
            (packet_end pkt)
            (l4_sum with_header)
            (byte pkt 9 == 17)
            with_header
    unfolding fix_ipv4_l4
    fix_ipv4_checksums-write_checksum =
        let beyond : leb (packet_end pkt) (header_len pkt) ≡ false = ground arith in
        let wide : ltb (packet_end pkt - header_len pkt) (l4_offset + 2) ≡ false = ground arith in
        fix_ipv4_checksums-l4
        ∙ rw
            (
              packet_end-with_header,
              byte-with_header 9 (inl (omega arith)),
              beyond,
              transport,
              wide,
            )
            refl

    pub pseudo-kept : l4_sum (fix_ipv4_checksums pkt) ≡ l4_sum with_header
    unfolding pseudo_ipv4
    pseudo-kept =
        rw
          (
            fix_ipv4_checksums-write_checksum,
            slice-write_checksum_after (header_len pkt + l4_offset) (header_len pkt)
                (packet_end pkt) (l4_sum with_header) (byte pkt 9 == 17) with_header 12 20
                (omega arith) (omega arith),
          )
          refl

    fix_ipv4_checksums-closes :
        is_bytes pkt ≡ true
        → ones_complement
            (slice (fix_ipv4_checksums pkt) (header_len pkt) (packet_end pkt))
            (pseudo_ipv4 (fix_ipv4_checksums pkt) (byte pkt 9) (packet_end pkt - header_len pkt))
          ≡ 0
    fix_ipv4_checksums-closes bytes =
        rw (pseudo-kept, fix_ipv4_checksums-write_checksum)
          (ones_complement-write_checksum (header_len pkt) l4_offset (packet_end pkt)
            (l4_sum with_header) (byte pkt 9 == 17) with_header (checksum_offset_even (byte pkt 9))
            l4_room (omega (arith, length-write_checksum 10 0 (header_len pkt) 0 false pkt))
            (omega (arith, word-bound pkt 2 bytes))
            (pseudo_ipv4-bound with_header (byte pkt 9) (packet_end pkt - header_len pkt)
              (is_bytes-write_checksum 10 0 (header_len pkt) 0 false pkt bytes)
              (byte-bound pkt 9 bytes) (omega (arith, word-bound pkt 2 bytes)))
            (is_bytes-write_checksum 10 0 (header_len pkt) 0 false pkt bytes))

    fix_ipv4_checksums-kept :
        is_bytes pkt ≡ true
        → (is_bytes (fix_ipv4_checksums pkt) ≡ true)
          × (length (fix_ipv4_checksums pkt) ≡ length pkt)
          × (byte (fix_ipv4_checksums pkt) 9 ≡ byte pkt 9)
    fix_ipv4_checksums-kept bytes = (
      rw fix_ipv4_checksums-write_checksum (
          is_bytes-write_checksum (header_len pkt + l4_offset) (header_len pkt) (packet_end pkt)
            (l4_sum with_header) (byte pkt 9 == 17) with_header
            (is_bytes-write_checksum 10 0 (header_len pkt) 0 false pkt bytes)),
      rw fix_ipv4_checksums-write_checksum (
          length-write_checksum (header_len pkt + l4_offset) (header_len pkt) (packet_end pkt)
            (l4_sum with_header) (byte pkt 9 == 17) with_header
          ∙ length-write_checksum 10 0 (header_len pkt) 0 false pkt),
      rw fix_ipv4_checksums-write_checksum (
          byte-write_checksum (header_len pkt + l4_offset) (header_len pkt) (packet_end pkt)
            (l4_sum with_header) (byte pkt 9 == 17) with_header 9 (inl (omega arith))
          ∙ byte-with_header 9 (inl (omega arith))),
    )

    -- The TCP segment or UDP datagram of an IPv4 packet, behind the pseudo-header of addresses, zero,
    -- protocol and length, sums to ones, when its header has at least 20 bytes and all of it came, and
    -- what came of the rest holds the checksum. The packet is a string of numbers below 256.
    pub fix_ipv4_checksums-segment :
        is_bytes pkt ≡ true
        → SumsToOnes (
            pseudo_header_ipv4 (fix_ipv4_checksums pkt) (packet_end pkt - header_len pkt)
            ++ slice (fix_ipv4_checksums pkt) (header_len pkt) (packet_end pkt))
    fix_ipv4_checksums-segment bytes =
        let fixed : Bytes = fix_ipv4_checksums pkt in
        let l4_len : ℕ = packet_end pkt - header_len pkt in
        let (fixed_bytes, same_length, same_proto) = fix_ipv4_checksums-kept bytes in
        let short : l4_len ≤ 65535 = omega (arith, word-bound pkt 2 bytes) in
        let header =
          pseudo_ipv4-words fixed l4_len fixed_bytes short (omega (arith, same_length)) in
        let closed = fix_ipv4_checksums-closes bytes in
        let segment_len : length (slice fixed (header_len pkt) (packet_end pkt)) ≡ l4_len =
          length-slice fixed (header_len pkt) (packet_end pkt) (omega (arith, same_length)) in
        ones_complement-SumsToOnes (pseudo_header_ipv4 fixed l4_len)
          (slice fixed (header_len pkt) (packet_end pkt))
          (length-pseudo_header_ipv4 fixed l4_len (omega (arith, same_length)))
          (all-slice _ fixed (header_len pkt) (packet_end pkt) fixed_bytes)
          (omega (arith, segment_len, short))
          (omega (
            arith,
            header,
            pseudo_ipv4-bound fixed (byte fixed 9) l4_len fixed_bytes
                (byte-bound fixed 9 fixed_bytes) short,
          ))
          (rw (← header, same_proto) closed)

-- The first byte is kept.
pub version-fix_ipv4_checksums : (pkt : Bytes) → byte (fix_ipv4_checksums pkt) 0 ≡ byte pkt 0
version-fix_ipv4_checksums pkt = elim (Bool-cases (has_header pkt)) [
  | inr no_header ↦ ap (λ p. byte p 0) (fix_ipv4_checksums_no_header pkt no_header)
  | inl header ↦
      let version : byte pkt 0 / 16 ≡ 4 = ground arith in
      let room : 20 ≤ header_len pkt = ground arith in
      let inside : header_len pkt ≤ length pkt = ground arith in
      let headed : Bytes = with_header pkt version room inside in
      rw (fix_ipv4_checksums-l4 pkt version room inside) (
        fix_ipv4_l4-cases (λ p. byte p 0 ≡ byte pkt 0) (header_len pkt) headed
          (byte-with_header pkt version room inside 0 (inl (omega arith)))
          (λ off to initial never_zero.
            byte-write_checksum (header_len pkt + off) (header_len pkt) to initial never_zero headed
              0 (inl (omega arith))
            ∙ byte-with_header pkt version room inside 0 (inl (omega arith))))
]
