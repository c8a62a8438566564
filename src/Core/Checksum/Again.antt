-- ===== src/Core/Checksum/Again.antt =====
-- A packet that already has its checksums is written to the same bytes.
use nil.Prelude.{
  ℕ, ◌+◌, ◌-◌, ◌/◌, ◌≤◌, ◌<◌, ◌≡◌, ◌⊎◌, inl, inr, refl, sym, ap, ◌∙◌, Bool, true, false, ◌||◌, [],
  ◌∷◌, Bytes, length, ◌==◌, Bool-cases, arith,
}
use nil.Core.Checksum.{
  byte, write_checksum, pseudo_ipv6, pseudo_ipv4, fix_ipv6_checksums, fix_ipv4_checksums,
  fix_ipv4_l4, fix_l4_checksums,
}
use nil.Core.Checksum.Rewrite.{write_checksum_twice, write_checksum_comm}
use nil.Core.Checksum.Ipv6
use nil.Core.Checksum.Ipv4
use nil.Core.Checksum.Fields.{length-write_checksum, byte-write_checksum}

-- Finalizing an IPv6 packet again changes nothing.
fix_ipv6_checksums_twice :
    (pkt : Bytes) → fix_ipv6_checksums (fix_ipv6_checksums pkt) ≡ fix_ipv6_checksums pkt
fix_ipv6_checksums_twice pkt = elim (Ipv6.fix_ipv6_checksums-cases pkt) [
  | inl kept ↦ ap fix_ipv6_checksums kept
  | inr (version, transport, room) ↦
      let off : ℕ = 40 + Ipv6.checksum_offset (byte pkt 6) in
      let end : ℕ = Ipv6.packet_end pkt in
      let flag : Bool = byte pkt 6 == 17 || byte pkt 6 == 58 in
      let sum : ℕ = pseudo_ipv6 pkt (byte pkt 6) (end - 40) in
      let fixed : Bytes = write_checksum off 40 end sum flag pkt in
      let fixes : fix_ipv6_checksums pkt ≡ fixed =
        Ipv6.fix_ipv6_checksums-write_checksum pkt version transport room in
      let same : (j : ℕ) → j < 40 → byte fixed j ≡ byte pkt j =
        λ j lt. byte-write_checksum off 40 end sum flag pkt j (inl (omega arith)) in
      let same_length : length fixed ≡ length pkt = length-write_checksum off 40 end sum flag pkt in
      let same_sum : pseudo_ipv6 fixed (byte pkt 6) (end - 40) ≡ sum =
        rw fixes at (Ipv6.sum-kept pkt version transport room) in
      let same_end : Ipv6.packet_end fixed ≡ end =
        rw (same 4 (omega arith), same 5 (omega arith), same_length) refl in
      let again =
        Ipv6.fix_ipv6_checksums-write_checksum fixed (rw (same 0 (omega arith)) version)
          (rw (same 6 (omega arith)) transport) (rw (same 6 (omega arith), same_end) room) in
      rw fixes (
        rw (same 6 (omega arith), same_end, same_sum) at again
        ∙ write_checksum_twice off 40 end sum flag pkt)
]

module _ (pkt : Bytes) (version : byte pkt 0 / 16 ≡ 4) (room : 20 ≤ Ipv4.header_len pkt)
    (inside : Ipv4.header_len pkt ≤ length pkt) where
  abbrev headed : Bytes
  headed = Ipv4.with_header pkt version room inside

  byte-headed : (j : ℕ) → (j < 10) ⊎ (12 ≤ j) → byte headed j ≡ byte pkt j
  byte-headed = Ipv4.byte-with_header pkt version room inside

  length-headed : length headed ≡ length pkt
  length-headed = length-write_checksum 10 0 (Ipv4.header_len pkt) 0 false pkt

  only_header :
      Ipv4.has_segment pkt ≡ false
      → fix_ipv4_checksums (fix_ipv4_checksums pkt) ≡ fix_ipv4_checksums pkt
  only_header no_segment =
      let h0 = byte-headed 0 (inl (omega arith)) in
      let kept : fix_ipv4_l4 (Ipv4.header_len pkt) headed ≡ headed = rw h0 at (
        Ipv4.fix_ipv4_l4_no_segment headed (
          rw
            (
              h0,
              byte-headed 2 (inl (omega arith)),
              byte-headed 3 (inl (omega arith)),
              byte-headed 9 (inl (omega arith)),
              length-headed,
            )
            no_segment)) in
      let fixes : fix_ipv4_checksums pkt ≡ headed =
        Ipv4.fix_ipv4_checksums-l4 pkt version room inside ∙ kept in
      let again =
        Ipv4.fix_ipv4_checksums-l4 headed (rw h0 version) (rw h0 room)
          (rw (h0, length-headed) inside) in
      rw fixes
        (rw (h0, write_checksum_twice 10 0 (Ipv4.header_len pkt) 0 false pkt) at again ∙ kept)

  module _ (transport : (byte pkt 9 == 6 || byte pkt 9 == 17) ≡ true)
      (l4_room : Ipv4.header_len pkt + Ipv4.checksum_offset (byte pkt 9) + 2
        ≤ Ipv4.packet_end pkt) where
    abbrev off : ℕ
    off = Ipv4.header_len pkt + Ipv4.checksum_offset (byte pkt 9)

    abbrev end : ℕ
    end = Ipv4.packet_end pkt

    abbrev l4_sum : Bytes → ℕ
    l4_sum packet = pseudo_ipv4 packet (byte pkt 9) (end - Ipv4.header_len pkt)

    abbrev fixed : Bytes
    fixed = write_checksum off (Ipv4.header_len pkt) end (l4_sum headed) (byte pkt 9 == 17) headed

    fixes : fix_ipv4_checksums pkt ≡ fixed
    fixes = Ipv4.fix_ipv4_checksums-write_checksum pkt version room inside transport l4_room

    byte-fixed : (j : ℕ) → j < 10 → byte fixed j ≡ byte pkt j
    byte-fixed j lt =
        byte-write_checksum off (Ipv4.header_len pkt) end (l4_sum headed) (byte pkt 9 == 17) headed
          j (inl (omega arith))
        ∙ byte-headed j (inl lt)

    length-fixed : length fixed ≡ length pkt
    length-fixed =
        length-write_checksum off (Ipv4.header_len pkt) end (l4_sum headed) (byte pkt 9 == 17)
          headed
        ∙ length-headed

    -- The header's checksum is in place already.
    header_again : write_checksum 10 0 (Ipv4.header_len pkt) 0 false fixed ≡ fixed
    header_again =
        sym (
          write_checksum_comm 10 (Ipv4.header_len pkt) off end 0 (l4_sum headed) false
            (byte pkt 9 == 17) headed (omega arith) (omega arith))
        ∙ rw (write_checksum_twice 10 0 (Ipv4.header_len pkt) 0 false pkt) refl

    segment_again : fix_ipv4_checksums fixed ≡ fixed
    segment_again =
        let b0 = byte-fixed 0 (omega arith) in
        let b2 = byte-fixed 2 (omega arith) in
        let b3 = byte-fixed 3 (omega arith) in
        let b9 = byte-fixed 9 (omega arith) in
        let same_sum : l4_sum fixed ≡ l4_sum headed =
          rw fixes at (Ipv4.pseudo-kept pkt version room inside transport l4_room) in
        let again =
          Ipv4.fix_ipv4_checksums-write_checksum fixed (rw b0 version) (rw b0 room)
            (rw (b0, length-fixed) inside) (rw b9 transport)
            (rw (b0, b2, b3, b9, length-fixed) l4_room) in
        rw (b0, b2, b3, b9, length-fixed, header_again, same_sum) at again
        ∙ write_checksum_twice off (Ipv4.header_len pkt) end (l4_sum headed) (byte pkt 9 == 17)
            headed

-- Finalizing an IPv4 packet again changes nothing.
fix_ipv4_checksums_twice :
    (pkt : Bytes) → fix_ipv4_checksums (fix_ipv4_checksums pkt) ≡ fix_ipv4_checksums pkt
fix_ipv4_checksums_twice pkt = elim (Bool-cases (Ipv4.has_header pkt)) [
  | inr no_header ↦ ap fix_ipv4_checksums (Ipv4.fix_ipv4_checksums_no_header pkt no_header)
  | inl header ↦
      let version : byte pkt 0 / 16 ≡ 4 = ground arith in
      let room : 20 ≤ Ipv4.header_len pkt = ground arith in
      let inside : Ipv4.header_len pkt ≤ length pkt = ground arith in
      elim (Bool-cases (Ipv4.has_segment pkt)) [
        | inr no_segment ↦ only_header pkt version room inside no_segment
        | inl segment ↦
            let transport : (byte pkt 9 == 6 || byte pkt 9 == 17) ≡ true = ground arith in
            let l4_room : Ipv4.header_len pkt + Ipv4.checksum_offset (byte pkt 9) + 2
                ≤ Ipv4.packet_end pkt =
              ground arith in
            ap fix_ipv4_checksums (fixes pkt version room inside transport l4_room)
            ∙ segment_again pkt version room inside transport l4_room
            ∙ sym (fixes pkt version room inside transport l4_room)
      ]
]

fix_l4_checksums-ipv4 :
    (pkt : Bytes) → byte pkt 0 / 16 ≡ 4 → fix_l4_checksums pkt ≡ fix_ipv4_checksums pkt
unfolding fix_l4_checksums
fix_l4_checksums-ipv4 [] version = absurd (omega arith)
fix_l4_checksums-ipv4 (b ∷ bs) version =
    let four : (b / 16 == 4) ≡ true = ground arith in rw four refl

fix_l4_checksums-ipv6 :
    (pkt : Bytes) → byte pkt 0 / 16 ≡ 6 → fix_l4_checksums pkt ≡ fix_ipv6_checksums pkt
unfolding fix_l4_checksums
fix_l4_checksums-ipv6 [] version = absurd (omega arith)
fix_l4_checksums-ipv6 (b ∷ bs) version =
    let four : (b / 16 == 4) ≡ false = ground arith in
    let six : (b / 16 == 6) ≡ true = ground arith in rw (four, six) refl

fix_l4_checksums-other :
    (pkt : Bytes)
    → (byte pkt 0 / 16 == 4) ≡ false
    → (byte pkt 0 / 16 == 6) ≡ false
    → fix_l4_checksums pkt ≡ pkt
unfolding fix_l4_checksums
fix_l4_checksums-other [] p q = refl
fix_l4_checksums-other (b ∷ bs) p q = rw (p, q) refl

-- Finalizing a packet of either version again changes nothing.
pub fix_l4_checksums_twice :
    (pkt : Bytes) → fix_l4_checksums (fix_l4_checksums pkt) ≡ fix_l4_checksums pkt
fix_l4_checksums_twice pkt = elim (Bool-cases (byte pkt 0 / 16 == 4)) [
  | inl four ↦
      let version : byte pkt 0 / 16 ≡ 4 = ground arith in
      rw (fix_l4_checksums-ipv4 pkt version) (
        fix_l4_checksums-ipv4 (fix_ipv4_checksums pkt)
          (rw (Ipv4.version-fix_ipv4_checksums pkt) version)
        ∙ fix_ipv4_checksums_twice pkt)
  | inr not_four ↦ elim (Bool-cases (byte pkt 0 / 16 == 6)) [
    | inl six ↦
        let version : byte pkt 0 / 16 ≡ 6 = ground arith in
        rw (fix_l4_checksums-ipv6 pkt version) (
          fix_l4_checksums-ipv6 (fix_ipv6_checksums pkt)
            (rw (Ipv6.version-fix_ipv6_checksums pkt) version)
          ∙ fix_ipv6_checksums_twice pkt)
    | inr not_six ↦ ap fix_l4_checksums (fix_l4_checksums-other pkt not_four not_six)
  ]
]
