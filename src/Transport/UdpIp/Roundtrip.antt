-- ===== src/Transport/UdpIp/Roundtrip.antt =====
-- An inner packet comes out of its wrapping as it went in.
use nil.Prelude.{
  ℕ, zero, suc, ◌+◌, ◌-◌, ◌*◌, ◌/◌, ◌%◌, ◌≤◌, ◌<◌, ◌≡◌, ◌⊎◌, refl, ap, ◌∙◌, true, false, some, [],
  ◌∷◌, Bytes, length, replicate, take-length, le→ltb_false, arith, inl, inr,
}
use nil.Prelude.Words.{to_be_bytes}
use nil.Core.Checksum.{byte, slice, write, write_checksum, pseudo_ipv4}
use nil.Core.Checksum.Fields.{
  length-write_checksum, byte-write_checksum, slice-write_checksum_before,
}
use nil.Core.Checksum.Ipv4
use nil.Transport.UdpIp.{SocketAddrV4, laid_out, wrap, unwrap}

write_all : (n : ℕ) (bytes : Bytes) → length bytes ≡ n → write (replicate n 0) 0 bytes ≡ bytes
write_all zero [] h = refl
write_all (suc n) (b ∷ bs) h = ap (◌∷◌ b) (write_all n bs (omega arith))
write_all zero (b ∷ bs) h = absurd (omega arith)
write_all (suc n) [] h = absurd (omega arith)

module _ (src dst : SocketAddrV4) (payload : Bytes) where
  abbrev total : ℕ
  total = 28 + length payload

  abbrev udp_len : ℕ
  udp_len = 8 + length payload

  abbrev packet : Bytes
  packet =
      0x45
      ∷ 0
      ∷ total / 256 % 256
      ∷ total % 256
      ∷ 0
      ∷ 0
      ∷ 0x40
      ∷ 0
      ∷ 64
      ∷ 17
      ∷ 0
      ∷ 0
      ∷ src.ip.octet0
      ∷ src.ip.octet1
      ∷ src.ip.octet2
      ∷ src.ip.octet3
      ∷ dst.ip.octet0
      ∷ dst.ip.octet1
      ∷ dst.ip.octet2
      ∷ dst.ip.octet3
      ∷ src.port / 256 % 256
      ∷ src.port % 256
      ∷ dst.port / 256 % 256
      ∷ dst.port % 256
      ∷ udp_len / 256 % 256
      ∷ udp_len % 256
      ∷ 0
      ∷ 0
      ∷ payload

  room_made :
      replicate {A = ℕ} (20 + 8 + length payload) 0
      ≡ 0
        ∷ 0
        ∷ 0
        ∷ 0
        ∷ 0
        ∷ 0
        ∷ 0
        ∷ 0
        ∷ 0
        ∷ 0
        ∷ 0
        ∷ 0
        ∷ 0
        ∷ 0
        ∷ 0
        ∷ 0
        ∷ 0
        ∷ 0
        ∷ 0
        ∷ 0
        ∷ 0
        ∷ 0
        ∷ 0
        ∷ 0
        ∷ 0
        ∷ 0
        ∷ 0
        ∷ 0
        ∷ replicate (length payload) 0
  room_made =
      let count : 20 + 8 + length payload
          ≡ suc (
              suc (
                suc (
                  suc (
                    suc (
                      suc (
                        suc (
                          suc (
                            suc (
                              suc (
                                suc (
                                  suc (
                                    suc (
                                      suc (
                                        suc (
                                          suc (
                                            suc (
                                              suc (
                                                suc (
                                                  suc (
                                                    suc (
                                                      suc (
                                                        suc (
                                                          suc (
                                                            suc (
                                                            suc (
                                                            suc (
                                                            suc (
                                                            length
                                                            payload)))))))))))))))))))))))))))) =
        omega arith in
      rw count refl

  laid_out-packet : laid_out src dst payload ≡ packet
  unfolding to_be_bytes
  laid_out-packet = rw room_made (rw (write_all (length payload) payload refl) refl)

  module _ (small : total < 65536) where
    whole : Ipv4.packet_end packet ≡ total
    whole = omega arith

    abbrev headed : Bytes
    headed = Ipv4.with_header packet refl (omega arith) (omega arith)

    abbrev sum : ℕ
    sum = pseudo_ipv4 headed 17 (total - 20)

    wrap-write_checksum : wrap src dst payload ≡ write_checksum 26 20 total sum true headed
    unfolding wrap
    wrap-write_checksum = rw (laid_out-packet) (
        rw whole at (
          Ipv4.fix_ipv4_checksums-write_checksum packet refl (omega arith) (omega arith) refl
            (omega arith)))

    byte-wrap :
        (j : ℕ)
        → (j < 10) ⊎ (12 ≤ j)
        → (j < 26) ⊎ (28 ≤ j)
        → byte (wrap src dst payload) j ≡ byte packet j
    byte-wrap j h k = rw wrap-write_checksum (
        byte-write_checksum 26 20 total sum true headed j k
        ∙ byte-write_checksum 10 0 20 0 false packet j h)

    length-wrap : length (wrap src dst payload) ≡ total
    length-wrap = rw wrap-write_checksum (
        length-write_checksum 26 20 total sum true headed
        ∙ length-write_checksum 10 0 20 0 false packet
        ∙ omega arith)

    exact : slice packet 28 total ≡ payload
    exact = let rest : total - 28 ≡ length payload = omega arith in rw rest (take-length payload)

    slice-wrap : slice (wrap src dst payload) 28 total ≡ payload
    slice-wrap = rw wrap-write_checksum (
        slice-write_checksum_before 26 20 total sum true headed 28 total (omega arith)
        ∙ slice-write_checksum_before 10 0 20 0 false packet 28 total (omega arith)
        ∙ exact)

  -- A payload that fits an IPv4 packet is unwrapped as it was wrapped, with both its addresses.
  pub unwrap-wrap :
      28 + length payload < 65536
      → src.port < 65536
      → dst.port < 65536
      → unwrap (wrap src dst payload) ≡ some (src, dst, payload)
  unfolding unwrap
  unwrap-wrap small from to =
      let front : (j : ℕ) → j < 10 → byte (wrap src dst payload) j ≡ byte packet j =
        λ j lt. byte-wrap small j (inl lt) (inl (omega arith)) in
      let middle : (j : ℕ) → 12 ≤ j → j < 26 → byte (wrap src dst payload) j ≡ byte packet j =
        λ j le lt. byte-wrap small j (inr le) (inl lt) in
      let udp_length : udp_len / 256 % 256 * 256 + udp_len % 256 ≡ udp_len = omega arith in
      let src_port : src.port / 256 % 256 * 256 + src.port % 256 ≡ src.port = omega arith in
      let dst_port : dst.port / 256 % 256 * 256 + dst.port % 256 ≡ dst.port = omega arith in
      let all_of_it : 20 + udp_len ≡ total = omega arith in
      rw
        (
          length-wrap small,
          front 0 (omega arith),
          front 9 (omega arith),
          middle 12 (omega arith) (omega arith),
          middle 13 (omega arith) (omega arith),
          middle 14 (omega arith) (omega arith),
          middle 15 (omega arith) (omega arith),
          middle 16 (omega arith) (omega arith),
          middle 17 (omega arith) (omega arith),
          middle 18 (omega arith) (omega arith),
          middle 19 (omega arith) (omega arith),
          middle 20 (omega arith) (omega arith),
          middle 21 (omega arith) (omega arith),
          middle 22 (omega arith) (omega arith),
          middle 23 (omega arith) (omega arith),
          middle 24 (omega arith) (omega arith),
          middle 25 (omega arith) (omega arith),
          udp_length,
          src_port,
          dst_port,
          all_of_it,
          le→ltb_false total 20 (omega arith),
          le→ltb_false total 28 (omega arith),
          le→ltb_false udp_len 8 (omega arith),
          le→ltb_false total total (omega arith),
          slice-wrap small,
        )
        refl
