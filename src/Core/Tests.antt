-- ===== src/Core/Tests.antt =====
-- Runs of the checksum code (crates/nil-core/src/checksum.rs) on small packets.
use nil.Prelude.{◌≡◌, refl, [], ◌∷◌, ◌++◌, Bytes, replicate, arith}
use nil.Core.Checksum.{
  slice, ones_complement, sum_words, fold_carries, write_checksum, fix_ipv4_checksums, fix_ipv4_l4,
  fix_ipv6_checksums, fix_l4_checksums, pseudo_ipv4,
}
use nil.Core.Checksum.Ipv4.{fix_ipv4_checksums-segment}
use nil.Core.Checksum.Ipv6.{fix_ipv6_checksums-segment}
use nil.Core.Checksum.Receiver.{SumsToOnes, pseudo_header_ipv4, pseudo_header_ipv6}
use nil.Core.Checksum.Again.{fix_l4_checksums_twice}
use nil.Prelude.Words.{to_be_bytes}

abbrev datagram : Bytes
datagram =
    0x45 ∷ 0 ∷ 0 ∷ 30 ∷ 0 ∷ 0 ∷ 0x40 ∷ 0 ∷ 64 ∷ 17 ∷ 0 ∷ 0 ∷ 192 ∷ 0 ∷ 2 ∷ 1 ∷ 10 ∷ 80 ∷ 0 ∷ 11
    ∷ 0xca ∷ 0x6c ∷ 1 ∷ 0xbb ∷ 0 ∷ 10 ∷ 0 ∷ 0 ∷ 0x68 ∷ 0x69 ∷ []

abbrev echo : Bytes
echo =
    0x60 ∷ 0 ∷ 0 ∷ 0 ∷ 0 ∷ 9 ∷ 58 ∷ 64 ∷ replicate 15 0
    ++ (1 ∷ replicate 15 0 ++ (2 ∷ 128 ∷ 0 ∷ 0 ∷ 0 ∷ 0 ∷ 1 ∷ 0 ∷ 1 ∷ 7 ∷ []))

-- The checksum field of the header, by hand.
header_checksum : slice (fix_ipv4_checksums datagram) 10 12 ≡ 0x6e ∷ 0x73 ∷ []
unfolding fix_ipv4_checksums fix_ipv4_l4 write_checksum ones_complement sum_words fold_carries
    pseudo_ipv4 to_be_bytes
header_checksum = refl

fix_ipv4_checksums-segment_example : SumsToOnes (
    pseudo_header_ipv4 (fix_ipv4_checksums datagram) 10
    ++ slice (fix_ipv4_checksums datagram) 20 30)
fix_ipv4_checksums-segment_example =
    fix_ipv4_checksums-segment datagram refl (omega arith) (omega arith) refl (omega arith) refl

fix_ipv6_checksums-segment_example :
    SumsToOnes
      (pseudo_header_ipv6 (fix_ipv6_checksums echo) 9 ++ slice (fix_ipv6_checksums echo) 40 49)
fix_ipv6_checksums-segment_example = fix_ipv6_checksums-segment echo refl refl (omega arith) refl

fix_l4_checksums_twice_example :
    fix_l4_checksums (fix_l4_checksums datagram) ≡ fix_l4_checksums datagram
fix_l4_checksums_twice_example = fix_l4_checksums_twice datagram
