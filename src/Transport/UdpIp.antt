-- ===== src/Transport/UdpIp.antt =====
-- IPv4 and UDP around an inner packet, crates/nil-transport/src/udpip.rs.
pub mod Roundtrip
use nil.Prelude.{
  ℕ, zero, suc, ◌+◌, ◌-◌, ◌*◌, ◌/◌, ◌%◌, ◌≤◌, ◌<◌, ◌≡◌, refl, sym, ap, ◌∙◌, Bool, true, false, not,
  ◌||◌, Option, none, some, List, [], ◌∷◌, Bytes, length, replicate, ltb, ◌==◌, if◌then◌else◌,
  arith, inl, inr,
}
use nil.Prelude.Words.{to_be_bytes}
use nil.Core.Checksum.{byte, word, slice, write, fix_ipv4_checksums}

-- `Ipv4Addr`
pub record Ipv4Addr : Type 0 where
  pub octet0 : ℕ
  pub octet1 : ℕ
  pub octet2 : ℕ
  pub octet3 : ℕ

-- `Ipv4Addr::octets`
abbrev pub octets : Ipv4Addr → Bytes
octets ip = ip.octet0 ∷ ip.octet1 ∷ ip.octet2 ∷ ip.octet3 ∷ []

-- `SocketAddrV4`
pub record SocketAddrV4 : Type 0 where
  pub ip : Ipv4Addr
  pub port : ℕ

abbrev pub ipv4_hdr : ℕ
ipv4_hdr = 20

abbrev pub udp_hdr : ℕ
udp_hdr = 8

abbrev pub proto_udp : ℕ
proto_udp = 17

-- The bytes of `wrap` before the checksums
abbrev pub laid_out : SocketAddrV4 → SocketAddrV4 → Bytes → Bytes
laid_out src dst payload =
    let total : ℕ = ipv4_hdr + udp_hdr + length payload in
    let p1 : Bytes = write (replicate total 0) 0 (0x45 ∷ []) in
    let p2 : Bytes = write p1 2 (to_be_bytes 2 total) in
    let p3 : Bytes = write p2 6 (0x40 ∷ []) in
    let p4 : Bytes = write p3 8 (64 ∷ []) in
    let p5 : Bytes = write p4 9 (proto_udp ∷ []) in
    let p6 : Bytes = write p5 12 (octets (src.ip)) in
    let p7 : Bytes = write p6 16 (octets (dst.ip)) in
    let p8 : Bytes = write p7 20 (to_be_bytes 2 (src.port)) in
    let p9 : Bytes = write p8 22 (to_be_bytes 2 (dst.port)) in
    let p10 : Bytes = write p9 24 (to_be_bytes 2 (udp_hdr + length payload)) in write p10 28 payload

-- `wrap`
unfoldable pub wrap : SocketAddrV4 → SocketAddrV4 → Bytes → Bytes
wrap src dst payload = fix_ipv4_checksums (laid_out src dst payload)

-- `unwrap`
unfoldable pub unwrap : Bytes → Option (SocketAddrV4 × SocketAddrV4 × Bytes)
unwrap pkt =
    let ihl : ℕ = byte pkt 0 % 16 * 4 in
    let udp_len : ℕ = word pkt (ihl + 4) in
    if ltb (length pkt) ipv4_hdr || not (byte pkt 0 / 16 == 4)
    then none
    else if ltb ihl ipv4_hdr || not (byte pkt 9 == proto_udp) || ltb (length pkt) (ihl + udp_hdr)
    then none
    else if ltb udp_len udp_hdr || ltb (length pkt) (ihl + udp_len)
    then none
    else some (
      record {
        ip = record {
          octet0 = byte pkt 12;
          octet1 = byte pkt 13;
          octet2 = byte pkt 14;
          octet3 = byte pkt 15;
        };
        port = word pkt ihl;
      },
      record {
        ip = record {
          octet0 = byte pkt 16;
          octet1 = byte pkt 17;
          octet2 = byte pkt 18;
          octet3 = byte pkt 19;
        };
        port = word pkt (ihl + 2);
      },
      slice pkt (ihl + udp_hdr) (ihl + udp_len),
    )
