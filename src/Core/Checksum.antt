-- ===== src/Core/Checksum.antt =====
-- The checksums of packets on their way into a tunnel, crates/nil-core/src/checksum.rs. A packet is
-- its bytes; every index is within the packet by the tests before it. `u32` sums wrap as in a release
-- build.
pub mod Sums
pub mod Writes
pub mod Correct
pub mod Receiver
pub mod Fields
pub mod Ipv4
pub mod Ipv6
pub mod Rewrite
pub mod Again
use nil.Prelude.{
  ℕ, zero, suc, ◌+◌, ◌-◌, ◌*◌, ◌/◌, ◌%◌, ◌^◌, min, Bool, true, false, not, ◌&&◌, ◌||◌, Option, none,
  some, List, [], ◌∷◌, ◌++◌, Bytes, length, take, drop, ltb, leb, ◌==◌, if◌then◌else◌,
}
use nil.Prelude.Words.{to_be_bytes}

-- `pkt[i]`
abbrev pub byte : Bytes → ℕ → ℕ
byte [] i = 0
byte (b ∷ bs) zero = b
byte (b ∷ bs) (suc i) = byte bs i

-- `u16::from_be_bytes([pkt[i], pkt[i + 1]])`
abbrev pub word : Bytes → ℕ → ℕ
word pkt i = byte pkt i * 256 + byte pkt (suc i)

-- `pkt[from..to]`
abbrev pub slice : Bytes → ℕ → ℕ → Bytes
slice pkt from to = take (to - from) (drop from pkt)

-- `pkt[i..i + bytes.len()].copy_from_slice(bytes)`
abbrev pub write : Bytes → ℕ → Bytes → Bytes
write [] i bytes = []
write (b ∷ pkt) zero [] = b ∷ pkt
write (b ∷ pkt) zero (new ∷ bytes) = new ∷ write pkt zero bytes
write (b ∷ pkt) (suc i) bytes = b ∷ write pkt i bytes

-- The first loop of `ones_complement`, and the odd byte behind it
unfoldable pub sum_words : ℕ → Bytes → ℕ
sum_words sum [] = sum
sum_words sum (hi ∷ []) = (sum + hi * 256) % 2 ^ 32
sum_words sum (hi ∷ lo ∷ data_) = sum_words ((sum + (hi * 256 + lo)) % 2 ^ 32) data_

-- Its second loop; `fuel` bounds the number of rounds
unfoldable pub fold_carries : ℕ → ℕ → ℕ
fold_carries zero sum = sum
fold_carries (suc fuel) sum =
    let folded = fold_carries fuel (sum % 65536 + sum / 65536) in
    if sum / 65536 == 0 then sum else folded

-- `ones_complement`: two rounds end the second loop on every `u32`
unfoldable pub ones_complement : Bytes → ℕ → ℕ
ones_complement data_ initial = 65535 - fold_carries 2 (sum_words initial data_) % 65536

-- The steps that each checksum takes: clear the field, sum, and write the result
unfoldable pub write_checksum : ℕ → ℕ → ℕ → ℕ → Bool → Bytes → Bytes
write_checksum field from to initial never_zero pkt =
    let cleared : Bytes = write pkt field (0 ∷ 0 ∷ []) in
    let csum : ℕ = ones_complement (slice cleared from to) initial in
    write cleared field (to_be_bytes 2 (if never_zero && csum == 0 then 0xffff else csum))

-- The pseudo-header of `fix_ipv4_checksums`
unfoldable pub pseudo_ipv4 : Bytes → ℕ → ℕ → ℕ
pseudo_ipv4 pkt proto l4_len = ((sum_words 0 (slice pkt 12 20) + proto) % 2 ^ 32 + l4_len) % 2 ^ 32

-- `fix_ipv4_checksums`, behind the header
unfoldable pub fix_ipv4_l4 : ℕ → Bytes → Bytes
fix_ipv4_l4 ihl pkt =
    let proto : ℕ = byte pkt 9 in
    let end : ℕ = min (word pkt 2) (length pkt) in
    let csum_off : ℕ = if proto == 6 then 16 else 6 in
    let l4_len : ℕ = end - ihl in
    if leb end ihl
    then pkt
    else if not (proto == 6 || proto == 17)
    then pkt
    else if ltb l4_len (csum_off + 2)
    then pkt
    else write_checksum (ihl + csum_off) ihl end (pseudo_ipv4 pkt proto l4_len) (proto == 17) pkt

-- `fix_ipv4_checksums`
unfoldable pub fix_ipv4_checksums : Bytes → Bytes
fix_ipv4_checksums pkt =
    let ihl : ℕ = byte pkt 0 % 16 * 4 in
    if ltb (length pkt) 20 || not (byte pkt 0 / 16 == 4)
    then pkt
    else if ltb ihl 20 || ltb (length pkt) ihl
    then pkt
    else fix_ipv4_l4 ihl (write_checksum 10 0 ihl 0 false pkt)

-- The pseudo-header of `fix_ipv6_checksums`
unfoldable pub pseudo_ipv6 : Bytes → ℕ → ℕ → ℕ
pseudo_ipv6 pkt next_header l4_len =
    (((sum_words 0 (slice pkt 8 40) + l4_len / 65536) % 2 ^ 32 + l4_len % 65536) % 2 ^ 32
      + next_header)
    % 2 ^ 32

-- `fix_ipv6_checksums`
unfoldable pub fix_ipv6_checksums : Bytes → Bytes
fix_ipv6_checksums pkt =
    let next_header : ℕ = byte pkt 6 in
    let csum_off : ℕ = if next_header == 6 then 16 else if next_header == 17 then 6 else 2 in
    let end : ℕ = min (40 + word pkt 4) (length pkt) in
    let l4_len : ℕ = end - 40 in
    if ltb (length pkt) 40 || not (byte pkt 0 / 16 == 6)
    then pkt
    else if not (next_header == 6 || next_header == 17 || next_header == 58)
    then pkt
    else if leb end 40
    then pkt
    else if ltb l4_len (csum_off + 2)
    then pkt
    else write_checksum (40 + csum_off) 40 end (pseudo_ipv6 pkt next_header l4_len)
        (next_header == 17 || next_header == 58) pkt

-- `fix_l4_checksums`
unfoldable pub fix_l4_checksums : Bytes → Bytes
fix_l4_checksums [] = []
fix_l4_checksums (first ∷ rest) =
    if first / 16 == 4
    then fix_ipv4_checksums (first ∷ rest)
    else if first / 16 == 6
    then fix_ipv6_checksums (first ∷ rest)
    else first ∷ rest
