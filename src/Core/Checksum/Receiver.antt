-- ===== src/Core/Checksum/Receiver.antt =====
-- What a receiver checks, by RFC 1071, 768, 8200 and 9293 and without reading how the code sums: the
-- pseudo-headers as the bytes that the documents lay out, and the one's complement sum over them and
-- what follows.
use nil.Prelude.{
  ℕ, ◌+◌, ◌-◌, ◌/◌, ◌%◌, ◌^◌, ◌≤◌, ◌<◌, ◌≡◌, true, [], ◌∷◌, ◌++◌, Bytes, length, length-append,
  arith,
}
use nil.Core.Checksum.{byte, slice, ones_complement, sum_words, pseudo_ipv4, pseudo_ipv6}
use nil.Core.Checksum.Sums.{
  is_bytes, words, words-bound, words-append, sum_words-words, residue, residue-bound,
}
use nil.Core.Checksum.Writes.{length-slice, all-slice}
use nil.Core.Checksum.Correct.{ones_complement-residue}
use nil.Core.Checksum.Fields.{byte-bound}

-- The one's complement sum of the 16-bit words, which a receiver wants to be all ones
abbrev pub SumsToOnes : Bytes → Type 0
SumsToOnes data_ = residue (words data_) ≡ 65535

-- Source, destination, zero, protocol and length
abbrev pub pseudo_header_ipv4 : Bytes → ℕ → Bytes
pseudo_header_ipv4 pkt l4_len = slice pkt 12 20 ++ 0 ∷ byte pkt 9 ∷ l4_len / 256 ∷ l4_len % 256 ∷ []

-- Source, destination, length of four bytes, three zeros and the next header
abbrev pub pseudo_header_ipv6 : Bytes → ℕ → Bytes
pseudo_header_ipv6 pkt l4_len =
    slice pkt 8 40 ++ 0 ∷ 0 ∷ l4_len / 256 ∷ l4_len % 256 ∷ 0 ∷ 0 ∷ 0 ∷ byte pkt 6 ∷ []

sum_words-addresses :
    (pkt : Bytes) (from to : ℕ)
    → is_bytes pkt ≡ true
    → to ≤ length pkt
    → to - from ≤ 32
    → (sum_words 0 (slice pkt from to) ≡ words (slice pkt from to))
      × (words (slice pkt from to) ≤ 2 ^ 22)
sum_words-addresses pkt from to h inside short =
    let bound = words-bound (slice pkt from to) (all-slice _ pkt from to h) in
    let width = length-slice pkt from to inside in
    let small : words (slice pkt from to) ≤ 2 ^ 22 = omega (arith, bound, width) in
    (omega (arith, sum_words-words 0 (slice pkt from to) (omega (arith, small))), small)

module _ (pkt : Bytes) (l4_len : ℕ) (bytes : is_bytes pkt ≡ true) (short : l4_len ≤ 65535) where
  pub pseudo_ipv4-words :
      20 ≤ length pkt → pseudo_ipv4 pkt (byte pkt 9) l4_len ≡ words (pseudo_header_ipv4 pkt l4_len)
  unfolding pseudo_ipv4
  pseudo_ipv4-words long =
      let (summed, small) = sum_words-addresses pkt 12 20 bytes long (omega arith) in
      rw (summed, words-append (slice pkt 12 20) _ (omega (arith, length-slice pkt 12 20 long)))
        (omega (arith, small, byte-bound pkt 9 bytes))

  pub pseudo_ipv6-words :
      40 ≤ length pkt → pseudo_ipv6 pkt (byte pkt 6) l4_len ≡ words (pseudo_header_ipv6 pkt l4_len)
  unfolding pseudo_ipv6
  pseudo_ipv6-words long =
      let (summed, small) = sum_words-addresses pkt 8 40 bytes long (omega arith) in
      rw (summed, words-append (slice pkt 8 40) _ (omega (arith, length-slice pkt 8 40 long)))
        (omega (arith, small, byte-bound pkt 6 bytes))

pub length-pseudo_header_ipv4 :
    (pkt : Bytes) (l4_len : ℕ) → 20 ≤ length pkt → length (pseudo_header_ipv4 pkt l4_len) % 2 ≡ 0
length-pseudo_header_ipv4 pkt l4_len long =
    omega (arith, length-append (slice pkt 12 20) _, length-slice pkt 12 20 long)

pub length-pseudo_header_ipv6 :
    (pkt : Bytes) (l4_len : ℕ) → 40 ≤ length pkt → length (pseudo_header_ipv6 pkt l4_len) % 2 ≡ 0
length-pseudo_header_ipv6 pkt l4_len long =
    omega (arith, length-append (slice pkt 8 40) _, length-slice pkt 8 40 long)

-- A sum that the code closes over a pseudo-header is one that a receiver accepts.
pub ones_complement-SumsToOnes :
    (header segment : Bytes)
    → length header % 2 ≡ 0
    → is_bytes segment ≡ true
    → length segment ≤ 65535
    → words header < 2 ^ 24
    → ones_complement segment (words header) ≡ 0
    → SumsToOnes (header ++ segment)
ones_complement-SumsToOnes header segment even bytes short small closed =
    let summed = ones_complement-residue segment (words header) bytes short small in
    rw (words-append header segment even)
      (omega (arith, closed, summed, residue-bound (words header + words segment)))
