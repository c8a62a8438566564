-- ===== src/Core/Checksum/Fields.antt =====
-- What a checksum leaves as it is: the packet but for the two bytes of its field.
use nil.Prelude.{
  ℕ, zero, suc, ◌+◌, ◌-◌, ◌*◌, ◌/◌, ◌≤◌, ◌<◌, ◌≡◌, ◌⊎◌, refl, ap, ◌∙◌, Bool, true, ◌&&◌, [], ◌∷◌,
  Bytes, length, drop, length-take, ◌==◌, if◌then◌else◌, arith,
}
use nil.Prelude.Words.{to_be_bytes, to_be_bytes-two, length-to_be_bytes}
use nil.Core.Checksum.{byte, word, slice, write, sum_words, ones_complement, write_checksum}
use nil.Core.Checksum.Sums.{is_bytes, is_bytes-cons, words, words-bound, sum_words-words}
use nil.Core.Checksum.Writes.{
  length-write, byte-write, slice-write_before, slice-write_after, all-write, all-slice,
}

pub byte-bound : (pkt : Bytes) (j : ℕ) → is_bytes pkt ≡ true → byte pkt j < 256
byte-bound [] j h = omega arith
byte-bound (b ∷ pkt) zero h = (is_bytes-cons b pkt h).0
byte-bound (b ∷ pkt) (suc j) h = byte-bound pkt j (is_bytes-cons b pkt h).1

pub word-bound : (pkt : Bytes) (j : ℕ) → is_bytes pkt ≡ true → word pkt j < 65536
word-bound pkt j h = omega (arith, byte-bound pkt j h, byte-bound pkt (suc j) h)

-- The sum of a few words of a packet
pub sum_words-slice :
    (pkt : Bytes) (from to : ℕ)
    → is_bytes pkt ≡ true
    → to - from ≤ 65535
    → sum_words 0 (slice pkt from to) ≤ 65535 * (suc (to - from) / 2)
sum_words-slice pkt from to h k =
    let bound : words (slice pkt from to) ≤ 65535 * (suc (length (slice pkt from to)) / 2) =
      words-bound (slice pkt from to) (all-slice _ pkt from to h) in
    let short : length (slice pkt from to) ≤ to - from =
      omega (arith, length-take (to - from) (drop from pkt)) in
    omega (arith, sum_words-words 0 (slice pkt from to) (omega arith))

is_bytes-to_be_bytes : (v : ℕ) → is_bytes (to_be_bytes 2 v) ≡ true
is_bytes-to_be_bytes v = rw (to_be_bytes-two v) (ground arith)

module _ (field from to initial : ℕ) (never_zero : Bool) (pkt : Bytes) where
  -- The two bytes that are written.
  abbrev pub field_bytes : Bytes
  field_bytes =
      let csum : ℕ = ones_complement (slice (write pkt field (0 ∷ 0 ∷ [])) from to) initial in
      to_be_bytes 2 (if never_zero && csum == 0 then 0xffff else csum)

  width : field + length field_bytes ≡ field + 2
  width = ap (λ n. field + n) (length-to_be_bytes 2 _)

  pub length-write_checksum :
      length (write_checksum field from to initial never_zero pkt) ≡ length pkt
  unfolding write_checksum
  length-write_checksum =
      length-write (write pkt field (0 ∷ 0 ∷ [])) field field_bytes
      ∙ length-write pkt field (0 ∷ 0 ∷ [])

  pub byte-write_checksum :
      (j : ℕ)
      → (j < field) ⊎ (field + 2 ≤ j)
      → byte (write_checksum field from to initial never_zero pkt) j ≡ byte pkt j
  unfolding write_checksum
  byte-write_checksum j outside =
      byte-write (write pkt field (0 ∷ 0 ∷ [])) field field_bytes j (rw width outside)
      ∙ byte-write pkt field (0 ∷ 0 ∷ []) j outside

  pub slice-write_checksum_before :
      (i j : ℕ)
      → field + 2 ≤ i
      → slice (write_checksum field from to initial never_zero pkt) i j ≡ slice pkt i j
  unfolding write_checksum
  slice-write_checksum_before i j h =
      slice-write_before (write pkt field (0 ∷ 0 ∷ [])) i j field field_bytes (rw width h)
      ∙ slice-write_before pkt i j field (0 ∷ 0 ∷ []) h

  pub slice-write_checksum_after :
      (i j : ℕ)
      → i ≤ j
      → j ≤ field
      → slice (write_checksum field from to initial never_zero pkt) i j ≡ slice pkt i j
  unfolding write_checksum
  slice-write_checksum_after i j h k =
      slice-write_after (write pkt field (0 ∷ 0 ∷ [])) i j field field_bytes h k
      ∙ slice-write_after pkt i j field (0 ∷ 0 ∷ []) h k

  pub is_bytes-write_checksum :
      is_bytes pkt ≡ true → is_bytes (write_checksum field from to initial never_zero pkt) ≡ true
  unfolding write_checksum
  is_bytes-write_checksum h =
      all-write _ (write pkt field (0 ∷ 0 ∷ [])) field field_bytes
        (all-write _ pkt field (0 ∷ 0 ∷ []) h refl) (is_bytes-to_be_bytes _)
