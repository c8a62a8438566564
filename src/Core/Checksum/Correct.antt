-- ===== src/Core/Checksum/Correct.antt =====
-- A receiver who sums what a checksum covers, the checksum included, gets ones.
use nil.Prelude.{
  ℕ, ◌+◌, ◌-◌, ◌/◌, ◌%◌, ◌^◌, ◌≤◌, ◌<◌, ◌≡◌, ◌⊎◌, inl, inr, refl, sym, ◌∙◌, Bool, true, false, ◌&&◌,
  [], ◌∷◌, Bytes, length, ◌==◌, if◌then◌else◌, Bool-cases, ==_iff, arith,
}
use nil.Prelude.Words.{to_be_bytes, to_be_bytes-two, length-to_be_bytes}
use nil.Core.Checksum.{slice, write, ones_complement, write_checksum}
use nil.Core.Checksum.Sums.{
  is_bytes, words, words-bound, sum_words-words, residue, residue-bound, fold_carries-residue,
  checksum_closes, words-write,
}
use nil.Core.Checksum.Writes.{
  length-write, write-write, slice-write, length-slice, all-write, all-slice,
}

pub ones_complement-residue :
    (data_ : Bytes) (initial : ℕ)
    → is_bytes data_ ≡ true
    → length data_ ≤ 65535
    → initial < 2 ^ 24
    → ones_complement data_ initial ≡ 65535 - residue (initial + words data_) % 65536
unfolding ones_complement
ones_complement-residue data_ initial h k l =
    let small : initial + words data_ < 2 ^ 32 = omega (arith, words-bound data_ h) in
    rw (sum_words-words initial data_ small, fold_carries-residue (initial + words data_) small)
      refl

-- What the code writes for a sum.
pub chosen : Bool → ℕ → ℕ
chosen never_zero csum = if never_zero && csum == 0 then 0xffff else csum

chosen-cases :
    (never_zero : Bool) (sum csum : ℕ)
    → csum ≡ 65535 - residue sum % 65536
    → (chosen never_zero csum ≡ 65535 - residue sum % 65536)
      ⊎ ((chosen never_zero csum ≡ 65535) × (residue sum ≡ 65535))
unfolding chosen
chosen-cases false sum csum e = inl e
chosen-cases true sum csum e = elim (Bool-cases (csum == 0)) [
  | inl empty ↦
      let gone : csum ≡ 0 = (==_iff csum 0).0 empty in
      inr (rw empty refl, omega (arith, residue-bound sum))
  | inr present ↦ inl (rw present e)
]

pub chosen-bound : (never_zero : Bool) (csum : ℕ) → csum < 65536 → chosen never_zero csum < 65536
unfolding chosen
chosen-bound never_zero csum h = ground arith

-- The bytes that a checksum covers, after it is written.
abbrev filled : Bytes → ℕ → ℕ → Bool → Bytes
filled data_ off initial never_zero =
    write data_ off
      (to_be_bytes 2 (chosen never_zero (ones_complement (write data_ off (0 ∷ 0 ∷ [])) initial)))

slice-write_checksum :
    (pkt : Bytes) (from to off initial : ℕ) (never_zero : Bool)
    → slice (write_checksum (from + off) from to initial never_zero pkt) from to
      ≡ filled (slice pkt from to) off initial never_zero
unfolding write_checksum chosen
slice-write_checksum pkt from to off initial never_zero =
    let cleared : Bytes = write pkt (from + off) (0 ∷ 0 ∷ []) in
    let csum : ℕ = chosen never_zero (ones_complement (slice cleared from to) initial) in
    slice-write cleared from to off (to_be_bytes 2 csum)
    ∙ rw (slice-write pkt from to off (0 ∷ 0 ∷ [])) (
        write-write (slice pkt from to) off (0 ∷ 0 ∷ [])
          (to_be_bytes 2 (
            chosen never_zero
              (ones_complement (write (slice pkt from to) off (0 ∷ 0 ∷ [])) initial)))
          (sym (length-to_be_bytes 2 _)))

ones_complement-filled :
    (data_ : Bytes) (off initial : ℕ) (never_zero : Bool)
    → off % 2 ≡ 0
    → off + 2 ≤ length data_
    → length data_ ≤ 65535
    → initial < 2 ^ 24
    → is_bytes data_ ≡ true
    → ones_complement (filled data_ off initial never_zero) initial ≡ 0
ones_complement-filled data_ off initial never_zero even room short small bytes =
    let cleared : Bytes = write data_ off (0 ∷ 0 ∷ []) in
    let sum : ℕ = initial + words cleared in
    let csum : ℕ = ones_complement cleared initial in
    let summed : csum ≡ 65535 - residue sum % 65536 =
      ones_complement-residue cleared initial (all-write _ data_ off (0 ∷ 0 ∷ []) bytes refl)
        (omega (arith, length-write data_ off (0 ∷ 0 ∷ []))) small in
    let final : ℕ = chosen never_zero csum in
    let narrow : final < 65536 = chosen-bound never_zero csum (omega (arith, summed)) in
    let field : Bytes = final / 256 % 256 ∷ final % 256 ∷ [] in
    let written : words (write data_ off field) ≡ words cleared + final =
      omega (arith, narrow, words-write data_ off (final / 256 % 256) (final % 256) even room) in
    let again : ones_complement (write data_ off field) initial
        ≡ 65535 - residue (initial + words (write data_ off field)) % 65536 =
      ones_complement-residue (write data_ off field) initial
        (all-write _ data_ off field bytes (ground arith))
        (omega (arith, length-write data_ off field)) small in
    let regroup : initial + (words cleared + final) ≡ sum + final = omega arith in
    rw (to_be_bytes-two final) (
      again
      ∙ rw (written, regroup) (checksum_closes sum final (chosen-cases never_zero sum csum summed)))

pub ones_complement-write_checksum :
    (from off to initial : ℕ) (never_zero : Bool) (pkt : Bytes)
    → off % 2 ≡ 0
    → from + off + 2 ≤ to
    → to ≤ length pkt
    → to - from ≤ 65535
    → initial < 2 ^ 24
    → is_bytes pkt ≡ true
    → ones_complement
        (slice (write_checksum (from + off) from to initial never_zero pkt) from to)
        initial
      ≡ 0
ones_complement-write_checksum from off to initial never_zero pkt even room inside short small
      bytes =
    let width : length (slice pkt from to) ≡ to - from = length-slice pkt from to inside in
    rw (slice-write_checksum pkt from to off initial never_zero) (
      ones_complement-filled (slice pkt from to) off initial never_zero even (omega arith)
        (omega arith) small (all-slice _ pkt from to bytes))
