-- ===== src/Core/Checksum/Rewrite.antt =====
-- One checksum written twice, and two written in either order.
use nil.Prelude.{ℕ, ◌+◌, ◌≤◌, ◌≡◌, refl, sym, ap, ◌∙◌, Bool, [], ◌∷◌, Bytes, length, arith}
use nil.Prelude.Words.{length-to_be_bytes}
use nil.Core.Checksum.{slice, write, write_checksum}
use nil.Core.Checksum.Writes.{write-write, write_comm, slice-write_before, slice-write_after}
use nil.Core.Checksum.Fields.{field_bytes}

module _ (field from to initial : ℕ) (never_zero : Bool) where
  width : (pkt : Bytes) → length (field_bytes field from to initial never_zero pkt) ≡ 2
  width pkt = length-to_be_bytes 2 _

  write_checksum-write :
      (pkt : Bytes)
      → write_checksum field from to initial never_zero pkt
        ≡ write pkt field (field_bytes field from to initial never_zero pkt)
  unfolding write_checksum
  write_checksum-write pkt =
      write-write pkt field (0 ∷ 0 ∷ []) (field_bytes field from to initial never_zero pkt)
        (sym (width pkt))

  field_bytes-same :
      (pkt packet : Bytes)
      → slice (write pkt field (0 ∷ 0 ∷ [])) from to
        ≡ slice (write packet field (0 ∷ 0 ∷ [])) from to
      → field_bytes field from to initial never_zero pkt
        ≡ field_bytes field from to initial never_zero packet
  field_bytes-same pkt packet e = rw e refl

  pub write_checksum_twice :
      (pkt : Bytes)
      → write_checksum field from to initial never_zero
          (write_checksum field from to initial never_zero pkt)
        ≡ write_checksum field from to initial never_zero pkt
  write_checksum_twice pkt =
      let bytes : Bytes = field_bytes field from to initial never_zero pkt in
      rw
        (
          write_checksum-write pkt,
          write_checksum-write (write pkt field bytes),
          field_bytes-same (write pkt field bytes) pkt
              (ap (λ p. slice p from to) (write-write pkt field bytes (0 ∷ 0 ∷ []) (width pkt))),
        )
        (write-write pkt field bytes bytes refl)

-- Two checksums over parts that do not meet, in either order.
module _ (f i f' to' initial initial' : ℕ) (never_zero never_zero' : Bool) (pkt : Bytes)
    (below : f + 2 ≤ i) (above : i ≤ f') where
  abbrev first_bytes : Bytes
  first_bytes = field_bytes f 0 i initial never_zero pkt

  abbrev second_bytes : Bytes
  second_bytes = field_bytes f' i to' initial' never_zero' pkt

  first_width : f + length first_bytes ≤ f'
  first_width = omega (arith, width f 0 i initial never_zero pkt)

  second_after_first :
      field_bytes f' i to' initial' never_zero' (write pkt f first_bytes) ≡ second_bytes
  second_after_first =
      field_bytes-same f' i to' initial' never_zero' (write pkt f first_bytes) pkt (
        ap (λ p. slice p i to') (write_comm pkt f f' first_bytes (0 ∷ 0 ∷ []) first_width)
        ∙ slice-write_before (write pkt f' (0 ∷ 0 ∷ [])) i to' f first_bytes
            (omega (arith, width f 0 i initial never_zero pkt)))

  first_after_second :
      field_bytes f 0 i initial never_zero (write pkt f' second_bytes) ≡ first_bytes
  first_after_second = field_bytes-same f 0 i initial never_zero (write pkt f' second_bytes) pkt (
      ap (λ p. slice p 0 i) (sym (write_comm pkt f f' (0 ∷ 0 ∷ []) second_bytes (omega arith)))
      ∙ slice-write_after (write pkt f (0 ∷ 0 ∷ [])) 0 i f' second_bytes (omega arith) above)

  pub write_checksum_comm :
      write_checksum f' i to' initial' never_zero' (write_checksum f 0 i initial never_zero pkt)
      ≡ write_checksum f 0 i initial never_zero (write_checksum f' i to' initial' never_zero' pkt)
  write_checksum_comm =
      rw
        (
          write_checksum-write f 0 i initial never_zero pkt,
          write_checksum-write f' i to' initial' never_zero' pkt,
          write_checksum-write f' i to' initial' never_zero' (write pkt f first_bytes),
          write_checksum-write f 0 i initial never_zero (write pkt f' second_bytes),
          second_after_first,
          first_after_second,
        )
        (write_comm pkt f f' first_bytes second_bytes first_width)
