-- ===== src/Transport/ConnectIp/Varint.antt =====
-- Variable-length integers round trip (crates/nil-transport/src/connectip.rs).
use nil.Prelude.{
  ℕ, ◌+◌, ◌*◌, ◌/◌, ◌%◌, ◌^◌, ◌≤◌, ◌≡◌, some, ◌∷◌, ◌++◌, Bytes, length, leb, arith, Bool-cases, inl,
  inr,
}
use nil.Prelude.Words.{to_be_bytes, length-to_be_bytes}
use nil.Transport.ConnectIp.{encode_varint, decode_varint, varint_len, max_varint}

decode-one : (v : ℕ) (rest : Bytes) → v ≤ 0x3f → decode_varint (v ∷ rest) ≡ some (v, rest)
unfolding decode_varint
decode-one v rest h =
    let tag : v / 64 ≡ 0 = omega arith in
    let low : v % 64 ≡ v = omega arith in rw (tag, low) (ground arith)

decode-two :
    (v : ℕ) (rest : Bytes)
    → v ≤ 0x3fff
    → decode_varint (to_be_bytes 2 (v + 0x4000) ++ rest) ≡ some (v, rest)
unfolding decode_varint to_be_bytes
decode-two v rest h =
    let tag : (v + 0x4000) / 256 % 256 / 64 ≡ 1 = omega arith in
    let value : (v + 0x4000) / 256 % 256 % 64 * 256 + (v + 0x4000) % 256 ≡ v = omega arith in
    rw (tag, value) (ground arith)

decode-four :
    (v : ℕ) (rest : Bytes)
    → v ≤ 0x3fffffff
    → decode_varint (to_be_bytes 4 (v + 0x80000000) ++ rest) ≡ some (v, rest)
unfolding decode_varint to_be_bytes
decode-four v rest h =
    let w = v + 0x80000000 in
    let tag : w / 256 / 256 / 256 % 256 / 64 ≡ 2 = omega arith in
    let value : ((w / 256 / 256 / 256 % 256 % 64 * 256 + w / 256 / 256 % 256) * 256 + w / 256 % 256)
            * 256
          + w % 256
        ≡ v =
      omega arith in
    rw (tag, value) (ground arith)

decode-eight :
    (v : ℕ) (rest : Bytes)
    → v ≤ max_varint
    → decode_varint (to_be_bytes 8 (v % 2 ^ 62 + 3 * 2 ^ 62) ++ rest) ≡ some (v, rest)
unfolding decode_varint to_be_bytes
decode-eight v rest h =
    let w = v % 2 ^ 62 + 3 * 2 ^ 62 in
    let a = w / 256 in
    let b = a / 256 in
    let c = b / 256 in
    let d = c / 256 in
    let e = d / 256 in
    let f = e / 256 in
    let g = f / 256 in
    let tag : w / 256 / 256 / 256 / 256 / 256 / 256 / 256 % 256 / 64 ≡ 3 = omega arith in
    let value : ((((((w / 256 / 256 / 256 / 256 / 256 / 256 / 256 % 256 % 64 * 256
                                  + w / 256 / 256 / 256 / 256 / 256 / 256 % 256)
                                * 256
                              + w / 256 / 256 / 256 / 256 / 256 % 256)
                            * 256
                          + w / 256 / 256 / 256 / 256 % 256)
                        * 256
                      + w / 256 / 256 / 256 % 256)
                    * 256
                  + w / 256 / 256 % 256)
                * 256
              + w / 256 % 256)
            * 256
          + w % 256
        ≡ v =
      omega arith in
    rw (tag, value) (ground arith)

-- Every value of the 62-bit range is read back from its encoding, whatever follows it.
pub decode_varint-encode_varint :
    (v : ℕ) (rest : Bytes)
    → v ≤ max_varint
    → decode_varint (encode_varint v ++ rest) ≡ some (v, rest)
unfolding encode_varint
decode_varint-encode_varint v rest h = elim (Bool-cases (leb v 0x3f)) [
  | inl one ↦ rw one (decode-one v rest (ground arith))
  | inr more ↦ rw more (elim (Bool-cases (leb v 0x3fff)) [
    | inl two ↦ rw two (decode-two v rest (ground arith))
    | inr more' ↦ rw more' (elim (Bool-cases (leb v 0x3fffffff)) [
      | inl four ↦ rw four (decode-four v rest (ground arith))
      | inr eight ↦ rw eight (decode-eight v rest h)
    ])
  ])
]

-- An encoding has the length that `varint_len` announces.
pub length-encode_varint : (v : ℕ) → length (encode_varint v) ≡ varint_len v
unfolding encode_varint varint_len
length-encode_varint v = ground (
  arith,
  length-to_be_bytes 2 (v + 0x4000),
  length-to_be_bytes 4 (v + 0x80000000),
  length-to_be_bytes 8 (v % 2 ^ 62 + 3 * 2 ^ 62),
)
