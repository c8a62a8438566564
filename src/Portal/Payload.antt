-- ===== src/Portal/Payload.antt =====
-- The replay payload of a mint batch, `encode_mint_payload` and `decode_mint_payload` of
-- crates/nil-portal/src/store/mod.rs.
use nil.Prelude.{
  ℕ, zero, suc, ◌*◌, ◌≡◌, refl, ap, Bool, true, ◌&&◌, List, [], ◌∷◌, Bytes, length, take, drop, all,
  leb, ◌==◌, Result, ok, err, ◌>>◌, guard, arith, length-append, take-append_at, drop-append_at,
  Bool-cases, inl, inr,
}
use nil.Prelude.Slices.{concat}

-- `StoreError`; the text of a backend error is not kept.
pub data StoreError : Type 0 where
  duplicate backend : StoreError

-- crates/nil-proto/src/token.rs
abbrev pub max_mint_batch_size : ℕ
max_mint_batch_size = 16

-- half of `BLIND_TOKEN_HEX_LEN` of crates/nil-proto/src/token.rs
abbrev pub raw_signature_bytes : ℕ
raw_signature_bytes = 256

-- `encode_mint_payload`
unfoldable pub encode_mint_payload : List Bytes → Result Bytes StoreError
encode_mint_payload signatures = do
  guard (leb 1 (length signatures) && leb (length signatures) max_mint_batch_size) backend
  guard (all (λ signature. length signature == raw_signature_bytes) signatures) backend
  ok (length signatures ∷ concat signatures)

-- `chunks_exact(RAW_SIGNATURE_BYTES)` of a slice that is `count` chunks long
pub chunks_exact : ℕ → Bytes → List Bytes
chunks_exact zero bytes = []
chunks_exact (suc count) bytes =
    take raw_signature_bytes bytes ∷ chunks_exact count (drop raw_signature_bytes bytes)

-- `decode_mint_payload`
unfoldable pub decode_mint_payload : Bytes → Result (List Bytes) StoreError
decode_mint_payload [] = err backend
decode_mint_payload (count ∷ signatures) = do
  guard (leb 1 count && leb count max_mint_batch_size) backend
  guard (length signatures == count * raw_signature_bytes) backend
  ok (chunks_exact count signatures)

abbrev sized : Bytes → Bool
sized signature = length signature == raw_signature_bytes

chunks_exact-concat :
    (ss : List Bytes) → all sized ss ≡ true → chunks_exact (length ss) (concat ss) ≡ ss
unfolding chunks_exact
chunks_exact-concat [] h = refl
chunks_exact-concat (s ∷ ss) h =
    let width : length s ≡ raw_signature_bytes = ground arith in
    rw (take-append_at s (concat ss) width, drop-append_at s (concat ss) width)
      (ap (◌∷◌ s) (chunks_exact-concat ss (ground arith)))

length-concat-sized :
    (ss : List Bytes) → all sized ss ≡ true → length (concat ss) ≡ length ss * raw_signature_bytes
length-concat-sized [] h = omega arith
length-concat-sized (s ∷ ss) h =
    let width : length s ≡ raw_signature_bytes = ground arith in
    omega (arith, length-append s (concat ss), length-concat-sized ss (ground arith), width)

-- Whatever batch of signatures can be encoded, of 1 to 16 signatures of 256 bytes each, decodes to
-- the same signatures in the same order.
pub decode_mint_payload-encode :
    (signatures : List Bytes) (payload : Bytes)
    → encode_mint_payload signatures ≡ ok payload
    → decode_mint_payload payload ≡ ok signatures
unfolding encode_mint_payload decode_mint_payload
decode_mint_payload-encode signatures payload h = elim (Bool-cases (all sized signatures)) [
  | inl fits ↦
      let same : payload ≡ length signatures ∷ concat signatures = ground arith in
      rw same
        (ground (arith, chunks_exact-concat signatures fits, length-concat-sized signatures fits))
  | inr odd ↦ ground arith
]
