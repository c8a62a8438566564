-- ===== src/Crypto/Translog/Codec.antt =====
-- The bytes of a stapled proof.
use nil.Prelude.{
  ℕ, ◌^◌, ◌<◌, ◌≡◌, refl, true, some, List, [], ◌∷◌, ◌++◌, Bytes, length, length-append,
  take-append_at, drop-append_at, le→ltb_false, arith,
}
use mathlib.Core.List.{append_assoc, append-nil}
use nil.Prelude.Slices.{concat}
use nil.Prelude.Utf8.{is_utf8}
use nil.Prelude.Words.{to_be_bytes, length-to_be_bytes, from_be_bytes-to_be_bytes}
use nil.Crypto.Translog.{LogProof, take_bytes, take_u16, take_path, encode, decode}
use nil.Crypto.Translog.Collision.{digests}

take_bytes-append :
    (xs rest : Bytes) (n : ℕ) → length xs ≡ n → take_bytes (xs ++ rest) n ≡ some (xs, rest)
unfolding take_bytes
take_bytes-append xs rest n e =
    rw
      (
        le→ltb_false (length (xs ++ rest)) n (omega (arith, length-append xs rest)),
        take-append_at xs rest e,
        drop-append_at xs rest e,
      )
      refl

take_bytes-all : (xs : Bytes) → take_bytes xs (length xs) ≡ some (xs, [])
take_bytes-all xs = rw (append-nil xs) at (take_bytes-append xs [] (length xs) refl)

take_u16-append :
    (n : ℕ) (rest : Bytes) → n < 2 ^ 16 → take_u16 (to_be_bytes 2 n ++ rest) ≡ some (n, rest)
unfolding take_u16
take_u16-append n rest small =
    rw
      (
        take_bytes-append (to_be_bytes 2 n) rest 2 (length-to_be_bytes 2 n),
        from_be_bytes-to_be_bytes 2 n small,
      )
      refl

take_path-append :
    (path : List Bytes) (rest : Bytes)
    → digests path ≡ true
    → take_path (length path) (concat path ++ rest) ≡ some (path, rest)
unfolding take_path
take_path-append [] rest h = refl
take_path-append (hash ∷ path) rest h =
    rw
      (
        append_assoc hash (concat path) rest,
        take_bytes-append hash (concat path ++ rest) 32 (ground arith),
        take_path-append path rest (ground arith),
      )
      refl

-- A proof is read back from its bytes: its origin is UTF-8 text, its hashes have 32 bytes, its
-- counters fit in 64 bits, and its three lengths in 16.
pub decode-encode :
    (p : LogProof)
    → is_utf8 (p.origin) ≡ true
    → length (p.origin) < 2 ^ 16
    → p.tree_size < 2 ^ 64
    → p.leaf_index < 2 ^ 64
    → length (p.root) ≡ 32
    → digests (p.audit_path) ≡ true
    → length (p.audit_path) < 2 ^ 16
    → length (p.checkpoint_sig) < 2 ^ 16
    → decode (encode p) ≡ some p
unfolding decode encode
decode-encode p text olen size index root path plen slen =
    let sig : Bytes = to_be_bytes 2 (length (p.checkpoint_sig)) ++ p.checkpoint_sig in
    let after_index : Bytes =
      p.root ++ (to_be_bytes 2 (length (p.audit_path)) ++ (concat (p.audit_path) ++ sig)) in
    rw
      (
        take_u16-append (length (p.origin))
            (p.origin
              ++ (to_be_bytes 8 (p.tree_size) ++ (to_be_bytes 8 (p.leaf_index) ++ after_index)))
            olen,
        take_bytes-append (p.origin)
            (to_be_bytes 8 (p.tree_size) ++ (to_be_bytes 8 (p.leaf_index) ++ after_index))
            (length (p.origin)) refl,
        text,
        take_bytes-append (to_be_bytes 8 (p.tree_size))
            (to_be_bytes 8 (p.leaf_index) ++ after_index) 8 (length-to_be_bytes 8 (p.tree_size)),
        take_bytes-append (to_be_bytes 8 (p.leaf_index)) after_index 8
            (length-to_be_bytes 8 (p.leaf_index)),
        take_bytes-append (p.root)
            (to_be_bytes 2 (length (p.audit_path)) ++ (concat (p.audit_path) ++ sig)) 32 root,
        take_u16-append (length (p.audit_path)) (concat (p.audit_path) ++ sig) plen,
        take_path-append (p.audit_path) sig path,
        take_u16-append (length (p.checkpoint_sig)) (p.checkpoint_sig) slen,
        take_bytes-all (p.checkpoint_sig),
        from_be_bytes-to_be_bytes 8 (p.tree_size) size,
        from_be_bytes-to_be_bytes 8 (p.leaf_index) index,
      )
      refl
