-- ===== src/Crypto/Translog.antt =====
-- The transparency-log proofs that a client checks, crates/nil-crypto/src/translog.rs.
-- SHA-256, Ed25519 and Base64 are other crates' code: an instance of `Primitives` is a parameter.
pub mod Tree
pub mod Checkpoint
pub mod Climb
pub mod Codec
pub mod Collision
pub mod Complete
pub mod Logged
pub mod Sound
use nil.Prelude.{
  ℕ, zero, suc, ◌+◌, ◌-◌, ◌/◌, ◌%◌, Bool, true, false, ◌&&◌, Option, none, some, List, [], ◌∷◌,
  ◌++◌, Bytes, length, take, drop, ltb, leb, ◌==◌, if◌then◌else◌, bytes_beq,
}
use nil.Prelude.Bits.{bit_length, count_ones, shr}
use nil.Prelude.Options.{◌>>=◌, ◌>>◌, guard}
use nil.Prelude.Slices.{concat}
use nil.Prelude.Utf8.{is_utf8}
use nil.Prelude.Words.{to_be_bytes, from_be_bytes}
use Prim.Native.Nat.{bit_xor}

-- `Sha256`, `VerifyingKey::from_bytes`, `Signature::from_slice`, `VerifyingKey::verify` and
-- `BASE64.encode`
pub record Primitives : Type 0 where
  pub sha256 : Bytes → Bytes
  pub is_verifying_key : Bytes → Bool
  pub is_signature : Bytes → Bool
  pub verify : Bytes → Bytes → Bytes → Bool
  pub base64 : Bytes → Bytes

-- `LogProof`
pub record LogProof : Type 0 where
  pub origin : Bytes
  pub tree_size : ℕ
  pub leaf_index : ℕ
  pub root : Bytes
  pub audit_path : List Bytes
  pub checkpoint_sig : Bytes

-- `take`, with the slice it leaves behind
unfoldable pub take_bytes : Bytes → ℕ → Option (Bytes × Bytes)
take_bytes b n = if ltb (length b) n then none else some (take n b, drop n b)

-- `take_u16`
unfoldable pub take_u16 : Bytes → Option (ℕ × Bytes)
take_u16 b = take_bytes b 2 >>= λ head. some (from_be_bytes head.0, head.1)

-- The loop of `decode` that reads the audit path
unfoldable pub take_path : ℕ → Bytes → Option (List Bytes × Bytes)
take_path zero b = some ([], b)
take_path (suc plen) b = do
  hash ← take_bytes b 32
  rest ← take_path plen hash.1
  some (hash.0 ∷ rest.0, rest.1)

-- `LogProof::encode`; `as u16` keeps the two low bytes of a length
unfoldable pub encode : LogProof → Bytes
encode p =
    to_be_bytes 2 (length (p.origin))
    ++ (p.origin
        ++ (to_be_bytes 8 (p.tree_size)
            ++ (to_be_bytes 8 (p.leaf_index)
                ++ (p.root
                    ++ (to_be_bytes 2 (length (p.audit_path))
                        ++ (concat (p.audit_path)
                            ++ (to_be_bytes 2 (length (p.checkpoint_sig)) ++ p.checkpoint_sig)))))))

-- `LogProof::decode`
unfoldable pub decode : Bytes → Option LogProof
decode b = do
  olen ← take_u16 b
  origin ← take_bytes olen.1 olen.0
  guard (is_utf8 origin.0)
  tree_size ← take_bytes origin.1 8
  leaf_index ← take_bytes tree_size.1 8
  root ← take_bytes leaf_index.1 32
  plen ← take_u16 root.1
  path ← take_path plen.0 plen.1
  slen ← take_u16 path.1
  sig ← take_bytes slen.1 slen.0
  guard (length (sig.1) == 0)
  some (record {
    origin = origin.0;
    tree_size = from_be_bytes tree_size.0;
    leaf_index = from_be_bytes leaf_index.0;
    root = root.0;
    audit_path = path.0;
    checkpoint_sig = sig.0;
  })

-- `u64`'s Display
abbrev pub decimal_digits : ℕ → ℕ → Bytes
decimal_digits zero v = []
decimal_digits (suc fuel) v =
    let above = decimal_digits fuel (v / 10) in
    if ltb v 10 then (0x30 + v) ∷ [] else above ++ (0x30 + v % 10) ∷ []

unfoldable pub decimal : ℕ → Bytes
decimal v = decimal_digits (suc v) v

-- `Option<[u8; 32]>` compared with `Some(root)`
abbrev pub is_root : Option Bytes → Bytes → Bool
is_root none root = false
is_root (some found) root = bytes_beq found root

module _ (primitives : Primitives) where
  -- `leaf_hash`
  unfoldable pub leaf_hash : Bytes → Bytes
  leaf_hash data_ = primitives.sha256 (0x00 ∷ data_)

  -- `hash_children`
  unfoldable pub hash_children : Bytes → Bytes → Bytes
  hash_children left right = primitives.sha256 (0x01 ∷ left ++ right)

  -- The loop over `path[..inner]`, from the digit `i` of the index on
  unfoldable pub inner_loop : ℕ → ℕ → Bytes → List Bytes → Bytes
  inner_loop index i seed [] = seed
  inner_loop index i seed (sibling ∷ path) =
      inner_loop index (suc i)
        (if shr index i % 2 == 0 then hash_children seed sibling else hash_children sibling seed)
        path

  -- The loop over `path[inner..]`
  unfoldable pub border_loop : Bytes → List Bytes → Bytes
  border_loop seed [] = seed
  border_loop seed (sibling ∷ path) = border_loop (hash_children sibling seed) path

  -- `root_from_inclusion`; the amount of a shift of a `u64` is taken modulo 64 in a release build
  unfoldable pub root_from_inclusion : ℕ → ℕ → Bytes → List Bytes → Option Bytes
  root_from_inclusion index size leaf path =
      if leb size index
      then none
      else let inner : ℕ = bit_length (bit_xor index (size - 1)) in
        let border : ℕ = count_ones (shr index (inner % 64)) in
        if length path == inner + border
        then some (border_loop (inner_loop index 0 leaf (take inner path)) (drop inner path))
        else none

  -- `checkpoint_body`
  unfoldable pub checkpoint_body : Bytes → ℕ → Bytes → Bytes
  checkpoint_body origin tree_size root =
      origin ++ 10 ∷ decimal tree_size ++ 10 ∷ primitives.base64 root ++ 10 ∷ []

  -- `verify_checkpoint`
  unfoldable pub verify_checkpoint : LogProof → Bytes → Bool
  verify_checkpoint proof log_key =
      if primitives.is_signature (proof.checkpoint_sig)
      then primitives.verify log_key (checkpoint_body (proof.origin) (proof.tree_size) (proof.root))
          (proof.checkpoint_sig)
      else false

  -- `verify_logged`
  unfoldable pub verify_logged : Bytes → LogProof → Bytes → Bool
  verify_logged leaf_data proof log_pubkey =
      if primitives.is_verifying_key log_pubkey
      then if verify_checkpoint proof log_pubkey
        then is_root
            (root_from_inclusion (proof.leaf_index) (proof.tree_size) (leaf_hash leaf_data)
              (proof.audit_path))
            (proof.root)
        else false
      else false
