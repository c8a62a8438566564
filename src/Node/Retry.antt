-- ===== src/Node/Retry.antt =====
-- The tokens by which a node checks a client's address before it keeps state for it,
-- crates/nil-node/src/retry.rs. SHA-256 is another crate's code and a parameter.
pub mod Compare
pub mod Binding
use nil.Prelude.{
  ℕ, zero, suc, ◌+◌, Bool, true, false, Option, none, some, List, [], ◌∷◌, ◌++◌, Bytes, length,
  take, drop, replicate, codes, ltb, ◌==◌, if◌then◌else◌, ◌%◌,
}
use nil.Prelude.Options.{◌>>=◌, ◌>>◌, guard}
use nil.Prelude.Words.{to_be_bytes}
use nil.Core.Checksum.{write}
use Prim.Native.Nat.{bit_xor, bit_or}

-- `TOKEN_TAG`
abbrev pub token_tag : Bytes
token_tag = codes "nil-quic-retry-v1"

-- `MAC_LEN`
abbrev pub mac_len : ℕ
mac_len = 16

-- `SocketAddr`, with the octets of its address
pub data SocketAddr : Type 0 where
  v4 v6 : Bytes → ℕ → SocketAddr

-- `addr_bytes`
abbrev pub addr_bytes : SocketAddr → Bytes
addr_bytes (v4 octets port) = 4 ∷ octets ++ to_be_bytes 2 port
addr_bytes (v6 octets port) = 6 ∷ octets ++ to_be_bytes 2 port

abbrev xor_bytes : Bytes → Bytes → Bytes
xor_bytes [] ys = []
xor_bytes (x ∷ xs) [] = x ∷ xs
xor_bytes (x ∷ xs) (y ∷ ys) = bit_xor x y ∷ xor_bytes xs ys

-- The loop of `ct_eq`
abbrev pub differences : ℕ → Bytes → Bytes → ℕ
differences diff [] ys = diff
differences diff (x ∷ xs) [] = diff
differences diff (x ∷ xs) (y ∷ ys) = differences (bit_or diff (bit_xor x y)) xs ys

-- `ct_eq`
unfoldable pub ct_eq : Bytes → Bytes → Bool
ct_eq a b = if length a == length b then differences 0 a b == 0 else false

-- `strip_prefix`
abbrev pub strip_prefix : Bytes → Bytes → Option Bytes
strip_prefix [] bytes = some bytes
strip_prefix (p ∷ prefix) [] = none
strip_prefix (p ∷ prefix) (b ∷ bytes) =
    let rest = strip_prefix prefix bytes in if p == b then rest else none

-- `split_first`
abbrev pub split_first : Bytes → Option (ℕ × Bytes)
split_first [] = none
split_first (b ∷ bytes) = some (b, bytes)

module _ (sha256 : Bytes → Bytes) where
  -- `hmac_sha256`
  unfoldable pub hmac_sha256 : Bytes → Bytes → Bytes
  hmac_sha256 key msg =
      let k0 : Bytes = write (replicate 64 0) 0 (if ltb 64 (length key) then sha256 key else key) in
      let ipad : Bytes = xor_bytes (replicate 64 0x36) k0 in
      let opad : Bytes = xor_bytes (replicate 64 0x5c) k0 in sha256 (opad ++ sha256 (ipad ++ msg))

  -- `RetryKey::mac`; the key is `RetryKey`'s field.
  unfoldable pub mac : Bytes → SocketAddr → Bytes → Bytes
  mac key src odcid = take mac_len (hmac_sha256 key (token_tag ++ (addr_bytes src ++ odcid)))

  -- `RetryKey::mint`
  unfoldable pub mint : Bytes → SocketAddr → Bytes → Bytes
  mint key src odcid = token_tag ++ (length odcid % 256 ∷ odcid ++ mac key src odcid)

  -- `RetryKey::validate`
  unfoldable pub validate : Bytes → SocketAddr → Bytes → Option Bytes
  validate key src token = do
    rest ← strip_prefix token_tag token
    first ← split_first rest
    guard (length first.1 == first.0 + mac_len)
    guard (ct_eq (drop first.0 first.1) (mac key src (take first.0 first.1)))
    some (take first.0 first.1)
