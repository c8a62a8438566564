-- ===== src/Redemption/Cipher.antt =====
-- `ReplayCipher` of crates/nil-coordinator/src/nullifier.rs. AES-256-GCM is a parameter: the code
-- calls the `aes_gcm` crate. The random nonce is what `getrandom` returned, an argument of `seal`.
-- Of an `io::Error` the kind is kept and the message is not.
use nil.Prelude.{
  ℕ, ◌+◌, ◌*◌, ◌≤◌, ◌≡◌, refl, Bool, true, false, ◌&&◌, ◌||◌, Option, some, ◌++◌, arith, Bytes,
  codes, length, take, drop, ltb, leb, ◌==◌, Result, ok, ◌>>=◌, ◌>>◌, guard, ok_or, if◌then◌else◌,
  length-append, take-append_at, drop-append_at,
}
use nil.Prelude.Words.{to_be_bytes}

-- `panicked` is no error value: it stands for the panic of a failing `expect`.
pub data IoError : Type 0 where
  invalid_input invalid_data would_block not_found other panicked : IoError

abbrev pub nonce_len : ℕ
nonce_len = 12

abbrev pub tag_len : ℕ
tag_len = 16

abbrev pub max_replay_result_bytes : ℕ
max_replay_result_bytes = 64 * 1024

abbrev pub max_ciphertext_bytes : ℕ
max_ciphertext_bytes = nonce_len + max_replay_result_bytes + tag_len

-- The operations of `Aes256Gcm` that the code calls.
pub record Aead : Type 0 where
  pub new_from_slice : Bytes → Bool
  pub encrypt : Bytes → Bytes → Bytes → Bytes → Option Bytes
  pub decrypt : Bytes → Bytes → Bytes → Bytes → Option Bytes

-- What its documentation promises: it takes any 32-byte key, it encrypts every message of at most
-- 2^36 - 32 bytes, a ciphertext is one tag longer than its message, and a message comes back under
-- the key, the nonce and the associated data that it was encrypted under.
pub record IsAead (a : Aead) : Type 0 where
  pub accepts : (key : Bytes) → length key ≡ 32 → a.new_from_slice key ≡ true
  pub encrypts :
      (key nonce aad msg : Bytes)
      → length key ≡ 32
      → length nonce ≡ nonce_len
      → length msg ≤ 68719476704
      → (c : Bytes) × (a.encrypt key nonce aad msg ≡ some c)
  pub tagged :
      (key nonce aad msg c : Bytes)
      → a.encrypt key nonce aad msg ≡ some c
      → length c ≡ length msg + tag_len
  pub decrypts :
      (key nonce aad msg c : Bytes)
      → a.encrypt key nonce aad msg ≡ some c
      → a.decrypt key nonce aad c ≡ some msg

-- The bounds on a plaintext, in `seal`, in `open` and in `validate_commit`.
abbrev pub outside_bounds : Bytes → Bool
outside_bounds plaintext = length plaintext == 0 || ltb max_replay_result_bytes (length plaintext)

pub aad : ℕ → Bytes → ℕ → Bytes
aad epoch key replay_until =
    codes "nilvpn.redemption-result.v1" ++ to_be_bytes 4 epoch ++ to_be_bytes 8 replay_until ++ key

outside_bounds_bound : (p : Bytes) → outside_bounds p ≡ false → length p ≤ max_replay_result_bytes
outside_bounds_bound p h = ground arith

in_range :
    (stored : Bytes)
    → nonce_len + tag_len ≤ length stored
    → length stored ≤ max_ciphertext_bytes
    → (leb (nonce_len + tag_len) (length stored) && leb (length stored) max_ciphertext_bytes) ≡ true
in_range stored h k = ground arith

module _ (a : Aead) where
  -- `ReplayCipher::seal`: `secret` is the cipher's key, `entropy` what `getrandom` gave.
  unfoldable pub seal : Bytes → Option Bytes → ℕ → Bytes → ℕ → Bytes → Result Bytes IoError
  seal secret entropy epoch key replay_until plaintext = do
    guard (if outside_bounds plaintext then false else true) invalid_input
    nonce ← ok_or entropy other
    guard (a.new_from_slice secret) other
    encrypted ← ok_or (a.encrypt secret nonce (aad epoch key replay_until) plaintext) other
    ok (nonce ++ encrypted)

  -- `ReplayCipher::open`
  unfoldable pub open_sealed : Bytes → ℕ → Bytes → ℕ → Bytes → Result Bytes IoError
  open_sealed secret epoch key replay_until stored = do
    guard (leb (nonce_len + tag_len) (length stored) && leb (length stored) max_ciphertext_bytes)
        invalid_data
    let nonce = take nonce_len stored
    let ciphertext = drop nonce_len stored
    guard (a.new_from_slice secret) other
    plaintext ← ok_or (a.decrypt secret nonce (aad epoch key replay_until) ciphertext) invalid_data
    guard (if outside_bounds plaintext then false else true) invalid_data
    ok plaintext

  module _ (laws : IsAead a) where
    -- A result of 1 to 65536 bytes is sealed, whatever the entropy, and opens to itself under the
    -- same epoch, nullifier and expiry.
    pub open_sealed-seal :
        (secret nonce : Bytes) (epoch : ℕ) (key : Bytes) (replay_until : ℕ) (plaintext : Bytes)
        → length secret ≡ 32
        → length nonce ≡ nonce_len
        → outside_bounds plaintext ≡ false
        → (stored : Bytes) × (seal secret (some nonce) epoch key replay_until plaintext ≡ ok stored)
          × (open_sealed secret epoch key replay_until stored ≡ ok plaintext)
    unfolding seal open_sealed
    open_sealed-seal secret nonce epoch key replay_until plaintext hs hn hp =
        let bound = outside_bounds_bound plaintext hp in
        let (c, made) =
          laws.encrypts secret nonce (aad epoch key replay_until) plaintext hs hn (omega arith) in
        let sized = laws.tagged secret nonce (aad epoch key replay_until) plaintext c made in
        (
          nonce ++ c,
          rw (hp, laws.accepts secret hs, made) refl,
          rw
              (
                in_range (nonce ++ c) (omega (arith, length-append nonce c))
                    (omega (arith, length-append nonce c)),
                take-append_at nonce c hn,
                drop-append_at nonce c hn,
                laws.accepts secret hs,
                laws.decrypts secret nonce (aad epoch key replay_until) plaintext c made,
                hp,
              )
              refl,
        )
