-- ===== src/Portal/ResultCipher.antt =====
-- `ResultCipher` of crates/nil-portal/src/store/mod.rs, over the same AES-256-GCM parameter as the
-- Coordinator's cipher. The texts of backend errors are not kept.
use nil.Prelude.{
  ℕ, ◌+◌, ◌*◌, ◌≤◌, ◌≡◌, refl, Bool, true, ◌&&◌, Option, some, ◌∷◌, ◌++◌, arith, Bytes, codes,
  length, take, drop, leb, Result, ok, ◌>>=◌, ◌>>◌, guard, ok_or, length-append, take-append_at,
  drop-append_at,
}
use nil.Prelude.Words.{to_be_bytes}
use nil.Redemption.Cipher.{Aead, IsAead, nonce_len, tag_len}
use nil.Portal.Payload.{StoreError, backend, max_mint_batch_size, raw_signature_bytes}

abbrev pub max_result_plaintext_bytes : ℕ
max_result_plaintext_bytes = 1 + max_mint_batch_size * raw_signature_bytes

pub data ResultKind : Type 0 where
  one_shot subscription_mint : ResultKind

-- `kind as u8`
abbrev pub kind_to_wire : ResultKind → ℕ
kind_to_wire one_shot = 1
kind_to_wire subscription_mint = 2

-- The test on a plaintext, in `seal` and in `open`
abbrev pub is_storable : Bytes → Bool
is_storable plaintext =
    leb 1 (length plaintext) && leb (length plaintext) max_result_plaintext_bytes

abbrev pub is_stored_length : ℕ → Bool
is_stored_length n =
    leb (nonce_len + tag_len) n && leb n (nonce_len + tag_len + max_result_plaintext_bytes)

-- `ResultCipher::aad`
pub result_aad : ResultKind → Bytes → Bytes → ℕ → Bytes
result_aad kind operation_key request_hash expires_at =
    codes "nilvpn.portal-result.v1"
    ++ (kind_to_wire kind ∷ (operation_key ++ (request_hash ++ to_be_bytes 8 expires_at)))

module _ (a : Aead) where
  -- `ResultCipher::seal`: `secret` is the cipher's key, `entropy` what `getrandom` gave.
  unfoldable pub seal_result :
      Bytes → Option Bytes → ResultKind → Bytes → Bytes → ℕ → Bytes → Result Bytes StoreError
  seal_result secret entropy kind operation_key request_hash expires_at plaintext = do
    guard (is_storable plaintext) backend
    nonce ← ok_or entropy backend
    guard (a.new_from_slice secret) backend
    encrypted ←
        ok_or
          (a.encrypt secret nonce (result_aad kind operation_key request_hash expires_at) plaintext)
          backend
    ok (nonce ++ encrypted)

  -- `ResultCipher::open`
  unfoldable pub open_result :
      Bytes → ResultKind → Bytes → Bytes → ℕ → Bytes → Result Bytes StoreError
  open_result secret kind operation_key request_hash expires_at stored = do
    guard (is_stored_length (length stored)) backend
    let nonce = take nonce_len stored
    let ciphertext = drop nonce_len stored
    guard (a.new_from_slice secret) backend
    plaintext ←
        ok_or
          (a.decrypt secret nonce (result_aad kind operation_key request_hash expires_at)
            ciphertext)
          backend
    guard (is_storable plaintext) backend
    ok plaintext

  module _ (laws : IsAead a) where
    -- A replay payload of 1 to 4097 bytes is sealed, whatever the entropy, and opens to itself under
    -- the same kind, operation key, request hash and expiry.
    pub open_result-seal_result :
        (secret nonce : Bytes) (kind : ResultKind) (operation_key request_hash : Bytes)
        (expires_at : ℕ) (plaintext : Bytes)
        → length secret ≡ 32
        → length nonce ≡ nonce_len
        → is_storable plaintext ≡ true
        → (stored : Bytes) × (seal_result secret
              (some nonce)
              kind
              operation_key
              request_hash
              expires_at
              plaintext
            ≡ ok stored)
          × (open_result secret kind operation_key request_hash expires_at stored ≡ ok plaintext)
    unfolding seal_result open_result
    open_result-seal_result secret nonce kind operation_key request_hash expires_at plaintext hs hn
          hp =
        let aad = result_aad kind operation_key request_hash expires_at in
        let fits : length plaintext ≤ max_result_plaintext_bytes = ground (arith, hp) in
        let (c, made) = laws.encrypts secret nonce aad plaintext hs hn (omega arith) in
        let sized = laws.tagged secret nonce aad plaintext c made in
        let in_range : is_stored_length (length (nonce ++ c)) ≡ true =
          ground (arith, length-append nonce c, fits, hn, sized) in
        let opened = laws.decrypts secret nonce aad plaintext c made in
        (
          nonce ++ c,
          rw (hp, laws.accepts secret hs, made) refl,
          rw
              (
                in_range,
                take-append_at nonce c hn,
                drop-append_at nonce c hn,
                laws.accepts secret hs,
                opened,
                hp,
              )
              refl,
        )
