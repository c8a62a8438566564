-- ===== src/Grant/Wire.antt =====
-- The NWG2 token that `mint` writes (crates/nil-core/src/grant.rs). Ed25519 and SHA-256 are
-- parameters: the code calls the crates `ed25519_dalek` and `sha2`.
use nil.Prelude.{
  ℕ, ◌+◌, ◌≡◌, Bool, true, ◌&&◌, Option, none, some, List, [], ◌∷◌, ◌++◌, Bytes, length, replicate,
  leb, ◌==◌, Result, ok, ◌>>◌, guard, codes, u64_max,
}
use nil.Prelude.Words.{to_be_bytes}
use nil.Prelude.Slices.{concat}
use nil.Grant.{
  Audience, Ipv4Addr, SocketAddr, GrantError, invalid_ttl, time_overflow, max_grant_ttl_secs,
  validate_named_identifier, role_to_wire, transport_to_wire, tee_to_wire,
}

-- The operations of the two crates that the grant code calls.
pub record Crypto : Type 0 where
  -- `Sha256::digest`
  pub sha256 : Bytes → Bytes
  -- `SigningKey::from_bytes(seed).verifying_key().to_bytes()`
  pub public_key : Bytes → Bytes
  -- `SigningKey::from_bytes(seed).sign(message).to_bytes()`
  pub sign : Bytes → Bytes → Bytes
  -- `VerifyingKey::from_bytes(public_key).is_ok()`
  pub is_public_key : Bytes → Bool
  pub is_weak : Bytes → Bool
  pub verify_strict : Bytes → Bytes → Bytes → Bool
  -- `Signature::from_slice(bytes).is_ok()`
  pub is_signature : Bytes → Bool

-- What the crates document: the lengths of digests, keys and signatures, and that the signature of
-- a key over a message verifies under its public key.
pub record IsCrypto (c : Crypto) : Type 0 where
  pub digest_len : (m : Bytes) → length (c.sha256 m) ≡ 32
  pub signature_len : (seed m : Bytes) → length (c.sign seed m) ≡ 64
  pub signature_parses : (s : Bytes) → length s ≡ 64 → c.is_signature s ≡ true
  pub signature_verifies :
      (seed m : Bytes) → c.verify_strict (c.public_key seed) m (c.sign seed m) ≡ true

abbrev pub magic : Bytes
magic = codes "NWG2"

abbrev pub legacy_magic : Bytes
legacy_magic = codes "NWG1"

abbrev pub key_id_offset : ℕ
key_id_offset = 4

abbrev pub issued_at_offset : ℕ
issued_at_offset = key_id_offset + 32

abbrev pub expires_at_offset : ℕ
expires_at_offset = issued_at_offset + 8

abbrev pub nonce_offset : ℕ
nonce_offset = expires_at_offset + 8

abbrev pub role_offset : ℕ
role_offset = nonce_offset + 32

abbrev pub transport_offset : ℕ
transport_offset = role_offset + 1

abbrev pub tee_offset : ℕ
tee_offset = transport_offset + 1

abbrev pub realm_len_offset : ℕ
realm_len_offset = tee_offset + 1

abbrev pub node_id_len_offset : ℕ
node_id_len_offset = realm_len_offset + 2

abbrev pub identifiers_offset : ℕ
identifiers_offset = node_id_len_offset + 2

abbrev pub min_token_len : ℕ
min_token_len = identifiers_offset + 2 + 48 + 32 + 5 + 7 + 64

-- `Grant` of crates/nil-core/src/lib.rs
pub record Grant : Type 0 where
  pub token : Bytes
  pub nonce : Bytes

-- `Ipv4Addr::octets`
abbrev pub octets : Ipv4Addr → Bytes
octets ip = ip.a ∷ ip.b ∷ ip.c ∷ ip.d ∷ []

abbrev pub previous_hop_wire : Option Ipv4Addr → Bytes
previous_hop_wire none = replicate 5 0
previous_hop_wire (some ip) = 1 ∷ octets ip

abbrev pub next_hop_wire : Option SocketAddr → Bytes
next_hop_wire none = replicate 7 0
next_hop_wire (some endpoint) = 1 ∷ (octets endpoint.ip ++ to_be_bytes 2 endpoint.port)

module _ (c : Crypto) where
  -- `key_id_for_public_key`
  unfoldable pub key_id_for_public_key : Bytes → Bytes
  key_id_for_public_key public_key = c.sha256 (codes "nilvpn.nwg2.key-id" ++ public_key)

  -- What `mint` appends to its token before it signs, in order.
  abbrev pub payload_chunks : Bytes → Audience → Bytes → ℕ → ℕ → List Bytes
  payload_chunks seed audience nonce now expires_at =
      magic
      ∷ key_id_for_public_key (c.public_key seed)
      ∷ to_be_bytes 8 now
      ∷ to_be_bytes 8 expires_at
      ∷ nonce
      ∷ (role_to_wire audience.role ∷ [])
      ∷ (transport_to_wire audience.transport ∷ [])
      ∷ (tee_to_wire audience.tee ∷ [])
      ∷ to_be_bytes 2 (length audience.realm)
      ∷ to_be_bytes 2 (length audience.node_id)
      ∷ audience.realm
      ∷ audience.node_id
      ∷ audience.measurement
      ∷ audience.tls_spki_sha256
      ∷ previous_hop_wire audience.previous_hop
      ∷ next_hop_wire audience.next_hop
      ∷ []

  -- `mint`; the lifetime is a `Duration`, seconds and nanoseconds. The lengths of identifiers that
  -- passed their check fit `u16` and `usize`, so those conversions are not written out.
  unfoldable pub mint : Bytes → Audience → Bytes → ℕ → ℕ → ℕ → Result Grant GrantError
  mint seed audience nonce ttl_secs subsec_nanos now = do
    validate_named_identifier "grant realm" audience.realm
    validate_named_identifier "grant node_id" audience.node_id
    guard (subsec_nanos == 0 && leb 1 ttl_secs && leb ttl_secs max_grant_ttl_secs) invalid_ttl
    guard (leb (now + ttl_secs) u64_max) time_overflow
    let payload = concat (payload_chunks seed audience nonce now (now + ttl_secs))
    ok (record { token = payload ++ c.sign seed payload; nonce = nonce })
