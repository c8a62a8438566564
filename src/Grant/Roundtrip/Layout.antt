-- ===== src/Grant/Roundtrip/Layout.antt =====
-- Where the fields of a minted token stand (crates/nil-core/src/grant.rs).
use nil.Prelude.{ℕ, ◌+◌, ◌≡◌, some, List, [], ◌∷◌, ◌++◌, Bytes, length, take, arith, take-append_at}
use nil.Prelude.Words.{to_be_bytes, length-to_be_bytes}
use nil.Prelude.Slices.{get_range, concat, length-concat, get_range-concat, concat-append}
use nil.Grant.{Audience, role_to_wire, transport_to_wire, tee_to_wire}
use nil.Grant.Wire.{
  Crypto, IsCrypto, payload_chunks, key_id_for_public_key, previous_hop_wire, next_hop_wire, magic,
  key_id_offset, issued_at_offset, expires_at_offset, nonce_offset, role_offset, transport_offset,
  tee_offset, realm_len_offset, node_id_len_offset, identifiers_offset,
}
use nil.Grant.Roundtrip.Fields.{WellSized, length-previous_hop_wire, length-next_hop_wire}

module _ (c : Crypto) (laws : IsCrypto c) (seed : Bytes) (audience : Audience) (nonce : Bytes)
    (sized : WellSized audience nonce) (now expires : ℕ) where
  abbrev signature : Bytes
  signature = c.sign seed (concat (payload_chunks c seed audience nonce now expires))

  -- The signed chunks and the signature.
  abbrev chunks : List Bytes
  chunks = payload_chunks c seed audience nonce now expires ++ signature ∷ []

  abbrev pub token : Bytes
  token = concat chunks

  abbrev pub realm_end : ℕ
  realm_end = identifiers_offset + length audience.realm

  abbrev pub node_id_end : ℕ
  node_id_end = realm_end + length audience.node_id

  kid_len : length (key_id_for_public_key c (c.public_key seed)) ≡ 32
  unfolding key_id_for_public_key
  kid_len = laws.digest_len _

  signature_len : length signature ≡ 64
  signature_len = laws.signature_len seed _

  -- The widths of the chunks but the identifiers.
  widths :
      (length (key_id_for_public_key c (c.public_key seed)) ≡ 32)
      × (length (to_be_bytes 8 now) ≡ 8)
      × (length (to_be_bytes 8 expires) ≡ 8)
      × (length nonce ≡ 32)
      × (length (to_be_bytes 2 (length audience.realm)) ≡ 2)
      × (length (to_be_bytes 2 (length audience.node_id)) ≡ 2)
      × (length audience.measurement ≡ 48)
      × (length audience.tls_spki_sha256 ≡ 32)
      × (length (previous_hop_wire audience.previous_hop) ≡ 5)
      × (length (next_hop_wire audience.next_hop) ≡ 7)
      × (length signature ≡ 64)
  widths = (
    kid_len,
    length-to_be_bytes 8 now,
    length-to_be_bytes 8 expires,
    sized.nonce_len,
    length-to_be_bytes 2 (length audience.realm),
    length-to_be_bytes 2 (length audience.node_id),
    sized.measurement_len,
    sized.spki_len,
    length-previous_hop_wire audience.previous_hop,
    length-next_hop_wire audience.next_hop,
    signature_len,
  )

  pub get_range-key_id :
      get_range token key_id_offset (key_id_offset + 32)
      ≡ some (key_id_for_public_key c (c.public_key seed))
  get_range-key_id =
      get_range-concat (magic ∷ []) (key_id_for_public_key c (c.public_key seed))
        (to_be_bytes 8 now
          ∷ to_be_bytes 8 expires
          ∷ nonce
          ∷ (role_to_wire audience.role ∷ [])
          ∷ (transport_to_wire audience.transport ∷ [])
          ∷ (tee_to_wire audience.tee ∷ [])
          ∷ to_be_bytes 2 (length audience.realm)
          ∷ to_be_bytes 2 (length audience.node_id)
          ∷ audience.realm
          ∷ audience.node_id
          ∷ audience.measurement
          ∷ audience.tls_spki_sha256
          ∷ previous_hop_wire audience.previous_hop
          ∷ next_hop_wire audience.next_hop
          ∷ signature
          ∷ [])
        _ _ (omega (arith, widths)) (omega (arith, widths))

  pub get_range-issued_at :
      get_range token issued_at_offset (issued_at_offset + 8) ≡ some (to_be_bytes 8 now)
  get_range-issued_at =
      get_range-concat (magic ∷ key_id_for_public_key c (c.public_key seed) ∷ [])
        (to_be_bytes 8 now)
        (to_be_bytes 8 expires
          ∷ nonce
          ∷ (role_to_wire audience.role ∷ [])
          ∷ (transport_to_wire audience.transport ∷ [])
          ∷ (tee_to_wire audience.tee ∷ [])
          ∷ to_be_bytes 2 (length audience.realm)
          ∷ to_be_bytes 2 (length audience.node_id)
          ∷ audience.realm
          ∷ audience.node_id
          ∷ audience.measurement
          ∷ audience.tls_spki_sha256
          ∷ previous_hop_wire audience.previous_hop
          ∷ next_hop_wire audience.next_hop
          ∷ signature
          ∷ [])
        _ _ (omega (arith, widths)) (omega (arith, widths))

  pub get_range-expires_at :
      get_range token expires_at_offset (expires_at_offset + 8) ≡ some (to_be_bytes 8 expires)
  get_range-expires_at =
      get_range-concat
        (magic ∷ key_id_for_public_key c (c.public_key seed) ∷ to_be_bytes 8 now ∷ [])
        (to_be_bytes 8 expires)
        (nonce
          ∷ (role_to_wire audience.role ∷ [])
          ∷ (transport_to_wire audience.transport ∷ [])
          ∷ (tee_to_wire audience.tee ∷ [])
          ∷ to_be_bytes 2 (length audience.realm)
          ∷ to_be_bytes 2 (length audience.node_id)
          ∷ audience.realm
          ∷ audience.node_id
          ∷ audience.measurement
          ∷ audience.tls_spki_sha256
          ∷ previous_hop_wire audience.previous_hop
          ∷ next_hop_wire audience.next_hop
          ∷ signature
          ∷ [])
        _ _ (omega (arith, widths)) (omega (arith, widths))

  pub get_range-nonce : get_range token nonce_offset (nonce_offset + 32) ≡ some nonce
  get_range-nonce =
      get_range-concat
        (magic
          ∷ key_id_for_public_key c (c.public_key seed)
          ∷ to_be_bytes 8 now
          ∷ to_be_bytes 8 expires
          ∷ [])
        nonce
        ((role_to_wire audience.role ∷ [])
          ∷ (transport_to_wire audience.transport ∷ [])
          ∷ (tee_to_wire audience.tee ∷ [])
          ∷ to_be_bytes 2 (length audience.realm)
          ∷ to_be_bytes 2 (length audience.node_id)
          ∷ audience.realm
          ∷ audience.node_id
          ∷ audience.measurement
          ∷ audience.tls_spki_sha256
          ∷ previous_hop_wire audience.previous_hop
          ∷ next_hop_wire audience.next_hop
          ∷ signature
          ∷ [])
        _ _ (omega (arith, widths)) (omega (arith, widths))

  pub get_range-role :
      get_range token role_offset (role_offset + 1) ≡ some (role_to_wire audience.role ∷ [])
  get_range-role =
      get_range-concat
        (magic
          ∷ key_id_for_public_key c (c.public_key seed)
          ∷ to_be_bytes 8 now
          ∷ to_be_bytes 8 expires
          ∷ nonce
          ∷ [])
        (role_to_wire audience.role ∷ [])
        ((transport_to_wire audience.transport ∷ [])
          ∷ (tee_to_wire audience.tee ∷ [])
          ∷ to_be_bytes 2 (length audience.realm)
          ∷ to_be_bytes 2 (length audience.node_id)
          ∷ audience.realm
          ∷ audience.node_id
          ∷ audience.measurement
          ∷ audience.tls_spki_sha256
          ∷ previous_hop_wire audience.previous_hop
          ∷ next_hop_wire audience.next_hop
          ∷ signature
          ∷ [])
        _ _ (omega (arith, widths)) (omega (arith, widths))

  pub get_range-transport :
      get_range token transport_offset (transport_offset + 1)
      ≡ some (transport_to_wire audience.transport ∷ [])
  get_range-transport =
      get_range-concat
        (magic
          ∷ key_id_for_public_key c (c.public_key seed)
          ∷ to_be_bytes 8 now
          ∷ to_be_bytes 8 expires
          ∷ nonce
          ∷ (role_to_wire audience.role ∷ [])
          ∷ [])
        (transport_to_wire audience.transport ∷ [])
        ((tee_to_wire audience.tee ∷ [])
          ∷ to_be_bytes 2 (length audience.realm)
          ∷ to_be_bytes 2 (length audience.node_id)
          ∷ audience.realm
          ∷ audience.node_id
          ∷ audience.measurement
          ∷ audience.tls_spki_sha256
          ∷ previous_hop_wire audience.previous_hop
          ∷ next_hop_wire audience.next_hop
          ∷ signature
          ∷ [])
        _ _ (omega (arith, widths)) (omega (arith, widths))

  pub get_range-tee :
      get_range token tee_offset (tee_offset + 1) ≡ some (tee_to_wire audience.tee ∷ [])
  get_range-tee =
      get_range-concat
        (magic
          ∷ key_id_for_public_key c (c.public_key seed)
          ∷ to_be_bytes 8 now
          ∷ to_be_bytes 8 expires
          ∷ nonce
          ∷ (role_to_wire audience.role ∷ [])
          ∷ (transport_to_wire audience.transport ∷ [])
          ∷ [])
        (tee_to_wire audience.tee ∷ [])
        (to_be_bytes 2 (length audience.realm)
          ∷ to_be_bytes 2 (length audience.node_id)
          ∷ audience.realm
          ∷ audience.node_id
          ∷ audience.measurement
          ∷ audience.tls_spki_sha256
          ∷ previous_hop_wire audience.previous_hop
          ∷ next_hop_wire audience.next_hop
          ∷ signature
          ∷ [])
        _ _ (omega (arith, widths)) (omega (arith, widths))

  pub get_range-realm_len :
      get_range token realm_len_offset (realm_len_offset + 2)
      ≡ some (to_be_bytes 2 (length audience.realm))
  get_range-realm_len =
      get_range-concat
        (magic
          ∷ key_id_for_public_key c (c.public_key seed)
          ∷ to_be_bytes 8 now
          ∷ to_be_bytes 8 expires
          ∷ nonce
          ∷ (role_to_wire audience.role ∷ [])
          ∷ (transport_to_wire audience.transport ∷ [])
          ∷ (tee_to_wire audience.tee ∷ [])
          ∷ [])
        (to_be_bytes 2 (length audience.realm))
        (to_be_bytes 2 (length audience.node_id)
          ∷ audience.realm
          ∷ audience.node_id
          ∷ audience.measurement
          ∷ audience.tls_spki_sha256
          ∷ previous_hop_wire audience.previous_hop
          ∷ next_hop_wire audience.next_hop
          ∷ signature
          ∷ [])
        _ _ (omega (arith, widths)) (omega (arith, widths))

  pub get_range-node_id_len :
      get_range token node_id_len_offset (node_id_len_offset + 2)
      ≡ some (to_be_bytes 2 (length audience.node_id))
  get_range-node_id_len =
      get_range-concat
        (magic
          ∷ key_id_for_public_key c (c.public_key seed)
          ∷ to_be_bytes 8 now
          ∷ to_be_bytes 8 expires
          ∷ nonce
          ∷ (role_to_wire audience.role ∷ [])
          ∷ (transport_to_wire audience.transport ∷ [])
          ∷ (tee_to_wire audience.tee ∷ [])
          ∷ to_be_bytes 2 (length audience.realm)
          ∷ [])
        (to_be_bytes 2 (length audience.node_id))
        (audience.realm
          ∷ audience.node_id
          ∷ audience.measurement
          ∷ audience.tls_spki_sha256
          ∷ previous_hop_wire audience.previous_hop
          ∷ next_hop_wire audience.next_hop
          ∷ signature
          ∷ [])
        _ _ (omega (arith, widths)) (omega (arith, widths))

  pub get_range-realm : get_range token identifiers_offset realm_end ≡ some audience.realm
  get_range-realm =
      get_range-concat
        (magic
          ∷ key_id_for_public_key c (c.public_key seed)
          ∷ to_be_bytes 8 now
          ∷ to_be_bytes 8 expires
          ∷ nonce
          ∷ (role_to_wire audience.role ∷ [])
          ∷ (transport_to_wire audience.transport ∷ [])
          ∷ (tee_to_wire audience.tee ∷ [])
          ∷ to_be_bytes 2 (length audience.realm)
          ∷ to_be_bytes 2 (length audience.node_id)
          ∷ [])
        audience.realm
        (audience.node_id
          ∷ audience.measurement
          ∷ audience.tls_spki_sha256
          ∷ previous_hop_wire audience.previous_hop
          ∷ next_hop_wire audience.next_hop
          ∷ signature
          ∷ [])
        _ _ (omega (arith, widths)) (omega (arith, widths))

  pub get_range-node_id : get_range token realm_end node_id_end ≡ some audience.node_id
  get_range-node_id =
      get_range-concat
        (magic
          ∷ key_id_for_public_key c (c.public_key seed)
          ∷ to_be_bytes 8 now
          ∷ to_be_bytes 8 expires
          ∷ nonce
          ∷ (role_to_wire audience.role ∷ [])
          ∷ (transport_to_wire audience.transport ∷ [])
          ∷ (tee_to_wire audience.tee ∷ [])
          ∷ to_be_bytes 2 (length audience.realm)
          ∷ to_be_bytes 2 (length audience.node_id)
          ∷ audience.realm
          ∷ [])
        audience.node_id
        (audience.measurement
          ∷ audience.tls_spki_sha256
          ∷ previous_hop_wire audience.previous_hop
          ∷ next_hop_wire audience.next_hop
          ∷ signature
          ∷ [])
        _ _ (omega (arith, widths)) (omega (arith, widths))

  pub get_range-measurement :
      get_range token node_id_end (node_id_end + 48) ≡ some audience.measurement
  get_range-measurement =
      get_range-concat
        (magic
          ∷ key_id_for_public_key c (c.public_key seed)
          ∷ to_be_bytes 8 now
          ∷ to_be_bytes 8 expires
          ∷ nonce
          ∷ (role_to_wire audience.role ∷ [])
          ∷ (transport_to_wire audience.transport ∷ [])
          ∷ (tee_to_wire audience.tee ∷ [])
          ∷ to_be_bytes 2 (length audience.realm)
          ∷ to_be_bytes 2 (length audience.node_id)
          ∷ audience.realm
          ∷ audience.node_id
          ∷ [])
        audience.measurement
        (audience.tls_spki_sha256
          ∷ previous_hop_wire audience.previous_hop
          ∷ next_hop_wire audience.next_hop
          ∷ signature
          ∷ [])
        _ _ (omega (arith, widths)) (omega (arith, widths))

  pub get_range-spki :
      get_range token (node_id_end + 48) (node_id_end + 48 + 32) ≡ some audience.tls_spki_sha256
  get_range-spki =
      get_range-concat
        (magic
          ∷ key_id_for_public_key c (c.public_key seed)
          ∷ to_be_bytes 8 now
          ∷ to_be_bytes 8 expires
          ∷ nonce
          ∷ (role_to_wire audience.role ∷ [])
          ∷ (transport_to_wire audience.transport ∷ [])
          ∷ (tee_to_wire audience.tee ∷ [])
          ∷ to_be_bytes 2 (length audience.realm)
          ∷ to_be_bytes 2 (length audience.node_id)
          ∷ audience.realm
          ∷ audience.node_id
          ∷ audience.measurement
          ∷ [])
        audience.tls_spki_sha256
        (previous_hop_wire audience.previous_hop ∷ next_hop_wire audience.next_hop ∷ signature ∷ [])
        _ _ (omega (arith, widths)) (omega (arith, widths))

  pub get_range-previous_hop :
      get_range token (node_id_end + 48 + 32) (node_id_end + 48 + 32 + 5)
      ≡ some (previous_hop_wire audience.previous_hop)
  get_range-previous_hop =
      get_range-concat
        (magic
          ∷ key_id_for_public_key c (c.public_key seed)
          ∷ to_be_bytes 8 now
          ∷ to_be_bytes 8 expires
          ∷ nonce
          ∷ (role_to_wire audience.role ∷ [])
          ∷ (transport_to_wire audience.transport ∷ [])
          ∷ (tee_to_wire audience.tee ∷ [])
          ∷ to_be_bytes 2 (length audience.realm)
          ∷ to_be_bytes 2 (length audience.node_id)
          ∷ audience.realm
          ∷ audience.node_id
          ∷ audience.measurement
          ∷ audience.tls_spki_sha256
          ∷ [])
        (previous_hop_wire audience.previous_hop) (next_hop_wire audience.next_hop ∷ signature ∷ [])
        _ _ (omega (arith, widths)) (omega (arith, widths))

  pub get_range-next_hop :
      get_range token (node_id_end + 48 + 32 + 5) (node_id_end + 48 + 32 + 5 + 7)
      ≡ some (next_hop_wire audience.next_hop)
  get_range-next_hop =
      get_range-concat
        (magic
          ∷ key_id_for_public_key c (c.public_key seed)
          ∷ to_be_bytes 8 now
          ∷ to_be_bytes 8 expires
          ∷ nonce
          ∷ (role_to_wire audience.role ∷ [])
          ∷ (transport_to_wire audience.transport ∷ [])
          ∷ (tee_to_wire audience.tee ∷ [])
          ∷ to_be_bytes 2 (length audience.realm)
          ∷ to_be_bytes 2 (length audience.node_id)
          ∷ audience.realm
          ∷ audience.node_id
          ∷ audience.measurement
          ∷ audience.tls_spki_sha256
          ∷ previous_hop_wire audience.previous_hop
          ∷ [])
        (next_hop_wire audience.next_hop) (signature ∷ []) _ _ (omega (arith, widths))
        (omega (arith, widths))

  pub token_len : length token ≡ node_id_end + 48 + 32 + 5 + 7 + 64
  token_len = omega (arith, length-concat chunks, widths)

  pub get_range-signature :
      get_range token (node_id_end + 48 + 32 + 5 + 7) (length token) ≡ some signature
  get_range-signature =
      get_range-concat
        (magic
          ∷ key_id_for_public_key c (c.public_key seed)
          ∷ to_be_bytes 8 now
          ∷ to_be_bytes 8 expires
          ∷ nonce
          ∷ (role_to_wire audience.role ∷ [])
          ∷ (transport_to_wire audience.transport ∷ [])
          ∷ (tee_to_wire audience.tee ∷ [])
          ∷ to_be_bytes 2 (length audience.realm)
          ∷ to_be_bytes 2 (length audience.node_id)
          ∷ audience.realm
          ∷ audience.node_id
          ∷ audience.measurement
          ∷ audience.tls_spki_sha256
          ∷ previous_hop_wire audience.previous_hop
          ∷ next_hop_wire audience.next_hop
          ∷ [])
        signature ([]) _ _ (omega (arith, widths)) (omega (arith, widths, token_len))

  pub take-payload :
      take (node_id_end + 48 + 32 + 5 + 7) token
      ≡ concat (payload_chunks c seed audience nonce now expires)
  take-payload =
      let payload = payload_chunks c seed audience nonce now expires in
      rw (concat-append payload (signature ∷ [])) (
        take-append_at (concat payload) (signature ++ [])
          (omega (arith, length-concat payload, widths)))
