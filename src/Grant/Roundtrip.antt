-- ===== src/Grant/Roundtrip.antt =====
-- `parse` reads back what `mint` writes (crates/nil-core/src/grant.rs).
mod Fields
mod Layout
pub use Fields.{WellSized}
use mathlib.Core.List.{append-nil}
use nil.Prelude.{
  ℕ, suc, ◌+◌, ◌-◌, ◌≤◌, ◌<◌, ◌≡◌, refl, sym, ◌∙◌, ap, Bool, true, false, ◌&&◌, Option, none, some,
  List, [], ◌∷◌, ◌++◌, Bytes, length, take, arith, length-append, take-append_at, u64_max, ok,
  bytes_beq_refl, le→leb, leb, ltb, ◌==◌, ==_iff,
}
use nil.Prelude.Words.{to_be_bytes, from_be_bytes, length-to_be_bytes, from_be_bytes-to_be_bytes}
use nil.Prelude.Slices.{concat, concat-append, length-concat, get_range}
use nil.Grant.{
  Audience, NodeIdentity, Ipv4Addr, SocketAddr, new_audience, validate_named_identifier,
  role_to_wire, transport_to_wire, tee_to_wire,
}
use nil.Grant.Wire.{
  Crypto, IsCrypto, Grant, mint, payload_chunks, key_id_for_public_key, previous_hop_wire,
  next_hop_wire, magic, legacy_magic, key_id_offset, issued_at_offset, expires_at_offset,
  nonce_offset, role_offset, transport_offset, tee_offset, realm_len_offset, node_id_len_offset,
  identifiers_offset,
}
use nil.Grant.Parse.{ParsedGrant, parse, starts_with}
use Fields
use Layout

-- What a successful `mint` has checked, and the token that it wrote.
pub mint_lem :
    (c : Crypto) (seed : Bytes) (audience : Audience) (nonce : Bytes) (ttl nanos now : ℕ)
    (g : Grant)
    → mint c seed audience nonce ttl nanos now ≡ ok g
    → let payload = concat (payload_chunks c seed audience nonce now (now + ttl)) in
      (g ≡ record { token = payload ++ c.sign seed payload; nonce = nonce })
      × (1 ≤ ttl)
      × (ttl ≤ 600)
      × (now + ttl ≤ u64_max)
unfolding mint
mint_lem c seed audience nonce ttl nanos now g h =
    (ground arith, ground arith, ground arith, ground arith)

module _ (c : Crypto) (laws : IsCrypto c) (seed : Bytes) (node : NodeIdentity)
    (previous : Option Ipv4Addr) (next : Option SocketAddr) (audience : Audience) (nonce : Bytes)
    (sized : WellSized audience nonce) (now expires : ℕ) where
  abbrev written : Bytes
  written = Layout.token c laws seed audience nonce sized now expires

  abbrev signature : Bytes
  signature = c.sign seed (concat (payload_chunks c seed audience nonce now expires))

  abbrev realm_end : ℕ
  realm_end = identifiers_offset + length audience.realm

  abbrev node_id_end : ℕ
  node_id_end = realm_end + length audience.node_id

  -- The parsed form of a token that `mint` wrote.
  abbrev minted : ParsedGrant
  minted =
      let payload = concat (payload_chunks c seed audience nonce now expires) in
      record {
        key_id = key_id_for_public_key c (c.public_key seed);
        issued_at = now;
        expires_at = expires;
        nonce = nonce;
        audience = audience;
        signed_payload = payload;
        signature = c.sign seed payload;
      }

  -- What `parse` meets when it reads a minted token.
  record Reads (t : Bytes) : Type 0 where
    is_current : starts_with t legacy_magic ≡ false
    has_magic : starts_with t magic ≡ true
    sized_at : length t ≡ node_id_end + 48 + 32 + 5 + 7 + 64
    at_key_id :
        get_range t key_id_offset (key_id_offset + 32)
        ≡ some (key_id_for_public_key c (c.public_key seed))
    at_issued_at : get_range t issued_at_offset (issued_at_offset + 8) ≡ some (to_be_bytes 8 now)
    at_expires_at :
        get_range t expires_at_offset (expires_at_offset + 8) ≡ some (to_be_bytes 8 expires)
    at_nonce : get_range t nonce_offset (nonce_offset + 32) ≡ some nonce
    at_role : get_range t role_offset (role_offset + 1) ≡ some (role_to_wire audience.role ∷ [])
    at_transport :
        get_range t transport_offset (transport_offset + 1)
        ≡ some (transport_to_wire audience.transport ∷ [])
    at_tee : get_range t tee_offset (tee_offset + 1) ≡ some (tee_to_wire audience.tee ∷ [])
    at_realm_len :
        get_range t realm_len_offset (realm_len_offset + 2)
        ≡ some (to_be_bytes 2 (length audience.realm))
    at_node_id_len :
        get_range t node_id_len_offset (node_id_len_offset + 2)
        ≡ some (to_be_bytes 2 (length audience.node_id))
    at_realm : get_range t identifiers_offset realm_end ≡ some audience.realm
    at_node_id : get_range t realm_end node_id_end ≡ some audience.node_id
    at_measurement : get_range t node_id_end (node_id_end + 48) ≡ some audience.measurement
    at_spki : get_range t (node_id_end + 48) (node_id_end + 48 + 32) ≡ some audience.tls_spki_sha256
    at_previous_hop :
        get_range t (node_id_end + 48 + 32) (node_id_end + 48 + 32 + 5)
        ≡ some (previous_hop_wire audience.previous_hop)
    at_next_hop :
        get_range t (node_id_end + 48 + 32 + 5) (node_id_end + 48 + 32 + 5 + 7)
        ≡ some (next_hop_wire audience.next_hop)
    at_signature : get_range t (node_id_end + 48 + 32 + 5 + 7) (length t) ≡ some signature
    at_payload :
        take (node_id_end + 48 + 32 + 5 + 7) t
        ≡ concat (payload_chunks c seed audience nonce now expires)

  written-Reads : Reads written
  written-Reads = record {
    is_current = refl;
    has_magic = refl;
    sized_at = Layout.token_len c laws seed audience nonce sized now expires;
    at_key_id = Layout.get_range-key_id c laws seed audience nonce sized now expires;
    at_issued_at = Layout.get_range-issued_at c laws seed audience nonce sized now expires;
    at_expires_at = Layout.get_range-expires_at c laws seed audience nonce sized now expires;
    at_nonce = Layout.get_range-nonce c laws seed audience nonce sized now expires;
    at_role = Layout.get_range-role c laws seed audience nonce sized now expires;
    at_transport = Layout.get_range-transport c laws seed audience nonce sized now expires;
    at_tee = Layout.get_range-tee c laws seed audience nonce sized now expires;
    at_realm_len = Layout.get_range-realm_len c laws seed audience nonce sized now expires;
    at_node_id_len = Layout.get_range-node_id_len c laws seed audience nonce sized now expires;
    at_realm = Layout.get_range-realm c laws seed audience nonce sized now expires;
    at_node_id = Layout.get_range-node_id c laws seed audience nonce sized now expires;
    at_measurement = Layout.get_range-measurement c laws seed audience nonce sized now expires;
    at_spki = Layout.get_range-spki c laws seed audience nonce sized now expires;
    at_previous_hop = Layout.get_range-previous_hop c laws seed audience nonce sized now expires;
    at_next_hop = Layout.get_range-next_hop c laws seed audience nonce sized now expires;
    at_signature = Layout.get_range-signature c laws seed audience nonce sized now expires;
    at_payload = Layout.take-payload c laws seed audience nonce sized now expires;
  }

  parse-written :
      (t : Bytes)
      → Reads t
      → new_audience audience.node audience.previous_hop audience.next_hop ≡ ok audience
      → now ≤ u64_max
      → expires ≤ u64_max
      → parse c t ≡ ok minted
  unfolding parse
  parse-written t r built fits fits' =
      let checked =
        Fields.new_audience_lem audience.node audience.previous_hop audience.next_hop audience
          built in
      let realm_ok = Fields.valid-inner "grant realm" audience.realm checked.1 in
      let node_ok = Fields.valid-inner "grant node_id" audience.node_id checked.2 in
      ground (
        arith,
        from_be_bytes-to_be_bytes 2 (length audience.realm) (omega arith),
        from_be_bytes-to_be_bytes 2 (length audience.node_id) (omega arith),
        from_be_bytes-to_be_bytes 8 now (omega arith),
        from_be_bytes-to_be_bytes 8 expires (omega arith),
        Fields.valid-is_utf8 "grant realm" audience.realm checked.1,
        Fields.valid-is_utf8 "grant node_id" audience.node_id checked.2,
        Fields.role_from_wire-role_to_wire audience.role,
        Fields.transport_from_wire-transport_to_wire audience.transport,
        Fields.tee_from_wire-tee_to_wire audience.tee,
        Fields.parse_previous_hop-wire audience.previous_hop,
        Fields.parse_next_hop-wire audience.next_hop
            (λ e at. (sized.port_fits e at, checked.3 e at)),
        laws.signature_parses signature (laws.signature_len seed _),
      )

  parse-minted :
      new_audience node previous next ≡ ok audience
      → now ≤ u64_max
      → expires ≤ u64_max
      → parse c written ≡ ok minted
  parse-minted built fits fits' =
      parse-written written written-Reads
        (let same = (Fields.new_audience_lem node previous next audience built).0 in
          rw
            (
              sym (ap (λ (a : Audience). a.node) same),
              sym (ap (λ (a : Audience). a.previous_hop) same),
              sym (ap (λ (a : Audience). a.next_hop) same),
            )
            at built)
        fits fits'

-- A token that `mint` writes for an audience that `GrantAudience::new` built parses, to the key
-- identifier of the signing key, the times, nonce and audience that it was minted with, the signed
-- bytes and their signature.
pub parse-mint :
    (c : Crypto) (laws : IsCrypto c) (seed : Bytes) (node : NodeIdentity)
    (previous : Option Ipv4Addr) (next : Option SocketAddr) (audience : Audience) (nonce : Bytes)
    (ttl nanos now : ℕ) (g : Grant)
    → WellSized audience nonce
    → new_audience node previous next ≡ ok audience
    → mint c seed audience nonce ttl nanos now ≡ ok g
    → let payload = concat (payload_chunks c seed audience nonce now (now + ttl)) in
      parse c g.token
      ≡ ok (record {
        key_id = key_id_for_public_key c (c.public_key seed);
        issued_at = now;
        expires_at = now + ttl;
        nonce = nonce;
        audience = audience;
        signed_payload = payload;
        signature = c.sign seed payload;
      })
parse-mint c laws seed node previous next audience nonce ttl nanos now g sized built made =
    let (at, _, _, fits) = mint_lem c seed audience nonce ttl nanos now g made in
    let chunks = payload_chunks c seed audience nonce now (now + ttl) in
    let payload = concat chunks in
    let flat : concat (chunks ++ c.sign seed payload ∷ []) ≡ payload ++ c.sign seed payload =
      concat-append chunks (c.sign seed payload ∷ [])
      ∙ ap (λ (s : Bytes). payload ++ s) (append-nil (c.sign seed payload)) in
    rw (at, ← flat)
      (parse-minted c laws seed node previous next audience nonce sized now (now + ttl) built
        (omega arith) fits)
