-- ===== src/Grant/Parse.antt =====
-- `parse` of crates/nil-core/src/grant.rs. Offsets cannot overflow `usize`: two identifiers of at
-- most 64 bytes are added to constants, so the checked additions are plain ones.
use nil.Prelude.{
  ℕ, ◌+◌, ◌-◌, Bool, true, false, ◌&&◌, Option, none, some, [], ◌∷◌, Bytes, length, take, leb, ◌==◌,
  Result, ok, err, ◌>>=◌, ◌>>◌, guard, ok_or, bytes_beq, if◌then◌else◌,
}
use nil.Prelude.Words.{from_be_bytes}
use nil.Prelude.Slices.{get_range}
use nil.Prelude.Utf8.{is_utf8}
use nil.Grant.{
  Audience, Ipv4Addr, SocketAddr, GrantError, legacy_grant_rejected, malformed, unsupported_version,
  max_grant_identifier_len, role_from_wire, transport_from_wire, tee_from_wire, new_audience,
}
use nil.Grant.Wire.{
  Crypto, magic, legacy_magic, key_id_offset, issued_at_offset, expires_at_offset, nonce_offset,
  role_offset, transport_offset, tee_offset, realm_len_offset, node_id_len_offset,
  identifiers_offset, min_token_len,
}

-- `token.get(from..to).ok_or(Malformed)`
abbrev pub read : Bytes → ℕ → ℕ → Result Bytes GrantError
read token from to = ok_or (get_range token from to) malformed

-- `read_u16` and `read_u64`, by the number of bytes
abbrev pub read_be : ℕ → Bytes → ℕ → Result ℕ GrantError
read_be width token offset = do bytes ← read token offset (offset + width); ok (from_be_bytes bytes)

abbrev pub first : Bytes → Option ℕ
first [] = none
first (b ∷ bs) = some b

-- `map_err(|_| Malformed)`
abbrev pub or_malformed : {A : Type 0} → Result A GrantError → Result A GrantError
or_malformed (ok a) = ok a
or_malformed (err e) = err malformed

-- `token.get(offset)`, mapped by `from_wire`
abbrev pub read_tag : {A : Type 0} → (ℕ → Option A) → Bytes → ℕ → Result A GrantError
read_tag from_wire token offset = do
  bytes ← read token offset (offset + 1)
  tag ← ok_or (first bytes) malformed
  ok_or (from_wire tag) malformed

-- `std::str::from_utf8`
abbrev pub read_str : Bytes → ℕ → ℕ → Result Bytes GrantError
read_str token from to = do bytes ← read token from to; guard (is_utf8 bytes) malformed; ok bytes

-- The predecessor field: five zero bytes, or 1 and an address.
abbrev pub parse_previous_hop : Bytes → Result (Option Ipv4Addr) GrantError
parse_previous_hop (tag ∷ a ∷ b ∷ c ∷ d ∷ []) =
    if tag == 0 && a == 0 && b == 0 && c == 0 && d == 0
    then ok none
    else if tag == 1
    then ok (some (record { a = a; b = b; c = c; d = d }))
    else err malformed
parse_previous_hop _ = err malformed

-- The next-hop field: seven zero bytes, or 1, an address and a port that is not 0.
abbrev pub parse_next_hop : Bytes → Result (Option SocketAddr) GrantError
parse_next_hop (tag ∷ a ∷ b ∷ c ∷ d ∷ hi ∷ lo ∷ []) =
    if tag == 0 && a == 0 && b == 0 && c == 0 && d == 0 && hi == 0 && lo == 0
    then ok none
    else if tag == 1
    then (do
      let port = from_be_bytes (hi ∷ lo ∷ [])
      guard (if port == 0 then false else true) malformed
      ok (some (record { ip = record { a = a; b = b; c = c; d = d }; port = port })))
    else err malformed
parse_next_hop _ = err malformed

-- `ParsedGrant`
pub record ParsedGrant : Type 0 where
  pub key_id : Bytes
  pub issued_at : ℕ
  pub expires_at : ℕ
  pub nonce : Bytes
  pub audience : Audience
  pub signed_payload : Bytes
  pub signature : Bytes

-- `starts_with`
abbrev pub starts_with : Bytes → Bytes → Bool
starts_with token prefix = bytes_beq (take (length prefix) token) prefix

module _ (crypto : Crypto) where
  -- The fields behind the lengths, which end at `signature_offset`.
  abbrev pub parse_fields : Bytes → ℕ → ℕ → ℕ → Result ParsedGrant GrantError
  parse_fields token signature_offset realm_end node_id_end = do
    realm ← read_str token identifiers_offset realm_end
    node_id ← read_str token realm_end node_id_end
    role ← read_tag role_from_wire token role_offset
    transport ← read_tag transport_from_wire token transport_offset
    tee ← read_tag tee_from_wire token tee_offset
    measurement ← read token node_id_end (node_id_end + 48)
    spki ← read token (node_id_end + 48) (node_id_end + 48 + 32)
    previous_wire ← read token (node_id_end + 48 + 32) (node_id_end + 48 + 32 + 5)
    previous_hop ← parse_previous_hop previous_wire
    next_wire ← read token (node_id_end + 48 + 32 + 5) (node_id_end + 48 + 32 + 5 + 7)
    next_hop ← parse_next_hop next_wire
    audience ← or_malformed (
        new_audience
          (record {
            realm = realm;
            node_id = node_id;
            role = role;
            transport = transport;
            tee = tee;
            measurement = measurement;
            tls_spki_sha256 = spki;
          })
          previous_hop next_hop)
    signature ← read token signature_offset (length token)
    guard (crypto.is_signature signature) malformed
    key_id ← read token key_id_offset (key_id_offset + 32)
    issued_at ← read_be 8 token issued_at_offset
    expires_at ← read_be 8 token expires_at_offset
    nonce ← read token nonce_offset (nonce_offset + 32)
    ok (record {
      key_id = key_id;
      issued_at = issued_at;
      expires_at = expires_at;
      nonce = nonce;
      audience = audience;
      signed_payload = take signature_offset token;
      signature = signature;
    })

  -- `parse`
  unfoldable pub parse : Bytes → Result ParsedGrant GrantError
  parse token = do
    guard (if starts_with token legacy_magic then false else true) legacy_grant_rejected
    guard (leb min_token_len (length token)) malformed
    guard (starts_with token magic) unsupported_version
    let signature_offset = length token - 64
    realm_len ← read_be 2 token realm_len_offset
    node_id_len ← read_be 2 token node_id_len_offset
    guard (leb 1 realm_len && leb realm_len max_grant_identifier_len) malformed
    guard (leb 1 node_id_len && leb node_id_len max_grant_identifier_len) malformed
    let realm_end = identifiers_offset + realm_len
    let node_id_end = realm_end + node_id_len
    guard (node_id_end + 48 + 32 + 5 + 7 == signature_offset) malformed
    parse_fields token signature_offset realm_end node_id_end
