-- ===== src/Grant/Canonical.antt =====
-- A token that `parse` accepts is the one that its fields are written as
-- (crates/nil-core/src/grant.rs).
pub mod Fields
pub mod Layout
use nil.Prelude.{
  ℕ, ◌+◌, ◌-◌, ◌≤◌, ◌≡◌, refl, sym, ap, ◌∙◌, Bool, true, false, ◌&&◌, Option, none, some, List, [],
  ◌∷◌, ◌++◌, Bytes, length, take, take-length, Result, ok, err, guard, leb, ◌==◌, ==_iff,
  if◌then◌else◌, >>=-eq-ok, arith, ◌>>=◌, ◌>>◌, bytes_beq, bytes_beq_iff,
}
use nil.Prelude.Words.{is_bytes, to_be_bytes}
use nil.Prelude.Slices.{get_range, concat}
use nil.Prelude.Cuts.{length-get_range, all-get_range, take-get_range, Tiled, parts_of, take-Tiled}
use nil.Grant.{
  GrantError, NodeIdentity, GrantRole, GrantTransport, Tee, Ipv4Addr, SocketAddr, malformed,
  legacy_grant_rejected, unsupported_version, Audience, role_to_wire, role_from_wire,
  transport_to_wire, transport_from_wire, tee_to_wire, tee_from_wire, new_audience,
  max_grant_identifier_len,
}
use nil.Grant.Wire.{
  Crypto, magic, legacy_magic, key_id_offset, issued_at_offset, expires_at_offset, nonce_offset,
  role_offset, transport_offset, tee_offset, realm_len_offset, node_id_len_offset,
  identifiers_offset, min_token_len, previous_hop_wire, next_hop_wire,
}
use nil.Grant.Parse.{
  ParsedGrant, parse, parse_fields, read, read_be, read_str, read_tag, or_malformed,
  parse_previous_hop, parse_next_hop, starts_with,
}
use nil.Grant.Verifier.{VerifiedGrant, into_verified}
use nil.Grant.Canonical.Layout.{signed_bytes, IsLaidOut, IsLaidOut-Tiled, Tiled-canonical}
use nil.Grant.Canonical.Fields.{
  read-get_range, read_str-get_range, role-get_range, transport-get_range, tee-get_range,
  read_be-get_range, parse_previous_hop-wire, parse_next_hop-wire, new_audience-eq-ok,
}

ok-injective : {A : Type 0} {a b : A} → ◌≡◌ {A = Result A GrantError} (ok a) (ok b) → a ≡ b
ok-injective h = ground arith

-- A successful step, with its value as a variable
with_step :
    {A B P : Type 0} (step : Result A GrantError) (next : A → Result B GrantError) {out : B}
    → (step >>= next) ≡ ok out
    → ((value : A) → step ≡ ok value → next value ≡ ok out → P)
    → P
with_step step next done use_it =
    let (value, made, rest) = >>=-eq-ok step next done in use_it value made rest

with_guard :
    {B P : Type 0} (test : Bool) (e : GrantError) (next : Result B GrantError) {out : B}
    → (guard test e >> next) ≡ ok out
    → (test ≡ true → next ≡ ok out → P)
    → P
with_guard true e next done use_it = use_it refl done
with_guard false e next done use_it = cc

module _ (c : Crypto) (token : Bytes) (octets : is_bytes token ≡ true) where
  reads-IsLaidOut :
      (so re ne : ℕ) (p : ParsedGrant)
      {realm node_id measurement spki previous_wire next_wire signature key_id nonce : Bytes}
      {role : GrantRole} {transport : GrantTransport} {tee : Tee} {previous : Option Ipv4Addr}
      {next : Option SocketAddr} {audience : Audience} {issued_at expires_at : ℕ}
      → read_str token 91 re ≡ ok realm
      → read_str token re ne ≡ ok node_id
      → read_tag role_from_wire token 84 ≡ ok role
      → read_tag transport_from_wire token 85 ≡ ok transport
      → read_tag tee_from_wire token 86 ≡ ok tee
      → read token ne (ne + 48) ≡ ok measurement
      → read token (ne + 48) (ne + 48 + 32) ≡ ok spki
      → read token (ne + 48 + 32) (ne + 48 + 32 + 5) ≡ ok previous_wire
      → parse_previous_hop previous_wire ≡ ok previous
      → read token (ne + 48 + 32 + 5) (ne + 48 + 32 + 5 + 7) ≡ ok next_wire
      → parse_next_hop next_wire ≡ ok next
      → audience ≡ record {
        node = record {
          realm = realm;
          node_id = node_id;
          role = role;
          transport = transport;
          tee = tee;
          measurement = measurement;
          tls_spki_sha256 = spki;
        };
        previous_hop = previous;
        next_hop = next;
      }
      → read token so (length token) ≡ ok signature
      → read token 4 36 ≡ ok key_id
      → read_be 8 token 36 ≡ ok issued_at
      → read_be 8 token 44 ≡ ok expires_at
      → read token 52 84 ≡ ok nonce
      → record {
        key_id = key_id;
        issued_at = issued_at;
        expires_at = expires_at;
        nonce = nonce;
        audience = audience;
        signed_payload = take so token;
        signature = signature;
      }
        ≡ p
      → IsLaidOut token so re ne p
  reads-IsLaidOut so re ne p {next_wire = next_wire} h1 h2 h3 h4 h5 h6 h7 h8 h9 h10 h11 h12 h13 h15
        h16 h17 h18 result =
      let wire = read-get_range token (ne + 48 + 32 + 5) (ne + 48 + 32 + 5 + 7) _ h10 in
      rw (← result, h12)
        (record {
          key_id = read-get_range token 4 36 _ h15;
          issued_at = read_be-get_range token 8 36 _ octets h16;
          expires_at = read_be-get_range token 8 44 _ octets h17;
          nonce = read-get_range token 52 84 _ h18;
          role = role-get_range token 84 _ h3;
          transport = transport-get_range token 85 _ h4;
          tee = tee-get_range token 86 _ h5;
          realm = read_str-get_range token 91 re _ h1;
          node_id = read_str-get_range token re ne _ h2;
          measurement = read-get_range token ne (ne + 48) _ h6;
          spki = read-get_range token (ne + 48) (ne + 48 + 32) _ h7;
          previous =
              read-get_range token (ne + 48 + 32) (ne + 48 + 32 + 5) _ h8
              ∙ ap some (parse_previous_hop-wire _ _ h9);
          next =
              wire
              ∙ ap some (
                  parse_next_hop-wire next_wire _ (all-get_range _ token next_wire _ _ wire octets)
                    h11);
          signature = read-get_range token so (length token) _ h13;
          payload = refl;
        })

  parse_fields-IsLaidOut :
      (signature_offset realm_end node_id_end : ℕ) (p : ParsedGrant)
      → parse_fields c token signature_offset realm_end node_id_end ≡ ok p
      → IsLaidOut token signature_offset realm_end node_id_end p
  parse_fields-IsLaidOut so re ne p h =
      with_step (read_str token identifiers_offset re) _ h λ realm h1 k1.
        with_step (read_str token re ne) _ k1 λ node_id h2 k2.
          with_step (read_tag role_from_wire token role_offset) _ k2 λ role h3 k3.
            with_step (read_tag transport_from_wire token transport_offset) _ k3 λ transport h4 k4.
              with_step (read_tag tee_from_wire token tee_offset) _ k4 λ tee h5 k5.
                with_step (read token ne (ne + 48)) _ k5 λ measurement h6 k6.
                  with_step (read token (ne + 48) (ne + 48 + 32)) _ k6 λ spki h7 k7.
                    with_step (read token (ne + 48 + 32) (ne + 48 + 32 + 5)) _ k7
                      λ previous_wire h8 k8.
                        with_step (parse_previous_hop previous_wire) _ k8 λ previous h9 k9.
                          with_step (read token (ne + 48 + 32 + 5) (ne + 48 + 32 + 5 + 7)) _ k9
                            λ next_wire h10 k10.
                              with_step (parse_next_hop next_wire) _ k10 λ next h11 k11.
                                with_step (or_malformed (new_audience _ previous next)) _ k11
                                  λ audience h12 k12.
                                    with_step (read token so (length token)) _ k12
                                      λ signature h13 k13.
                                        with_step (guard (c.is_signature signature) malformed) _ k13
                                          λ _ h14 k14.
                                            with_step
                                              (read token key_id_offset (key_id_offset + 32)) _ k14
                                              λ key_id h15 k15.
                                                with_step (read_be 8 token issued_at_offset) _ k15
                                                  λ issued_at h16 k16.
                                                    with_step (read_be 8 token expires_at_offset) _
                                                      k16
                                                      λ expires_at h17 k17.
                                                        with_step
                                                          (read token nonce_offset
                                                            (nonce_offset + 32))
                                                          _ k17
                                                          λ nonce h18 k18.
                                                            reads-IsLaidOut so re ne p h1 h2 h3 h4
                                                            h5 h6 h7 h8 h9 h10 h11
                                                            (new_audience-eq-ok _ previous next
                                                            audience h12)
                                                            h13 h15 h16 h17 h18 (ok-injective k18)

  -- An accepted token is the bytes of its fields and a signature, which are 64 bytes, and what was
  -- checked as signed is all that stands before the signature.
  pub parse-canonical :
      (p : ParsedGrant)
      → parse c token ≡ ok p
      → (p.signed_payload ≡ signed_bytes (into_verified p))
        × (token ≡ signed_bytes (into_verified p) ++ p.signature)
        × (length p.signature ≡ 64)
  unfolding parse
  parse-canonical p h =
      let so : ℕ = length token - 64 in
      with_guard (if starts_with token legacy_magic then false else true) _ _ h λ not_legacy k1.
        with_guard (leb min_token_len (length token)) _ _ k1 λ long k2.
          with_guard (starts_with token magic) _ _ k2 λ starts k3.
            with_step (read_be 2 token realm_len_offset) _ k3 λ realm_len h1 k4.
              with_step (read_be 2 token node_id_len_offset) _ k4 λ node_id_len h2 k5.
                with_guard (leb 1 realm_len && leb realm_len max_grant_identifier_len) _ _ k5
                  λ _ k6.
                    with_guard (leb 1 node_id_len && leb node_id_len max_grant_identifier_len) _ _
                      k6
                      λ _ k7.
                        with_guard (91 + realm_len + node_id_len + 48 + 32 + 5 + 7 == so) _ _ k7
                          λ ends k8.
                            let laid =
                              parse_fields-IsLaidOut so (91 + realm_len)
                                (91 + realm_len + node_id_len) p k8 in
                            Tiled-canonical token so _ _ p laid
                              ((bytes_beq_iff (take 4 token) magic).0 starts) refl
                              (ground (arith, long))
                              (IsLaidOut-Tiled token so _ _ p laid realm_len node_id_len
                                (read_be-get_range token 2 87 realm_len octets h1)
                                (read_be-get_range token 2 89 node_id_len octets h2) refl refl
                                ((==_iff _ so).0 ends))
