-- ===== src/Grant/Roundtrip/Fields.antt =====
-- The fields of a token one by one: what is written is read back (crates/nil-core/src/grant.rs).
use Prim.Native.String.{String}
use nil.Prelude.{
  ◌+◌, ◌*◌, ◌/◌, ◌%◌, ◌≤◌, ◌<◌, ◌≡◌, refl, true, Option, none, some, [], ◌∷◌, Bytes, length, ok,
  arith, all,
}
use nil.Prelude.Words.{length-to_be_bytes, to_be_bytes-two, from_be_bytes-two}
use nil.Prelude.Utf8.{is_utf8, is_ascii, is_utf8-is_ascii}
use nil.Grant.{
  Audience, NodeIdentity, GrantRole, GrantTransport, Tee, Ipv4Addr, SocketAddr,
  validate_named_identifier, role_to_wire, role_from_wire, transport_to_wire, transport_from_wire,
  tee_to_wire, tee_from_wire, new_audience, is_inner,
}
use nil.Grant.Wire.{previous_hop_wire, next_hop_wire}
use nil.Grant.Parse.{parse_previous_hop, parse_next_hop}

-- The sizes that the array types and `u16` ports give.
pub record WellSized (audience : Audience) (nonce : Bytes) : Type 0 where
  pub measurement_len : length audience.measurement ≡ 48
  pub spki_len : length audience.tls_spki_sha256 ≡ 32
  pub nonce_len : length nonce ≡ 32
  pub port_fits : (e : SocketAddr) → audience.next_hop ≡ some e → e.port < 65536

pub role_from_wire-role_to_wire : (r : GrantRole) → role_from_wire (role_to_wire r) ≡ some r
unfolding role_from_wire role_to_wire
role_from_wire-role_to_wire r = ground arith

pub transport_from_wire-transport_to_wire :
    (t : GrantTransport) → transport_from_wire (transport_to_wire t) ≡ some t
unfolding transport_from_wire transport_to_wire
transport_from_wire-transport_to_wire t = ground arith

pub tee_from_wire-tee_to_wire : (t : Tee) → tee_from_wire (tee_to_wire t) ≡ some t
unfolding tee_from_wire tee_to_wire
tee_from_wire-tee_to_wire t = ground arith

pub parse_previous_hop-wire :
    (p : Option Ipv4Addr) → parse_previous_hop (previous_hop_wire p) ≡ ok p
parse_previous_hop-wire none = refl
parse_previous_hop-wire (some ip) = refl

pub length-previous_hop_wire : (p : Option Ipv4Addr) → length (previous_hop_wire p) ≡ 5
length-previous_hop_wire none = refl
length-previous_hop_wire (some ip) = refl

pub length-next_hop_wire : (n : Option SocketAddr) → length (next_hop_wire n) ≡ 7
length-next_hop_wire none = refl
length-next_hop_wire (some e) = omega (arith, length-to_be_bytes 2 e.port)

pub parse_next_hop-wire :
    (n : Option SocketAddr)
    → ((e : SocketAddr) → n ≡ some e → (e.port < 65536) × (0 < e.port))
    → parse_next_hop (next_hop_wire n) ≡ ok n
parse_next_hop-wire none h = refl
parse_next_hop-wire (some e) h =
    let bounds = h e refl in
    let value : e.port / 256 % 256 * 256 + e.port % 256 ≡ e.port = omega arith in
    rw (to_be_bytes-two e.port, from_be_bytes-two (e.port / 256 % 256) (e.port % 256), value)
      (ground (arith, bounds))

-- A valid identifier is ASCII of 1 to 64 bytes.
is_ascii-inner : (bs : Bytes) → all is_inner bs ≡ true → is_ascii bs ≡ true
is_ascii-inner [] h = refl
is_ascii-inner (b ∷ bs) h = ground (arith, is_ascii-inner bs)

pub valid-inner :
    (name : String) (bs : Bytes)
    → validate_named_identifier name bs ≡ ok tt
    → (all is_inner bs ≡ true) × (1 ≤ length bs) × (length bs ≤ 64)
unfolding validate_named_identifier
valid-inner name bs h = ground arith

pub valid-is_utf8 :
    (name : String) (bs : Bytes) → validate_named_identifier name bs ≡ ok tt → is_utf8 bs ≡ true
valid-is_utf8 name bs h = is_utf8-is_ascii bs (is_ascii-inner bs (valid-inner name bs h).0)

-- What `GrantAudience::new` has checked of the audience that it returned.
pub new_audience_lem :
    (node : NodeIdentity) (p : Option Ipv4Addr) (n : Option SocketAddr) (audience : Audience)
    → new_audience node p n ≡ ok audience
    → (audience ≡ record { node = node; previous_hop = p; next_hop = n })
      × (validate_named_identifier "grant realm" node.realm ≡ ok tt)
      × (validate_named_identifier "grant node_id" node.node_id ≡ ok tt)
      × ((e : SocketAddr) → n ≡ some e → 0 < e.port)
unfolding new_audience
new_audience_lem node p n audience h =
    (ground arith, ground arith, ground arith, λ e at. ground arith)
