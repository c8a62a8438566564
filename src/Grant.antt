-- ===== src/Grant.antt =====
-- Short-lived node grants, crates/nil-core/src/grant.rs: roles, identities, audiences and errors.
-- The wire format and the verifier are in the modules below.
pub mod Hex
pub mod Wire
pub mod Parse
pub mod Verifier
pub mod Roundtrip
pub mod Canonical
pub mod Checks
pub mod Trust
pub mod Names
pub mod ReplayCache
mod Tests
use Prim.Native.String.{String}
use native.Mathlib.Decide.{ℕ_discrete}
use nil.Prelude.{
  ℕ, zero, suc, ◌-◌, Bool, true, false, ◌&&◌, ◌||◌, Option, none, some, List, [], ◌∷◌, Bytes,
  length, all, ltb, leb, ◌==◌, Result, ok, err, ◌>>=◌, ◌>>◌, guard, codes, bytes_beq, if◌then◌else◌,
}

abbrev pub max_grant_identifier_len : ℕ
max_grant_identifier_len = 64

abbrev pub max_grant_ttl_secs : ℕ
max_grant_ttl_secs = 600

abbrev pub max_grant_clock_skew_secs : ℕ
max_grant_clock_skew_secs = 30

pub data GrantRole : Type 0 where
  entry middle exit : GrantRole

pub data GrantTransport : Type 0 where
  masque amnezia_wg wstunnel reality : GrantTransport

-- crates/nil-core/src/lib.rs
pub data Tee : Type 0 where
  sev_snp tdx : Tee

-- `self as u8`
pub role_to_wire : GrantRole → ℕ
role_to_wire entry = 1
role_to_wire middle = 2
role_to_wire exit = 3

-- `GrantRole::from_wire`
pub role_from_wire : ℕ → Option GrantRole
role_from_wire value =
    if value == 1
    then some entry
    else if value == 2
    then some middle
    else if value == 3
    then some exit
    else none

-- `self as u8`
pub transport_to_wire : GrantTransport → ℕ
transport_to_wire masque = 1
transport_to_wire amnezia_wg = 2
transport_to_wire wstunnel = 3
transport_to_wire reality = 4

-- `GrantTransport::from_wire`
pub transport_from_wire : ℕ → Option GrantTransport
transport_from_wire value =
    if value == 1
    then some masque
    else if value == 2
    then some amnezia_wg
    else if value == 3
    then some wstunnel
    else if value == 4
    then some reality
    else none

pub tee_to_wire : Tee → ℕ
tee_to_wire sev_snp = 1
tee_to_wire tdx = 2

pub tee_from_wire : ℕ → Option Tee
tee_from_wire value = if value == 1 then some sev_snp else if value == 2 then some tdx else none

-- `std::net::Ipv4Addr`
pub record Ipv4Addr : Type 0 where
  pub a : ℕ
  pub b : ℕ
  pub c : ℕ
  pub d : ℕ

-- `std::net::SocketAddrV4`
pub record SocketAddr : Type 0 where
  pub ip : Ipv4Addr
  pub port : ℕ

-- `GrantError`
pub data GrantError : Type 0 where
  invalid_signing_key_length invalid_public_key no_verification_keys key_id_collision : GrantError
  invalid_identifier : String → GrantError
  invalid_ttl time_overflow legacy_grant_rejected unsupported_version malformed : GrantError
  unknown_key bad_signature invalid_lifetime not_yet_valid expired : GrantError
  invalid_next_hop_policy wrong_audience : GrantError

-- `GrantNodeIdentity`
pub record NodeIdentity : Type 0 where
  pub realm : Bytes
  pub node_id : Bytes
  pub role : GrantRole
  pub transport : GrantTransport
  pub tee : Tee
  pub measurement : Bytes
  pub tls_spki_sha256 : Bytes

-- `GrantAudience`
pub record Audience : Type 0 where
  pub node : NodeIdentity
  pub open node use *
  pub previous_hop : Option Ipv4Addr
  pub next_hop : Option SocketAddr

pub NodeIdentity-discrete : Discrete NodeIdentity
NodeIdentity-discrete = hlevel ℕ_discrete

pub Audience-discrete : Discrete Audience
Audience-discrete = hlevel ℕ_discrete

abbrev pub is_edge : ℕ → Bool
is_edge byte = leb b'a' byte && leb byte b'z' || leb b'0' byte && leb byte b'9'

abbrev pub is_inner : ℕ → Bool
is_inner byte = is_edge byte || byte == b'.' || byte == b'_' || byte == b':' || byte == b'-'

abbrev pub last_edge : (ℕ → Bool) → ℕ → Bytes → Bool
last_edge p b [] = p b
last_edge p b (c ∷ cs) = last_edge p c cs

-- `bytes[0]` and `bytes[bytes.len() - 1]` satisfy the test.
abbrev pub edges : (ℕ → Bool) → Bytes → Bool
edges p [] = false
edges p (b ∷ bs) = p b && last_edge p b bs

-- `validate_named_identifier`
unfoldable pub validate_named_identifier : String → Bytes → Result (Unit {0}) GrantError
validate_named_identifier name bytes = do
  guard (leb 1 (length bytes) && leb (length bytes) max_grant_identifier_len)
      (invalid_identifier name)
  guard (edges is_edge bytes && all is_inner bytes) (invalid_identifier name)

-- `GrantNodeIdentity::new`
unfoldable pub new_node_identity : NodeIdentity → Result NodeIdentity GrantError
new_node_identity node = do
  validate_named_identifier "grant realm" node.realm
  validate_named_identifier "grant node_id" node.node_id
  ok node

abbrev hop_policy : GrantRole → Option Ipv4Addr → Option SocketAddr → Bool
hop_policy entry none (some endpoint) = if endpoint.port == 0 then false else true
hop_policy middle (some _) (some endpoint) = if endpoint.port == 0 then false else true
hop_policy exit _ none = true
hop_policy _ _ _ = false

-- `GrantAudience::from_node_identity`
unfoldable pub from_node_identity :
    NodeIdentity → Option Ipv4Addr → Option SocketAddr → Result Audience GrantError
from_node_identity node previous_hop next_hop = do
  guard (hop_policy node.role previous_hop next_hop) invalid_next_hop_policy
  ok (record { node = node; previous_hop = previous_hop; next_hop = next_hop })

-- `GrantAudience::new`, its first seven arguments as one record
unfoldable pub new_audience :
    NodeIdentity → Option Ipv4Addr → Option SocketAddr → Result Audience GrantError
unfolding new_node_identity from_node_identity
new_audience node previous_hop next_hop = do
  checked ← new_node_identity node
  from_node_identity checked previous_hop next_hop
