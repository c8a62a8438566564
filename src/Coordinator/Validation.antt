-- ===== src/Coordinator/Validation.antt =====
-- The checks of a registry file, crates/nil-coordinator/src/pathsel.rs. The entries are given as the
-- JSON parser leaves them; `IpAddr`'s parser and printer are the argument `canonical_ip`.
pub mod Distinct
pub mod Canonical
use nil.Prelude.{
  ℕ, ◌*◌, ◌-◌, ◌%◌, Bool, true, false, not, ◌&&◌, ◌||◌, Option, none, some, List, [], ◌∷◌, Bytes,
  length, get_elem?, all, leb, ◌==◌, if◌then◌else◌, bytes_beq, codes, Result, ok, err, ◌>>=◌, ◌>>◌,
  guard,
}
use Prim.Native.String.{String}
use nil.Grant.{Tee, sev_snp, tdx, validate_named_identifier}
use nil.Grant.Hex.{from_hex}
use nil.Coordinator.Registry.{
  Role, parse, SevSnpTcbFloor, TdxPolicy, RegistryNode, NodeRegistry, contains,
}

-- The failures of loading a registry: a field that is refused, and the three of the file itself
pub data RegistryError : Type 0 where
  invalid : String → RegistryError
  no_nodes duplicate_id duplicate_endpoint : RegistryError

abbrev is_lower_or_digit : ℕ → Bool
is_lower_or_digit b = leb b'a' b && leb b b'z' || leb b'0' b && leb b b'9'

abbrev pub first_is : (ℕ → Bool) → Bytes → Bool
first_is p [] = false
first_is p (b ∷ bytes) = p b

abbrev last_is : (ℕ → Bool) → Bytes → Bool
last_is p [] = false
last_is p (b ∷ []) = p b
last_is p (b ∷ c ∷ bytes) = last_is p (c ∷ bytes)

abbrev slug_byte : ℕ → Bool
slug_byte b = is_lower_or_digit b || b == b'-' || b == b'_' || b == b'.'

-- `validate_slug`
unfoldable pub validate_slug : String → Bytes → ℕ → Result (Unit {0}) RegistryError
validate_slug field value max_len = do
  guard (not (length value == 0) && leb (length value) max_len) (invalid field)
  guard (first_is is_lower_or_digit value) (invalid field)
  guard (last_is is_lower_or_digit value) (invalid field)
  guard (all slug_byte value) (invalid field)

-- `validate_jurisdiction`
unfoldable pub validate_jurisdiction : Bytes → Result (Unit {0}) RegistryError
validate_jurisdiction value =
    guard (length value == 2 && all (λ b. leb b'A' b && leb b b'Z') value) (invalid "jurisdiction")

-- `split('.')`
abbrev split_labels : Bytes → List Bytes
split_labels [] = [] ∷ []
split_labels (b ∷ bytes) =
    let labels : List Bytes = split_labels bytes in
    if b == b'.'
    then [] ∷ labels
    else elim labels [ [] ↦ (b ∷ []) ∷ [] | label ∷ rest ↦ (b ∷ label) ∷ rest ]

abbrev host_label : Bytes → Bool
host_label label =
    not (length label == 0)
    && leb (length label) 63
    && not (first_is (λ b. b == b'-') label || last_is (λ b. b == b'-') label)
    && all (λ b. is_lower_or_digit b || b == b'-') label

-- `validate_host`
unfoldable pub validate_host : (Bytes → Option Bytes) → Bytes → Result (Unit {0}) RegistryError
validate_host canonical_ip value = do
  guard (not (length value == 0) && leb (length value) 253) (invalid "host")
  elim (canonical_ip value) [
    | some text ↦ guard (bytes_beq value text) (invalid "host")
    | none ↦
        guard
          (not (
            all (λ b. leb b'0' b && leb b b'9' || b == b'.') value
            || not (all (λ b. not (b == b':')) value)))
          (invalid "host")
        >> guard (not (first_is (λ b. b == b'.') value || last_is (λ b. b == b'.') value))
            (invalid "host")
        >> guard (all host_label (split_labels value)) (invalid "host")
  ]

abbrev pub is_lower_hex : ℕ → Bool
is_lower_hex b = leb b'0' b && leb b b'9' || leb b'a' b && leb b b'f'

-- `validate_lower_hex`
unfoldable pub validate_lower_hex : String → Bytes → ℕ → Result (Unit {0}) RegistryError
validate_lower_hex field value bytes = do
  guard (length value == bytes * 2) (invalid field)
  guard (all is_lower_hex value) (invalid field)

abbrev pub fixed : String → ℕ → Option Bytes → Result Bytes RegistryError
fixed field n none = err (invalid field)
fixed field n (some bytes) = if length bytes == n then ok bytes else err (invalid field)

-- `decode_fixed_hex`
unfoldable pub decode_fixed_hex : String → ℕ → Bytes → Result Bytes RegistryError
decode_fixed_hex field n value = do validate_lower_hex field value n; fixed field n (from_hex value)

abbrev pub decode_service : Option Bytes → Result (Option Bytes) RegistryError
decode_service none = ok none
decode_service (some value) =
    decode_fixed_hex "tdx_policy.mr_service_td" 48 value >>= λ measurement. ok (some measurement)

abbrev pub nonzero : Bytes → Bool
nonzero value = not (all (λ byte. byte == 0) value)

-- `validate_tdx_policy`
unfoldable pub validate_tdx_policy : TdxPolicy → Result TdxPolicy RegistryError
validate_tdx_policy dto = do
  td_attributes ← decode_fixed_hex "tdx_policy.td_attributes" 8 dto.td_attributes
  guard (first_is (λ b. b % 2 == 0) td_attributes) (invalid "tdx_policy.td_attributes")
  rt_mr0 ← decode_fixed_hex "tdx_policy.rt_mr0" 48 dto.rt_mr0
  rt_mr1 ← decode_fixed_hex "tdx_policy.rt_mr1" 48 dto.rt_mr1
  rt_mr2 ← decode_fixed_hex "tdx_policy.rt_mr2" 48 dto.rt_mr2
  rt_mr3 ← decode_fixed_hex "tdx_policy.rt_mr3" 48 dto.rt_mr3
  guard (nonzero rt_mr0) (invalid "tdx_policy.rt_mr0")
  guard (nonzero rt_mr1) (invalid "tdx_policy.rt_mr1")
  guard (nonzero rt_mr2) (invalid "tdx_policy.rt_mr2")
  guard (nonzero rt_mr3) (invalid "tdx_policy.rt_mr3")
  xfam ← decode_fixed_hex "tdx_policy.xfam" 8 dto.xfam
  mr_config_id ← decode_fixed_hex "tdx_policy.mr_config_id" 48 dto.mr_config_id
  mr_owner ← decode_fixed_hex "tdx_policy.mr_owner" 48 dto.mr_owner
  mr_owner_config ← decode_fixed_hex "tdx_policy.mr_owner_config" 48 dto.mr_owner_config
  mr_service_td ← decode_service dto.mr_service_td
  ok (record {
    td_attributes = td_attributes;
    xfam = xfam;
    mr_config_id = mr_config_id;
    mr_owner = mr_owner;
    mr_owner_config = mr_owner_config;
    rt_mr0 = rt_mr0;
    rt_mr1 = rt_mr1;
    rt_mr2 = rt_mr2;
    rt_mr3 = rt_mr3;
    mr_service_td = mr_service_td;
  })

-- `RegistryFileNode`
pub record RegistryFileNode : Type 0 where
  pub id : Bytes
  pub host : Bytes
  pub port : ℕ
  pub tee : Bytes
  pub measurement : Bytes
  pub tls_spki_sha256 : Option Bytes
  pub operator : Bytes
  pub jurisdiction : Bytes
  pub wg_pub : Option Bytes
  pub role : Bytes
  pub min_tcb_sevsnp : Option SevSnpTcbFloor
  pub tdx_policy : Option TdxPolicy
  pub transparency_log_key : Option Bytes

-- `map_err(…)?`
abbrev checked_id : Bytes → Result (Unit {0}) RegistryError
checked_id id = elim (validate_named_identifier "grant identifier" id) [
  | ok done ↦ ok tt
  | err why ↦ err (invalid "id")
]

abbrev parse_tee : Bytes → Result Tee RegistryError
parse_tee s =
    if bytes_beq s (codes "sev-snp")
    then ok sev_snp
    else if bytes_beq s (codes "tdx")
    then ok tdx
    else err (invalid "tee")

abbrev required {ℓ} : {A : Type ℓ} → String → Option A → Result A RegistryError
required field none = err (invalid field)
required field (some a) = ok a

abbrev optional_hex : String → Option Bytes → ℕ → Result (Unit {0}) RegistryError
optional_hex field none bytes = ok tt
optional_hex field (some value) bytes = validate_lower_hex field value bytes

abbrev absent {ℓ} : {A : Type ℓ} → Option A → Bool
absent none = true
absent (some a) = false

abbrev pub floor_fits : Tee → Option SevSnpTcbFloor → Bool
floor_fits sev_snp floor = true
floor_fits tdx floor = absent floor

abbrev pub policy_of : Tee → Option TdxPolicy → Result (Option TdxPolicy) RegistryError
policy_of tdx (some policy) = validate_tdx_policy policy >>= λ valid. ok (some valid)
policy_of tdx none = err (invalid "tdx_policy")
policy_of sev_snp (some policy) = err (invalid "tdx_policy")
policy_of sev_snp none = ok none

-- `validate_registry_node`
unfoldable pub validate_registry_node :
    (Bytes → Option Bytes) → RegistryFileNode → Result RegistryNode RegistryError
validate_registry_node canonical_ip dto = do
  checked_id dto.id
  validate_slug "operator" dto.operator 128
  validate_jurisdiction dto.jurisdiction
  validate_host canonical_ip dto.host
  guard (not (dto.port == 0)) (invalid "port")
  tee ← parse_tee dto.tee
  role ← required "role" (parse dto.role)
  validate_lower_hex "measurement" dto.measurement 48
  optional_hex "tls_spki_sha256" dto.tls_spki_sha256 32
  optional_hex "wg_pub" dto.wg_pub 32
  optional_hex "transparency_log_key" dto.transparency_log_key 32
  guard (floor_fits tee dto.min_tcb_sevsnp) (invalid "min_tcb_sevsnp")
  tdx_policy ← policy_of tee dto.tdx_policy
  ok (record {
    id = dto.id;
    host = dto.host;
    port = dto.port;
    tee = tee;
    measurement = dto.measurement;
    tls_spki_sha256 = dto.tls_spki_sha256;
    operator = dto.operator;
    jurisdiction = dto.jurisdiction;
    wg_pub = dto.wg_pub;
    role = role;
    min_tcb_sevsnp = dto.min_tcb_sevsnp;
    tdx_policy = tdx_policy;
    transparency_log_key = dto.transparency_log_key;
  })

abbrev pub has_endpoint : List (Bytes × ℕ) → Bytes → ℕ → Bool
has_endpoint [] host port = false
has_endpoint (e ∷ endpoints) host port =
    bytes_beq e.0 host && e.1 == port || has_endpoint endpoints host port

-- The loop of `NodeRegistry::from_file`, with the identities and endpoints that it met
unfoldable pub load_nodes :
    (Bytes → Option Bytes)
    → List Bytes
    → List (Bytes × ℕ)
    → List RegistryFileNode
    → Result (List RegistryNode) RegistryError
load_nodes canonical_ip ids endpoints [] = ok []
load_nodes canonical_ip ids endpoints (dto ∷ dtos) = do
  node ← validate_registry_node canonical_ip dto
  guard (not (contains ids node.id)) duplicate_id
  guard (not (has_endpoint endpoints node.host node.port)) duplicate_endpoint
  nodes ← load_nodes canonical_ip (node.id ∷ ids) ((node.host, node.port) ∷ endpoints) dtos
  ok (node ∷ nodes)

-- `NodeRegistry::from_file`, on the entries of the file
unfoldable pub from_file :
    (Bytes → Option Bytes) → List RegistryFileNode → Result NodeRegistry RegistryError
from_file canonical_ip dtos = do
  guard (not (length dtos == 0)) no_nodes
  nodes ← load_nodes canonical_ip [] [] dtos
  ok (record { nodes = nodes; dead = [] })
