-- ===== src/Coordinator/Registry.antt =====
-- The nodes that the Coordinator knows and what it tells a client about them,
-- crates/nil-coordinator/src/pathsel.rs and the types of crates/nil-proto/src/path.rs.
use nil.Prelude.{
  ℕ, ◌+◌, ◌-◌, ◌/◌, ◌%◌, Bool, true, false, not, ◌||◌, Option, none, some, List, [], ◌∷◌, Bytes,
  all, if◌then◌else◌, bytes_beq, codes, leb,
}
use nil.Grant.{Tee, sev_snp, tdx}

-- `Role`
pub data Role : Type 0 where
  entry middle exit : Role

-- `Role::parse`
unfoldable pub parse : Bytes → Option Role
parse s =
    if bytes_beq s (codes "entry")
    then some entry
    else if bytes_beq s (codes "middle")
    then some middle
    else if bytes_beq s (codes "exit")
    then some exit
    else none

abbrev pub role_beq : Role → Role → Bool
role_beq entry entry = true
role_beq middle middle = true
role_beq exit exit = true
role_beq _ _ = false

-- `SevSnpTcbFloor`
pub record SevSnpTcbFloor : Type 0 where
  pub fmc : Option ℕ
  pub bootloader : ℕ
  pub tee : ℕ
  pub snp : ℕ
  pub microcode : ℕ

-- `TdxPolicy`: the registry's has bytes in its fields, and the one on the wire their hex digits.
pub record TdxPolicy : Type 0 where
  pub td_attributes : Bytes
  pub xfam : Bytes
  pub mr_config_id : Bytes
  pub mr_owner : Bytes
  pub mr_owner_config : Bytes
  pub rt_mr0 : Bytes
  pub rt_mr1 : Bytes
  pub rt_mr2 : Bytes
  pub rt_mr3 : Bytes
  pub mr_service_td : Option Bytes

-- `DIGITS[d]`
abbrev pub hex_digit : ℕ → ℕ
hex_digit d = if leb d 9 then b'0' + d else b'a' + (d - 10)

-- `encode_lower_hex`
unfoldable pub encode_lower_hex : Bytes → Bytes
encode_lower_hex [] = []
encode_lower_hex (byte ∷ bytes) =
    hex_digit (byte / 16) ∷ hex_digit (byte % 16) ∷ encode_lower_hex bytes

abbrev pub encode_service : Option Bytes → Option Bytes
encode_service none = none
encode_service (some measurement) = some (encode_lower_hex measurement)

-- `tdx_policy_to_wire`
unfoldable pub tdx_policy_to_wire : TdxPolicy → TdxPolicy
tdx_policy_to_wire policy = record {
  td_attributes = encode_lower_hex (policy.td_attributes);
  xfam = encode_lower_hex (policy.xfam);
  mr_config_id = encode_lower_hex (policy.mr_config_id);
  mr_owner = encode_lower_hex (policy.mr_owner);
  mr_owner_config = encode_lower_hex (policy.mr_owner_config);
  rt_mr0 = encode_lower_hex (policy.rt_mr0);
  rt_mr1 = encode_lower_hex (policy.rt_mr1);
  rt_mr2 = encode_lower_hex (policy.rt_mr2);
  rt_mr3 = encode_lower_hex (policy.rt_mr3);
  mr_service_td = encode_service policy.mr_service_td;
}

-- `RegistryNode`
pub record RegistryNode : Type 0 where
  pub id : Bytes
  pub host : Bytes
  pub port : ℕ
  pub tee : Tee
  pub measurement : Bytes
  pub tls_spki_sha256 : Option Bytes
  pub operator : Bytes
  pub jurisdiction : Bytes
  pub wg_pub : Option Bytes
  pub role : Role
  pub min_tcb_sevsnp : Option SevSnpTcbFloor
  pub tdx_policy : Option TdxPolicy
  pub transparency_log_key : Option Bytes

-- `Hop`
pub record Hop : Type 0 where
  pub host : Bytes
  pub port : ℕ
  pub tee : Tee
  pub measurement : Bytes
  pub tls_spki_sha256 : Option Bytes
  pub wg_pub : Option Bytes
  pub min_tcb_sevsnp : Option SevSnpTcbFloor
  pub tdx_policy : Option TdxPolicy
  pub transparency_log_key : Option Bytes
  pub grant : Option Bytes
  pub grant_nonce : Option Bytes

-- `RegistryNode::fills`
abbrev pub fills : RegistryNode → Role → Bool
fills node pos = role_beq (node.role) pos

-- `RegistryNode::to_hop`
unfoldable pub to_hop : RegistryNode → Hop
to_hop node = record {
  host = node.host;
  port = node.port;
  tee = node.tee;
  measurement = node.measurement;
  tls_spki_sha256 = node.tls_spki_sha256;
  wg_pub = node.wg_pub;
  min_tcb_sevsnp = node.min_tcb_sevsnp;
  tdx_policy = elim (node.tdx_policy) [
    | none ↦ none
    | some policy ↦ some (tdx_policy_to_wire policy)
  ];
  transparency_log_key = node.transparency_log_key;
  grant = none;
  grant_nonce = none;
}

-- `NodeRegistry`, with the set of hosts that are marked down as a list
pub record NodeRegistry : Type 0 where
  pub nodes : List RegistryNode
  pub dead : List Bytes

abbrev pub contains : List Bytes → Bytes → Bool
contains [] host = false
contains (down ∷ dead) host = bytes_beq down host || contains dead host

-- `NodeRegistry::mark_down`
unfoldable pub mark_down : NodeRegistry → Bytes → NodeRegistry
mark_down registry host =
    if contains (registry.dead) host
    then registry
    else record registry { dead = host ∷ registry.dead }

abbrev pub without : List Bytes → Bytes → List Bytes
without [] host = []
without (down ∷ dead) host =
    let rest = without dead host in if bytes_beq down host then rest else down ∷ rest

-- `NodeRegistry::mark_up`
unfoldable pub mark_up : NodeRegistry → Bytes → NodeRegistry
mark_up registry host = record registry { dead = without (registry.dead) host }

abbrev pub filter {ℓ} : {A : Type ℓ} → (A → Bool) → List A → List A
filter p [] = []
filter p (x ∷ xs) = let rest = filter p xs in if p x then x ∷ rest else rest

-- `NodeRegistry::live_nodes`
unfoldable pub live_nodes : NodeRegistry → List RegistryNode
live_nodes registry = filter (λ n. not (contains (registry.dead) (n.host))) (registry.nodes)

abbrev is_some {ℓ} : {A : Type ℓ} → Option A → Bool
is_some none = false
is_some (some a) = true

-- `NodeRegistry::all_nodes_have_tls_spki`
unfoldable pub all_nodes_have_tls_spki : NodeRegistry → Bool
all_nodes_have_tls_spki registry = all (λ node. is_some (node.tls_spki_sha256)) (registry.nodes)

-- `NodeRegistry::all_nodes_have_transparency_key`
unfoldable pub all_nodes_have_transparency_key : NodeRegistry → Bool
all_nodes_have_transparency_key registry =
    all (λ node. is_some (node.transparency_log_key)) (registry.nodes)

abbrev is_sev_snp : Tee → Bool
is_sev_snp sev_snp = true
is_sev_snp tdx = false

-- `NodeRegistry::all_sev_nodes_have_min_tcb`
unfoldable pub all_sev_nodes_have_min_tcb : NodeRegistry → Bool
all_sev_nodes_have_min_tcb registry =
    all (λ node. not (is_sev_snp (node.tee)) || is_some (node.min_tcb_sevsnp)) (registry.nodes)
