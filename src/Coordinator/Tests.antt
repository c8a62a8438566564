-- ===== src/Coordinator/Tests.antt =====
-- Runs of the limiter and of the choice of paths (crates/nil-coordinator/src/ratelimit.rs and
-- pathsel.rs) on small inputs.
use nil.Prelude.{ℕ, ◌+◌, ◌≡◌, refl, List, [], ◌∷◌, Bytes, leb, arith}
use mathlib.Core.List.{Memᴰ}
use nil.Prelude.{Option, some, none, ◌≢◌, all, not, true, bytes_beq, length}
use nil.Grant.{sev_snp}
use nil.Coordinator.Registry.{
  Role, entry, middle, exit, RegistryNode, NodeRegistry, live_nodes, mark_down, to_hop,
}
use nil.Coordinator.PathSelection.{
  SelectedHop, select_path, select_nodes, selected_hops, shuffle, shuffle_loop, swap, extend_path,
  try_candidates,
}
use nil.Coordinator.PathSelection.Diverse.{Apart, IsPath}
use nil.Coordinator.PathSelection.Select.{
  select_path_sound, select_path_complete, select_path-mark_down,
}
use nil.Prelude.{zero, suc, ◌/◌, ◌%◌, replicate, codes, ok}
use nil.Grant.{tdx, validate_named_identifier}
use nil.Grant.Hex.{nib, from_hex}
use nil.Coordinator.Registry.{TdxPolicy, hex_digit, parse, tdx_policy_to_wire}
use nil.Coordinator.Validation.{
  RegistryFileNode, validate_slug, validate_jurisdiction, validate_host, validate_lower_hex,
  decode_fixed_hex, validate_tdx_policy, validate_registry_node, load_nodes, from_file,
}
use nil.Coordinator.Validation.Distinct.{distinct, from_file-distinct}
use nil.Coordinator.Validation.Canonical.{tdx_policy_to_wire-validate_tdx_policy}
use nil.Prelude.Dict.{get}
use nil.Coordinator.RateLimit.{RateLimiter, check, run, checks_of, checks_of-cap}

abbrev address : Bytes
address = 10 ∷ 1 ∷ []

abbrev limiter : RateLimiter
limiter = record { max = 3; window = 60; buckets = [] }

abbrev requests : List (Bytes × ℕ)
requests = (address, 101) ∷ (8 ∷ [], 102) ∷ (address, 103) ∷ []

checks_of-cap_example :
    (check (run (check limiter address 100).1 requests) address 159).0
    ≡ leb (2 + checks_of address requests) 3
unfolding get checks_of
checks_of-cap_example =
    checks_of-cap limiter address 100 requests 159 refl (omega arith)
      (omega arith, (omega arith, (omega arith, tt))) (omega arith) (omega arith)

-- Four nodes, of which the first two share an operator.
abbrev node : ℕ → ℕ → Role → RegistryNode
node name owner position = record {
  id = name ∷ [];
  host = name ∷ 0x2e ∷ [];
  port = 443;
  tee = sev_snp;
  measurement = [];
  tls_spki_sha256 = none;
  operator = owner ∷ [];
  jurisdiction = owner ∷ owner ∷ [];
  wg_pub = none;
  role = position;
  min_tcb_sevsnp = none;
  tdx_policy = none;
  transparency_log_key = none;
}

abbrev registry : NodeRegistry
registry = record {
  nodes = node 1 7 entry ∷ node 2 8 entry ∷ node 3 7 middle ∷ node 4 9 exit ∷ [];
  dead = [];
}

abbrev random : Option (ℕ → ℕ)
random = some (λ i. i + 5)

abbrev path : List RegistryNode
path = node 2 8 entry ∷ node 3 7 middle ∷ node 4 9 exit ∷ []

-- The search leaves the first entry again, whose operator is that of the only middle.
selects : select_path registry random 3 ≡ some (selected_hops 0 3 path)
unfolding select_path select_nodes shuffle shuffle_loop swap extend_path try_candidates live_nodes
    to_hop
selects = refl

apart : (m n p q : ℕ) (r s : Role) → m ≢ n → p ≢ q → Apart (node m p r) (node n q s)
apart m n p q r s names owners = record {
  operators = λ e. owners (ground (arith, e));
  jurisdictions = λ e. owners (ground (arith, e));
  ids = λ e. names (ground (arith, e));
  endpoints = λ e f. names (ground (arith, e));
}

valid : IsPath (live_nodes registry) 3 0 path
unfolding live_nodes
valid = (
  Memᴰ.tail (Memᴰ.head refl),
  refl,
  (
    apart 2 3 8 7 entry middle (omega arith) (omega arith),
    (apart 2 4 8 9 entry exit (omega arith) (omega arith), tt),
  ),
  (
    Memᴰ.tail (Memᴰ.tail (Memᴰ.head refl)),
    refl,
    (apart 3 4 7 9 middle exit (omega arith) (omega arith), tt),
    (Memᴰ.tail (Memᴰ.tail (Memᴰ.tail (Memᴰ.head refl))), refl, tt, tt),
  ),
)

select_path_complete_example :
    (selected : List SelectedHop) × (select_path registry random 3 ≡ some selected)
select_path_complete_example = select_path_complete registry random 3 path valid refl

select_path_sound_example :
    (nodes : List RegistryNode) × IsPath (live_nodes registry) 3 0 nodes
    × (length nodes ≡ 3)
    × (selected_hops 0 3 path ≡ selected_hops 0 3 nodes)
select_path_sound_example = select_path_sound registry random 3 (selected_hops 0 3 path) selects

still_selects :
    select_path (mark_down registry (1 ∷ 0x2e ∷ [])) random 3 ≡ some (selected_hops 0 3 path)
unfolding select_path select_nodes shuffle shuffle_loop swap extend_path try_candidates live_nodes
    to_hop mark_down
still_selects = refl

select_path-mark_down_example :
    all (λ s. not (bytes_beq s.hop.host (1 ∷ 0x2e ∷ []))) (selected_hops 0 3 path) ≡ true
select_path-mark_down_example =
    select_path-mark_down registry (1 ∷ 0x2e ∷ []) random 3 (selected_hops 0 3 path) still_selects

abbrev policy_of_bytes : (ℕ → ℕ → Bytes) → TdxPolicy
policy_of_bytes digits = record {
  td_attributes = digits 8 0x12;
  xfam = digits 8 0xa0;
  mr_config_id = digits 48 0;
  mr_owner = digits 48 0;
  mr_owner_config = digits 48 0;
  rt_mr0 = digits 48 0x12;
  rt_mr1 = digits 48 0x12;
  rt_mr2 = digits 48 0xa0;
  rt_mr3 = digits 48 0xa0;
  mr_service_td = some (digits 48 0xa0);
}

abbrev hex_of : ℕ → ℕ → Bytes
hex_of zero b = []
hex_of (suc n) b = hex_digit (b / 16) ∷ hex_digit (b % 16) ∷ hex_of n b

abbrev policy : TdxPolicy
policy = policy_of_bytes (λ n b. replicate n b)

abbrev written : TdxPolicy
written = policy_of_bytes hex_of

abbrev entry_of : ℕ → RegistryFileNode
entry_of name = record {
  id = name ∷ [];
  host = codes "node-1.example";
  port = name;
  tee = codes "tdx";
  measurement = replicate 96 b'a';
  tls_spki_sha256 = none;
  operator = codes "op.one";
  jurisdiction = codes "CH";
  wg_pub = none;
  role = codes "exit";
  min_tcb_sevsnp = none;
  tdx_policy = some written;
  transparency_log_key = none;
}

abbrev loaded_as : ℕ → RegistryNode
loaded_as name = record {
  id = name ∷ [];
  host = codes "node-1.example";
  port = name;
  tee = tdx;
  measurement = replicate 96 b'a';
  tls_spki_sha256 = none;
  operator = codes "op.one";
  jurisdiction = codes "CH";
  wg_pub = none;
  role = exit;
  min_tcb_sevsnp = none;
  tdx_policy = some policy;
  transparency_log_key = none;
}

abbrev no_ip : Bytes → Option Bytes
no_ip host = none

accepted : validate_tdx_policy written ≡ ok policy
unfolding validate_tdx_policy decode_fixed_hex validate_lower_hex from_hex nib
accepted = refl

loads :
    from_file no_ip (entry_of b'1' ∷ entry_of b'2' ∷ [])
    ≡ ok (record { nodes = loaded_as b'1' ∷ loaded_as b'2' ∷ []; dead = [] })
unfolding from_file load_nodes validate_registry_node validate_slug validate_jurisdiction
    validate_host validate_lower_hex validate_named_identifier parse validate_tdx_policy
    decode_fixed_hex from_hex nib
loads = refl

from_file-distinct_example : distinct (loaded_as b'1' ∷ loaded_as b'2' ∷ []) ≡ true
from_file-distinct_example =
    from_file-distinct no_ip (entry_of b'1' ∷ entry_of b'2' ∷ [])
      (record { nodes = loaded_as b'1' ∷ loaded_as b'2' ∷ []; dead = [] }) loads

tdx_policy_to_wire-validate_tdx_policy_example : tdx_policy_to_wire policy ≡ written
tdx_policy_to_wire-validate_tdx_policy_example =
    tdx_policy_to_wire-validate_tdx_policy written policy accepted
