-- ===== src/Coordinator/PathSelection.antt =====
-- The choice of a path whose hops share no operator and no jurisdiction,
-- crates/nil-coordinator/src/pathsel.rs. The random bytes of the shuffle are an argument.
pub mod Diverse
pub mod Found
pub mod Select
pub mod Shuffle
use nil.Prelude.{
  ℕ, zero, suc, ◌+◌, ◌-◌, ◌*◌, ◌%◌, Bool, true, false, not, ◌&&◌, ◌||◌, Option, none, some, List,
  [], ◌∷◌, ◌++◌, Bytes, length, get_elem?, ◌==◌, ltb, if◌then◌else◌, bytes_beq,
}
use nil.Coordinator.Registry.{
  Role, entry, middle, exit, RegistryNode, Hop, fills, to_hop, NodeRegistry, live_nodes,
}

-- `Role::for_position`
abbrev pub for_position : ℕ → ℕ → Role
for_position i hops = if i + 1 == hops then exit else if i == 0 then entry else middle

-- `SelectedHop`
pub record SelectedHop : Type 0 where
  pub hop : Hop
  pub node_id : Bytes
  pub intended_role : Role

-- `xs[i] = x`
abbrev pub set {ℓ} : {A : Type ℓ} → List A → ℕ → A → List A
set [] i x = []
set (y ∷ ys) zero x = x ∷ ys
set (y ∷ ys) (suc i) x = y ∷ set ys i x

-- `swap`
unfoldable pub swap {ℓ} : {A : Type ℓ} → List A → ℕ → ℕ → List A
swap items i j = elim (get_elem? items i) [
  | none ↦ items
  | some x ↦ elim (get_elem? items j) [ none ↦ items | some y ↦ set (set items i y) j x ]
]

-- The loop of `shuffle`: `i` from the last index down to 1, with the random number of each
unfoldable pub shuffle_loop {ℓ} : {A : Type ℓ} → ℕ → (ℕ → ℕ) → List A → List A
shuffle_loop zero r items = items
shuffle_loop (suc i) r items = shuffle_loop i r (swap items (suc i) (r (suc i) % (suc i + 1)))

-- `shuffle`; without random numbers the order stays
unfoldable pub shuffle {ℓ} : {A : Type ℓ} → Option (ℕ → ℕ) → List A → List A
shuffle random items =
    if ltb (length items) 2
    then items
    else elim random [ none ↦ items | some r ↦ shuffle_loop (length items - 1) r items ]

-- The conditions of `extend_path` on a candidate and a node that is chosen already
abbrev pub clash : RegistryNode → RegistryNode → Bool
clash c node =
    bytes_beq (c.operator) (node.operator) || bytes_beq (c.jurisdiction) (node.jurisdiction)

abbrev pub same_node : RegistryNode → RegistryNode → Bool
same_node c node =
    bytes_beq (c.id) (node.id) || bytes_beq (c.host) (node.host) && c.port == node.port

abbrev pub any {ℓ} : {A : Type ℓ} → (A → Bool) → List A → Bool
any p [] = false
any p (x ∷ xs) = p x || any p xs

abbrev pub admissible : Role → List RegistryNode → RegistryNode → Bool
admissible pos chosen node =
    fills node pos && not (any (λ c. clash c node) chosen || any (λ c. same_node c node) chosen)

-- The loop of `extend_path` over the candidates; `extend` is the recursive call.
unfoldable pub try_candidates :
    (List RegistryNode → Option (List RegistryNode))
    → Role
    → List RegistryNode
    → List RegistryNode
    → Option (List RegistryNode)
try_candidates extend pos chosen [] = none
try_candidates extend pos chosen (node ∷ candidates) =
    let rest = try_candidates extend pos chosen candidates in
    if admissible pos chosen node
    then elim (extend (chosen ++ node ∷ [])) [ none ↦ rest | some path ↦ some path ]
    else rest

-- `extend_path`: the path that it leaves in `chosen`. Each call adds a node, so `hops` calls at most
-- are nested.
unfoldable pub extend_path :
    ℕ → List RegistryNode → ℕ → List RegistryNode → Option (List RegistryNode)
extend_path zero candidates hops chosen = if length chosen == hops then some chosen else none
extend_path (suc fuel) candidates hops chosen =
    if length chosen == hops
    then some chosen
    else try_candidates (λ longer. extend_path fuel candidates hops longer)
        (for_position (length chosen) hops) chosen candidates

abbrev pub selected_hops : ℕ → ℕ → List RegistryNode → List SelectedHop
selected_hops index hops [] = []
selected_hops index hops (node ∷ chosen) =
    record { hop = to_hop node; node_id = node.id; intended_role = for_position index hops }
    ∷ selected_hops (suc index) hops chosen

-- The nodes that `select_path` chooses, and its answer
unfoldable pub select_nodes : NodeRegistry → Option (ℕ → ℕ) → ℕ → Option (List RegistryNode)
select_nodes registry random hops = extend_path hops (shuffle random (live_nodes registry)) hops []

unfoldable pub select_path : NodeRegistry → Option (ℕ → ℕ) → ℕ → Option (List SelectedHop)
select_path registry random hops = elim (select_nodes registry random hops) [
  | none ↦ none
  | some chosen ↦ some (selected_hops 0 hops chosen)
]
