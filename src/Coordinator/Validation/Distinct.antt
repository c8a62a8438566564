-- ===== src/Coordinator/Validation/Distinct.antt =====
-- A registry that loads has no identity and no endpoint twice, and each of its nodes comes from a
-- checked entry.
use nil.Prelude.{
  ℕ, ◌≡◌, inl, inr, refl, sym, Bool, true, false, not, ◌&&◌, ◌||◌, Option, List, [], ◌∷◌, Bytes,
  length, bytes_beq, bytes_beq_refl, bytes_beq_iff, ◌==◌, ==_iff, Result, ok, guard, >>=-eq-ok,
  Bool-cases, arith,
}
use nil.Coordinator.Registry.{RegistryNode, NodeRegistry, contains}
use nil.Coordinator.Validation.{
  RegistryError, RegistryFileNode, validate_registry_node, has_endpoint, load_nodes, from_file,
}

abbrev pub has_id : List RegistryNode → Bytes → Bool
has_id [] id = false
has_id (n ∷ nodes) id = bytes_beq n.id id || has_id nodes id

abbrev pub serves : List RegistryNode → Bytes → ℕ → Bool
serves [] host port = false
serves (n ∷ nodes) host port = bytes_beq n.host host && n.port == port || serves nodes host port

-- Each node is told from the later ones by its identity and by its endpoint.
abbrev pub distinct : List RegistryNode → Bool
distinct [] = true
distinct (n ∷ nodes) = not (has_id nodes n.id) && not (serves nodes n.host n.port) && distinct nodes

not_met :
    (test : Bool) (why : RegistryError) {u : Unit {0}} → guard (not test) why ≡ ok u → test ≡ false
not_met true why h = cc
not_met false why h = refl

pub ok_injective : {A : Type 0} {a b : A} → ◌≡◌ {A = Result A RegistryError} (ok a) (ok b) → a ≡ b
ok_injective h = ground (arith, h)

module _ (canonical_ip : Bytes → Option Bytes) where
  -- The steps of one round of the loop.
  load_nodes-cons :
      (ids : List Bytes) (endpoints : List (Bytes × ℕ)) (dto : RegistryFileNode)
      (dtos : List RegistryFileNode) (loaded : List RegistryNode)
      → load_nodes canonical_ip ids endpoints (dto ∷ dtos) ≡ ok loaded
      → (node : RegistryNode) × (nodes : List RegistryNode) × (validate_registry_node canonical_ip
            dto
          ≡ ok node)
        × (contains ids node.id ≡ false)
        × (has_endpoint endpoints node.host node.port ≡ false)
        × (load_nodes canonical_ip (node.id ∷ ids) ((node.host, node.port) ∷ endpoints) dtos
            ≡ ok nodes)
        × (loaded ≡ node ∷ nodes)
  unfolding load_nodes
  load_nodes-cons ids endpoints dto dtos loaded h =
      let (node, checked, h1) = >>=-eq-ok (validate_registry_node canonical_ip dto) _ h in
      let (u, fresh, h2) = >>=-eq-ok (guard (not (contains ids node.id)) _) _ h1 in
      let (v, free, h3) =
        >>=-eq-ok (guard (not (has_endpoint endpoints node.host node.port)) _) _ h2 in
      let (nodes, rest, h4) =
        >>=-eq-ok
          (load_nodes canonical_ip (node.id ∷ ids) ((node.host, node.port) ∷ endpoints) dtos) _
          h3 in
      (node, nodes, checked, not_met _ _ fresh, not_met _ _ free, rest, ok_injective (sym h4))

  -- What was met before is not loaded again.
  fresh_ids :
      (ids : List Bytes) (endpoints : List (Bytes × ℕ)) (dtos : List RegistryFileNode)
      (nodes : List RegistryNode) (id : Bytes)
      → load_nodes canonical_ip ids endpoints dtos ≡ ok nodes
      → contains ids id ≡ true
      → has_id nodes id ≡ false
  unfolding load_nodes
  fresh_ids ids endpoints [] nodes id h met = rw (← ok_injective h) refl
  fresh_ids ids endpoints (dto ∷ dtos) loaded id h met =
      let (node, nodes, checked, fresh, free, rest, same) =
        load_nodes-cons ids endpoints dto dtos loaded h in
      let later =
        fresh_ids (node.id ∷ ids) ((node.host, node.port) ∷ endpoints) dtos nodes id rest
          (ground (arith, met)) in
      rw same (elim (Bool-cases (bytes_beq node.id id)) [
        | inl e ↦
            let known : contains ids node.id ≡ true = rw ((bytes_beq_iff node.id id).0 e) met in cc
        | inr e ↦ rw (e, later) refl
      ])

  fresh_endpoints :
      (ids : List Bytes) (endpoints : List (Bytes × ℕ)) (dtos : List RegistryFileNode)
      (nodes : List RegistryNode) (host : Bytes) (port : ℕ)
      → load_nodes canonical_ip ids endpoints dtos ≡ ok nodes
      → has_endpoint endpoints host port ≡ true
      → serves nodes host port ≡ false
  unfolding load_nodes
  fresh_endpoints ids endpoints [] nodes host port h met = rw (← ok_injective h) refl
  fresh_endpoints ids endpoints (dto ∷ dtos) loaded host port h met =
      let (node, nodes, checked, fresh, free, rest, same) =
        load_nodes-cons ids endpoints dto dtos loaded h in
      let later =
        fresh_endpoints (node.id ∷ ids) ((node.host, node.port) ∷ endpoints) dtos nodes host port
          rest (ground (arith, met)) in
      rw same (elim (Bool-cases (bytes_beq node.host host && node.port == port)) [
        | inl e ↦
            let hosts : node.host ≡ host = (bytes_beq_iff node.host host).0 (ground arith) in
            let ports : node.port ≡ port = (==_iff node.port port).0 (ground arith) in
            let known : has_endpoint endpoints node.host node.port ≡ true = rw (hosts, ports) met in
            cc
        | inr e ↦ rw (e, later) refl
      ])

  load_nodes-distinct :
      (ids : List Bytes) (endpoints : List (Bytes × ℕ)) (dtos : List RegistryFileNode)
      (nodes : List RegistryNode)
      → load_nodes canonical_ip ids endpoints dtos ≡ ok nodes
      → distinct nodes ≡ true
  unfolding load_nodes
  load_nodes-distinct ids endpoints [] nodes h = rw (← ok_injective h) refl
  load_nodes-distinct ids endpoints (dto ∷ dtos) loaded h =
      let (node, nodes, checked, fresh, free, rest, same) =
        load_nodes-cons ids endpoints dto dtos loaded h in
      let no_id =
        fresh_ids (node.id ∷ ids) ((node.host, node.port) ∷ endpoints) dtos nodes node.id rest
          (ground (arith, bytes_beq_refl node.id)) in
      let no_endpoint =
        fresh_endpoints (node.id ∷ ids) ((node.host, node.port) ∷ endpoints) dtos nodes node.host
          node.port rest (ground (arith, bytes_beq_refl node.host)) in
      rw (same, no_id, no_endpoint)
        (load_nodes-distinct (node.id ∷ ids) ((node.host, node.port) ∷ endpoints) dtos nodes rest)

  -- No two nodes of a registry that loads have one identity, or one host and port.
  pub from_file-distinct :
      (dtos : List RegistryFileNode) (registry : NodeRegistry)
      → from_file canonical_ip dtos ≡ ok registry
      → distinct registry.nodes ≡ true
  unfolding from_file
  from_file-distinct dtos registry h =
      let (u, some_node, h1) = >>=-eq-ok (guard (not (length dtos == 0)) _) _ h in
      let (nodes, loaded, h2) = >>=-eq-ok (load_nodes canonical_ip [] [] dtos) _ h1 in
      rw (← ok_injective h2) (load_nodes-distinct [] [] dtos nodes loaded)
