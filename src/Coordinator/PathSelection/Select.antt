-- ===== src/Coordinator/PathSelection/Select.antt =====
-- What `select_path` answers.
use nil.Prelude.{
  ℕ, suc, ◌≡◌, ◌⊎◌, inl, inr, refl, sym, ap, Bool, true, false, not, Option, none, some, List, [],
  ◌∷◌, Bytes, length, all, bytes_beq, bytes_beq_iff, bytes_beq_refl, Option-cases, Bool-cases,
  arith,
}
use mathlib.Core.List.{Memᴰ}
use mathlib.Core.Option.{some_inj}
use nil.Coordinator.Registry.{
  RegistryNode, NodeRegistry, live_nodes, mark_down, contains, filter, to_hop,
}
use nil.Coordinator.PathSelection.{SelectedHop, select_path, select_nodes, selected_hops, shuffle}
use nil.Coordinator.PathSelection.Diverse.{IsPath}
use nil.Coordinator.PathSelection.Found.{extend_path_sound, extend_path_complete}
use nil.Coordinator.PathSelection.Shuffle.{shuffle-Mem}

IsPath_mono :
    (candidates others : List RegistryNode) (hops i : ℕ) (path : List RegistryNode)
    → ((n : RegistryNode) → Memᴰ n candidates → Memᴰ n others)
    → IsPath candidates hops i path
    → IsPath others hops i path
IsPath_mono candidates others hops i [] sub h = tt
IsPath_mono candidates others hops i (n ∷ path) sub h =
    (sub n h.0, h.1, h.2, IsPath_mono candidates others hops (suc i) path sub h.3)

module _ (registry : NodeRegistry) (random : Option (ℕ → ℕ)) (hops : ℕ) where
  select_nodes_sound :
      (path : List RegistryNode)
      → select_nodes registry random hops ≡ some path
      → IsPath (live_nodes registry) hops 0 path × (length path ≡ hops)
  unfolding select_nodes
  select_nodes_sound path h =
      let found = extend_path_sound (shuffle random (live_nodes registry)) hops hops [] path tt h in
      (
        IsPath_mono (shuffle random (live_nodes registry)) (live_nodes registry) hops 0 path
            (λ n m. (shuffle-Mem random (live_nodes registry)).0 m) found.0,
        found.1,
      )

  -- The hops that are selected are those of a path of live nodes, as many as asked for: each fills
  -- its position, and no two share an operator, a jurisdiction, an identity or an endpoint.
  pub select_path_sound :
      (selected : List SelectedHop)
      → select_path registry random hops ≡ some selected
      → (path : List RegistryNode) × IsPath (live_nodes registry) hops 0 path
        × (length path ≡ hops)
        × (selected ≡ selected_hops 0 hops path)
  unfolding select_path
  select_path_sound selected h = elim (Option-cases (select_nodes registry random hops)) [
    | inl refused ↦ let gone : none ≡ some selected = rw (select_path, refused) at h in cc
    | inr (path, found) ↦
        let given : some (selected_hops 0 hops path) ≡ some selected =
          rw (select_path, found) at h in
        let valid = select_nodes_sound path found in
        (path, valid.0, valid.1, sym (some_inj.0 given))
  ]

  -- A path is selected, whatever the random numbers are, when the live nodes have one.
  pub select_path_complete :
      (path : List RegistryNode)
      → IsPath (live_nodes registry) hops 0 path
      → length path ≡ hops
      → (selected : List SelectedHop) × (select_path registry random hops ≡ some selected)
  unfolding select_path select_nodes
  select_path_complete path valid size =
      let shuffled =
        IsPath_mono (live_nodes registry) (shuffle random (live_nodes registry)) hops 0 path
          (λ n m. (shuffle-Mem random (live_nodes registry)).1 m) valid in
      let (found, e) =
        extend_path_complete (shuffle random (live_nodes registry)) hops hops [] path shuffled size
          (omega (arith, size)) in
      (selected_hops 0 hops found, rw (select_path, select_nodes, e) refl)

Mem-cons_cases :
    {n x : RegistryNode} {xs : List RegistryNode} → Memᴰ n (x ∷ xs) → (n ≡ x) ⊎ Memᴰ n xs
Mem-cons_cases (Memᴰ.head e) = inl e
Mem-cons_cases (Memᴰ.tail later) = inr later

filter-Mem :
    (p : RegistryNode → Bool) (xs : List RegistryNode) (n : RegistryNode)
    → Memᴰ n (filter p xs)
    → p n ≡ true
filter-Mem p [] n m = elim m [ ]
filter-Mem p (x ∷ xs) n m = elim (Bool-cases (p x)) [
  | inr dropped ↦ filter-Mem p xs n (rw dropped at m)
  | inl kept ↦ elim (Mem-cons_cases (rw kept at m)) [
    | inl e ↦ rw e kept
    | inr later ↦ filter-Mem p xs n later
  ]
]

contains-mark_down :
    (registry : NodeRegistry) (host : Bytes) → contains ((mark_down registry host).dead) host ≡ true
unfolding mark_down
contains-mark_down registry host = elim (Bool-cases (contains (registry.dead) host)) [
  | inl known ↦ rw (known, known) refl
  | inr new ↦ rw new (ground (arith, bytes_beq_refl host))
]

live_node-mark_down :
    (registry : NodeRegistry) (host : Bytes) (n : RegistryNode)
    → Memᴰ n (live_nodes (mark_down registry host))
    → bytes_beq (n.host) host ≡ false
unfolding live_nodes
live_node-mark_down registry host n m = elim (Bool-cases (bytes_beq (n.host) host)) [
  | inr other ↦ other
  | inl same ↦
      let live =
        filter-Mem (λ k. not (contains ((mark_down registry host).dead) (k.host)))
          ((mark_down registry host).nodes) n m in
      absurd (
        ground (
          arith,
          live,
          contains-mark_down registry host,
          ap (contains ((mark_down registry host).dead)) ((bytes_beq_iff (n.host) host).0 same),
        ))
]

others_only :
    (candidates : List RegistryNode) (host : Bytes) (hops i : ℕ) (path : List RegistryNode)
    → ((n : RegistryNode) → Memᴰ n candidates → bytes_beq (n.host) host ≡ false)
    → IsPath candidates hops i path
    → all (λ s. not (bytes_beq (s.hop.host) host)) (selected_hops i hops path) ≡ true
unfolding to_hop
others_only candidates host hops i [] other h = refl
others_only candidates host hops i (n ∷ path) other h =
    rw (other n h.0) (others_only candidates host hops (suc i) path other h.3)

-- A host that is marked down is on no path that is selected.
pub select_path-mark_down :
    (registry : NodeRegistry) (host : Bytes) (random : Option (ℕ → ℕ)) (hops : ℕ)
    (selected : List SelectedHop)
    → select_path (mark_down registry host) random hops ≡ some selected
    → all (λ s. not (bytes_beq (s.hop.host) host)) selected ≡ true
select_path-mark_down registry host random hops selected h =
    let (path, valid, size, e) =
      select_path_sound (mark_down registry host) random hops selected h in
    rw e (
      others_only (live_nodes (mark_down registry host)) host hops 0 path
        (live_node-mark_down registry host) valid)
