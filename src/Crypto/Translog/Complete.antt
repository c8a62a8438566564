-- ===== src/Crypto/Translog/Complete.antt =====
-- The path that the log hands out for an entry leads from the entry to the root.
use nil.Prelude.{
  ℕ, zero, suc, ◌-◌, ◌/◌, ◌^◌, ◌≤◌, ◌<◌, ◌≡◌, true, some, List, Bytes, length, ◌==◌, arith,
  Bool-cases, ==_iff, inl, inr, map, get_elem?, bytes_beq_refl,
}
use nil.Crypto.Translog.{
  Primitives, LogProof, root_from_inclusion, leaf_hash, verify_checkpoint, verify_logged,
}
use nil.Crypto.Translog.Tree.{
  at, at-map, length-map, pair_up, root_above, path_above, tree_root, audit_path_of, length-pair_up,
  at-over_right, at-over_left, at-over_last, sibling-right, sibling-left, sibling-last,
  root_above-single, path_above-single,
}
use nil.Crypto.Translog.Climb.{
  climb, position-cases, climb-right, climb-left, climb-alone, climb-root,
  root_from_inclusion-climb,
}

module _ (primitives : Primitives) where
  -- One level of the way.
  step :
      (fuel index last : ℕ) (level : List Bytes)
      → length level ≡ suc last
      → index ≤ last
      → climb primitives
          (index / 2)
          (last / 2)
          (at (pair_up primitives level) (index / 2))
          (path_above primitives fuel (index / 2) (pair_up primitives level))
        ≡ some (root_above primitives (suc fuel) level)
      → climb primitives index last (at level index) (path_above primitives (suc fuel) index level)
        ≡ some (root_above primitives (suc fuel) level)
  step fuel index last level e p above =
      let rest : List Bytes = path_above primitives fuel (index / 2) (pair_up primitives level) in
      elim (position-cases index last p) [
        | inl odd ↦
            rw
              (
                sibling-right primitives index level rest odd,
                climb-right primitives index last (at level index) (at level (index - 1)) rest odd,
                ← at-over_right primitives index level odd (omega arith),
              )
              above
        | inr (inl even) ↦
            rw
              (
                sibling-left primitives index level rest even.0 (omega (arith, even.1)),
                climb-left primitives index last (at level index) (at level (suc index)) rest even.0
                    even.1,
                ← at-over_left primitives index level even.0 (omega (arith, even.1)),
              )
              above
        | inr (inr even) ↦
            rw
              (
                sibling-last primitives index level rest even.0 (omega (arith, even.1)),
                climb-alone primitives index last (at level index) rest even.0 even.1,
                ← at-over_last primitives index level even.0 (omega (arith, even.1)),
              )
              above
      ]

  climb-path_above :
      (fuel index last : ℕ) (level : List Bytes)
      → length level ≡ suc last
      → index ≤ last
      → last ≤ fuel
      → climb primitives index last (at level index) (path_above primitives fuel index level)
        ≡ some (root_above primitives fuel level)
  climb-path_above zero index last level e p q =
      let here : index ≡ 0 = omega arith in
      let top : last ≡ 0 = omega arith in rw (here, top) (climb-root primitives (at level 0))
  climb-path_above (suc fuel) index last level e p q = elim (Bool-cases (last == 0)) [
    | inl single ↦
        let top : last ≡ 0 = (==_iff last 0).0 single in
        let here : index ≡ 0 = omega arith in
        rw
          (
            here,
            top,
            path_above-single primitives (suc fuel) level (omega arith),
            root_above-single primitives (suc fuel) level (omega arith),
          )
          (climb-root primitives (at level 0))
    | inr several ↦ step fuel index last level e p (
        climb-path_above fuel (index / 2) (last / 2) (pair_up primitives level)
          (omega (arith, length-pair_up primitives level)) (omega arith) (ground arith))
  ]

  -- The audit path of a position of a tree leads from the hash at that position to the root of the
  -- tree, for trees of at most 2 ^ 63 leaves.
  pub root_from_inclusion-audit_path_of :
      (index : ℕ) (leaves : List Bytes)
      → index < length leaves
      → length leaves ≤ 2 ^ 63
      → root_from_inclusion primitives index
          (length leaves)
          (at leaves index)
          (audit_path_of primitives index leaves)
        ≡ some (tree_root primitives leaves)
  unfolding audit_path_of tree_root
  root_from_inclusion-audit_path_of index leaves lt small =
      rw
        (root_from_inclusion-climb primitives index (length leaves) (at leaves index)
          (path_above primitives (length leaves) index leaves) lt small)
        (climb-path_above (length leaves) index (length leaves - 1) leaves (omega arith)
          (omega arith) (omega arith))

  -- In a log of at most 2 ^ 63 entries, a proof that carries the audit path of an entry, the size of
  -- the log and the root of its tree, under a checkpoint that the log's key signed, shows that the
  -- entry is logged.
  pub verify_logged_complete :
      (entries : List Bytes) (data_ log_pubkey : Bytes) (proof : LogProof)
      → get_elem? entries (proof.leaf_index) ≡ some data_
      → proof.tree_size ≡ length entries
      → length entries ≤ 2 ^ 63
      → proof.root ≡ tree_root primitives (map (leaf_hash primitives) entries)
      → proof.audit_path
        ≡ audit_path_of primitives (proof.leaf_index) (map (leaf_hash primitives) entries)
      → primitives.is_verifying_key log_pubkey ≡ true
      → verify_checkpoint primitives proof log_pubkey ≡ true
      → verify_logged primitives data_ proof log_pubkey ≡ true
  unfolding verify_logged
  verify_logged_complete entries data_ log_pubkey proof found size small root path key signed =
      let leaves : List Bytes = map (leaf_hash primitives) entries in
      let count : length leaves ≡ length entries = length-map (leaf_hash primitives) entries in
      let placed : (proof.leaf_index < length entries)
          × (at leaves (proof.leaf_index) ≡ leaf_hash primitives data_) =
        at-map (leaf_hash primitives) entries (proof.leaf_index) found in
      rw
        (
          key,
          signed,
          size,
          ← count,
          ← placed.1,
          path,
          root_from_inclusion-audit_path_of (proof.leaf_index) leaves (omega (arith, placed.0))
              (omega arith),
        )
        (rw root (bytes_beq_refl (tree_root primitives leaves)))
