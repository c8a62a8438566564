-- ===== src/Crypto/Translog/Sound.antt =====
-- What an accepted proof shows: the entry is in the log's tree at the position that the proof names,
-- or the proof exhibits a collision of SHA-256.
use nil.Prelude.{
  ℕ, zero, suc, ◌-◌, ◌/◌, ◌%◌, ◌^◌, ◌≤◌, ◌<◌, ◌≡◌, ◌⊎◌, refl, sym, ◌∙◌, true, some, List, [], ◌∷◌,
  Bytes, length, ◌==◌, arith, Bool-cases, ==_iff, inl, inr,
}
use nil.Crypto.Translog.{Primitives, hash_children, root_from_inclusion}
use nil.Crypto.Translog.Collision.{
  Collision, digests, digests-at, digests-pair_up, hash_children-cases, length-hash_children,
}
use nil.Crypto.Translog.Tree.{
  at, pair_up, root_above, path_above, tree_root, audit_path_of, length-pair_up, at-over_right,
  at-over_left, at-over_last, sibling-right, sibling-left, sibling-last, root_above-single,
  path_above-single,
}
use nil.Crypto.Translog.Climb.{
  climb, position-cases, climb-right, climb-right-nil, climb-left, climb-left-nil, climb-alone,
  climb-root, climb-root-cons, root_from_inclusion-climb, root_from_inclusion-inside,
}

module _ (primitives : Primitives) (digest : (x : Bytes) → length (primitives.sha256 x) ≡ 32) where
  -- The claim at a level of the tree.
  abbrev Pinned : ℕ → ℕ → List Bytes → Bytes → List Bytes → Type 0
  Pinned fuel index level leaf path =
      ((leaf ≡ at level index) × (path ≡ path_above primitives fuel index level))
      ⊎ Collision primitives

  -- One level of the way, given what the proof shows at the level above.
  module _ (fuel index last : ℕ) (level : List Bytes) (size : length level ≡ suc last)
      (inside : index ≤ last) (digests_level : digests level ≡ true)
      (above : (leaf : Bytes) (path : List Bytes)
        → length leaf ≡ 32
        → digests path ≡ true
        → climb primitives (index / 2) (last / 2) leaf path
          ≡ some (root_above primitives (suc fuel) level)
        → Pinned fuel (index / 2) (pair_up primitives level) leaf path) where
    abbrev rest : List Bytes
    rest = path_above primitives fuel (index / 2) (pair_up primitives level)

    step-right :
        (leaf : Bytes) (path : List Bytes)
        → length leaf ≡ 32
        → digests path ≡ true
        → climb primitives index last leaf path ≡ some (root_above primitives (suc fuel) level)
        → index % 2 ≡ 1
        → Pinned (suc fuel) index level leaf path
    step-right leaf [] digest_leaf digests_path climbs odd =
        let gone = rw (climb-right-nil primitives index last leaf odd) at climbs in cc
    step-right leaf (p ∷ path) digest_leaf digests_path climbs odd =
        elim (above (hash_children primitives p leaf) path
          (length-hash_children primitives digest p leaf) (ground arith)
          (sym (climb-right primitives index last leaf p path odd) ∙ climbs)) [
            | inl shown ↦
                elim (hash_children-cases primitives digest p leaf (at level (index - 1))
                  (at level index) (ground arith)
                  (digests-at level (index - 1) digests_level (omega arith))
                  (shown.0 ∙ at-over_right primitives index level odd (omega arith))) [
                    | inl same ↦ inl (
                      same.1,
                      rw (sibling-right primitives index level rest odd, same.0, shown.1) refl,
                    )
                    | inr collision ↦ inr collision
                  ]
            | inr collision ↦ inr collision
          ]

    step-left :
        (leaf : Bytes) (path : List Bytes)
        → length leaf ≡ 32
        → digests path ≡ true
        → climb primitives index last leaf path ≡ some (root_above primitives (suc fuel) level)
        → index % 2 ≡ 0
        → index < last
        → Pinned (suc fuel) index level leaf path
    step-left leaf [] digest_leaf digests_path climbs even lt =
        let gone = rw (climb-left-nil primitives index last leaf lt) at climbs in cc
    step-left leaf (p ∷ path) digest_leaf digests_path climbs even lt =
        elim (above (hash_children primitives leaf p) path
          (length-hash_children primitives digest leaf p) (ground arith)
          (sym (climb-left primitives index last leaf p path even lt) ∙ climbs)) [
            | inl shown ↦
                elim (hash_children-cases primitives digest leaf p (at level index)
                  (at level (suc index)) digest_leaf
                  (digests-at level index digests_level (omega arith))
                  (shown.0 ∙ at-over_left primitives index level even (omega arith))) [
                    | inl same ↦ inl (
                      same.0,
                      rw
                          (
                            sibling-left primitives index level rest even (omega arith),
                            same.1,
                            shown.1,
                          )
                          refl,
                    )
                    | inr collision ↦ inr collision
                  ]
            | inr collision ↦ inr collision
          ]

    step :
        (leaf : Bytes) (path : List Bytes)
        → length leaf ≡ 32
        → digests path ≡ true
        → climb primitives index last leaf path ≡ some (root_above primitives (suc fuel) level)
        → Pinned (suc fuel) index level leaf path
    step leaf path digest_leaf digests_path climbs = elim (position-cases index last inside) [
      | inl odd ↦ step-right leaf path digest_leaf digests_path climbs odd
      | inr (inl even) ↦ step-left leaf path digest_leaf digests_path climbs even.0 even.1
      | inr (inr even) ↦
          rw
            (
              sibling-last primitives index level rest even.0 (omega (arith, even.1)),
              ← at-over_last primitives index level even.0 (omega (arith, even.1)),
            )
            (above leaf path digest_leaf digests_path
              (sym (climb-alone primitives index last leaf path even.0 even.1) ∙ climbs))
    ]

  single :
      (fuel : ℕ) (level : List Bytes) (leaf : Bytes) (path : List Bytes)
      → length level ≡ 1
      → climb primitives 0 0 leaf path ≡ some (root_above primitives fuel level)
      → Pinned fuel 0 level leaf path
  single fuel level leaf [] size climbs =
      let found : some leaf ≡ some (at level 0) =
        rw (climb-root primitives leaf, root_above-single primitives fuel level size) at climbs in
      inl (ground arith, sym (path_above-single primitives fuel level size))
  single fuel level leaf (p ∷ path) size climbs =
      let gone = rw (climb-root-cons primitives leaf p path) at climbs in cc

  climb-pins :
      (fuel index last : ℕ) (level : List Bytes) (leaf : Bytes) (path : List Bytes)
      → length level ≡ suc last
      → index ≤ last
      → last ≤ fuel
      → digests level ≡ true
      → length leaf ≡ 32
      → digests path ≡ true
      → climb primitives index last leaf path ≡ some (root_above primitives fuel level)
      → Pinned fuel index level leaf path
  climb-pins zero index last level leaf path size p q ds dl dp climbs =
      let here : index ≡ 0 = omega arith in
      let top : last ≡ 0 = omega arith in
      rw here (single zero level leaf path (omega arith) (rw (here, top) at climbs))
  climb-pins (suc fuel) index last level leaf path size p q ds dl dp climbs =
      elim (Bool-cases (last == 0)) [
        | inl alone ↦
            let top : last ≡ 0 = (==_iff last 0).0 alone in
            let here : index ≡ 0 = omega arith in
            rw here (single (suc fuel) level leaf path (omega arith) (rw (here, top) at climbs))
        | inr several ↦
            step fuel index last level size p ds
              (λ leaf' path' dl' dp'.
                climb-pins fuel (index / 2) (last / 2) (pair_up primitives level) leaf' path'
                  (omega (arith, length-pair_up primitives level)) (omega arith) (ground arith)
                  (digests-pair_up primitives digest level ds) dl' dp')
              leaf path dl dp climbs
      ]

  -- A path of digests that leads from a digest at a position of a tree to the root of the tree starts
  -- at the tree's own hash and is the tree's own audit path, or SHA-256 has a collision. Digests have
  -- 32 bytes, and the tree has at most 2 ^ 63 leaves.
  pub root_from_inclusion-pins :
      (index : ℕ) (leaves : List Bytes) (leaf : Bytes) (path : List Bytes)
      → length leaves ≤ 2 ^ 63
      → digests leaves ≡ true
      → length leaf ≡ 32
      → digests path ≡ true
      → root_from_inclusion primitives index (length leaves) leaf path
        ≡ some (tree_root primitives leaves)
      → ((leaf ≡ at leaves index) × (path ≡ audit_path_of primitives index leaves))
        ⊎ Collision primitives
  unfolding audit_path_of tree_root
  root_from_inclusion-pins index leaves leaf path small dl dleaf dpath found =
      let lt : index < length leaves =
        root_from_inclusion-inside primitives index (length leaves) leaf path found in
      climb-pins (length leaves) index (length leaves - 1) leaves leaf path (omega arith)
        (omega arith) (omega arith) dl dleaf dpath
        (sym (root_from_inclusion-climb primitives index (length leaves) leaf path lt small)
          ∙ found)
