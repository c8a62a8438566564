-- ===== src/Crypto/Translog/Tree.antt =====
-- The Merkle tree that the log's proofs are about, one level at a time: the hashes of a level are
-- joined in pairs, and a last one without a partner goes up as it is (RFC 6962 section 2).
use nil.Prelude.{
  ℕ, zero, suc, ◌+◌, ◌-◌, ◌*◌, ◌/◌, ◌%◌, ◌<◌, ◌≡◌, refl, ◌≢◌, List, [], map, ap, get_elem?, some,
  ◌∷◌, Bytes, length, ◌==◌, if◌then◌else◌, arith,
}
use nil.Crypto.Translog.{Primitives, hash_children}

-- The hash at a position, if there is one
abbrev pub at : List Bytes → ℕ → Bytes
at [] i = []
at (x ∷ xs) zero = x
at (x ∷ xs) (suc i) = at xs i

pub length-map : (f : Bytes → Bytes) (xs : List Bytes) → length (map f xs) ≡ length xs
length-map f [] = refl
length-map f (x ∷ xs) = ap suc (length-map f xs)

pub at-map :
    (f : Bytes → Bytes) (xs : List Bytes) (i : ℕ) {x : Bytes}
    → get_elem? xs i ≡ some x
    → (i < length xs) × (at (map f xs) i ≡ f x)
at-map f [] i h = cc
at-map f (y ∷ ys) zero h = (omega arith, ground arith)
at-map f (y ∷ ys) (suc i) h = let rest = at-map f ys i h in (omega (arith, rest.0), rest.1)

two_more : (i : ℕ) → suc i * 2 ≡ suc (suc (i * 2))
two_more i = omega arith

module _ (primitives : Primitives) where
  abbrev pub pair_up : List Bytes → List Bytes
  pair_up [] = []
  pair_up (x ∷ []) = x ∷ []
  pair_up (x ∷ y ∷ rest) = hash_children primitives x y ∷ pair_up rest

  -- The root of a level. A level of `n` hashes is under `n` levels at most.
  abbrev pub root_above : ℕ → List Bytes → Bytes
  root_above zero level = at level 0
  root_above (suc fuel) level = root_above fuel (pair_up level)

  unfoldable pub tree_root : List Bytes → Bytes
  tree_root level = root_above (length level) level

  -- The siblings on the way from a position to the root.
  abbrev pub sibling : ℕ → List Bytes → List Bytes → List Bytes
  sibling index level rest =
      if index % 2 == 1
      then at level (index - 1) ∷ rest
      else if suc index == length level
      then rest
      else at level (suc index) ∷ rest

  abbrev pub path_above : ℕ → ℕ → List Bytes → List Bytes
  path_above zero index level = []
  path_above (suc fuel) index level =
      sibling index level (path_above fuel (index / 2) (pair_up level))

  unfoldable pub audit_path_of : ℕ → List Bytes → List Bytes
  audit_path_of index level = path_above (length level) index level

  pub length-pair_up : (level : List Bytes) → length (pair_up level) ≡ suc (length level) / 2
  length-pair_up [] = omega arith
  length-pair_up (x ∷ []) = omega arith
  length-pair_up (x ∷ y ∷ rest) = omega (arith, length-pair_up rest)

  -- What stands over a pair, and over a last hash without a partner.
  pub at-pair_up_both :
      (i : ℕ) (level : List Bytes)
      → i * 2 + 1 < length level
      → at (pair_up level) i ≡ hash_children primitives (at level (i * 2)) (at level (suc (i * 2)))
  at-pair_up_both i [] h = absurd (omega arith)
  at-pair_up_both i (x ∷ []) h = absurd (omega arith)
  at-pair_up_both zero (x ∷ y ∷ rest) h = refl
  at-pair_up_both (suc i) (x ∷ y ∷ rest) h = rw (two_more i) (at-pair_up_both i rest (omega arith))

  pub at-pair_up_last :
      (i : ℕ) (level : List Bytes)
      → i * 2 + 1 ≡ length level
      → at (pair_up level) i ≡ at level (i * 2)
  at-pair_up_last i [] h = absurd (omega arith)
  at-pair_up_last zero (x ∷ []) h = refl
  at-pair_up_last (suc i) (x ∷ []) h = absurd (omega arith)
  at-pair_up_last zero (x ∷ y ∷ rest) h = absurd (omega arith)
  at-pair_up_last (suc i) (x ∷ y ∷ rest) h = rw (two_more i) (at-pair_up_last i rest (omega arith))

  -- The same by the kind of the position.
  pub at-over_right :
      (i : ℕ) (level : List Bytes)
      → i % 2 ≡ 1
      → i < length level
      → at (pair_up level) (i / 2) ≡ hash_children primitives (at level (i - 1)) (at level i)
  at-over_right i level h lt =
      let left : i / 2 * 2 ≡ i - 1 = omega arith in
      let right : suc (i - 1) ≡ i = omega arith in
      rw (at-pair_up_both (i / 2) level (omega arith), left, right) refl

  pub at-over_left :
      (i : ℕ) (level : List Bytes)
      → i % 2 ≡ 0
      → suc i < length level
      → at (pair_up level) (i / 2) ≡ hash_children primitives (at level i) (at level (suc i))
  at-over_left i level h lt =
      let left : i / 2 * 2 ≡ i = omega arith in
      rw (at-pair_up_both (i / 2) level (omega arith), left) refl

  pub at-over_last :
      (i : ℕ) (level : List Bytes)
      → i % 2 ≡ 0
      → suc i ≡ length level
      → at (pair_up level) (i / 2) ≡ at level i
  at-over_last i level h e =
      let left : i / 2 * 2 ≡ i = omega arith in
      rw (at-pair_up_last (i / 2) level (omega arith), left) refl

  pub sibling-right :
      (i : ℕ) (level rest : List Bytes) → i % 2 ≡ 1 → sibling i level rest ≡ at level (i - 1) ∷ rest
  sibling-right i level rest h = rw h refl

  pub sibling-left :
      (i : ℕ) (level rest : List Bytes)
      → i % 2 ≡ 0
      → suc i ≢ length level
      → sibling i level rest ≡ at level (suc i) ∷ rest
  sibling-left i level rest h ne = rw h (ground arith)

  pub sibling-last :
      (i : ℕ) (level rest : List Bytes)
      → i % 2 ≡ 0
      → suc i ≡ length level
      → sibling i level rest ≡ rest
  sibling-last i level rest h e = rw h (ground arith)

  -- A single hash is the root, at any height.
  pub root_above-single :
      (fuel : ℕ) (level : List Bytes) → length level ≡ 1 → root_above fuel level ≡ at level 0
  root_above-single zero level h = refl
  root_above-single (suc fuel) [] h = absurd (omega arith)
  root_above-single (suc fuel) (x ∷ []) h = root_above-single fuel (x ∷ []) refl
  root_above-single (suc fuel) (x ∷ y ∷ rest) h = absurd (omega arith)

  pub path_above-single :
      (fuel : ℕ) (level : List Bytes) → length level ≡ 1 → path_above fuel 0 level ≡ []
  path_above-single zero level h = refl
  path_above-single (suc fuel) [] h = absurd (omega arith)
  path_above-single (suc fuel) (x ∷ []) h = path_above-single fuel (x ∷ []) refl
  path_above-single (suc fuel) (x ∷ y ∷ rest) h = absurd (omega arith)
