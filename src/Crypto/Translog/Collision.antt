-- ===== src/Crypto/Translog/Collision.antt =====
-- Collisions of SHA-256, and the 32 bytes of its digests.
use nil.Prelude.{
  ℕ, zero, suc, ◌<◌, ◌≡◌, ◌≢◌, ◌⊎◌, refl, sym, ap, ◌∙◌, Bool, true, List, [], ◌∷◌, ◌++◌, Bytes,
  length, take, drop, take-append_at, drop-append_at, ◌==◌, arith, Bool-cases, inl, inr, map,
  bytes_beq, bytes_beq_iff, all,
}
use nil.Crypto.Translog.{Primitives, hash_children, leaf_hash}
use nil.Crypto.Translog.Tree.{at, pair_up}

-- Two byte strings with one hash.
pub Collision : Primitives → Type 0
Collision primitives =
    (x : Bytes) × (y : Bytes) × (x ≢ y) × (primitives.sha256 x ≡ primitives.sha256 y)

-- `[u8; 32]`
abbrev pub digests : List Bytes → Bool
digests = all (λ hash. length hash == 32)

pub digests-at :
    (level : List Bytes) (i : ℕ)
    → digests level ≡ true
    → i < length level
    → length (at level i) ≡ 32
digests-at [] i all_digests lt = absurd (omega arith)
digests-at (x ∷ xs) zero all_digests lt = ground arith
digests-at (x ∷ xs) (suc i) all_digests lt = digests-at xs i (ground arith) (omega arith)

module _ (primitives : Primitives) (digest : (x : Bytes) → length (primitives.sha256 x) ≡ 32) where
  pub digests-map : (entries : List Bytes) → digests (map (leaf_hash primitives) entries) ≡ true
  unfolding leaf_hash
  digests-map [] = refl
  digests-map (x ∷ xs) = ground (arith, digests-map xs, digest (0 ∷ x))

  pub digests-pair_up :
      (level : List Bytes) → digests level ≡ true → digests (pair_up primitives level) ≡ true
  unfolding hash_children
  digests-pair_up [] h = refl
  digests-pair_up (x ∷ []) h = h
  digests-pair_up (x ∷ y ∷ rest) h =
      ground (arith, digests-pair_up rest (ground arith), digest (1 ∷ x ++ y))

  pub length-hash_children : (x y : Bytes) → length (hash_children primitives x y) ≡ 32
  unfolding hash_children
  length-hash_children x y = digest (1 ∷ x ++ y)

  pub length-leaf_hash : (x : Bytes) → length (leaf_hash primitives x) ≡ 32
  unfolding leaf_hash
  length-leaf_hash x = digest (0 ∷ x)

  -- Equal hashes have equal inputs, or are a collision.
  pub sha256-cases :
      (x y : Bytes) → primitives.sha256 x ≡ primitives.sha256 y → (x ≡ y) ⊎ Collision primitives
  unfolding Collision
  sha256-cases x y h = elim (Bool-cases (bytes_beq x y)) [
    | inl same ↦ inl ((bytes_beq_iff x y).0 same)
    | inr other ↦ inr (x, y, (λ (e : x ≡ y). ground (arith, (bytes_beq_iff x y).1 e)), h)
  ]

  pub hash_children-cases :
      (x y u v : Bytes)
      → length x ≡ 32
      → length u ≡ 32
      → hash_children primitives x y ≡ hash_children primitives u v
      → ((x ≡ u) × (y ≡ v)) ⊎ Collision primitives
  unfolding hash_children
  hash_children-cases x y u v p q h = elim (sha256-cases (1 ∷ x ++ y) (1 ∷ u ++ v) h) [
    | inl e ↦ inl (
      sym (take-append_at x y p) ∙ ap (λ bytes. take 32 (drop 1 bytes)) e ∙ take-append_at u v q,
      sym (drop-append_at x y p) ∙ ap (λ bytes. drop 33 bytes) e ∙ drop-append_at u v q,
    )
    | inr collision ↦ inr collision
  ]

  pub leaf_hash-cases :
      (x y : Bytes)
      → leaf_hash primitives x ≡ leaf_hash primitives y
      → (x ≡ y) ⊎ Collision primitives
  unfolding leaf_hash
  leaf_hash-cases x y h = elim (sha256-cases (0 ∷ x) (0 ∷ y) h) [
    | inl e ↦ inl (ap (λ bytes. drop 1 bytes) e)
    | inr collision ↦ inr collision
  ]
