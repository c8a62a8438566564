-- ===== src/Crypto/Translog/Logged.antt =====
-- What `verify_logged` tells a client about the log.
use nil.Prelude.{
  ℕ, zero, suc, ◌^◌, ◌≤◌, ◌<◌, ◌≡◌, ◌⊎◌, refl, ap, ◌∙◌, true, Option, none, some, List, [], ◌∷◌,
  Bytes, length, arith, Bool-cases, inl, inr, map, get_elem?, bytes_beq_iff,
}
use nil.Crypto.Translog.{
  Primitives, LogProof, leaf_hash, root_from_inclusion, checkpoint_body, verify_checkpoint,
  verify_logged, is_root,
}
use nil.Crypto.Translog.Tree.{at-map, length-map, tree_root}
use nil.Crypto.Translog.Climb.{root_from_inclusion-inside}
use nil.Crypto.Translog.Collision.{
  Collision, digests, digests-map, leaf_hash-cases, length-leaf_hash,
}
use nil.Crypto.Translog.Sound.{root_from_inclusion-pins}
use nil.Crypto.Translog.Checkpoint.{is_line, checkpoint_body-injective}

entry_at :
    (entries : List Bytes) (i : ℕ)
    → i < length entries
    → (x : Bytes) × (get_elem? entries i ≡ some x)
entry_at [] i lt = absurd (omega arith)
entry_at (x ∷ xs) zero lt = (x, refl)
entry_at (x ∷ xs) (suc i) lt = entry_at xs i (omega arith)

is_root-some : (found : Option Bytes) (root : Bytes) → is_root found root ≡ true → found ≡ some root
is_root-some none root h = cc
is_root-some (some found) root h = ap some ((bytes_beq_iff found root).0 h)

module _ (primitives : Primitives) where
  -- The two checks that an accepted proof passed.
  verify_logged-checks :
      (data_ log_pubkey : Bytes) (proof : LogProof)
      → verify_logged primitives data_ proof log_pubkey ≡ true
      → (verify_checkpoint primitives proof log_pubkey ≡ true)
        × (root_from_inclusion primitives
              (proof.leaf_index)
              (proof.tree_size)
              (leaf_hash primitives data_)
              (proof.audit_path)
            ≡ some (proof.root))
  unfolding verify_logged
  verify_logged-checks data_ log_pubkey proof h =
      let climbed =
        root_from_inclusion primitives (proof.leaf_index) (proof.tree_size)
          (leaf_hash primitives data_) (proof.audit_path) in
      elim (Bool-cases (primitives.is_verifying_key log_pubkey)) [
        | inl key ↦ elim (Bool-cases (verify_checkpoint primitives proof log_pubkey)) [
          | inl signed ↦ (signed, is_root-some climbed (proof.root) (rw (key, signed) at h))
          | inr unsigned ↦ let gone = rw (key, unsigned) at h in cc
        ]
        | inr no_key ↦ let gone = rw no_key at h in cc
      ]

  verify_checkpoint-verify :
      (log_pubkey : Bytes) (proof : LogProof)
      → verify_checkpoint primitives proof log_pubkey ≡ true
      → primitives.verify log_pubkey
          (checkpoint_body primitives (proof.origin) (proof.tree_size) (proof.root))
          (proof.checkpoint_sig)
        ≡ true
  unfolding verify_checkpoint
  verify_checkpoint-verify log_pubkey proof h =
      elim (Bool-cases (primitives.is_signature (proof.checkpoint_sig))) [
        | inl well_formed ↦ rw well_formed at h
        | inr malformed ↦ let gone = rw malformed at h in cc
      ]

  -- An entry that a proof under the root and the size of the log's tree shows is the log's entry at
  -- the position that the proof names, or SHA-256 has a collision. The proof's hashes are digests of
  -- 32 bytes, and the log has at most 2 ^ 63 entries.
  pub verify_logged_sound :
      (entries : List Bytes) (data_ log_pubkey : Bytes) (proof : LogProof)
      → ((x : Bytes) → length (primitives.sha256 x) ≡ 32)
      → digests (proof.audit_path) ≡ true
      → proof.tree_size ≡ length entries
      → proof.root ≡ tree_root primitives (map (leaf_hash primitives) entries)
      → length entries ≤ 2 ^ 63
      → verify_logged primitives data_ proof log_pubkey ≡ true
      → (get_elem? entries (proof.leaf_index) ≡ some data_) ⊎ Collision primitives
  verify_logged_sound entries data_ log_pubkey proof digest path size root small accepted =
      let leaves : List Bytes = map (leaf_hash primitives) entries in
      let count : length leaves ≡ length entries = length-map (leaf_hash primitives) entries in
      let climbed = (verify_logged-checks data_ log_pubkey proof accepted).1 in
      let lt : proof.leaf_index < proof.tree_size =
        root_from_inclusion-inside primitives (proof.leaf_index) (proof.tree_size)
          (leaf_hash primitives data_) (proof.audit_path) climbed in
      let entry = entry_at entries (proof.leaf_index) (omega (arith, lt)) in
      let placed = at-map (leaf_hash primitives) entries (proof.leaf_index) entry.1 in
      let found : root_from_inclusion primitives (proof.leaf_index) (length leaves)
            (leaf_hash primitives data_) (proof.audit_path)
          ≡ some (tree_root primitives leaves) =
        rw (size, root, ← count) at climbed in
      elim (root_from_inclusion-pins primitives digest (proof.leaf_index) leaves
        (leaf_hash primitives data_) (proof.audit_path) (omega arith)
        (digests-map primitives digest entries) (length-leaf_hash primitives digest data_) path
        found) [
          | inl pinned ↦
              elim (leaf_hash-cases primitives digest data_ (entry.0) (pinned.0 ∙ placed.1)) [
                | inl same ↦ inl (rw same (entry.1))
                | inr collision ↦ inr collision
              ]
          | inr collision ↦ inr collision
        ]

  -- If the log's key signs checkpoints of the states that the log published and nothing else, then
  -- each accepted entry stands in a published state at the position that the proof names, or SHA-256
  -- has a collision. Base64 is injective and writes no line feed, digests have 32 bytes, and a
  -- published state has at most 2 ^ 63 entries.
  pub verify_logged-published :
      (Published : List Bytes → Type 0) (data_ log_pubkey : Bytes) (proof : LogProof)
      → ((x : Bytes) → length (primitives.sha256 x) ≡ 32)
      → ((x : Bytes) → is_line (primitives.base64 x) ≡ true)
      → ((x y : Bytes) → primitives.base64 x ≡ primitives.base64 y → x ≡ y)
      → ((body sig : Bytes)
          → primitives.verify log_pubkey body sig ≡ true
          → (entries : List Bytes) × (origin : Bytes) × Published entries
            × (length entries ≤ 2 ^ 63)
            × (body
                ≡ checkpoint_body primitives origin
                    (length entries)
                    (tree_root primitives (map (leaf_hash primitives) entries))))
      → digests (proof.audit_path) ≡ true
      → verify_logged primitives data_ proof log_pubkey ≡ true
      → ((entries : List Bytes) × Published entries
          × (get_elem? entries (proof.leaf_index) ≡ some data_))
        ⊎ Collision primitives
  verify_logged-published Published data_ log_pubkey proof digest one_line injective signs path
        accepted =
      let signed =
        verify_checkpoint-verify log_pubkey proof
          (verify_logged-checks data_ log_pubkey proof accepted).0 in
      let (entries, origin, published, small, text) = signs _ (proof.checkpoint_sig) signed in
      let named =
        checkpoint_body-injective primitives (proof.origin) origin (proof.tree_size)
          (length entries) (proof.root) (tree_root primitives (map (leaf_hash primitives) entries))
          one_line injective text in
      elim (verify_logged_sound entries data_ log_pubkey proof digest path (named.1) (named.2) small
        accepted) [ inl found ↦ inl (entries, published, found) | inr collision ↦ inr collision ]
