-- ===== src/Redemption/Memory/Prune.antt =====
-- Expiry of replay results and of issuer epochs (crates/nil-coordinator/src/nullifier.rs).
use nil.Prelude.{
  ℕ, ◌+◌, ◌≡◌, ◌↔◌, true, none, some, List, [], ◌∷◌, arith, Bytes, bytes_eq, length, leb,
  if◌then◌else◌,
}
use nil.Prelude.Dict.{get, map_values, get-map_values, get-retain, length-retain-le}
use nil.Redemption.Record.{StoredRecord, spent_only}
use nil.Redemption.Memory.{
  Ledger, prune_expired_replays, prune_record, count_pruned, has_ciphertext, drop_epochs, contains,
}

pub ciphertexts : List (Bytes × StoredRecord) → ℕ
ciphertexts [] = 0
ciphertexts ((key, r) ∷ rest) = has_ciphertext r + ciphertexts rest

count_pruned-ciphertexts :
    (now : ℕ) (m : List (Bytes × StoredRecord))
    → ciphertexts m ≡ count_pruned now m + ciphertexts (map_values (prune_record now) m)
unfolding ciphertexts count_pruned map_values prune_record
count_pruned-ciphertexts now [] = omega arith
count_pruned-ciphertexts now ((key, r) ∷ rest) = ground (arith, count_pruned-ciphertexts now rest)

-- Pruning reports the number of ciphertexts that go. It forgets no nullifier and invents none: a
-- record whose expiry has come is left as a spent marker of its epoch, and any other is left as it
-- was.
pub prune_exact :
    (now : ℕ) (l : Ledger) (key : Bytes)
    → let after = (prune_expired_replays now l).1 in
      (ciphertexts l.records ≡ (prune_expired_replays now l).0 + ciphertexts after.records)
      × (get after.records key ≡ elim (get l.records key) [
        | none ↦ none
        | some r ↦ some (elim r.replay_until [
          | none ↦ r
          | some until ↦ if leb until now then spent_only r.epoch else r
        ])
      ])
unfolding prune_expired_replays
prune_exact now l key = (
  count_pruned-ciphertexts now l.records,
  unfold prune_record in ground (arith, get-map_values (prune_record now) l.records key),
)

-- In a partitioned store with a nonempty retained set, a nullifier stays exactly when the epoch of
-- its record is retained, and then with its record; the report is the number of entries that go.
pub drop_epochs_exact :
    (e : ℕ) (es : List ℕ) (l : Ledger)
    → l.partitioned ≡ true
    → let after = (drop_epochs (e ∷ es) l).1 in
      ((key : Bytes) (r : StoredRecord)
        → (get after.records key ≡ some r)
          ↔ ((get l.records key ≡ some r) × (contains (e ∷ es) r.epoch ≡ true)))
      × ((drop_epochs (e ∷ es) l).0 + length after.records ≡ length l.records)
unfolding drop_epochs
drop_epochs_exact e es l parts = rw parts (
  λ key r. (
    λ h. ground (arith, get-retain (λ _ s. contains (e ∷ es) s.epoch) l.records key),
    λ h. ground (arith, get-retain (λ _ s. contains (e ∷ es) s.epoch) l.records key),
  ),
  omega (arith, length-retain-le {0, 0} (λ _ s. contains (e ∷ es) s.epoch) l.records),
)
