-- ===== src/Redemption/Memory/Spent.antt =====
-- A nullifier is spent at most once (crates/nil-coordinator/src/nullifier.rs).
use nil.Prelude.{
  ℕ, ◌≤◌, ◌≡◌, ◌≢◌, refl, ◌∙◌, true, false, Option, none, some, List, [], ◌∷◌, arith, Bytes, Result,
  ok, err, inl, inr, Bool-cases, bytes_beq, bytes_beq_iff, bytes_beq_refl, bytes_eq, ◌⊎◌,
}
use nil.Prelude.Dict.{get, insert, get-insert, get-map_values}
use nil.Redemption.Cipher.{Aead, IoError}
use nil.Redemption.Record.{CommitOutcome, granted, already_spent, StoredRecord, live_outcome}
use nil.Redemption.Memory.{
  Ledger, Call, commits, prunes, drops, commit_or_replay, prune_expired_replays, drop_epochs,
  prune_record, step, grants_of, new_grants, insert_sealed, replay_or_scrub, commit_checked, newly,
}
use nil.Redemption.Memory.Cases.{commit_cases}

-- The store holds a record for the nullifier, live or not.
abbrev pub IsSpent : Bytes → Ledger → Type 0
IsSpent key l = get l.records key ≢ none

insert-IsSpent :
    (m : List (Bytes × StoredRecord)) (k : Bytes) (r : StoredRecord) (key : Bytes)
    → get m key ≢ none
    → get (insert m k r) key ≢ none
insert-IsSpent m k r key h = ground (arith, get-insert m k key r)

insert-IsSpent_self :
    (m : List (Bytes × StoredRecord)) (k : Bytes) (r : StoredRecord) → get (insert m k r) k ≢ none
insert-IsSpent_self m k r = ground (arith, get-insert m k k r, bytes_beq_refl k)

newly-cases : (r : Result CommitOutcome IoError) → (newly r ≡ 0) ⊎ (newly r ≡ 1)
newly-cases (err e) = inl refl
newly-cases (ok already_spent) = inl refl
newly-cases (ok (granted response true)) = inr refl
newly-cases (ok (granted response false)) = inl refl

module _ (a : Aead) where
  -- A record that stands already gives no new grant.
  old_record :
      (l : Ledger) (k : Bytes) (r : StoredRecord) (now : ℕ)
      → newly (replay_or_scrub l k r (live_outcome a l.secret k r now false)).0 ≡ 0
  unfolding live_outcome
  old_record l k r now = ground arith

  pub commit-partitioned :
      (l : Ledger) (entropy : Option Bytes) (epoch : ℕ) (k : Bytes) (until : ℕ) (response : Bytes)
      (now : ℕ)
      → (commit_or_replay a l entropy epoch k until response now).1.partitioned ≡ l.partitioned
  commit-partitioned l entropy epoch k until response now =
      commit_cases a (λ l'. l'.partitioned ≡ l.partitioned) l refl entropy epoch k until response
        now (λ r. refl)

  -- No call takes a nullifier out of a store that is not partitioned by epochs.
  step-IsSpent :
      (l : Ledger) (c : Call) (key : Bytes)
      → l.partitioned ≡ false
      → IsSpent key l
      → IsSpent key (step a l c)
  unfolding step prune_expired_replays drop_epochs
  step-IsSpent l (commits entropy epoch k until response now) key flat h =
      commit_cases a (IsSpent key) l h entropy epoch k until response now
        (λ r. insert-IsSpent l.records k r key h)
  step-IsSpent l (prunes now) key flat h =
      ground (arith, get-map_values (prune_record now) l.records key)
  step-IsSpent l (drops []) key flat h = h
  step-IsSpent l (drops (e ∷ es)) key flat h = rw flat h

  pub step-partitioned : (l : Ledger) (c : Call) → (step a l c).partitioned ≡ l.partitioned
  unfolding step prune_expired_replays drop_epochs
  step-partitioned l (commits entropy epoch k until response now) =
      commit-partitioned l entropy epoch k until response now
  step-partitioned l (prunes now) = refl
  step-partitioned l (drops []) = refl
  step-partitioned l (drops (e ∷ es)) = ground arith

  grants_of-spent : (l : Ledger) (c : Call) (key : Bytes) → IsSpent key l → grants_of a key l c ≡ 0
  unfolding grants_of commit_or_replay live_outcome
  grants_of-spent l (commits entropy epoch k until response now) key h =
      elim (Bool-cases (bytes_beq k key)) [
        | inl same ↦ let e : k ≡ key = (bytes_beq_iff k key).0 same in rw e (ground arith)
        | inr different ↦ rw different
      ]
  grants_of-spent l _ key h = refl

  insert_sealed-newly :
      (l : Ledger) (epoch : ℕ) (k : Bytes) (until now : ℕ) (c : Result Bytes IoError)
      → let after = insert_sealed a l epoch k until now c in
        (newly after.0 ≡ 0) ⊎ ((newly after.0 ≡ 1) × IsSpent k after.1)
  insert_sealed-newly l epoch k until now (err e) = inl refl
  insert_sealed-newly l epoch k until now (ok c) =
      elim (newly-cases (insert_sealed a l epoch k until now (ok c)).0) [
        | inl zero_new ↦ inl zero_new
        | inr one_new ↦ inr (one_new, insert-IsSpent_self l.records k _)
      ]

  commit_checked-newly :
      (l : Ledger) (entropy : Option Bytes) (epoch : ℕ) (k : Bytes) (until : ℕ) (response : Bytes)
      (now : ℕ) (found : Option StoredRecord)
      → let after = commit_checked a l entropy epoch k until response now found in
        (newly after.0 ≡ 0) ⊎ ((newly after.0 ≡ 1) × IsSpent k after.1)
  commit_checked-newly l entropy epoch k until response now none =
      insert_sealed-newly l epoch k until now _
  commit_checked-newly l entropy epoch k until response now (some r) = inl (old_record l k r now)

  -- A call that reports a new grant for a nullifier leaves it spent.
  grants_of-IsSpent :
      (l : Ledger) (c : Call) (key : Bytes)
      → (grants_of a key l c ≡ 0) ⊎ ((grants_of a key l c ≡ 1) × IsSpent key (step a l c))
  unfolding grants_of step commit_or_replay
  grants_of-IsSpent l (commits entropy epoch k until response now) key =
      elim (Bool-cases (bytes_beq k key)) [
        | inl same ↦
            let e : k ≡ key = (bytes_beq_iff k key).0 same in
            rw (← e, bytes_beq_refl k)
              (ground (
                arith,
                commit_checked-newly l entropy epoch k until response now (get l.records k),
              ))
        | inr different ↦ inl (rw different)
      ]
  grants_of-IsSpent l _ key = inl refl

  -- Once a nullifier is in a store that is not partitioned, no history of calls reports a new grant
  -- for it.
  pub new_grants-spent :
      (l : Ledger) (cs : List Call) (key : Bytes)
      → l.partitioned ≡ false
      → IsSpent key l
      → new_grants a key l cs ≡ 0
  unfolding new_grants
  new_grants-spent l [] key flat h = refl
  new_grants-spent l (c ∷ cs) key flat h = omega (
    arith,
    grants_of-spent l c key h,
    new_grants-spent (step a l c) cs key (step-partitioned l c ∙ flat)
        (step-IsSpent l c key flat h),
  )

  -- Whatever the history of commits, retries, prunes and epoch drops, and whatever the cipher and
  -- the entropy do, a store that is not partitioned reports at most one new grant for a nullifier.
  pub new_grants-le_one :
      (l : Ledger) (cs : List Call) (key : Bytes)
      → l.partitioned ≡ false
      → new_grants a key l cs ≤ 1
  unfolding new_grants
  new_grants-le_one l [] key flat = omega arith
  new_grants-le_one l (c ∷ cs) key flat =
      let flat' = step-partitioned l c ∙ flat in
      elim (grants_of-IsSpent l c key) [
        | inl no_grant ↦ omega (arith, no_grant, new_grants-le_one (step a l c) cs key flat')
        | inr (one, spent) ↦ omega (arith, one, new_grants-spent (step a l c) cs key flat' spent)
      ]
