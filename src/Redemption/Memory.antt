-- ===== src/Redemption/Memory.antt =====
-- `MemoryNullifierStore` of crates/nil-coordinator/src/nullifier.rs. Each method runs under the
-- store's mutex, so a history of calls is a list of steps.
pub mod Replay
pub mod Spent
pub mod Prune
mod Cases
use nil.Prelude.{
  ℕ, zero, suc, ◌+◌, ◌-◌, ◌≡◌, Bool, true, false, ◌&&◌, ◌||◌, Option, none, some, List, [], ◌∷◌,
  Bytes, length, ltb, leb, ◌==◌, Result, ok, err, if◌then◌else◌, bytes_eq,
}
use nil.Prelude.Dict.{get, insert, map_values, retain}
use nil.Redemption.Cipher.{Aead, IoError, panicked, seal}
use nil.Redemption.Record.{
  CommitOutcome, granted, already_spent, StoredRecord, validate_commit, live_outcome,
}

-- `MemoryNullifierStore`; `secret` is the key of its `ReplayCipher`.
pub record Ledger : Type 0 where
  pub records : List (Bytes × StoredRecord)
  pub secret : Bytes
  pub partitioned : Bool

-- `MemoryNullifierStore::with_partitioning`
pub with_partitioning : Bytes → Bool → Ledger
with_partitioning key partitioned = record { records = []; secret = key; partitioned = partitioned }

-- `MemoryNullifierStore::new`
pub new : Bytes → Ledger
unfolding with_partitioning
new key = with_partitioning key false

abbrev pub scrubbed : StoredRecord → StoredRecord
scrubbed r = record r { replay_until = none; ciphertext = none }

abbrev is_expired : ℕ → StoredRecord → Bool
is_expired now r = elim r.replay_until [ none ↦ false | some until ↦ leb until now ]

-- One turn of the loop of `prune_expired_replays`.
pub prune_record : ℕ → StoredRecord → StoredRecord
prune_record now r = if is_expired now r then scrubbed r else r

abbrev pub has_ciphertext : StoredRecord → ℕ
has_ciphertext r = elim r.ciphertext [ none ↦ 0 | some c ↦ 1 ]

pub count_pruned : ℕ → List (Bytes × StoredRecord) → ℕ
count_pruned now [] = 0
count_pruned now ((key, r) ∷ rest) =
    (if is_expired now r then has_ciphertext r else 0) + count_pruned now rest

-- `prune_expired_replays`
pub prune_expired_replays : ℕ → Ledger → ℕ × Ledger
prune_expired_replays now l =
    (count_pruned now l.records, record l { records = map_values (prune_record now) l.records })

pub contains : List ℕ → ℕ → Bool
contains [] n = false
contains (x ∷ xs) n = x == n || contains xs n

-- `drop_epochs`; `retained` is the set of epochs to keep.
pub drop_epochs : List ℕ → Ledger → ℕ × Ledger
drop_epochs [] l = (0, l)
drop_epochs (e ∷ es) l =
    if l.partitioned
    then (let left = retain (λ _ r. contains (e ∷ es) r.epoch) l.records in
        (length l.records - length left, record l { records = left }))
    else (0, l)

-- `supports_epoch_gc`
pub supports_epoch_gc : Ledger → Bool
supports_epoch_gc l = l.partitioned

-- `approx_len`
pub approx_len : Ledger → Option ℕ
approx_len l = some (length l.records)

-- `expect("newly sealed replay result is live")`
abbrev pub expect_live : Option CommitOutcome → Result CommitOutcome IoError
expect_live none = err panicked
expect_live (some outcome) = ok outcome

-- A live outcome is returned as it is; else the record is scrubbed and stays as a spent marker.
abbrev pub replay_or_scrub :
    Ledger → Bytes → StoredRecord → Option CommitOutcome → Result CommitOutcome IoError × Ledger
replay_or_scrub l key existing (some outcome) = (ok outcome, l)
replay_or_scrub l key existing none =
    (ok already_spent, record l { records = insert l.records key (scrubbed existing) })

module _ (a : Aead) where
  abbrev pub insert_sealed :
      Ledger → ℕ → Bytes → ℕ → ℕ → Result Bytes IoError → Result CommitOutcome IoError × Ledger
  insert_sealed l epoch key replay_until now (err e) = (err e, l)
  insert_sealed l epoch key replay_until now (ok ciphertext) =
      let fresh : StoredRecord = record {
        epoch = epoch;
        replay_until = some replay_until;
        ciphertext = some ciphertext;
      } in
      (
        expect_live (live_outcome a l.secret key fresh now true),
        record l { records = insert l.records key fresh },
      )

  abbrev pub commit_checked :
      Ledger
      → Option Bytes
      → ℕ
      → Bytes
      → ℕ
      → Bytes
      → ℕ
      → Option StoredRecord
      → Result CommitOutcome IoError × Ledger
  commit_checked l entropy epoch key replay_until proposed_response now (some existing) =
      replay_or_scrub l key existing (live_outcome a l.secret key existing now false)
  commit_checked l entropy epoch key replay_until proposed_response now none =
      insert_sealed l epoch key replay_until now
        (seal a l.secret entropy epoch key replay_until proposed_response)

  abbrev pub commit_validated :
      Ledger
      → Option Bytes
      → ℕ
      → Bytes
      → ℕ
      → Bytes
      → ℕ
      → Result (Unit {0}) IoError
      → Result CommitOutcome IoError × Ledger
  commit_validated l entropy epoch key replay_until proposed_response now (err e) = (err e, l)
  commit_validated l entropy epoch key replay_until proposed_response now (ok _) =
      commit_checked l entropy epoch key replay_until proposed_response now (get l.records key)

  -- `commit_or_replay`; `entropy` is what `getrandom` gives in this call.
  pub commit_or_replay :
      Ledger → Option Bytes → ℕ → Bytes → ℕ → Bytes → ℕ → Result CommitOutcome IoError × Ledger
  commit_or_replay l entropy epoch key replay_until proposed_response now =
      commit_validated l entropy epoch key replay_until proposed_response now
        (validate_commit key replay_until proposed_response now)

-- One call on the store, with its arguments.
pub data Call : Type 0 where
  commits : Option Bytes → ℕ → Bytes → ℕ → Bytes → ℕ → Call
  prunes : ℕ → Call
  drops : List ℕ → Call

-- 1 for a result that reports a new grant
abbrev pub newly : Result CommitOutcome IoError → ℕ
newly (ok (granted response true)) = 1
newly _ = 0

module _ (a : Aead) where
  pub step : Ledger → Call → Ledger
  step l (commits entropy epoch key until response now) =
      (commit_or_replay a l entropy epoch key until response now).1
  step l (prunes now) = (prune_expired_replays now l).1
  step l (drops retained) = (drop_epochs retained l).1

  pub run : Ledger → List Call → Ledger
  run l [] = l
  run l (c ∷ cs) = run (step l c) cs

  -- 1 if the call is a commit of this nullifier that reports a new grant
  pub grants_of : Bytes → Ledger → Call → ℕ
  grants_of key l (commits entropy epoch k until response now) =
      if bytes_eq.beq k key
      then newly (commit_or_replay a l entropy epoch k until response now).0
      else 0
  grants_of key l _ = 0

  -- How many calls of a history report a new grant for one nullifier.
  pub new_grants : Bytes → Ledger → List Call → ℕ
  new_grants key l [] = 0
  new_grants key l (c ∷ cs) = grants_of key l c + new_grants key (step l c) cs
