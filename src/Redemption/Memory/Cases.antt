-- ===== src/Redemption/Memory/Cases.antt =====
-- What a commit can do to the ledger: nothing, or set the record of its own nullifier.
use nil.Prelude.{ℕ, Option, none, some, Bytes, Result, ok, err, bytes_eq}
use nil.Prelude.Dict.{get, insert}
use nil.Redemption.Cipher.{Aead, IoError}
use nil.Redemption.Record.{CommitOutcome, StoredRecord, validate_commit}
use nil.Redemption.Memory.{
  Ledger, commit_or_replay, insert_sealed, replay_or_scrub, commit_checked, commit_validated,
}

module _ (a : Aead) (P : Ledger → Type 0) (l : Ledger) (same : P l) where
  insert_sealed_cases :
      (epoch : ℕ) (key : Bytes) (until now : ℕ) (c : Result Bytes IoError)
      → ((r : StoredRecord) → P (record l { records = insert l.records key r }))
      → P (insert_sealed a l epoch key until now c).1
  insert_sealed_cases epoch key until now (err e) set = same
  insert_sealed_cases epoch key until now (ok c) set = set _

  replay_or_scrub_cases :
      (key : Bytes) (r : StoredRecord) (o : Option CommitOutcome)
      → ((r : StoredRecord) → P (record l { records = insert l.records key r }))
      → P (replay_or_scrub l key r o).1
  replay_or_scrub_cases key r none set = set _
  replay_or_scrub_cases key r (some o) set = same

  commit_checked_cases :
      (entropy : Option Bytes) (epoch : ℕ) (key : Bytes) (until : ℕ) (response : Bytes) (now : ℕ)
      (found : Option StoredRecord)
      → ((r : StoredRecord) → P (record l { records = insert l.records key r }))
      → P (commit_checked a l entropy epoch key until response now found).1
  commit_checked_cases entropy epoch key until response now none set =
      insert_sealed_cases epoch key until now _ set
  commit_checked_cases entropy epoch key until response now (some r) set =
      replay_or_scrub_cases key r _ set

  commit_validated_cases :
      (entropy : Option Bytes) (epoch : ℕ) (key : Bytes) (until : ℕ) (response : Bytes) (now : ℕ)
      (valid : Result (Unit {0}) IoError)
      → ((r : StoredRecord) → P (record l { records = insert l.records key r }))
      → P (commit_validated a l entropy epoch key until response now valid).1
  commit_validated_cases entropy epoch key until response now (err e) set = same
  commit_validated_cases entropy epoch key until response now (ok _) set =
      commit_checked_cases entropy epoch key until response now (get l.records key) set

  pub commit_cases :
      (entropy : Option Bytes) (epoch : ℕ) (key : Bytes) (until : ℕ) (response : Bytes) (now : ℕ)
      → ((r : StoredRecord) → P (record l { records = insert l.records key r }))
      → P (commit_or_replay a l entropy epoch key until response now).1
  unfolding commit_or_replay
  commit_cases entropy epoch key until response now set =
      commit_validated_cases entropy epoch key until response now
        (validate_commit key until response now) set
