-- ===== src/Redemption/Tests.antt =====
-- Runs of the redemption ledger (crates/nil-coordinator/src/nullifier.rs) on small inputs.
use nil.Prelude.{
  ◌≤◌, ◌≡◌, refl, false, none, some, List, [], ◌∷◌, Bytes, replicate, ok, bytes_eq, arith,
}
use nil.Prelude.Dict.{get}
use nil.Redemption.Cipher.{open_sealed, seal, open_sealed-seal}
use nil.Redemption.Plain.{zeros, plain, plain-IsAead}
use nil.Redemption.Record.{granted, validate_commit}
use nil.Redemption.Memory.{Ledger, commit_or_replay, Call, commits, prunes, drops, run, new_grants}
use nil.Redemption.Memory.Spent.{new_grants-le_one, IsSpent}
use nil.Redemption.Memory.Replay.{retry_after_history}

abbrev nullifier : Bytes
nullifier = replicate 64 b'a'

abbrev other_nullifier : Bytes
other_nullifier = replicate 64 b'b'

abbrev start : Ledger
start = record { records = []; secret = zeros 32; partitioned = false }

abbrev history : List Call
history =
    commits (some (zeros 12)) 2 nullifier 500 (9 ∷ []) 200
    ∷ prunes 250
    ∷ commits (some (zeros 12)) 2 other_nullifier 400 (8 ∷ []) 260
    ∷ drops (3 ∷ [])
    ∷ []

-- A record whose expiry has passed and one whose expiry has not.
abbrev used : Ledger
used = record start {
  records =
      (nullifier, record { epoch = 1; replay_until = some 100; ciphertext = some (7 ∷ []) })
      ∷ (other_nullifier, record { epoch = 2; replay_until = some 900; ciphertext = some (6 ∷ []) })
      ∷ [];
}

open_sealed-seal_example :
    (stored : Bytes) × (seal plain (zeros 32) (some (zeros 12)) 1 nullifier 300 (7 ∷ [])
      ≡ ok stored)
    × (open_sealed plain (zeros 32) 1 nullifier 300 stored ≡ ok (7 ∷ []))
open_sealed-seal_example =
    open_sealed-seal plain plain-IsAead (zeros 32) (zeros 12) 1 nullifier 300 (7 ∷ []) refl refl
      refl

used-IsSpent : IsSpent nullifier used
unfolding get
used-IsSpent e = ground (arith, e)

new_grants-le_one_example : new_grants plain nullifier start history ≤ 1
new_grants-le_one_example = new_grants-le_one plain start history nullifier refl

retry_after_history_example :
    let l =
      run plain
        (commit_or_replay plain start (some (zeros 12)) 1 nullifier 300 (7 ∷ []) 100).1
        history in
    commit_or_replay plain l none 2 nullifier 500 (9 ∷ []) 299 ≡ (ok (granted (7 ∷ []) false), l)
unfolding validate_commit get
retry_after_history_example =
    retry_after_history plain plain-IsAead start (zeros 12) 1 nullifier 300 (7 ∷ []) 100 history
      none 2 500 (9 ∷ []) 299 refl refl refl refl refl
      (omega arith, (omega arith, (omega arith, tt))) (omega arith) refl
