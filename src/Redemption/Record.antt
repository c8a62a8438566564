-- ===== src/Redemption/Record.antt =====
-- Records and outcomes of the ledger, and the checks that both stores share
-- (crates/nil-coordinator/src/nullifier.rs).
use nil.Prelude.{
  ℕ, Bool, true, false, ◌&&◌, ◌||◌, Option, none, some, Bytes, length, ltb, leb, ◌==◌, Result, ok,
  err, ◌>>◌, guard, if◌then◌else◌, all,
}
use nil.Redemption.Cipher.{Aead, IoError, invalid_input, outside_bounds, open_sealed}

-- `CommitOutcome`
pub data CommitOutcome : Type 0 where
  granted : Bytes → Bool → CommitOutcome
  already_spent : CommitOutcome

-- `StoredRecord`
pub record StoredRecord : Type 0 where
  pub epoch : ℕ
  pub replay_until : Option ℕ
  pub ciphertext : Option Bytes

abbrev pub spent_only : ℕ → StoredRecord
spent_only epoch = record { epoch = epoch; replay_until = none; ciphertext = none }

abbrev live_pair : Option ℕ → Option Bytes → ℕ → Option (ℕ × Bytes)
live_pair (some until) (some ciphertext) now =
    if ltb now until then some (until, ciphertext) else none
live_pair _ _ now = none

-- `StoredRecord::live_ciphertext`
abbrev pub live_ciphertext : StoredRecord → ℕ → Option (ℕ × Bytes)
live_ciphertext r now = live_pair r.replay_until r.ciphertext now

-- an ASCII digit, or one of `a` to `f`
abbrev pub is_lower_hex : ℕ → Bool
is_lower_hex b = leb b'0' b && leb b b'9' || leb b'a' b && leb b b'f'

-- `validate_commit`
unfoldable pub validate_commit : Bytes → ℕ → Bytes → ℕ → Result (Unit {0}) IoError
validate_commit key replay_until proposed_response now = do
  guard (length key == 64 && all is_lower_hex key) invalid_input
  guard (ltb now replay_until) invalid_input
  guard (if outside_bounds proposed_response then false else true) invalid_input

module _ (a : Aead) where
  -- A ciphertext that does not open leaves the token spent.
  abbrev opened : Bool → Result Bytes IoError → CommitOutcome
  opened newly (ok response) = granted response newly
  opened newly (err e) = already_spent

  abbrev outcome_of : Bytes → Bytes → ℕ → Bool → Option (ℕ × Bytes) → Option CommitOutcome
  outcome_of secret key epoch newly none = none
  outcome_of secret key epoch newly (some (until, ciphertext)) =
      some (opened newly (open_sealed a secret epoch key until ciphertext))

  -- `live_outcome`
  unfoldable pub live_outcome : Bytes → Bytes → StoredRecord → ℕ → Bool → Option CommitOutcome
  live_outcome secret key r now newly = outcome_of secret key r.epoch newly (live_ciphertext r now)
