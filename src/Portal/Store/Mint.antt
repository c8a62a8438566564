-- ===== src/Portal/Store/Mint.antt =====
-- The batch-mint methods of `InMemoryStore`, crates/nil-portal/src/store/memory.rs.
pub mod Quota
pub mod Replay
use nil.Prelude.{
  ℕ, ◌+◌, ◌-◌, Bool, true, false, ◌&&◌, ◌||◌, Option, none, some, List, [], ◌∷◌, Bytes, length, ltb,
  leb, ◌==◌, Result, ok, err, if◌then◌else◌, bytes_beq, bytes_eq, nat_eq, pair_eq, u32_max,
}
use nil.Prelude.Dict.{get, insert, remove, retain}
use nil.Portal.Payload.{StoreError, backend}
use nil.Portal.Store.{MemoryState, MintResult, MintQuota, QuotaUse, is_well_formed}

-- `MintLookup` and `MintCommit`
pub data MintLookup : Type 0 where
  missing conflict : MintLookup
  replayed : List Bytes → MintLookup

pub data MintCommit : Type 0 where
  stored conflicting quota_exceeded : MintCommit
  repeated : List Bytes → MintCommit

abbrev has_none : List Bytes → Bool
has_none [] = true
has_none (b ∷ bs) = false

abbrev pub is_stale : Option MintResult → ℕ → Bool
is_stale none now_secs = false
is_stale (some r) now_secs = leb r.expires_at now_secs

-- The first step of `lookup_mint` and of `commit_mint`: an expired result goes.
unfoldable pub drop_stale : MemoryState → Bytes → ℕ → MemoryState
drop_stale s request_key now_secs =
    if is_stale (get s.mint_results request_key) now_secs
    then record s { mint_results = remove s.mint_results request_key }
    else s

abbrev pub answers : MintResult → Bytes → Bool
answers r request_hash =
    bytes_beq r.request_hash request_hash && (if has_none r.blind_sigs then false else true)

abbrev look_up : Option MintResult → Bytes → MintLookup
look_up none request_hash = missing
look_up (some r) request_hash = if answers r request_hash then replayed r.blind_sigs else conflict

-- `lookup_mint`
pub lookup_mint : MemoryState → Bytes → Bytes → ℕ → MintLookup × MemoryState
lookup_mint s request_key request_hash now_secs =
    let fresh = drop_stale s request_key now_secs in
    (look_up (get fresh.mint_results request_key) request_hash, fresh)

abbrev pub use_of : MintQuota → Option QuotaUse → QuotaUse
use_of q none = record { window_end = q.window_end; used = 0; max = q.max }
use_of q (some u) = u

-- The charge of the quota, behind the test that the window and the maximum agree.
abbrev pub charge :
    MemoryState
    → Bytes
    → MintResult
    → MintQuota
    → QuotaUse
    → Result MintCommit StoreError × MemoryState
charge s request_key result q u =
    if (u.window_end == q.window_end && u.max == q.max)
    then (if leb (u.used + q.cost) u32_max && leb (u.used + q.cost) q.max
        then (
          ok stored,
          record s {
            mint_results = insert s.mint_results request_key result;
            mint_quotas =
                insert s.mint_quotas (q.quota_key, q.window_start)
                  (record { window_end = q.window_end; used = u.used + q.cost; max = q.max });
          },
        )
        else (ok quota_exceeded, s))
    else (err backend, s)

abbrev pub commit_new :
    MemoryState → Bytes → MintResult → MintQuota → ℕ → Result MintCommit StoreError × MemoryState
commit_new s request_key result q now_secs =
    if is_well_formed q now_secs
    then (if ltb q.max q.cost
        then (ok quota_exceeded, s)
        else charge s request_key result q
            (use_of q (get s.mint_quotas (q.quota_key, q.window_start))))
    else (err backend, s)

abbrev pub commit_fresh :
    MemoryState
    → Bytes
    → MintResult
    → MintQuota
    → ℕ
    → Option MintResult
    → Result MintCommit StoreError × MemoryState
commit_fresh s request_key result q now_secs (some existing) = (
  ok (if answers existing result.request_hash then repeated existing.blind_sigs else conflicting),
  s,
)
commit_fresh s request_key result q now_secs none = commit_new s request_key result q now_secs

-- `commit_mint`
unfoldable pub commit_mint :
    MemoryState → Bytes → MintResult → MintQuota → ℕ → Result MintCommit StoreError × MemoryState
commit_mint s request_key result q now_secs =
    if leb result.expires_at now_secs
    then (err backend, s)
    else (let fresh = drop_stale s request_key now_secs in
        commit_fresh fresh request_key result q now_secs (get fresh.mint_results request_key))

-- `prune_mint_results`
pub prune_mint_results : MemoryState → ℕ → ℕ × MemoryState
prune_mint_results s now_secs =
    let results = retain (λ _ r. ltb now_secs r.expires_at) s.mint_results in
    let quotas = retain (λ _ u. ltb now_secs u.window_end) s.mint_quotas in
    (
      length s.mint_results - length results + (length s.mint_quotas - length quotas),
      record s { mint_results = results; mint_quotas = quotas },
    )
