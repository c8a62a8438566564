-- ===== src/Portal/Store.antt =====
-- `InMemoryStore` of crates/nil-portal/src/store/memory.rs. Each method holds the one lock, so a
-- history of calls is a list of steps.
pub mod Activation
pub mod Issuance
pub mod Mint
use nil.Prelude.{
  ℕ, ◌+◌, ◌-◌, Bool, true, false, ◌&&◌, ◌||◌, Option, none, some, List, [], ◌∷◌, Bytes, length, ltb,
  leb, ◌==◌, Result, ok, err, if◌then◌else◌, bytes_beq, bytes_eq, nat_eq, pair_eq, saturating_add64,
  u32_max,
}
use nil.Prelude.Dict.{get, insert, remove, retain, map_values}
use nil.Portal.Account.{Entitlement, active, AccountRecord, active_until}
use nil.Portal.Payload.{StoreError, duplicate, backend}

-- `IssuanceResult`
pub record IssuanceResult : Type 0 where
  pub request_hash : Bytes
  pub blind_sig : Bytes
  pub replay_until : ℕ

-- `MintResult`
pub record MintResult : Type 0 where
  pub request_hash : Bytes
  pub blind_sigs : List Bytes
  pub expires_at : ℕ

-- `MintQuota`
pub record MintQuota : Type 0 where
  pub quota_key : Bytes
  pub window_start : ℕ
  pub window_end : ℕ
  pub cost : ℕ
  pub max : ℕ

-- The value of `mint_quotas`: window end, used, configured max.
pub record QuotaUse : Type 0 where
  pub window_end : ℕ
  pub used : ℕ
  pub max : ℕ

-- `MemoryState`
pub record MemoryState : Type 0 where
  pub accounts : List (Bytes × AccountRecord)
  pub activation_results : List (Bytes × ℕ)
  pub issuance_results : List (Bytes × IssuanceResult)
  pub mint_results : List (Bytes × MintResult)
  pub mint_quotas : List ((Bytes × ℕ) × QuotaUse)

-- `InMemoryStore::new`
unfoldable pub new : MemoryState
new = record {
  accounts = [];
  activation_results = [];
  issuance_results = [];
  mint_results = [];
  mint_quotas = [];
}

-- `MintQuota::is_well_formed`
unfoldable pub is_well_formed : MintQuota → ℕ → Bool
is_well_formed q now_secs =
    leb q.window_start now_secs
    && ltb now_secs q.window_end
    && (if q.cost == 0 then false else true)
    && (if q.max == 0 then false else true)

-- `SubscriptionActivation`
pub data SubscriptionActivation : Type 0 where
  newly_activated replay : ℕ → SubscriptionActivation

-- `SubscriptionActivation::until`
pub until : SubscriptionActivation → ℕ
until (newly_activated t) = t
until (replay t) = t

-- `insert`
pub insert_account : MemoryState → AccountRecord → Result (Unit {0}) StoreError × MemoryState
insert_account s r = elim (get s.accounts r.account_number) [
  | some existing ↦ (err duplicate, s)
  | none ↦ (ok tt, record s { accounts = insert s.accounts r.account_number r })
]

-- `get`
pub get_account : MemoryState → Bytes → Option AccountRecord
get_account s account_number = get s.accounts account_number

abbrev base_of : Option ℕ → ℕ → ℕ
base_of none now_secs = now_secs
base_of (some t) now_secs = t

-- The expiry that a new activation gives.
abbrev pub extended : AccountRecord → ℕ → ℕ → ℕ
extended r now_secs by_secs =
    saturating_add64 (base_of (active_until r.entitlement now_secs) now_secs) by_secs

abbrev pub activate_known :
    MemoryState
    → Bytes
    → Bytes
    → ℕ
    → ℕ
    → AccountRecord
    → Option ℕ
    → Option SubscriptionActivation × MemoryState
activate_known s account_number activation_key now_secs by_secs r (some t) = (some (replay t), s)
activate_known s account_number activation_key now_secs by_secs r none =
    let t = extended r now_secs by_secs in
    (
      some (newly_activated t),
      record s {
        accounts = insert s.accounts account_number (record r { entitlement = active t });
        activation_results = insert s.activation_results activation_key t;
      },
    )

abbrev pub activate_found :
    MemoryState
    → Bytes
    → Bytes
    → ℕ
    → ℕ
    → Option AccountRecord
    → Option SubscriptionActivation × MemoryState
activate_found s account_number activation_key now_secs by_secs none = (none, s)
activate_found s account_number activation_key now_secs by_secs (some r) =
    activate_known s account_number activation_key now_secs by_secs r
      (get s.activation_results activation_key)

-- `activate_subscription`
pub activate_subscription :
    MemoryState → Bytes → Bytes → ℕ → ℕ → Option SubscriptionActivation × MemoryState
activate_subscription s account_number activation_key now_secs by_secs =
    activate_found s account_number activation_key now_secs by_secs (get s.accounts account_number)

-- `IssuanceLookup` and `IssuanceCommit`
pub data IssuanceLookup : Type 0 where
  missing conflict : IssuanceLookup
  replayed : Bytes → IssuanceLookup

pub data IssuanceCommit : Type 0 where
  stored conflicting : IssuanceCommit
  repeated : Bytes → IssuanceCommit

abbrev is_empty : Bytes → Bool
is_empty [] = true
is_empty (b ∷ bs) = false

-- The stored signature may still be given out for this request.
abbrev pub is_replayable : IssuanceResult → Bytes → ℕ → Bool
is_replayable r request_hash now_secs =
    bytes_beq r.request_hash request_hash
    && ltb now_secs r.replay_until
    && (if is_empty r.blind_sig then false else true)

-- `lookup_issuance`
pub lookup_issuance : MemoryState → Bytes → Bytes → ℕ → IssuanceLookup
lookup_issuance s issuance_key request_hash now_secs = elim (get s.issuance_results issuance_key) [
  | none ↦ missing
  | some r ↦ if is_replayable r request_hash now_secs then replayed r.blind_sig else conflict
]

-- `commit_issuance`
unfoldable pub commit_issuance :
    MemoryState → Bytes → IssuanceResult → ℕ → Result IssuanceCommit StoreError × MemoryState
commit_issuance s issuance_key result now_secs =
    if leb result.replay_until now_secs || is_empty result.blind_sig
    then (err backend, s)
    else elim (get s.issuance_results issuance_key) [
      | some r ↦ (
        ok (
            if is_replayable r result.request_hash now_secs
            then repeated r.blind_sig
            else conflicting),
        s,
      )
      | none ↦
          (ok stored, record s { issuance_results = insert s.issuance_results issuance_key result })
    ]

abbrev pub is_scrubbable : ℕ → IssuanceResult → Bool
is_scrubbable now_secs r =
    leb r.replay_until now_secs && (if is_empty r.blind_sig then false else true)

-- One turn of the loop of `prune_issuance_results`.
pub scrub_issuance : ℕ → IssuanceResult → IssuanceResult
scrub_issuance now_secs r = if is_scrubbable now_secs r then record r { blind_sig = [] } else r

pub count_scrubbed : ℕ → List (Bytes × IssuanceResult) → ℕ
count_scrubbed now_secs [] = 0
count_scrubbed now_secs ((k, r) ∷ rest) =
    (if is_scrubbable now_secs r then 1 else 0) + count_scrubbed now_secs rest

-- `prune_issuance_results`
pub prune_issuance_results : MemoryState → ℕ → ℕ × MemoryState
prune_issuance_results s now_secs = (
  count_scrubbed now_secs s.issuance_results,
  record s { issuance_results = map_values (scrub_issuance now_secs) s.issuance_results },
)
