-- ===== src/Portal/Tests.antt =====
-- Runs of the Portal's store (crates/nil-portal/src/store/) on small inputs.
use nil.Prelude.{
  ◌⊎◌, ◌+◌, ◌≤◌, ◌<◌, ◌≡◌, ◌≢◌, refl, none, some, List, [], ◌∷◌, Bytes, ok, if◌then◌else◌,
  bytes_beq, arith, bytes_eq, nat_eq, pair_eq, false,
}
use nil.Prelude.Dict.{get, insert, remove, get-empty}
use nil.Portal.Account.{AccountRecord, active}
use nil.Portal.Store.{
  MemoryState, IssuanceResult, MintResult, MintQuota, QuotaUse, extended, activate_subscription,
  newly_activated, replay, lookup_issuance, commit_issuance, is_well_formed, new,
}
use nil.Portal.ResultCipher.{one_shot, seal_result, open_result, open_result-seal_result}
use nil.Portal.RateLimit.{
  RateLimiter, RateLimitReservation, sweep, charge_n, reserve_n, drop_reservation, current_use,
}
use nil.Portal.RateLimit.Reservations.{drop_reservation-reserve_n}
use nil.Portal.RateLimit.Refusals
use nil.Portal.RateLimit.Refusals.{refused_stays}
use nil.Redemption.Plain.{zeros, plain, plain-IsAead}
use nil.Portal.Store
use nil.Portal.Store.Activation.{
  first_activation, extended_lem, expiry_of, activation_once, activation_unknown,
}
use nil.Portal.Store.Activation
use nil.Portal.Store.Issuance
use nil.Portal.Store.Issuance.{issuance_binding}
use nil.Portal.Store.Mint
use nil.Portal.Store.Mint.{commit_mint, lookup_mint, drop_stale}
use nil.Portal.Store.Mint.Quota
use nil.Portal.Store.Mint.Quota.{run-used, charged_by-le-max, used_at, charged_by, IsWithin}
use nil.Portal.Store.Mint.Replay
use nil.Portal.Store.Mint.Replay.{mint_replays}

abbrev customer : Bytes
customer = 4 ∷ 2 ∷ []

abbrev payment : Bytes
payment = 9 ∷ []

abbrev account : AccountRecord
account = record { account_number = customer; entitlement = active 1500; auth_pubkey = 1 ∷ [] }

abbrev shop : MemoryState
shop = record {
  accounts = (customer, account) ∷ [];
  activation_results = [];
  issuance_results = [];
  mint_results = [];
  mint_quotas = [];
}

abbrev activations : List Activation.Call
activations =
    Activation.inserts account
    ∷ Activation.activates customer (8 ∷ []) 1100 30
    ∷ Activation.activates customer payment 1200 60
    ∷ []

activation_once_example :
    let s = Activation.run (activate_subscription shop customer payment 1000 60).1 activations in
    activate_subscription s customer payment 1300 90 ≡ (some (replay (extended account 1000 60)), s)
unfolding get
activation_once_example =
    activation_once shop customer payment 1000 60 account activations 1300 90 refl refl

abbrev issued : IssuanceResult
issued = record { request_hash = 3 ∷ []; blind_sig = 5 ∷ []; replay_until = 2000 }

abbrev issuances : List Issuance.Call
issuances =
    Issuance.commits payment (record issued { request_hash = 4 ∷ [] }) 1200
    ∷ Issuance.prunes 2100
    ∷ []

issuance_binding_example :
    let s = Issuance.run (commit_issuance shop payment issued 1000).1 issuances in
    ((lookup_issuance s payment (3 ∷ []) 1500 ≡ Store.conflict)
      ⊎ ((lookup_issuance s payment (3 ∷ []) 1500 ≡ Store.replayed (5 ∷ []))
          × ((3 ∷ []) ≡ issued.request_hash)
          × (1500 < 2000)))
    × ((commit_issuance s payment issued 1500).0 ≢ ok Store.stored)
unfolding get commit_issuance
issuance_binding_example =
    issuance_binding shop payment issued 1000 issuances (3 ∷ []) issued 1500 refl

abbrev quota : MintQuota
quota = record { quota_key = 6 ∷ []; window_start = 900; window_end = 1900; cost = 2; max = 5 }

abbrev batch : MintResult
batch = record { request_hash = 3 ∷ []; blind_sigs = (5 ∷ []) ∷ []; expires_at = 1800 }

abbrev mints : List Quota.Call
mints =
    Quota.commits (1 ∷ []) batch quota 1000
    ∷ Quota.commits (2 ∷ []) batch quota 1000
    ∷ Quota.commits (3 ∷ []) batch quota 1000
    ∷ []

shop-IsWithin : IsWithin shop
shop-IsWithin k u at = ground (arith, at, get-empty {V = QuotaUse} k)

abbrev fullest : QuotaUse
fullest = record { window_end = 1900; used = 4; max = 5 }

fullest_used : get (Quota.run shop mints).mint_quotas (6 ∷ [], 900) ≡ some fullest
unfolding Quota.run Quota.step commit_mint drop_stale is_well_formed get insert remove
fullest_used = refl

charged_by-le-max_example : used_at shop (6 ∷ [], 900) + charged_by (6 ∷ [], 900) shop mints ≤ 5
charged_by-le-max_example =
    charged_by-le-max shop mints (6 ∷ [], 900) fullest shop-IsWithin fullest_used

abbrev later_calls : List Replay.Call
later_calls =
    Replay.commits (1 ∷ []) (record batch { request_hash = 4 ∷ [] }) quota 1100
    ∷ Replay.looks_up (1 ∷ []) (3 ∷ []) 1200
    ∷ Replay.prunes 1300
    ∷ []

first_mint : (commit_mint shop (1 ∷ []) batch quota 1000).0 ≡ ok Mint.stored
unfolding commit_mint drop_stale is_well_formed get
first_mint = refl

mint_replays_example :
    (lookup_mint
      (Replay.run (commit_mint shop (1 ∷ []) batch quota 1000).1 later_calls)
      (1 ∷ [])
      (3 ∷ [])
      1700).0
    ≡ (if bytes_beq (3 ∷ []) (3 ∷ []) then Mint.replayed ((5 ∷ []) ∷ []) else Mint.conflict)
mint_replays_example =
    mint_replays shop (1 ∷ []) batch quota 1000 later_calls (3 ∷ []) 1700 first_mint
      (λ e. ground (arith, e)) (omega arith, (omega arith, (omega arith, tt))) (omega arith)

open_result-seal_result_example :
    (stored : Bytes) × (seal_result plain
        (zeros 32)
        (some (zeros 12))
        one_shot
        (zeros 32)
        (zeros 32)
        900
        (5 ∷ [])
      ≡ ok stored)
    × (open_result plain (zeros 32) one_shot (zeros 32) (zeros 32) 900 stored ≡ ok (5 ∷ []))
open_result-seal_result_example =
    open_result-seal_result plain plain-IsAead (zeros 32) (zeros 12) one_shot (zeros 32) (zeros 32)
      900 (5 ∷ []) refl refl refl

abbrev limiter : RateLimiter
limiter = record {
  max = 5;
  window = 60;
  buckets = (customer, record { start = 100; used = 2 }) ∷ [];
}

abbrev reserved : RateLimitReservation
reserved = record { key = customer; window_start = 100; cost = 3; committed = false }

drop_reservation-reserve_n_example :
    current_use (drop_reservation (reserve_n limiter customer 3 120).1 reserved) customer 120
    ≡ current_use limiter customer 120
unfolding reserve_n charge_n sweep get
drop_reservation-reserve_n_example =
    drop_reservation-reserve_n limiter customer 3 120 reserved (omega arith) refl customer

refused_stays_example :
    (charge_n
      (Refusals.run
        (charge_n limiter customer 4 120).1
        ((payment, (1, 130)) ∷ (customer, (2, 140)) ∷ []))
      customer
      1
      159).0
    ≡ none
unfolding charge_n sweep get
refused_stays_example =
    refused_stays limiter customer 3 120 ((payment, (1, 130)) ∷ (customer, (2, 140)) ∷ []) 1 159
      (omega arith) (omega arith) refl (omega arith, (omega arith, tt)) (omega arith)
