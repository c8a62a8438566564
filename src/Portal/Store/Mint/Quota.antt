-- ===== src/Portal/Store/Mint/Quota.antt =====
-- A quota window is never overdrawn (crates/nil-portal/src/store/memory.rs).
use nil.Prelude.{
  ℕ, ◌+◌, ◌≤◌, ◌≡◌, ◌↔◌, refl, Bool, true, Option, none, some, List, [], ◌∷◌, Bytes, arith, Result,
  ok, if◌then◌else◌, bytes_eq, nat_eq, pair_eq, inl, inr, Bool-cases,
}
use nil.Prelude.Eq.{pair_beq, pair_beq_iff}
use nil.Prelude.Dict.{get, get-insert}
use nil.Portal.Payload.{StoreError}
use nil.Portal.Store.{MemoryState, MintResult, MintQuota, QuotaUse}
use nil.Portal.Store.Mint.{
  MintCommit, stored, commit_mint, lookup_mint, drop_stale, commit_fresh, charge, use_of,
}

-- Hashed account and start of the window.
abbrev pub QuotaKey : Type 0
QuotaKey = Bytes × ℕ

abbrev pub quota_beq : QuotaKey → QuotaKey → Bool
quota_beq = pair_beq ⦃a = bytes_eq⦄ ⦃b = nat_eq⦄

quota_beq_iff : (k j : QuotaKey) → (quota_beq k j ≡ true) ↔ (k ≡ j)
quota_beq_iff = pair_beq_iff ⦃a = bytes_eq⦄ ⦃b = nat_eq⦄

abbrev used_of : Option QuotaUse → ℕ
used_of none = 0
used_of (some u) = u.used

-- What the store holds as used in a window.
abbrev pub used_at : MemoryState → QuotaKey → ℕ
used_at s k = used_of (get s.mint_quotas k)

-- A batch commit, or a lookup.
pub data Call : Type 0 where
  commits : Bytes → MintResult → MintQuota → ℕ → Call
  looks_up : Bytes → Bytes → ℕ → Call

unfoldable pub step : MemoryState → Call → MemoryState
step s (commits key result q now) = (commit_mint s key result q now).1
step s (looks_up key hash now) = (lookup_mint s key hash now).1

unfoldable pub run : MemoryState → List Call → MemoryState
unfolding step
run s [] = s
run s (c ∷ cs) = run (step s c) cs

abbrev cost_if_stored : Result MintCommit StoreError → ℕ → ℕ
cost_if_stored (ok stored) cost = cost
cost_if_stored _ cost = 0

-- What a call charges to a window: the cost of a commit that reports `stored`, and nothing else.
pub charged : QuotaKey → MemoryState → Call → ℕ
charged k s (commits key result q now) =
    if quota_beq (q.quota_key, q.window_start) k
    then cost_if_stored (commit_mint s key result q now).0 q.cost
    else 0
charged k s (looks_up key hash now) = 0

-- What a history of calls charges to a window.
pub charged_by : QuotaKey → MemoryState → List Call → ℕ
unfolding charged step
charged_by k s [] = 0
charged_by k s (c ∷ cs) = charged k s c + charged_by k (step s c) cs

-- No window is used beyond its maximum.
abbrev pub IsWithin : MemoryState → Type 0
IsWithin s = (k : QuotaKey) (u : QuotaUse) → get s.mint_quotas k ≡ some u → u.used ≤ u.max

drop_stale-quotas :
    (s : MemoryState) (key : Bytes) (now : ℕ) → (drop_stale s key now).mint_quotas ≡ s.mint_quotas
unfolding drop_stale
drop_stale-quotas s key now = ground arith

charge-used :
    (s : MemoryState) (key : Bytes) (result : MintResult) (q : MintQuota) (k : QuotaKey)
    → let u = use_of q (get s.mint_quotas (q.quota_key, q.window_start)) in
      let after = charge s key result q u in
      used_at after.1 k
      ≡ used_at s k
        + (if quota_beq (q.quota_key, q.window_start) k then cost_if_stored after.0 q.cost else 0)
charge-used s key result q k =
    let own : QuotaKey = (q.quota_key, q.window_start) in
    let next : QuotaUse = record {
      window_end = q.window_end;
      used = (use_of q (get s.mint_quotas own)).used + q.cost;
      max = q.max;
    } in
    elim (Bool-cases (quota_beq own k)) [
      | inl same ↦
          let e : own ≡ k = (quota_beq_iff own k).0 same in
          rw (← e)
            (ground (arith, get-insert s.mint_quotas own own next, (quota_beq_iff own own).1 refl))
      | inr other ↦ ground (arith, get-insert s.mint_quotas own k next, other)
    ]

commit_fresh-used :
    (s : MemoryState) (key : Bytes) (result : MintResult) (q : MintQuota) (now : ℕ)
    (found : Option MintResult) (k : QuotaKey)
    → let after = commit_fresh s key result q now found in
      used_at after.1 k
      ≡ used_at s k
        + (if quota_beq (q.quota_key, q.window_start) k then cost_if_stored after.0 q.cost else 0)
commit_fresh-used s key result q now (some r) k = ground arith
commit_fresh-used s key result q now none k = ground (arith, charge-used s key result q k)

charge-IsWithin :
    (s : MemoryState) (key : Bytes) (result : MintResult) (q : MintQuota) (u : QuotaUse)
    → IsWithin s
    → IsWithin (charge s key result q u).1
charge-IsWithin s key result q u h k w at =
    let own : QuotaKey = (q.quota_key, q.window_start) in
    let next : QuotaUse = record {
      window_end = q.window_end;
      used = u.used + q.cost;
      max = q.max;
    } in
    ground (arith, h k w, get-insert s.mint_quotas own k next)

commit_fresh-IsWithin :
    (s : MemoryState) (key : Bytes) (result : MintResult) (q : MintQuota) (now : ℕ)
    (found : Option MintResult)
    → IsWithin s
    → IsWithin (commit_fresh s key result q now found).1
commit_fresh-IsWithin s key result q now (some r) h k w at = h k w at
commit_fresh-IsWithin s key result q now none h k w at = ground (
  arith,
  h k w,
  charge-IsWithin s key result q (use_of q (get s.mint_quotas (q.quota_key, q.window_start))) h k w,
)

drop_stale-IsWithin :
    (s : MemoryState) (key : Bytes) (now : ℕ) → IsWithin s → IsWithin (drop_stale s key now)
drop_stale-IsWithin s key now h k u at = h k u (rw drop_stale-quotas at at)

step-used :
    (s : MemoryState) (c : Call) (k : QuotaKey) → used_at (step s c) k ≡ used_at s k + charged k s c
unfolding step charged commit_mint lookup_mint
step-used s (looks_up key hash now) k = rw drop_stale-quotas (omega arith)
step-used s (commits key result q now) k =
    let fresh = drop_stale s key now in
    ground (
      arith,
      drop_stale-quotas s key now,
      commit_fresh-used fresh key result q now (get fresh.mint_results key) k,
    )

step-IsWithin : (s : MemoryState) (c : Call) → IsWithin s → IsWithin (step s c)
unfolding step commit_mint lookup_mint
step-IsWithin s (looks_up key hash now) h k u at = drop_stale-IsWithin s key now h k u at
step-IsWithin s (commits key result q now) h k u at =
    let fresh = drop_stale s key now in
    ground (
      arith,
      h k u,
      commit_fresh-IsWithin fresh key result q now (get fresh.mint_results key)
          (drop_stale-IsWithin s key now h) k u,
    )

run-IsWithin : (s : MemoryState) (cs : List Call) → IsWithin s → IsWithin (run s cs)
unfolding run
run-IsWithin s [] h = h
run-IsWithin s (c ∷ cs) h = run-IsWithin (step s c) cs (step-IsWithin s c h)

-- What a window has used after a history is what it had used before, and the costs of the commits in
-- that window that the history reports as stored.
pub run-used :
    (s : MemoryState) (cs : List Call) (k : QuotaKey)
    → used_at (run s cs) k ≡ used_at s k + charged_by k s cs
unfolding run charged_by
run-used s [] k = omega arith
run-used s (c ∷ cs) k = omega (arith, run-used (step s c) cs k, step-used s c k)

-- Over any history of batch commits, retries and lookups, the costs of all stored commits of one
-- account window, with what it had used before, do not exceed the window's stored maximum.
pub charged_by-le-max :
    (s : MemoryState) (cs : List Call) (k : QuotaKey) (u : QuotaUse)
    → IsWithin s
    → get (run s cs).mint_quotas k ≡ some u
    → used_at s k + charged_by k s cs ≤ u.max
charged_by-le-max s cs k u h at =
    let total = run-used s cs k in
    let within = run-IsWithin s cs h k u at in ground (arith, total, within, at)
