-- ===== src/Portal/Store/Mint/Replay.antt =====
-- A retried batch mint gets the first signatures (crates/nil-portal/src/store/memory.rs).
use nil.Prelude.{
  ℕ, ◌<◌, ◌≡◌, ◌≢◌, some, List, [], ◌∷◌, Bytes, arith, ok, if◌then◌else◌, bytes_beq, bytes_beq_refl,
  bytes_beq_iff, bytes_eq, ltb,
}
use nil.Prelude.Dict.{get, get-insert, get-remove, get-retain}
use nil.Portal.Store.{MemoryState, MintResult, MintQuota}
use nil.Portal.Store.Mint.{
  replayed, conflict, stored, drop_stale, lookup_mint, commit_mint, commit_fresh,
  prune_mint_results,
}

pub data Call : Type 0 where
  commits : Bytes → MintResult → MintQuota → ℕ → Call
  looks_up : Bytes → Bytes → ℕ → Call
  prunes : ℕ → Call

pub step : MemoryState → Call → MemoryState
step s (commits key result q now) = (commit_mint s key result q now).1
step s (looks_up key hash now) = (lookup_mint s key hash now).1
step s (prunes now) = (prune_mint_results s now).1

pub run : MemoryState → List Call → MemoryState
unfolding step
run s [] = s
run s (c ∷ cs) = run (step s c) cs

-- Every call of the history runs before the given time.
abbrev pub AllBefore : ℕ → List Call → Type 0
AllBefore expiry [] = Unit
AllBefore expiry (commits _ _ _ now ∷ cs) = (now < expiry) × AllBefore expiry cs
AllBefore expiry (looks_up _ _ now ∷ cs) = (now < expiry) × AllBefore expiry cs
AllBefore expiry (prunes now ∷ cs) = (now < expiry) × AllBefore expiry cs

abbrev Holds : MemoryState → Bytes → MintResult → Type 0
Holds s key result = get s.mint_results key ≡ some result

drop_stale-Holds :
    (s : MemoryState) (k : Bytes) (now : ℕ) (key : Bytes) (result : MintResult)
    → now < result.expires_at
    → Holds s key result
    → Holds (drop_stale s k now) key result
unfolding drop_stale
drop_stale-Holds s k now key result early h =
    ground (arith, get-remove s.mint_results k key, bytes_beq_iff k key)

commit_fresh-Holds :
    (s : MemoryState) (k : Bytes) (other : MintResult) (q : MintQuota) (now : ℕ) (key : Bytes)
    (result : MintResult)
    → Holds s key result
    → Holds (commit_fresh s k other q now (get s.mint_results k)).1 key result
commit_fresh-Holds s k other q now key result h =
    ground (arith, get-insert s.mint_results k key other, bytes_beq_iff k key)

step-Holds :
    (s : MemoryState) (c : Call) (key : Bytes) (result : MintResult)
    → AllBefore result.expires_at (c ∷ [])
    → Holds s key result
    → Holds (step s c) key result
unfolding step commit_mint lookup_mint prune_mint_results
step-Holds s (commits k other q now) key result early h =
    let kept = drop_stale-Holds s k now key result early.0 h in
    ground (arith, h, commit_fresh-Holds (drop_stale s k now) k other q now key result kept)
step-Holds s (looks_up k hash now) key result early h =
    drop_stale-Holds s k now key result early.0 h
step-Holds s (prunes now) key result early h =
    ground (arith, get-retain (λ _ r. ltb now r.expires_at) s.mint_results key, early.0)

AllBefore-cons :
    (expiry : ℕ) (c : Call) (cs : List Call)
    → AllBefore expiry (c ∷ cs)
    → AllBefore expiry (c ∷ []) × AllBefore expiry cs
AllBefore-cons expiry (commits _ _ _ now) cs h = ((h.0, tt), h.1)
AllBefore-cons expiry (looks_up _ _ now) cs h = ((h.0, tt), h.1)
AllBefore-cons expiry (prunes now) cs h = ((h.0, tt), h.1)

run-Holds :
    (s : MemoryState) (cs : List Call) (key : Bytes) (result : MintResult)
    → AllBefore result.expires_at cs
    → Holds s key result
    → Holds (run s cs) key result
unfolding run
run-Holds s [] key result early h = h
run-Holds s (c ∷ cs) key result early h =
    let (now, later) = AllBefore-cons result.expires_at c cs early in
    run-Holds (step s c) cs key result later (step-Holds s c key result now h)

stored-Holds :
    (s : MemoryState) (key : Bytes) (result : MintResult) (q : MintQuota) (now : ℕ)
    → (commit_mint s key result q now).0 ≡ ok stored
    → Holds (commit_mint s key result q now).1 key result
unfolding commit_mint
stored-Holds s key result q now h =
    ground
      (arith, get-insert (drop_stale s key now).mint_results key key result, bytes_beq_refl key)

-- Once a batch with signatures was stored under a request key, then after any history before its
-- expiry, and at any time before its expiry, a lookup under that key answers the stored signatures
-- to the stored request, and a conflict to any other.
pub mint_replays :
    (s : MemoryState) (key : Bytes) (result : MintResult) (q : MintQuota) (now : ℕ) (cs : List Call)
    (hash : Bytes) (later : ℕ)
    → (commit_mint s key result q now).0 ≡ ok stored
    → result.blind_sigs ≢ []
    → AllBefore result.expires_at cs
    → later < result.expires_at
    → (lookup_mint (run (commit_mint s key result q now).1 cs) key hash later).0
      ≡ (if bytes_beq result.request_hash hash then replayed result.blind_sigs else conflict)
unfolding lookup_mint
mint_replays s key result q now cs hash later first signed early in_time =
    let s' = run (commit_mint s key result q now).1 cs in
    let held = drop_stale-Holds s' key later key result in_time (
      run-Holds (commit_mint s key result q now).1 cs key result early
        (stored-Holds s key result q now first)) in
    ground (arith, held, signed)
