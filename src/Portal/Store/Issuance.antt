-- ===== src/Portal/Store/Issuance.antt =====
-- A paid reference is bound to one blinded request (crates/nil-portal/src/store/memory.rs).
use nil.Prelude.{
  ℕ, ◌<◌, ◌≡◌, ◌≢◌, ◌⊎◌, refl, some, List, [], ◌∷◌, Bytes, arith, ok, bytes_beq_refl, bytes_beq_iff,
  bytes_eq, inl, inr, Bool-cases,
}
use nil.Prelude.Dict.{get, get-insert, get-map_values}
use nil.Portal.Store.{
  MemoryState, IssuanceResult, conflict, replayed, stored, is_replayable, lookup_issuance,
  commit_issuance, prune_issuance_results, scrub_issuance,
}

pub data Call : Type 0 where
  commits : Bytes → IssuanceResult → ℕ → Call
  prunes : ℕ → Call

pub step : MemoryState → Call → MemoryState
step s (commits key result now) = (commit_issuance s key result now).1
step s (prunes now) = (prune_issuance_results s now).1

pub run : MemoryState → List Call → MemoryState
unfolding step
run s [] = s
run s (c ∷ cs) = run (step s c) cs

-- The reference is claimed for the request of `result`; its signature is the stored one or scrubbed.
pub record IsBound (s : MemoryState) (key : Bytes) (result : IssuanceResult) : Type 0 where
  pub held : IssuanceResult
  pub found : get s.issuance_results key ≡ some held
  pub same_request : held.request_hash ≡ result.request_hash
  pub same_bound : held.replay_until ≡ result.replay_until
  pub signature : (held.blind_sig ≡ result.blind_sig) ⊎ (held.blind_sig ≡ [])

commit-IsBound :
    (s : MemoryState) (k : Bytes) (other : IssuanceResult) (now : ℕ) (key : Bytes)
    (result : IssuanceResult)
    → IsBound s key result
    → IsBound (commit_issuance s k other now).1 key result
unfolding commit_issuance
commit-IsBound s k other now key result b = record {
  held = b.held;
  found = ground (arith, b.found, get-insert s.issuance_results k key other, bytes_beq_iff k key);
  same_request = b.same_request;
  same_bound = b.same_bound;
  signature = b.signature;
}

prune-IsBound :
    (s : MemoryState) (now : ℕ) (key : Bytes) (result : IssuanceResult)
    → IsBound s key result
    → IsBound (prune_issuance_results s now).1 key result
unfolding prune_issuance_results scrub_issuance
prune-IsBound s now key result b = record {
  held = scrub_issuance now b.held;
  found = ground (arith, b.found, get-map_values (scrub_issuance now) s.issuance_results key);
  same_request = ground (arith, b.same_request);
  same_bound = ground (arith, b.same_bound);
  signature = ground (arith, b.signature);
}

run-IsBound :
    (s : MemoryState) (cs : List Call) (key : Bytes) (result : IssuanceResult)
    → IsBound s key result
    → IsBound (run s cs) key result
unfolding run step
run-IsBound s [] key result b = b
run-IsBound s (commits k other now ∷ cs) key result b =
    run-IsBound (commit_issuance s k other now).1 cs key result
      (commit-IsBound s k other now key result b)
run-IsBound s (prunes now ∷ cs) key result b =
    run-IsBound (prune_issuance_results s now).1 cs key result (prune-IsBound s now key result b)

stored-IsBound :
    (s : MemoryState) (key : Bytes) (result : IssuanceResult) (now : ℕ)
    → (commit_issuance s key result now).0 ≡ ok stored
    → IsBound (commit_issuance s key result now).1 key result
unfolding commit_issuance
stored-IsBound s key result now h = record {
  held = result;
  found = ground (arith, get-insert s.issuance_results key key result, bytes_beq_refl key);
  same_request = refl;
  same_bound = refl;
  signature = inl refl;
}

IsBound-lookup :
    (s : MemoryState) (key : Bytes) (result : IssuanceResult) (hash : Bytes) (later : ℕ)
    → IsBound s key result
    → (lookup_issuance s key hash later ≡ conflict)
      ⊎ ((lookup_issuance s key hash later ≡ replayed result.blind_sig)
          × (hash ≡ result.request_hash)
          × (later < result.replay_until))
unfolding lookup_issuance
IsBound-lookup s key result hash later b = elim (Bool-cases (is_replayable b.held hash later)) [
  | inl live ↦ inr (
    ground (arith, b.found, b.signature, live),
    ground (arith, b.same_request, bytes_beq_iff b.held.request_hash hash, live),
    ground (arith, b.same_bound, live),
  )
  | inr over ↦ inl (ground (arith, b.found, over))
]

-- Once an issuance was stored for a paid reference, then after any history of further commits and
-- prunes, at any time and for any request: a lookup of the reference is refused, or gives out the
-- stored signature, and that only for the stored request and before the replay bound; and no other
-- result is stored for that reference.
pub issuance_binding :
    (s : MemoryState) (key : Bytes) (result : IssuanceResult) (now : ℕ) (cs : List Call)
    (hash : Bytes) (other : IssuanceResult) (later : ℕ)
    → (commit_issuance s key result now).0 ≡ ok stored
    → let s' = run (commit_issuance s key result now).1 cs in
      ((lookup_issuance s' key hash later ≡ conflict)
        ⊎ ((lookup_issuance s' key hash later ≡ replayed result.blind_sig)
            × (hash ≡ result.request_hash)
            × (later < result.replay_until)))
      × ((commit_issuance s' key other later).0 ≢ ok stored)
unfolding commit_issuance
issuance_binding s key result now cs hash other later first =
    let b =
      run-IsBound (commit_issuance s key result now).1 cs key result
        (stored-IsBound s key result now first) in
    (
      IsBound-lookup (run (commit_issuance s key result now).1 cs) key result hash later b,
      λ e. ground (arith, b.found),
    )
