-- ===== src/Grant/ReplayCache/Capacity.antt =====
-- The cache is bounded, and what fills it is alive (crates/nil-node/src/grant_replay.rs).
use nil.Prelude.{
  ℕ, ◌≤◌, ◌<◌, ◌≡◌, ◌≢◌, ◌⊎◌, refl, if_cases, leb_false→lt, some, List, [], ◌∷◌, length, ltb, leb,
  Result, bytes_eq, pair_eq, arith, Bool-cases, inl, inr,
}
use nil.Prelude.Dict.{get, insert, get-insert, get-remove, length-remove-le, length-insert-le}
use nil.Grant.Verifier.{VerifiedGrant}
use nil.Grant.ReplayCache.{
  Cache, ReplayKey, key_beq, key_beq_iff, push, drop_entry, prune_loop, prune, consume,
  consume_pruned, run, is_held, ReplayError,
}

abbrev InHeap : ℕ → ReplayKey → List (ℕ × ReplayKey) → Type 0
InHeap e k [] = ⊥
InHeap e k ((at, j) ∷ heap) = ((at ≡ e) × (j ≡ k)) ⊎ InHeap e k heap

abbrev NotBefore : ℕ → List (ℕ × ReplayKey) → Type 0
NotBefore e [] = Unit
NotBefore e ((at, j) ∷ heap) = (e ≤ at) × NotBefore e heap

abbrev IsSorted : List (ℕ × ReplayKey) → Type 0
IsSorted [] = Unit
IsSorted ((at, j) ∷ heap) = NotBefore at heap × IsSorted heap

-- Every entry waits in the heap, and the heap is in order.
pub record IsSynced (m : List (ReplayKey × ℕ)) (heap : List (ℕ × ReplayKey)) : Type 0 where
  pub queued : (k : ReplayKey) (e : ℕ) → get m k ≡ some e → InHeap e k heap
  pub sorted : IsSorted heap

-- The cache is within its capacity and synced.
pub record IsValid (c : Cache) : Type 0 where
  pub bounded : length c.entries ≤ c.capacity
  pub synced : IsSynced c.entries c.expirations

pub drop_entry-old :
    (m : List (ReplayKey × ℕ)) (at : ℕ) (j k : ReplayKey) (e : ℕ)
    → get (drop_entry m at j) k ≡ some e
    → get m k ≡ some e
drop_entry-old m at j k e found = ground (arith, get-remove m j k)

drop_entry-gone :
    (m : List (ReplayKey × ℕ)) (at : ℕ) (j k : ReplayKey) (e : ℕ)
    → at ≡ e
    → j ≡ k
    → get (drop_entry m at j) k ≢ some e
drop_entry-gone m at j k e p q found = ground (arith, get-remove m j k, (key_beq_iff j k).1 q)

drop_entry-queued :
    (m : List (ReplayKey × ℕ)) (at : ℕ) (j : ReplayKey) (heap : List (ℕ × ReplayKey))
    (k : ReplayKey) (e : ℕ)
    → (get m k ≡ some e → InHeap e k ((at, j) ∷ heap))
    → get (drop_entry m at j) k ≡ some e
    → InHeap e k heap
drop_entry-queued m at j heap k e h found = elim (h (drop_entry-old m at j k e found)) [
  | inl (at_e, j_k) ↦ absurd (drop_entry-gone m at j k e at_e j_k found)
  | inr rest ↦ rest
]

drop_entry-le :
    (m : List (ReplayKey × ℕ)) (at : ℕ) (j : ReplayKey) → length (drop_entry m at j) ≤ length m
drop_entry-le m at j = ground (arith, length-remove-le m j)

NotBefore-InHeap :
    (now at : ℕ) (heap : List (ℕ × ReplayKey)) (e : ℕ) (k : ReplayKey)
    → now < at
    → NotBefore at heap
    → InHeap e k heap
    → now < e
NotBefore-InHeap now at [] e k early h q = absurd q
NotBefore-InHeap now at ((u, j) ∷ heap) e k early h (inl q) = omega arith
NotBefore-InHeap now at ((u, j) ∷ heap) e k early h (inr q) =
    NotBefore-InHeap now at heap e k early h.1 q

NotBefore-push :
    (e : ℕ) (heap : List (ℕ × ReplayKey)) (at : ℕ) (k : ReplayKey)
    → e ≤ at
    → NotBefore e heap
    → NotBefore e (push heap at k)
unfolding push
NotBefore-push e [] at k le h = (le, tt)
NotBefore-push e ((u, j) ∷ heap) at k le h = ground (arith, NotBefore-push e heap at k le h.1)

NotBefore-mono :
    (d e : ℕ) (heap : List (ℕ × ReplayKey)) → d ≤ e → NotBefore e heap → NotBefore d heap
NotBefore-mono d e [] le h = tt
NotBefore-mono d e ((u, j) ∷ heap) le h = (omega arith, NotBefore-mono d e heap le h.1)

push-IsSorted :
    (heap : List (ℕ × ReplayKey)) (at : ℕ) (k : ReplayKey)
    → IsSorted heap
    → IsSorted (push heap at k)
unfolding push
push-IsSorted [] at k s = (tt, tt)
push-IsSorted ((u, j) ∷ heap) at k s =
    ground
      (arith, push-IsSorted heap at k s.1, NotBefore-push u heap at k, NotBefore-mono at u heap)

InHeap-push_old :
    (heap : List (ℕ × ReplayKey)) (at : ℕ) (j : ReplayKey) (e : ℕ) (k : ReplayKey)
    → InHeap e k heap
    → InHeap e k (push heap at j)
unfolding push
InHeap-push_old [] at j e k q = absurd q
InHeap-push_old ((u, i) ∷ heap) at j e k q = elim (Bool-cases (leb u at)) [
  | inl first ↦
      rw first
        (elim q [ inl here ↦ inl here | inr rest ↦ inr (InHeap-push_old heap at j e k rest) ])
  | inr last ↦ rw last (inr q)
]

InHeap-push_new :
    (heap : List (ℕ × ReplayKey)) (at : ℕ) (j : ReplayKey) → InHeap at j (push heap at j)
unfolding push
InHeap-push_new [] at j = inl (refl, refl)
InHeap-push_new ((u, i) ∷ heap) at j = elim (Bool-cases (leb u at)) [
  | inl first ↦ rw first (inr (InHeap-push_new heap at j))
  | inr last ↦ rw last (inl (refl, refl))
]

-- After the loop no entry has expired, and the rest is synced still and no longer than before.
pub prune_loop-IsSynced :
    (now : ℕ) (m : List (ReplayKey × ℕ)) (heap : List (ℕ × ReplayKey))
    → IsSynced m heap
    → let after = prune_loop now m heap in
      IsSynced after.0 after.1
      × (length after.0 ≤ length m)
      × ((k : ReplayKey) (e : ℕ) → get after.0 k ≡ some e → now < e)
unfolding prune_loop
prune_loop-IsSynced now m [] s = (s, omega arith, λ k e found. absurd (s.queued k e found))
prune_loop-IsSynced now m ((at, j) ∷ heap) s = elim (Bool-cases (ltb now at)) [
  | inl later ↦ rw later (
    s,
    omega arith,
    λ k e found. elim (s.queued k e found) [
      | inl (at_e, _) ↦ ground arith
      | inr rest ↦ NotBefore-InHeap now at heap e k (ground arith) s.sorted.0 rest
    ],
  )
  | inr due ↦
      let rest = prune_loop-IsSynced now (drop_entry m at j) heap (record {
        queued = λ k e found. drop_entry-queued m at j heap k e (s.queued k e) found;
        sorted = s.sorted.1;
      }) in
      rw due (rest.0, omega (arith, drop_entry-le m at j), rest.2)
]

-- After pruning, the entries that count against the capacity are those of unexpired grants only.
pub prune-IsValid :
    (c : Cache) (now : ℕ)
    → IsValid c
    → IsValid (prune c now)
      × ((k : ReplayKey) (e : ℕ) → get (prune c now).entries k ≡ some e → now < e)
unfolding prune
prune-IsValid c now v =
    let (s, shorter, alive) = prune_loop-IsSynced now c.entries c.expirations v.synced in
    (record { bounded = omega (arith, v.bounded); synced = s }, alive)

insert-IsSynced :
    (m : List (ReplayKey × ℕ)) (heap : List (ℕ × ReplayKey)) (key : ReplayKey) (expiry : ℕ)
    → IsSynced m heap
    → IsSynced (insert m key expiry) (push heap expiry key)
insert-IsSynced m heap key expiry s = record {
  queued = λ k e found. elim (Bool-cases (key_beq key k)) [
    | inl same ↦
        let q : key ≡ k = (key_beq_iff key k).0 same in
        let new_entry : expiry ≡ e = ground (arith, get-insert m key k expiry) in
        rw (← q, ← new_entry) (InHeap-push_new heap expiry key)
    | inr other ↦
        InHeap-push_old heap expiry key e k
          (s.queued k e (ground (arith, get-insert m key k expiry)))
  ];
  sorted = push-IsSorted heap expiry key s.sorted;
}

consume_pruned-IsValid :
    (c : Cache) (grant : VerifiedGrant) (now : ℕ)
    → IsValid c
    → IsValid (consume_pruned c grant now).1
consume_pruned-IsValid c grant now v =
    if_cases P (leb grant.expires_at now) _ _ (λ _. v)
      λ _.
        if_cases P (ltb grant.issued_at c.process_started_at) _ _ (λ _. v)
          λ _.
            if_cases P (is_held (get c.entries key)) _ _ (λ _. v)
              λ _.
                if_cases P (leb c.capacity (length c.entries)) _ _ (λ _. v)
                  λ room. record {
                    bounded = omega (
                      arith,
                      length-insert-le c.entries key grant.expires_at,
                      leb_false→lt c.capacity (length c.entries) room,
                    );
                    synced = insert-IsSynced c.entries c.expirations key grant.expires_at v.synced;
                  }
  where
    P : Result (Unit {0}) ReplayError × Cache → Type 0
    P r = IsValid r.1

    key : ReplayKey
    key = (grant.key_id, grant.nonce)

-- Whatever grants come at whatever times, a cache stays within its capacity, and its heap covers
-- its entries.
pub run-IsValid : (c : Cache) (calls : List (VerifiedGrant × ℕ)) → IsValid c → IsValid (run c calls)
unfolding run consume
run-IsValid c [] v = v
run-IsValid c ((grant, now) ∷ calls) v =
    run-IsValid (consume_pruned (prune c now) grant now).1 calls
      (consume_pruned-IsValid (prune c now) grant now (prune-IsValid c now v).0)
