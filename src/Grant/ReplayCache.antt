-- ===== src/Grant/ReplayCache.antt =====
-- Single use of grants at a node, crates/nil-node/src/grant_replay.rs.
pub mod SingleUse
pub mod Capacity
pub mod Pruning
use nil.Prelude.{
  ℕ, suc, ◌+◌, ◌≡◌, Bool, true, false, ◌&&◌, Option, none, some, List, [], ◌∷◌, Bytes, length, ltb,
  leb, ◌==◌, Result, ok, err, if◌then◌else◌, bytes_eq, pair_eq, ◌↔◌, refl,
}
use nil.Prelude.Eq.{pair_beq, pair_beq_iff}
use nil.Prelude.Dict.{get, insert, remove}
use nil.Grant.Verifier.{VerifiedGrant}

pub data ReplayError : Type 0 where
  replayed predates_process capacity_reached expired : ReplayError

-- `ReplayKey`: key identifier and nonce
abbrev pub ReplayKey : Type 0
ReplayKey = Bytes × Bytes

abbrev pub key_beq : ReplayKey → ReplayKey → Bool
key_beq = pair_beq ⦃a = bytes_eq⦄ ⦃b = bytes_eq⦄

pub key_beq_iff : (k j : ReplayKey) → (key_beq k j ≡ true) ↔ (k ≡ j)
key_beq_iff = pair_beq_iff ⦃a = bytes_eq⦄ ⦃b = bytes_eq⦄

pub key_beq_refl : (k : ReplayKey) → key_beq k k ≡ true
key_beq_refl k = (key_beq_iff k k).1 refl

-- `GrantReplayCache`. The heap is kept as the list in which it yields its elements, soonest expiry
-- first; `prune` takes all elements of one expiry or none, so their order does not matter.
pub record Cache : Type 0 where
  pub process_started_at : ℕ
  pub capacity : ℕ
  pub entries : List (ReplayKey × ℕ)
  pub expirations : List (ℕ × ReplayKey)

-- `GrantReplayCache::new`, behind its assertion that the capacity is not 0
pub new : ℕ → ℕ → Cache
new process_started_at capacity = record {
  process_started_at = process_started_at;
  capacity = capacity;
  entries = [];
  expirations = [];
}

-- `BinaryHeap::push`
pub push : List (ℕ × ReplayKey) → ℕ → ReplayKey → List (ℕ × ReplayKey)
push [] at key = (at, key) ∷ []
push ((soonest, first) ∷ heap) at key =
    if leb soonest at
    then (soonest, first) ∷ push heap at key
    else (at, key) ∷ (soonest, first) ∷ heap

abbrev pub is_at : Option ℕ → ℕ → Bool
is_at none expires_at = false
is_at (some e) expires_at = e == expires_at

-- One turn of the loop of `prune`.
abbrev pub drop_entry : List (ReplayKey × ℕ) → ℕ → ReplayKey → List (ReplayKey × ℕ)
drop_entry entries expires_at key =
    if is_at (get entries key) expires_at then remove entries key else entries

unfoldable pub prune_loop :
    ℕ → List (ReplayKey × ℕ) → List (ℕ × ReplayKey) → List (ReplayKey × ℕ) × List (ℕ × ReplayKey)
prune_loop now entries [] = (entries, [])
prune_loop now entries ((expires_at, key) ∷ heap) =
    if ltb now expires_at
    then (entries, (expires_at, key) ∷ heap)
    else prune_loop now (drop_entry entries expires_at key) heap

-- `prune`
unfoldable pub prune : Cache → ℕ → Cache
prune c now = record c {
  entries = (prune_loop now c.entries c.expirations).0;
  expirations = (prune_loop now c.entries c.expirations).1;
}

abbrev pub is_held : Option ℕ → Bool
is_held none = false
is_held (some e) = true

-- What `consume` does after it has pruned.
abbrev pub consume_pruned : Cache → VerifiedGrant → ℕ → Result (Unit {0}) ReplayError × Cache
consume_pruned c grant now =
    let key : ReplayKey = (grant.key_id, grant.nonce) in
    if leb grant.expires_at now
    then (err expired, c)
    else if ltb grant.issued_at c.process_started_at
    then (err predates_process, c)
    else if is_held (get c.entries key)
    then (err replayed, c)
    else if leb c.capacity (length c.entries)
    then (err capacity_reached, c)
    else (
      ok tt,
      record c {
        entries = insert c.entries key grant.expires_at;
        expirations = push c.expirations grant.expires_at key;
      },
    )

-- `consume`
unfoldable pub consume : Cache → VerifiedGrant → ℕ → Result (Unit {0}) ReplayError × Cache
consume c grant now = consume_pruned (prune c now) grant now

-- A history of calls of `consume`, each with its grant and its time.
pub run : Cache → List (VerifiedGrant × ℕ) → Cache
run c [] = c
run c ((grant, now) ∷ calls) = run (consume c grant now).1 calls
