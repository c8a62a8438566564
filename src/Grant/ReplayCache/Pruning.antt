-- ===== src/Grant/ReplayCache/Pruning.antt =====
-- Pruning is exact (crates/nil-node/src/grant_replay.rs).
use nil.Prelude.{
  if◌then◌else◌, ℕ, ◌<◌, ◌≡◌, refl, some, List, [], ◌∷◌, ltb, bytes_eq, pair_eq, arith, Bool-cases,
  inl, inr, Option, none,
}
use nil.Prelude.Dict.{get}
use nil.Grant.ReplayCache.{Cache, ReplayKey, drop_entry, prune_loop, prune}
use nil.Grant.ReplayCache.SingleUse.{prune_loop-keeps}
use nil.Grant.ReplayCache.Capacity.{IsValid, drop_entry-old, prune_loop-IsSynced}

prune_loop-old :
    (now : ℕ) (m : List (ReplayKey × ℕ)) (heap : List (ℕ × ReplayKey)) (k : ReplayKey) (e : ℕ)
    → get (prune_loop now m heap).0 k ≡ some e
    → get m k ≡ some e
unfolding prune_loop
prune_loop-old now m [] k e found = found
prune_loop-old now m ((at, j) ∷ heap) k e found = elim (Bool-cases (ltb now at)) [
  | inl later ↦ rw later at found
  | inr due ↦
      drop_entry-old m at j k e (prune_loop-old now (drop_entry m at j) heap k e (rw due at found))
]

pruned_entry :
    (now : ℕ) (after before : Option ℕ)
    → ((e : ℕ) → after ≡ some e → before ≡ some e)
    → ((e : ℕ) → after ≡ some e → now < e)
    → ((e : ℕ) → now < e → before ≡ some e → after ≡ some e)
    → after ≡ elim before [ none ↦ none | some e ↦ if ltb now e then some e else none ]
pruned_entry now none none old alive keeps = refl
pruned_entry now none (some e) old alive keeps = elim (Bool-cases (ltb now e)) [
  | inl live ↦ absurd (none-not-some (keeps e (ground (arith, live)) refl))
  | inr due ↦ rw due refl
]
  where
    none-not-some : {x : ℕ} → none ≡ some x → ⊥
    none-not-some q = cc
pruned_entry now (some e) before old alive keeps =
    let live = alive e refl in rw (old e refl) (ground (arith, live))

-- In a cache whose heap covers its entries, pruning keeps exactly the entries that are not expired.
pub get-prune :
    (c : Cache) (now : ℕ) (k : ReplayKey)
    → IsValid c
    → get (prune c now).entries k
      ≡ elim (get c.entries k) [ none ↦ none | some e ↦ if ltb now e then some e else none ]
unfolding prune
get-prune c now k v =
    let (_, _, alive) = prune_loop-IsSynced now c.entries c.expirations v.synced in
    let after = (prune_loop now c.entries c.expirations).0 in
    let old = prune_loop-old now c.entries c.expirations k in
    let keeps = prune_loop-keeps now c.entries c.expirations k in
    pruned_entry now (get after k) (get c.entries k) old (alive k) keeps
