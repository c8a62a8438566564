-- ===== src/Grant/ReplayCache/SingleUse.antt =====
-- A grant is consumed once (crates/nil-node/src/grant_replay.rs).
use nil.Prelude.{
  ℕ, ◌<◌, ◌≡◌, ◌≢◌, some, List, [], ◌∷◌, ltb, ok, bytes_eq, pair_eq, arith, Bool-cases, inl, inr,
}
use nil.Prelude.Dict.{get, get-insert, get-remove}
use nil.Grant.Verifier.{VerifiedGrant}
use nil.Grant.ReplayCache.{
  Cache, ReplayKey, key_beq, key_beq_iff, key_beq_refl, drop_entry, prune_loop, prune, consume, run,
}

abbrev key_of : VerifiedGrant → ReplayKey
key_of grant = (grant.key_id, grant.nonce)

-- The cache remembers the grant until its expiry.
abbrev pub Remembers : Cache → VerifiedGrant → Type 0
Remembers c grant = get c.entries (key_of grant) ≡ some grant.expires_at

drop_entry-keeps :
    (m : List (ReplayKey × ℕ)) (at : ℕ) (k key : ReplayKey) (e : ℕ)
    → at < e
    → get m key ≡ some e
    → get (drop_entry m at k) key ≡ some e
drop_entry-keeps m at k key e early h = elim (Bool-cases (key_beq k key)) [
  | inl same ↦ let q : k ≡ key = (key_beq_iff k key).0 same in rw q (ground arith)
  | inr other ↦ ground (arith, get-remove m k key)
]

pub prune_loop-keeps :
    (now : ℕ) (m : List (ReplayKey × ℕ)) (heap : List (ℕ × ReplayKey)) (key : ReplayKey) (e : ℕ)
    → now < e
    → get m key ≡ some e
    → get (prune_loop now m heap).0 key ≡ some e
unfolding prune_loop
prune_loop-keeps now m [] key e early h = h
prune_loop-keeps now m ((at, k) ∷ heap) key e early h = elim (Bool-cases (ltb now at)) [
  | inl later ↦ rw later h
  | inr due ↦ rw due (
      prune_loop-keeps now (drop_entry m at k) heap key e early
        (drop_entry-keeps m at k key e (ground arith) h))
]

-- Before the grant's expiry no call makes the cache forget it.
consume-Remembers :
    (c : Cache) (other : VerifiedGrant) (now : ℕ) (grant : VerifiedGrant)
    → now < grant.expires_at
    → Remembers c grant
    → Remembers (consume c other now).1 grant
unfolding consume prune
consume-Remembers c other now grant early h =
    let kept =
      prune_loop-keeps now c.entries c.expirations (key_of grant) grant.expires_at early h in
    let entries = (prune_loop now c.entries c.expirations).0 in
    elim (Bool-cases (key_beq (key_of other) (key_of grant))) [
      | inl same ↦
          let q : key_of other ≡ key_of grant =
            (key_beq_iff (key_of other) (key_of grant)).0 same in
          let held : get entries (key_of other) ≡ some grant.expires_at = rw q kept in
          ground (arith, held, kept)
      | inr different ↦
          ground (arith, kept, get-insert entries (key_of other) (key_of grant) other.expires_at)
    ]

-- A consumed grant is remembered.
consume-ok-Remembers :
    (c : Cache) (grant : VerifiedGrant) (now : ℕ)
    → (consume c grant now).0 ≡ ok tt
    → Remembers (consume c grant now).1 grant
unfolding consume prune
consume-ok-Remembers c grant now h =
    let entries = (prune_loop now c.entries c.expirations).0 in
    ground (
      arith,
      get-insert entries (key_of grant) (key_of grant) grant.expires_at,
      key_beq_refl (key_of grant),
    )

abbrev pub AllBefore : ℕ → List (VerifiedGrant × ℕ) → Type 0
AllBefore expiry [] = Unit
AllBefore expiry ((grant, now) ∷ calls) = (now < expiry) × AllBefore expiry calls

run-Remembers :
    (c : Cache) (calls : List (VerifiedGrant × ℕ)) (grant : VerifiedGrant)
    → AllBefore grant.expires_at calls
    → Remembers c grant
    → Remembers (run c calls) grant
unfolding run
run-Remembers c [] grant early h = h
run-Remembers c ((other, now) ∷ calls) grant early h =
    run-Remembers (consume c other now).1 calls grant early.1
      (consume-Remembers c other now grant early.0 h)

-- Once a grant was consumed, and after any history of other attempts before its expiry, no attempt
-- to consume it again succeeds at any time.
pub consume_once :
    (c : Cache) (grant : VerifiedGrant) (now : ℕ) (calls : List (VerifiedGrant × ℕ)) (later : ℕ)
    → (consume c grant now).0 ≡ ok tt
    → AllBefore grant.expires_at calls
    → (consume (run (consume c grant now).1 calls) grant later).0 ≢ ok tt
unfolding consume prune
consume_once c grant now calls later first early again =
    let c' = run (consume c grant now).1 calls in
    let kept =
      run-Remembers (consume c grant now).1 calls grant early
        (consume-ok-Remembers c grant now first) in
    elim (Bool-cases (ltb later grant.expires_at)) [
      | inl live ↦
          let held =
            prune_loop-keeps later c'.entries c'.expirations (key_of grant) grant.expires_at
              (ground arith) kept in
          ground (arith, held)
      | inr over ↦ ground arith
    ]
