-- ===== src/Coordinator/RateLimit.antt =====
-- `RateLimiter` of crates/nil-coordinator/src/ratelimit.rs. Time is an argument of each call, in the
-- clock's own units; `duration_since` stops at 0. The counter is a `u32` that wraps in builds without
-- overflow checks.
use nil.Prelude.{
  ℕ, ◌+◌, ◌-◌, ◌^◌, ◌%◌, ◌≤◌, ◌<◌, ◌≡◌, refl, ◌∙◌, Bool, true, false, Option, none, some, List, [],
  ◌∷◌, Bytes, length, ltb, leb, if◌then◌else◌, bytes_eq, bytes_beq, bytes_beq_iff, bytes_beq_refl,
  arith, u32_max, Bool-cases, inl, inr,
}
use nil.Prelude.Dict.{get, insert, retain, get-insert, get-retain}

-- Start of the window and hits in it.
pub record Bucket : Type 0 where
  pub start : ℕ
  pub hits : ℕ

pub record RateLimiter : Type 0 where
  pub max : ℕ
  pub window : ℕ
  pub buckets : List (Bytes × Bucket)

-- `RateLimiter::new`
pub new : ℕ → ℕ → RateLimiter
new max window = record { max = max; window = window; buckets = [] }

-- The opportunistic sweep of elapsed windows.
pub sweep : RateLimiter → ℕ → List (Bytes × Bucket)
sweep l now =
    if ltb 4096 (length l.buckets)
    then retain (λ _ b. ltb (now - b.start) l.window) l.buckets
    else l.buckets

-- The bucket behind the entry and its reset.
abbrev pub current : ℕ → ℕ → Option Bucket → Bucket
current window now none = record { start = now; hits = 0 }
current window now (some b) =
    if leb window (now - b.start) then record { start = now; hits = 0 } else b

abbrev pub hit : Bucket → Bucket
hit b = record b { hits = (b.hits + 1) % 2 ^ 32 }

-- `check`
pub check : RateLimiter → Bytes → ℕ → Bool × RateLimiter
unfolding sweep
check l key now =
    let swept = sweep l now in
    let b = hit (current l.window now (get swept key)) in
    (leb b.hits l.max, record l { buckets = insert swept key b })

-- A history of checks, each with its key and time.
pub run : RateLimiter → List (Bytes × ℕ) → RateLimiter
run l [] = l
run l ((key, now) ∷ calls) = run (check l key now).1 calls

-- How many checks of a history are for one key.
unfoldable pub checks_of : Bytes → List (Bytes × ℕ) → ℕ
checks_of key [] = 0
checks_of key ((k, now) ∷ calls) = (if bytes_beq k key then 1 else 0) + checks_of key calls

-- Every check of the history falls into the window that begins at `start`.
abbrev pub InWindow : ℕ → ℕ → List (Bytes × ℕ) → Type 0
InWindow start window [] = Unit
InWindow start window ((key, now) ∷ calls) = (now < start + window) × InWindow start window calls

sweep-live :
    (l : RateLimiter) (now : ℕ) (key : Bytes) (b : Bucket)
    → now < b.start + l.window
    → 0 < l.window
    → get l.buckets key ≡ some b
    → get (sweep l now) key ≡ some b
unfolding sweep
sweep-live l now key b live wide h =
    ground (arith, get-retain (λ _ c. ltb (now - c.start) l.window) l.buckets key)

current-live :
    (window now start hits : ℕ)
    → now < start + window
    → 0 < window
    → current window now (some (record { start = start; hits = hits }))
      ≡ record { start = start; hits = hits }
current-live window now start hits live wide = ground arith

check-own :
    (l : RateLimiter) (now : ℕ) (key : Bytes) (start hits : ℕ)
    → now < start + l.window
    → 0 < l.window
    → hits < u32_max
    → get l.buckets key ≡ some (record { start = start; hits = hits })
    → get (check l key now).1.buckets key ≡ some (record { start = start; hits = 1 + hits })
unfolding check
check-own l now key start hits live wide room h =
    let kept = sweep-live l now key (record { start = start; hits = hits }) live wide h in
    let same = current-live l.window now start hits live wide in
    let swept = sweep l now in
    let b = hit (current l.window now (get swept key)) in
    ground (arith, kept, same, bytes_beq_refl key, get-insert swept key key b)

check-other :
    (l : RateLimiter) (k : Bytes) (now : ℕ) (key : Bytes) (b : Bucket)
    → now < b.start + l.window
    → 0 < l.window
    → bytes_beq k key ≡ false
    → get l.buckets key ≡ some b
    → get (check l k now).1.buckets key ≡ some b
unfolding check
check-other l k now key b live wide other h =
    let kept = sweep-live l now key b live wide h in
    let swept = sweep l now in
    let c = hit (current l.window now (get swept k)) in
    ground (arith, kept, other, get-insert swept k key c)

check-window : (l : RateLimiter) (k : Bytes) (now : ℕ) → (check l k now).1.window ≡ l.window
unfolding check
check-window l k now = refl

check-max : (l : RateLimiter) (k : Bytes) (now : ℕ) → (check l k now).1.max ≡ l.max
unfolding check
check-max l k now = refl

run-bucket :
    (l : RateLimiter) (calls : List (Bytes × ℕ)) (key : Bytes) (start hits : ℕ)
    → InWindow start l.window calls
    → 0 < l.window
    → checks_of key calls + hits ≤ u32_max
    → get l.buckets key ≡ some (record { start = start; hits = hits })
    → get (run l calls).buckets key
      ≡ some (record { start = start; hits = checks_of key calls + hits })
unfolding run checks_of
run-bucket l [] key start hits within wide room h = ground (arith, h)
run-bucket l ((k, now) ∷ calls) key start hits within wide room h =
    elim (Bool-cases (bytes_beq k key)) [
      | inl same ↦
          let e : k ≡ key = (bytes_beq_iff k key).0 same in
          let own = check-own l now key start hits within.0 wide (ground (arith, room, same)) h in
          let next : get (check l k now).1.buckets key
              ≡ some (record { start = start; hits = 1 + hits }) =
            rw e own in
          let rest =
            run-bucket (check l k now).1 calls key start (1 + hits)
              (rw (check-window l k now) within.1) (rw (check-window l k now) wide)
              (ground (arith, room, same)) next in
          ground (arith, rest, same)
      | inr other ↦
          let next =
            check-other l k now key (record { start = start; hits = hits }) within.0 wide other h in
          let rest =
            run-bucket (check l k now).1 calls key start hits (rw (check-window l k now) within.1)
              (rw (check-window l k now) wide) (ground (arith, room, other)) next in
          ground (arith, rest, other)
    ]

abbrev is_ready : ℕ → ℕ → Option Bucket → Bool
is_ready window now none = true
is_ready window now (some b) = leb window (now - b.start)

check-first :
    (l : RateLimiter) (key : Bytes) (now : ℕ)
    → is_ready l.window now (get l.buckets key) ≡ true
    → get (check l key now).1.buckets key ≡ some (record { start = now; hits = 1 })
unfolding check sweep
check-first l key now ready =
    let swept = sweep l now in
    let b = hit (current l.window now (get swept key)) in
    ground (
      arith,
      bytes_beq_refl key,
      get-insert swept key key b,
      get-retain (λ _ c. ltb (now - c.start) l.window) l.buckets key,
    )

run-max : (l : RateLimiter) (calls : List (Bytes × ℕ)) → (run l calls).max ≡ l.max
unfolding run
run-max l [] = refl
run-max l ((key, now) ∷ calls) = run-max (check l key now).1 calls ∙ check-max l key now

run-window : (l : RateLimiter) (calls : List (Bytes × ℕ)) → (run l calls).window ≡ l.window
unfolding run
run-window l [] = refl
run-window l ((key, now) ∷ calls) = run-window (check l key now).1 calls ∙ check-window l key now

check-answer :
    (l : RateLimiter) (key : Bytes) (now start hits : ℕ)
    → now < start + l.window
    → 0 < l.window
    → hits < u32_max
    → get l.buckets key ≡ some (record { start = start; hits = hits })
    → (check l key now).0 ≡ leb (1 + hits) l.max
unfolding check
check-answer l key now start hits live wide room h =
    let kept = sweep-live l now key (record { start = start; hits = hits }) live wide h in
    let same = current-live l.window now start hits live wide in ground (arith, kept, same)

-- The first check of a key that has no live bucket opens a window, of a positive length. After it
-- and any checks inside that window, of this key and of others, one more check of the key in the
-- window is admitted exactly if the checks of the key since the window opened, the first and this
-- one included, do not exceed the cap, as long as they are fewer than 2 ^ 32, where the counter
-- wraps. The sweep of the map changes nothing of that.
pub checks_of-cap :
    (l : RateLimiter) (key : Bytes) (start : ℕ) (calls : List (Bytes × ℕ)) (now : ℕ)
    → is_ready l.window start (get l.buckets key) ≡ true
    → 0 < l.window
    → InWindow start l.window calls
    → now < start + l.window
    → 2 + checks_of key calls ≤ u32_max
    → (check (run (check l key start).1 calls) key now).0 ≡ leb (2 + checks_of key calls) l.max
checks_of-cap l key start calls now ready wide within live room =
    let first = (check l key start).1 in
    let opened = check-first l key start ready in
    let after = run first calls in
    let w : first.window ≡ l.window = check-window l key start in
    let w_after : after.window ≡ l.window = run-window first calls ∙ w in
    let m : after.max ≡ l.max = run-max first calls ∙ check-max l key start in
    let counted =
      run-bucket first calls key start 1 (rw w within) (rw w wide) (omega arith) opened in
    let answer =
      check-answer after key now start (checks_of key calls + 1) (rw w_after live) (rw w_after wide)
        (omega arith) counted in
    ground (arith, answer, m)
