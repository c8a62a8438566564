-- ===== src/Portal/RateLimit/Refusals.antt =====
-- A key over its cap stays refused in its window (crates/nil-portal/src/ratelimit.rs).
use nil.Prelude.{
  ℕ, zero, suc, ◌+◌, ◌-◌, ◌<◌, ◌≡◌, refl, ◌∙◌, none, some, List, [], ◌∷◌, Bytes, ltb, leb,
  if◌then◌else◌, bytes_eq, bytes_beq, bytes_beq_iff, bytes_beq_refl, arith, u32_max,
  saturating_add32, Bool-cases, inl, inr,
}
use nil.Prelude.Dict.{get, get-insert, get-retain}
use nil.Portal.RateLimit.{Bucket, RateLimiter, sweep, current, charged, charge_n}
use nil.Portal.RateLimit.Reservations.{current-sweep}

-- A history of charges, each with its key, cost and time
pub run : RateLimiter → List (Bytes × (ℕ × ℕ)) → RateLimiter
run l [] = l
run l ((key, (cost, now)) ∷ calls) = run (charge_n l key cost now).1 calls

-- Every charge of the history falls into the window that begins at `start`.
abbrev pub InWindow : ℕ → ℕ → List (Bytes × (ℕ × ℕ)) → Type 0
InWindow start window [] = Unit
InWindow start window ((key, (cost, now)) ∷ calls) =
    (now < start + window) × InWindow start window calls

-- The key's bucket of that window is over the cap.
record IsClosed (l : RateLimiter) (key : Bytes) (start : ℕ) : Type 0 where
  used : ℕ
  found : get l.buckets key ≡ some (record { start = start; used = used })
  over : l.max < used
  capped : l.max < u32_max

charge_n-window :
    (l : RateLimiter) (k : Bytes) (cost now : ℕ) → (charge_n l k cost now).1.window ≡ l.window
unfolding charge_n
charge_n-window l k zero now = refl
charge_n-window l k (suc cost) now = refl

current-live :
    (window now start used : ℕ)
    → now < start + window
    → 0 < window
    → current window now (some (record { start = start; used = used }))
      ≡ record { start = start; used = used }
current-live window now start used live wide = ground arith

current-closed :
    (l : RateLimiter) (key : Bytes) (start now : ℕ) (closed : IsClosed l key start)
    → now < start + l.window
    → 0 < l.window
    → current l.window now (get (sweep l now) key) ≡ record { start = start; used = closed.used }
current-closed l key start now closed live wide =
    current-sweep l now key
    ∙ rw closed.found (current-live l.window now start closed.used live wide)

charge_n-closed :
    (l : RateLimiter) (key : Bytes) (start cost now : ℕ)
    → IsClosed l key start
    → now < start + l.window
    → 0 < l.window
    → (charge_n l key cost now).0 ≡ none
unfolding charge_n
charge_n-closed l key start zero now closed live wide = refl
charge_n-closed l key start (suc cost) now closed live wide =
    let over = closed.over in
    let capped = closed.capped in
    rw (current-closed l key start now closed live wide) (ground arith)

sweep-live :
    (l : RateLimiter) (now : ℕ) (key : Bytes) (b : Bucket)
    → now < b.start + l.window
    → 0 < l.window
    → get l.buckets key ≡ some b
    → get (sweep l now) key ≡ some b
unfolding sweep
sweep-live l now key b live wide h =
    ground (arith, get-retain (λ _ c. ltb (now - c.start) l.window) l.buckets key)

charge_n-IsClosed :
    (l : RateLimiter) (k : Bytes) (cost now : ℕ) (key : Bytes) (start : ℕ)
    → IsClosed l key start
    → now < start + l.window
    → 0 < l.window
    → IsClosed (charge_n l k cost now).1 key start
unfolding charge_n
charge_n-IsClosed l k zero now key start closed live wide = closed
charge_n-IsClosed l k (suc cost) now key start closed live wide =
    let kept =
      sweep-live l now key (record { start = start; used = closed.used }) live wide closed.found in
    let b = charged (suc cost) (current l.window now (get (sweep l now) k)) in
    let over = closed.over in
    let capped = closed.capped in
    let c : Bucket = record { start = start; used = saturating_add32 closed.used (suc cost) } in
    elim (Bool-cases (bytes_beq k key)) [
      | inl same ↦ record {
        used = saturating_add32 closed.used (suc cost);
        found =
            rw ((bytes_beq_iff k key).0 same, current-closed l key start now closed live wide)
              (ground (arith, get-insert (sweep l now) key key c, bytes_beq_refl key));
        over = omega arith;
        capped = capped;
      }
      | inr other ↦ record {
        used = closed.used;
        found = ground (arith, kept, other, get-insert (sweep l now) k key b);
        over = over;
        capped = capped;
      }
    ]

run-IsClosed :
    (l : RateLimiter) (calls : List (Bytes × (ℕ × ℕ))) (key : Bytes) (start : ℕ)
    → IsClosed l key start
    → InWindow start l.window calls
    → 0 < l.window
    → IsClosed (run l calls) key start × ((run l calls).window ≡ l.window)
unfolding run
run-IsClosed l [] key start closed within wide = (closed, refl)
run-IsClosed l ((k, (cost, now)) ∷ calls) key start closed within wide =
    let next = (charge_n l k cost now).1 in
    let w : next.window ≡ l.window = charge_n-window l k cost now in
    let (still, same) =
      run-IsClosed next calls key start
        (charge_n-IsClosed l k cost now key start closed within.0 wide) (rw w within.1)
        (rw w wide) in
    (still, same ∙ w)

refused_over :
    (max : ℕ) (b : Bucket) → (if leb b.used max then some b.start else none) ≡ none → max < b.used
refused_over max b h = ground arith

refused-IsClosed :
    (l : RateLimiter) (key : Bytes) (cost now : ℕ)
    → l.max < u32_max
    → (charge_n l key (suc cost) now).0 ≡ none
    → IsClosed
        (charge_n l key (suc cost) now).1
        key
        (current l.window now (get l.buckets key)).start
unfolding charge_n
refused-IsClosed l key cost now capped h =
    let b = current l.window now (get l.buckets key) in
    let same = current-sweep l now key in
    record {
      used = saturating_add32 b.used (suc cost);
      found = rw same (
          ground
            (arith, bytes_beq_refl key, get-insert (sweep l now) key key (charged (suc cost) b)));
      over = refused_over l.max (charged (suc cost) b) (rw (← same) h);
      capped = capped;
    }

-- For a cap below the largest u32 and a window of a positive length: once a charge of a key at a
-- positive cost was refused, and after any further charges in its window, of that key and of others
-- and none of them refunded, no charge of the key is admitted in that window, whatever its cost.
-- Neither the sweep nor the saturation of the counter opens it again.
pub refused_stays :
    (l : RateLimiter) (key : Bytes) (cost now : ℕ) (calls : List (Bytes × (ℕ × ℕ)))
    (cost' later : ℕ)
    → l.max < u32_max
    → 0 < l.window
    → (charge_n l key (suc cost) now).0 ≡ none
    → InWindow (current l.window now (get l.buckets key)).start l.window calls
    → later < (current l.window now (get l.buckets key)).start + l.window
    → (charge_n (run (charge_n l key (suc cost) now).1 calls) key cost' later).0 ≡ none
refused_stays l key cost now calls cost' later capped wide h within live =
    let start = (current l.window now (get l.buckets key)).start in
    let next = (charge_n l key (suc cost) now).1 in
    let w : next.window ≡ l.window = charge_n-window l key (suc cost) now in
    let (closed, same) =
      run-IsClosed next calls key start (refused-IsClosed l key cost now capped h) (rw w within)
        (rw w wide) in
    let w' = same ∙ w in
    charge_n-closed (run next calls) key start cost' later closed (rw w' live) (rw w' wide)
