-- ===== src/Portal/RateLimit/Reservations.antt =====
-- A dropped reservation leaves no charge (crates/nil-portal/src/ratelimit.rs).
use nil.Prelude.{
  ℕ, zero, suc, ◌+◌, ◌-◌, ◌≤◌, ◌<◌, ◌≡◌, refl, ap, ◌∙◌, false, Option, none, some, List, Bytes, ltb,
  leb, if◌then◌else◌, bytes_eq, bytes_beq, bytes_beq_iff, bytes_beq_refl, arith, u32_max,
  saturating_add32, Bool-cases, inl, inr,
}
use nil.Prelude.Dict.{get, insert, get-insert, get-retain, get-remove}
use nil.Portal.RateLimit.{
  Bucket, RateLimiter, sweep, current, charged, charge_n, refund, RateLimitReservation, reserve_n,
  drop_reservation, current_use,
}

pub current-sweep :
    (l : RateLimiter) (now : ℕ) (j : Bytes)
    → current l.window now (get (sweep l now) j) ≡ current l.window now (get l.buckets j)
unfolding sweep
current-sweep l now j = ground (arith, get-retain (λ _ b. ltb (now - b.start) l.window) l.buckets j)

current-current :
    (window now : ℕ) (o : Option Bucket)
    → (current window now (some (current window now o))).used ≡ (current window now o).used
current-current window now none = ground arith
current-current window now (some b) = ground arith

answered :
    (max start : ℕ) (b : Bucket)
    → (if leb b.used max then some b.start else none) ≡ some start
    → (start ≡ b.start) × (b.used ≤ max)
answered max start b h = ground arith

-- What a successful charge stores, and what it answers
charge_n-success :
    (l : RateLimiter) (key : Bytes) (cost now start : ℕ)
    → l.max < u32_max
    → (charge_n l key cost now).0 ≡ some start
    → let b = current l.window now (get l.buckets key) in
      (start ≡ b.start)
      × (0 < cost)
      × ((charge_n l key cost now).1 ≡ record l {
        buckets = insert (sweep l now) key (record { start = b.start; used = b.used + cost });
      })
unfolding charge_n
charge_n-success l key zero now start small h = cc
charge_n-success l key (suc cost) now start small h =
    let b = current l.window now (get l.buckets key) in
    let same = current-sweep l now key in
    let (at, fits) = answered l.max start (charged (suc cost) b) (rw (← same) h) in
    let exact : saturating_add32 b.used (suc cost) ≡ b.used + suc cost = omega arith in
    let store : Bucket → RateLimiter = λ c. record l { buckets = insert (sweep l now) key c } in
    (
      at,
      omega arith,
      ap (λ c. store (charged (suc cost) c)) same
          ∙ ap (λ u. store (record { start = b.start; used = u })) exact,
    )

-- A refund of a charge at the time of the charge
refund-charged :
    (l : RateLimiter) (key : Bytes) (cost now : ℕ) (b : Bucket) (m : List (Bytes × Bucket))
    → (current l.window now (some b)).used ≡ b.used
    → 0 < cost
    → (j : Bytes)
    → current_use
        (refund
          (record l { buckets = insert m key (record { start = b.start; used = b.used + cost }) })
          key
          b.start
          cost)
        j
        now
      ≡ (if bytes_beq key j then b.used else (current l.window now (get m j)).used)
unfolding refund
refund-charged l key cost now b m live some_cost j =
    let c : Bucket = record { start = b.start; used = b.used + cost } in
    let inner = insert m key c in
    ground (
      arith,
      live,
      bytes_beq_refl key,
      get-insert m key key c,
      get-insert m key j c,
      get-remove inner key j,
      get-insert inner key j (record { start = b.start; used = b.used + cost - cost }),
    )

swept_use :
    (l : RateLimiter) (key : Bytes) (now : ℕ) (j : Bytes)
    → (if bytes_beq key j
        then current_use l key now
        else (current l.window now (get (sweep l now) j)).used)
      ≡ current_use l j now
swept_use l key now j = elim (Bool-cases (bytes_beq key j)) [
  | inl same ↦ rw same (ap (λ k. current_use l k now) ((bytes_beq_iff key j).0 same))
  | inr other ↦ rw other (ap (λ (b : Bucket). b.used) (current-sweep l now j))
]

abbrev reservation : Bytes → ℕ → ℕ → RateLimitReservation
reservation key start cost = record {
  key = key;
  window_start = start;
  cost = cost;
  committed = false;
}

reserve_n-charge :
    (l : RateLimiter) (key : Bytes) (cost now : ℕ) (r : RateLimitReservation)
    → (reserve_n l key cost now).0 ≡ some r
    → (start : ℕ) × ((charge_n l key cost now).0 ≡ some start) × (r ≡ reservation key start cost)
unfolding reserve_n
reserve_n-charge l key cost now r h = cases (charge_n l key cost now).0 h
  where
    cases :
        (o : Option ℕ)
        → elim o [ none ↦ none | some start ↦ some (reservation key start cost) ] ≡ some r
        → (start : ℕ) × (o ≡ some start) × (r ≡ reservation key start cost)
    cases none e = cc
    cases (some start) e = (start, refl, cc)

-- A reservation that is dropped without a commit, at the time at which it was made, leaves every
-- key's use of its window as it was, for a cap below the largest u32.
pub drop_reservation-reserve_n :
    (l : RateLimiter) (key : Bytes) (cost now : ℕ) (r : RateLimitReservation)
    → l.max < u32_max
    → (reserve_n l key cost now).0 ≡ some r
    → (j : Bytes)
    → current_use (drop_reservation (reserve_n l key cost now).1 r) j now ≡ current_use l j now
unfolding reserve_n drop_reservation
drop_reservation-reserve_n l key cost now r small h j =
    let (start, made, same) = reserve_n-charge l key cost now r h in
    let (at, some_cost, stored) = charge_n-success l key cost now start small made in
    let b = current l.window now (get l.buckets key) in
    let live = current-current l.window now (get l.buckets key) in
    let refunded = refund-charged l key cost now b (sweep l now) live some_cost j in
    rw (same, stored, at) (refunded ∙ swept_use l key now j)
