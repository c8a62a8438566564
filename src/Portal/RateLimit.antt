-- ===== src/Portal/RateLimit.antt =====
-- `RateLimiter` and `RateLimitReservation` of crates/nil-portal/src/ratelimit.rs. Time is an argument
-- of each call, in the clock's own units; `duration_since` stops at 0. A reservation that is dropped
-- without `commit` is refunded; one that is committed, or whose limiter is gone, is not.
pub mod Reservations
pub mod Refusals
use nil.Prelude.{
  ℕ, zero, suc, ◌+◌, ◌-◌, ◌≤◌, ◌<◌, ◌≡◌, refl, ◌∙◌, Bool, true, false, ◌&&◌, Option, none, some,
  List, [], ◌∷◌, Bytes, length, ltb, leb, ◌==◌, if◌then◌else◌, bytes_eq, bytes_beq, bytes_beq_iff,
  bytes_beq_refl, arith, u32_max, saturating_add32, Bool-cases, inl, inr,
}
use nil.Prelude.Dict.{get, insert, remove, retain, get-insert, get-retain, get-remove}

pub record Bucket : Type 0 where
  pub start : ℕ
  pub used : ℕ

pub record RateLimiter : Type 0 where
  pub max : ℕ
  pub window : ℕ
  pub buckets : List (Bytes × Bucket)

-- `RateLimiter::new`
pub new : ℕ → ℕ → RateLimiter
new max window = record { max = max; window = window; buckets = [] }

-- The opportunistic sweep of elapsed windows
unfoldable pub sweep : RateLimiter → ℕ → List (Bytes × Bucket)
sweep l now =
    if ltb 4096 (length l.buckets)
    then retain (λ _ b. ltb (now - b.start) l.window) l.buckets
    else l.buckets

-- The entry's bucket, reset if its window has elapsed
abbrev pub current : ℕ → ℕ → Option Bucket → Bucket
current window now none = record { start = now; used = 0 }
current window now (some b) =
    if leb window (now - b.start) then record { start = now; used = 0 } else b

abbrev pub charged : ℕ → Bucket → Bucket
charged cost b = record b { used = saturating_add32 b.used cost }

-- `charge_n`
unfoldable pub charge_n : RateLimiter → Bytes → ℕ → ℕ → Option ℕ × RateLimiter
unfolding sweep
charge_n l key zero now = (none, l)
charge_n l key (suc cost) now =
    let swept = sweep l now in
    let b = charged (suc cost) (current l.window now (get swept key)) in
    (if leb b.used l.max then some b.start else none, record l { buckets = insert swept key b })

abbrev refund_bucket : RateLimiter → Bytes → ℕ → ℕ → Option Bucket → RateLimiter
refund_bucket l key window_start cost none = l
refund_bucket l key window_start cost (some b) =
    if b.start == window_start
    then (if b.used - cost == 0
        then record l { buckets = remove l.buckets key }
        else record l { buckets = insert l.buckets key (record b { used = b.used - cost }) })
    else l

-- `refund`
unfoldable pub refund : RateLimiter → Bytes → ℕ → ℕ → RateLimiter
refund l key window_start cost = refund_bucket l key window_start cost (get l.buckets key)

-- `RateLimitReservation`
pub record RateLimitReservation : Type 0 where
  pub key : Bytes
  pub window_start : ℕ
  pub cost : ℕ
  pub committed : Bool

-- `reserve_n`
unfoldable pub reserve_n : RateLimiter → Bytes → ℕ → ℕ → Option RateLimitReservation × RateLimiter
reserve_n l key cost now = (
  elim (charge_n l key cost now).0 [
    | none ↦ none
    | some window_start ↦
        some (record { key = key; window_start = window_start; cost = cost; committed = false })
  ],
  (charge_n l key cost now).1,
)

-- `commit`
pub commit : RateLimitReservation → RateLimitReservation
commit r = record r { committed = true }

-- The drop of a reservation whose limiter still lives
unfoldable pub drop_reservation : RateLimiter → RateLimitReservation → RateLimiter
drop_reservation l r = if r.committed then l else refund l r.key r.window_start r.cost

-- The use of a key that a charge at this time counts from
abbrev pub current_use : RateLimiter → Bytes → ℕ → ℕ
current_use l key now = (current l.window now (get l.buckets key)).used
