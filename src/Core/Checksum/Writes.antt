-- ===== src/Core/Checksum/Writes.antt =====
-- Reading a packet after a write into it.
use nil.Prelude.{
  ℕ, zero, suc, ◌+◌, ◌-◌, ◌≤◌, ◌<◌, ◌≡◌, ◌⊎◌, inl, inr, refl, ap, ◌∙◌, true, [], ◌∷◌, Bytes, length,
  take, drop, all, Bool, length-take, length-drop, arith,
}
use native.Mathlib.Nat.{zero-add}
use nil.Prelude.Cuts.{all-take, all-drop}
use nil.Core.Checksum.{byte, slice, write}

pub length-write : (pkt : Bytes) (i : ℕ) (v : Bytes) → length (write pkt i v) ≡ length pkt
length-write [] i v = refl
length-write (b ∷ pkt) zero [] = refl
length-write (b ∷ pkt) zero (n ∷ v) = ap suc (length-write pkt zero v)
length-write (b ∷ pkt) (suc i) v = ap suc (length-write pkt i v)

pub write_nothing : (pkt : Bytes) (i : ℕ) → write pkt i [] ≡ pkt
write_nothing [] i = refl
write_nothing (b ∷ pkt) zero = refl
write_nothing (b ∷ pkt) (suc i) = ap (◌∷◌ b) (write_nothing pkt i)

pub drop-write :
    (k : ℕ) (pkt : Bytes) (i : ℕ) (v : Bytes)
    → drop k (write pkt (k + i) v) ≡ write (drop k pkt) i v
drop-write zero pkt i v = rw (zero-add i) refl
drop-write (suc k) [] i v = refl
drop-write (suc k) (b ∷ pkt) i v =
    let shifted : suc k + i ≡ suc (k + i) = omega arith in rw shifted (drop-write k pkt i v)

pub drop-write_before :
    (k : ℕ) (pkt : Bytes) (i : ℕ) (v : Bytes)
    → i + length v ≤ k
    → drop k (write pkt i v) ≡ drop k pkt
drop-write_before zero pkt i [] h = write_nothing pkt i
drop-write_before zero pkt i (n ∷ v) h = absurd (omega arith)
drop-write_before (suc k) [] i v h = refl
drop-write_before (suc k) (b ∷ pkt) zero [] h = refl
drop-write_before (suc k) (b ∷ pkt) zero (n ∷ v) h = drop-write_before k pkt zero v (omega arith)
drop-write_before (suc k) (b ∷ pkt) (suc i) v h = drop-write_before k pkt i v (omega arith)

pub take-write :
    (n : ℕ) (pkt : Bytes) (i : ℕ) (v : Bytes) → take n (write pkt i v) ≡ write (take n pkt) i v
take-write zero pkt i v = refl
take-write (suc n) [] i v = refl
take-write (suc n) (b ∷ pkt) zero [] = refl
take-write (suc n) (b ∷ pkt) zero (x ∷ v) = ap (◌∷◌ x) (take-write n pkt zero v)
take-write (suc n) (b ∷ pkt) (suc i) v = ap (◌∷◌ b) (take-write n pkt i v)

pub write_beyond : (pkt : Bytes) (i : ℕ) (v : Bytes) → length pkt ≤ i → write pkt i v ≡ pkt
write_beyond [] i v h = refl
write_beyond (b ∷ pkt) zero v h = absurd (omega arith)
write_beyond (b ∷ pkt) (suc i) v h = ap (◌∷◌ b) (write_beyond pkt i v (omega arith))

pub byte-write :
    (pkt : Bytes) (i : ℕ) (v : Bytes) (j : ℕ)
    → (j < i) ⊎ (i + length v ≤ j)
    → byte (write pkt i v) j ≡ byte pkt j
byte-write [] i v j h = refl
byte-write (b ∷ pkt) zero [] j h = refl
byte-write (b ∷ pkt) zero (n ∷ v) zero (inl h) = absurd (omega arith)
byte-write (b ∷ pkt) zero (n ∷ v) zero (inr h) = absurd (omega arith)
byte-write (b ∷ pkt) zero (n ∷ v) (suc j) (inl h) = absurd (omega arith)
byte-write (b ∷ pkt) zero (n ∷ v) (suc j) (inr h) = byte-write pkt zero v j (inr (omega arith))
byte-write (b ∷ pkt) (suc i) v zero h = refl
byte-write (b ∷ pkt) (suc i) v (suc j) (inl h) = byte-write pkt i v j (inl (omega arith))
byte-write (b ∷ pkt) (suc i) v (suc j) (inr h) = byte-write pkt i v j (inr (omega arith))

pub write-write :
    (pkt : Bytes) (i : ℕ) (v w : Bytes)
    → length v ≡ length w
    → write (write pkt i v) i w ≡ write pkt i w
write-write [] i v w h = refl
write-write (b ∷ pkt) zero [] [] h = refl
write-write (b ∷ pkt) zero [] (y ∷ w) h = absurd (omega arith)
write-write (b ∷ pkt) zero (x ∷ v) [] h = absurd (omega arith)
write-write (b ∷ pkt) zero (x ∷ v) (y ∷ w) h = ap (◌∷◌ y) (write-write pkt zero v w (omega arith))
write-write (b ∷ pkt) (suc i) v w h = ap (◌∷◌ b) (write-write pkt i v w h)

pub write_comm :
    (pkt : Bytes) (i j : ℕ) (v w : Bytes)
    → i + length v ≤ j
    → write (write pkt i v) j w ≡ write (write pkt j w) i v
write_comm [] i j v w h = refl
write_comm (b ∷ pkt) zero zero [] [] h = refl
write_comm (b ∷ pkt) zero zero [] (y ∷ w) h = refl
write_comm (b ∷ pkt) zero zero (x ∷ v) w h = absurd (omega arith)
write_comm (b ∷ pkt) zero (suc j) [] w h = refl
write_comm (b ∷ pkt) zero (suc j) (x ∷ v) w h = ap (◌∷◌ x) (write_comm pkt zero j v w (omega arith))
write_comm (b ∷ pkt) (suc i) zero v w h = absurd (omega arith)
write_comm (b ∷ pkt) (suc i) (suc j) v w h = ap (◌∷◌ b) (write_comm pkt i j v w (omega arith))

pub slice-write :
    (pkt : Bytes) (from to off : ℕ) (v : Bytes)
    → slice (write pkt (from + off) v) from to ≡ write (slice pkt from to) off v
slice-write pkt from to off v =
    rw (drop-write from pkt off v) (take-write (to - from) (drop from pkt) off v)

pub slice-write_before :
    (pkt : Bytes) (from to i : ℕ) (v : Bytes)
    → i + length v ≤ from
    → slice (write pkt i v) from to ≡ slice pkt from to
slice-write_before pkt from to i v h = rw (drop-write_before from pkt i v h) refl

pub slice-write_after :
    (pkt : Bytes) (from to i : ℕ) (v : Bytes)
    → from ≤ to
    → to ≤ i
    → slice (write pkt i v) from to ≡ slice pkt from to
slice-write_after pkt from to i v p q =
    let place : from + (i - from) ≡ i = omega arith in
    rw place at (slice-write pkt from to (i - from) v)
    ∙ write_beyond (slice pkt from to) (i - from) v
        (omega (arith, length-take (to - from) (drop from pkt)))

pub length-slice :
    (pkt : Bytes) (from to : ℕ) → to ≤ length pkt → length (slice pkt from to) ≡ to - from
length-slice pkt from to h =
    omega (arith, length-take (to - from) (drop from pkt), length-drop from pkt)

pub all-write :
    (p : ℕ → Bool) (pkt : Bytes) (i : ℕ) (v : Bytes)
    → all p pkt ≡ true
    → all p v ≡ true
    → all p (write pkt i v) ≡ true
all-write p [] i v h k = refl
all-write p (b ∷ pkt) zero [] h k = h
all-write p (b ∷ pkt) zero (n ∷ v) h k =
    ground (arith, all-write p pkt zero v (ground arith) (ground arith))
all-write p (b ∷ pkt) (suc i) v h k = ground (arith, all-write p pkt i v (ground arith) k)

pub all-slice :
    (p : ℕ → Bool) (xs : Bytes) (from to : ℕ) → all p xs ≡ true → all p (slice xs from to) ≡ true
all-slice p xs from to h = all-take p (to - from) (drop from xs) (all-drop p from xs h)
