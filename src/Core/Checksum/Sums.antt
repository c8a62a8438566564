-- ===== src/Core/Checksum/Sums.antt =====
-- The one's complement sum: the loop that folds the carries ends, and a sum that holds its own
-- complement folds to ones.
use nil.Prelude.{
  ℕ, zero, suc, ◌+◌, ◌-◌, ◌*◌, ◌/◌, ◌%◌, ◌^◌, ◌≤◌, ◌<◌, ◌≡◌, refl, sym, ap, ◌∙◌, true, [], ◌∷◌,
  ◌++◌, Bytes, length, ◌==◌, Bool-cases, ==_iff, inl, inr, ◌⊎◌, arith,
}
pub use nil.Prelude.Words.{is_bytes}
use nil.Core.Checksum.Writes.{write_nothing}
use nil.Core.Checksum.{write, sum_words, fold_carries}

-- The sum without the bound of a `u32`
abbrev pub words : Bytes → ℕ
words [] = 0
words (hi ∷ []) = hi * 256
words (hi ∷ lo ∷ data_) = hi * 256 + lo + words data_

pub is_bytes-cons :
    (b : ℕ) (bs : Bytes) → is_bytes (b ∷ bs) ≡ true → (b < 256) × (is_bytes bs ≡ true)
is_bytes-cons b bs h = (ground arith, ground arith)

pub words-bound :
    (data_ : Bytes) → is_bytes data_ ≡ true → words data_ ≤ 65535 * (suc (length data_) / 2)
words-bound [] h = omega arith
words-bound (hi ∷ []) h = omega (arith, (is_bytes-cons hi [] h).0)
words-bound (hi ∷ lo ∷ data_) h =
    let high = is_bytes-cons hi (lo ∷ data_) h in
    let low = is_bytes-cons lo data_ high.1 in omega (arith, high.0, low.0, words-bound data_ low.1)

pub sum_words-words :
    (sum : ℕ) (data_ : Bytes) → sum + words data_ < 2 ^ 32 → sum_words sum data_ ≡ sum + words data_
unfolding sum_words
sum_words-words sum [] h = omega arith
sum_words-words sum (hi ∷ []) h = omega arith
sum_words-words sum (hi ∷ lo ∷ data_) h =
    let kept : (sum + (hi * 256 + lo)) % 2 ^ 32 ≡ sum + (hi * 256 + lo) = omega arith in
    rw kept (omega (arith, sum_words-words (sum + (hi * 256 + lo)) data_ (omega arith)))

pub words-append : (xs ys : Bytes) → length xs % 2 ≡ 0 → words (xs ++ ys) ≡ words xs + words ys
words-append [] ys h = omega arith
words-append (x ∷ []) ys h = absurd (omega arith)
words-append (x ∷ y ∷ xs) ys h = omega (arith, words-append xs ys (omega arith))

-- What is left of a sum: its residue by 65535, with 65535 for the multiples but 0.
abbrev pub residue : ℕ → ℕ
residue zero = 0
residue (suc n) = suc (n % 65535)

residue-positive : (sum : ℕ) → 0 < sum → residue sum ≡ suc ((sum - 1) % 65535)
residue-positive zero h = absurd (omega arith)
residue-positive (suc n) h = omega arith

residue-fold : (sum : ℕ) → residue (sum % 65536 + sum / 65536) ≡ residue sum
residue-fold zero = refl
residue-fold (suc n) = omega (arith, residue-positive (suc n % 65536 + suc n / 65536) (omega arith))

residue-small : (sum : ℕ) → sum < 65536 → residue sum ≡ sum
residue-small zero h = refl
residue-small (suc n) h = omega arith

residue-round :
    (fuel sum : ℕ)
    → fold_carries fuel (sum % 65536 + sum / 65536) ≡ residue (sum % 65536 + sum / 65536)
    → fold_carries (suc fuel) sum ≡ residue sum
unfolding fold_carries
residue-round fuel sum h = elim (Bool-cases (sum / 65536 == 0)) [
  | inl low ↦
      let none_carried : sum / 65536 ≡ 0 = (==_iff (sum / 65536) 0).0 low in
      rw low (sym (residue-small sum (omega arith)))
  | inr high ↦ rw high (h ∙ residue-fold sum)
]

-- Two rounds are enough for every `u32`.
pub fold_carries-residue : (sum : ℕ) → sum < 2 ^ 32 → fold_carries 2 sum ≡ residue sum
unfolding fold_carries
fold_carries-residue sum h =
    let once : ℕ = sum % 65536 + sum / 65536 in
    residue-round 1 sum
      (residue-round 0 once (sym (residue-small (once % 65536 + once / 65536) (omega arith))))

pub residue-bound : (sum : ℕ) → residue sum < 65536
residue-bound zero = omega arith
residue-bound (suc n) = omega arith

-- The sum of data without its checksum, and the one with it.
pub checksum_closes :
    (sum csum : ℕ)
    → csum ≡ 65535 - residue sum % 65536 ⊎ ((csum ≡ 65535) × (residue sum ≡ 65535))
    → 65535 - residue (sum + csum) % 65536 ≡ 0
checksum_closes zero csum (inl e) = omega (arith, residue-positive (0 + csum) (omega arith))
checksum_closes zero csum (inr e) = absurd (omega (arith, e.1))
checksum_closes (suc n) csum (inl e) = omega (arith, residue-positive (suc n + csum) (omega arith))
checksum_closes (suc n) csum (inr e) =
    omega (arith, e.0, e.1, residue-positive (suc n + csum) (omega arith))

-- The sum of data before and after its checksum is written.
pub words-write :
    (data_ : Bytes) (off a b : ℕ)
    → off % 2 ≡ 0
    → off + 2 ≤ length data_
    → words (write data_ off (a ∷ b ∷ [])) ≡ words (write data_ off (0 ∷ 0 ∷ [])) + (a * 256 + b)
words-write (x ∷ y ∷ data_) zero a b even room = omega (arith, ap words (write_nothing data_ 0))
words-write (x ∷ y ∷ data_) (suc zero) a b even room = absurd (omega arith)
words-write (x ∷ y ∷ data_) (suc (suc off)) a b even room =
    omega (arith, words-write data_ off a b (omega arith) (omega arith))
words-write [] zero a b even room = absurd (omega arith)
words-write [] (suc off) a b even room = absurd (omega arith)
words-write (x ∷ []) zero a b even room = absurd (omega arith)
words-write (x ∷ []) (suc off) a b even room = absurd (omega arith)
