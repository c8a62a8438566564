-- ===== src/Prelude/Bits.antt =====
-- Binary digits of native numbers: `^`, `>>`, `leading_zeros` and `count_ones`, each by halving.
use Prim.Native.Nat.{
  ℕ, zero, suc, ◌+◌, ◌*◌, ◌/◌, ◌%◌, ◌≤◌, ◌<◌, ◌^◌, bit_xor, digits, differ, bit_xor-bitwise, bit_or,
  bit_or-bitwise, max,
}
use mathlib.Core.Path.{◌≡◌, refl}
use mathlib.Core.Logic.{◌≢◌, ◌⊎◌, inl, inr}
use native.Mathlib.Omega.{arith}
use native.Mathlib.Nat.{pow-suc}
use nil.Prelude.Tests.{◌==◌, ==_iff, Bool-cases}

abbrev xor_fuel : ℕ → ℕ → ℕ → ℕ
xor_fuel n a b = digits (λ c. c) differ n a b

xor_fuel-enough : (n m a b : ℕ) → a ≤ n → a ≤ m → xor_fuel n a b ≡ xor_fuel m a b
xor_fuel-enough zero zero a b h k = refl
xor_fuel-enough zero (suc m) zero b h k = refl
xor_fuel-enough (suc n) zero zero b h k = refl
xor_fuel-enough (suc n) (suc m) zero b h k = refl
xor_fuel-enough zero (suc m) (suc a) b h k = absurd (omega arith)
xor_fuel-enough (suc n) zero (suc a) b h k = absurd (omega arith)
xor_fuel-enough (suc n) (suc m) (suc a) b h k =
    omega (arith, xor_fuel-enough n m (suc a / 2) (b / 2) (omega arith) (omega arith))

zero-bit_xor : (b : ℕ) → bit_xor 0 b ≡ b
zero-bit_xor b = bit_xor-bitwise 0 b

-- The last digit and the digits before it.
pub bit_xor_step : (a b : ℕ) → bit_xor a b ≡ bit_xor (a / 2) (b / 2) * 2 + differ (a % 2) (b % 2)
bit_xor_step zero b = omega (arith, zero-bit_xor b, zero-bit_xor (b / 2))
bit_xor_step (suc a) b = omega (
  arith,
  bit_xor-bitwise (suc a) b,
  bit_xor-bitwise (suc a / 2) (b / 2),
  xor_fuel-enough a (suc a / 2) (suc a / 2) (b / 2) (omega arith) (omega arith),
)

same_digit : (a b : ℕ) → a < 2 → a ≡ b → differ a b ≡ 0
same_digit zero zero p e = refl
same_digit (suc zero) (suc zero) p e = refl
same_digit zero (suc b) p e = absurd (omega arith)
same_digit (suc a) zero p e = absurd (omega arith)
same_digit (suc zero) (suc (suc b)) p e = absurd (omega arith)
same_digit (suc (suc a)) (suc b) p e = absurd (omega arith)

other_digit : (a b : ℕ) → a < 2 → b < 2 → a ≢ b → differ a b ≡ 1
other_digit zero zero p q e = absurd (e refl)
other_digit (suc zero) (suc zero) p q e = absurd (e refl)
other_digit zero (suc zero) p q e = refl
other_digit (suc zero) zero p q e = refl
other_digit zero (suc (suc b)) p q e = absurd (omega arith)
other_digit (suc zero) (suc (suc b)) p q e = absurd (omega arith)
other_digit (suc (suc a)) b p q e = absurd (omega arith)

differ_digits :
    (a b : ℕ)
    → ((a % 2 ≡ b % 2) × (differ (a % 2) (b % 2) ≡ 0))
      ⊎ ((a % 2 ≢ b % 2) × (differ (a % 2) (b % 2) ≡ 1))
differ_digits a b = elim (Bool-cases (a % 2 == b % 2)) [
  | inl e ↦
      let same : a % 2 ≡ b % 2 = (==_iff (a % 2) (b % 2)).0 e in
      inl (same, same_digit (a % 2) (b % 2) (omega arith) same)
  | inr e ↦
      let apart : a % 2 ≢ b % 2 =
        λ (h : a % 2 ≡ b % 2). ground (arith, (==_iff (a % 2) (b % 2)).1 h) in
      inr (apart, other_digit (a % 2) (b % 2) (omega arith) (omega arith) apart)
]

pub bit_xor-half : (a b : ℕ) → bit_xor a b / 2 ≡ bit_xor (a / 2) (b / 2)
bit_xor-half a b = elim (differ_digits a b) [
  | inl e ↦ omega (arith, bit_xor_step a b, e.1)
  | inr e ↦ omega (arith, bit_xor_step a b, e.1)
]

bit_xor_self_by_fuel : (n a : ℕ) → a ≤ n → bit_xor a a ≡ 0
bit_xor_self_by_fuel zero zero h = refl
bit_xor_self_by_fuel zero (suc a) h = absurd (omega arith)
bit_xor_self_by_fuel (suc n) zero h = refl
bit_xor_self_by_fuel (suc n) (suc a) h = omega (
  arith,
  bit_xor_step (suc a) (suc a),
  same_digit (suc a % 2) (suc a % 2) (omega arith) refl,
  bit_xor_self_by_fuel n (suc a / 2) (omega arith),
)

pub bit_xor_self : (a : ℕ) → bit_xor a a ≡ 0
bit_xor_self a = bit_xor_self_by_fuel a a (omega arith)

bit_xor_zero_fuel : (n a b : ℕ) → a ≤ n → b ≤ n → bit_xor a b ≡ 0 → a ≡ b
bit_xor_zero_fuel zero a b p q h = omega arith
bit_xor_zero_fuel (suc n) a b p q h = elim (differ_digits a b) [
  | inl e ↦ omega (
    arith,
    e.0,
    bit_xor_zero_fuel n (a / 2) (b / 2) (omega arith) (omega arith)
        (omega (arith, bit_xor-half a b)),
  )
  | inr e ↦ absurd (omega (arith, bit_xor_step a b, e.1))
]

pub bit_xor-eq-zero : (a b : ℕ) → bit_xor a b ≡ 0 → a ≡ b
bit_xor-eq-zero a b = bit_xor_zero_fuel (a + b) a b (omega arith) (omega arith)

-- `x >> n`
abbrev pub shr : ℕ → ℕ → ℕ
shr x zero = x
shr x (suc n) = shr (x / 2) n

-- `BITS - x.leading_zeros()`: how often a number is halved until it is gone.
abbrev halvings : ℕ → ℕ → ℕ
halvings zero x = 0
halvings (suc fuel) zero = 0
halvings (suc fuel) (suc x) = suc (halvings fuel (suc x / 2))

unfoldable pub bit_length : ℕ → ℕ
bit_length x = halvings x x

-- `count_ones`
abbrev ones : ℕ → ℕ → ℕ
ones zero x = 0
ones (suc fuel) x = x % 2 + ones fuel (x / 2)

unfoldable pub count_ones : ℕ → ℕ
count_ones x = ones x x

halvings-enough : (n m x : ℕ) → x ≤ n → x ≤ m → halvings n x ≡ halvings m x
halvings-enough zero zero x p q = refl
halvings-enough zero (suc m) zero p q = refl
halvings-enough (suc n) zero zero p q = refl
halvings-enough (suc n) (suc m) zero p q = refl
halvings-enough zero (suc m) (suc x) p q = absurd (omega arith)
halvings-enough (suc n) zero (suc x) p q = absurd (omega arith)
halvings-enough (suc n) (suc m) (suc x) p q =
    omega (arith, halvings-enough n m (suc x / 2) (omega arith) (omega arith))

pub bit_length-half : (x : ℕ) → 0 < x → bit_length x ≡ suc (bit_length (x / 2))
unfolding bit_length
bit_length-half zero h = absurd (omega arith)
bit_length-half (suc x) h =
    omega (arith, halvings-enough x (suc x / 2) (suc x / 2) (omega arith) (omega arith))

pub bit_length-zero : bit_length 0 ≡ 0
unfolding bit_length
bit_length-zero = refl

pub bit_length-bound : (n x : ℕ) → x < 2 ^ n → bit_length x ≤ n
bit_length-bound n zero h = omega (arith, bit_length-zero)
bit_length-bound zero (suc x) h = absurd (omega arith)
bit_length-bound (suc n) (suc x) h = omega (
  arith,
  bit_length-half (suc x) (omega arith),
  bit_length-bound n (suc x / 2) (omega (arith, pow-suc 2 n)),
)

ones-enough : (n m x : ℕ) → x ≤ n → x ≤ m → ones n x ≡ ones m x
ones-enough zero zero x p q = refl
ones-enough zero (suc m) x p q =
    omega (arith, ones-enough zero m (x / 2) (omega arith) (omega arith))
ones-enough (suc n) zero x p q =
    omega (arith, ones-enough n zero (x / 2) (omega arith) (omega arith))
ones-enough (suc n) (suc m) x p q = elim (Bool-cases (x == 0)) [
  | inl e ↦ omega (arith, (==_iff x 0).0 e, ones-enough n m (x / 2) (omega arith) (omega arith))
  | inr e ↦ omega (arith, ones-enough n m (x / 2) (omega arith) (omega arith))
]

pub count_ones_step : (x : ℕ) → count_ones x ≡ x % 2 + count_ones (x / 2)
unfolding count_ones
count_ones_step zero = refl
count_ones_step (suc x) =
    omega (arith, ones-enough x (suc x / 2) (suc x / 2) (omega arith) (omega arith))

abbrev or_fuel : ℕ → ℕ → ℕ → ℕ
or_fuel n a b = digits (λ c. c) max n a b

or_fuel-enough : (n m a b : ℕ) → a ≤ n → a ≤ m → or_fuel n a b ≡ or_fuel m a b
or_fuel-enough zero zero a b h k = refl
or_fuel-enough zero (suc m) zero b h k = refl
or_fuel-enough (suc n) zero zero b h k = refl
or_fuel-enough (suc n) (suc m) zero b h k = refl
or_fuel-enough zero (suc m) (suc a) b h k = absurd (omega arith)
or_fuel-enough (suc n) zero (suc a) b h k = absurd (omega arith)
or_fuel-enough (suc n) (suc m) (suc a) b h k =
    omega (arith, or_fuel-enough n m (suc a / 2) (b / 2) (omega arith) (omega arith))

pub zero-bit_or : (b : ℕ) → bit_or 0 b ≡ b
zero-bit_or b = bit_or-bitwise 0 b

bit_or_step : (a b : ℕ) → bit_or a b ≡ bit_or (a / 2) (b / 2) * 2 + max (a % 2) (b % 2)
bit_or_step zero b = omega (arith, zero-bit_or b, zero-bit_or (b / 2))
bit_or_step (suc a) b = omega (
  arith,
  bit_or-bitwise (suc a) b,
  bit_or-bitwise (suc a / 2) (b / 2),
  or_fuel-enough a (suc a / 2) (suc a / 2) (b / 2) (omega arith) (omega arith),
)

bit_or_zero_fuel : (n a b : ℕ) → a ≤ n → b ≤ n → bit_or a b ≡ 0 → (a ≡ 0) × (b ≡ 0)
bit_or_zero_fuel zero a b p q h = (omega arith, omega arith)
bit_or_zero_fuel (suc n) a b p q h =
    let halves =
      bit_or_zero_fuel n (a / 2) (b / 2) (omega arith) (omega arith)
        (omega (arith, bit_or_step a b)) in
    (omega (arith, halves.0, bit_or_step a b), omega (arith, halves.1, bit_or_step a b))

-- An or is zero when both its operands are.
pub bit_or-eq-zero : (a b : ℕ) → bit_or a b ≡ 0 → (a ≡ 0) × (b ≡ 0)
bit_or-eq-zero a b = bit_or_zero_fuel (a + b) a b (omega arith) (omega arith)
