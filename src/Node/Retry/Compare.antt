-- ===== src/Node/Retry/Compare.antt =====
-- The comparison that takes the same time for all bytes answers as any other.
use nil.Prelude.{
  ℕ, ◌≡◌, ◌↔◌, refl, true, [], ◌∷◌, Bytes, length, ◌==◌, ==_iff, arith, Bool-cases, inl, inr,
}
use nil.Prelude.Bits.{bit_or-eq-zero, bit_xor-eq-zero, bit_xor_self, zero-bit_or}
use nil.Node.Retry.{ct_eq, differences}
use Prim.Native.Nat.{bit_xor, bit_or}

differences-zero :
    (diff : ℕ) (a b : Bytes) → length a ≡ length b → differences diff a b ≡ 0 → (diff ≡ 0) × (a ≡ b)
differences-zero diff [] [] e h = (h, refl)
differences-zero diff [] (y ∷ ys) e h = absurd (omega arith)
differences-zero diff (x ∷ xs) [] e h = absurd (omega arith)
differences-zero diff (x ∷ xs) (y ∷ ys) e h =
    let later = differences-zero (bit_or diff (bit_xor x y)) xs ys (omega arith) h in
    let both = bit_or-eq-zero diff (bit_xor x y) later.0 in
    (both.0, rw (bit_xor-eq-zero x y both.1, later.1) refl)

differences_self : (a : Bytes) → differences 0 a a ≡ 0
differences_self [] = refl
differences_self (x ∷ xs) = rw (bit_xor_self x, zero-bit_or 0) (differences_self xs)

pub ct_eq_iff : (a b : Bytes) → (ct_eq a b ≡ true) ↔ (a ≡ b)
unfolding ct_eq
ct_eq_iff a b = (
  λ h. elim (Bool-cases (length a == length b)) [
    | inl long ↦
        (differences-zero 0 a b ((==_iff (length a) (length b)).0 long)
          ((==_iff (differences 0 a b) 0).0 (rw long at h))).1
    | inr short ↦ let gone = rw short at h in cc
  ],
  λ e. rw e (ground (arith, differences_self b)),
)
