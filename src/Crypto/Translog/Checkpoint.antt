-- ===== src/Crypto/Translog/Checkpoint.antt =====
-- The text of a checkpoint, which is what the log signs, can be read in one way only.
use nil.Prelude.{
  ℕ, zero, suc, ◌+◌, ◌-◌, ◌*◌, ◌/◌, ◌%◌, ◌<◌, ◌≡◌, refl, sym, ap, ◌∙◌, Bool, true, false, not, [],
  ◌∷◌, ◌++◌, Bytes, all, ltb, ◌==◌, if_cases, arith,
}
use nil.Crypto.Translog.{Primitives, decimal, decimal_digits, checkpoint_body}

-- A line has no line feed in it.
abbrev pub is_line : Bytes → Bool
is_line = all (λ byte. not (byte == 10))

is_line-append_feed : (xs ys : Bytes) → is_line (xs ++ 10 ∷ ys) ≡ false
is_line-append_feed [] ys = refl
is_line-append_feed (x ∷ xs) ys = ground (arith, is_line-append_feed xs ys)

-- Text is cut at its last line feed in one way.
split_last :
    (xs ys us vs : Bytes)
    → is_line ys ≡ true
    → is_line vs ≡ true
    → xs ++ 10 ∷ ys ≡ us ++ 10 ∷ vs
    → (xs ≡ us) × (ys ≡ vs)
split_last [] ys [] vs p q h = (refl, ground arith)
split_last [] ys (u ∷ us) vs p q h = ground (arith, is_line-append_feed us vs)
split_last (x ∷ xs) ys [] vs p q h = ground (arith, is_line-append_feed xs ys)
split_last (x ∷ xs) ys (u ∷ us) vs p q h =
    let rest = split_last xs ys us vs p q (ground arith) in (ground arith, rest.1)

-- The number that digits stand for.
abbrev value : ℕ → Bytes → ℕ
value acc [] = acc
value acc (b ∷ bs) = value (acc * 10 + (b - 0x30)) bs

value-append :
    (acc : ℕ) (xs : Bytes) (b : ℕ) → value acc (xs ++ b ∷ []) ≡ value acc xs * 10 + (b - 0x30)
value-append acc [] b = refl
value-append acc (x ∷ xs) b = value-append (acc * 10 + (x - 0x30)) xs b

value-decimal_digits : (fuel v : ℕ) → v < fuel → value 0 (decimal_digits fuel v) ≡ v
value-decimal_digits zero v h = absurd (omega arith)
value-decimal_digits (suc fuel) v h =
    if_cases (λ digits. value 0 digits ≡ v) (ltb v 10) ((0x30 + v) ∷ [])
      (decimal_digits fuel (v / 10) ++ (0x30 + v % 10) ∷ []) (λ e. omega arith)
      (λ e. omega (
        arith,
        value-append 0 (decimal_digits fuel (v / 10)) (0x30 + v % 10),
        value-decimal_digits fuel (v / 10) (ground arith),
      ))

decimal-injective : (v w : ℕ) → decimal v ≡ decimal w → v ≡ w
unfolding decimal
decimal-injective v w h =
    sym (value-decimal_digits (suc v) v (omega arith))
    ∙ ap (value 0) h
    ∙ value-decimal_digits (suc w) w (omega arith)

is_line-append :
    (xs : Bytes) (b : ℕ) → is_line xs ≡ true → (b == 10) ≡ false → is_line (xs ++ b ∷ []) ≡ true
is_line-append [] b p q = ground arith
is_line-append (x ∷ xs) b p q = ground (arith, is_line-append xs b (ground arith) q)

is_line-decimal_digits : (fuel v : ℕ) → is_line (decimal_digits fuel v) ≡ true
is_line-decimal_digits zero v = refl
is_line-decimal_digits (suc fuel) v =
    if_cases (λ digits. is_line digits ≡ true) (ltb v 10) ((0x30 + v) ∷ [])
      (decimal_digits fuel (v / 10) ++ (0x30 + v % 10) ∷ []) (λ e. ground arith)
      (λ e.
        is_line-append (decimal_digits fuel (v / 10)) (0x30 + v % 10)
          (is_line-decimal_digits fuel (v / 10)) (ground arith))

is_line-decimal : (v : ℕ) → is_line (decimal v) ≡ true
unfolding decimal
is_line-decimal v = is_line-decimal_digits (suc v) v

module _ (primitives : Primitives) where
  -- A signed text names one origin, one size and one root, though an origin may hold line feeds, when
  -- Base64 is injective and writes no line feed.
  pub checkpoint_body-injective :
      (origin origin' : Bytes) (size size' : ℕ) (root root' : Bytes)
      → ((x : Bytes) → is_line (primitives.base64 x) ≡ true)
      → ((x y : Bytes) → primitives.base64 x ≡ primitives.base64 y → x ≡ y)
      → checkpoint_body primitives origin size root ≡ checkpoint_body primitives origin' size' root'
      → (origin ≡ origin') × (size ≡ size') × (root ≡ root')
  unfolding checkpoint_body
  checkpoint_body-injective origin origin' size size' root root' one_line injective h =
      let upto_root =
        split_last ((origin ++ 10 ∷ decimal size) ++ 10 ∷ primitives.base64 root) []
          ((origin' ++ 10 ∷ decimal size') ++ 10 ∷ primitives.base64 root') [] refl refl h in
      let upto_size =
        split_last (origin ++ 10 ∷ decimal size) (primitives.base64 root)
          (origin' ++ 10 ∷ decimal size') (primitives.base64 root') (one_line root) (one_line root')
          (upto_root.0) in
      let upto_origin =
        split_last origin (decimal size) origin' (decimal size') (is_line-decimal size)
          (is_line-decimal size') (upto_size.0) in
      (
        upto_origin.0,
        decimal-injective size size' (upto_origin.1),
        injective root root' (upto_size.1),
      )
