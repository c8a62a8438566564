-- ===== src/Prelude/Words.antt =====
-- Big-endian integers, hex digits and the bytes of ASCII text.
use Prim.Native.Nat.{ℕ, zero, suc, ◌+◌, ◌*◌, ◌/◌, ◌%◌, ◌^◌, ◌<◌}
use mathlib.Core.Bool.{Bool, true}
use Prim.Native.Char.{code}
use Prim.Native.String.{String}
use mathlib.Core.Path.{◌≡◌, refl, ap}
use mathlib.Core.List.{List, [], ◌∷◌, ◌++◌}
use native.Mathlib.Omega.{arith}
use native.Mathlib.Nat.{pow-suc}
use nil.Prelude.Tests.{ltb}
use nil.Prelude.Lists.{length, all, length-append}

-- `str::as_bytes`, for ASCII text
abbrev pub codes : String → List ℕ
codes String.[] = []
codes (String.◌∷◌ c s) = code c ∷ codes s

-- `to_be_bytes` of an integer of `n` bytes
unfoldable pub to_be_bytes : ℕ → ℕ → List ℕ
to_be_bytes zero v = []
to_be_bytes (suc n) v = to_be_bytes n (v / 256) ++ v % 256 ∷ []

abbrev be_fold : ℕ → List ℕ → ℕ
be_fold acc [] = acc
be_fold acc (b ∷ bs) = be_fold (acc * 256 + b) bs

-- `from_be_bytes`
unfoldable pub from_be_bytes : List ℕ → ℕ
from_be_bytes = be_fold 0

be_fold-append : (acc : ℕ) (xs ys : List ℕ) → be_fold acc (xs ++ ys) ≡ be_fold (be_fold acc xs) ys
be_fold-append acc [] ys = refl
be_fold-append acc (x ∷ xs) ys = be_fold-append (acc * 256 + x) xs ys

pub length-to_be_bytes : (n v : ℕ) → length (to_be_bytes n v) ≡ n
unfolding to_be_bytes
length-to_be_bytes zero v = refl
length-to_be_bytes (suc n) v =
    omega (
      arith,
      length-append (to_be_bytes n (v / 256)) (v % 256 ∷ []),
      length-to_be_bytes n (v / 256),
    )

pub from_be_bytes-to_be_bytes : (n v : ℕ) → v < 256 ^ n → from_be_bytes (to_be_bytes n v) ≡ v
unfolding from_be_bytes to_be_bytes
from_be_bytes-to_be_bytes zero v h = omega arith
from_be_bytes-to_be_bytes (suc n) v h =
    rw (be_fold-append 0 (to_be_bytes n (v / 256)) (v % 256 ∷ []))
      (omega (arith, from_be_bytes-to_be_bytes n (v / 256) (omega (arith, pow-suc 256 n))))

pub to_be_bytes-two : (v : ℕ) → to_be_bytes 2 v ≡ v / 256 % 256 ∷ v % 256 ∷ []
unfolding to_be_bytes
to_be_bytes-two v = refl

pub from_be_bytes-two : (hi lo : ℕ) → from_be_bytes (hi ∷ lo ∷ []) ≡ hi * 256 + lo
unfolding from_be_bytes
from_be_bytes-two hi lo = omega arith

-- `&[u8]`: numbers below 256
abbrev pub is_bytes : List ℕ → Bool
is_bytes = all (λ b. ltb b 256)

-- A string that is not empty, cut before its last byte
last_byte :
    (n : ℕ) (bs : List ℕ)
    → length bs ≡ suc n
    → is_bytes bs ≡ true
    → (front : List ℕ) × (last : ℕ) × (bs ≡ front ++ last ∷ [])
      × (length front ≡ n)
      × (is_bytes front ≡ true)
      × (last < 256)
last_byte n [] h bytes = absurd (omega arith)
last_byte zero (b ∷ []) h bytes = ([], b, refl, refl, refl, ground arith)
last_byte zero (b ∷ c ∷ bs) h bytes = absurd (omega arith)
last_byte (suc n) (b ∷ bs) h bytes =
    let (front, last, same, width, low, small) = last_byte n bs (omega arith) (ground arith) in
    (b ∷ front, last, ap (λ cs. b ∷ cs) same, ap suc width, ground (arith, low), small)

pub to_be_bytes-from_be_bytes :
    (n : ℕ) (bs : List ℕ)
    → length bs ≡ n
    → is_bytes bs ≡ true
    → to_be_bytes n (from_be_bytes bs) ≡ bs
unfolding from_be_bytes to_be_bytes
to_be_bytes-from_be_bytes zero [] h bytes = refl
to_be_bytes-from_be_bytes zero (b ∷ bs) h bytes = absurd (omega arith)
to_be_bytes-from_be_bytes (suc n) bs h bytes =
    let (front, last, same, width, low, small) = last_byte n bs h bytes in
    let value : ℕ = be_fold 0 front in
    let high : (value * 256 + last) / 256 ≡ value = omega arith in
    let rest : (value * 256 + last) % 256 ≡ last = omega arith in
    let kept : to_be_bytes n value ≡ front = to_be_bytes-from_be_bytes n front width low in
    rw (same, be_fold-append 0 front (last ∷ []), high, rest, kept) refl
