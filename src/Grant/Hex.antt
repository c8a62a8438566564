-- ===== src/Grant/Hex.antt =====
-- The hex codec of crates/nil-core/src/grant.rs.
use nil.Prelude.{
  ℕ, ◌+◌, ◌*◌, ◌-◌, ◌/◌, ◌%◌, ◌≡◌, refl, true, ◌&&◌, Option, none, some, [], ◌∷◌, Bytes, all, ◌<◌,
  leb, if◌then◌else◌, arith,
}

-- `nib`
unfoldable pub nib : ℕ → Option ℕ
nib c =
    if leb b'0' c && leb c b'9'
    then some (c - b'0')
    else if leb b'a' c && leb c b'f'
    then some (c - b'a' + 10)
    else if leb b'A' c && leb c b'F'
    then some (c - b'A' + 10)
    else none

-- `from_hex`; an odd length gives `none` at its end, as every pair before it is read or gives `none`.
unfoldable pub from_hex : Bytes → Option Bytes
from_hex [] = some []
from_hex (_ ∷ []) = none
from_hex (hi ∷ lo ∷ rest) =
    let decoded = from_hex rest in
    elim (nib hi) [
      | none ↦ none
      | some h ↦ elim (nib lo) [
        | none ↦ none
        | some l ↦ elim decoded [ none ↦ none | some out ↦ some ((h * 16 + l) ∷ out) ]
      ]
    ]

-- `HEX[d]`
pub digit : ℕ → ℕ
digit d = if leb d 9 then b'0' + d else b'a' + (d - 10)

-- `to_hex`
unfoldable pub to_hex : Bytes → Bytes
to_hex [] = []
to_hex (b ∷ bytes) = digit (b / 16) ∷ digit (b % 16) ∷ to_hex bytes

nib-digit : (d : ℕ) → d < 16 → nib (digit d) ≡ some d
unfolding nib digit
nib-digit d small = ground arith

from_hex-digits :
    (h l : ℕ) (rest out : Bytes)
    → h < 16
    → l < 16
    → from_hex rest ≡ some out
    → from_hex (digit h ∷ digit l ∷ rest) ≡ some ((h * 16 + l) ∷ out)
unfolding from_hex
from_hex-digits h l rest out hi lo e = ground (arith, nib-digit h hi, nib-digit l lo, e)

-- Hex that `to_hex` writes for bytes, `from_hex` reads back.
pub from_hex-to_hex :
    (bytes : Bytes) → all (λ b. leb b 255) bytes ≡ true → from_hex (to_hex bytes) ≡ some bytes
unfolding from_hex to_hex
from_hex-to_hex [] small = refl
from_hex-to_hex (b ∷ bytes) small =
    let head : b < 256 = ground (arith, small) in
    let rest = from_hex-to_hex bytes (ground (arith, small)) in
    let read =
      from_hex-digits (b / 16) (b % 16) (to_hex bytes) bytes (omega arith) (omega arith) rest in
    let same : b / 16 * 16 + b % 16 ≡ b = omega arith in rw same at read
