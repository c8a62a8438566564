-- ===== src/Crypto/Translog/Climb.antt =====
-- `root_from_inclusion` one level at a time: with `last` the last position of a level, each step of
-- its two loops takes one sibling, and both numbers are halved.
use nil.Prelude.{
  ℕ, zero, suc, ◌+◌, ◌-◌, ◌/◌, ◌%◌, ◌^◌, ◌≤◌, ◌<◌, ◌≡◌, ◌≢◌, refl, Option, none, some, List, [],
  ◌∷◌, Bytes, length, take, drop, leb, ◌==◌, if◌then◌else◌, arith, Bool-cases, ==_iff, ◌⊎◌, inl,
  inr, lt→leb_false, leb_false→lt,
}
use nil.Prelude.Bits.{
  bit_length, count_ones, shr, bit_length-half, bit_length-zero, count_ones_step, bit_xor-half,
  bit_xor_self, bit_xor-eq-zero,
}
use native.Mathlib.Nat.{pow-suc}
use nil.Crypto.Translog.{Primitives, hash_children, inner_loop, border_loop, root_from_inclusion}
use Prim.Native.Nat.{bit_xor}

-- How many steps there are in the two loops.
abbrev inner : ℕ → ℕ → ℕ
inner index last = bit_length (bit_xor index last)

abbrev border : ℕ → ℕ → ℕ
border index last = count_ones (shr index (inner index last))

inner-apart :
    (index last : ℕ) → index ≢ last → inner index last ≡ suc (inner (index / 2) (last / 2))
inner-apart index last h = elim (Bool-cases (bit_xor index last == 0)) [
  | inl e ↦ absurd (h (bit_xor-eq-zero index last ((==_iff (bit_xor index last) 0).0 e)))
  | inr e ↦ rw (← bit_xor-half index last) (bit_length-half (bit_xor index last) (ground arith))
]

inner-same : (index : ℕ) → inner index index ≡ 0
inner-same index = rw (bit_xor_self index) bit_length-zero

-- Positions below 2 ^ n take n inner steps at most.
inner-bound : (n index last : ℕ) → index ≤ last → last < 2 ^ n → inner index last ≤ n
inner-bound zero index last p q =
    let same : index ≡ last = omega arith in rw same (omega (arith, inner-same last))
inner-bound (suc n) index last p q = elim (Bool-cases (index == last)) [
  | inl e ↦ rw ((==_iff index last).0 e) (omega (arith, inner-same last))
  | inr e ↦ omega (
    arith,
    inner-apart index last (ground arith),
    inner-bound n (index / 2) (last / 2) (omega arith) (omega (arith, pow-suc 2 n)),
  )
]

-- A position of a level is on the right of a pair, on its left, or alone at the end.
pub position-cases :
    (index last : ℕ)
    → index ≤ last
    → (index % 2 ≡ 1) ⊎ ((index % 2 ≡ 0) × (index < last)) ⊎ ((index % 2 ≡ 0) × (index ≡ last))
position-cases index last p = elim (Bool-cases (index % 2 == 1)) [
  | inl odd ↦ inl ((==_iff (index % 2) 1).0 odd)
  | inr even ↦
      let digit : index % 2 ≡ 0 = ground arith in
      elim (Bool-cases (index == last)) [
        | inl final ↦ inr (inr (digit, (==_iff index last).0 final))
        | inr apart ↦ inr (inl (digit, ground arith))
      ]
]

module _ (primitives : Primitives) where
  inner_loop-suc :
      (index i : ℕ) (seed : Bytes) (path : List Bytes)
      → inner_loop primitives index (suc i) seed path
        ≡ inner_loop primitives (index / 2) i seed path
  unfolding inner_loop
  inner_loop-suc index i seed [] = refl
  inner_loop-suc index i seed (p ∷ path) =
      inner_loop-suc index (suc i)
        (if shr (index / 2) i % 2 == 0
          then hash_children primitives seed p
          else hash_children primitives p seed)
        path

  -- `root_from_inclusion` with the last position for the size, without the bound of the shift.
  unfoldable pub climb : ℕ → ℕ → Bytes → List Bytes → Option Bytes
  climb index last leaf path =
      if length path == inner index last + border index last
      then some (
          border_loop primitives (inner_loop primitives index 0 leaf (take (inner index last) path))
            (drop (inner index last) path))
      else none

  -- A position that is not the last one takes a sibling in the first loop.
  climb-apart :
      (index last : ℕ) (leaf p : Bytes) (path : List Bytes)
      → index ≢ last
      → climb index last leaf (p ∷ path)
        ≡ climb
            (index / 2)
            (last / 2)
            (if index % 2 == 0
              then hash_children primitives leaf p
              else hash_children primitives p leaf)
            path
  unfolding climb inner_loop
  climb-apart index last leaf p path h =
      rw (inner-apart index last h, inner_loop-suc index 0) (ground arith)

  climb-apart-nil : (index last : ℕ) (leaf : Bytes) → index ≢ last → climb index last leaf [] ≡ none
  unfolding climb
  climb-apart-nil index last leaf h = rw (inner-apart index last h) (ground arith)

  climb-same :
      (last : ℕ) (leaf : Bytes) (path : List Bytes)
      → climb last last leaf path
        ≡ (if length path == count_ones last then some (border_loop primitives leaf path) else none)
  unfolding climb inner_loop
  climb-same last leaf path = rw (inner-same last) (ground arith)

  -- The last position takes one in the second loop if it is odd, and none if it is even.
  climb-odd :
      (last : ℕ) (leaf p : Bytes) (path : List Bytes)
      → last % 2 ≡ 1
      → climb last last leaf (p ∷ path)
        ≡ climb (last / 2) (last / 2) (hash_children primitives p leaf) path
  unfolding border_loop
  climb-odd last leaf p path h =
      rw
        (
          climb-same last leaf (p ∷ path),
          climb-same (last / 2) (hash_children primitives p leaf) path,
          count_ones_step last,
          h,
        )
        (ground arith)

  climb-odd-nil : (last : ℕ) (leaf : Bytes) → last % 2 ≡ 1 → climb last last leaf [] ≡ none
  climb-odd-nil last leaf h = rw (climb-same last leaf [], count_ones_step last, h) (ground arith)

  climb-even :
      (last : ℕ) (leaf : Bytes) (path : List Bytes)
      → last % 2 ≡ 0
      → climb last last leaf path ≡ climb (last / 2) (last / 2) leaf path
  climb-even last leaf path h =
      rw (climb-same last leaf path, climb-same (last / 2) leaf path, count_ones_step last, h)
        (ground arith)

  pub climb-root : (leaf : Bytes) → climb 0 0 leaf [] ≡ some leaf
  unfolding border_loop count_ones
  climb-root leaf = rw (climb-same 0 leaf []) refl

  pub climb-root-cons : (leaf p : Bytes) (path : List Bytes) → climb 0 0 leaf (p ∷ path) ≡ none
  unfolding count_ones
  climb-root-cons leaf p path = rw (climb-same 0 leaf (p ∷ path)) (ground arith)

  -- The same by the kind of the position: on the right of a pair, on its left, or alone.
  pub climb-right :
      (index last : ℕ) (leaf p : Bytes) (path : List Bytes)
      → index % 2 ≡ 1
      → climb index last leaf (p ∷ path)
        ≡ climb (index / 2) (last / 2) (hash_children primitives p leaf) path
  climb-right index last leaf p path h = elim (Bool-cases (index == last)) [
    | inl e ↦ rw (← (==_iff index last).0 e) (climb-odd index leaf p path h)
    | inr e ↦ rw (climb-apart index last leaf p path (ground arith), h) refl
  ]

  pub climb-right-nil :
      (index last : ℕ) (leaf : Bytes) → index % 2 ≡ 1 → climb index last leaf [] ≡ none
  climb-right-nil index last leaf h = elim (Bool-cases (index == last)) [
    | inl e ↦ rw (← (==_iff index last).0 e) (climb-odd-nil index leaf h)
    | inr e ↦ climb-apart-nil index last leaf (ground arith)
  ]

  pub climb-alone :
      (index last : ℕ) (leaf : Bytes) (path : List Bytes)
      → index % 2 ≡ 0
      → index ≡ last
      → climb index last leaf path ≡ climb (index / 2) (last / 2) leaf path
  climb-alone index last leaf path h e = rw (← e) (climb-even index leaf path h)

  pub climb-left :
      (index last : ℕ) (leaf p : Bytes) (path : List Bytes)
      → index % 2 ≡ 0
      → index < last
      → climb index last leaf (p ∷ path)
        ≡ climb (index / 2) (last / 2) (hash_children primitives leaf p) path
  climb-left index last leaf p path h lt =
      rw (climb-apart index last leaf p path (omega arith), h) refl

  pub climb-left-nil :
      (index last : ℕ) (leaf : Bytes) → index < last → climb index last leaf [] ≡ none
  climb-left-nil index last leaf lt = climb-apart-nil index last leaf (omega arith)

  -- Up to 2 ^ 63 entries the amount of the shift stays below 64.
  pub root_from_inclusion-climb :
      (index size : ℕ) (leaf : Bytes) (path : List Bytes)
      → index < size
      → size ≤ 2 ^ 63
      → root_from_inclusion primitives index size leaf path ≡ climb index (size - 1) leaf path
  unfolding root_from_inclusion climb
  root_from_inclusion-climb index size leaf path p q =
      let small : inner index (size - 1) ≤ 63 =
        inner-bound 63 index (size - 1) (omega arith) (omega arith) in
      let amount : inner index (size - 1) % 64 ≡ inner index (size - 1) = omega arith in
      rw (lt→leb_false size index p, amount) refl

  pub root_from_inclusion-inside :
      (index size : ℕ) (leaf : Bytes) (path : List Bytes) {root : Bytes}
      → root_from_inclusion primitives index size leaf path ≡ some root
      → index < size
  unfolding root_from_inclusion
  root_from_inclusion-inside index size leaf path found = elim (Bool-cases (leb size index)) [
    | inl beyond ↦ let gone = rw beyond at found in cc
    | inr within ↦ leb_false→lt size index within
  ]
