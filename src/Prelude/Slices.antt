-- ===== src/Prelude/Slices.antt =====
-- Reading a byte string by offsets, and writing one as a row of chunks.
use Prim.Native.Nat.{ℕ, ◌+◌, ◌-◌}
use mathlib.Core.Path.{◌≡◌, refl, sym, ◌∙◌}
use mathlib.Core.Bool.{true, ◌&&◌}
use mathlib.Core.List.{List, [], ◌∷◌, ◌++◌, append_assoc}
use mathlib.Core.Option.{Option, none, some}
use native.Mathlib.Omega.{arith}
use nil.Prelude.Tests.{leb, if◌then◌else◌, le→leb}
use nil.Prelude.Lists.{length, take, drop, length-append, take-append, drop-append}

module _ {ℓ} {A : Type ℓ} where
  -- `xs.get(from..to)`
  unfoldable pub get_range : List A → ℕ → ℕ → Option (List A)
  get_range xs from to =
      if leb from to && leb to (length xs) then some (take (to - from) (drop from xs)) else none

  -- The bytes between two written parts are the part that was written there.
  pub get_range-append :
      (xs ys zs : List A) (i j : ℕ)
      → length xs ≡ i
      → length xs + length ys ≡ j
      → get_range (xs ++ (ys ++ zs)) i j ≡ some ys
  unfolding get_range
  get_range-append xs ys zs i j hi hj =
      rw (← hi, ← hj, drop-append xs (ys ++ zs), room, width, in_order, take-append ys zs)
    where
      room : leb (length xs + length ys) (length (xs ++ (ys ++ zs))) ≡ true
      room = le→leb _ _ (omega (arith, length-append xs (ys ++ zs), length-append ys zs))

      width : length xs + length ys - length xs ≡ length ys
      width = omega arith

      in_order : leb (length xs) (length xs + length ys) ≡ true
      in_order = le→leb _ _ (omega arith)

  -- `Vec::concat`: the bytes of a row of chunks
  abbrev pub concat : List (List A) → List A
  concat [] = []
  concat (c ∷ cs) = c ++ concat cs

  abbrev pub total : List (List A) → ℕ
  total [] = 0
  total (c ∷ cs) = length c + total cs

  pub length-concat : (cs : List (List A)) → length (concat cs) ≡ total cs
  length-concat [] = omega arith
  length-concat (c ∷ cs) = omega (arith, length-append c (concat cs), length-concat cs)

  pub concat-append : (cs ds : List (List A)) → concat (cs ++ ds) ≡ concat cs ++ concat ds
  concat-append [] ds = refl
  concat-append (c ∷ cs) ds =
      rw (concat-append cs ds) (sym (append_assoc c (concat cs) (concat ds)))

  -- A chunk of a row is read between the chunks before it and those after it.
  pub get_range-concat :
      (before : List (List A)) (c : List A) (after : List (List A)) (i j : ℕ)
      → total before ≡ i
      → i + length c ≡ j
      → get_range (concat (before ++ c ∷ after)) i j ≡ some c
  get_range-concat before c after i j hi hj = rw (concat-append before (c ∷ after)) (
      get_range-append (concat before) c (concat after) i j (length-concat before ∙ hi)
        (omega (arith, length-concat before)))
