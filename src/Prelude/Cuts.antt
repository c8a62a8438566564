-- ===== src/Prelude/Cuts.antt =====
-- What reads of a byte string by offsets say of the whole of it.
use Prim.Native.Nat.{ℕ, zero, suc, ◌+◌, ◌-◌, ◌≤◌}
use mathlib.Core.Path.{◌≡◌, refl, sym, ap, ◌∙◌}
use mathlib.Core.Bool.{Bool, true}
use mathlib.Core.List.{List, [], ◌∷◌, ◌++◌, append_assoc, append-nil}
use mathlib.Core.Option.{some}
use native.Mathlib.Omega.{arith}
use nil.Prelude.Lists.{length, take, drop, all, length-take, length-drop}
use nil.Prelude.Slices.{get_range, concat}

module _ {ℓ} {A : Type ℓ} where
  pub all-take : (p : A → Bool) (n : ℕ) (xs : List A) → all p xs ≡ true → all p (take n xs) ≡ true
  all-take p zero xs h = refl
  all-take p (suc n) [] h = refl
  all-take p (suc n) (x ∷ xs) h = ground (arith, all-take p n xs (ground arith))

  pub all-drop : (p : A → Bool) (n : ℕ) (xs : List A) → all p xs ≡ true → all p (drop n xs) ≡ true
  all-drop p zero xs h = h
  all-drop p (suc n) [] h = refl
  all-drop p (suc n) (x ∷ xs) h = all-drop p n xs (ground arith)

  take-empty : (n : ℕ) → take {A = A} n [] ≡ []
  take-empty zero = refl
  take-empty (suc n) = refl

  take-sum : (a n : ℕ) (xs : List A) → take (a + n) xs ≡ take a xs ++ take n (drop a xs)
  take-sum zero n xs = let e : 0 + n ≡ n = omega arith in rw e refl
  take-sum (suc a) n [] = rw (take-empty n) (take-empty (suc a + n))
  take-sum (suc a) n (x ∷ xs) =
      let e : suc a + n ≡ suc (a + n) = omega arith in rw e (ap (λ ys. x ∷ ys) (take-sum a n xs))

  pub get_range-eq-some :
      (xs ys : List A) (from to : ℕ)
      → get_range xs from to ≡ some ys
      → (from ≤ to) × (to ≤ length xs) × (ys ≡ take (to - from) (drop from xs))
  unfolding get_range
  get_range-eq-some xs ys from to h = ground (arith, h)

  pub length-get_range :
      (xs ys : List A) (from to : ℕ) → get_range xs from to ≡ some ys → length ys ≡ to - from
  length-get_range xs ys from to h =
      let (ordered, inside, same) = get_range-eq-some xs ys from to h in
      ap length same ∙ omega (arith, length-take (to - from) (drop from xs), length-drop from xs)

  pub all-get_range :
      (p : A → Bool) (xs ys : List A) (from to : ℕ)
      → get_range xs from to ≡ some ys
      → all p xs ≡ true
      → all p ys ≡ true
  all-get_range p xs ys from to h each =
      let (ordered, inside, same) = get_range-eq-some xs ys from to h in
      rw same (all-take p (to - from) (drop from xs) (all-drop p from xs each))

  pub take-get_range :
      (xs ys : List A) (from to : ℕ)
      → get_range xs from to ≡ some ys
      → take to xs ≡ take from xs ++ ys
  take-get_range xs ys from to h =
      let (ordered, inside, same) = get_range-eq-some xs ys from to h in
      let whole : to ≡ from + (to - from) = omega arith in
      ap (λ n. take n xs) whole ∙ take-sum from (to - from) xs ∙ rw same refl

module _ {A : Type 0} where
  -- Parts that lie side by side, each with the offset of its end
  abbrev pub Tiled : List A → ℕ → List (List A × ℕ) → ℕ → Type 0
  Tiled xs from [] to = from ≡ to
  Tiled xs from ((part, end) ∷ parts) to =
      (get_range xs from end ≡ some part) × Tiled xs end parts to

  abbrev pub parts_of : List (List A × ℕ) → List (List A)
  parts_of [] = []
  parts_of ((part, end) ∷ parts) = part ∷ parts_of parts

  pub take-Tiled :
      (xs : List A) (from : ℕ) (parts : List (List A × ℕ)) (to : ℕ)
      → Tiled xs from parts to
      → take to xs ≡ take from xs ++ concat (parts_of parts)
  take-Tiled xs from [] to h = ap (λ n. take n xs) (sym h) ∙ sym (append-nil (take from xs))
  take-Tiled xs from ((part, end) ∷ parts) to h =
      take-Tiled xs end parts to h.1
      ∙ rw (take-get_range xs part from end h.0)
          (append_assoc (take from xs) part (concat (parts_of parts)))
