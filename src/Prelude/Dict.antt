-- ===== src/Prelude/Dict.antt =====
-- A `HashMap`. The program never depends on the order of a map, so entries stand in a list, newest
-- first; every law below holds of any such list.
use Prim.Native.Nat.{◌+◌, ◌≤◌}
use mathlib.Core.Path.{◌≡◌, refl}
use mathlib.Core.Logic.{inl, inr}
use mathlib.Core.Bool.{Bool}
use mathlib.Core.Option.{Option, none, some}
use mathlib.Core.List.{List, [], ◌∷◌}
use native.Mathlib.Omega.{arith}
use nil.Prelude.Tests.{if◌then◌else◌, Bool-cases}
use nil.Prelude.Lists.{length}
use nil.Prelude.Eq.{Eq}

module _ {ℓ κ} {K : Type ℓ} {V : Type κ} ⦃e : Eq K⦄ where
  unfoldable pub get : List (K × V) → K → Option V
  get [] k = none
  get ((j, v) ∷ m) k = if e.beq j k then some v else get m k

  unfoldable pub remove : List (K × V) → K → List (K × V)
  remove [] k = []
  remove ((j, v) ∷ m) k = let rest = remove m k in if e.beq j k then rest else (j, v) ∷ rest

  unfoldable pub insert : List (K × V) → K → V → List (K × V)
  unfolding remove
  insert m k v = (k, v) ∷ remove m k

  -- `values_mut` with a pure change of each value
  unfoldable pub map_values : (V → V) → List (K × V) → List (K × V)
  map_values f [] = []
  map_values f ((j, v) ∷ m) = (j, f v) ∷ map_values f m

  -- `retain`: a key whose entry goes is gone.
  unfoldable pub retain : (K → V → Bool) → List (K × V) → List (K × V)
  unfolding remove
  retain p [] = []
  retain p ((j, v) ∷ m) = let rest = retain p m in if p j v then (j, v) ∷ rest else remove rest j

  pub get-empty : (k : K) → get [] k ≡ none
  unfolding get
  get-empty k = refl

  pub get-remove :
      (m : List (K × V)) (k j : K) → get (remove m k) j ≡ (if e.beq k j then none else get m j)
  unfolding get remove
  get-remove [] k j = ground arith
  get-remove ((i, v) ∷ m) k j =
      ground (arith, get-remove m k j, e.beq_iff i k, e.beq_iff i j, e.beq_iff k j)

  pub get-insert :
      (m : List (K × V)) (k j : K) (v : V)
      → get (insert m k v) j ≡ (if e.beq k j then some v else get m j)
  unfolding get insert
  get-insert m k j v = ground (arith, get-remove m k j)

  pub get-map_values :
      (f : V → V) (m : List (K × V)) (j : K)
      → get (map_values f m) j ≡ elim (get m j) [ none ↦ none | some v ↦ some (f v) ]
  unfolding get map_values
  get-map_values f [] j = refl
  get-map_values f ((i, v) ∷ m) j = ground (arith, get-map_values f m j)

  abbrev pub kept : (K → V → Bool) → K → Option V → Option V
  kept p k none = none
  kept p k (some v) = if p k v then some v else none

  pub get-retain :
      (p : K → V → Bool) (m : List (K × V)) (j : K) → get (retain p m) j ≡ kept p j (get m j)
  unfolding get retain
  get-retain p [] j = refl
  get-retain p ((i, v) ∷ m) j = elim (Bool-cases (e.beq i j)) [
    | inl hit ↦
        let same : i ≡ j = (e.beq_iff i j).0 hit in
        rw same (ground (arith, get-remove (retain p m) j j, e.beq_iff j j))
    | inr miss ↦ ground (arith, get-retain p m j, get-remove (retain p m) i j)
  ]

  pub length-remove-le : (m : List (K × V)) (k : K) → length (remove m k) ≤ length m
  unfolding remove
  length-remove-le [] k = omega arith
  length-remove-le ((i, v) ∷ m) k = ground (arith, length-remove-le m k)

  pub remove-absent : (m : List (K × V)) (k : K) → get m k ≡ none → remove m k ≡ m
  unfolding get remove
  remove-absent [] k h = refl
  remove-absent ((i, v) ∷ m) k h = ground (arith, remove-absent m k)

  -- A new key makes the map one longer.
  pub length-insert_new :
      (m : List (K × V)) (k : K) (v : V) → get m k ≡ none → length (insert m k v) ≡ length m + 1
  unfolding insert
  length-insert_new m k v h = rw (remove-absent m k h) (omega arith)

  pub length-insert-le : (m : List (K × V)) (k : K) (v : V) → length (insert m k v) ≤ length m + 1
  unfolding insert
  length-insert-le m k v = omega (arith, length-remove-le m k)

  pub length-retain-le : (p : K → V → Bool) (m : List (K × V)) → length (retain p m) ≤ length m
  unfolding retain
  length-retain-le p [] = omega arith
  length-retain-le p ((i, v) ∷ m) =
      ground (arith, length-retain-le p m, length-remove-le (retain p m) i)

  pub length-map_values : (f : V → V) (m : List (K × V)) → length (map_values f m) ≡ length m
  unfolding map_values
  length-map_values f [] = refl
  length-map_values f ((i, v) ∷ m) = omega (arith, length-map_values f m)
