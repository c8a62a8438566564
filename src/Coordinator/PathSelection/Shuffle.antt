-- ===== src/Coordinator/PathSelection/Shuffle.antt =====
-- A shuffle keeps the nodes that it puts in another order.
use nil.Prelude.{
  ℕ, zero, suc, ◌+◌, ◌-◌, ◌%◌, ◌≡◌, ◌≢◌, ◌⊎◌, ◌↔◌, inl, inr, refl, sym, ap, ◌∙◌, Option, none, some,
  List, [], ◌∷◌, length, get_elem?, ◌==◌, ltb, Option-cases, ==_iff, Bool-cases, arith,
}
use mathlib.Core.List.{Memᴰ}
use mathlib.Core.Option.{some_inj}
use nil.Coordinator.PathSelection.{set, swap, shuffle_loop, shuffle}

module _ {ℓ} {A : Type ℓ} where
  get_elem?-Mem : (xs : List A) (i : ℕ) {x : A} → get_elem? xs i ≡ some x → Memᴰ x xs
  get_elem?-Mem [] i h = cc
  get_elem?-Mem (y ∷ ys) zero h = Memᴰ.head (some_inj.0 (sym h))
  get_elem?-Mem (y ∷ ys) (suc i) h = Memᴰ.tail (get_elem?-Mem ys i h)

  Mem-get_elem? : (xs : List A) {x : A} → Memᴰ x xs → (i : ℕ) × (get_elem? xs i ≡ some x)
  Mem-get_elem? [] m = elim m [ ]
  Mem-get_elem? (y ∷ ys) (Memᴰ.head e) = (0, ap some (sym e))
  Mem-get_elem? (y ∷ ys) (Memᴰ.tail m) = let (i, e) = Mem-get_elem? ys m in (suc i, e)

  Mem-set : (xs : List A) (i : ℕ) (y : A) {x : A} → Memᴰ x (set xs i y) → (x ≡ y) ⊎ Memᴰ x xs
  Mem-set [] i y m = inr m
  Mem-set (z ∷ zs) zero y (Memᴰ.head e) = inl e
  Mem-set (z ∷ zs) zero y (Memᴰ.tail m) = inr (Memᴰ.tail m)
  Mem-set (z ∷ zs) (suc i) y (Memᴰ.head e) = inr (Memᴰ.head e)
  Mem-set (z ∷ zs) (suc i) y (Memᴰ.tail m) = elim (Mem-set zs i y m) [
    | inl e ↦ inl e
    | inr n ↦ inr (Memᴰ.tail n)
  ]

  get_elem?-set_same :
      (xs : List A) (i : ℕ) (y : A) {x : A}
      → get_elem? xs i ≡ some x
      → get_elem? (set xs i y) i ≡ some y
  get_elem?-set_same [] i y h = cc
  get_elem?-set_same (z ∷ zs) zero y h = refl
  get_elem?-set_same (z ∷ zs) (suc i) y h = get_elem?-set_same zs i y h

  get_elem?-set_other :
      (xs : List A) (i k : ℕ) (y : A) → k ≢ i → get_elem? (set xs i y) k ≡ get_elem? xs k
  get_elem?-set_other [] i k y h = refl
  get_elem?-set_other (z ∷ zs) zero zero y h = absurd (h refl)
  get_elem?-set_other (z ∷ zs) zero (suc k) y h = refl
  get_elem?-set_other (z ∷ zs) (suc i) zero y h = refl
  get_elem?-set_other (z ∷ zs) (suc i) (suc k) y h =
      get_elem?-set_other zs i k y (λ (e : k ≡ i). h (ap suc e))

  -- Two positions whose entries are exchanged.
  module _ (xs : List A) (i j : ℕ) (a b : A) (at_i : get_elem? xs i ≡ some a)
      (at_j : get_elem? xs j ≡ some b) where
    abbrev swapped : List A
    swapped = set (set xs i b) j a

    swapped-kept : {x : A} → Memᴰ x swapped → Memᴰ x xs
    swapped-kept m = elim (Mem-set (set xs i b) j a m) [
      | inl e ↦ get_elem?-Mem xs i (at_i ∙ ap some (sym e))
      | inr n ↦ elim (Mem-set xs i b n) [
        | inl e ↦ get_elem?-Mem xs j (at_j ∙ ap some (sym e))
        | inr o ↦ o
      ]
    ]

    first_at_j : get_elem? swapped j ≡ some a
    first_at_j = elim (Bool-cases (j == i)) [
      | inl e ↦
          let same : j ≡ i = (==_iff j i).0 e in
          let put : get_elem? (set xs i b) j ≡ some b = rw same (get_elem?-set_same xs i b at_i) in
          get_elem?-set_same (set xs i b) j a put
      | inr e ↦
          get_elem?-set_same (set xs i b) j a (get_elem?-set_other xs i j b (ground arith) ∙ at_j)
    ]

    second : Memᴰ b swapped
    second = elim (Bool-cases (i == j)) [
      | inl e ↦
          let same : a ≡ b = some_inj.0 (sym at_i ∙ rw ((==_iff i j).0 e) at_j) in
          get_elem?-Mem swapped j (first_at_j ∙ ap some same)
      | inr e ↦
          get_elem?-Mem swapped i
            (get_elem?-set_other (set xs i b) j i a (ground arith) ∙ get_elem?-set_same xs i b at_i)
    ]

    kept-swapped : {x : A} → Memᴰ x xs → Memᴰ x swapped
    kept-swapped {x} m =
        let (k, at_k) = Mem-get_elem? xs m in
        elim (Bool-cases (k == i)) [
          | inl e ↦ get_elem?-Mem swapped j (first_at_j ∙ sym at_i ∙ rw (← (==_iff k i).0 e) at_k)
          | inr e ↦ elim (Bool-cases (k == j)) [
            | inl f ↦
                let same : b ≡ x = some_inj.0 (sym at_j ∙ rw (← (==_iff k j).0 f) at_k) in
                rw (← same) second
            | inr f ↦ get_elem?-Mem swapped k (
                get_elem?-set_other (set xs i b) j k a (ground arith)
                ∙ get_elem?-set_other xs i k b (ground arith)
                ∙ at_k)
          ]
        ]

  swap-Mem : (xs : List A) (i j : ℕ) {x : A} → Memᴰ x (swap xs i j) ↔ Memᴰ x xs
  unfolding swap
  swap-Mem xs i j {x} = elim (Option-cases (get_elem? xs i)) [
    | inl none_i ↦ rw (swap, none_i) (λ m. m, λ m. m)
    | inr (a, at_i) ↦ elim (Option-cases (get_elem? xs j)) [
      | inl none_j ↦ rw (swap, at_i, none_j) (λ m. m, λ m. m)
      | inr (b, at_j) ↦
          rw (swap, at_i, at_j)
            (swapped-kept xs i j a b at_i at_j, kept-swapped xs i j a b at_i at_j)
    ]
  ]

  shuffle_loop-Mem :
      (i : ℕ) (r : ℕ → ℕ) (xs : List A) {x : A} → Memᴰ x (shuffle_loop i r xs) ↔ Memᴰ x xs
  unfolding shuffle_loop
  shuffle_loop-Mem zero r xs = (λ m. m, λ m. m)
  shuffle_loop-Mem (suc i) r xs =
      let once = swap-Mem xs (suc i) (r (suc i) % (suc i + 1)) in
      let later = shuffle_loop-Mem i r (swap xs (suc i) (r (suc i) % (suc i + 1))) in
      (λ m. once.0 (later.0 m), λ m. later.1 (once.1 m))

  pub shuffle-Mem :
      (random : Option (ℕ → ℕ)) (xs : List A) {x : A} → Memᴰ x (shuffle random xs) ↔ Memᴰ x xs
  unfolding shuffle
  shuffle-Mem none xs = elim (Bool-cases (ltb (length xs) 2)) [
    | inl short ↦ rw short (λ m. m, λ m. m)
    | inr long ↦ rw long (λ m. m, λ m. m)
  ]
  shuffle-Mem (some r) xs = elim (Bool-cases (ltb (length xs) 2)) [
    | inl short ↦ rw short (λ m. m, λ m. m)
    | inr long ↦ rw long (shuffle_loop-Mem (length xs - 1) r xs)
  ]
