-- ===== src/Coordinator/PathSelection/Found.antt =====
-- `extend_path` finds a path of the candidates exactly when there is one.
use nil.Prelude.{
  ℕ, zero, suc, ◌+◌, ◌≤◌, ◌≡◌, inl, inr, refl, ◌∙◌, true, false, Option, some, List, [], ◌∷◌, ◌++◌,
  length, length-append, ◌==◌, Option-cases, ==_iff, Bool-cases, arith,
}
use mathlib.Core.List.{Memᴰ, append_assoc}
use nil.Coordinator.Registry.{Role, RegistryNode}
use nil.Coordinator.PathSelection.{for_position, admissible, try_candidates, extend_path}
use nil.Coordinator.PathSelection.Diverse.{
  IsPath, IsPath-snoc, IsPath-middle, admissible-AllApart, AllApart-admissible,
}

-- What the loop finds it found by one candidate.
try_candidates-found :
    (extend : List RegistryNode → Option (List RegistryNode)) (pos : Role)
    (chosen candidates : List RegistryNode) (path : List RegistryNode)
    → try_candidates extend pos chosen candidates ≡ some path
    → (n : RegistryNode) × Memᴰ n candidates
      × (admissible pos chosen n ≡ true)
      × (extend (chosen ++ n ∷ []) ≡ some path)
unfolding try_candidates
try_candidates-found extend pos chosen [] path h = cc
try_candidates-found extend pos chosen (node ∷ candidates) path h =
    let later : try_candidates extend pos chosen candidates ≡ some path
        → (n : RegistryNode) × Memᴰ n (node ∷ candidates)
          × (admissible pos chosen n ≡ true)
          × (extend (chosen ++ n ∷ []) ≡ some path) =
      λ e.
        let (n, m, a, f) = try_candidates-found extend pos chosen candidates path e in
        (n, Memᴰ.tail m, a, f) in
    elim (Bool-cases (admissible pos chosen node)) [
      | inr refused ↦ later (rw refused at h)
      | inl admitted ↦ elim (Option-cases (extend (chosen ++ node ∷ []))) [
        | inl dead_end ↦ later (rw (admitted, dead_end) at h)
        | inr (found, e) ↦ (node, Memᴰ.head refl, admitted, e ∙ rw (admitted, e) at h)
      ]
    ]

-- One candidate that leads on is enough for the loop.
try_candidates-finds :
    (extend : List RegistryNode → Option (List RegistryNode)) (pos : Role)
    (chosen candidates : List RegistryNode) (n : RegistryNode) (path : List RegistryNode)
    → Memᴰ n candidates
    → admissible pos chosen n ≡ true
    → extend (chosen ++ n ∷ []) ≡ some path
    → (found : List RegistryNode) × (try_candidates extend pos chosen candidates ≡ some found)
unfolding try_candidates
try_candidates-finds extend pos chosen [] n path member a f = elim member [ ]
try_candidates-finds extend pos chosen (node ∷ candidates) n path (Memᴰ.head e) a f =
    (path, rw (← e) (rw (a, f) refl))
try_candidates-finds extend pos chosen (node ∷ candidates) n path (Memᴰ.tail m) a f =
    let (found, e) = try_candidates-finds extend pos chosen candidates n path m a f in
    elim (Bool-cases (admissible pos chosen node)) [
      | inr refused ↦ (found, rw refused e)
      | inl admitted ↦ elim (Option-cases (extend (chosen ++ node ∷ []))) [
        | inl dead_end ↦ (found, rw (admitted, dead_end) e)
        | inr (sooner, s) ↦ (sooner, rw (admitted, s) refl)
      ]
    ]

module _ (candidates : List RegistryNode) (hops : ℕ) where
  pub extend_path_sound :
      (fuel : ℕ) (chosen path : List RegistryNode)
      → IsPath candidates hops 0 chosen
      → extend_path fuel candidates hops chosen ≡ some path
      → IsPath candidates hops 0 path × (length path ≡ hops)
  unfolding extend_path
  extend_path_sound zero chosen path valid h = elim (Bool-cases (length chosen == hops)) [
    | inl full ↦
        let same : some chosen ≡ some path = rw full at h in
        let done : chosen ≡ path = ground (arith, same) in
        rw (← done) (valid, (==_iff (length chosen) hops).0 full)
    | inr short ↦ let gone = rw short at h in cc
  ]
  extend_path_sound (suc fuel) chosen path valid h = elim (Bool-cases (length chosen == hops)) [
    | inl full ↦
        let same : some chosen ≡ some path = rw full at h in
        let done : chosen ≡ path = ground (arith, same) in
        rw (← done) (valid, (==_iff (length chosen) hops).0 full)
    | inr short ↦
        let pos : Role = for_position (length chosen) hops in
        let (n, m, a, f) =
          try_candidates-found (λ longer. extend_path fuel candidates hops longer) pos chosen
            candidates path (rw short at h) in
        let admitted = admissible-AllApart pos chosen n a in
        let place : 0 + length chosen ≡ length chosen = omega arith in
        extend_path_sound fuel (chosen ++ n ∷ []) path
          (IsPath-snoc candidates hops 0 chosen n valid m (rw place admitted.0) admitted.1) f
  ]

  pub extend_path_complete :
      (fuel : ℕ) (chosen rest : List RegistryNode)
      → IsPath candidates hops 0 (chosen ++ rest)
      → length (chosen ++ rest) ≡ hops
      → length rest ≤ fuel
      → (path : List RegistryNode) × (extend_path fuel candidates hops chosen ≡ some path)
  unfolding extend_path
  extend_path_complete zero chosen [] valid size enough =
      let full : (length chosen == hops) ≡ true = ground (arith, length-append chosen [], size) in
      (chosen, rw full refl)
  extend_path_complete zero chosen (n ∷ rest) valid size enough = absurd (omega arith)
  extend_path_complete (suc fuel) chosen [] valid size enough =
      let full : (length chosen == hops) ≡ true = ground (arith, length-append chosen [], size) in
      (chosen, rw full refl)
  extend_path_complete (suc fuel) chosen (n ∷ rest) valid size enough =
      let short : (length chosen == hops) ≡ false =
        ground (arith, length-append chosen (n ∷ rest), size) in
      let pos : Role = for_position (length chosen) hops in
      let middle = IsPath-middle candidates hops 0 chosen n rest valid in
      let place : 0 + length chosen ≡ length chosen = omega arith in
      let admitted = AllApart-admissible pos chosen n (rw place at middle.1) middle.2 in
      let whole = append_assoc chosen (n ∷ []) rest in
      let (path, f) =
        extend_path_complete fuel (chosen ++ n ∷ []) rest (rw whole valid) (rw whole size)
          (omega arith) in
      let (found, e) =
        try_candidates-finds (λ longer. extend_path fuel candidates hops longer) pos chosen
          candidates n path middle.0 admitted f in
      (found, rw short e)
