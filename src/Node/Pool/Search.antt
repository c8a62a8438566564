-- ===== src/Node/Pool/Search.antt =====
-- The rotating search of `assign` (crates/nil-node/src/pool.rs).
use nil.Prelude.{
  ℕ, zero, suc, ◌+◌, ◌-◌, ◌≤◌, ◌<◌, ◌≡◌, ◌≢◌, inl, inr, none, some, List, arith, leb, ◌==◌, ==_iff,
  if◌then◌else◌, nat_eq, Bool-cases,
}
use nil.Prelude.Dict.{get}
use nil.Node.Pool.{find_free, is_free, next_cursor}

module _ (first last : ℕ) (in_use : List (ℕ × Unit {0})) where
  -- How many steps of the cursor lead from `cursor` to `x`.
  abbrev steps_to : ℕ → ℕ → ℕ
  steps_to x cursor = if leb cursor x then x - cursor else x + (last - first + 1) - cursor

  -- A candidate that is found is free and in range, and the cursor stays in range.
  pub find_free-found :
      (rounds cursor x : ℕ)
      → first ≤ cursor
      → cursor ≤ last
      → (find_free rounds first last in_use cursor).0 ≡ some x
      → (get in_use x ≡ none) × (first ≤ x) × (x ≤ last)
  unfolding find_free
  find_free-found zero cursor x lo hi h = cc
  find_free-found (suc rounds) cursor x lo hi h = elim (Bool-cases (is_free (get in_use cursor))) [
    | inl free ↦ ground arith
    | inr taken ↦
        find_free-found rounds (next_cursor first last cursor) x (ground arith) (ground arith)
          (ground arith)
  ]

  pub find_free-cursor :
      (rounds cursor : ℕ)
      → first ≤ cursor
      → cursor ≤ last
      → let after = (find_free rounds first last in_use cursor).1 in
        (first ≤ after) × (after ≤ last)
  unfolding find_free
  find_free-cursor zero cursor lo hi = (lo, hi)
  find_free-cursor (suc rounds) cursor lo hi = elim (Bool-cases (is_free (get in_use cursor))) [
    | inl free ↦ ground arith
    | inr taken ↦
        let rest =
          find_free-cursor rounds (next_cursor first last cursor) (ground arith) (ground arith) in
        rw taken rest
  ]

  find_free-none :
      (rounds cursor x : ℕ)
      → first ≤ cursor
      → cursor ≤ last
      → first ≤ x
      → x ≤ last
      → steps_to x cursor < rounds
      → (find_free rounds first last in_use cursor).0 ≡ none
      → get in_use x ≢ none
  unfolding find_free
  find_free-none zero cursor x lo hi xlo xhi near h = elim near [ ]
  find_free-none (suc rounds) cursor x lo hi xlo xhi near h =
      elim (Bool-cases (is_free (get in_use cursor))) [
        | inl free ↦ ground arith
        | inr taken ↦ elim (Bool-cases (cursor == x)) [
          | inl here ↦ let e : cursor ≡ x = (==_iff cursor x).0 here in rw (← e) (ground arith)
          | inr elsewhere ↦
              find_free-none rounds (next_cursor first last cursor) x (ground arith) (ground arith)
                xlo xhi (ground arith) (ground arith)
        ]
      ]

  -- A search of as many rounds as there are addresses fails only if every address is taken.
  pub find_free-exhausted :
      (cursor x : ℕ)
      → first ≤ cursor
      → cursor ≤ last
      → first ≤ x
      → x ≤ last
      → (find_free (last - first + 1) first last in_use cursor).0 ≡ none
      → get in_use x ≢ none
  find_free-exhausted cursor x lo hi xlo xhi h =
      find_free-none (last - first + 1) cursor x lo hi xlo xhi (ground arith) h
