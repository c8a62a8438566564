-- ===== src/Transport/Cascade/Sessions.antt =====
-- Which rung a cascade settles on, and what becomes of the sessions that it opens.
use nil.Prelude.{
  ℕ, ◌≡◌, refl, Bool, true, false, not, ◌&&◌, Option, none, some, List, [], ◌∷◌, ◌++◌, all, ok,
  arith, nat_eq,
}
use nil.Grant.{GrantTransport}
use nil.Transport.Cascade.{
  Error, failed_probe, timed_out, connected, refused, elapsed, Rung, rung, connect_loop, connect,
}

-- A rung that connects, and carries traffic where that is probed.
abbrev pub usable : Bool → Rung → Bool
usable probe (rung kind (connected session) alive) = not (probe && not alive)
usable probe (rung kind (refused e) alive) = false
usable probe (rung kind elapsed alive) = false

-- The sessions that rungs open, in their order.
abbrev pub opened : List Rung → List ℕ
opened [] = []
opened (rung kind (connected session) alive ∷ rungs) = session ∷ opened rungs
opened (rung kind (refused e) alive ∷ rungs) = opened rungs
opened (rung kind elapsed alive ∷ rungs) = opened rungs

module _ (probe : Bool) (kind : GrantTransport) (session : ℕ) (alive : Bool)
    (after : List Rung) where
  abbrev winning : Rung
  winning = rung kind (connected session) alive

  loop_first :
      (last : Option Error) (before : List Rung)
      → all (λ r. not (usable probe r)) before ≡ true
      → usable probe winning ≡ true
      → connect_loop probe last (before ++ winning ∷ after) ≡ (ok (winning, session), opened before)
  unfolding connect_loop
  loop_first last [] skipped good =
      let carried : (probe && not alive) ≡ false = ground (arith, good) in rw carried refl
  loop_first last (rung k (refused e) a ∷ before) skipped good =
      loop_first (some e) before skipped good
  loop_first last (rung k elapsed a ∷ before) skipped good =
      loop_first (some (timed_out k)) before skipped good
  loop_first last (rung k (connected s) a ∷ before) skipped good =
      let dead : (probe && not a) ≡ true = ground (arith, skipped) in
      rw (dead, loop_first (some (failed_probe k)) before (ground (arith, skipped)) good) refl

  -- The first rung that connects, and whose session is alive where that is probed, wins; the sessions
  -- of the rungs before it, which are dead, are closed, and the rungs behind it are not asked.
  pub connect_first :
      (before : List Rung)
      → all (λ r. not (usable probe r)) before ≡ true
      → usable probe winning ≡ true
      → connect probe (before ++ winning ∷ after) ≡ (ok (winning, session), opened before)
  unfolding connect
  connect_first = loop_first none
