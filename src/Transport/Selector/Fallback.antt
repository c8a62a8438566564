-- ===== src/Transport/Selector/Fallback.antt =====
-- Whatever the network probe says, the resistant rungs stay behind the fast ones.
use nil.Prelude.{
  ℕ, ◌≡◌, refl, Bool, true, false, not, ◌&&◌, Option, none, some, List, [], ◌∷◌, ◌++◌, Result, ok,
  err, arith, ap, ◌∙◌,
}
use nil.Transport.Cascade.{
  Error, failed_probe, timed_out, connected, refused, elapsed, Rung, rung, connect_loop, connect,
}
use nil.Transport.Cascade.Sessions.{usable}
use nil.Transport.Selector.{
  PathClass, coerce, Selector, lead, build_cascade, SelectorTransport, settle, transport_connect,
}

abbrev pub is_ok {ℓ} : {A : Type ℓ} → Result A Error → Bool
is_ok (ok a) = true
is_ok (err e) = false

-- No rung is usable.
abbrev pub hopeless : List Rung → Bool
hopeless [] = true
hopeless (r ∷ rungs) = not (usable true r) && hopeless rungs

hopeless-++ : (a b : List Rung) → hopeless (a ++ b) ≡ (hopeless a && hopeless b)
hopeless-++ [] b = refl
hopeless-++ (r ∷ a) b = ground (arith, hopeless-++ a b)

is_ok-connect_loop :
    (last : Option Error) (rungs : List Rung)
    → is_ok (connect_loop true last rungs).0 ≡ not (hopeless rungs)
unfolding connect_loop
is_ok-connect_loop last [] = refl
is_ok-connect_loop last (rung k (refused e) a ∷ rungs) = is_ok-connect_loop (some e) rungs
is_ok-connect_loop last (rung k elapsed a ∷ rungs) = is_ok-connect_loop (some (timed_out k)) rungs
is_ok-connect_loop last (rung k (connected s) true ∷ rungs) = refl
is_ok-connect_loop last (rung k (connected s) false ∷ rungs) =
    is_ok-connect_loop (some (failed_probe k)) rungs

is_ok-connect : (rungs : List Rung) → is_ok (connect true rungs).0 ≡ not (hopeless rungs)
unfolding connect
is_ok-connect = is_ok-connect_loop none

built_hopeless :
    (s : Selector) (verdict : PathClass)
    → hopeless s.resistant ≡ false
    → hopeless (build_cascade s verdict).0 ≡ false
unfolding build_cascade
built_hopeless s verdict some_left =
    hopeless-++ (lead (coerce verdict) s.fast) s.resistant ∙ ground (arith, some_left)

is_ok-settle :
    (t : SelectorTransport) (answer : Result (Rung × ℕ) Error)
    → is_ok (settle t answer).0 ≡ is_ok answer
unfolding settle
is_ok-settle t (ok won) = refl
is_ok-settle t (err e) = refl

-- When some resistant rung connects and its session is alive, `connect` of the transport succeeds,
-- whatever verdict the network probe gives and whatever the fast rungs do.
pub transport_connect_survives :
    (t : SelectorTransport) (verdict : PathClass)
    → hopeless t.selector.resistant ≡ false
    → is_ok (transport_connect t verdict).0 ≡ true
unfolding transport_connect
transport_connect_survives t verdict some_left =
    let built = (build_cascade t.selector verdict).0 in
    let served : is_ok (connect true built).0 ≡ true =
      is_ok-connect built ∙ ap not (built_hopeless t.selector verdict some_left) in
    is_ok-settle (record t { selector = (build_cascade t.selector verdict).1 })
      (connect true built).0
    ∙ served
