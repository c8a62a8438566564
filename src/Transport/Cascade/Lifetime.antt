-- ===== src/Transport/Cascade/Lifetime.antt =====
-- How long the identity of a session leads to its winner (crates/nil-transport/src/cascade.rs).
use nil.Prelude.{
  ℕ, suc, ◌+◌, ◌%◌, ◌^◌, ◌≤◌, ◌<◌, ◌≡◌, refl, ap, ◌∙◌, Bool, true, false, not, ◌&&◌, ◌⊎◌, inl, inr,
  Option, none, some, List, [], ◌∷◌, ok, err, Result, ◌==◌, ==_iff, arith, nat_eq,
}
use nil.Prelude.Dict.{get, insert, get-insert, get-remove}
use nil.Transport.Cascade.{
  Error, session_not_found, Rung, connect, CascadeTransport, winner, transport_connect, close,
}

-- A call of the transport: a `connect`, with what the world answers to it, or a `close`.
pub data Call : Type 0 where
  connecting : Bool → List Rung → Call
  closing : ℕ → Call

abbrev pub run : CascadeTransport → List Call → CascadeTransport
run t [] = t
run t (connecting probe rungs ∷ calls) = run (transport_connect t probe rungs).1 calls
run t (closing id ∷ calls) = run (close t id).1 calls

-- No call closes the identity.
abbrev pub spares : ℕ → List Call → Bool
spares id [] = true
spares id (connecting probe rungs ∷ calls) = spares id calls
spares id (closing other ∷ calls) = not (other == id) && spares id calls

-- How many calls connect, at most so many identities are given.
abbrev pub connects : List Call → ℕ
connects [] = 0
connects (connecting probe rungs ∷ calls) = 1 + connects calls
connects (closing id ∷ calls) = connects calls

-- What the identity leads to, when the next identities to be given are `room` others.
record Leads (t : CascadeTransport) (id : ℕ) (found : Option (Rung × ℕ)) (room : ℕ) : Type 0 where
  at : get t.winners id ≡ found
  given : ℕ
  counter : t.next_id ≡ (id + suc given) % 2 ^ 64
  within : suc given + room ≤ 2 ^ 64
  fits : id < 2 ^ 64

counter-next :
    (id given next : ℕ)
    → next ≡ (id + suc given) % 2 ^ 64
    → (next + 1) % 2 ^ 64 ≡ (id + suc (suc given)) % 2 ^ 64
counter-next id given next e = omega arith

counter-ne :
    (id given next room : ℕ)
    → next ≡ (id + suc given) % 2 ^ 64
    → suc given + suc room ≤ 2 ^ 64
    → id < 2 ^ 64
    → (next == id) ≡ false
counter-ne id given next room e within fits = ground arith

Result-cases :
    {A : Type 0} (r : Result A Error) → ((a : A) × (r ≡ ok a)) ⊎ ((e : Error) × (r ≡ err e))
Result-cases (ok a) = inl (a, refl)
Result-cases (err e) = inr (e, refl)

transport_connect-won :
    (t : CascadeTransport) (probe : Bool) (rungs : List Rung) (won : Rung × ℕ)
    → (connect probe rungs).0 ≡ ok won
    → transport_connect t probe rungs ≡ (
      ok t.next_id,
      record { winners = insert t.winners t.next_id won; next_id = (t.next_id + 1) % 2 ^ 64 },
    )
unfolding transport_connect
transport_connect-won t probe rungs won h = rw (transport_connect, h) refl

transport_connect-failed :
    (t : CascadeTransport) (probe : Bool) (rungs : List Rung) (e : Error)
    → (connect probe rungs).0 ≡ err e
    → transport_connect t probe rungs ≡ (err e, t)
unfolding transport_connect
transport_connect-failed t probe rungs e h = rw (transport_connect, h) refl

transport_connect-Leads :
    (t : CascadeTransport) (probe : Bool) (rungs : List Rung) (id : ℕ) (found : Option (Rung × ℕ))
    (room : ℕ)
    → Leads t id found (suc room)
    → Leads (transport_connect t probe rungs).1 id found room
transport_connect-Leads t probe rungs id found room h =
    elim (Result-cases (connect probe rungs).0) [
      | inl (won, served) ↦ rw (transport_connect-won t probe rungs won served) (record {
        at =
            get-insert t.winners t.next_id id won
            ∙ rw (counter-ne id h.given t.next_id room h.counter h.within h.fits) h.at;
        given = suc h.given;
        counter = counter-next id h.given t.next_id h.counter;
        within = omega (arith, h.within);
        fits = h.fits;
      })
      | inr (e, failed) ↦ rw (transport_connect-failed t probe rungs e failed) (record {
        at = h.at;
        given = h.given;
        counter = h.counter;
        within = omega (arith, h.within);
        fits = h.fits;
      })
    ]

close-Leads :
    (t : CascadeTransport) (other id : ℕ) (found : Option (Rung × ℕ)) (room : ℕ)
    → (other == id) ≡ false
    → Leads t id found room
    → Leads (close t other).1 id found room
unfolding close
close-Leads t other id found room apart h = record {
  at = get-remove t.winners other id ∙ rw apart h.at;
  given = h.given;
  counter = h.counter;
  within = h.within;
  fits = h.fits;
}

-- Closing an identity that leads nowhere changes nothing of that.
close-Leads_gone :
    (t : CascadeTransport) (other id room : ℕ)
    → Leads t id none room
    → Leads (close t other).1 id none room
unfolding close
close-Leads_gone t other id room h = record {
  at = ground (arith, get-remove t.winners other id, h.at);
  given = h.given;
  counter = h.counter;
  within = h.within;
  fits = h.fits;
}

less_room :
    (t : CascadeTransport) (id : ℕ) (found : Option (Rung × ℕ)) (room less : ℕ)
    → less ≤ room
    → Leads t id found room
    → Leads t id found less
less_room t id found room less le h = record {
  at = h.at;
  given = h.given;
  counter = h.counter;
  within = omega (arith, h.within);
  fits = h.fits;
}

run-Leads :
    (t : CascadeTransport) (calls : List Call) (id : ℕ) (found : Option (Rung × ℕ)) (room : ℕ)
    → spares id calls ≡ true
    → Leads t id found (connects calls + room)
    → Leads (run t calls) id found room
run-Leads t [] id found room spared h = less_room t id found _ room (omega arith) h
run-Leads t (connecting probe rungs ∷ calls) id found room spared h =
    run-Leads (transport_connect t probe rungs).1 calls id found room spared (
      transport_connect-Leads t probe rungs id found (connects calls + room)
        (less_room t id found _ _ (omega arith) h))
run-Leads t (closing other ∷ calls) id found room spared h =
    run-Leads (close t other).1 calls id found room (ground (arith, spared))
      (close-Leads t other id found (connects calls + room) (ground (arith, spared)) h)

run-Leads_gone :
    (t : CascadeTransport) (calls : List Call) (id room : ℕ)
    → Leads t id none (connects calls + room)
    → Leads (run t calls) id none room
run-Leads_gone t [] id room h = less_room t id none _ room (omega arith) h
run-Leads_gone t (connecting probe rungs ∷ calls) id room h =
    run-Leads_gone (transport_connect t probe rungs).1 calls id room (
      transport_connect-Leads t probe rungs id none (connects calls + room)
        (less_room t id none _ _ (omega arith) h))
run-Leads_gone t (closing other ∷ calls) id room h =
    run-Leads_gone (close t other).1 calls id room
      (close-Leads_gone t other id (connects calls + room) h)

first-Leads :
    (t : CascadeTransport) (probe : Bool) (rungs : List Rung) (won : Rung × ℕ) (room : ℕ)
    → (connect probe rungs).0 ≡ ok won
    → t.next_id < 2 ^ 64
    → room < 2 ^ 64
    → Leads (transport_connect t probe rungs).1 t.next_id (some won) room
first-Leads t probe rungs won room served fits few =
    rw (transport_connect-won t probe rungs won served) (record {
      at =
          get-insert t.winners t.next_id t.next_id won
          ∙ rw ((==_iff t.next_id t.next_id).1 refl) refl;
      given = 0;
      counter = refl;
      within = omega arith;
      fits = fits;
    })

closed-Leads :
    (t : CascadeTransport) (id room : ℕ) (won : Rung × ℕ)
    → Leads t id (some won) room
    → Leads (close t id).1 id none room
unfolding close
closed-Leads t id room won h = record {
  at = get-remove t.winners id id ∙ rw ((==_iff id id).1 refl) refl;
  given = h.given;
  counter = h.counter;
  within = h.within;
  fits = h.fits;
}

winner-found :
    (t : CascadeTransport) (id room : ℕ) (won : Rung × ℕ)
    → Leads t id (some won) room
    → (winner t id ≡ ok won) × ((close t id).0 ≡ ok won)
unfolding winner close
winner-found t id room won h = (rw h.at refl, rw h.at refl)

winner-lost :
    (t : CascadeTransport) (id room : ℕ)
    → Leads t id none room
    → (winner t id ≡ err (session_not_found id)) × ((close t id).0 ≡ err (session_not_found id))
unfolding winner close
winner-lost t id room h = (rw h.at refl, rw h.at refl)

-- The identity that a `connect` of a transport gives leads to the winner through any further calls,
-- whatever they connect and whichever other identities they close; the `close` of it gives the winner
-- back; and after that, through any calls at all, it leads to nothing and a second `close` is refused.
-- Fewer than 2 ^ 64 connections follow the first, since then the counter of identities comes round.
pub transport_connect-close :
    (t : CascadeTransport) (probe : Bool) (rungs : List Rung) (won : Rung × ℕ)
    (before after : List Call)
    → (connect probe rungs).0 ≡ ok won
    → t.next_id < 2 ^ 64
    → spares t.next_id before ≡ true
    → connects before + connects after < 2 ^ 64
    → let opened = run (transport_connect t probe rungs).1 before in
      let closed = run (close opened t.next_id).1 after in
      ((transport_connect t probe rungs).0 ≡ ok t.next_id)
      × (winner opened t.next_id ≡ ok won)
      × ((close opened t.next_id).0 ≡ ok won)
      × (winner closed t.next_id ≡ err (session_not_found t.next_id))
      × ((close closed t.next_id).0 ≡ err (session_not_found t.next_id))
transport_connect-close t probe rungs won before after served fits spared few =
    let id : ℕ = t.next_id in
    let opened : CascadeTransport = run (transport_connect t probe rungs).1 before in
    let open_lead : Leads opened id (some won) (connects after) =
      run-Leads (transport_connect t probe rungs).1 before id (some won) (connects after) spared
        (first-Leads t probe rungs won _ served fits few) in
    let lost : Leads (run (close opened id).1 after) id none 0 =
      run-Leads_gone (close opened id).1 after id 0 (
        less_room _ id none _ _ (omega arith)
          (closed-Leads opened id (connects after) won open_lead)) in
    let (found, given_back) = winner-found opened id (connects after) won open_lead in
    let (nowhere, refused) = winner-lost (run (close opened id).1 after) id 0 lost in
    (
      ap (λ r. r.0) (transport_connect-won t probe rungs won served),
      found,
      given_back,
      nowhere,
      refused,
    )
