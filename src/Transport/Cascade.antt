-- ===== src/Transport/Cascade.antt =====
-- The cascade of transports, crates/nil-transport/src/cascade.rs. What the world answers to the
-- calls of one `connect` is part of each rung: a session, an error or no answer in time, and whether
-- the liveness probe finds the session alive.
pub mod Sessions
pub mod Lifetime
use nil.Prelude.{
  ℕ, ◌+◌, ◌%◌, ◌^◌, Bool, true, false, not, ◌&&◌, Option, none, some, List, [], ◌∷◌, Bytes, Result,
  ok, err, if◌then◌else◌, codes, ◌++◌, length, nat_eq,
}
use nil.Prelude.Dict.{get, insert, remove}
use nil.Grant.{GrantTransport}

-- `Error`, as far as the cascade makes or passes it on
pub data Error : Type 0 where
  timed_out failed_probe : GrantTransport → Error
  no_rungs : Error
  session_not_found : ℕ → Error
  transport : ℕ → Error

-- What `timeout(rung.connect(…))` gives
pub data Attempt : Type 0 where
  connected : ℕ → Attempt
  refused : Error → Attempt
  elapsed : Attempt

-- An `Arc<dyn Transport>`: its kind, its answer, and whether the probe finds its session alive
pub data Rung : Type 0 where
  rung : GrantTransport → Attempt → Bool → Rung

abbrev failure : Option Error → Error
failure none = no_rungs
failure (some e) = e

-- The loop of `Cascade::connect`: its result, and the sessions that it closed
unfoldable pub connect_loop : Bool → Option Error → List Rung → Result (Rung × ℕ) Error × List ℕ
connect_loop probe last [] = (err (failure last), [])
connect_loop probe last (rung kind (refused e) alive ∷ rungs) = connect_loop probe (some e) rungs
connect_loop probe last (rung kind elapsed alive ∷ rungs) =
    connect_loop probe (some (timed_out kind)) rungs
connect_loop probe last (rung kind (connected session) alive ∷ rungs) =
    let dead = connect_loop probe (some (failed_probe kind)) rungs in
    if probe && not alive
    then (dead.0, session ∷ dead.1)
    else (ok (rung kind (connected session) alive, session), [])

-- `Cascade::connect`; `probe` tells whether there is a liveness probe.
unfoldable pub connect : Bool → List Rung → Result (Rung × ℕ) Error × List ℕ
connect probe rungs = connect_loop probe none rungs

-- `Cascade::rung_kinds`
unfoldable pub rung_kinds : List Rung → List GrantTransport
rung_kinds [] = []
rung_kinds (rung kind attempt alive ∷ rungs) = kind ∷ rung_kinds rungs

-- `CascadeTransport`, without its cascade
pub record CascadeTransport : Type 0 where
  pub winners : List (ℕ × (Rung × ℕ))
  pub next_id : ℕ

-- `CascadeTransport::new`
abbrev pub new_transport : CascadeTransport
new_transport = record { winners = []; next_id = 0 }

abbrev or_not_found {ℓ} : {A : Type ℓ} → ℕ → Option A → Result A Error
or_not_found id none = err (session_not_found id)
or_not_found id (some a) = ok a

-- `CascadeTransport::winner`, which `send`, `recv` and `tunnel_mtu` ask first
unfoldable pub winner : CascadeTransport → ℕ → Result (Rung × ℕ) Error
winner t id = or_not_found id (get t.winners id)

-- `connect` of `CascadeTransport`: the identity of the session and the next state
unfoldable pub transport_connect :
    CascadeTransport → Bool → List Rung → Result ℕ Error × CascadeTransport
transport_connect t probe rungs = elim (connect probe rungs).0 [
  | err e ↦ (err e, t)
  | ok won ↦ (
    ok t.next_id,
    record { winners = insert t.winners t.next_id won; next_id = (t.next_id + 1) % 2 ^ 64 },
  )
]

-- `close` of `CascadeTransport`: the winner whose session is closed, and the next state
unfoldable pub close : CascadeTransport → ℕ → Result (Rung × ℕ) Error × CascadeTransport
close t id = (winner t id, record t { winners = remove t.winners id })
