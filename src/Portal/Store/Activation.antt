-- ===== src/Portal/Store/Activation.antt =====
-- Paying for a subscription extends it once (crates/nil-portal/src/store/memory.rs).
use Prim.Native.Nat.{max}
use nil.Prelude.{
  ℕ, ◌≡◌, ◌≢◌, none, some, List, [], ◌∷◌, Bytes, arith, bytes_beq_refl, bytes_beq_iff, bytes_eq,
  saturating_add64, Option-cases, inl, inr,
}
use nil.Prelude.Dict.{get, get-insert}
use nil.Portal.Account.{Entitlement, AccountRecord, active, active_until, resolved}
use nil.Portal.Store.{
  MemoryState, insert_account, activate_subscription, newly_activated, replay, extended,
}

-- The first activation under a key, for an account that exists, extends the subscription by the paid
-- time from its current expiry if it is active and from now if not (saturating at the largest u64),
-- stores that expiry on the account, and records it under the key.
pub first_activation :
    (s : MemoryState) (account key : Bytes) (now by : ℕ) (r : AccountRecord)
    → get s.accounts account ≡ some r
    → get s.activation_results key ≡ none
    → let (answer, after) = activate_subscription s account key now by in
      (answer ≡ some (newly_activated (extended r now by)))
      × (get after.accounts account ≡ some (record r { entitlement = active (extended r now by) }))
      × (get after.activation_results key ≡ some (extended r now by))
unfolding activate_subscription
first_activation s account key now by r found fresh = (
  ground (arith, found, fresh),
  ground (
    arith,
    found,
    fresh,
    get-insert s.accounts account account (record r { entitlement = active (extended r now by) }),
    bytes_beq_refl account,
  ),
  ground (
    arith,
    found,
    fresh,
    get-insert s.activation_results key key (extended r now by),
    bytes_beq_refl key,
  ),
)

-- The expiry of an active entitlement, and 0 for any other
pub expiry_of : Entitlement → ℕ
expiry_of (active t) = t
expiry_of _ = 0

-- A paid extension ends by the paid time after the later of now and the account's expiry, up to the
-- saturation at the largest u64: nothing that was paid for is lost, and nothing is given for the time
-- in which the account had lapsed.
pub extended_lem :
    (r : AccountRecord) (now by : ℕ)
    → extended r now by ≡ saturating_add64 (max now (expiry_of r.entitlement)) by
unfolding active_until resolved expiry_of
extended_lem r now by = ground arith

-- One call on the store that concerns accounts.
pub data Call : Type 0 where
  inserts : AccountRecord → Call
  activates : Bytes → Bytes → ℕ → ℕ → Call

pub step : MemoryState → Call → MemoryState
step s (inserts r) = (insert_account s r).1
step s (activates account key now by) = (activate_subscription s account key now by).1

pub run : MemoryState → List Call → MemoryState
unfolding step
run s [] = s
run s (c ∷ cs) = run (step s c) cs

-- The key is claimed with this expiry, and the account exists.
abbrev pub Claimed : MemoryState → Bytes → Bytes → ℕ → Type 0
Claimed s account key t = (get s.activation_results key ≡ some t) × (get s.accounts account ≢ none)

step-Claimed :
    (s : MemoryState) (c : Call) (account key : Bytes) (t : ℕ)
    → Claimed s account key t
    → Claimed (step s c) account key t
unfolding step insert_account activate_subscription
step-Claimed s (inserts r) account key t h =
    ground (arith, get-insert s.accounts r.account_number account r)
step-Claimed s (activates a k now by) account key t h = elim (Option-cases (get s.accounts a)) [
  | inl unknown ↦ ground (arith, unknown)
  | inr (r, known) ↦ ground (
    arith,
    known,
    get-insert s.accounts a account (record r { entitlement = active (extended r now by) }),
    get-insert s.activation_results k key (extended r now by),
    bytes_beq_iff k key,
  )
]

run-Claimed :
    (s : MemoryState) (cs : List Call) (account key : Bytes) (t : ℕ)
    → Claimed s account key t
    → Claimed (run s cs) account key t
unfolding run
run-Claimed s [] account key t h = h
run-Claimed s (c ∷ cs) account key t h =
    run-Claimed (step s c) cs account key t (step-Claimed s c account key t h)

-- After the first activation under a key, and after any further insertions and activations, a retry
-- under the same key answers the first expiry as a replay and changes nothing.
pub activation_once :
    (s : MemoryState) (account key : Bytes) (now by : ℕ) (r : AccountRecord) (cs : List Call)
    (later by' : ℕ)
    → get s.accounts account ≡ some r
    → get s.activation_results key ≡ none
    → let s' = run (activate_subscription s account key now by).1 cs in
      activate_subscription s' account key later by' ≡ (some (replay (extended r now by)), s')
unfolding activate_subscription
activation_once s account key now by r cs later by' found fresh =
    let (_, stored, claimed) = first_activation s account key now by r found fresh in
    let (still, known) =
      run-Claimed (activate_subscription s account key now by).1 cs account key (extended r now by)
        (claimed, ground (arith, stored)) in
    ground (arith, still, known)

-- Paying for an account that does not exist claims nothing.
pub activation_unknown :
    (s : MemoryState) (account key : Bytes) (now by : ℕ)
    → get s.accounts account ≡ none
    → activate_subscription s account key now by ≡ (none, s)
unfolding activate_subscription
activation_unknown s account key now by unknown = rw unknown
