-- ===== src/Prelude/Options.antt =====
-- The operator `?` on an `Option`.
use mathlib.Core.Path.{◌≡◌, refl}
use mathlib.Core.Bool.{Bool, true, false}
use mathlib.Core.Option.{Option, none, some}

infixl 5 ◌>>=◌
abbrev pub ◌>>=◌ {ℓ κ} : {A : Type ℓ} {B : Type κ} → Option A → (A → Option B) → Option B
none >>= next = none
some value >>= next = next value

-- and on a value that is not used
infixl 5 ◌>>◌
abbrev pub ◌>>◌ {ℓ} : {B : Type ℓ} → Option (Unit {0}) → Option B → Option B
checked >> next = checked >>= λ _. next

-- `if !test { return None }`
abbrev pub guard : Bool → Option (Unit {0})
guard test = elim test [ false ↦ none | true ↦ some tt ]

pub >>=-eq-some {ℓ κ} :
    {A : Type ℓ} {B : Type κ} (step : Option A) (next : A → Option B) {out : B}
    → (step >>= next) ≡ some out
    → (value : A) × (step ≡ some value) × (next value ≡ some out)
>>=-eq-some none next done = cc
>>=-eq-some (some value) next done = (value, refl, done)
