-- ===== src/Prelude.antt =====
-- The names that the other modules share: the libraries', passed on, and those of the children.
mod Tests
mod Lists
pub mod Slices
pub mod Cuts
pub mod Dict
pub mod Eq
pub mod Words
pub mod Bits
pub mod Options
pub mod Utf8
pub use Tests.*
pub use Lists.*
pub use Eq.{nat_eq, pair_eq, bytes_beq, bytes_beq_refl, bytes_beq_iff, bytes_eq}
pub use Prim.Native.Nat.{ℕ, zero, suc, ◌+◌, ◌-◌, ◌*◌, ◌/◌, ◌%◌, ◌^◌, ◌≤◌, ◌<◌, min, max}
pub use Words.{codes}
pub use mathlib.Core.Path.{◌≡◌, refl, sym, ap, ◌∙◌}
pub use mathlib.Core.Logic.{◌≢◌, ◌↔◌, ◌⊎◌, inl, inr}
pub use mathlib.Core.Bool.{Bool, true, false, not, ◌&&◌, ◌||◌}
pub use mathlib.Core.Option.{Option, none, some}
pub use mathlib.Core.List.{List, [], ◌∷◌, ◌++◌, map}
pub use native.Mathlib.Omega.{arith}

-- Rust's `&[u8]`, `Vec<u8>`, `[u8; N]` and the bytes of a `str`.
abbrev pub Bytes : Type 0
Bytes = List ℕ

abbrev pub u32_max : ℕ
u32_max = 4294967295

abbrev pub u64_max : ℕ
u64_max = 18446744073709551615

-- `u64::saturating_add`, `u32::saturating_add`
abbrev pub saturating_add64 : ℕ → ℕ → ℕ
saturating_add64 a b = min (a + b) u64_max

abbrev pub saturating_add32 : ℕ → ℕ → ℕ
saturating_add32 a b = min (a + b) u32_max

-- `Result`: the program's own error types differ by module.
pub data Result {ℓ κ} (A : Type ℓ) (E : Type κ) : Type (ℓ ⊔ κ) where
  err : E → Result A E
  ok : A → Result A E

-- `Option::ok_or`
abbrev pub ok_or {ℓ ε} : {A : Type ℓ} {E : Type ε} → Option A → E → Result A E
ok_or none e = err e
ok_or (some a) e = ok a

-- The operator `?` on a value that is used
infixl 5 ◌>>=◌
abbrev pub ◌>>=◌ {ε κ ℓ} :
    {E : Type ε} {B : Type κ} {A : Type ℓ} → Result A E → (A → Result B E) → Result B E
err why >>= next = err why
ok value >>= next = next value

-- and on one that is not
infixl 5 ◌>>◌
abbrev pub ◌>>◌ {ε κ} : {E : Type ε} {B : Type κ} → Result (Unit {0}) E → Result B E → Result B E
checked >> next = checked >>= λ _. next

-- `if !test { return Err(why) }`
abbrev pub guard {ε} : {E : Type ε} → Bool → E → Result (Unit {0}) E
guard test why = elim test [ false ↦ err why | true ↦ ok tt ]

-- Inversion of a successful step.
pub >>=-eq-ok {ε κ ℓ} :
    {E : Type ε} {B : Type κ} {A : Type ℓ} (step : Result A E) (next : A → Result B E) {out : B}
    → (step >>= next) ≡ ok out
    → (value : A) × (step ≡ ok value) × (next value ≡ ok out)
>>=-eq-ok (err why) next done = cc
>>=-eq-ok (ok value) next done = (value, refl, done)

pub ok_or-eq-ok {ℓ ε} :
    {A : Type ℓ} {E : Type ε} (o : Option A) (e : E) {a : A} → ok_or o e ≡ ok a → o ≡ some a
ok_or-eq-ok none e h = cc
ok_or-eq-ok (some a) e h = ground arith
