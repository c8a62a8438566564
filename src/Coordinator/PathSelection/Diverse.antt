-- ===== src/Coordinator/PathSelection/Diverse.antt =====
-- What a path of hops is to be: each hop fills its position, and no two hops share an operator, a
-- jurisdiction, an identity or an endpoint.
use nil.Prelude.{
  ℕ, suc, ◌+◌, ◌≡◌, ◌≢◌, ◌↔◌, inl, inr, refl, true, false, ◌||◌, List, [], ◌∷◌, ◌++◌, Bytes, length,
  bytes_beq, bytes_beq_iff, Bool-cases, arith,
}
use mathlib.Core.List.{Memᴰ}
use nil.Coordinator.Registry.{Role, entry, middle, exit, role_beq, RegistryNode}
use nil.Coordinator.PathSelection.{for_position, clash, same_node, any, admissible}

-- Two nodes that may serve on one path.
pub record Apart (c n : RegistryNode) : Type 0 where
  pub operators : c.operator ≢ n.operator
  pub jurisdictions : c.jurisdiction ≢ n.jurisdiction
  pub ids : c.id ≢ n.id
  pub endpoints : c.host ≡ n.host → c.port ≢ n.port

abbrev pub AllApart : List RegistryNode → RegistryNode → Type 0
AllApart [] n = Unit {0}
AllApart (c ∷ chosen) n = Apart c n × AllApart chosen n

-- Each later hop is apart from each earlier one.
abbrev pub ApartFrom : RegistryNode → List RegistryNode → Type 0
ApartFrom c [] = Unit {0}
ApartFrom c (n ∷ path) = Apart c n × ApartFrom c path

-- The hops from position `i` on.
abbrev pub IsPath : List RegistryNode → ℕ → ℕ → List RegistryNode → Type 0
IsPath candidates hops i [] = Unit {0}
IsPath candidates hops i (n ∷ path) =
    Memᴰ n candidates
    × (n.role ≡ for_position i hops)
    × ApartFrom n path
    × IsPath candidates hops (suc i) path

role_beq_iff : (r s : Role) → (role_beq r s ≡ true) ↔ (r ≡ s)
role_beq_iff entry entry = (λ h. refl, λ h. refl)
role_beq_iff middle middle = (λ h. refl, λ h. refl)
role_beq_iff exit exit = (λ h. refl, λ h. refl)
role_beq_iff entry middle = (λ h. cc, λ h. cc)
role_beq_iff entry exit = (λ h. cc, λ h. cc)
role_beq_iff middle entry = (λ h. cc, λ h. cc)
role_beq_iff middle exit = (λ h. cc, λ h. cc)
role_beq_iff exit entry = (λ h. cc, λ h. cc)
role_beq_iff exit middle = (λ h. cc, λ h. cc)

no_clash-Apart : (c n : RegistryNode) → (clash c n || same_node c n) ≡ false → Apart c n
no_clash-Apart c n h = record {
  operators = λ (e : c.operator ≡ n.operator).
      ground (arith, (bytes_beq_iff (c.operator) (n.operator)).1 e);
  jurisdictions = λ (e : c.jurisdiction ≡ n.jurisdiction).
      ground (arith, (bytes_beq_iff (c.jurisdiction) (n.jurisdiction)).1 e);
  ids = λ (e : c.id ≡ n.id). ground (arith, (bytes_beq_iff (c.id) (n.id)).1 e);
  endpoints = λ (e : c.host ≡ n.host) (f : c.port ≡ n.port).
      ground (arith, (bytes_beq_iff (c.host) (n.host)).1 e);
}

beq-false : (xs ys : Bytes) → xs ≢ ys → bytes_beq xs ys ≡ false
beq-false xs ys h = elim (Bool-cases (bytes_beq xs ys)) [
  | inl e ↦ absurd (h ((bytes_beq_iff xs ys).0 e))
  | inr e ↦ e
]

Apart-no_clash : (c n : RegistryNode) → Apart c n → (clash c n ≡ false) × (same_node c n ≡ false)
Apart-no_clash c n a = (
  ground (
    arith,
    beq-false (c.operator) (n.operator) a.operators,
    beq-false (c.jurisdiction) (n.jurisdiction) a.jurisdictions,
  ),
  elim (Bool-cases (bytes_beq (c.host) (n.host))) [
    | inl e ↦
        let ports : c.port ≢ n.port = a.endpoints ((bytes_beq_iff (c.host) (n.host)).0 e) in
        ground (arith, beq-false (c.id) (n.id) a.ids)
    | inr e ↦ ground (arith, beq-false (c.id) (n.id) a.ids)
  ],
)

free-AllApart :
    (chosen : List RegistryNode) (n : RegistryNode)
    → (any (λ c. clash c n) chosen || any (λ c. same_node c n) chosen) ≡ false
    → AllApart chosen n
free-AllApart [] n h = tt
free-AllApart (c ∷ chosen) n h =
    (no_clash-Apart c n (ground arith), free-AllApart chosen n (ground arith))

AllApart-free :
    (chosen : List RegistryNode) (n : RegistryNode)
    → AllApart chosen n
    → (any (λ c. clash c n) chosen ≡ false) × (any (λ c. same_node c n) chosen ≡ false)
AllApart-free [] n h = (refl, refl)
AllApart-free (c ∷ chosen) n h =
    let here = Apart-no_clash c n h.0 in
    let rest = AllApart-free chosen n h.1 in (rw (here.0, rest.0) refl, rw (here.1, rest.1) refl)

pub admissible-AllApart :
    (pos : Role) (chosen : List RegistryNode) (n : RegistryNode)
    → admissible pos chosen n ≡ true
    → (n.role ≡ pos) × AllApart chosen n
admissible-AllApart pos chosen n h =
    ((role_beq_iff (n.role) pos).0 (ground arith), free-AllApart chosen n (ground arith))

pub AllApart-admissible :
    (pos : Role) (chosen : List RegistryNode) (n : RegistryNode)
    → n.role ≡ pos
    → AllApart chosen n
    → admissible pos chosen n ≡ true
AllApart-admissible pos chosen n e h =
    let free = AllApart-free chosen n h in rw (free.0, free.1, (role_beq_iff (n.role) pos).1 e) refl

ApartFrom-snoc :
    (c : RegistryNode) (path : List RegistryNode) (n : RegistryNode)
    → ApartFrom c path
    → Apart c n
    → ApartFrom c (path ++ n ∷ [])
ApartFrom-snoc c [] n h a = (a, tt)
ApartFrom-snoc c (m ∷ path) n h a = (h.0, ApartFrom-snoc c path n h.1 a)

ApartFrom-middle :
    (c : RegistryNode) (path : List RegistryNode) (n : RegistryNode) (rest : List RegistryNode)
    → ApartFrom c (path ++ n ∷ rest)
    → Apart c n
ApartFrom-middle c [] n rest h = h.0
ApartFrom-middle c (m ∷ path) n rest h = ApartFrom-middle c path n rest h.1

-- A path is longer by one hop that is admissible,
pub IsPath-snoc :
    (candidates : List RegistryNode) (hops i : ℕ) (path : List RegistryNode) (n : RegistryNode)
    → IsPath candidates hops i path
    → Memᴰ n candidates
    → n.role ≡ for_position (i + length path) hops
    → AllApart path n
    → IsPath candidates hops i (path ++ n ∷ [])
IsPath-snoc candidates hops i [] n h m e a =
    let place : i + 0 ≡ i = omega arith in (m, rw place at e, tt, tt)
IsPath-snoc candidates hops i (c ∷ path) n h m e a =
    let place : i + suc (length path) ≡ suc i + length path = omega arith in
    (
      h.0,
      h.1,
      ApartFrom-snoc c path n h.2 a.0,
      IsPath-snoc candidates hops (suc i) path n h.3 m (rw place at e) a.1,
    )

-- and each hop of a path is admissible behind the hops before it.
pub IsPath-middle :
    (candidates : List RegistryNode) (hops i : ℕ) (path : List RegistryNode) (n : RegistryNode)
    (rest : List RegistryNode)
    → IsPath candidates hops i (path ++ n ∷ rest)
    → Memᴰ n candidates × (n.role ≡ for_position (i + length path) hops) × AllApart path n
IsPath-middle candidates hops i [] n rest h =
    let place : i + 0 ≡ i = omega arith in (h.0, rw place h.1, tt)
IsPath-middle candidates hops i (c ∷ path) n rest h =
    let place : i + suc (length path) ≡ suc i + length path = omega arith in
    let later = IsPath-middle candidates hops (suc i) path n rest h.3 in
    (later.0, rw place later.1, (ApartFrom-middle c path n rest h.2, later.2))
