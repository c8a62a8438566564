-- ===== src/Node/Pool/Invariant.antt =====
-- What holds of a pool after any history of calls (crates/nil-node/src/pool.rs).
use nil.Prelude.{
  ℕ, ◌+◌, ◌-◌, ◌*◌, ◌/◌, ◌^◌, ◌≤◌, ◌≡◌, ◌≢◌, ◌⊎◌, refl, ap, inl, inr, Option, none, some, List, [],
  ◌∷◌, arith, nat_eq, bytes_eq, Bool-cases, Bytes, bytes_beq_iff, bytes_beq_refl, ◌==◌, ==_iff,
}
use nil.Prelude.Dict.{get, get-insert, get-remove, get-empty}
use nil.Node.Pool.{
  AddressPool, built, new, reserve, fresh_pool, assign, assign_to, take_candidate, release_held,
  find_free, Call, assigns, releases, step, run,
}
use nil.Node.Pool.Search.{find_free-found, find_free-cursor, find_free-exhausted}

-- The cursor is in range; an address that a connection holds is in range, marked, and no other
-- connection's; a marked address is the gateway's or some connection's; and the gateway's is marked.
pub record IsValid (gateway : ℕ) (p : AddressPool) : Type 0 where
  pub cursor_range : (p.first ≤ p.cursor) × (p.cursor ≤ p.last)
  pub held_range : (k : Bytes) (x : ℕ) → get p.by_conn k ≡ some x → (p.first ≤ x) × (x ≤ p.last)
  pub held_marked : (k : Bytes) (x : ℕ) → get p.by_conn k ≡ some x → get p.in_use x ≡ some tt
  pub unique : (k j : Bytes) (x : ℕ) → get p.by_conn k ≡ some x → get p.by_conn j ≡ some x → k ≡ j
  pub reserved : (k : Bytes) (x : ℕ) → get p.by_conn k ≡ some x → x ≢ gateway
  pub no_leak :
      (x : ℕ)
      → get p.in_use x ≡ some tt
      → (x ≡ gateway) ⊎ ((k : Bytes) × (get p.by_conn k ≡ some x))
  pub gateway_marked : p.first ≤ gateway → gateway ≤ p.last → get p.in_use gateway ≡ some tt

module _ (gateway : ℕ) where
  take-IsValid :
      (p : AddressPool) (key : Bytes) (x cursor : ℕ)
      → IsValid gateway p
      → get p.by_conn key ≡ none
      → get p.in_use x ≡ none
      → (p.first ≤ x) × (x ≤ p.last)
      → (p.first ≤ cursor) × (cursor ≤ p.last)
      → IsValid gateway (take_candidate p key (some x, cursor)).1
  take-IsValid p key x cursor v fresh free range c_range = record {
    cursor_range = c_range;
    held_range = λ k y h. ground (arith, get-insert p.by_conn key k x, v.held_range k y);
    held_marked = λ k y h. ground (
      arith,
      get-insert p.by_conn key k x,
      v.held_marked k y,
      get-insert p.in_use x y tt,
      ==_iff x y,
    );
    unique = λ k j y h i. ground (
      arith,
      get-insert p.by_conn key k x,
      get-insert p.by_conn key j x,
      v.unique k j y,
      v.held_marked k y,
      v.held_marked j y,
      bytes_beq_iff key k,
      bytes_beq_iff key j,
    );
    reserved =
        λ k y h e. ground (arith, get-insert p.by_conn key k x, v.reserved k y, v.gateway_marked);
    no_leak = λ y h. elim (Bool-cases (x == y)) [
      | inl same ↦ inr (key, ground (arith, get-insert p.by_conn key key x, bytes_beq_refl key))
      | inr other ↦ elim (v.no_leak y (ground (arith, get-insert p.in_use x y tt))) [
        | inl g ↦ inl g
        | inr (k, at) ↦ inr (k, ground (arith, get-insert p.by_conn key k x, bytes_beq_iff key k))
      ]
    ];
    gateway_marked =
        λ lo hi. ground (arith, v.gateway_marked lo hi, get-insert p.in_use x gateway tt);
  }

  give-IsValid :
      (p : AddressPool) (key : Bytes) (x : ℕ)
      → IsValid gateway p
      → get p.by_conn key ≡ some x
      → IsValid gateway (release_held p key (some x))
  give-IsValid p key x v held = record {
    cursor_range = v.cursor_range;
    held_range = λ k y h. ground (arith, get-remove p.by_conn key k, v.held_range k y);
    held_marked = λ k y h. ground (
      arith,
      get-remove p.by_conn key k,
      v.held_marked k y,
      get-remove p.in_use x y,
      ==_iff x y,
      v.unique key k y,
      bytes_beq_iff key k,
    );
    unique = λ k j y h i.
        ground (arith, get-remove p.by_conn key k, get-remove p.by_conn key j, v.unique k j y);
    reserved = λ k y h e. ground (arith, get-remove p.by_conn key k, v.reserved k y);
    no_leak = λ y h. elim (v.no_leak y (ground (arith, get-remove p.in_use x y))) [
      | inl g ↦ inl g
      | inr (k, at) ↦ inr (
        k,
        ground (
          arith,
          get-remove p.by_conn key k,
          get-remove p.in_use x y,
          bytes_beq_iff key k,
          ==_iff x y,
        ),
      )
    ];
    gateway_marked = λ lo hi.
        ground
          (arith, v.gateway_marked lo hi, get-remove p.in_use x gateway, v.reserved key x held);
  }

  taken-IsValid :
      (p : AddressPool) (key : Bytes)
      → IsValid gateway p
      → get p.by_conn key ≡ none
      → (found : Option ℕ × ℕ)
      → find_free (p.last - p.first + 1) p.first p.last p.in_use p.cursor ≡ found
      → IsValid gateway (take_candidate p key found).1
  taken-IsValid p key v fresh (none, cursor) e =
      let c =
        find_free-cursor p.first p.last p.in_use (p.last - p.first + 1) p.cursor v.cursor_range.0
          v.cursor_range.1 in
      record {
        cursor_range = rw e at c;
        held_range = v.held_range;
        held_marked = v.held_marked;
        unique = v.unique;
        reserved = v.reserved;
        no_leak = v.no_leak;
        gateway_marked = v.gateway_marked;
      }
  taken-IsValid p key v fresh (some x, cursor) e =
      let c =
        find_free-cursor p.first p.last p.in_use (p.last - p.first + 1) p.cursor v.cursor_range.0
          v.cursor_range.1 in
      let f =
        find_free-found p.first p.last p.in_use (p.last - p.first + 1) p.cursor x v.cursor_range.0
          v.cursor_range.1 (ap (λ (r : Option ℕ × ℕ). r.0) e) in
      take-IsValid p key x cursor v fresh f.0 (f.1, f.2) (rw e at c)

  assign_to-IsValid :
      (p : AddressPool) (key : Bytes) (held : Option ℕ)
      → get p.by_conn key ≡ held
      → IsValid gateway p
      → IsValid gateway (assign_to p key held).1
  assign_to-IsValid p key none e v = taken-IsValid p key v e _ refl
  assign_to-IsValid p key (some x) e v = v

  release_held-IsValid :
      (p : AddressPool) (key : Bytes) (held : Option ℕ)
      → get p.by_conn key ≡ held
      → IsValid gateway p
      → IsValid gateway (release_held p key held)
  release_held-IsValid p key none e v = v
  release_held-IsValid p key (some x) e v = give-IsValid p key x v e

  step-IsValid : (p : AddressPool) (c : Call) → IsValid gateway p → IsValid gateway (step p c)
  unfolding step
  step-IsValid p (assigns key) v = assign_to-IsValid p key (get p.by_conn key) refl v
  step-IsValid p (releases key) v = release_held-IsValid p key (get p.by_conn key) refl v

  -- From a valid pool every history of assignments and releases leads to a valid pool: no two
  -- connections share an address, none holds the gateway's or one out of range, and no address is
  -- marked that nobody holds.
  pub assignments-IsValid :
      (p : AddressPool) (cs : List Call) → IsValid gateway p → IsValid gateway (run p cs)
  unfolding run
  assignments-IsValid p [] v = v
  assignments-IsValid p (c ∷ cs) v = assignments-IsValid (step p c) cs (step-IsValid p c v)

  -- A new connection is refused only when every address of the range is the gateway's or is held.
  pub assign-exhausted :
      (p : AddressPool) (key : Bytes) (x : ℕ)
      → IsValid gateway p
      → (assign p key).0 ≡ none
      → p.first ≤ x
      → x ≤ p.last
      → (x ≡ gateway) ⊎ ((k : Bytes) × (get p.by_conn k ≡ some x))
  unfolding assign
  assign-exhausted p key x v h lo hi = v.no_leak x (
      ground (
        arith,
        find_free-exhausted p.first p.last p.in_use p.cursor x v.cursor_range.0 v.cursor_range.1 lo
            hi,
      ))

  fresh_pool-IsValid :
      (first last : ℕ) → first ≤ last → IsValid gateway (fresh_pool first last gateway)
  unfolding reserve
  fresh_pool-IsValid first last h = record {
    cursor_range = (omega arith, h);
    held_range = λ k x e. cc (get-empty {V = ℕ} k);
    held_marked = λ k x e. cc (get-empty {V = ℕ} k);
    unique = λ k j x e i. cc (get-empty {V = ℕ} k);
    reserved = λ k x e. cc (get-empty {V = ℕ} k);
    no_leak = λ x e. inl (
        ground (
          arith,
          get-insert {0, 0} {V = Unit {0}} [] gateway x tt,
          get-empty {V = Unit {0}} x,
          ==_iff gateway x,
        ));
    gateway_marked =
        λ lo hi. ground (arith, get-insert {0, 0} {V = Unit {0}} [] gateway gateway tt);
  }

  -- Every pool that `new` builds is valid.
  pub new-IsValid :
      (base prefix : ℕ) (p : AddressPool) → new base prefix gateway ≡ built p → IsValid gateway p
  unfolding new
  new-IsValid base prefix p h =
      let size = 2 ^ (32 - prefix) in
      let first = base / size * size + 1 in
      let last = base / size * size + (size - 1) - 1 in
      let fresh : p ≡ fresh_pool first last gateway = ground arith in
      rw fresh (fresh_pool-IsValid first last (ground arith))
