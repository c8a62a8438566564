-- ===== src/Node/Pool.antt =====
-- The inner address pool of a node, crates/nil-node/src/pool.rs. An address is its `u32`; bit masks
-- are written as arithmetic on powers of two.
pub mod Search
pub mod Invariant
use nil.Prelude.{
  ℕ, zero, suc, ◌+◌, ◌-◌, ◌*◌, ◌/◌, ◌^◌, ◌≡◌, Bool, true, false, ◌&&◌, Option, none, some, List, [],
  ◌∷◌, Bytes, length, ltb, leb, ◌==◌, if◌then◌else◌, bytes_eq, nat_eq,
}
use nil.Prelude.Dict.{get, insert, remove}

-- `AddressPool`; the set `in_use` is a map into the type with one element.
pub record AddressPool : Type 0 where
  pub first : ℕ
  pub last : ℕ
  pub cursor : ℕ
  pub in_use : List (ℕ × Unit {0})
  pub by_conn : List (Bytes × ℕ)

-- `refused` is the `None` of `new`, and `panicked` the overflow of its shift by 32 bits.
pub data Built : Type 0 where
  built : AddressPool → Built
  refused panicked : Built

unfoldable pub reserve : ℕ → ℕ → ℕ → List (ℕ × Unit {0})
reserve first last gateway =
    if leb first gateway && leb gateway last then insert [] gateway tt else []

-- The pool that `new` returns: the cursor at the start, and the gateway reserved.
abbrev pub fresh_pool : ℕ → ℕ → ℕ → AddressPool
fresh_pool first last gateway = record {
  first = first;
  last = last;
  cursor = first;
  in_use = reserve first last gateway;
  by_conn = [];
}

-- `AddressPool::new` behind the first test, for a shift that does not overflow.
unfoldable pub new_in : ℕ → ℕ → ℕ → Built
unfolding reserve
new_in base host_bits gateway =
    let network = base / 2 ^ host_bits * 2 ^ host_bits in
    let broadcast = network + (2 ^ host_bits - 1) in
    let first = network + 1 in
    let last = broadcast - 1 in
    if ltb last first
    then refused
    else if gateway / 2 ^ host_bits * 2 ^ host_bits == network
    then built (fresh_pool first last gateway)
    else refused

-- `AddressPool::new`
unfoldable pub new : ℕ → ℕ → ℕ → Built
unfolding new_in
new base prefix gateway =
    if leb 31 prefix
    then refused
    else if prefix == 0
    then panicked
    else new_in base (32 - prefix) gateway

abbrev pub is_free : Option (Unit {0}) → Bool
is_free none = true
is_free (some t) = false

-- The cursor behind `cursor`, around from the last address to the first.
abbrev pub next_cursor : ℕ → ℕ → ℕ → ℕ
next_cursor first last cursor = if leb last cursor then first else cursor + 1

-- The loop of `assign`: the free candidate that it finds, and the cursor that it leaves.
unfoldable pub find_free : ℕ → ℕ → ℕ → List (ℕ × Unit {0}) → ℕ → Option ℕ × ℕ
find_free zero first last in_use cursor = (none, cursor)
find_free (suc rounds) first last in_use cursor =
    let rest = find_free rounds first last in_use (next_cursor first last cursor) in
    if is_free (get in_use cursor) then (some cursor, next_cursor first last cursor) else rest

abbrev pub take_candidate : AddressPool → Bytes → Option ℕ × ℕ → Option ℕ × AddressPool
take_candidate p conn_key (none, cursor) = (none, record p { cursor = cursor })
take_candidate p conn_key (some candidate, cursor) = (
  some candidate,
  record p {
    cursor = cursor;
    in_use = insert p.in_use candidate tt;
    by_conn = insert p.by_conn conn_key candidate;
  },
)

abbrev pub assign_to : AddressPool → Bytes → Option ℕ → Option ℕ × AddressPool
assign_to p conn_key (some existing) = (some existing, p)
assign_to p conn_key none =
    take_candidate p conn_key (find_free (p.last - p.first + 1) p.first p.last p.in_use p.cursor)

-- `assign`
unfoldable pub assign : AddressPool → Bytes → Option ℕ × AddressPool
assign p conn_key = assign_to p conn_key (get p.by_conn conn_key)

abbrev pub release_held : AddressPool → Bytes → Option ℕ → AddressPool
release_held p conn_key none = p
release_held p conn_key (some addr) = record p {
  in_use = remove p.in_use addr;
  by_conn = remove p.by_conn conn_key;
}

-- `release`
pub release : AddressPool → Bytes → AddressPool
release p conn_key = release_held p conn_key (get p.by_conn conn_key)

pub data Call : Type 0 where
  assigns releases : Bytes → Call

unfoldable pub step : AddressPool → Call → AddressPool
unfolding assign release
step p (assigns key) = (assign p key).1
step p (releases key) = release p key

unfoldable pub run : AddressPool → List Call → AddressPool
unfolding step
run p [] = p
run p (c ∷ cs) = run (step p c) cs
