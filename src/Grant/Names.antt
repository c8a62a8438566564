-- ===== src/Grant/Names.antt =====
-- The names of roles and transports, crates/nil-core/src/grant.rs.
use nil.Prelude.{
  ◌≡◌, ◌↔◌, refl, Option, none, some, Bytes, codes, bytes_beq, bytes_beq_iff, if◌then◌else◌, arith,
}
use nil.Grant.{
  GrantRole, entry, middle, exit, GrantTransport, masque, amnezia_wg, wstunnel, reality,
}

-- `GrantRole::as_str`
abbrev pub role_as_str : GrantRole → Bytes
role_as_str entry = codes "entry"
role_as_str middle = codes "middle"
role_as_str exit = codes "exit"

-- `GrantRole::parse`
pub parse_role : Bytes → Option GrantRole
parse_role value =
    if bytes_beq value (codes "entry")
    then some entry
    else if bytes_beq value (codes "middle")
    then some middle
    else if bytes_beq value (codes "exit")
    then some exit
    else none

-- `GrantTransport::as_str`
abbrev pub transport_as_str : GrantTransport → Bytes
transport_as_str masque = codes "masque"
transport_as_str amnezia_wg = codes "amnezia-wg"
transport_as_str wstunnel = codes "wstunnel"
transport_as_str reality = codes "reality"

-- `GrantTransport::parse`
pub parse_transport : Bytes → Option GrantTransport
parse_transport value =
    if bytes_beq value (codes "masque")
    then some masque
    else if bytes_beq value (codes "amnezia-wg")
    then some amnezia_wg
    else if bytes_beq value (codes "wstunnel")
    then some wstunnel
    else if bytes_beq value (codes "reality")
    then some reality
    else none

parse_role-as_str : (r : GrantRole) → parse_role (role_as_str r) ≡ some r
unfolding parse_role
parse_role-as_str entry = refl
parse_role-as_str middle = refl
parse_role-as_str exit = refl

parse_role_sound :
    (value : Bytes) (r : GrantRole) → parse_role value ≡ some r → value ≡ role_as_str r
unfolding parse_role
parse_role_sound value entry h = ground (arith, bytes_beq_iff value (codes "entry"))
parse_role_sound value middle h = ground (arith, bytes_beq_iff value (codes "middle"))
parse_role_sound value exit h = ground (arith, bytes_beq_iff value (codes "exit"))

parse_transport-as_str : (t : GrantTransport) → parse_transport (transport_as_str t) ≡ some t
unfolding parse_transport
parse_transport-as_str masque = refl
parse_transport-as_str amnezia_wg = refl
parse_transport-as_str wstunnel = refl
parse_transport-as_str reality = refl

parse_transport_sound :
    (value : Bytes) (t : GrantTransport)
    → parse_transport value ≡ some t
    → value ≡ transport_as_str t
unfolding parse_transport
parse_transport_sound value masque h = ground (arith, bytes_beq_iff value (codes "masque"))
parse_transport_sound value amnezia_wg h = ground (arith, bytes_beq_iff value (codes "amnezia-wg"))
parse_transport_sound value wstunnel h = ground (arith, bytes_beq_iff value (codes "wstunnel"))
parse_transport_sound value reality h = ground (arith, bytes_beq_iff value (codes "reality"))

-- A name parses as a role, or as a transport, exactly if it is the name that this role or transport
-- prints.
pub parse-as_str :
    ((value : Bytes) (r : GrantRole) → (parse_role value ≡ some r) ↔ (value ≡ role_as_str r))
    × ((value : Bytes) (t : GrantTransport)
        → (parse_transport value ≡ some t) ↔ (value ≡ transport_as_str t))
parse-as_str = (
  λ value r. (parse_role_sound value r, λ e. rw e (parse_role-as_str r)),
  λ value t. (parse_transport_sound value t, λ e. rw e (parse_transport-as_str t)),
)
