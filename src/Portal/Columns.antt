-- ===== src/Portal/Columns.antt =====
-- The key columns of the durable stores, crates/nil-portal/src/store/mod.rs. Their hex codec is
-- written like the one of the grant code, which stands for it.
use nil.Prelude.{
  ◌*◌, ◌≡◌, refl, true, Option, none, some, [], ◌∷◌, Bytes, length, replicate, all, leb, ◌==◌,
  if◌then◌else◌, arith,
}
use nil.Grant.Hex.{to_hex, from_hex, from_hex-to_hex}

-- `hex32`
abbrev pub hex32 : Bytes → Bytes
hex32 = to_hex

-- `unhex32`
unfoldable pub unhex32 : Bytes → Option Bytes
unhex32 h = if length h == 64 then from_hex h else none

-- `auth_str`
unfoldable pub auth_str : Bytes → Bytes
auth_str = hex32

-- `auth_from`
unfoldable pub auth_from : Bytes → Option Bytes
unfolding unhex32
auth_from [] = some (replicate 32 0)
auth_from (c ∷ cs) = unhex32 (c ∷ cs)

length-to_hex : (bytes : Bytes) → length (to_hex bytes) ≡ 2 * length bytes
unfolding to_hex
length-to_hex [] = refl
length-to_hex (b ∷ bytes) = omega (arith, length-to_hex bytes)

auth_from-long : (h : Bytes) → length h ≡ 64 → auth_from h ≡ from_hex h
unfolding auth_from
auth_from-long [] n = ground (arith, n)
auth_from-long (c ∷ cs) n = ground (arith, n)

-- A column that was written for an authentication key of 32 bytes reads as that key.
pub auth_from-auth_str :
    (key : Bytes)
    → length key ≡ 32
    → all (λ b. leb b 255) key ≡ true
    → auth_from (auth_str key) ≡ some key
unfolding auth_str
auth_from-auth_str key n small =
    ground (arith, auth_from-long (to_hex key), length-to_hex key, n, from_hex-to_hex key small)
