-- ===== src/Prelude/Utf8.antt =====
-- `str::from_utf8`: the well-formed byte sequences of UTF-8, one byte at a time.
use Prim.Native.Nat.{ℕ, ◌-◌}
use mathlib.Core.Path.{◌≡◌, refl}
use mathlib.Core.Bool.{Bool, true, false, ◌&&◌}
use mathlib.Core.List.{List, [], ◌∷◌}
use mathlib.Core.Option.{Option, none, some}
use native.Mathlib.Omega.{arith}
use nil.Prelude.Tests.{ltb, leb, ◌==◌, if◌then◌else◌}

-- How many continuation bytes are due, and the range of the next one.
record Expect : Type 0 where
  due : ℕ
  low : ℕ
  high : ℕ

abbrev start : Expect
start = record { due = 0; low = 0x80; high = 0xbf }

abbrev awaiting : ℕ → ℕ → ℕ → Option Expect
awaiting due low high = some (record { due = due; low = low; high = high })

lead_byte : ℕ → Option Expect
lead_byte b =
    if ltb b 0x80
    then some start
    else if leb 0xc2 b && leb b 0xdf
    then awaiting 1 0x80 0xbf
    else if b == 0xe0
    then awaiting 2 0xa0 0xbf
    else if b == 0xed
    then awaiting 2 0x80 0x9f
    else if leb 0xe1 b && leb b 0xef
    then awaiting 2 0x80 0xbf
    else if b == 0xf0
    then awaiting 3 0x90 0xbf
    else if leb 0xf1 b && leb b 0xf3
    then awaiting 3 0x80 0xbf
    else if b == 0xf4
    then awaiting 3 0x80 0x8f
    else none

next_byte : Expect → ℕ → Option Expect
unfolding lead_byte
next_byte e b =
    if e.due == 0
    then lead_byte b
    else if leb e.low b && leb b e.high
    then awaiting (e.due - 1) 0x80 0xbf
    else none

read : Option Expect → List ℕ → Bool
unfolding next_byte
read none bs = false
read (some e) [] = e.due == 0
read (some e) (b ∷ bs) = read (next_byte e b) bs

unfoldable pub is_utf8 : List ℕ → Bool
unfolding read
is_utf8 = read (some start)

abbrev pub is_ascii : List ℕ → Bool
is_ascii [] = true
is_ascii (b ∷ bs) = ltb b 0x80 && is_ascii bs

-- ASCII text is UTF-8.
pub is_utf8-is_ascii : (bs : List ℕ) → is_ascii bs ≡ true → is_utf8 bs ≡ true
unfolding is_utf8
is_utf8-is_ascii [] h = refl
is_utf8-is_ascii (b ∷ bs) h = ground (arith, is_utf8-is_ascii bs)
