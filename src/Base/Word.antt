-- ===== src/Base/Word.antt =====
-- The fixed widths of C: casts, shifts, `size_t` sums, and the tests of the source.
use Prim.Native.String.{String}
use Prim.Native.Char.{code}
use mathlib.Core.List.{List, [], ◌∷◌}
use rc_monitor.Base.Int.{ℤ, pos, negsuc}
use rc_monitor.Base.{ℕ, ◌+◌, ◌-◌, ◌*◌, ◌/◌, ◌%◌, ◌^◌, Bool, ltb, if◌then◌else◌, ◌==◌, not}

abbrev pub u8 : ℕ → ℕ
u8 n = n % 2 ^ 8

abbrev pub u16 : ℕ → ℕ
u16 n = n % 2 ^ 16

-- `x << k` and `x >> k` on a value that is wide enough.
abbrev pub shl : ℕ → ℕ → ℕ
shl x k = x * 2 ^ k

abbrev pub shr : ℕ → ℕ → ℕ
shr x k = x / 2 ^ k

-- `size_t` arithmetic, 64 bits wide.
abbrev pub add_size : ℕ → ℕ → ℕ
add_size a b = (a + b) % 2 ^ 64

abbrev pub sub_size : ℕ → ℕ → ℕ
sub_size a b = (a + 2 ^ 64 - b) % 2 ^ 64

-- A number as a `bool`.
abbrev pub to_bool : ℕ → Bool
to_bool n = not (n == 0)

-- A `bool` as a number.
abbrev pub of_bool : Bool → ℕ
of_bool b = if b then 1 else 0

-- The residue of an integer at a width: the bit pattern of `(uint16_t)v`.
abbrev pub to_u16 : ℤ → ℕ
to_u16 (pos n) = n % 2 ^ 16
to_u16 (negsuc n) = 2 ^ 16 - 1 - n % 2 ^ 16

abbrev pub to_u8 : ℤ → ℕ
to_u8 (pos n) = n % 2 ^ 8
to_u8 (negsuc n) = 2 ^ 8 - 1 - n % 2 ^ 8

-- The integer that a bit pattern stands for.
abbrev pub signed16 : ℕ → ℤ
signed16 w = if ltb w (2 ^ 15) then pos w else negsuc (2 ^ 16 - 1 - w)

abbrev pub signed8 : ℕ → ℤ
signed8 w = if ltb w (2 ^ 7) then pos w else negsuc (2 ^ 8 - 1 - w)

-- `(int16_t)v` and `(int8_t)v`, which wrap.
abbrev pub to_i16 : ℤ → ℤ
to_i16 v = signed16 (to_u16 v)

abbrev pub to_i8 : ℤ → ℤ
to_i8 v = signed8 (to_u8 v)

-- The code points of a text, which are its bytes in ASCII.
abbrev pub codes : String → List ℕ
codes String.[] = []
codes (String.◌∷◌ c s) = code c ∷ codes s
