-- ===== src/Payload/Bytes.antt =====
-- The bit operations of the decoder in arithmetic, and the round trip of one 16-bit value.
use rc_monitor.Base.{ℕ, ◌+◌, ◌-◌, ◌*◌, ◌/◌, ◌%◌, ◌^◌, ◌<◌, bit_or, ◌≡◌, ap, ap₂, ◌∙◌}
use rc_monitor.Base.{arith}
use rc_monitor.Base.Word.{shl, u16, to_u16, to_i16, to_bool}
use rc_monitor.Base.Int.{ℤ, pos, negsuc, ◌+ℤ◌, ◌-ℤ◌, ◌≤ℤ◌}
use rc_monitor.Base.Bits.{and_mask, or_fields_low}
use rc_monitor.Payload.{bit_at}

-- Little-endian: the second byte counts 256.
pub le_word : (a b : ℕ) → a < 256 → b < 256 → bit_or (u16 a) (shl (u16 b) 8) ≡ a + 256 * b
le_word a b h k =
    ap₂ bit_or {x = u16 a} {y = a} (omega arith)
      (ap (λ t. shl t 8) {x = u16 b} {y = b} (omega arith))
    ∙ or_fields_low 8 b a (omega arith)
    ∙ omega arith

pub bit_at-eq : (b k : ℕ) → bit_at b k ≡ to_bool (b / 2 ^ k % 2)
unfolding bit_at
bit_at-eq b k = ap to_bool (and_mask 1 (b / 2 ^ k))

-- An axis is centred at 0x400.
unfoldable pub axis_of : ℕ → ℤ
axis_of w = to_i16 (pos w -ℤ pos 0x400)

-- An `int16_t` survives the offset by 0x400, the cast to `uint16_t` and the way back.
pub axis_of-to_u16 :
    (v : ℤ)
    → negsuc (2 ^ 15 - 1) ≤ℤ v
    → v ≤ℤ pos (2 ^ 15 - 1)
    → axis_of (to_u16 (v +ℤ pos 0x400)) ≡ v
unfolding axis_of ◌+ℤ◌ ◌-ℤ◌
axis_of-to_u16 (pos n) lo hi = ground arith
axis_of-to_u16 (negsuc n) lo hi = ground arith

-- In the range of the hardware no cast wraps: the axis is the distance from 0x400.
pub axis_of_physical : (w : ℕ) → w < 2 ^ 15 + 0x400 → axis_of w +ℤ pos 0x400 ≡ pos w
unfolding axis_of ◌+ℤ◌ ◌-ℤ◌
axis_of_physical w h = ground arith
