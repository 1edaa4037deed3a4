-- ===== src/Payload/Ranges.antt =====
-- The ranges of what the decoder produces, and the bytes that it reads.
use rc_monitor.Base.{ℕ, ◌+◌, ◌/◌, ◌^◌, ◌<◌, ◌≤◌, bit_and, ◌≡◌, refl, sym, ap, ◌∙◌}
use rc_monitor.Base.{
  List, take, get_or-take, arith, Bool-cases, ltb, ltb→lt, if◌then◌else◌, inl, inr, some,
}
use rc_monitor.Base.Word.{to_u16, to_i16, to_i8, to_bool}
use rc_monitor.Base.Int.{ℤ, pos, negsuc, ◌-ℤ◌, ◌≤ℤ◌}
use rc_monitor.Base.Bits.{and_mask}
use rc_monitor.State.{RcState}
use rc_monitor.Payload.{byte_at, read_u16_le, axis_at, wheel_delta, decode_payload, parse_payload}

-- `v` is in `[-lo, hi]`.
abbrev pub Between : ℕ → ℕ → ℤ → Type 0
Between lo hi v = (pos 0 -ℤ pos lo ≤ℤ v) × (v ≤ℤ pos hi)

pub to_u16-lt : (v : ℤ) → to_u16 v < 65536
to_u16-lt (pos n) = omega arith
to_u16-lt (negsuc n) = omega arith

signed16_range : (w : ℕ) → w < 65536 → Between 32768 32767 (to_i16 (pos w))
unfolding ◌-ℤ◌
signed16_range w h = ground arith

to_i16_range : (v : ℤ) → Between 32768 32767 (to_i16 v)
unfolding ◌-ℤ◌
to_i16_range (pos n) = ground arith
to_i16_range (negsuc n) = ground arith

axis_range : (p : List ℕ) (i : ℕ) → Between 32768 32767 (axis_at p i)
unfolding axis_at
axis_range p i = to_i16_range (pos (read_u16_le p i) -ℤ pos 0x400)

magnitude-lt : (b : ℕ) → bit_and (b / 2) 0x1f < 32
magnitude-lt b = omega (arith, and_mask 5 (b / 2))

small_delta :
    (m : ℕ) (sign : ℕ)
    → m < 32
    → Between 31 31 (to_i8 (if to_bool sign then pos m else pos 0 -ℤ pos m))
unfolding ◌-ℤ◌
small_delta m sign h = ground arith

delta_range : (b : ℕ) → Between 31 31 (wheel_delta b)
unfolding wheel_delta
delta_range b = small_delta (bit_and (b / 2) 0x1f) (bit_and (b / 2 ^ 6) 1) (magnitude-lt b)

-- Whatever the payload, the six analog values fit an `int16_t` and the wheel moves by at most 31 each
-- way.
pub decode_payload_ranges :
    (p : List ℕ)
    → let s = decode_payload p in
      Between 32768 32767 s.stick_right.horizontal
      × Between 32768 32767 s.stick_right.vertical
      × Between 32768 32767 s.stick_left.horizontal
      × Between 32768 32767 s.stick_left.vertical
      × Between 32768 32767 s.left_wheel
      × Between 32768 32767 s.right_wheel
      × Between 31 31 s.right_wheel_delta
unfolding decode_payload
decode_payload_ranges p = (
  axis_range p 5,
  axis_range p 7,
  axis_range p 11,
  axis_range p 9,
  axis_range p 13,
  axis_range p 15,
  delta_range (byte_at p 4),
)

byte_at-take : (p : List ℕ) (i : ℕ) → i < 17 → byte_at (take 17 p) i ≡ byte_at p i
byte_at-take p i h = get_or-take 17 p i 0 h

axis_at-take : (p : List ℕ) (i : ℕ) → i < 16 → axis_at (take 17 p) i ≡ axis_at p i
unfolding axis_at read_u16_le
axis_at-take p i h = rw (byte_at-take p i (omega arith), byte_at-take p (i + 1) (omega arith))

decode_payload-take : (p : List ℕ) → decode_payload (take 17 p) ≡ decode_payload p
unfolding decode_payload
decode_payload-take p = cc (
  byte_at-take p 0 (omega arith),
  byte_at-take p 1 (omega arith),
  byte_at-take p 2 (omega arith),
  byte_at-take p 4 (omega arith),
  axis_at-take p 5 (omega arith),
  axis_at-take p 7 (omega arith),
  axis_at-take p 9 (omega arith),
  axis_at-take p 11 (omega arith),
  axis_at-take p 13 (omega arith),
  axis_at-take p 15 (omega arith),
)

pub decode_payload_17 : (p q : List ℕ) → take 17 p ≡ take 17 q → decode_payload p ≡ decode_payload q
decode_payload_17 p q e = sym (decode_payload-take p) ∙ ap decode_payload e ∙ decode_payload-take q

pub parse_payload_ok :
    (p : List ℕ) (n : ℕ) (old : RcState)
    → 17 ≤ n
    → parse_payload (some p) n (some old) ≡ (pos 0, some (decode_payload p))
unfolding parse_payload
parse_payload_ok p n old h = elim (Bool-cases (ltb n 17)) [
  | inl e ↦ absurd (omega (arith, ltb→lt n 17 e))
  | inr e ↦ rw e refl
]

-- The decoder, given an output, reads the first 17 bytes and none behind them: what follows in the buffer, and how
-- long the payload is once it has 17 bytes, make no difference.
pub parse_payload_reads_17 :
    (p q : List ℕ) (n m : ℕ) (old : RcState)
    → 17 ≤ n
    → 17 ≤ m
    → take 17 p ≡ take 17 q
    → parse_payload (some p) n (some old) ≡ parse_payload (some q) m (some old)
parse_payload_reads_17 p q n m old hn hm e =
    parse_payload_ok p n old hn
    ∙ ap (λ s. (pos 0, some s)) (decode_payload_17 p q e)
    ∙ sym (parse_payload_ok q m old hm)
